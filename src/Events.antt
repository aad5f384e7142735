-- ===== src/Events.antt =====
-- The event queue of kernel/core/events.c: a ring of 128 cells, one of which stays empty, with the
-- globals `queue`, `head` and `tail` as a record.
use khazaros.Base.{
  ℕ, zero, suc, ◌+◌, ◌-◌, ◌%◌, ◌≤◌, ◌<◌, ◌≡◌, Option, none, some, ◌==◌, if◌then◌else◌,
}
use khazaros.Base.Window.{put}
pub mod Queue
mod Tests

pub data EventType : Type 0 where
  none_event : EventType
  key_down : EventType
  mouse_move : EventType
  mouse_click : EventType
  mouse_release : EventType

-- `data1` to `data3` are 32-bit words.
pub record Event : Type 0 where
  pub type : EventType
  pub data1 : ℕ
  pub data2 : ℕ
  pub data3 : ℕ

pub record Events : Type 0 where
  pub queue : ℕ → Event
  pub head : ℕ
  pub tail : ℕ

-- `EVENT_QUEUE_SIZE`
abbrev pub event_queue_size : ℕ
event_queue_size = 128

-- an event whose bytes are all zero
abbrev pub zero_event : Event
zero_event = record { type = none_event; data1 = 0; data2 = 0; data3 = 0 }

unfoldable pub events_init : Events → Events
events_init s = record { queue = λ i. zero_event; head = 0; tail = 0 }

unfoldable pub events_push : Event → Events → Events
unfolding put
events_push event s =
    let next = (s.tail + 1) % event_queue_size in
    if next == s.head
    then s
    else record { queue = put s.queue s.tail event; head = s.head; tail = next }

-- the event and the state after it, or nothing from an empty queue
unfoldable pub events_pop : Events → Option (Event × Events)
events_pop s =
    if s.head == s.tail
    then none
    else some (
      s.queue s.head,
      record { queue = s.queue; head = (s.head + 1) % event_queue_size; tail = s.tail },
    )
