-- ===== src/Events/Tests.antt =====
-- Examples of the event queue.
use khazaros.Base.{◌≡◌, arith}
use khazaros.Events.{Event, Events, key_down, zero_event, events_push, events_pop}
use khazaros.Events.Queue.{
  IsEvents, count, pending, enqueue, Taken, events_push-pending, events_pop-pending,
}

abbrev key : Event
key = record { type = key_down; data1 = 65; data2 = 0; data3 = 0 }

-- three events that go around the end of the table
abbrev around : Events
around = record { queue = λ i. zero_event; head = 126; tail = 1 }

around-IsEvents : IsEvents around
around-IsEvents = record { head_small = omega arith; tail_small = omega arith }

events_push-pending_example :
    IsEvents (events_push key around)
    × (pending (events_push key around) ≡ enqueue 127 key (count around) (pending around))
events_push-pending_example = events_push-pending key around around-IsEvents

events_pop-pending_example : Taken around (events_pop around)
events_pop-pending_example = events_pop-pending around around-IsEvents
