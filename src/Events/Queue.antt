-- ===== src/Events/Queue.antt =====
-- The ring of events is a first-in first-out queue that holds up to 127 events.
use khazaros.Base.{
  ℕ, suc, ◌+◌, ◌-◌, ◌%◌, ◌<◌, ◌≡◌, ap, ◌∙◌, List, [], ◌∷◌, ◌++◌, Option, none, some, arith, ◌==◌,
  ltb, if◌then◌else◌, Bool-cases, true, false, inl, inr,
}
use khazaros.Base.Window.{next, after, put, window, window-put}
use khazaros.Events.{Event, Events, events_push, events_pop}

-- both indices are in the table
pub record IsEvents (s : Events) : Type 0 where
  pub head_small : s.head < 128
  pub tail_small : s.tail < 128

abbrev pub count : Events → ℕ
count s = (s.tail + 128 - s.head) % 128

-- the events that wait, the oldest first
unfoldable pub pending : Events → List Event
pending s = window 128 s.queue s.head (count s)

-- what a queue of limited length does with a new element
unfoldable pub enqueue : {A : Type 0} → (limit : ℕ) → A → (held : ℕ) → List A → List A
enqueue limit a held q = if ltb held limit then q ++ (a ∷ []) else q

-- With both indices in the table, a new event joins the queue at its end, unless 127 events wait:
-- then it is dropped.
pub events_push-pending :
    (event : Event) (s : Events)
    → IsEvents s
    → IsEvents (events_push event s)
      × (pending (events_push event s) ≡ enqueue 127 event (count s) (pending s))
unfolding events_push pending enqueue
events_push-pending event s h = (
  record { head_small = ground (arith, h.head_small); tail_small = ground (arith, h.tail_small) },
  elim (Bool-cases ((s.tail + 1) % 128 == s.head)) [
    | inl full ↦ rw full (ground (arith, h.head_small, h.tail_small, full))
    | inr room ↦ rw room (
        ap (window 128 (put s.queue s.tail event) s.head) (grown room)
        ∙ window-put 128 s.queue event (count s) s.head s.tail h.head_small (omega arith)
            (at_end room)
        ∙ ground (arith, h.head_small, h.tail_small, room))
  ],
)
  where
    grown :
        ((s.tail + 1) % 128 == s.head) ≡ false
        → ((s.tail + 1) % 128 + 128 - s.head) % 128 ≡ count s + 1
    grown room = ground (arith, h.head_small, h.tail_small, room)

    at_end : ((s.tail + 1) % 128 == s.head) ≡ false → s.tail ≡ after 128 s.head (count s)
    at_end room = ground (arith, h.head_small, h.tail_small, room)

-- `s` loses its oldest event, and has none if there is no result
abbrev pub Taken : Events → Option (Event × Events) → Type 0
Taken s none = pending s ≡ []
Taken s (some (event, s₁)) = IsEvents s₁ × (pending s ≡ event ∷ pending s₁)

-- With both indices in the table, `events_pop` takes the oldest event that waits, and fails only
-- if none does.
pub events_pop-pending : (s : Events) → IsEvents s → Taken s (events_pop s)
unfolding events_pop pending window
events_pop-pending s h = elim (Bool-cases (s.head == s.tail)) [
  | inl empty ↦ rw empty (ap (window 128 s.queue s.head) (drained empty))
  | inr held ↦ rw held (
    record { head_small = omega arith; tail_small = h.tail_small },
    ap (window 128 s.queue s.head) (shrunk held)
        ∙ ap
            (λ i. s.queue s.head ∷ window 128 s.queue i ((s.tail + 128 - (s.head + 1) % 128) % 128))
            moved,
  )
]
  where
    drained : (s.head == s.tail) ≡ true → count s ≡ 0
    drained empty = ground (arith, h.head_small, h.tail_small, empty)

    shrunk : (s.head == s.tail) ≡ false → count s ≡ suc ((s.tail + 128 - (s.head + 1) % 128) % 128)
    shrunk held = ground (arith, h.head_small, h.tail_small, held)

    moved : next 128 s.head ≡ (s.head + 1) % 128
    moved = ground (arith, h.head_small)
