-- ===== src/Proc/Queue.antt =====
-- The scheduler's queue: a new thread comes last, and threads are picked in turn.
use khazaros.Base.{
  ℕ, zero, suc, ◌+◌, ◌-◌, ◌<◌, ◌≤◌, ◌≡◌, ◌≢◌, refl, sym, ap, ◌∙◌, some, arith, ◌==◌, if◌then◌else◌,
  Bool-cases, inl, inr, ==→eq, ==-refl, ne→==,
}
use khazaros.Base.Window.{put}
use khazaros.Proc.{Thread, Procs, set_next, with_threads, append_after, scheduler_add_thread}
use khazaros.Proc.Ring.{walk, IsRing, IsQueue, find_last-walk, nth-last}

-- `s₁` has the `n` threads of the queue of `s` and `thread` after them.
pub record IsAppended (s s₁ : Procs) (n thread : ℕ) : Type 0 where
  pub queue : IsQueue s₁ (n + 1)
  pub kept : (k : ℕ) → k < n → walk s₁.thread_at k s₁.ready_queue ≡ walk s.thread_at k s.ready_queue
  pub added : walk s₁.thread_at n s₁.ready_queue ≡ thread

module _ (s : Procs) (n thread : ℕ) (h : IsQueue s n) (real : thread ≢ 0)
    (fresh : (k : ℕ) → k < n → walk s.thread_at k s.ready_queue ≢ thread) where
  last : ℕ
  last = walk s.thread_at (n - 1) s.ready_queue

  linked : ℕ → Thread
  linked = put s.thread_at last (set_next thread (s.thread_at last))

  appended : ℕ → Thread
  appended = put linked thread (set_next s.ready_queue (linked thread))

  appended-next :
      (a : ℕ)
      → (appended a).next ≡ (
          if a == thread then s.ready_queue else if a == last then thread else (s.thread_at a).next)
  unfolding appended linked put
  appended-next a = elim (Bool-cases (a == thread)) [
    | inl e ↦ rw e refl
    | inr ne ↦
        rw ne (elim (Bool-cases (a == last)) [ inl e ↦ rw e refl | inr other ↦ rw other refl ])
  ]

  walk-appended : (k : ℕ) → k < n → walk appended k s.ready_queue ≡ walk s.thread_at k s.ready_queue
  unfolding walk last
  walk-appended zero lt = refl
  walk-appended (suc k) lt =
      ap (λ a. (appended a).next) (walk-appended k (omega arith))
      ∙ appended-next (walk s.thread_at k s.ready_queue)
      ∙ rw
          (
            ne→== (walk s.thread_at k s.ready_queue) thread (fresh k (omega arith)),
            ne→== (walk s.thread_at k s.ready_queue) last (nth-last s n h k (omega arith)),
          )
          refl

  walk-added : walk appended n s.ready_queue ≡ thread
  unfolding walk last
  walk-added =
      ap (λ k. walk appended k s.ready_queue) one_more
      ∙ ap (λ a. (appended a).next) (walk-appended (n - 1) (omega (arith, h.some_thread)))
      ∙ appended-next last
      ∙ rw (ne→== last thread (fresh (n - 1) (omega (arith, h.some_thread))), ==-refl last) refl
    where
      one_more : n ≡ suc (n - 1)
      one_more = omega (arith, h.some_thread)

  appended-IsRing : IsRing appended s.ready_queue (n + 1)
  unfolding walk
  appended-IsRing = record {
    some_thread = omega arith;
    closed =
        ap (λ k. walk appended k s.ready_queue) one_more
        ∙ ap (λ a. (appended a).next) walk-added
        ∙ appended-next thread
        ∙ rw (==-refl thread) refl;
    not_before = λ k a b. elim (Bool-cases (k == n)) [
      | inl e ↦ λ back.
          fresh 0 h.some_thread
            (sym back ∙ ap (λ i. walk appended i s.ready_queue) (==→eq k n e) ∙ walk-added)
      | inr ne ↦
          λ back. h.not_before k a (ground arith) (sym (walk-appended k (ground arith)) ∙ back)
    ];
    not_null = λ k a. elim (Bool-cases (k == n)) [
      | inl e ↦ λ null.
          real (sym walk-added ∙ ap (λ i. walk appended i s.ready_queue) (sym (==→eq k n e)) ∙ null)
      | inr ne ↦ λ null. h.not_null k (ground arith) (sym (walk-appended k (ground arith)) ∙ null)
    ];
  }
    where
      one_more : n + 1 ≡ suc n
      one_more = omega arith

  -- On a queue that is a ring, `scheduler_add_thread` ends, with a round of its loop for each
  -- thread there, and puts a thread that is not NULL and not in the queue behind its last thread;
  -- the queue is a ring again.
  pub scheduler_add_thread-IsAppended :
      (fuel : ℕ)
      → n ≤ fuel
      → (s₁ : Procs) × (scheduler_add_thread fuel thread s ≡ some s₁) × IsAppended s s₁ n thread
  unfolding scheduler_add_thread append_after appended linked last walk
  scheduler_add_thread-IsAppended fuel enough = (
    with_threads appended s,
    rw (ne→== s.ready_queue 0 (h.not_null 0 h.some_thread)) (
        ap (λ o. append_after o thread s)
          (find_last-walk s n h fuel 0 h.some_thread (omega arith))),
    record { queue = appended-IsRing; kept = walk-appended; added = walk-added },
  )
