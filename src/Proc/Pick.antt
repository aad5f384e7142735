-- ===== src/Proc/Pick.antt =====
-- Which thread the scheduler picks: the next one in the queue that can run.
use khazaros.Base.{
  ℕ, zero, suc, ◌+◌, ◌<◌, ◌≤◌, ◌≡◌, ◌≢◌, refl, sym, ap, ◌∙◌, Bool, true, false, some, arith,
  Bool-cases, inl, inr, ne→==,
}
use khazaros.Proc.{Thread, Procs, is_runnable, skip_threads, skip_counted, pick_thread}
use khazaros.Proc.Ring.{walk, walk-front, walk-walk, IsQueue, count_queue-walk, walk-not_null}

-- whether the thread at an address can run
abbrev pub runnable_at : (ℕ → Thread) → ℕ → Bool
runnable_at f a = is_runnable (f a).state

-- `thread` is `m` steps after `first`, the threads before it cannot run, and it can unless `m` is
-- `left`.
pub record IsPicked (f : ℕ → Thread) (left first thread m : ℕ) : Type 0 where
  pub bounded : m ≤ left
  pub where_it_is : thread ≡ walk f m first
  pub passed : (j : ℕ) → j < m → runnable_at f (walk f j first) ≡ false
  pub stops : m < left → runnable_at f thread ≡ true

skip_threads-IsPicked :
    (left first : ℕ) (s : Procs)
    → ((k : ℕ) → walk s.thread_at k first ≢ 0)
    → (m : ℕ) × IsPicked s.thread_at left first (skip_threads left first s) m
unfolding skip_threads walk
skip_threads-IsPicked zero first s real = (
  0,
  record {
    bounded = omega arith;
    where_it_is = refl;
    passed = λ j lt. absurd (omega arith);
    stops = λ lt. absurd (omega arith);
  },
)
skip_threads-IsPicked (suc left) first s real = elim (Bool-cases (runnable_at s.thread_at first)) [
  | inl runs ↦
      rw (ne→== first 0 (real 0), runs)
        (
          0,
          record {
            bounded = omega arith;
            where_it_is = refl;
            passed = λ j lt. absurd (omega arith);
            stops = λ lt. runs;
          },
        )
  | inr waits ↦
      rw (ne→== first 0 (real 0), waits)
        (let (m, picked) =
            skip_threads-IsPicked left (s.thread_at first).next s
              (λ k e. real (suc k) (sym (walk-front s.thread_at k first) ∙ e)) in
          (
            suc m,
            record {
              bounded = omega (arith, picked.bounded);
              where_it_is = picked.where_it_is ∙ walk-front s.thread_at m first;
              passed = passed_one m waits picked.passed;
              stops = λ lt. picked.stops (omega arith);
            },
          ))
]
  where
    passed_one :
        (m : ℕ)
        → runnable_at s.thread_at first ≡ false
        → ((j : ℕ)
            → j < m
            → runnable_at s.thread_at (walk s.thread_at j (s.thread_at first).next) ≡ false)
        → (j : ℕ) → j < suc m
        → runnable_at s.thread_at (walk s.thread_at j first) ≡ false
    passed_one m waits rest zero lt = waits
    passed_one m waits rest (suc j) lt =
        ap (runnable_at s.thread_at) (sym (walk-front s.thread_at j first)) ∙ rest j (omega arith)

-- On a queue that is a ring, with a round for each thread and a thread of the queue as the
-- current one, the scheduler goes on from the one after it: it passes over the threads that
-- cannot run, and stops at the first that can, or after the whole queue.
pub pick_thread-IsPicked :
    (fuel n i : ℕ) (s : Procs)
    → IsQueue s n
    → n ≤ fuel
    → s.current_thread ≡ walk s.thread_at i s.ready_queue
    → (thread m : ℕ) × (pick_thread fuel s ≡ some thread)
      × IsPicked s.thread_at n (walk s.thread_at (suc i) s.ready_queue) thread m
unfolding pick_thread skip_counted walk
pick_thread-IsPicked fuel n i s h enough current =
    let (m, picked) = skip_threads-IsPicked n (walk s.thread_at (suc i) s.ready_queue) s real in
    (
      skip_threads n (walk s.thread_at (suc i) s.ready_queue) s,
      m,
      rw
          (
            count_queue-walk s n h fuel 0 h.some_thread (omega arith),
            ne→== s.current_thread 0 current_real,
          )
          (ap (λ a. some (skip_threads n (s.thread_at a).next s)) current),
      picked,
    )
  where
    current_real : s.current_thread ≢ 0
    current_real e = walk-not_null s n h i (sym current ∙ e)

    real : (k : ℕ) → walk s.thread_at k (walk s.thread_at (suc i) s.ready_queue) ≢ 0
    real k e =
        walk-not_null s n h (k + suc i) (sym (walk-walk s.thread_at k (suc i) s.ready_queue) ∙ e)
