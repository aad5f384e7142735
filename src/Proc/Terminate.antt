-- ===== src/Proc/Terminate.antt =====
-- What `process_terminate` does, by where the process's threads lead.
use khazaros.Base.{
  ℕ, zero, suc, ◌+◌, ◌-◌, ◌<◌, ◌≡◌, ◌≢◌, refl, sym, ap, ◌∙◌, none, some, arith, ◌==◌, Bool-cases,
  inl, inr, ==→eq, ==-refl, ne→==,
}
use mathlib.Core.Option
use khazaros.Base.Window.{put, put-same}
use khazaros.Proc.{
  Thread, terminated, zombie, alive, Procs, set_state, with_threads, with_processes, finish,
  clear_fds, kill_threads, close_fds, process_terminate,
}
use khazaros.Proc.Ring.{walk, walk-front, walk-walk, walk-links, IsQueue, walk-not_null}

kill-links : (f : ℕ → Thread) (t b : ℕ) → (put f t (set_state terminated (f t)) b).next ≡ (f b).next
unfolding put
kill-links f t b = elim (Bool-cases (b == t)) [
  | inl e ↦ rw e (ap (λ a. (f a).next) (sym (==→eq b t e)))
  | inr ne ↦ rw ne refl
]

-- The loop over threads that never lead to NULL does not end.
kill_threads-endless :
    (fuel t : ℕ) (s : Procs) → ((k : ℕ) → walk s.thread_at k t ≢ 0) → kill_threads fuel t s ≡ none
unfolding kill_threads walk
kill_threads-endless zero t s real = refl
kill_threads-endless (suc fuel) t s real = rw (ne→== t 0 (real 0)) (
    kill_threads-endless fuel (s.thread_at t).next
      (with_threads (put s.thread_at t (set_state terminated (s.thread_at t))) s)
      λ k e. real (suc k) (
        sym (walk-front s.thread_at k t)
        ∙ sym (
            walk-links (put s.thread_at t (set_state terminated (s.thread_at t))) s.thread_at k
              (s.thread_at t).next (kill-links s.thread_at t))
        ∙ e))

-- If the scheduler's queue is a ring and the threads of a process that is alive begin in it,
-- `process_terminate` of that process does not end: it follows the same links as the queue, which
-- lead around.
pub process_terminate_endless :
    (fuel proc status n i : ℕ) (s : Procs)
    → IsQueue s n
    → proc ≢ 0
    → (s.process_at proc).state ≡ alive
    → (s.process_at proc).threads ≡ walk s.thread_at i s.ready_queue
    → process_terminate fuel proc status s ≡ none
unfolding process_terminate close_fds
process_terminate_endless fuel proc status n i s h real lives queued =
    rw (ne→== proc 0 real, lives)
      (ap (Option.map (close_fds proc)) (
        kill_threads-endless fuel (s.process_at proc).threads
          (with_processes (put s.process_at proc (finish zombie status (s.process_at proc))) s)
          λ k e. walk-not_null s n h (k + i) (
            sym (walk-walk s.thread_at k i s.ready_queue)
            ∙ ap (walk s.thread_at k) (sym queued)
            ∙ e)))

-- the threads from `t` on are a list of `n` that ends with NULL
pub record IsList (f : ℕ → Thread) (t n : ℕ) : Type 0 where
  pub ends : walk f n t ≡ 0
  pub real : (k : ℕ) → k < n → walk f k t ≢ 0

-- `s₁` is `s` after the `n` threads from `t` on are killed.
record IsKilled (s s₁ : Procs) (t n : ℕ) : Type 0 where
  processes : s₁.process_at ≡ s.process_at
  killed : (k : ℕ) → k < n → (s₁.thread_at (walk s.thread_at k t)).state ≡ terminated
  stays : (b : ℕ) → (s.thread_at b).state ≡ terminated → (s₁.thread_at b).state ≡ terminated

kill_one : (t : ℕ) → Procs → Procs
kill_one t s = with_threads (put s.thread_at t (set_state terminated (s.thread_at t))) s

kill_one-stays :
    (t b : ℕ) (s : Procs)
    → (s.thread_at b).state ≡ terminated
    → ((kill_one t s).thread_at b).state ≡ terminated
unfolding kill_one put
kill_one-stays t b s h = elim (Bool-cases (b == t)) [ inl e ↦ rw e refl | inr ne ↦ rw ne h ]

kill_one-same : (t : ℕ) (s : Procs) → ((kill_one t s).thread_at t).state ≡ terminated
unfolding kill_one put
kill_one-same t s = rw (==-refl t) refl

kill_one-walk :
    (t k : ℕ) (s : Procs)
    → walk (kill_one t s).thread_at k (s.thread_at t).next ≡ walk s.thread_at (suc k) t
unfolding kill_one
kill_one-walk t k s =
    walk-links (kill_one t s).thread_at s.thread_at k (s.thread_at t).next
      (kill-links s.thread_at t)
    ∙ walk-front s.thread_at k t

kill_threads-IsKilled :
    (fuel n t : ℕ) (s : Procs)
    → IsList s.thread_at t n
    → n < fuel
    → (s₁ : Procs) × (kill_threads fuel t s ≡ some s₁) × IsKilled s s₁ t n
unfolding kill_threads kill_one walk
kill_threads-IsKilled zero n t s h enough = absurd (omega arith)
kill_threads-IsKilled (suc fuel) zero t s h enough = (
  s,
  rw h.ends refl,
  record { processes = refl; killed = λ k lt. absurd (omega arith); stays = λ b e. e },
)
kill_threads-IsKilled (suc fuel) (suc n) t s h enough =
    let (s₁, runs, rest) =
      kill_threads-IsKilled fuel n (s.thread_at t).next (kill_one t s)
        record {
          ends = kill_one-walk t n s ∙ h.ends;
          real = λ k lt e. h.real (suc k) (omega arith) (sym (kill_one-walk t k s) ∙ e);
        }
        (omega arith) in
    (
      s₁,
      rw (ne→== t 0 (h.real 0 (omega arith))) runs,
      record {
        processes = rest.processes;
        killed = λ k lt. elim (Bool-cases (k == 0)) [
          | inl e ↦
              ap (λ i. (s₁.thread_at (walk s.thread_at i t)).state) (==→eq k 0 e)
              ∙ rest.stays t (kill_one-same t s)
          | inr ne ↦
              ap (λ i. (s₁.thread_at (walk s.thread_at i t)).state) {y = suc (k - 1)} (ground arith)
              ∙ ap (λ a. (s₁.thread_at a).state) (sym (kill_one-walk t (k - 1) s))
              ∙ rest.killed (k - 1) (ground arith)
        ];
        stays = λ b e. rest.stays b (kill_one-stays t b s e);
      },
    )

-- If the threads of a process that is alive are a list that ends with NULL, `process_terminate`
-- ends, with a round of its loop for each thread and one for the end: the process is a zombie
-- with the status, and its threads are terminated.
pub process_terminate-zombie :
    (fuel proc status n : ℕ) (s : Procs)
    → IsList s.thread_at (s.process_at proc).threads n
    → n < fuel
    → proc ≢ 0
    → (s.process_at proc).state ≡ alive
    → (s₁ : Procs) × (process_terminate fuel proc status s ≡ some s₁)
      × ((s₁.process_at proc).state ≡ zombie)
      × ((s₁.process_at proc).exit_status ≡ status)
      × ((k : ℕ)
          → k < n
          → (s₁.thread_at (walk s.thread_at k (s.process_at proc).threads)).state ≡ terminated)
unfolding process_terminate close_fds put
process_terminate-zombie fuel proc status n s h enough real lives =
    let (s₁, runs, done) =
      kill_threads-IsKilled fuel n (s.process_at proc).threads
        (with_processes (put s.process_at proc (finish zombie status (s.process_at proc))) s)
        record { ends = h.ends; real = h.real } enough in
    (
      close_fds proc s₁,
      rw (ne→== proc 0 real, lives, runs) refl,
      ap (λ p. p.state) (final s₁ done.processes),
      ap (λ p. p.exit_status) (final s₁ done.processes),
      λ k lt. done.killed k lt,
    )
  where
    final :
        (s₁ : Procs)
        → s₁.process_at ≡ put s.process_at proc (finish zombie status (s.process_at proc))
        → put s₁.process_at proc (clear_fds (s₁.process_at proc)) proc
          ≡ clear_fds (finish zombie status (s.process_at proc))
    final s₁ same =
        put-same s₁.process_at proc (clear_fds (s₁.process_at proc))
        ∙ ap (λ f. clear_fds (f proc)) same
        ∙ ap clear_fds (put-same s.process_at proc (finish zombie status (s.process_at proc)))
