-- ===== src/Proc/Wait.antt =====
-- Wait queues of up to 64 threads: kernel/proc/wait.c. `wait_on` ends with an interrupt that runs
-- the scheduler; the definition gives the state in which it does.
use khazaros.Base.{
  ℕ, zero, suc, ◌+◌, ◌<◌, ◌≤◌, ◌≡◌, ◌≢◌, refl, sym, ap, ◌∙◌, true, not, ◌||◌, arith, ◌==◌, ltb,
  if◌then◌else◌, Bool-cases, inl, inr, ==→eq, ==-refl, ne→==, lt→ltb, ◌⊎◌,
}
use khazaros.Base.Window.{put, put-same}
use khazaros.Proc.{ThreadState, ready, blocked, Procs, set_state, with_threads}

pub record WaitQueue : Type 0 where
  pub threads : ℕ → ℕ
  pub count : ℕ

-- `MAX_PROCESSES`
abbrev pub max_processes : ℕ
max_processes = 64

unfoldable pub wait_queue_init : WaitQueue → WaitQueue
wait_queue_init q = record { threads = q.threads; count = 0 }

-- The state of a thread is set.
unfoldable pub set_thread_state : (t : ℕ) (st : ThreadState) → Procs → Procs
unfolding put
set_thread_state t st s = with_threads (put s.thread_at t (set_state st (s.thread_at t))) s

unfoldable pub wait_on : WaitQueue → Procs → WaitQueue × Procs
unfolding put set_thread_state
wait_on q s = if (s.current_thread == 0) || not (ltb q.count max_processes) then (q, s) else (
  record { threads = put q.threads q.count s.current_thread; count = q.count + 1 },
  set_thread_state s.current_thread blocked s,
)

-- the loop, from entry `i` on
unfoldable pub wake_loop : (left i : ℕ) → WaitQueue → Procs → Procs
wake_loop zero i q s = s
wake_loop (suc left) i q s = wake_loop left (i + 1) q (set_thread_state (q.threads i) ready s)

unfoldable pub wake_up : WaitQueue → Procs → WaitQueue × Procs
unfolding wake_loop
wake_up q s = (record { threads = q.threads; count = 0 }, wake_loop q.count 0 q s)

state-set :
    (t a : ℕ) (st : ThreadState) (s : Procs)
    → ((set_thread_state t st s).thread_at a).state ≡ (if a == t then st else (s.thread_at a).state)
unfolding set_thread_state put
state-set t a st s = elim (Bool-cases (a == t)) [ inl e ↦ rw e refl | inr ne ↦ rw ne refl ]

-- A thread that does not wait keeps its state, and one that is ready stays so.
wake_loop-kept :
    (left i a : ℕ) (q : WaitQueue) (s : Procs)
    → ((k : ℕ) → i ≤ k → k < i + left → q.threads k ≢ a) ⊎ ((s.thread_at a).state ≡ ready)
    → ((wake_loop left i q s).thread_at a).state ≡ (s.thread_at a).state
unfolding wake_loop
wake_loop-kept zero i a q s h = refl
wake_loop-kept (suc left) i a q s (inr is_ready) =
    wake_loop-kept left (i + 1) a q (set_thread_state (q.threads i) ready s)
      (inr (still ∙ is_ready))
    ∙ still
  where
    still : ((set_thread_state (q.threads i) ready s).thread_at a).state ≡ (s.thread_at a).state
    still =
        state-set (q.threads i) a ready s
        ∙ elim (Bool-cases (a == q.threads i)) [ inl e ↦ rw e (sym is_ready) | inr ne ↦ rw ne refl ]
wake_loop-kept (suc left) i a q s (inl other) =
    wake_loop-kept left (i + 1) a q (set_thread_state (q.threads i) ready s)
      (inl λ k le lt. other k (omega arith) (omega arith))
    ∙ state-set (q.threads i) a ready s
    ∙ rw (ne→== a (q.threads i) (λ e. other i (omega arith) (omega arith) (sym e))) refl

wake_loop-ready :
    (left i k : ℕ) (q : WaitQueue) (s : Procs)
    → i ≤ k
    → k < i + left
    → ((wake_loop left i q s).thread_at (q.threads k)).state ≡ ready
unfolding wake_loop
wake_loop-ready zero i k q s le lt = absurd (omega arith)
wake_loop-ready (suc left) i k q s le lt = elim (Bool-cases (k == i)) [
  | inr ne ↦
      wake_loop-ready left (i + 1) k q (set_thread_state (q.threads i) ready s) (ground arith)
        (omega arith)
  | inl e ↦
      wake_loop-kept left (i + 1) (q.threads k) q (set_thread_state (q.threads i) ready s)
        (inr (now e))
      ∙ now e
]
  where
    now :
        (k == i) ≡ true
        → ((set_thread_state (q.threads i) ready s).thread_at (q.threads k)).state ≡ ready
    now e =
        state-set (q.threads i) (q.threads k) ready s
        ∙ rw (ap (λ j. q.threads j) (==→eq k i e), ==-refl (q.threads i)) refl

-- `wake_up` makes every thread of the queue ready, leaves the state of every other thread as it was,
-- and empties the queue.
pub wake_up_lem :
    (q : WaitQueue) (s : Procs)
    → ((wake_up q s).0.count ≡ 0)
      × ((k : ℕ) → k < q.count → ((wake_up q s).1.thread_at (q.threads k)).state ≡ ready)
      × ((a : ℕ)
          → ((k : ℕ) → k < q.count → q.threads k ≢ a)
          → ((wake_up q s).1.thread_at a).state ≡ (s.thread_at a).state)
unfolding wake_up
wake_up_lem q s = (
  refl,
  λ k lt. wake_loop-ready q.count 0 k q s (omega arith) (omega arith),
  λ a other. wake_loop-kept q.count 0 a q s (inl λ k le lt. other k (omega arith)),
)

joined : WaitQueue → (t : ℕ) → WaitQueue
joined q t = record { threads = put q.threads q.count t; count = q.count + 1 }

wait_on-joined :
    (q : WaitQueue) (s : Procs)
    → s.current_thread ≢ 0
    → q.count < 64
    → wait_on q s ≡ (joined q s.current_thread, set_thread_state s.current_thread blocked s)
unfolding wait_on joined
wait_on-joined q s real room = rw (ne→== s.current_thread 0 real, lt→ltb q.count 64 room) refl

-- The current thread, if there is one, is blocked once it waits on a queue with room, and the
-- next `wake_up` makes it ready.
pub wake_up-wait_on :
    (q : WaitQueue) (s : Procs)
    → s.current_thread ≢ 0
    → q.count < 64
    → (((wait_on q s).1.thread_at s.current_thread).state ≡ blocked)
      × (((wake_up (wait_on q s).0 (wait_on q s).1).1.thread_at s.current_thread).state ≡ ready)
unfolding joined
wake_up-wait_on q s real room = rw (wait_on-joined q s real room) (blocks, wakes)
  where
    t : ℕ
    t = s.current_thread

    s₁ : Procs
    s₁ = set_thread_state t blocked s

    blocks : (s₁.thread_at t).state ≡ blocked
    blocks = state-set t t blocked s ∙ rw (==-refl t) refl

    wakes : ((wake_up (joined q t) s₁).1.thread_at t).state ≡ ready
    wakes =
        ap (λ a. ((wake_up (joined q t) s₁).1.thread_at a).state)
          (sym (put-same q.threads q.count t))
        ∙ (wake_up_lem (joined q t) s₁).1 q.count (omega arith)
