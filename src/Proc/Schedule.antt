-- ===== src/Proc/Schedule.antt =====
-- `scheduler_schedule` of kernel/proc/scheduler/scheduler.c: the context that is resumed.
-- `sched_ticks` is an argument and a result. `process_cleanup` in the sweep works on the list that
-- is walked.
pub mod Resume
use khazaros.Base.{
  ℕ, zero, suc, ◌+◌, ◌-◌, ◌%◌, ◌^◌, Bool, true, false, ◌||◌, Option, none, some, ◌==◌, ltb,
  if◌then◌else◌,
}
use mathlib.Core.Option
use khazaros.Base.Window.{put}
use khazaros.Vmm.{v2p}
use khazaros.Proc.Services.{Services}
use khazaros.Proc.{
  Thread, ThreadState, ready, running, blocked, terminated, Procs, with_threads, set_state,
  is_zombie, pick_thread, process_get_by_pid,
}
use khazaros.Proc.Reap.{process_get_list, process_cleanup}

-- `current_thread->context = regs`
unfoldable pub save_context : (regs : ℕ) → Procs → Procs
unfolding put
save_context regs s =
    if s.current_thread == 0
    then s
    else with_threads
        (put s.thread_at s.current_thread
          (record (s.thread_at s.current_thread) { context = regs }))
        s

abbrev pub is_terminated : ThreadState → Bool
is_terminated ready = false
is_terminated running = false
is_terminated blocked = false
is_terminated terminated = true

abbrev pub with_current : ℕ → Procs → Procs
with_current t s = record s { current_thread = t }

-- What `scheduler_schedule` returns, the context, with what it leaves.
abbrev pub Scheduled : Type 0 → Type 0
Scheduled W = ℕ × (ℕ × (Procs × W))

-- the thread that is `current_thread` now, made running
unfoldable pub run_thread : (thread : ℕ) → Procs → Procs
unfolding put
run_thread thread s =
    with_current thread
      (with_threads (put s.thread_at thread (set_state running (s.thread_at thread))) s)

-- `!parent || parent->state == PROCESS_STATE_ZOMBIE`
unfoldable pub is_orphan : (parent : ℕ) → Procs → Bool
is_orphan parent s = (parent == 0) || is_zombie (s.process_at parent).state

module _ {W : Type 0} (d : Services W) where
  -- A process of the sweep: it is cleaned up if it is a zombie without a parent that could wait for
  -- it.
  unfoldable pub sweep_process : (fuel curr : ℕ) → Procs → W → Option (Procs × W)
  unfolding is_orphan process_cleanup
  sweep_process fuel curr s w =
      if is_zombie (s.process_at curr).state
      then sweep_orphan (process_get_by_pid fuel (s.process_at curr).parent_pid s)
      else some (s, w)
    where
      sweep_orphan : Option ℕ → Option (Procs × W)
      sweep_orphan none = none
      sweep_orphan (some parent) =
          if is_orphan parent s then process_cleanup d fuel curr s w else some (s, w)

  -- what follows a part of the code that may not come back
  abbrev pub and_then : {B : Type 0} → Option (Procs × W) → (Procs → W → Option B) → Option B
  and_then none k = none
  and_then (some (s, w)) k = k s w

  -- `while (curr)`, on fuel, with `next` read before
  unfoldable pub sweep_loop : (rounds fuel curr : ℕ) → Procs → W → Option (Procs × W)
  unfolding sweep_process
  sweep_loop zero fuel curr s w = none
  sweep_loop (suc rounds) fuel curr s w =
      let next = (s.process_at curr).next in
      let rest = and_then (sweep_process fuel curr s w) (sweep_loop rounds fuel next) in
      if curr == 0 then some (s, w) else rest

  -- every 101st call: the ticks, and the processes
  unfoldable pub sweep : (fuel ticks : ℕ) → Procs → W → ℕ × Option (Procs × W)
  unfolding sweep_loop process_get_list
  sweep fuel ticks s w =
      if ltb 100 (ticks + 1)
      then (0, sweep_loop fuel fuel (process_get_list s) s w)
      else (ticks + 1, some (s, w))

  -- no thread to resume
  unfoldable pub idle : (regs : ℕ) → Procs → W → ℕ × (Procs × W)
  idle regs s w =
      (regs, (with_current 0 s, d.vmm_switch_directory (v2p (d.vmm_get_kernel_directory w)) w))

  -- the directory of a process, or the kernel's
  unfoldable pub directory_of : (proc : ℕ) → Procs → W → ℕ
  directory_of proc s w =
      if (proc == 0) || ((s.process_at proc).page_directory == 0)
      then d.vmm_get_kernel_directory w
      else (s.process_at proc).page_directory

  -- The end of the function, from the test of the thread that was picked.
  unfoldable pub resume : (thread regs : ℕ) → Procs → W → ℕ × (Procs × W)
  unfolding idle directory_of run_thread
  resume thread regs s w =
      let t = s.thread_at thread in
      let s₁ = run_thread thread s in
      let w₁ =
        if t.kernel_stack == 0
        then w
        else d.set_kernel_stack ((t.kernel_stack + 8192) % 2 ^ 32) w in
      if (thread == 0) || is_terminated t.state
      then idle regs s w
      else if t.context == 0
      then (regs, (s₁, w₁))
      else (t.context, (s₁, d.vmm_switch_directory (v2p (directory_of t.process s w₁)) w₁))

  -- The choice of the next thread, after the sweep.
  unfoldable pub pick_and_resume : (fuel ticks regs : ℕ) → Procs → W → Option (Scheduled W)
  unfolding resume pick_thread
  pick_and_resume fuel ticks regs s w =
      Option.map
        (λ thread. let (context, rest) = resume thread regs s w in (context, (ticks, rest)))
        (pick_thread fuel s)

  unfoldable pub scheduler_schedule : (fuel ticks regs : ℕ) → Procs → W → Option (Scheduled W)
  unfolding save_context sweep pick_and_resume
  scheduler_schedule fuel ticks regs s w =
      let (ticks₁, swept) = sweep fuel ticks (save_context regs s) w in
      if s.ready_queue == 0
      then some (regs, (ticks, (s, w)))
      else and_then swept (pick_and_resume fuel ticks₁ regs)
