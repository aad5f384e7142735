-- ===== src/Proc/Reap.antt =====
-- `process_cleanup` and `process_waitpid` of kernel/proc/task/process.c. A structure that is freed
-- keeps its bytes.
pub mod Unlink
pub mod Waitpid
use khazaros.Base.{ℕ, zero, suc, ◌+◌, Bool, true, false, Option, none, some, ◌==◌, if◌then◌else◌}
use mathlib.Core.Option
use khazaros.Base.Window.{put}
use khazaros.Proc.Services.{Services}
use khazaros.Proc.{Thread, Process, Procs, with_processes, is_zombie, process_get_by_pid}

abbrev pub set_next_process : ℕ → Process → Process
set_next_process a p = record p { next = a }

abbrev pub with_list : ℕ → Procs → Procs
with_list a s = record s { process_list = a }

unfoldable pub process_get_list : Procs → ℕ
process_get_list s = s.process_list

-- `while (curr && curr->next != proc) curr = curr->next`, on fuel
unfoldable pub find_before : (fuel proc curr : ℕ) → Procs → Option ℕ
find_before zero proc curr s = none
find_before (suc fuel) proc curr s =
    let rest = find_before fuel proc (s.process_at curr).next s in
    if curr == 0 then some 0 else if (s.process_at curr).next == proc then some curr else rest

-- `if (curr) curr->next = proc->next`
unfoldable pub unlink_after : (proc curr : ℕ) → Procs → Procs
unfolding put
unlink_after proc curr s =
    if curr == 0
    then s
    else with_processes
        (put s.process_at curr (set_next_process (s.process_at proc).next (s.process_at curr))) s

unfoldable pub unlink : (fuel proc : ℕ) → Procs → Option Procs
unfolding find_before unlink_after
unlink fuel proc s =
    if s.process_list == proc
    then some (with_list (s.process_at proc).next s)
    else Option.map (λ curr. unlink_after proc curr s) (find_before fuel proc s.process_list s)

-- What `process_waitpid` returns: -1, or the number, with `*status`.
pub data Waited : Type 0 where
  not_found : Waited
  reaped : (pid status : ℕ) → Waited

module _ {W : Type 0} (d : Services W) where
  -- `if (t->kernel_stack) kfree(t->kernel_stack); kfree(t)`
  unfoldable pub free_thread : Thread → (t : ℕ) → W → W
  free_thread thread t w =
      d.kfree t (if thread.kernel_stack == 0 then w else d.kfree thread.kernel_stack w)

  -- `while (t)`, on fuel
  unfoldable pub free_threads : (fuel t : ℕ) → Procs → W → Option W
  unfolding free_thread
  free_threads zero t s w = none
  free_threads (suc fuel) t s w =
      let rest = free_threads fuel (s.thread_at t).next s (free_thread (s.thread_at t) t w) in
      if t == 0 then some w else rest

  -- the directory, and the structure
  unfoldable pub free_process : (proc : ℕ) → Procs → W → W
  free_process proc s w =
      let dir = (s.process_at proc).page_directory in
      d.kfree proc (if dir == 0 then w else d.vmm_free_directory dir w)

  -- after the process was taken off the list
  unfoldable pub free_rest : (fuel proc : ℕ) → Option Procs → W → Option (Procs × W)
  unfolding free_threads free_process
  free_rest fuel proc none w = none
  free_rest fuel proc (some s) w =
      Option.map (λ w₁. (s, free_process proc s w₁))
        (free_threads fuel (s.process_at proc).threads s w)

  unfoldable pub process_cleanup : (fuel proc : ℕ) → Procs → W → Option (Procs × W)
  unfolding unlink free_rest
  process_cleanup fuel proc s w =
      if proc == 0 then some (s, w) else free_rest fuel proc (unlink fuel proc s) w

  -- The end of a wait for the process at `child`, which is a zombie.
  unfoldable pub reap : (fuel pid child : ℕ) → Procs → W → Option (Waited × (Procs × W))
  unfolding process_cleanup
  reap fuel pid child s w =
      Option.map (λ r. (reaped pid (s.process_at child).exit_status, r))
        (process_cleanup fuel child s w)

  -- The loop, for a number of rounds: `delay` is what other threads do in a round that waits.
  unfoldable pub waitpid_round :
      (fuel pid : ℕ)
      → Option ℕ
      → (wait : Option (Waited × (Procs × W))) → Procs
      → W
      → Option (Waited × (Procs × W))
  unfolding reap
  waitpid_round fuel pid none wait s w = none
  waitpid_round fuel pid (some child) wait s w =
      if child == 0
      then some (not_found, (s, w))
      else if is_zombie (s.process_at child).state
      then reap fuel pid child s w
      else wait

  unfoldable pub process_waitpid :
      (rounds fuel pid : ℕ)
      → (delay : Procs × W → Procs × W) → Procs
      → W
      → Option (Waited × (Procs × W))
  unfolding waitpid_round
  process_waitpid zero fuel pid delay s w = none
  process_waitpid (suc rounds) fuel pid delay s w =
      let (s₁, w₁) = delay (s, w) in
      waitpid_round fuel pid (process_get_by_pid fuel pid s)
        (process_waitpid rounds fuel pid delay s₁ w₁) s w
