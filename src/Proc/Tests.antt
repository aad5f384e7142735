-- ===== src/Proc/Tests.antt =====
-- Examples of threads and processes: two queued threads at 16 and 32, of which the second is
-- blocked, and their processes at 100 and 200.
use khazaros.Base.{
  ℕ, zero, suc, ◌+◌, ◌<◌, ◌≡◌, ◌≢◌, refl, none, some, [], ◌∷◌, length, arith, ◌==◌, if◌then◌else◌,
}
use khazaros.Proc.{
  Thread, ThreadState, running, ready, blocked, terminated, Process, alive, zombie, finish, Procs,
  scheduler_add_thread, process_get_by_pid, process_terminate,
}
use khazaros.Proc.Ring.{walk, IsQueue}
use khazaros.Proc.Queue.{IsAppended, scheduler_add_thread-IsAppended}
use khazaros.Proc.Terminate.{IsList, process_terminate_endless, process_terminate-zombie}
use khazaros.Proc.Processes.{follow, IsProcessList}
use khazaros.Proc.Wait.{WaitQueue}
use khazaros.Proc.Services.{Services}
use khazaros.Proc.Reap.{process_cleanup, process_waitpid}
use khazaros.Proc.Reap.Unlink.{Links, without}
use khazaros.Proc.Reap.Waitpid.{NoPid, IsGone, IsReaped, process_waitpid-IsReaped}
use khazaros.Proc.Create.{process_create_user}
use khazaros.Proc.Create.Table.{IsTable}
use khazaros.Proc.Create.Keeps.{CreateOutcome, process_create_user-IsTable, process_cleanup-IsTable}

abbrev thread : (tid : ℕ) → ThreadState → (process next : ℕ) → Thread
thread tid st process next = record {
  tid = tid;
  state = st;
  context = 4096;
  kernel_stack = 8192;
  process = process;
  next = next;
}

abbrev process : (pid threads next : ℕ) → Process
process pid threads next = record {
  pid = pid;
  parent_pid = 0;
  state = alive;
  exit_status = 0;
  name = [];
  cmdline = [];
  page_directory = 0;
  fd_table = λ i. 0;
  threads = threads;
  next = next;
}

-- The thread at 48 is not queued.
abbrev procs : Procs
procs = record {
  thread_at = λ a.
      if a == 16
      then thread 1 running 100 32
      else if a == 32
      then thread 2 blocked 200 16
      else thread 3 ready 200 0;
  process_at = λ a. if a == 100 then process 1 16 0 else process 2 48 100;
  next_pid = 3;
  next_tid = 4;
  process_list = 200;
  current_thread = 16;
  ready_queue = 16;
  closed = [];
}

not_first : (k : ℕ) → 0 < k → k < 2 → walk procs.thread_at k 16 ≢ 16
unfolding walk
not_first zero a b e = absurd (omega arith)
not_first (suc zero) a b e = absurd (omega (arith, e))
not_first (suc (suc k)) a b e = absurd (omega arith)

threads_real : (k : ℕ) → k < 2 → walk procs.thread_at k 16 ≢ 0
unfolding walk
threads_real zero a e = absurd (omega (arith, e))
threads_real (suc zero) a e = absurd (omega (arith, e))
threads_real (suc (suc k)) a e = absurd (omega arith)

procs-IsQueue : IsQueue procs 2
unfolding walk
procs-IsQueue = record {
  some_thread = omega arith;
  closed = refl;
  not_before = not_first;
  not_null = threads_real;
}

processes_real : (k : ℕ) → k < 2 → follow procs.process_at k 200 ≢ 0
unfolding follow
processes_real zero a e = absurd (omega (arith, e))
processes_real (suc zero) a e = absurd (omega (arith, e))
processes_real (suc (suc k)) a e = absurd (omega arith)

procs-IsProcessList : IsProcessList procs.process_at 200 2
unfolding follow
procs-IsProcessList = record { ends = refl; real = processes_real }

-- not in the queue
fresh : (k : ℕ) → k < 2 → walk procs.thread_at k 16 ≢ 48
unfolding walk
fresh zero a e = absurd (omega (arith, e))
fresh (suc zero) a e = absurd (omega (arith, e))
fresh (suc (suc k)) a e = absurd (omega arith)

unqueued_real : (k : ℕ) → k < 1 → walk procs.thread_at k 48 ≢ 0
unfolding walk
unqueued_real zero a e = absurd (omega (arith, e))
unqueued_real (suc k) a e = absurd (omega arith)

unqueued-IsList : IsList procs.thread_at 48 1
unfolding walk
unqueued-IsList = record { ends = refl; real = unqueued_real }

abbrev waiters : WaitQueue
waiters = record { threads = λ i. 32; count = 1 }

scheduler_add_thread-IsAppended_example :
    (s₁ : Procs) × (scheduler_add_thread 2 48 procs ≡ some s₁) × IsAppended procs s₁ 2 48
scheduler_add_thread-IsAppended_example =
    scheduler_add_thread-IsAppended procs 2 48 procs-IsQueue (λ e. absurd (omega (arith, e))) fresh
      2 (omega arith)

process_terminate_endless_example : process_terminate 1000 100 7 procs ≡ none
unfolding walk
process_terminate_endless_example =
    process_terminate_endless 1000 100 7 2 0 procs procs-IsQueue (λ e. absurd (omega (arith, e)))
      refl refl

process_terminate-zombie_example :
    (s₁ : Procs) × (process_terminate 2 200 7 procs ≡ some s₁)
    × ((s₁.process_at 200).state ≡ zombie)
    × ((s₁.process_at 200).exit_status ≡ 7)
    × ((k : ℕ) → k < 1 → (s₁.thread_at (walk procs.thread_at k 48)).state ≡ terminated)
process_terminate-zombie_example =
    process_terminate-zombie 2 200 7 1 procs unqueued-IsList (omega arith)
      (λ e. absurd (omega (arith, e))) refl

-- a heap that hands out 16 KiB each time, its next address is the world
abbrev services : Services ℕ
services = record {
  kmalloc = λ size w. (w, w + 16384);
  kfree = λ a w. w;
  vmm_clone_directory = λ w. (w, w + 4096);
  vmm_free_directory = λ a w. w;
  vmm_get_kernel_directory = λ w. 4096;
  vmm_switch_directory = λ a w. w;
  store_registers = λ a r w. w;
  set_kernel_stack = λ a w. w;
}

procs-IsTable : IsTable procs (200 ∷ 100 ∷ [])
procs-IsTable = record {
  links = (refl, λ e. absurd (omega (arith, e)), (refl, λ e. absurd (omega (arith, e)), refl));
  falls = (omega arith, (omega arith, tt));
}

-- the second process is a zombie
abbrev reapable : Procs
reapable = record procs {
  process_at = λ a. if a == 100 then process 1 16 0 else finish zombie 7 (process 2 48 100);
}

reapable-Links : Links reapable.process_at 200 (200 ∷ 100 ∷ [])
reapable-Links =
    (refl, λ e. absurd (omega (arith, e)), (refl, λ e. absurd (omega (arith, e)), refl))

reapable-found : process_get_by_pid 3 2 reapable ≡ some 200
unfolding process_get_by_pid
reapable-found = refl

others-NoPid : NoPid reapable.process_at 2 (without 200 (200 ∷ 100 ∷ []))
unfolding without
others-NoPid = (λ e. absurd (omega (arith, e)), tt)

others-short : length (without 200 (200 ∷ 100 ∷ [])) < 3
unfolding without
others-short = omega arith

process_waitpid-IsReaped_example :
    IsReaped services 2 7 200
      (200 ∷ 100 ∷ [])
      3
      (process_waitpid services (suc 0) 3 2 (λ r. r) reapable 65536)
process_waitpid-IsReaped_example =
    process_waitpid-IsReaped services 0 1 3 2 200 (200 ∷ 100 ∷ []) (λ r. r) reapable 65536
      reapable-found (λ e. absurd (omega (arith, e))) refl
      ((λ e. absurd (omega (arith, e)), tt), (tt, tt)) reapable-Links others-NoPid others-short
      (omega arith) unqueued-IsList (omega arith)

process_create_user-IsTable_example :
    CreateOutcome
      (200 ∷ 100 ∷ [])
      procs
      (process_create_user services [] 4198400 2952806400 procs 65536)
process_create_user-IsTable_example =
    process_create_user-IsTable services [] 4198400 2952806400 (200 ∷ 100 ∷ []) procs 65536
      (omega arith) (λ e. absurd (omega (arith, e)), (λ e. absurd (omega (arith, e)), tt))
      procs-IsTable

process_cleanup-IsTable_example :
    (r : IsGone services 200 (200 ∷ 100 ∷ []) procs (process_cleanup services 3 200 procs 65536))
    × IsTable r.state (without 200 (200 ∷ 100 ∷ []))
process_cleanup-IsTable_example =
    process_cleanup-IsTable services 1 3 200 (200 ∷ 100 ∷ []) procs 65536
      (λ e. absurd (omega (arith, e))) procs-IsTable (omega arith) unqueued-IsList (omega arith)
