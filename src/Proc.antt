-- ===== src/Proc.antt =====
-- Threads and processes: kernel/proc/task/process.c, kernel/proc/scheduler/scheduler.c and
-- kernel/proc/wait.c. A thread and a process are named by the address of their structure, 0 is NULL,
-- and the state holds the structure at each address.
use khazaros.Base.{
  ℕ, zero, suc, ◌+◌, ◌-◌, ◌%◌, ◌^◌, Bool, true, false, not, ◌&&◌, ◌||◌, Option, none, some, List,
  ◌∷◌, ◌==◌, ltb, if◌then◌else◌,
}
use mathlib.Core.Option
use khazaros.Base.Window.{put}
pub mod Ring
pub mod Queue
pub mod Pick
pub mod Terminate
pub mod Processes
pub mod Wait
pub mod Services
pub mod Reap
pub mod Create
pub mod Schedule
mod Tests

pub data ThreadState : Type 0 where
  ready : ThreadState
  running : ThreadState
  blocked : ThreadState
  terminated : ThreadState

pub data ProcessState : Type 0 where
  alive : ProcessState
  zombie : ProcessState

pub record Thread : Type 0 where
  pub tid : ℕ
  pub state : ThreadState
  pub context : ℕ
  pub kernel_stack : ℕ
  pub process : ℕ
  pub next : ℕ

pub record Process : Type 0 where
  pub pid : ℕ
  pub parent_pid : ℕ
  pub state : ProcessState
  pub exit_status : ℕ
  pub name : List ℕ
  pub cmdline : List ℕ
  pub page_directory : ℕ
  pub fd_table : ℕ → ℕ
  pub threads : ℕ
  pub next : ℕ

-- the globals of the two files, and the structures
pub record Procs : Type 0 where
  pub thread_at : ℕ → Thread
  pub process_at : ℕ → Process
  pub next_pid : ℕ
  pub next_tid : ℕ
  pub process_list : ℕ
  pub current_thread : ℕ
  pub ready_queue : ℕ
  -- the nodes that `vfs_close` was called with, the last one first
  pub closed : List ℕ

abbrev pub set_next : ℕ → Thread → Thread
set_next a t = record {
  tid = t.tid;
  state = t.state;
  context = t.context;
  kernel_stack = t.kernel_stack;
  process = t.process;
  next = a;
}

abbrev pub set_state : ThreadState → Thread → Thread
set_state st t = record {
  tid = t.tid;
  state = st;
  context = t.context;
  kernel_stack = t.kernel_stack;
  process = t.process;
  next = t.next;
}

abbrev pub with_threads : (ℕ → Thread) → Procs → Procs
with_threads f s = record {
  thread_at = f;
  process_at = s.process_at;
  next_pid = s.next_pid;
  next_tid = s.next_tid;
  process_list = s.process_list;
  current_thread = s.current_thread;
  ready_queue = s.ready_queue;
  closed = s.closed;
}

abbrev pub with_processes : (ℕ → Process) → Procs → Procs
with_processes f s = record {
  thread_at = s.thread_at;
  process_at = f;
  next_pid = s.next_pid;
  next_tid = s.next_tid;
  process_list = s.process_list;
  current_thread = s.current_thread;
  ready_queue = s.ready_queue;
  closed = s.closed;
}

unfoldable pub scheduler_set_current_thread : ℕ → Procs → Procs
scheduler_set_current_thread thread s = record {
  thread_at = s.thread_at;
  process_at = s.process_at;
  next_pid = s.next_pid;
  next_tid = s.next_tid;
  process_list = s.process_list;
  current_thread = thread;
  ready_queue = if s.ready_queue == 0 then thread else s.ready_queue;
  closed = s.closed;
}

unfoldable pub scheduler_get_current_process : Procs → ℕ
scheduler_get_current_process s =
    if s.current_thread == 0 then 0 else (s.thread_at s.current_thread).process

-- `while (last->next != ready_queue) last = last->next`, on fuel
unfoldable pub find_last : (fuel last : ℕ) → Procs → Option ℕ
find_last zero last s = none
find_last (suc fuel) last s =
    let rest = find_last fuel (s.thread_at last).next s in
    if (s.thread_at last).next == s.ready_queue then some last else rest

-- `last->next = thread; thread->next = ready_queue`
unfoldable pub append_after : Option ℕ → (thread : ℕ) → Procs → Option Procs
unfolding put
append_after none thread s = none
append_after (some last) thread s =
    let f = put s.thread_at last (set_next thread (s.thread_at last)) in
    some (with_threads (put f thread (set_next s.ready_queue (f thread))) s)

unfoldable pub scheduler_add_thread : (fuel thread : ℕ) → Procs → Option Procs
unfolding find_last append_after put
scheduler_add_thread fuel thread s =
    if s.ready_queue == 0
    then some record {
      thread_at = put s.thread_at thread (set_next thread (s.thread_at thread));
      process_at = s.process_at;
      next_pid = s.next_pid;
      next_tid = s.next_tid;
      process_list = s.process_list;
      current_thread = s.current_thread;
      ready_queue = thread;
      closed = s.closed;
    }
    else append_after (find_last fuel s.ready_queue s) thread s

-- The `do` loop that counts the queue, with `temp` and `queue_size` of its head.
unfoldable pub count_queue : (fuel temp queue_size : ℕ) → Procs → Option ℕ
count_queue zero temp queue_size s = none
count_queue (suc fuel) temp queue_size s =
    let rest = count_queue fuel (s.thread_at temp).next (queue_size + 1) s in
    if (s.thread_at temp).next == s.ready_queue then some (queue_size + 1) else rest

unfoldable pub is_runnable : ThreadState → Bool
is_runnable ready = true
is_runnable running = true
is_runnable blocked = false
is_runnable terminated = false

-- The loop that passes over threads that cannot run, with `left` for `queue_size - checked`.
unfoldable pub skip_threads : (left thread : ℕ) → Procs → ℕ
skip_threads zero thread s = thread
skip_threads (suc left) thread s =
    let rest = skip_threads left (s.thread_at thread).next s in
    if not (thread == 0) && not (is_runnable (s.thread_at thread).state) then rest else thread

unfoldable pub skip_counted : Option ℕ → (thread : ℕ) → Procs → Option ℕ
unfolding skip_threads
skip_counted none thread s = none
skip_counted (some queue_size) thread s = some (skip_threads queue_size thread s)

-- What `scheduler_schedule` makes `current_thread` from a queue that is not empty, before it tests
-- whether that thread can run.
unfoldable pub pick_thread : ℕ → Procs → Option ℕ
unfolding count_queue skip_counted
pick_thread fuel s =
    let first =
      if s.current_thread == 0 then s.ready_queue else (s.thread_at s.current_thread).next in
    skip_counted (count_queue fuel s.ready_queue 0 s) first s

-- `while (curr)`, on fuel: the process, or NULL
unfoldable pub get_by_pid_loop : (fuel pid curr : ℕ) → Procs → Option ℕ
get_by_pid_loop zero pid curr s = none
get_by_pid_loop (suc fuel) pid curr s =
    let rest = get_by_pid_loop fuel pid (s.process_at curr).next s in
    if curr == 0 then some 0 else if (s.process_at curr).pid == pid then some curr else rest

unfoldable pub process_get_by_pid : (fuel pid : ℕ) → Procs → Option ℕ
unfolding get_by_pid_loop
process_get_by_pid fuel pid s = get_by_pid_loop fuel pid s.process_list s

-- `while (t)`, on fuel
unfoldable pub kill_threads : (fuel t : ℕ) → Procs → Option Procs
unfolding put
kill_threads zero t s = none
kill_threads (suc fuel) t s =
    let killed = with_threads (put s.thread_at t (set_state terminated (s.thread_at t))) s in
    let rest = kill_threads fuel (s.thread_at t).next killed in if t == 0 then some s else rest

abbrev pub is_zombie : ProcessState → Bool
is_zombie alive = false
is_zombie zombie = true

abbrev pub finish : ProcessState → (status : ℕ) → Process → Process
finish st status p = record {
  pid = p.pid;
  parent_pid = p.parent_pid;
  state = st;
  exit_status = status;
  name = p.name;
  cmdline = p.cmdline;
  page_directory = p.page_directory;
  fd_table = p.fd_table;
  threads = p.threads;
  next = p.next;
}

abbrev pub clear_fds : Process → Process
clear_fds p = record {
  pid = p.pid;
  parent_pid = p.parent_pid;
  state = p.state;
  exit_status = p.exit_status;
  name = p.name;
  cmdline = p.cmdline;
  page_directory = p.page_directory;
  fd_table = λ i. if ltb i 16 then 0 else p.fd_table i;
  threads = p.threads;
  next = p.next;
}

-- the calls of `vfs_close` for the descriptors from number `i` on
unfoldable pub close_loop : (left i : ℕ) → (ℕ → ℕ) → List ℕ → List ℕ
close_loop zero i fd_table closed = closed
close_loop (suc left) i fd_table closed =
    close_loop left (i + 1) fd_table (if fd_table i == 0 then closed else fd_table i ∷ closed)

-- the loop over the descriptors
unfoldable pub close_fds : (proc : ℕ) → Procs → Procs
unfolding close_loop put
close_fds proc s = record {
  thread_at = s.thread_at;
  process_at = put s.process_at proc (clear_fds (s.process_at proc));
  next_pid = s.next_pid;
  next_tid = s.next_tid;
  process_list = s.process_list;
  current_thread = s.current_thread;
  ready_queue = s.ready_queue;
  closed = close_loop 16 0 (s.process_at proc).fd_table s.closed;
}

unfoldable pub process_terminate : (fuel proc status : ℕ) → Procs → Option Procs
unfolding kill_threads close_fds put
process_terminate fuel proc status s =
    if (proc == 0) || is_zombie (s.process_at proc).state
    then some s
    else Option.map (close_fds proc) (
        kill_threads fuel (s.process_at proc).threads
          (with_processes (put s.process_at proc (finish zombie status (s.process_at proc))) s))
