-- ===== src/Proc/Create.antt =====
-- `process_init`, `process_create` and `process_create_user` of kernel/proc/task/process.c. A name
-- is the list of its characters.
pub mod Table
pub mod Keeps
use khazaros.Base.{
  take, ℕ, zero, suc, ◌+◌, ◌-◌, ◌%◌, ◌^◌, Bool, true, false, Option, none, some, List, [], ◌∷◌,
  ◌==◌, if◌then◌else◌,
}
use mathlib.Core.Option
use khazaros.Base.Window.{put}
use khazaros.Proc.Services.{Services, Registers}
use khazaros.Proc.{
  Thread, ThreadState, ready, running, Process, alive, Procs, with_threads, with_processes,
  scheduler_add_thread, scheduler_set_current_thread, scheduler_get_current_process,
}

abbrev pub process_size : ℕ
process_size = 252

abbrev pub thread_size : ℕ
thread_size = 24

abbrev pub kernel_stack_size : ℕ
kernel_stack_size = 8192

abbrev pub registers_size : ℕ
registers_size = 64

-- a process as the code sets it up, with no thread yet
unfoldable pub new_process : (pid parent_pid : ℕ) → (name : List ℕ) → Process
new_process pid parent_pid name = record {
  pid = pid;
  parent_pid = parent_pid;
  state = alive;
  exit_status = 0;
  name = take 31 name;
  cmdline = [];
  page_directory = 0;
  fd_table = λ i. 0;
  threads = 0;
  next = 0;
}

unfoldable pub new_thread : (tid : ℕ) → ThreadState → (process : ℕ) → Thread
new_thread tid state process = record {
  tid = tid;
  state = state;
  context = 0;
  kernel_stack = 0;
  process = process;
  next = 0;
}

-- `parent ? parent->pid : 0`
unfoldable pub parent_pid_of : Procs → ℕ
unfolding scheduler_get_current_process
parent_pid_of s =
    let parent = scheduler_get_current_process s in
    if parent == 0 then 0 else (s.process_at parent).pid

-- `proc->pid = next_pid++`, and the other fields
unfoldable pub add_process : (p : ℕ) → (name : List ℕ) → Procs → Procs
unfolding put new_process parent_pid_of
add_process p name s = record s {
  process_at = put s.process_at p (new_process s.next_pid (parent_pid_of s) name);
  next_pid = (s.next_pid + 1) % 2 ^ 32;
}

-- `thread->tid = next_tid++`, and the other fields
unfoldable pub add_thread : (p t : ℕ) → Procs → Procs
unfolding put new_thread
add_thread p t s = record s {
  thread_at = put s.thread_at t (new_thread s.next_tid ready p);
  process_at = put s.process_at p (record (s.process_at p) { threads = t });
  next_tid = (s.next_tid + 1) % 2 ^ 32;
}

unfoldable pub set_stack : (t stack : ℕ) → Procs → Procs
unfolding put
set_stack t stack s = record s {
  thread_at = put s.thread_at t (record (s.thread_at t) { kernel_stack = stack });
}

-- `thread->context = regs`, the directory, and the process at the head of the list
unfoldable pub enlist : (p t context dir : ℕ) → Procs → Procs
unfolding put
enlist p t context dir s = record s {
  thread_at = put s.thread_at t (record (s.thread_at t) { context = context });
  process_at =
      put s.process_at p (record (s.process_at p) { page_directory = dir; next = s.process_list });
  process_list = p;
}

-- the addresses of a process, its thread and its stack
pub record Parts : Type 0 where
  pub process : ℕ
  pub thread : ℕ
  pub stack : ℕ

-- where the registers of a new thread stand
abbrev pub frame_at : (stack : ℕ) → ℕ
frame_at stack = (stack + kernel_stack_size - registers_size) % 2 ^ 32

unfoldable pub kernel_frame : (entrypoint stack : ℕ) → Registers
kernel_frame entrypoint stack = record {
  eflags = 514;
  cs = 8;
  ds = 16;
  ss = 0;
  eip = entrypoint;
  useresp = 0;
  ebp = (stack + kernel_stack_size) % 2 ^ 32;
  esp = frame_at stack;
}

unfoldable pub user_frame : (entrypoint user_stack_top : ℕ) → Registers
user_frame entrypoint user_stack_top = record {
  eflags = 514;
  cs = 27;
  ds = 35;
  ss = 35;
  eip = entrypoint;
  useresp = user_stack_top;
  ebp = user_stack_top;
  esp = 0;
}

module _ {W : Type 0} (d : Services W) where
  unfoldable pub allocate_stack : (p t : ℕ) → Procs → W → Option Parts × (Procs × W)
  unfolding set_stack
  allocate_stack p t s w =
      let (stack, w₁) = d.kmalloc kernel_stack_size w in
      if stack == 0
      then (none, (s, d.kfree p (d.kfree t w₁)))
      else (some (record { process = p; thread = t; stack = stack }), (set_stack t stack s, w₁))

  unfoldable pub allocate_thread : (p : ℕ) → Procs → W → Option Parts × (Procs × W)
  unfolding add_thread allocate_stack
  allocate_thread p s w =
      let (t, w₁) = d.kmalloc thread_size w in
      if t == 0 then (none, (s, d.kfree p w₁)) else allocate_stack p t (add_thread p t s) w₁

  -- The first part of `process_create` and of `process_create_user`.
  unfoldable pub allocate : (name : List ℕ) → Procs → W → Option Parts × (Procs × W)
  unfolding add_process allocate_thread
  allocate name s w =
      let (p, w₁) = d.kmalloc process_size w in
      if p == 0 then (none, (s, w₁)) else allocate_thread p (add_process p name s) w₁

  -- The end of `process_create`, 0 for NULL.
  unfoldable pub finish_create :
      (fuel : ℕ) → Option Parts → (entrypoint : ℕ) → Procs → W → Option (ℕ × (Procs × W))
  unfolding enlist kernel_frame
  finish_create fuel none entrypoint s w = some (0, (s, w))
  finish_create fuel (some parts) entrypoint s w =
      let frame = frame_at parts.stack in
      let w₁ = d.store_registers frame (kernel_frame entrypoint parts.stack) w in
      Option.map (λ s₁. (parts.process, (s₁, w₁)))
        (scheduler_add_thread fuel parts.thread (enlist parts.process parts.thread frame 0 s))

  unfoldable pub process_create :
      (fuel : ℕ) → (name : List ℕ) → (entrypoint : ℕ) → Procs → W → Option (ℕ × (Procs × W))
  unfolding allocate finish_create
  process_create fuel name entrypoint s w =
      let (o, (s₁, w₁)) = allocate name s w in finish_create fuel o entrypoint s₁ w₁

  -- The end of `process_create_user`. The new thread is not queued.
  unfoldable pub finish_create_user :
      Option Parts → (entrypoint user_stack_top : ℕ) → Procs → W → ℕ × (Procs × W)
  unfolding enlist user_frame
  finish_create_user none entrypoint user_stack_top s w = (0, (s, w))
  finish_create_user (some parts) entrypoint user_stack_top s w =
      let frame = frame_at parts.stack in
      let (dir, w₁) =
        d.vmm_clone_directory (d.store_registers frame (user_frame entrypoint user_stack_top) w) in
      (parts.process, (enlist parts.process parts.thread frame dir s, w₁))

  unfoldable pub process_create_user :
      (name : List ℕ) → (entrypoint user_stack_top : ℕ) → Procs → W → ℕ × (Procs × W)
  unfolding allocate finish_create_user
  process_create_user name entrypoint user_stack_top s w =
      let (o, (s₁, w₁)) = allocate name s w in finish_create_user o entrypoint user_stack_top s₁ w₁

  -- The kernel's process and its thread; the code writes to both without a test for NULL, so the
  -- result is `none` where one is.
  unfoldable pub process_init : (fuel : ℕ) → Procs → W → Option (Procs × W)
  unfolding put new_process new_thread
  process_init fuel s w =
      let (p, w₁) = d.kmalloc process_size w in
      let (t, w₂) = d.kmalloc thread_size w₁ in
      let s₁ : Procs = record s {
        thread_at = put s.thread_at t (new_thread 0 running p);
        process_at =
            put s.process_at p
              (record (new_process 0 0 (b'K' ∷ b'e' ∷ b'r' ∷ b'n' ∷ b'e' ∷ b'l' ∷ [])) {
                threads = t;
              });
        next_pid = 1;
        next_tid = 1;
        process_list = p;
      } in
      let added =
        Option.map (λ s₂. (scheduler_set_current_thread t s₂, w₂))
          (scheduler_add_thread fuel t s₁) in
      if p == 0 then none else if t == 0 then none else added
