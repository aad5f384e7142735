-- ===== src/Syscall/Calls.antt =====
-- The calls of `syscall_handler` of kernel/syscall/table.c, for the caller's registers. The other
-- parts of the kernel are an interface on a world `W`: their models are the modules of these parts.
-- A result is the 32-bit word for `eax`.
use khazaros.Base.{
  ℕ, ◌+◌, ◌-◌, ◌%◌, ◌^◌, Bool, not, ◌&&◌, ◌||◌, Option, none, some, ◌==◌, ltb, if◌then◌else◌,
}
use khazaros.LibK.Memory.{Bytes, store8}
use khazaros.LibK.Text.{Chars, kstrncpy}
use khazaros.Syscall.{
  syscall_validate_ptr, FdTable, Reply, not_found, invalid, okay, descriptor, is_open, sys_open,
  sys_close,
}
use khazaros.Syscall.Paths.{PathParts, split_path}

-- a negative code, as a word
abbrev pub kerr : ℕ → ℕ
kerr n = 2 ^ 32 - n

abbrev pub kerr_ok : ℕ
kerr_ok = 0

abbrev pub kerr_inval : ℕ
kerr_inval = kerr 3

abbrev pub kerr_io : ℕ
kerr_io = kerr 4

abbrev pub kerr_notfound : ℕ
kerr_notfound = kerr 5

abbrev pub kerr_nosys : ℕ
kerr_nosys = kerr 8

abbrev pub kerr_fault : ℕ
kerr_fault = kerr 9

pub record Registers : Type 0 where
  pub eax : ℕ
  pub ebx : ℕ
  pub ecx : ℕ
  pub edx : ℕ
  pub esi : ℕ

-- What the calls use. `current_process` is 0 for NULL; an operation on nodes says whether it has
-- worked.
pub record Kernel (W : Type 0) : Type 0 where
  pub current_process : W → ℕ
  pub memory : W → Bytes
  pub set_memory : Bytes → W → W
  pub fd_table : (proc : ℕ) → W → FdTable
  pub set_fd_table : (proc : ℕ) → FdTable → W → W
  pub cmdline : (proc : ℕ) → W → Chars
  pub terminal_write : (buf size : ℕ) → W → W
  pub tty_read : (buf size : ℕ) → W → ℕ × W
  pub vfs_read : (node offset size buf : ℕ) → W → ℕ × W
  pub vfs_write : (node offset size buf : ℕ) → W → ℕ × W
  pub vfs_close : (node : ℕ) → W → W
  pub vfs_find_path : Chars → W → ℕ × W
  pub vfs_unlink : (parent : ℕ) → Chars → W → Bool × W
  pub vfs_mkdir : (parent : ℕ) → Chars → W → Bool × W
  pub vfs_create : (parent : ℕ) → Chars → W → Bool × W
  pub set_mask : (node mode : ℕ) → W → W
  pub udp_send : (ip port buf len : ℕ) → W → Bool × W
  pub udp_recv : (port buf maxlen : ℕ) → W → ℕ × W
  pub process_get_by_pid : (pid : ℕ) → W → ℕ
  pub process_terminate : (proc status : ℕ) → W → W
  pub process_waitpid : (pid status_ptr : ℕ) → W → ℕ × W

-- a C string of the caller
abbrev pub string_at : {W : Type 0} → Kernel W → (a : ℕ) → W → Chars
string_at d a w i = d.memory w (a + i)

abbrev pub code_of : Reply → ℕ
code_of not_found = kerr_notfound
code_of invalid = kerr_inval
code_of okay = kerr_ok
code_of (descriptor i) = i

module _ {W : Type 0} (d : Kernel W) where
  -- the node of a descriptor that is open, for a process
  unfoldable pub has_node : (fd : ℕ) → W → Bool
  unfolding is_open
  has_node fd w = not (d.current_process w == 0) && is_open fd (d.fd_table (d.current_process w) w)

  unfoldable pub sys_write : (fd buf size : ℕ) → W → ℕ × W
  unfolding syscall_validate_ptr has_node
  sys_write fd buf size w =
      if not (syscall_validate_ptr buf size)
      then (kerr_fault, w)
      else if (fd == 1) || (fd == 2)
      then (size, d.terminal_write buf size w)
      else if has_node fd w
      then d.vfs_write (d.fd_table (d.current_process w) w fd) 0 size buf w
      else (kerr_inval, w)

  unfoldable pub sys_read : (fd buf size : ℕ) → W → ℕ × W
  unfolding syscall_validate_ptr has_node
  sys_read fd buf size w =
      if not (syscall_validate_ptr buf size)
      then (kerr_fault, w)
      else if fd == 0
      then d.tty_read buf size w
      else if has_node fd w
      then d.vfs_read (d.fd_table (d.current_process w) w fd) 0 size buf w
      else (kerr_inval, w)

  unfoldable pub open_call : (name : ℕ) → W → ℕ × W
  unfolding syscall_validate_ptr sys_open
  open_call name w =
      let (node, w₁) = d.vfs_find_path (string_at d name w) w in
      let proc = d.current_process w₁ in
      let (reply, table) = sys_open node (d.fd_table proc w₁) in
      if not (syscall_validate_ptr name 1)
      then (kerr_fault, w)
      else if proc == 0
      then (kerr_notfound, w₁)
      else (code_of reply, d.set_fd_table proc table w₁)

  unfoldable pub close_node : Option ℕ → W → W
  close_node none w = w
  close_node (some node) w = d.vfs_close node w

  unfoldable pub close_call : (fd : ℕ) → W → ℕ × W
  unfolding sys_close close_node
  close_call fd w =
      let proc = d.current_process w in
      let (reply, closed, table) = sys_close fd (d.fd_table proc w) in
      if proc == 0
      then (kerr_inval, w)
      else (code_of reply, d.set_fd_table proc table (close_node closed w))

  unfoldable pub sys_getcmdline : (buf size : ℕ) → W → ℕ × W
  unfolding syscall_validate_ptr
  sys_getcmdline buf size w =
      let proc = d.current_process w in
      let m = store8 (kstrncpy (d.memory w) buf (d.cmdline proc w) (size - 1)) (buf + size - 1) 0 in
      if not (syscall_validate_ptr buf size)
      then (kerr_fault, w)
      else if not (proc == 0) && ltb 0 size
      then (kerr_ok, d.set_memory m w)
      else (kerr_inval, w)

  unfoldable pub sys_netsend : (dst_ip port buf len : ℕ) → W → ℕ × W
  unfolding syscall_validate_ptr
  sys_netsend dst_ip port buf len w =
      let (sent, w₁) = d.udp_send dst_ip (port % 65536) buf (len % 65536) w in
      if not (syscall_validate_ptr buf (len % 65536))
      then (kerr_fault, w)
      else (if sent then kerr_ok else kerr_io, w₁)

  unfoldable pub sys_netrecv : (port buf maxlen : ℕ) → W → ℕ × W
  unfolding syscall_validate_ptr
  sys_netrecv port buf maxlen w =
      if not (syscall_validate_ptr buf (maxlen % 65536))
      then (kerr_fault, w)
      else d.udp_recv (port % 65536) buf (maxlen % 65536) w

  -- A path that leads nowhere leaves the result at -8.
  unfoldable pub sys_chmod : (path mode : ℕ) → W → ℕ × W
  unfolding syscall_validate_ptr
  sys_chmod path mode w =
      let (node, w₁) = d.vfs_find_path (string_at d path w) w in
      if not (syscall_validate_ptr path 1)
      then (kerr_fault, w)
      else if node == 0
      then (kerr_nosys, w₁)
      else (kerr_ok, d.set_mask node mode w₁)

  -- an operation on the parent of a path, which was split
  unfoldable pub in_parent : (ℕ → Chars → W → Bool × W) → Option PathParts → W → Option (ℕ × W)
  in_parent op none w = none
  in_parent op (some parts) w =
      let (parent, w₁) = d.vfs_find_path parts.parent_path w in
      let (done, w₂) = op parent parts.name w₁ in
      some (if parent == 0 then (kerr_notfound, w₁) else (if done then kerr_ok else kerr_io, w₂))

  -- `SYS_UNLINK`, `SYS_MKDIR` and `SYS_CREATE`, whose two arrays start as any bytes
  unfoldable pub path_call :
      (fuel : ℕ)
      → (stack : Chars × Chars) → (ℕ → Chars → W → Bool × W)
      → (path : ℕ) → W
      → Option (ℕ × W)
  unfolding syscall_validate_ptr split_path in_parent
  path_call fuel stack op path w =
      if not (syscall_validate_ptr path 1)
      then some (kerr_fault, w)
      else in_parent op (split_path fuel stack.0 stack.1 (string_at d path w)) w

  unfoldable pub sys_waitpid : (pid status_ptr : ℕ) → W → ℕ × W
  unfolding syscall_validate_ptr
  sys_waitpid pid status_ptr w =
      if not (status_ptr == 0) && not (syscall_validate_ptr status_ptr 4)
      then (kerr_fault, w)
      else d.process_waitpid pid status_ptr w

  unfoldable pub sys_kill : (pid sig : ℕ) → W → ℕ × W
  sys_kill pid sig w =
      let target = d.process_get_by_pid pid w in
      if target == 0
      then (kerr_notfound, w)
      else (kerr_ok, d.process_terminate target ((128 + sig) % 2 ^ 32) w)
