-- ===== src/Syscall/Handler.antt =====
-- `syscall_handler` of kernel/syscall/table.c: the number in `eax` selects the call. The calls that
-- end the machine are an argument, and so is what `SYS_EXEC`, `SYS_GETDENTS` and `SYS_PS` do once
-- the pointer that they check first was accepted.
use khazaros.Base.{ℕ, Option, some, not, ◌==◌, if◌then◌else◌}
use khazaros.Syscall.{syscall_validate_ptr}
use khazaros.LibK.Text.{Chars}
use khazaros.Syscall.Calls.{
  kerr_fault, kerr_nosys, Registers, Kernel, sys_write, sys_read, open_call, close_call,
  sys_getcmdline, sys_netsend, sys_netrecv, sys_chmod, path_call, sys_waitpid, sys_kill,
}

pub data Call : Type 0 where
  exit : Call
  read_call : Call
  write_call : Call
  open_path : Call
  close_fd : Call
  waitpid_call : Call
  getcmdline : Call
  netsend : Call
  netrecv : Call
  chmod : Call
  unlink_call : Call
  mkdir_call : Call
  create_call : Call
  kill_call : Call
  exec : Call
  getdents : Call
  ps : Call
  other : Call
  unknown : Call

-- the call of a number
unfoldable pub call_of : ℕ → Call
call_of n =
    if n == 1
    then exit
    else if n == 3
    then read_call
    else if n == 4
    then write_call
    else if n == 5
    then open_path
    else if n == 6
    then close_fd
    else if n == 7
    then waitpid_call
    else if n == 12
    then getcmdline
    else if n == 13
    then netsend
    else if n == 14
    then netrecv
    else if n == 15
    then chmod
    else if n == 16
    then unlink_call
    else if n == 17
    then mkdir_call
    else if n == 18
    then create_call
    else if n == 37
    then kill_call
    else if n == 11
    then exec
    else if n == 19
    then ps
    else if n == 78
    then getdents
    else if (n == 88)
    then other
    else if (n == 89)
    then other
    else unknown

module _ {W : Type 0} (d : Kernel W) (others : Registers → W → Option (ℕ × W)) where
  -- `SYS_EXIT`, up to the interrupt that it ends with; `eax` is left as it was
  unfoldable pub sys_exit : (eax status : ℕ) → W → ℕ × W
  sys_exit eax status w =
      let proc = d.current_process w in
      (eax, if proc == 0 then w else d.process_terminate proc status w)

  -- a call that starts with the test of a pointer
  unfoldable pub checked : (a n : ℕ) → Registers → W → Option (ℕ × W)
  unfolding syscall_validate_ptr
  checked a n r w = if not (syscall_validate_ptr a n) then some (kerr_fault, w) else others r w

  unfoldable pub run_call :
      (fuel : ℕ) → (stack : Chars × Chars) → Call → Registers → W → Option (ℕ × W)
  unfolding sys_exit sys_write sys_read open_call close_call sys_getcmdline sys_netsend sys_netrecv
      sys_chmod path_call sys_waitpid sys_kill checked
  run_call fuel stack exit r w = some (sys_exit r.eax r.ebx w)
  run_call fuel stack read_call r w = some (sys_read d r.ebx r.ecx r.edx w)
  run_call fuel stack write_call r w = some (sys_write d r.ebx r.ecx r.edx w)
  run_call fuel stack open_path r w = some (open_call d r.ebx w)
  run_call fuel stack close_fd r w = some (close_call d r.ebx w)
  run_call fuel stack waitpid_call r w = some (sys_waitpid d r.ebx r.ecx w)
  run_call fuel stack getcmdline r w = some (sys_getcmdline d r.ebx r.ecx w)
  run_call fuel stack netsend r w = some (sys_netsend d r.ebx r.ecx r.edx r.esi w)
  run_call fuel stack netrecv r w = some (sys_netrecv d r.ebx r.ecx r.edx w)
  run_call fuel stack chmod r w = some (sys_chmod d r.ebx r.ecx w)
  run_call fuel stack unlink_call r w = path_call d fuel stack d.vfs_unlink r.ebx w
  run_call fuel stack mkdir_call r w = path_call d fuel stack d.vfs_mkdir r.ebx w
  run_call fuel stack create_call r w = path_call d fuel stack d.vfs_create r.ebx w
  run_call fuel stack kill_call r w = some (sys_kill d r.ebx r.ecx w)
  run_call fuel stack exec r w = checked r.ebx 1 r w
  run_call fuel stack getdents r w = checked r.ecx 128 r w
  run_call fuel stack ps r w = checked r.ebx r.ecx r w
  run_call fuel stack other r w = others r w
  run_call fuel stack unknown r w = some (kerr_nosys, w)

  -- the word that is left in `eax`
  unfoldable pub syscall_handler :
      (fuel : ℕ) → (stack : Chars × Chars) → Registers → W → Option (ℕ × W)
  unfolding call_of run_call
  syscall_handler fuel stack r w = run_call fuel stack (call_of r.eax) r w
