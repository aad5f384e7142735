-- ===== src/Syscall/Faults.antt =====
-- A system call of kernel/syscall/table.c that is given a bad pointer does nothing.
use khazaros.Base.{
  ℕ, ◌%◌, ◌≡◌, refl, ap, Bool, false, Option, none, some, ◌==◌, if◌then◌else◌, Bool-cases, inl, inr,
  not, ◌&&◌,
}
use khazaros.LibK.Text.{Chars}
use khazaros.Syscall.{syscall_validate_ptr}
use khazaros.Syscall.Calls.{kerr_fault, Registers, Kernel, path_call, sys_waitpid}
use khazaros.Syscall.Handler.{
  Call, exit, read_call, write_call, open_path, close_fd, waitpid_call, getcmdline, netsend,
  netrecv, chmod, unlink_call, mkdir_call, create_call, kill_call, exec, getdents, ps, other,
  unknown, call_of, checked, run_call, syscall_handler,
}

-- The memory that a call is given by the caller and must have, its address and its size. The lengths
-- of the network calls are 16 bits, a status that is not wanted is NULL, and a string counts as one
-- byte. The command line of `SYS_EXEC` is not among it: a bad one counts as empty.
abbrev pub user_memory : Call → Registers → Option (ℕ × ℕ)
user_memory exit r = none
user_memory read_call r = some (r.ecx, r.edx)
user_memory write_call r = some (r.ecx, r.edx)
user_memory open_path r = some (r.ebx, 1)
user_memory close_fd r = none
user_memory waitpid_call r = if r.ecx == 0 then none else some (r.ecx, 4)
user_memory getcmdline r = some (r.ebx, r.ecx)
user_memory netsend r = some (r.edx, r.esi % 65536)
user_memory netrecv r = some (r.ecx, r.edx % 65536)
user_memory chmod r = some (r.ebx, 1)
user_memory unlink_call r = some (r.ebx, 1)
user_memory mkdir_call r = some (r.ebx, 1)
user_memory create_call r = some (r.ebx, 1)
user_memory kill_call r = none
user_memory exec r = some (r.ebx, 1)
user_memory getdents r = some (r.ecx, 128)
user_memory ps r = some (r.ebx, r.ecx)
user_memory other r = none
user_memory unknown r = none

-- The memory is refused.
abbrev pub IsRefused : Option (ℕ × ℕ) → Type 0
IsRefused none = ⊥
IsRefused (some (a, n)) = syscall_validate_ptr a n ≡ false

module _ {W : Type 0} (d : Kernel W) (others : Registers → W → Option (ℕ × W)) where
  path_call-fault :
      (fuel : ℕ) (stack : Chars × Chars) (op : ℕ → Chars → W → Bool × W) (path : ℕ) (w : W)
      → syscall_validate_ptr path 1 ≡ false
      → path_call d fuel stack op path w ≡ some (kerr_fault, w)
  unfolding path_call
  path_call-fault fuel stack op path w h = rw h refl

  checked-fault :
      (a n : ℕ) (r : Registers) (w : W)
      → syscall_validate_ptr a n ≡ false
      → checked d others a n r w ≡ some (kerr_fault, w)
  unfolding checked
  checked-fault a n r w h = rw h refl

  waitpid-fault :
      (pid status_ptr : ℕ) (w : W)
      → IsRefused (if status_ptr == 0 then none else some (status_ptr, 4))
      → sys_waitpid d pid status_ptr w ≡ (kerr_fault, w)
  unfolding sys_waitpid
  waitpid-fault pid status_ptr w h = elim (Bool-cases (status_ptr == 0)) [
    | inl e ↦ absurd (rw e at h)
    | inr ne ↦
        let bad : syscall_validate_ptr status_ptr 4 ≡ false = rw ne at h in
        λ k.
          if not (ne k) && not (bad k) then (kerr_fault, w) else d.process_waitpid pid status_ptr w
  ]

  run_call-fault :
      (fuel : ℕ) (stack : Chars × Chars) (c : Call) (r : Registers) (w : W)
      → IsRefused (user_memory c r)
      → run_call d others fuel stack c r w ≡ some (kerr_fault, w)
  unfolding run_call
  run_call-fault fuel stack exit r w h = absurd h
  run_call-fault fuel stack read_call r w h = rw h refl
  run_call-fault fuel stack write_call r w h = rw h refl
  run_call-fault fuel stack open_path r w h = rw h refl
  run_call-fault fuel stack close_fd r w h = absurd h
  run_call-fault fuel stack waitpid_call r w h = ap some (waitpid-fault r.ebx r.ecx w h)
  run_call-fault fuel stack getcmdline r w h = rw h refl
  run_call-fault fuel stack netsend r w h = rw h refl
  run_call-fault fuel stack netrecv r w h = rw h refl
  run_call-fault fuel stack chmod r w h = rw h refl
  run_call-fault fuel stack unlink_call r w h = path_call-fault fuel stack d.vfs_unlink r.ebx w h
  run_call-fault fuel stack mkdir_call r w h = path_call-fault fuel stack d.vfs_mkdir r.ebx w h
  run_call-fault fuel stack create_call r w h = path_call-fault fuel stack d.vfs_create r.ebx w h
  run_call-fault fuel stack kill_call r w h = absurd h
  run_call-fault fuel stack exec r w h = checked-fault r.ebx 1 r w h
  run_call-fault fuel stack getdents r w h = checked-fault r.ecx 128 r w h
  run_call-fault fuel stack ps r w h = checked-fault r.ebx r.ecx r w h
  run_call-fault fuel stack other r w h = absurd h
  run_call-fault fuel stack unknown r w h = absurd h

  -- Where the number selects a call that must have memory of the caller, as `user_memory` lists it
  -- (the buffer of READ, WRITE, GETCMDLINE, NETSEND, NETRECV, GETDENTS and PS, the path of OPEN, EXEC,
  -- CHMOD, UNLINK, MKDIR and CREATE, the status of WAITPID where it is not NULL), and
  -- `syscall_validate_ptr` refuses it, the handler leaves -9 in `eax` and changes nothing else.
  pub syscall_handler-fault :
      (fuel : ℕ) (stack : Chars × Chars) (r : Registers) (w : W)
      → IsRefused (user_memory (call_of r.eax) r)
      → syscall_handler d others fuel stack r w ≡ some (kerr_fault, w)
  unfolding syscall_handler
  syscall_handler-fault fuel stack r w h = run_call-fault fuel stack (call_of r.eax) r w h
