-- ===== src/Syscall/Tests.antt =====
-- Examples of the checks.
use khazaros.Base.{◌+◌, ◌-◌, ◌<◌, ◌≡◌, refl, true, none, some, arith, ◌==◌, if◌then◌else◌}
use khazaros.Syscall.{FdTable, descriptor, syscall_validate_ptr, sys_open, open_at}
use khazaros.Base.Search.{find_from}
use khazaros.LibK.Memory.{Bytes}
use khazaros.LibK.Text.{Chars}
use khazaros.Syscall.Calls.{Registers, Kernel, kerr_fault}
use khazaros.Syscall.Handler.{call_of, syscall_handler}
use khazaros.Syscall.Faults.{user_memory, IsRefused, syscall_handler-fault}
use khazaros.Syscall.Paths.{split_path}
use khazaros.Syscall.Joins.{IsSplit, split_path-IsSplit}
use khazaros.Syscall.Pointers.{syscall_validate_ptr_wraps}

-- Descriptor 3 is open.
abbrev table : FdTable
table i = if i == 3 then 70 else 0

syscall_validate_ptr_wraps_example :
    (syscall_validate_ptr 4194304 4294967295 ≡ true) × (3221225471 < 4194304 + 4294967295 - 1)
syscall_validate_ptr_wraps_example =
    syscall_validate_ptr_wraps 4194304 4294967295 (omega arith) (omega arith) (omega arith)
      (omega arith)

opened : (sys_open 90 table).0 ≡ descriptor 4
unfolding sys_open open_at find_from
opened = refl

-- a kernel of nothing, whose memory is the world
abbrev kernel : Kernel Bytes
kernel = record {
  current_process = λ w. 0;
  memory = λ w. w;
  set_memory = λ m w. m;
  fd_table = λ proc w. table;
  set_fd_table = λ proc t w. w;
  cmdline = λ proc w i. 0;
  terminal_write = λ buf size w. w;
  tty_read = λ buf size w. (0, w);
  vfs_read = λ node offset size buf w. (0, w);
  vfs_write = λ node offset size buf w. (0, w);
  vfs_close = λ node w. w;
  vfs_find_path = λ path w. (0, w);
  vfs_unlink = λ parent name w. (true, w);
  vfs_mkdir = λ parent name w. (true, w);
  vfs_create = λ parent name w. (true, w);
  set_mask = λ node mode w. w;
  udp_send = λ ip port buf len w. (true, w);
  udp_recv = λ port buf maxlen w. (0, w);
  process_get_by_pid = λ pid w. 0;
  process_terminate = λ proc status w. w;
  process_waitpid = λ pid status_ptr w. (0, w);
}

-- `SYS_READ` into an address of the kernel
abbrev bad_read : Registers
bad_read = record { eax = 3; ebx = 0; ecx = 3238002688; edx = 16; esi = 0 }

abbrev zeros : Bytes
zeros i = 0

bad_read-IsRefused : IsRefused (user_memory (call_of 3) bad_read)
unfolding call_of syscall_validate_ptr
bad_read-IsRefused = refl

syscall_handler-fault_example :
    syscall_handler kernel (λ r w. none) 100 (zeros, zeros) bad_read zeros
    ≡ some (kerr_fault, zeros)
syscall_handler-fault_example =
    syscall_handler-fault kernel (λ r w. none) 100 (zeros, zeros) bad_read zeros bad_read-IsRefused

-- `/ab`
abbrev path : Chars
path i = if i == 0 then b'/' else if i == 1 then b'a' else if i == 2 then b'b' else 0

split_path-IsSplit_example : IsSplit 3 path (split_path 4 zeros zeros path)
split_path-IsSplit_example =
    split_path-IsSplit 4 3 zeros zeros path refl (λ j h. ground arith) (λ j. ground arith)
      (omega arith) (omega arith)
