-- ===== src/Syscall.antt =====
-- The system calls' checks of kernel/syscall/table.c: of user pointers and of file descriptors.
use khazaros.Base.{
  ℕ, zero, suc, ◌+◌, ◌-◌, ◌%◌, ◌^◌, Bool, true, false, not, ◌&&◌, ◌||◌, Option, none, some, ◌==◌,
  ltb, leb, if◌then◌else◌,
}
use khazaros.Base.Search.{find_from}
use khazaros.Base.Window.{put}
pub mod Pointers
pub mod Descriptors
pub mod Calls
pub mod Handler
pub mod Paths
pub mod Joins
pub mod Faults
mod Tests

-- `USER_SPACE_MIN` and `USER_SPACE_MAX`
abbrev pub user_space_min : ℕ
user_space_min = 4194304

abbrev pub user_space_max : ℕ
user_space_max = 3221225471

-- a sum of 32-bit words, less one
abbrev pub last_byte : (addr size : ℕ) → ℕ
last_byte addr size = (addr + size + (2 ^ 32 - 1)) % 2 ^ 32

unfoldable pub syscall_validate_ptr : (addr size : ℕ) → Bool
syscall_validate_ptr addr size =
    if addr == 0
    then false
    else if ltb addr user_space_min
    then false
    else if ltb user_space_max addr
    then false
    else if ltb 0 size && ltb user_space_max (last_byte addr size)
    then false
    else true

-- `proc->fd_table`: the nodes of the 16 descriptors, 0 where one is not open
abbrev pub FdTable : Type 0
FdTable = ℕ → ℕ

abbrev pub max_process_fds : ℕ
max_process_fds = 16

-- a result: `KERR_NOTFOUND`, `KERR_INVAL` and `KERR_OK`, or a descriptor
pub data Reply : Type 0 where
  not_found : Reply
  invalid : Reply
  okay : Reply
  descriptor : ℕ → Reply

unfoldable pub open_at : Option ℕ → (node : ℕ) → FdTable → Reply × FdTable
unfolding put
open_at none node t = (not_found, t)
open_at (some i) node t = (descriptor i, put t i node)

-- `SYS_OPEN` for a process, with the node that `vfs_find_path` gives, 0 if none
unfoldable pub sys_open : (node : ℕ) → FdTable → Reply × FdTable
unfolding open_at
sys_open node t =
    if node == 0 then (not_found, t) else open_at (find_from (λ i. t i == 0) 13 3) node t

-- The descriptors that `SYS_CLOSE`, `SYS_READ` and `SYS_WRITE` find a node for; an `fd` below 0 is a
-- word from 2 ^ 31 on.
unfoldable pub is_open : (fd : ℕ) → FdTable → Bool
is_open fd t = ltb fd max_process_fds && not (t fd == 0)

-- `SYS_CLOSE` for a process: the result, the node that `vfs_close` is called with, and the table
unfoldable pub sys_close : (fd : ℕ) → FdTable → Reply × Option ℕ × FdTable
unfolding put is_open
sys_close fd t =
    if leb 3 fd && is_open fd t then (okay, some (t fd), put t fd 0) else (invalid, none, t)
