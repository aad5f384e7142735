-- ===== src/Syscall/Pointers.antt =====
-- Which ranges of memory a system call accepts.
use khazaros.Base.{ℕ, ◌+◌, ◌-◌, ◌^◌, ◌≤◌, ◌<◌, ◌≡◌, ◌↔◌, true, arith}
use khazaros.Syscall.{syscall_validate_ptr}

-- A range that ends within the 32-bit addresses is accepted exactly if all of it is in user space.
pub syscall_validate_ptr_lem :
    (addr size : ℕ)
    → addr + size ≤ 2 ^ 32
    → (syscall_validate_ptr addr size ≡ true)
      ↔ ((4194304 ≤ addr) × (addr ≤ 3221225471) × (addr + size ≤ 3221225472))
unfolding syscall_validate_ptr
syscall_validate_ptr_lem addr size fits =
    (λ e. (ground (arith, e), ground (arith, e), ground (arith, e)), λ (a, b, c). ground arith)

-- A range that starts in user space and ends beyond the 32-bit addresses, with a size that is a
-- 32-bit word, is always accepted, although its last byte is above user space.
pub syscall_validate_ptr_wraps :
    (addr size : ℕ)
    → 4194304 ≤ addr
    → addr ≤ 3221225471
    → size < 2 ^ 32
    → 2 ^ 32 < addr + size
    → (syscall_validate_ptr addr size ≡ true) × (3221225471 < addr + size - 1)
unfolding syscall_validate_ptr
syscall_validate_ptr_wraps addr size low high word over = (ground arith, omega arith)
