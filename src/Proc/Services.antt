-- ===== src/Proc/Services.antt =====
-- What the code of the processes calls: the heap and the page tables of kernel/mm, and the task
-- state segment, in a world `W`.
use khazaros.Base.{ℕ}

-- the fields of `registers_t` that a new thread starts with, the others are 0
pub record Registers : Type 0 where
  pub eflags : ℕ
  pub cs : ℕ
  pub ds : ℕ
  pub ss : ℕ
  pub eip : ℕ
  pub useresp : ℕ
  pub ebp : ℕ
  pub esp : ℕ

pub record Services (W : Type 0) : Type 0 where
  pub kmalloc : (size : ℕ) → W → ℕ × W
  pub kfree : (address : ℕ) → W → W
  pub vmm_clone_directory : W → ℕ × W
  pub vmm_free_directory : (dir : ℕ) → W → W
  pub vmm_get_kernel_directory : W → ℕ
  pub vmm_switch_directory : (dir : ℕ) → W → W
  -- the registers in memory
  pub store_registers : (address : ℕ) → Registers → W → W
  pub set_kernel_stack : (stack : ℕ) → W → W
