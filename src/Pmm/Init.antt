-- ===== src/Pmm/Init.antt =====
-- `pmm_init`: the state before any region is freed.
use khazaros.Base.{ℕ, ◌-◌, ◌*◌, ◌/◌, ◌%◌, ◌^◌, ◌<◌, min, ◌≡◌, sym, true, arith}
use khazaros.Base.Bits.{test_bit-low_ones}
use khazaros.Pmm.{block_size, init, fill_ones}
use khazaros.Pmm.View.{taken}
use khazaros.Pmm.Count.{IsCounted, count_all}

init-taken :
    (memory : ℕ → ℕ) (mem_size : ℕ) (c : ℕ)
    → mem_size / block_size % 8 ≡ 0
    → c < mem_size / block_size
    → taken (init memory mem_size) c ≡ true
unfolding init fill_ones
init-taken memory mem_size c whole h =
    test_bit-low_ones (c % 32) bits (memory (c / 32) / 2 ^ bits) (omega arith)
  where
    bits : ℕ
    bits = 8 * min 4 (mem_size / block_size / 8 - 4 * (c / 32))

-- If the size is a 32-bit word and the number of blocks is a multiple of 8, `pmm_init` marks
-- every block in use and its count is exact, whatever the memory held.
pub init-IsCounted :
    (memory : ℕ → ℕ) (mem_size : ℕ)
    → mem_size < 2 ^ 32
    → mem_size / block_size % 8 ≡ 0
    → IsCounted (init memory mem_size)
      × ((c : ℕ) → c < mem_size / block_size → taken (init memory mem_size) c ≡ true)
unfolding init
init-IsCounted memory mem_size small whole = (
  record {
    used = sym (count_all _ (mem_size / block_size) λ c h. init-taken memory mem_size c whole h);
    small = omega arith;
  },
  λ c h. init-taken memory mem_size c whole h,
)
