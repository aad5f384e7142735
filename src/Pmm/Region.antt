-- ===== src/Pmm/Region.antt =====
-- `pmm_init_region` and `pmm_deinit_region`: which blocks they mark.
use khazaros.Base.{
  ℕ, zero, suc, ◌+◌, ◌/◌, ◌^◌, ◌<◌, ◌≡◌, Bool, true, false, ◌&&◌, arith, ◌==◌, ltb, leb,
  if◌then◌else◌,
}
use khazaros.Pmm.{
  Pmm, block_size, bitmap_set, bitmap_unset, init_loop, init_region, deinit_loop, deinit_region,
  inc, dec,
}
use khazaros.Pmm.View.{taken, taken-set, taken-unset}

-- block `c` is one of the `n` blocks from `align` on
abbrev pub inside : (align n c : ℕ) → Bool
inside align n c = leb align c && ltb c (align + n)

pub init_loop-taken :
    (n align : ℕ) (s : Pmm) (c : ℕ)
    → align + n < 2 ^ 32
    → taken (init_loop n align s) c ≡ (if inside align n c then false else taken s c)
unfolding init_loop
init_loop-taken zero align s c h = ground arith
init_loop-taken (suc n) align s c h = ground (
  arith,
  init_loop-taken n (inc align)
      (record (bitmap_unset align s) { used_blocks = dec (bitmap_unset align s).used_blocks }) c,
  taken-unset align c s,
)

pub deinit_loop-taken :
    (n align : ℕ) (s : Pmm) (c : ℕ)
    → align + n < 2 ^ 32
    → taken (deinit_loop n align s) c ≡ (if inside align n c then true else taken s c)
unfolding deinit_loop
deinit_loop-taken zero align s c h = ground arith
deinit_loop-taken (suc n) align s c h = ground (
  arith,
  deinit_loop-taken n (inc align)
      (record (bitmap_set align s) { used_blocks = inc (bitmap_set align s).used_blocks }) c,
  taken-set align c s,
)

-- `pmm_init_region` on a 32-bit base and size frees exactly the blocks that the region names, but
-- for block 0, which it marks in use whether or not the region holds it.
pub init_region_lem :
    (base size : ℕ) (s : Pmm) (c : ℕ)
    → base < 2 ^ 32
    → size < 2 ^ 32
    → taken (init_region base size s) c ≡ (
        if c == 0
        then true
        else if inside (base / block_size) (size / block_size) c
        then false
        else taken s c)
unfolding init_region
init_region_lem base size s c p q = ground (
  arith,
  taken-set 0 c (init_loop (size / block_size) (base / block_size) s),
  init_loop-taken (size / block_size) (base / block_size) s c,
)

-- `pmm_deinit_region` marks exactly the blocks that the region names.
pub deinit_region_lem :
    (base size : ℕ) (s : Pmm) (c : ℕ)
    → base < 2 ^ 32
    → size < 2 ^ 32
    → taken (deinit_region base size s) c
      ≡ (if inside (base / block_size) (size / block_size) c then true else taken s c)
unfolding deinit_region
deinit_region_lem base size s c p q =
    deinit_loop-taken (size / block_size) (base / block_size) s c (omega arith)
