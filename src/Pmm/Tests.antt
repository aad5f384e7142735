-- ===== src/Pmm/Tests.antt =====
-- Examples of the physical memory manager, on a memory of 32 blocks.
use khazaros.Base.{ℕ, ◌+◌, ◌/◌, ◌*◌, ◌<◌, ◌≡◌, refl, true, ◌⊎◌, arith, if◌then◌else◌}
use khazaros.Pmm.{Pmm, block_size, init, init_region, alloc_block, free_block}
use khazaros.Pmm.View.{taken}
use khazaros.Pmm.Alloc.{Allocates, alloc_block_lem}
use khazaros.Pmm.Region.{inside}
use khazaros.Pmm.Count.{IsCounted, count, free_block-IsCounted, init_region-count}
use khazaros.Pmm.Init.{init-IsCounted}

abbrev fresh : Pmm
fresh = init (λ i. 0) 131072

all_taken : IsCounted fresh × ((c : ℕ) → c < 32 → taken fresh c ≡ true)
all_taken = init-IsCounted (λ i. 0) 131072 (omega arith) refl

abbrev one_free : Pmm
one_free = free_block 8192 fresh

one_free-IsCounted : IsCounted one_free
unfolding init
one_free-IsCounted =
    free_block-IsCounted fresh all_taken.0 8192 (omega arith) (all_taken.1 2 (omega arith))

alloc_block_lem_example :
    (((c : ℕ) → c < one_free.max_blocks / 32 * 32 → taken one_free c ≡ true)
      × (alloc_block one_free ≡ (0, one_free)))
    ⊎ ((b : ℕ) × Allocates one_free b (alloc_block one_free).0 (alloc_block one_free).1)
alloc_block_lem_example = alloc_block_lem one_free

init_region-count_example :
    count (taken (init_region 0 8192 fresh)) fresh.max_blocks
    ≡ (init_region 0 8192 fresh).used_blocks
      + (if inside (0 / block_size) (8192 / block_size) 0 then 1 else 0)
unfolding init
init_region-count_example =
    init_region-count 0 8192 fresh all_taken.0 (omega arith) (omega arith)
      (λ c a b. all_taken.1 c (omega arith)) (all_taken.1 0 (omega arith))
