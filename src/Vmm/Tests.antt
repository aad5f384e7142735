-- ===== src/Vmm/Tests.antt =====
-- Examples of the page tables: a directory at 4096 with no entries, all of 32 blocks in use.
use khazaros.Base.{◌^◌, ◌≤◌, ◌<◌, ◌≡◌, ◌≢◌, refl, sym, ◌∙◌, inl, inr, true, false, arith}
use mathlib.Core.Bool.{true≢false}
use khazaros.Pmm
use khazaros.Pmm.{Pmm, free_block}
use khazaros.Pmm.View.{taken}
use khazaros.Pmm.Alloc.{alloc_block_lem, free_block_lem}
use khazaros.Pmm.Init.{init-IsCounted}
use khazaros.Vmm.{v2p, Vmm, clone_directory, is_present, map_page, unmap_page}
use khazaros.Vmm.Space.{IsSpace}
use khazaros.Vmm.Init.{init}
use khazaros.Vmm.Init.Ranges.{allocated_nonzero}
use khazaros.Vmm.Init.Outcome.{InitOutcome, init_lem}
use khazaros.Vmm.Free.{SameBlocks, free_directory, free_directory-clone_directory}
use khazaros.Vmm.Map.{Maps, MapOutcome, map_page_lem}
use khazaros.Vmm.Unmap.{Removes, unmap_page_lem}

-- Block 2 is free.
abbrev blocks : Pmm
blocks = free_block 8192 (Pmm.init (λ i. 0) 131072)

abbrev space : Vmm
space = record { pmm = blocks; word = λ a. 0; kernel_directory = 4096; current_directory = 4096 }

one_taken : taken blocks 1 ≡ true
one_taken = ground (
  arith,
  (free_block_lem 8192 (Pmm.init (λ i. 0) 131072)).0 1,
  (init-IsCounted (λ i. 0) 131072 (omega arith) refl).1 1 (omega arith),
)

few : blocks.max_blocks ≤ 2 ^ 20
unfolding Pmm.init
few = omega (arith, (free_block_lem 8192 (Pmm.init (λ i. 0) 131072)).2)

absent : is_present 0 ≡ false
unfolding is_present
absent = refl

space-IsSpace : IsSpace space
space-IsSpace = record {
  few_blocks = few;
  dir_aligned = refl;
  dir_taken = one_taken;
  aligned = λ i lt e. absurd (ground (arith, absent, e));
  apart = λ i lt e. absurd (ground (arith, absent, e));
  tables_taken = λ i lt e. absurd (ground (arith, absent, e));
  distinct = λ i j a b ne e. absurd (ground (arith, absent, e));
}

map_page_lem_example : MapOutcome 4194304 12288 space (map_page 12288 4194304 3 space)
map_page_lem_example =
    map_page_lem 12288 4194304 3 refl (omega arith) (omega arith) (omega arith) space space-IsSpace

unmap_page_lem_example :
    IsSpace (unmap_page 4194304 space)
    × Removes 4194304 space (unmap_page 4194304 space)
    × Maps 4194304 0 space (unmap_page 4194304 space)
unmap_page_lem_example = unmap_page_lem 4194304 space (omega arith) space-IsSpace

zero_taken : taken blocks 0 ≡ true
zero_taken = ground (
  arith,
  (free_block_lem 8192 (Pmm.init (λ i. 0) 131072)).0 0,
  (init-IsCounted (λ i. 0) 131072 (omega arith) refl).1 0 (omega arith),
)

init_lem_example : InitOutcome space (init space)
init_lem_example = init_lem space few zero_taken

counted : blocks.used_blocks < 2 ^ 32
unfolding Pmm.init
counted = omega (arith, (free_block_lem 8192 (Pmm.init (λ i. 0) 131072)).1)

two_free : taken blocks 2 ≡ false
two_free = (free_block_lem 8192 (Pmm.init (λ i. 0) 131072)).0 2

size : blocks.max_blocks ≡ 32
unfolding Pmm.init
size = (free_block_lem 8192 (Pmm.init (λ i. 0) 131072)).2

a_block : (Pmm.alloc_block blocks).0 ≢ 0
a_block = elim (alloc_block_lem blocks) [
  | inl (full, e) ↦ λ z. true≢false (sym (full 2 (omega (arith, size))) ∙ two_free)
  | inr (b, a) ↦
      allocated_nonzero blocks (Pmm.alloc_block blocks).1 b (Pmm.alloc_block blocks).0 few
        zero_taken a
]

free_directory-clone_directory_example :
    SameBlocks blocks (free_directory (v2p (clone_directory space).0) (clone_directory space).1).pmm
free_directory-clone_directory_example = free_directory-clone_directory space few counted a_block
