-- ===== src/Vmm/Init.antt =====
-- `vmm_init` of kernel/mm/paging/vmm.c: the kernel's directory, with the first megabyte and the
-- first 128 megabytes behind 0xC0000000.
pub mod Ranges
pub mod Outcome
use khazaros.Base.{
  ℕ, zero, suc, ◌+◌, ◌-◌, ◌*◌, ◌/◌, ◌%◌, ◌^◌, ◌<◌, ◌≤◌, ◌≡◌, ◌≢◌, ◌⊎◌, refl, sym, ap, ◌∙◌, Bool,
  true, false, ◌&&◌, arith, ◌==◌, ltb, leb, if◌then◌else◌, Bool-cases, inl, inr, ==→eq, ==→ne,
  ne→==,
}
use mathlib.Core.Bool.{true≢false}
use mathlib.Core.Path.{subst}
use khazaros.Pmm
use khazaros.Pmm.{Pmm}
use khazaros.Pmm.View.{taken}
use khazaros.Pmm.Alloc.{Allocates, alloc_block_lem}
use khazaros.Vmm.{
  kernel_virt_base, Vmm, clear_page, pd_index, is_present, map_page, get_phys, switch_directory,
  add_table, map_in_table,
}
use khazaros.Vmm.Space.{IsSpace, entry, pd_index-lt}
use khazaros.Vmm.Map.{Maps, MapOutcome, map_page_lem, get_phys-absent}

-- `for (...; i += 4096) vmm_map_page(i, offset + i, VMM_PRESENT | VMM_WRITABLE)`, `left` rounds from
-- `i` on; the result of the call is not looked at
unfoldable pub map_range : (left i offset : ℕ) → Vmm → Vmm
map_range zero i offset s = s
map_range (suc left) i offset s =
    map_range left (i + 4096) offset (map_page i ((offset + i) % 2 ^ 32) 3 s).1

-- the statics where there is a block for the directory
unfoldable pub new_directory : (pd : ℕ) → Pmm → Vmm → Vmm
new_directory pd pmm s = record {
  pmm = pmm;
  word = clear_page s.word pd;
  kernel_directory = pd;
  current_directory = pd;
}

unfoldable pub init : Vmm → Bool × Vmm
unfolding map_range new_directory
init s =
    let (pd, pmm) = Pmm.alloc_block s.pmm in
    if pd == 0 then (false, record s { pmm = pmm }) else (
      true,
      switch_directory pd
          (map_range 32768 0 kernel_virt_base (map_range 256 0 0 (new_directory pd pmm s))),
    )
