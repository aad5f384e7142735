-- ===== src/Pe/Load.antt =====
-- What `pe_load` of kernel/core/pe.c does with the directories and the pages.
use khazaros.Base.{
  ℕ, zero, suc, ◌+◌, ◌*◌, ◌/◌, Bool, true, false, not, Option, none, some, ◌==◌, ltb, if◌then◌else◌,
}
use khazaros.Fat.{Io, pure, call, ◌>>=◌, ◌>>◌}
use khazaros.Pmm
use khazaros.Vmm.{v2p, map_page, switch_directory}
use khazaros.Vmm.Free.{get_kernel_directory}
use khazaros.Pe.{Loader, add32, fill, copy, Headers, read_headers, Section, section_at}

-- `VMM_PRESENT | VMM_WRITABLE | VMM_USER`
abbrev pub user_page : ℕ
user_page = 7

abbrev pub user_stack_base : ℕ
user_stack_base = 2952790016

-- a block at `virt`: whether there was one, and a table for it, is not looked at
unfoldable pub map_block : (virt : ℕ) → Loader → Loader
map_block virt s =
    let (phys, pmm) = Pmm.alloc_block s.vmm.pmm in
    record s { vmm = (map_page phys virt user_page (record (s.vmm) { pmm = pmm })).1 }

unfoldable pub add_page : (virt : ℕ) → Io Loader Unit
unfolding map_block fill
add_page virt = do call λ s. (tt, map_block virt s); fill 4096 virt 0

-- `left` pages from number `j` on
unfoldable pub add_pages : (left j virt : ℕ) → Io Loader Unit
unfolding add_page
add_pages zero j virt = pure tt
add_pages (suc left) j virt = do add_page (add32 virt (j * 4096)); add_pages left (j + 1) virt

unfoldable pub switch : (dir : ℕ) → Io Loader Unit
switch dir s = some (tt, record s { vmm = switch_directory dir s.vmm })

-- back to the kernel's directory
unfoldable pub switch_back : Io Loader Unit
unfolding switch get_kernel_directory
switch_back s = switch (v2p (get_kernel_directory s.vmm)) s

-- The pages of a section, with `target_dir` switched to and back.
unfoldable pub map_section : (target_dir virt page_count : ℕ) → Io Loader Unit
unfolding switch add_pages switch_back
map_section target_dir virt page_count = do
  switch (v2p target_dir)
  add_pages page_count 0 virt
  switch_back

unfoldable pub copy_section : (target_dir virt source size : ℕ) → Io Loader Unit
unfolding switch copy switch_back
copy_section target_dir virt source size = do
  switch (v2p target_dir)
  copy virt source size
  switch_back

-- One section, whose header was read before.
unfoldable pub load_section :
    (file_data file_size target_dir image_base : ℕ) → Section → Io Loader Bool
unfolding map_section copy_section
load_section file_data file_size target_dir image_base section = do
  let virt_addr = add32 section.virtual_address image_base
  map_section target_dir virt_addr (add32 section.virtual_size 4095 / 4096)
  if ltb file_size (add32 section.raw_data_pointer section.raw_data_size)
      then pure false
      else if section.raw_data_size == 0
      then pure true
      else do
        copy_section target_dir virt_addr (add32 file_data section.raw_data_pointer)
            section.raw_data_size
        pure true

-- `left` sections from number `i` on
unfoldable pub load_sections :
    (left i file_data file_size target_dir : ℕ) → Headers → Io Loader Bool
unfolding section_at load_section
load_sections zero i file_data file_size target_dir h = pure true
load_sections (suc left) i file_data file_size target_dir h = do
  section ← section_at (add32 file_data (h.sections_addr + 40 * i))
  ok ← load_section file_data file_size target_dir h.image_base section
  if ok then load_sections left (i + 1) file_data file_size target_dir h else pure false

-- `*entry_point` and `*user_stack_top`, where `pe_load` returns true
pub record Loaded : Type 0 where
  pub entry_point : ℕ
  pub user_stack_top : ℕ

-- The sections, the entry point and the stack.
unfoldable pub load_image :
    (file_data file_size target_dir : ℕ) → Headers → Io Loader (Option Loaded)
unfolding load_sections map_section
load_image file_data file_size target_dir h = do
  ok ← load_sections h.section_count 0 file_data file_size target_dir h
  if not ok then pure none else do
    map_section target_dir user_stack_base 4
    pure (
        some (record {
          entry_point = add32 h.entry_point h.image_base;
          user_stack_top = user_stack_base + 4 * 4096;
        }))

-- after the headers were read
unfoldable pub load_from :
    Option Headers → (file_data file_size target_dir : ℕ) → Io Loader (Option Loaded)
unfolding load_image
load_from none file_data file_size target_dir = pure none
load_from (some h) file_data file_size target_dir = load_image file_data file_size target_dir h

unfoldable pub pe_load : (file_data file_size target_dir : ℕ) → Io Loader (Option Loaded)
unfolding read_headers load_from
pe_load file_data file_size target_dir =
    if target_dir == 0
    then pure none
    else do o ← read_headers file_data file_size; load_from o file_data file_size target_dir
