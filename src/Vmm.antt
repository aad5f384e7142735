-- ===== src/Vmm.antt =====
-- kernel/mm/paging/vmm.c: two-level page tables over the physical memory manager.
pub mod Entry
pub mod Space
pub mod Write
pub mod Map
pub mod Unmap
pub mod Init
pub mod Free
mod Tests
use khazaros.Base.{
  ℕ, zero, suc, ◌+◌, ◌-◌, ◌*◌, ◌/◌, ◌%◌, ◌^◌, bit_and, bit_or, Bool, true, false, ◌&&◌, ◌==◌, ltb,
  leb, if◌then◌else◌,
}
use khazaros.Pmm
use khazaros.Pmm.{Pmm}

abbrev pub present : ℕ
present = 1

abbrev pub writable : ℕ
writable = 2

-- `0xC0000000`
abbrev pub kernel_virt_base : ℕ
kernel_virt_base = 3221225472

-- `P2V` of an address
abbrev pub p2v : ℕ → ℕ
p2v a = (a + kernel_virt_base) % 2 ^ 32

-- `V2P` of an address
abbrev pub v2p : ℕ → ℕ
v2p a = (a + (2 ^ 32 - kernel_virt_base)) % 2 ^ 32

-- The two statics, as physical addresses, with the memory that the tables lie in and the physical
-- memory manager. `word a` is the 32-bit word at physical address `a`, which the kernel reaches
-- at `P2V(a)`.
pub record Vmm : Type 0 where
  pub pmm : Pmm
  pub word : ℕ → ℕ
  pub kernel_directory : ℕ
  pub current_directory : ℕ

abbrev pub write : (ℕ → ℕ) → ℕ → ℕ → ℕ → ℕ
write word a v b = if b == a then v else word b

-- `memset(page, 0, 4096)`
abbrev pub clear_page : (ℕ → ℕ) → ℕ → ℕ → ℕ
clear_page word page a = if leb page a && ltb a (page + 4096) then 0 else word a

abbrev pub pd_index : ℕ → ℕ
pd_index virt = virt / 2 ^ 22

unfoldable pub pt_index : ℕ → ℕ
pt_index virt = bit_and (virt / 2 ^ 12) 0x3ff

-- `entry & ~0xFFF`
unfoldable pub frame_of : ℕ → ℕ
frame_of entry = bit_and entry 0xffff_f000

unfoldable pub is_present : ℕ → Bool
is_present entry = if bit_and entry present == 0 then false else true

-- `(uint32_t)frame | flags | VMM_PRESENT`
pub make_entry : (frame flags : ℕ) → ℕ
make_entry frame flags = bit_or (bit_or frame flags) present

-- where the directory entry of `virt` lies, and its table entry in the table at `pt`
abbrev pub pde_at : Vmm → ℕ → ℕ
pde_at s virt = s.current_directory + 4 * pd_index virt

abbrev pub pte_at : (pt virt : ℕ) → ℕ
pte_at pt virt = pt + 4 * pt_index virt

-- the last write of `vmm_map_page`
pub map_in_table : Vmm → (pt phys virt flags : ℕ) → Vmm
map_in_table s pt phys virt flags = record s {
  word = write s.word (pte_at pt virt) (make_entry phys flags);
}

-- A new page table, cleared, and the directory entry that points to it.
pub add_table : Vmm → Pmm → (pt virt flags : ℕ) → Vmm
add_table s pmm pt virt flags = record s {
  pmm = pmm;
  word = write (clear_page s.word pt) (pde_at s virt) (make_entry pt flags);
}

unfoldable pub map_page : (phys virt flags : ℕ) → Vmm → Bool × Vmm
map_page phys virt flags s =
    let pde = s.word (pde_at s virt) in
    if is_present pde
    then (true, map_in_table s (frame_of pde) phys virt flags)
    else (let (pt, pmm) = Pmm.alloc_block s.pmm in
        if pt == 0
        then (false, record s { pmm = pmm })
        else (true, map_in_table (add_table s pmm pt virt flags) pt phys virt flags))

pub unmap_page : ℕ → Vmm → Vmm
unmap_page virt s =
    let pde = s.word (pde_at s virt) in
    if is_present pde then record s { word = write s.word (pte_at (frame_of pde) virt) 0 } else s

-- `NULL` is 0.
unfoldable pub get_phys : ℕ → Vmm → ℕ
get_phys virt s =
    let pde = s.word (pde_at s virt) in
    let pte = s.word (pte_at (frame_of pde) virt) in
    if is_present pde then (if is_present pte then frame_of pte else 0) else 0

unfoldable pub switch_directory : ℕ → Vmm → Vmm
switch_directory dir s = record s { current_directory = dir }

-- The loop of `vmm_clone_directory`: `left` entries from number `i` on.
pub copy_entries : (left i from to : ℕ) → (ℕ → ℕ) → ℕ → ℕ
copy_entries zero i from to word = word
copy_entries (suc left) i from to word =
    copy_entries left (i + 1) from to (write word (to + 4 * i) (word (from + 4 * i)))

-- The new directory is returned by its address in the kernel, `P2V` of its block; 0 is `NULL`.
pub clone_directory : Vmm → ℕ × Vmm
clone_directory s =
    let (dir, pmm) = Pmm.alloc_block s.pmm in
    if dir == 0 then (0, record s { pmm = pmm }) else (
      p2v dir,
      record s {
        pmm = pmm;
        word = copy_entries 256 768 s.kernel_directory dir (clear_page s.word dir);
      },
    )
