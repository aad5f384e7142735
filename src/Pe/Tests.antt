-- ===== src/Pe/Tests.antt =====
-- Examples of the program loader: a program of one section, with 4 bytes of data, at address
-- 3238002688, which the tables of the kernel's directory and of the target map to 16777216.
use khazaros.Base.{
  ℕ, ◌+◌, ◌*◌, ◌<◌, ◌≡◌, ◌≢◌, refl, sym, ap, ◌∙◌, arith, true, false, some, ◌||◌, ◌==◌,
  if◌then◌else◌, Bool-cases, inl, inr, ==→eq,
}
use mathlib.Core.Bool.{true≢false}
use khazaros.Pmm.View.{taken}
use khazaros.Pmm.Alloc.{alloc_block_lem, free_block_lem}
use khazaros.Pmm.Init.{init-IsCounted}
use khazaros.Vmm.Space.{IsSpace, entry}
use khazaros.Vmm.Init.Ranges.{allocated_nonzero}
use khazaros.Pe.Page.{frame_for, with_frame, AddsPage, add_page-AddsPage}
use khazaros.LibK.Memory.{Bytes, store8, store32}
use khazaros.Pmm
use khazaros.Pmm.{Pmm, free_block}
use khazaros.Vmm.{map_page, frame_of, is_present, pt_index}
use khazaros.Pe.{Loader, Section, section_at, read_headers, locate}
use khazaros.Pe.Load.{user_page, add_page, pe_load}
use khazaros.Pe.Directory.{LoadOutcome, pe_load-directory}

abbrev file_at : ℕ
file_at = 3238002688

abbrev file_frame : ℕ
file_frame = 16777216

-- the fields of the headers and of the section that are not 0
abbrev program : Bytes
program =
    let m₁ = store8 (store8 (λ i. 0) file_frame 77) (file_frame + 1) 90 in
    let m₂ = store8 (store8 m₁ (file_frame + 60) 64) (file_frame + 70) 1 in
    let m₃ = store32 (store8 m₂ (file_frame + 84) 32) (file_frame + 64) 17744 in
    let m₄ = store32 (store32 m₃ (file_frame + 104) 4096) (file_frame + 116) 4194304 in
    let m₅ = store32 (store32 m₄ (file_frame + 128) 16) (file_frame + 132) 4096 in
    store32 (store32 (store32 m₅ (file_frame + 136) 4) (file_frame + 140) 160) (file_frame + 160)
      3735928559

-- seven blocks, from the fifth on
abbrev blocks : Pmm
blocks =
    let three = free_block 20480 (free_block 24576 (free_block 28672 (Pmm.init (λ i. 0) 131072))) in
    free_block 32768 (free_block 36864 (free_block 40960 (free_block 45056 three)))

-- The table at 16384 is the entry 772 of both directories.
abbrev tables : ℕ → ℕ
tables a =
    if (a == 4096 + 4 * 772) || (a == 12288 + 4 * 772)
    then 16387
    else if a == 16384
    then 16777219
    else 0

abbrev loader : Loader
loader = record {
  vmm = record { pmm = blocks; word = tables; kernel_directory = 4096; current_directory = 4096 };
  memory = program;
}

abbrev text : Section
text = record {
  virtual_size = 16;
  virtual_address = 4096;
  raw_data_size = 4;
  raw_data_pointer = 160;
}

headers_read :
    read_headers file_at 164 loader
    ≡ some (
      some (record {
        section_count = 1;
        entry_point = 4096;
        image_base = 4194304;
        sections_addr = 120;
      }),
      loader,
    )
unfolding read_headers locate store8 store32 frame_of is_present pt_index
headers_read = refl

text_read : section_at (file_at + 120) loader ≡ some (text, loader)
unfolding section_at locate store8 store32 frame_of is_present pt_index
text_read = refl

pe_load-directory_example :
    LoadOutcome 4096
      (3221237760 == 0)
      (read_headers file_at 164 loader)
      loader
      (pe_load file_at 164 3221237760 loader)
pe_load-directory_example = pe_load-directory file_at 164 3221237760 loader (omega arith)

-- The same tables, with one free block.
abbrev one_block : Pmm
one_block = free_block 20480 (Pmm.init (λ i. 0) 131072)

abbrev small : Loader
small = record {
  vmm = record {
    pmm = one_block;
    word = tables;
    kernel_directory = 4096;
    current_directory = 4096;
  };
  memory = program;
}

others_taken : (c : ℕ) → c < 32 → (c == 5) ≡ false → taken one_block c ≡ true
others_taken c h ne = ground (
  arith,
  (free_block_lem 20480 (Pmm.init (λ i. 0) 131072)).0 c,
  (init-IsCounted (λ i. 0) 131072 (omega arith) refl).1 c (omega arith),
)

size : one_block.max_blocks ≡ 32
unfolding Pmm.init
size = (free_block_lem 20480 (Pmm.init (λ i. 0) 131072)).2

absent : is_present 0 ≡ false
unfolding is_present
absent = refl

the_table : frame_of 16387 ≡ 16384
unfolding frame_of
the_table = refl

-- Only the entry 772 is present.
only_table : (i : ℕ) → i < 1024 → is_present (entry small.vmm i) ≡ true → i ≡ 772
only_table i h e = elim (Bool-cases (i == 772)) [
  | inl eq ↦ ==→eq i 772 eq
  | inr ne ↦
      let zero_entry : entry small.vmm i ≡ 0 = ground arith in
      absurd (true≢false (sym (rw zero_entry at e) ∙ absent))
]

table_frame :
    (i : ℕ)
    → i < 1024
    → is_present (entry small.vmm i) ≡ true
    → frame_of (entry small.vmm i) ≡ 16384
table_frame i h e = ap (λ j. frame_of (entry small.vmm j)) (only_table i h e) ∙ the_table

small-IsSpace : IsSpace small.vmm
small-IsSpace = record {
  few_blocks = omega (arith, size);
  dir_aligned = refl;
  dir_taken = others_taken 1 (omega arith) refl;
  aligned = λ i h e. rw (table_frame i h e) refl;
  apart = λ i h e eq. omega (arith, table_frame i h e, eq);
  tables_taken = λ i h e. rw (table_frame i h e) (others_taken 4 (omega arith) refl);
  distinct = λ i j hi hj ne e e' eq. absurd (ne (only_table i hi e ∙ sym (only_table j hj e')));
}

a_frame : frame_for small.vmm ≢ 0
a_frame = elim (alloc_block_lem one_block) [
  | inl (full, e) ↦ λ z.
      true≢false
        (sym (full 5 (omega (arith, size))) ∙ (free_block_lem 20480 (Pmm.init (λ i. 0) 131072)).0 5)
  | inr (b, a) ↦
      allocated_nonzero one_block (Pmm.alloc_block one_block).1 b (Pmm.alloc_block one_block).0
        (omega (arith, size)) (others_taken 0 (omega arith) refl) a
]

a_table : (map_page (frame_for small.vmm) 3238006784 user_page (with_frame small.vmm)).0 ≡ true
unfolding map_page is_present
a_table = refl

add_page-AddsPage_example : AddsPage 3238006784 small (add_page 3238006784 small)
add_page-AddsPage_example =
    add_page-AddsPage 3238006784 small (omega arith) refl small-IsSpace a_frame a_table
