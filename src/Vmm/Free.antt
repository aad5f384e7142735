-- ===== src/Vmm/Free.antt =====
-- `vmm_free_directory` and `vmm_get_kernel_directory` of kernel/mm/paging/vmm.c. The entries are read
-- at `P2V` of the argument, which is where the kernel reaches the words at the argument itself.
use khazaros.Base.{
  ℕ, zero, suc, ◌+◌, ◌*◌, ◌/◌, ◌^◌, ◌<◌, ◌≤◌, ◌≡◌, ◌≢◌, refl, ap, ◌∙◌, false, arith, ◌==◌,
  if◌then◌else◌, inl, inr, ne→==,
}
use khazaros.Pmm
use khazaros.Pmm.{Pmm}
use khazaros.Pmm.View.{taken}
use khazaros.Pmm.Alloc.{Allocates, alloc_block_lem, free_block_lem}
use khazaros.Vmm.{
  Vmm, write, clear_page, is_present, frame_of, copy_entries, clone_directory, p2v, v2p,
}

unfoldable pub get_kernel_directory : Vmm → ℕ
get_kernel_directory s = p2v s.kernel_directory

-- `left` entries from number `i` on: the tables of those that are present
unfoldable pub free_tables : (left i dir : ℕ) → Vmm → Vmm
free_tables zero i dir s = s
free_tables (suc left) i dir s =
    let e = s.word (dir + 4 * i) in
    free_tables left (i + 1) dir
      (if is_present e then record s { pmm = Pmm.free_block (frame_of e) s.pmm } else s)

-- the tables of the first `user_entries`, and the directory
unfoldable pub free_all : (user_entries dir : ℕ) → Vmm → Vmm
unfolding free_tables
free_all user_entries dir s =
    let s₁ = free_tables user_entries 0 dir s in record s₁ { pmm = Pmm.free_block dir s₁.pmm }

unfoldable pub free_directory : (dir : ℕ) → Vmm → Vmm
free_directory dir s = if dir == 0 then s else free_all 768 dir s

copy_entries-before :
    (left i from to : ℕ) (word : ℕ → ℕ) (a : ℕ)
    → a < to + 4 * i
    → copy_entries left i from to word a ≡ word a
unfolding copy_entries
copy_entries-before zero i from to word a h = refl
copy_entries-before (suc left) i from to word a h =
    copy_entries-before left (i + 1) from to (write word (to + 4 * i) (word (from + 4 * i))) a
      (omega arith)
    ∙ ground arith

absent : is_present 0 ≡ false
unfolding is_present
absent = refl

-- A directory whose first entries are 0 has no tables to free.
free_tables-empty :
    (left i dir : ℕ) (s : Vmm)
    → ((j : ℕ) → j < i + left → s.word (dir + 4 * j) ≡ 0)
    → free_tables left i dir s ≡ s
unfolding free_tables
free_tables-empty zero i dir s h = refl
free_tables-empty (suc left) i dir s h =
    rw (h i (omega arith), absent) (free_tables-empty left (i + 1) dir s (λ j p. h j (omega arith)))

-- The blocks in use, and their number, are the same.
pub record SameBlocks (s s' : Pmm) : Type 0 where
  pub blocks : (c : ℕ) → taken s' c ≡ taken s c
  pub count : s'.used_blocks ≡ s.used_blocks

SameBlocks-free :
    (pmm pmm' : Pmm) (b pt : ℕ)
    → pmm.max_blocks ≤ 2 ^ 20
    → pmm.used_blocks < 2 ^ 32
    → Allocates pmm b pt pmm'
    → SameBlocks pmm (Pmm.free_block pt pmm')
SameBlocks-free pmm pmm' b pt few u a =
    let block : pt / 4096 ≡ b = omega (arith, a.pointer, a.in_bitmap, few) in
    record {
      blocks = λ c. ground (
        arith,
        (free_block_lem pt pmm').0 c,
        a.marks c,
        block,
        a.was_free,
        ap (taken pmm) {x = b} {y = c},
      );
      count = omega (arith, (free_block_lem pt pmm').1, a.counts);
    }

free_all-empty :
    (n dir : ℕ) (s : Vmm)
    → ((j : ℕ) → j < n → s.word (dir + 4 * j) ≡ 0)
    → (free_all n dir s).pmm ≡ Pmm.free_block dir s.pmm
unfolding free_all
free_all-empty n dir s h =
    ap (λ x. Pmm.free_block dir x.pmm) (free_tables-empty n 0 dir s (λ j p. h j (omega arith)))

free_directory-empty :
    (dir : ℕ) (s : Vmm)
    → (dir == 0) ≡ false
    → ((j : ℕ) → j < 768 → s.word (dir + 4 * j) ≡ 0)
    → (free_directory dir s).pmm ≡ Pmm.free_block dir s.pmm
unfolding free_directory
free_directory-empty dir s ne h = rw ne (free_all-empty 768 dir s h)

-- the state with a new directory
cloned : (n i dir : ℕ) → Pmm → Vmm → Vmm
cloned n i dir pmm s = record s {
  pmm = pmm;
  word = copy_entries n i s.kernel_directory dir (clear_page s.word dir);
}

clone_directory-new :
    (s : Vmm)
    → ((Pmm.alloc_block s.pmm).0 == 0) ≡ false
    → clone_directory s ≡ (
      p2v (Pmm.alloc_block s.pmm).0,
      cloned 256 768 (Pmm.alloc_block s.pmm).0 (Pmm.alloc_block s.pmm).1 s,
    )
unfolding clone_directory cloned
clone_directory-new s ne = rw ne refl

cloned-pmm : (n i dir : ℕ) (pmm : Pmm) (s : Vmm) → (cloned n i dir pmm s).pmm ≡ pmm
unfolding cloned
cloned-pmm n i dir pmm s = refl

-- The entries of user space are cleared.
cloned-empty :
    (n i dir : ℕ) (pmm : Pmm) (s : Vmm) (j : ℕ)
    → j < i
    → i ≤ 1024
    → (cloned n i dir pmm s).word (dir + 4 * j) ≡ 0
unfolding cloned
cloned-empty n i dir pmm s j h b =
    copy_entries-before n i s.kernel_directory dir (clear_page s.word dir) (dir + 4 * j)
      (omega arith)
    ∙ ground arith

freed_clone :
    (n : ℕ) (dir : ℕ) (pmm : Pmm) (s : Vmm)
    → (dir == 0) ≡ false
    → (free_directory dir (cloned n 768 dir pmm s)).pmm ≡ Pmm.free_block dir pmm
freed_clone n dir pmm s ne =
    free_directory-empty dir (cloned n 768 dir pmm s) ne
      (λ j h. cloned-empty n 768 dir pmm s j h (omega arith))
    ∙ ap (Pmm.free_block dir) (cloned-pmm n 768 dir pmm s)

-- A new directory whose physical address, `V2P` of what `vmm_clone_directory` returns, is given to
-- `vmm_free_directory` at once leaves the same blocks in use, and the same count. There is a block
-- for it, and the manager has at most 2^20 blocks and a count below 2^32.
pub free_directory-clone_directory :
    (s : Vmm)
    → s.pmm.max_blocks ≤ 2 ^ 20
    → s.pmm.used_blocks < 2 ^ 32
    → (Pmm.alloc_block s.pmm).0 ≢ 0
    → SameBlocks s.pmm (free_directory (v2p (clone_directory s).0) (clone_directory s).1).pmm
free_directory-clone_directory s few u h = elim (alloc_block_lem s.pmm) [
  | inl (full, e) ↦ absurd (h (ap (λ r. r.0) e))
  | inr (b, a) ↦
      let ne : ((Pmm.alloc_block s.pmm).0 == 0) ≡ false = ne→== _ 0 h in
      let physical : v2p (p2v (Pmm.alloc_block s.pmm).0) ≡ (Pmm.alloc_block s.pmm).0 =
        omega (arith, a.pointer, a.in_bitmap, few) in
      rw
        (
          clone_directory-new s ne,
          physical,
          freed_clone 256 (Pmm.alloc_block s.pmm).0 (Pmm.alloc_block s.pmm).1 s ne,
        )
        (SameBlocks-free s.pmm (Pmm.alloc_block s.pmm).1 b (Pmm.alloc_block s.pmm).0 few u a)
]
