-- ===== src/Vmm/Write.antt =====
-- What `vmm_get_phys` of kernel/mm/paging/vmm.c and the table entries are after a write of one entry.
use khazaros.Base.{
  ℕ, ◌/◌, ◌^◌, ◌<◌, ◌≡◌, refl, sym, ap, ◌∙◌, true, false, arith, ◌==◌, if◌then◌else◌, Bool-cases,
  inl, inr, ==→eq, ==→ne, ne→==,
}
use mathlib.Core.Bool.{true≢false}
use khazaros.Vmm.{Vmm, write, pd_index, pt_index, frame_of, is_present, pte_at, get_phys}
use khazaros.Vmm.Entry.{pt_index-lt, pt_index_lem}
use khazaros.Vmm.Space.{entry, table, IsSpace, Tables-same, entry_ne, pd_index-lt}

-- `vmm_get_phys` from the directory entry on
unfoldable pub translate : (ℕ → ℕ) → (pde virt : ℕ) → ℕ
translate word pde virt =
    let pte = word (pte_at (frame_of pde) virt) in
    if is_present pde then (if is_present pte then frame_of pte else 0) else 0

pub get_phys-translate :
    (virt : ℕ) (s : Vmm) → get_phys virt s ≡ translate s.word (entry s (pd_index virt)) virt
unfolding get_phys translate
get_phys-translate virt s = refl

-- The table entry of the page of an address, 0 where its table is absent.
abbrev entry_from : (ℕ → ℕ) → (pde virt : ℕ) → ℕ
entry_from word pde virt = if is_present pde then word (pte_at (frame_of pde) virt) else 0

abbrev pub page_entry : ℕ → Vmm → ℕ
page_entry virt s = entry_from s.word (entry s (pd_index virt)) virt

-- The write of one table entry.
module _ (s : Vmm) (v : IsSpace s) (virt : ℕ) (word : virt < 2 ^ 32) where
  -- Two addresses have one table entry exactly if they lie on one page.
  same_pte :
      (w : ℕ)
      → w < 2 ^ 32
      → is_present (entry s (pd_index virt)) ≡ true
      → is_present (entry s (pd_index w)) ≡ true
      → (pte_at (table s (pd_index w)) w == pte_at (table s (pd_index virt)) virt)
        ≡ (w / 4096 == virt / 4096)
  same_pte w hw there there' = elim (Bool-cases (pd_index w == pd_index virt)) [
    | inl eq ↦
        let one : table s (pd_index w) ≡ table s (pd_index virt) = ap (table s) (==→eq _ _ eq) in
        rw one (one_table (table s (pd_index virt)) eq)
    | inr ne ↦
        let other =
          entry_ne (table s (pd_index w)) (table s (pd_index virt)) (pt_index w) (pt_index virt)
            (v.aligned _ (pd_index-lt w hw) there') (v.aligned _ (pd_index-lt virt word) there)
            (v.distinct _ _ (pd_index-lt w hw) (pd_index-lt virt word) (==→ne _ _ ne) there' there)
            (pt_index-lt w) (pt_index-lt virt) in
        rw (ne→== _ _ other) (ground arith)
  ]
    where
      one_table :
          (t : ℕ)
          → (pd_index w == pd_index virt) ≡ true
          → (pte_at t w == pte_at t virt) ≡ (w / 4096 == virt / 4096)
      one_table t eq = ground (arith, pt_index_lem w, pt_index_lem virt)

  other_page :
      (w : ℕ)
      → is_present (entry s (pd_index virt)) ≡ true
      → is_present (entry s (pd_index w)) ≡ false
      → (w / 4096 == virt / 4096) ≡ false
  other_page w there absent = elim (Bool-cases (w / 4096 == virt / 4096)) [
    | inl eq ↦
        let one : pd_index virt ≡ pd_index w = same_directory_entry (==→eq _ _ eq) in
        absurd (true≢false (sym there ∙ ap (λ i. is_present (entry s i)) one ∙ absent))
    | inr ne ↦ ne
  ]
    where
      same_directory_entry : w / 4096 ≡ virt / 4096 → pd_index virt ≡ pd_index w
      same_directory_entry e = omega arith

  -- What `vmm_get_phys` reads after a write of one table entry.
  module _ (new : ℕ) where
    abbrev s'' : Vmm
    s'' = record s { word = write s.word (pte_at (table s (pd_index virt)) virt) new }

    entry-write :
        is_present (entry s (pd_index virt)) ≡ true → (i : ℕ) → i < 1024 → entry s'' i ≡ entry s i
    entry-write there i hi =
        let other =
          entry_ne s.current_directory (table s (pd_index virt)) i (pt_index virt) v.dir_aligned
            (v.aligned _ (pd_index-lt virt word) there)
            (λ e. v.apart _ (pd_index-lt virt word) there (sym e)) hi (pt_index-lt virt) in
        rw (ne→== _ _ other) refl

    pub write-IsSpace : is_present (entry s (pd_index virt)) ≡ true → IsSpace s''
    write-IsSpace there =
        Tables-same s.pmm s.current_directory (entry s) (entry s'') v (entry-write there)

    pub get_phys-write :
        is_present (entry s (pd_index virt)) ≡ true
        → (w : ℕ) → w < 2 ^ 32
        → get_phys w s'' ≡ (
            if w / 4096 == virt / 4096
            then (if is_present new then frame_of new else 0)
            else get_phys w s)
    unfolding translate
    get_phys-write there w hw =
        get_phys-translate w s''
        ∙ ap (λ e. translate s''.word e w) (entry-write there (pd_index w) (pd_index-lt w hw))
        ∙ elim (Bool-cases (is_present (entry s (pd_index w)))) [
          | inl there' ↦
              rw (get_phys-translate w s, there', same_pte w hw there there') (ground arith)
          | inr absent ↦ rw (get_phys-translate w s, absent, other_page w there absent) refl
        ]

    pub page_entry-write :
        is_present (entry s (pd_index virt)) ≡ true
        → (w : ℕ) → w < 2 ^ 32
        → page_entry w s'' ≡ (if w / 4096 == virt / 4096 then new else page_entry w s)
    page_entry-write there w hw =
        ap (λ e. entry_from s''.word e w) (entry-write there (pd_index w) (pd_index-lt w hw))
        ∙ elim (Bool-cases (is_present (entry s (pd_index w)))) [
          | inl there' ↦ rw (there', same_pte w hw there there') refl
          | inr absent ↦ rw (absent, other_page w there absent) refl
        ]
