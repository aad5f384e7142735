-- ===== src/Vmm/Unmap.antt =====
-- `vmm_unmap_page` of kernel/mm/paging/vmm.c as an update of the table entries.
use khazaros.Base.{
  ℕ, ◌/◌, ◌^◌, ◌<◌, ◌≡◌, refl, sym, ap, ◌∙◌, true, false, arith, ◌==◌, if◌then◌else◌, Bool-cases,
  inl, inr, ==→eq,
}
use mathlib.Core.Path.{subst}
use khazaros.Vmm.{Vmm, write, pd_index, frame_of, is_present, pte_at, get_phys, unmap_page}
use khazaros.Vmm.Entry.{is_present_lem}
use khazaros.Vmm.Space.{entry, table, IsSpace}
use khazaros.Vmm.Write.{write-IsSpace, get_phys-write, page_entry, page_entry-write}
use khazaros.Vmm.Map.{Maps, get_phys-absent}

-- The page of `virt` is removed, and no other: its table entry is 0, or its table is absent.
abbrev pub Removes : (virt : ℕ) → (s s' : Vmm) → Type 0
Removes virt s s' =
    (w : ℕ) → w < 2 ^ 32 → page_entry w s' ≡ (if w / 4096 == virt / 4096 then 0 else page_entry w s)

-- On well-formed tables, for a 32-bit address `virt`, `vmm_unmap_page` leaves 0 in the table entry of
-- the page of `virt`, where it has a table, and leaves the table entry of every other page as it
-- was; so no address of the page has a physical address any more, every other address has the one
-- it had, and the tables stay well formed.
pub unmap_page_lem :
    (virt : ℕ) (s : Vmm)
    → virt < 2 ^ 32
    → IsSpace s
    → IsSpace (unmap_page virt s)
      × Removes virt s (unmap_page virt s)
      × Maps virt 0 s (unmap_page virt s)
unfolding unmap_page
unmap_page_lem virt s word v = elim (Bool-cases (is_present (entry s (pd_index virt)))) [
  | inl there ↦
      let same : unmap_page virt s
          ≡ record s { word = write s.word (pte_at (table s (pd_index virt)) virt) 0 } =
        rw there in
      subst (λ x. IsSpace x × Removes virt s x × Maps virt 0 s x) (sym same)
        (
          write-IsSpace s v virt word 0 there,
          page_entry-write s v virt word 0 there,
          λ w hw.
              get_phys-write s v virt word 0 there w hw
              ∙ ap (λ t. if w / 4096 == virt / 4096 then t else get_phys w s) nothing,
        )
  | inr absent ↦
      let same : unmap_page virt s ≡ s = rw absent in
      subst (λ x. IsSpace x × Removes virt s x × Maps virt 0 s x) (sym same)
        (v, λ w hw. without_entry w absent, λ w hw. unmapped w absent)
]
  where
    nothing : (if is_present 0 then frame_of 0 else 0) ≡ 0
    nothing = rw (is_present_lem 0)

    same_directory_entry : (w : ℕ) → w / 4096 ≡ virt / 4096 → pd_index w ≡ pd_index virt
    same_directory_entry w e = omega arith

    absent_too :
        (w : ℕ)
        → is_present (entry s (pd_index virt)) ≡ false
        → (w / 4096 == virt / 4096) ≡ true
        → is_present (entry s (pd_index w)) ≡ false
    absent_too w absent eq =
        ap (λ i. is_present (entry s i)) (same_directory_entry w (==→eq _ _ eq)) ∙ absent

    unmapped :
        (w : ℕ)
        → is_present (entry s (pd_index virt)) ≡ false
        → get_phys w s ≡ (if w / 4096 == virt / 4096 then 0 else get_phys w s)
    unmapped w absent = elim (Bool-cases (w / 4096 == virt / 4096)) [
      | inl eq ↦ rw (eq, get_phys-absent w s (absent_too w absent eq))
      | inr ne ↦ rw ne
    ]

    without_entry :
        (w : ℕ)
        → is_present (entry s (pd_index virt)) ≡ false
        → page_entry w s ≡ (if w / 4096 == virt / 4096 then 0 else page_entry w s)
    without_entry w absent = elim (Bool-cases (w / 4096 == virt / 4096)) [
      | inl eq ↦ rw (eq, absent_too w absent eq) refl
      | inr ne ↦ rw ne
    ]
