-- ===== src/Vmm/Map.antt =====
-- `vmm_map_page` as an update of the map from pages to frames.
use khazaros.Base.{
  ℕ, ◌+◌, ◌*◌, ◌/◌, ◌%◌, ◌^◌, ◌<◌, ◌≡◌, ◌≢◌, refl, sym, ap, ◌∙◌, ◌⊎◌, Bool, true, false, ◌&&◌,
  arith, ◌==◌, ltb, leb, if◌then◌else◌, Bool-cases, inl, inr, ==→eq, ==→ne, ne→==, ==-refl,
}
use mathlib.Core.Path.{subst}
use khazaros.Pmm
use khazaros.Pmm.{Pmm}
use khazaros.Pmm.Alloc.{Allocates, alloc_block_lem}
use khazaros.Vmm.{
  Vmm, pd_index, pt_index, frame_of, is_present, make_entry, pde_at, pte_at, map_in_table,
  add_table, get_phys, map_page,
}
use khazaros.Vmm.Entry.{pt_index-lt, is_present-make_entry, frame_of-make_entry, is_present_lem}
use khazaros.Vmm.Space.{entry, table, IsSpace, Tables-add, new_frame, fresh, entry_ne, pd_index-lt}
use khazaros.Vmm.Write.{translate, get_phys-translate, write-IsSpace, get_phys-write}

-- A new table: cleared, of a block that was free, in a directory entry that was absent.
module _ (s : Vmm) (v : IsSpace s) (virt flags b pt : ℕ) (pmm : Pmm) (word : virt < 2 ^ 32)
    (small : flags < 4096) (a : Allocates s.pmm b pt pmm)
    (absent : is_present (entry s (pd_index virt)) ≡ false) where
  abbrev s⁺ : Vmm
  s⁺ = add_table s pmm pt virt flags

  at : pt ≡ b * 4096
  at = new_frame s.pmm pmm s.current_directory (entry s) (entry s⁺) (pd_index virt) b pt v a

  outside :
      (x i : ℕ)
      → x % 4096 ≡ 0
      → x ≢ pt
      → i < 1024
      → (leb pt (x + 4 * i) && ltb (x + 4 * i) (pt + 4096)) ≡ false
  outside x i al ne h = ground (arith, at)

  dir_ne : s.current_directory ≢ pt
  dir_ne =
      fresh s.pmm pmm s.current_directory (entry s) (entry s⁺) (pd_index virt) b pt v a
        s.current_directory v.dir_aligned v.dir_taken

  entry-new : entry s⁺ (pd_index virt) ≡ make_entry pt flags
  unfolding add_table
  entry-new = rw (==-refl (pde_at s virt))

  entry-old : (i : ℕ) → i < 1024 → i ≢ pd_index virt → entry s⁺ i ≡ entry s i
  unfolding add_table
  entry-old i h ne =
      let other : s.current_directory + 4 * i ≢ pde_at s virt = omega arith in
      rw (ne→== _ _ other, outside s.current_directory i v.dir_aligned dir_ne h)

  new_entry :
      (is_present (entry s⁺ (pd_index virt)) ≡ true) × (frame_of (entry s⁺ (pd_index virt)) ≡ pt)
  new_entry = rw entry-new (
    is_present-make_entry pt flags (omega (arith, at)) small,
    frame_of-make_entry pt flags (omega (arith, at)) small
        (omega (arith, at, a.in_bitmap, v.few_blocks)),
  )

  add_table-IsSpace : IsSpace s⁺
  unfolding add_table
  add_table-IsSpace =
      Tables-add s.pmm pmm s.current_directory (entry s) (entry s⁺) (pd_index virt) b pt v a
        (pd_index-lt virt word) absent new_entry entry-old

  -- a table entry of the new table
  cleared : (w : ℕ) → s⁺.word (pte_at pt w) ≡ 0
  unfolding add_table
  cleared w =
      let other =
        entry_ne pt s.current_directory (pt_index w) (pd_index virt) (omega (arith, at))
          v.dir_aligned (λ e. dir_ne (sym e)) (pt_index-lt w) (pd_index-lt virt word) in
      rw (ne→== _ _ other) (ground (arith, pt_index-lt w))

  -- a table entry of another table
  other_table :
      (i w : ℕ)
      → i < 1024
      → is_present (entry s i) ≡ true
      → s⁺.word (pte_at (table s i) w) ≡ s.word (pte_at (table s i) w)
  unfolding add_table
  other_table i w h there =
      let other =
        entry_ne (table s i) s.current_directory (pt_index w) (pd_index virt) (v.aligned i h there)
          v.dir_aligned (v.apart i h there) (pt_index-lt w) (pd_index-lt virt word) in
      let apart =
        fresh s.pmm pmm s.current_directory (entry s) (entry s⁺) (pd_index virt) b pt v a
          (table s i) (v.aligned i h there) (v.tables_taken i h there) in
      rw (
        ne→== _ _ other,
        outside (table s i) (pt_index w) (v.aligned i h there) apart (pt_index-lt w),
      )

  -- An empty table translates nothing.
  get_phys-add_table : (w : ℕ) → w < 2 ^ 32 → get_phys w s⁺ ≡ get_phys w s
  unfolding translate
  get_phys-add_table w hw =
      rw (get_phys-translate w s⁺, get_phys-translate w s)
        (elim (Bool-cases (pd_index w == pd_index virt)) [
          | inl eq ↦
              let one : pd_index w ≡ pd_index virt = ==→eq _ _ eq in
              rw (one, new_entry.0, new_entry.1, cleared w, absent, is_present_lem 0) refl
          | inr ne ↦
              rw (entry-old (pd_index w) (pd_index-lt w hw) (==→ne _ _ ne))
                (elim (Bool-cases (is_present (entry s (pd_index w)))) [
                  | inl there ↦ rw (there, other_table (pd_index w) w (pd_index-lt w hw) there) refl
                  | inr none ↦ rw none refl
                ])
        ])

abbrev pub SameSpace : Vmm → Vmm → Type 0
SameSpace s s' = (w : ℕ) → w < 2 ^ 32 → get_phys w s' ≡ get_phys w s

-- The page of `virt` is mapped to `frame`, and no other page is changed.
abbrev pub Maps : (virt frame : ℕ) → Vmm → Vmm → Type 0
Maps virt frame s s' =
    (w : ℕ) → w < 2 ^ 32 → get_phys w s' ≡ (if w / 4096 == virt / 4096 then frame else get_phys w s)

-- what `vmm_map_page` returns, and the state that it leaves
abbrev pub MapOutcome : (virt phys : ℕ) → Vmm → Bool × Vmm → Type 0
MapOutcome virt phys s (done, s') =
    ((done ≡ true) × IsSpace s' × Maps virt phys s s')
    ⊎ ((done ≡ false)
        × (is_present (entry s (pd_index virt)) ≡ false)
        × ((Pmm.alloc_block s.pmm).0 ≡ 0)
        × SameSpace s s')

pub get_phys-pmm :
    (s : Vmm) (pmm : Pmm) (w : ℕ) → get_phys w (record s { pmm = pmm }) ≡ get_phys w s
unfolding get_phys
get_phys-pmm s pmm w = refl

pub get_phys-absent :
    (w : ℕ) (s : Vmm) → is_present (entry s (pd_index w)) ≡ false → get_phys w s ≡ 0
unfolding get_phys
get_phys-absent w s e = rw e

module _ (phys virt flags : ℕ) (al : phys % 4096 ≡ 0) (frame : phys < 2 ^ 32) (word : virt < 2 ^ 32)
    (small : flags < 4096) where
  Maps-map_in_table :
      (s : Vmm)
      → IsSpace s
      → is_present (entry s (pd_index virt)) ≡ true
      → IsSpace (map_in_table s (table s (pd_index virt)) phys virt flags)
        × Maps virt phys s (map_in_table s (table s (pd_index virt)) phys virt flags)
  unfolding map_in_table
  Maps-map_in_table s v there = (
    write-IsSpace s v virt word (make_entry phys flags) there,
    λ w hw. get_phys-write s v virt word (make_entry phys flags) there w hw ∙ entry_says w,
  )
    where
      entry_says :
          (w : ℕ)
          → (if w / 4096 == virt / 4096
              then (if is_present (make_entry phys flags)
                  then frame_of (make_entry phys flags)
                  else 0)
              else get_phys w s)
            ≡ (if w / 4096 == virt / 4096 then phys else get_phys w s)
      entry_says w =
          rw
            (
              is_present-make_entry phys flags al small,
              frame_of-make_entry phys flags al small frame,
            )
            refl

  map_new :
      (s : Vmm) (v : IsSpace s) (b pt : ℕ) (pmm : Pmm)
      → Allocates s.pmm b pt pmm
      → is_present (entry s (pd_index virt)) ≡ false
      → IsSpace (map_in_table (add_table s pmm pt virt flags) pt phys virt flags)
        × Maps virt phys s (map_in_table (add_table s pmm pt virt flags) pt phys virt flags)
  map_new s v b pt pmm a absent =
      let s⁺ = add_table s pmm pt virt flags in
      let (there, at) = new_entry s v virt flags b pt pmm word small a absent in
      let (space, maps) =
        Maps-map_in_table s⁺ (add_table-IsSpace s v virt flags b pt pmm word small a absent)
          there in
      subst
        (λ t.
          IsSpace (map_in_table s⁺ t phys virt flags)
          × Maps virt phys s (map_in_table s⁺ t phys virt flags))
        at
        (
          space,
          λ w hw.
              maps w hw
              ∙ ap (λ t. if w / 4096 == virt / 4096 then phys else t)
                  (get_phys-add_table s v virt flags b pt pmm word small a absent w hw),
        )

  -- On well-formed tables, for a 32-bit address `virt`, an aligned frame `phys` and flags below
  -- 4096, `vmm_map_page` either returns true and maps the page of `virt` to `phys`, changing no
  -- other page and leaving the tables well formed, or returns false, which happens only where the
  -- directory entry is absent and `pmm_alloc_block` returns 0, and changes no page.
  pub map_page_lem : (s : Vmm) → IsSpace s → MapOutcome virt phys s (map_page phys virt flags s)
  unfolding map_page
  map_page_lem s v = elim (Bool-cases (is_present (entry s (pd_index virt)))) [
    | inl there ↦
        let (space, maps) = Maps-map_in_table s v there in
        let same : map_page phys virt flags s
            ≡ (true, map_in_table s (table s (pd_index virt)) phys virt flags) =
          rw there in
        subst (MapOutcome virt phys s) (sym same) (inl (refl, space, maps))
    | inr absent ↦ elim (Bool-cases ((Pmm.alloc_block s.pmm).0 == 0)) [
      | inl zero_page ↦
          let same : map_page phys virt flags s
              ≡ (false, record s { pmm = (Pmm.alloc_block s.pmm).1 }) =
            rw (absent, zero_page) in
          subst (MapOutcome virt phys s) (sym same) (
            inr (
              refl,
              absent,
              ==→eq _ _ zero_page,
              λ w hw. get_phys-pmm s (Pmm.alloc_block s.pmm).1 w,
            ))
      | inr page ↦ elim (alloc_block_lem s.pmm) [
        | inl (full, e) ↦ absurd (==→ne _ _ page (ap (λ r. r.0) e))
        | inr (b, a) ↦
            let (space, maps) =
              map_new s v b (Pmm.alloc_block s.pmm).0 (Pmm.alloc_block s.pmm).1 a absent in
            let same : map_page phys virt flags s ≡ (
              true,
              map_in_table
                  (add_table s (Pmm.alloc_block s.pmm).1 (Pmm.alloc_block s.pmm).0 virt flags)
                  (Pmm.alloc_block s.pmm).0 phys virt flags,
            ) =
              rw (absent, page) in
            subst (MapOutcome virt phys s) (sym same) (inl (refl, space, maps))
      ]
    ]
  ]
