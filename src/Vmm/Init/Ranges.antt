-- ===== src/Vmm/Init/Ranges.antt =====
-- The loops of `vmm_init` of kernel/mm/paging/vmm.c, page by page.
use khazaros.Base.{
  ℕ, zero, suc, ◌+◌, ◌-◌, ◌*◌, ◌/◌, ◌%◌, ◌^◌, ◌<◌, ◌≤◌, ◌≡◌, ◌≢◌, ◌⊎◌, refl, sym, ap, ◌∙◌, true,
  false, ◌&&◌, arith, ◌==◌, ltb, leb, if◌then◌else◌, Bool-cases, inl, inr,
}
use mathlib.Core.Bool.{true≢false}
use mathlib.Core.Path.{subst}
use khazaros.Pmm
use khazaros.Pmm.{Pmm}
use khazaros.Pmm.View.{taken}
use khazaros.Pmm.Alloc.{Allocates, alloc_block_lem}
use khazaros.Vmm.{
  Vmm, clear_page, pd_index, is_present, map_page, get_phys, add_table, map_in_table,
}
use khazaros.Vmm.Space.{IsSpace, entry, pd_index-lt}
use khazaros.Vmm.Map.{map_page_lem, get_phys-absent}
use khazaros.Vmm.Init.{map_range, new_directory}

-- The pages from `offset` on, up to `n` bytes, are mapped to the frames from 0 on, the others as
-- before.
abbrev pub Covers : (offset n : ℕ) → (ℕ → ℕ) → Vmm → Type 0
Covers offset n before s =
    (w : ℕ)
    → w < 2 ^ 32
    → get_phys w s
      ≡ (if leb offset w && ltb w (offset + n) then w / 4096 * 4096 - offset else before w)

-- no block is left for a table
abbrev pub IsOut : Vmm → Type 0
IsOut s = (Pmm.alloc_block s.pmm).0 ≡ 0

-- The tables in the middle of a loop.
pub record Ranged (pd offset n : ℕ) (before : ℕ → ℕ) (s : Vmm) : Type 0 where
  pub space : IsSpace s
  pub zero_taken : taken s.pmm 0 ≡ true
  pub kernel : s.kernel_directory ≡ pd
  pub current : s.current_directory ≡ pd
  pub covers : Covers offset n before s ⊎ IsOut s

-- A block that is handed out is not the first, which is in use.
pub allocated_nonzero :
    (pmm pmm' : Pmm) (b pt : ℕ)
    → pmm.max_blocks ≤ 2 ^ 20
    → taken pmm 0 ≡ true
    → Allocates pmm b pt pmm'
    → pt ≢ 0
allocated_nonzero pmm pmm' b pt few t a z =
    let block : b ≡ 0 = omega (arith, a.pointer, a.in_bitmap, few, z) in
    true≢false (sym t ∙ ap (taken pmm) (sym block) ∙ a.was_free)

out-same :
    (pmm : Pmm)
    → pmm.max_blocks ≤ 2 ^ 20
    → taken pmm 0 ≡ true
    → (Pmm.alloc_block pmm).0 ≡ 0
    → (Pmm.alloc_block pmm).1 ≡ pmm
out-same pmm few t h = elim (alloc_block_lem pmm) [
  | inl (full, e) ↦ ap (λ r. r.1) e
  | inr (b, a) ↦
      absurd (allocated_nonzero pmm (Pmm.alloc_block pmm).1 b (Pmm.alloc_block pmm).0 few t a h)
]

module _ (phys virt flags : ℕ) (s : Vmm) where
  -- Without a block for a table, a call writes an entry of a table that is there, or nothing.
  map_page-IsOut :
      s.pmm.max_blocks ≤ 2 ^ 20
      → taken s.pmm 0 ≡ true
      → IsOut s
      → IsOut (map_page phys virt flags s).1
  unfolding map_page map_in_table
  map_page-IsOut few t h = elim (Bool-cases (is_present (entry s (pd_index virt)))) [
    | inl there ↦ rw there h
    | inr absent ↦ rw (absent, h, out-same s.pmm few t h) h
  ]

  map_page-zero_taken : taken s.pmm 0 ≡ true → taken (map_page phys virt flags s).1.pmm 0 ≡ true
  unfolding map_page map_in_table add_table
  map_page-zero_taken t = elim (Bool-cases (is_present (entry s (pd_index virt)))) [
    | inl there ↦ rw there t
    | inr absent ↦ rw absent (elim (Bool-cases ((Pmm.alloc_block s.pmm).0 == 0)) [
      | inl e ↦ rw e alloc_zero_taken
      | inr ne ↦ rw ne alloc_zero_taken
    ])
  ]
    where
      alloc_zero_taken : taken (Pmm.alloc_block s.pmm).1 0 ≡ true
      alloc_zero_taken = elim (alloc_block_lem s.pmm) [
        | inl (full, e) ↦ rw e t
        | inr (b, a) ↦ ground (arith, a.marks 0, t)
      ]

  -- Where the call fails, only the allocation has taken place.
  map_page-fails :
      s.pmm.max_blocks ≤ 2 ^ 20
      → taken s.pmm 0 ≡ true
      → is_present (entry s (pd_index virt)) ≡ false
      → IsOut s
      → (map_page phys virt flags s).1 ≡ s
  unfolding map_page
  map_page-fails few t absent h = rw (absent, h, out-same s.pmm few t h) refl

  pub map_page-directories :
      ((map_page phys virt flags s).1.kernel_directory ≡ s.kernel_directory)
      × ((map_page phys virt flags s).1.current_directory ≡ s.current_directory)
  unfolding map_page map_in_table add_table
  map_page-directories = elim (Bool-cases (is_present (entry s (pd_index virt)))) [
    | inl there ↦ rw there (refl, refl)
    | inr absent ↦ rw absent (elim (Bool-cases ((Pmm.alloc_block s.pmm).0 == 0)) [
      | inl e ↦ rw e (refl, refl)
      | inr ne ↦ rw ne (refl, refl)
    ])
  ]

-- A round of a loop.
map_page-Ranged :
    (pd offset n : ℕ) (before : ℕ → ℕ) (s : Vmm)
    → offset % 4096 ≡ 0
    → n % 4096 ≡ 0
    → offset + n + 4096 ≤ 2 ^ 32
    → Ranged pd offset n before s
    → Ranged pd offset (n + 4096) before (map_page n ((offset + n) % 2 ^ 32) 3 s).1
map_page-Ranged pd offset n before s o a f r =
    elim (map_page_lem n ((offset + n) % 2 ^ 32) 3 a (omega arith) (omega arith) (omega arith) s
      r.space) [
        | inl (done, space, maps) ↦ record {
          space = space;
          zero_taken = map_page-zero_taken n ((offset + n) % 2 ^ 32) 3 s r.zero_taken;
          kernel = (map_page-directories n ((offset + n) % 2 ^ 32) 3 s).0 ∙ r.kernel;
          current = (map_page-directories n ((offset + n) % 2 ^ 32) 3 s).1 ∙ r.current;
          covers = elim r.covers [
            | inl c ↦ inl (λ w h. ground (arith, maps w h, c w h))
            | inr out ↦
                inr
                  (map_page-IsOut n ((offset + n) % 2 ^ 32) 3 s r.space.few_blocks r.zero_taken out)
          ];
        }
        | inr (done, absent, out, same) ↦
            rw
              (map_page-fails n ((offset + n) % 2 ^ 32) 3 s r.space.few_blocks r.zero_taken absent
                out)
              (record {
                space = r.space;
                zero_taken = r.zero_taken;
                kernel = r.kernel;
                current = r.current;
                covers = inr out;
              })
      ]

pub map_range-Ranged :
    (left pd offset n : ℕ) (before : ℕ → ℕ) (s : Vmm)
    → offset % 4096 ≡ 0
    → n % 4096 ≡ 0
    → offset + n + 4096 * left ≤ 2 ^ 32
    → Ranged pd offset n before s
    → Ranged pd offset (n + 4096 * left) before (map_range left n offset s)
unfolding map_range
map_range-Ranged zero pd offset n before s o a f r = rw (ends n) r
  where
    ends : (n : ℕ) → n + 4096 * 0 ≡ n
    ends n = omega arith
map_range-Ranged (suc left) pd offset n before s o a f r =
    subst
      (λ e.
        Ranged pd offset e before
          (map_range left (n + 4096) offset (map_page n ((offset + n) % 2 ^ 32) 3 s).1))
      {x = n + 4096 + 4096 * left} {y = n + 4096 * suc left} (omega arith)
      (map_range-Ranged left pd offset (n + 4096) before (map_page n ((offset + n) % 2 ^ 32) 3 s).1
        o (omega arith) (omega arith) (map_page-Ranged pd offset n before s o a (omega arith) r))

absent : is_present 0 ≡ false
unfolding is_present
absent = refl

pub new_directory-Ranged :
    (s : Vmm) (b pt : ℕ) (pmm : Pmm)
    → s.pmm.max_blocks ≤ 2 ^ 20
    → taken s.pmm 0 ≡ true
    → Allocates s.pmm b pt pmm
    → Ranged pt 0 0 (λ w. 0) (new_directory pt pmm s)
unfolding new_directory
new_directory-Ranged s b pt pmm few t a = record {
  space = record {
    few_blocks = omega (arith, a.max_same, few);
    dir_aligned = omega (arith, frame);
    dir_taken = rw block (a.marks b ∙ ground arith);
    aligned = λ i h e. absurd (none_present i h e);
    apart = λ i h e. absurd (none_present i h e);
    tables_taken = λ i h e. absurd (none_present i h e);
    distinct = λ i j h k ne e. absurd (none_present i h e);
  };
  zero_taken = a.marks 0 ∙ ground (arith, t);
  kernel = refl;
  current = refl;
  covers = inl (λ w h. ground (arith, unmapped w h));
}
  where
    frame : pt ≡ b * 4096
    frame = omega (arith, a.pointer, a.in_bitmap, few)

    block : pt / 4096 ≡ b
    block = omega (arith, frame)

    cleared : (i : ℕ) → i < 1024 → clear_page s.word pt (pt + 4 * i) ≡ 0
    cleared i h = ground arith

    unmapped : (w : ℕ) → w < 2 ^ 32 → get_phys w (new_directory pt pmm s) ≡ 0
    unmapped w h =
        get_phys-absent w (new_directory pt pmm s)
          (ap is_present (cleared (pd_index w) (pd_index-lt w h)) ∙ absent)

    none_present : (i : ℕ) → i < 1024 → is_present (clear_page s.word pt (pt + 4 * i)) ≢ true
    none_present i h e = true≢false (sym e ∙ ap is_present (cleared i h) ∙ absent)
