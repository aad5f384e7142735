-- ===== src/Syscall/Descriptors.antt =====
-- The table of file descriptors under `SYS_OPEN` and `SYS_CLOSE`.
use khazaros.Base.{
  ℕ, suc, ◌≤◌, ◌<◌, ◌≡◌, ◌≢◌, refl, sym, ap, ◌∙◌, true, none, some, arith, ◌==◌, leb, if◌then◌else◌,
  Bool-cases, Option-cases, inl, inr, ==→eq, ==→ne, ne→==, fun_ext, lt→ltb,
}
use khazaros.Base.Search.{find_from, find_from-some, find_from-none}
use khazaros.Base.Window.{put, put-same}
use khazaros.Syscall.{
  FdTable, Reply, not_found, invalid, okay, descriptor, open_at, sys_open, is_open, sys_close,
}

-- The replies of `SYS_OPEN`: the first descriptor from 3 on that is not open now holds the node and
-- no other has changed, or none of them is free and the table is the same.
abbrev pub OpenOutcome : (node : ℕ) → FdTable → Reply × FdTable → Type 0
OpenOutcome node t (descriptor i, t₁) =
    (3 ≤ i)
    × (i < 16)
    × (t i ≡ 0)
    × ((j : ℕ) → 3 ≤ j → j < i → t j ≢ 0)
    × ((j : ℕ) → t₁ j ≡ (if j == i then node else t j))
OpenOutcome node t (not_found, t₁) = ((j : ℕ) → 3 ≤ j → j < 16 → t j ≢ 0) × (t₁ ≡ t)
OpenOutcome node t (invalid, t₁) = t₁ ≢ t₁
OpenOutcome node t (okay, t₁) = t₁ ≢ t₁

-- `SYS_OPEN` of a node puts it at the lowest free descriptor from 3 on, and fails only if all are
-- open.
pub sys_open_lem : (node : ℕ) (t : FdTable) → node ≢ 0 → OpenOutcome node t (sys_open node t)
unfolding sys_open open_at put
sys_open_lem node t real =
    rw (ne→== node 0 real) (elim (Option-cases (find_from (λ i. t i == 0) 13 3)) [
      | inl full ↦ rw full (
        λ j a b. ==→ne (t j) 0 (find_from-none (λ i. t i == 0) 13 3 full j a (omega arith)),
        refl,
      )
      | inr (i, free) ↦
          let first = find_from-some (λ i. t i == 0) 13 3 free in
          rw free (
            first.from,
            omega (arith, first.below),
            ==→eq (t i) 0 first.passes,
            λ j a b. ==→ne (t j) 0 (first.earlier j a b),
            λ j. refl,
          )
    ])

-- one more than the descriptor
index : Reply → ℕ
index (descriptor i) = suc i
index not_found = 0
index invalid = 0
index okay = 0

close-put :
    (node i : ℕ) (t : FdTable)
    → node ≢ 0
    → 3 ≤ i
    → i < 16
    → t i ≡ 0
    → sys_close i (put t i node) ≡ (okay, some node, t)
unfolding sys_close is_open
close-put node i t real low high free =
    rw (not_below, lt→ltb i 16 high, put-same t i node, ne→== node 0 real)
      (ap (λ t₁. (okay, some node, t₁)) (fun_ext restored))
  where
    not_below : leb 3 i ≡ true
    not_below = ground arith

    restored : (j : ℕ) → put (put t i node) i 0 j ≡ t j
    restored j =
        unfold put in
        elim (Bool-cases (j == i)) [
          | inl e ↦ rw e (sym free ∙ ap t (sym (==→eq j i e)))
          | inr ne ↦ rw ne refl
        ]

sys_open-free :
    (node i : ℕ) (t : FdTable)
    → node ≢ 0
    → find_from (λ i. t i == 0) 13 3 ≡ some i
    → sys_open node t ≡ (descriptor i, put t i node)
unfolding sys_open open_at
sys_open-free node i t real free = rw (ne→== node 0 real, free) refl

sys_open-full :
    (node : ℕ) (t : FdTable)
    → node ≢ 0
    → find_from (λ i. t i == 0) 13 3 ≡ none
    → sys_open node t ≡ (not_found, t)
unfolding sys_open open_at
sys_open-full node t real full = rw (ne→== node 0 real, full) refl

-- `SYS_CLOSE` of the descriptor that `SYS_OPEN` of a node has just returned closes that node and
-- gives back the table as it was before.
pub sys_close-sys_open :
    (node fd : ℕ) (t : FdTable)
    → node ≢ 0
    → (sys_open node t).0 ≡ descriptor fd
    → sys_close fd (sys_open node t).1 ≡ (okay, some node, t)
unfolding index
sys_close-sys_open node fd t real opened = elim (Option-cases (find_from (λ i. t i == 0) 13 3)) [
  | inl full ↦
      absurd
        (omega (arith, ap index (sym (ap (λ r. r.0) (sys_open-full node t real full)) ∙ opened)))
  | inr (i, free) ↦
      let first = find_from-some (λ i. t i == 0) 13 3 free in
      ap (λ r. sys_close fd r.1) (sys_open-free node i t real free)
      ∙ ap (λ j. sys_close j (put t i node)) {x = fd} {y = i}
          (omega
            (arith, ap index (sym (ap (λ r. r.0) (sys_open-free node i t real free)) ∙ opened)))
      ∙ close-put node i t real first.from (omega (arith, first.below)) (==→eq (t i) 0 first.passes)
]
