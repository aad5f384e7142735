-- ===== src/Base/Search.antt =====
-- `for (i = j; i < j + left; i++) if (test(i)) break;`, the search that many tables are read by.
use khazaros.Base.{
  ℕ, zero, suc, ◌+◌, ◌≤◌, ◌<◌, ◌≡◌, refl, Bool, true, false, Option, none, some, arith, ◌==◌,
  if◌then◌else◌, Bool-cases, inl, inr, ap, ◌∙◌, ==→eq,
}

unfoldable pub find_from : (ℕ → Bool) → (left j : ℕ) → Option ℕ
find_from test zero j = none
find_from test (suc left) j =
    let rest = find_from test left (j + 1) in if test j then some j else rest

-- no index in the range passes
abbrev pub NoneIn : (ℕ → Bool) → (left j : ℕ) → Type 0
NoneIn test left j = (k : ℕ) → j ≤ k → k < j + left → test k ≡ false

-- `b` is the first that does
pub record IsFirst (test : ℕ → Bool) (left j b : ℕ) : Type 0 where
  pub from : j ≤ b
  pub below : b < j + left
  pub passes : test b ≡ true
  pub earlier : (k : ℕ) → j ≤ k → k < b → test k ≡ false

abbrev pub Found : (ℕ → Bool) → (left j : ℕ) → Option ℕ → Type 0
Found test left j none = NoneIn test left j
Found test left j (some b) = IsFirst test left j b

module _ (test : ℕ → Bool) where
  widen :
      (left j : ℕ)
      → test j ≡ false
      → (o : Option ℕ) → Found test left (j + 1) o
      → Found test (suc left) j o
  widen left j fails none h = λ k p q. elim (Bool-cases (k == j)) [
    | inl e ↦ ap test (==→eq k j e) ∙ fails
    | inr ne ↦ h k (ground arith) (omega arith)
  ]
  widen left j fails (some b) h = record {
    from = omega (arith, h.from);
    below = omega (arith, h.below);
    passes = h.passes;
    earlier = λ k p q. elim (Bool-cases (k == j)) [
      | inl e ↦ ap test (==→eq k j e) ∙ fails
      | inr ne ↦ h.earlier k (ground arith) (omega arith)
    ];
  }

  pub find_from-Found : (left j : ℕ) → Found test left j (find_from test left j)
  unfolding find_from
  find_from-Found zero j = λ k p q. absurd (omega arith)
  find_from-Found (suc left) j = elim (Bool-cases (test j)) [
    | inl hit ↦ rw hit (record {
      from = omega arith;
      below = omega arith;
      passes = hit;
      earlier = λ k p q. absurd (omega arith);
    })
    | inr miss ↦
        rw miss (widen left j miss (find_from test left (j + 1)) (find_from-Found left (j + 1)))
  ]

  Found-some :
      (left j : ℕ) (o : Option ℕ)
      → Found test left j o
      → {b : ℕ} → o ≡ some b
      → IsFirst test left j b
  Found-some left j o h {b} e = rw e at h

  pub find_from-some : (left j : ℕ) {b : ℕ} → find_from test left j ≡ some b → IsFirst test left j b
  find_from-some left j e = Found-some left j (find_from test left j) (find_from-Found left j) e

  pub find_from-none : (left j : ℕ) → find_from test left j ≡ none → NoneIn test left j
  find_from-none left j e = none_at (find_from test left j) (find_from-Found left j) e
    where
      none_at : (o : Option ℕ) → Found test left j o → o ≡ none → NoneIn test left j
      none_at o h e = rw e at h

  -- The search finds the first index that passes.
  pub find_from-hit : (left j : ℕ) {b : ℕ} → IsFirst test left j b → find_from test left j ≡ some b
  unfolding find_from
  find_from-hit zero j h = absurd (omega (arith, h.from, h.below))
  find_from-hit (suc left) j {b} h = elim (Bool-cases (j == b)) [
    | inl e ↦ rw (ap test (==→eq j b e) ∙ h.passes) (ap some (==→eq j b e))
    | inr ne ↦ rw (h.earlier j (omega arith) (ground (arith, h.from))) (
        find_from-hit left (j + 1) (record {
          from = ground (arith, h.from);
          below = omega (arith, h.below);
          passes = h.passes;
          earlier = λ k p q. h.earlier k (omega arith) q;
        }))
  ]

  pub find_from-miss : (left j : ℕ) → NoneIn test left j → find_from test left j ≡ none
  unfolding find_from
  find_from-miss zero j h = refl
  find_from-miss (suc left) j h =
      rw (h j (omega arith) (omega arith))
        (find_from-miss left (j + 1) λ k p q. h k (omega arith) (omega arith))

  -- Tests that agree on the range find the same index.
  pub find_from-congruent :
      (test' : ℕ → Bool) (left j : ℕ)
      → ((k : ℕ) → j ≤ k → k < j + left → test k ≡ test' k)
      → find_from test left j ≡ find_from test' left j
  unfolding find_from
  find_from-congruent test' zero j h = refl
  find_from-congruent test' (suc left) j h =
      rw
        (
          h j (omega arith) (omega arith),
          find_from-congruent test' left (j + 1) (λ k p q. h k (omega arith) (omega arith)),
        )
        refl
