-- ===== src/Base/Window.antt =====
-- What a ring buffer holds: `count` of the `size` cells of a table, from one index on and around.
use khazaros.Base.{
  ℕ, zero, suc, ◌+◌, ◌-◌, ◌<◌, ◌≡◌, refl, ap, List, [], ◌∷◌, ◌++◌, arith, ◌==◌, if◌then◌else◌, ltb,
  ==-refl,
}

-- the cell after cell `i`
abbrev pub next : (size i : ℕ) → ℕ
next size i = if i + 1 == size then 0 else i + 1

-- the cell that is `n` after cell `i`, for `n` up to the size
abbrev pub after : (size i n : ℕ) → ℕ
after size i n = if ltb (i + n) size then i + n else i + n - size

module _ {A : Type 0} where
  -- the table with cell `i` set to `v`
  unfoldable pub put : (ℕ → A) → (i : ℕ) (v : A) → ℕ → A
  put f i v j = if j == i then v else f j

  unfoldable pub window : (size : ℕ) → (ℕ → A) → (i count : ℕ) → List A
  window size f i zero = []
  window size f i (suc n) = f i ∷ window size f (next size i) n

  -- The cell after the window, once it is set, joins it at the end.
  pub window-put :
      (size : ℕ) (f : ℕ → A) (v : A) (n i j : ℕ)
      → i < size
      → n < size
      → j ≡ after size i n
      → window size (put f j v) i (n + 1) ≡ window size f i n ++ (v ∷ [])
  unfolding window put
  window-put size f v zero i j lt room at_end = ground arith
  window-put size f v (suc n) i j lt room at_end =
      ground
        (arith, window-put size f v n (next size i) j (ground arith) (omega arith) (ground arith))

  pub window-front :
      (size : ℕ) (f : ℕ → A) (i n : ℕ)
      → 0 < n
      → window size f i n ≡ f i ∷ window size f (next size i) (n - 1)
  unfolding window
  window-front size f i zero some_held = absurd (omega arith)
  window-front size f i (suc n) some_held =
      ap (λ k. f i ∷ window size f (next size i) k) (omega arith)

  pub window_empty : (size : ℕ) (f : ℕ → A) (i n : ℕ) → n ≡ 0 → window size f i n ≡ []
  unfolding window
  window_empty size f i zero e = refl
  window_empty size f i (suc n) e = absurd (omega arith)

  pub put-same : (f : ℕ → A) (i : ℕ) (v : A) → put f i v i ≡ v
  unfolding put
  put-same f i v = rw (==-refl i) refl
