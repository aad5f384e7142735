-- ===== src/LibK/Compare.antt =====
-- What the string functions return.
use khazaros.Base.{
  ℕ, zero, suc, ◌+◌, ◌≤◌, ◌<◌, ◌≡◌, ◌≢◌, refl, ap, ◌∙◌, ◌↔◌, some, arith, ◌==◌, Bool-cases, inl,
  inr, ==→eq, ==→ne, ne→==,
}
use khazaros.LibK.Copy.{AreBytes}
use khazaros.LibK.Text.{
  Chars, strlen_loop, strlen, byte_diff, strcmp_loop, strcmp, memcmp_loop, memcmp,
}

-- a string of `n` characters
pub record HasLength (s : Chars) (n : ℕ) : Type 0 where
  pub ends : s n ≡ 0
  pub before : (k : ℕ) → k < n → s k ≢ 0

strlen_loop-lem :
    (fuel len n : ℕ) (s : Chars)
    → HasLength s n
    → len ≤ n
    → n < len + fuel
    → strlen_loop fuel len s ≡ some n
unfolding strlen_loop
strlen_loop-lem zero len n s h le enough = absurd (omega arith)
strlen_loop-lem (suc fuel) len n s h le enough = elim (Bool-cases (len == n)) [
  | inl eq ↦ rw (ap s (==→eq len n eq) ∙ h.ends) (ap some (==→eq len n eq))
  | inr ne ↦
      rw (ne→== _ _ (h.before len (ground arith)))
        (strlen_loop-lem fuel (len + 1) n s h (ground arith) (omega arith))
]

-- `strlen` returns the length of a string, with a round for each of its bytes and one for the end.
pub strlen_lem : (s : Chars) (n fuel : ℕ) → HasLength s n → n < fuel → strlen fuel s ≡ some n
unfolding strlen
strlen_lem s n fuel h enough = strlen_loop-lem fuel 0 n s h (omega arith) (omega arith)

abbrev pub SameUpTo : (n : ℕ) (s t : Chars) → Type 0
SameUpTo n s t = (k : ℕ) → k < n → s k ≡ t k

memcmp_loop-lem :
    (n i : ℕ) (p q : Chars)
    → AreBytes p
    → AreBytes q
    → (memcmp_loop n i p q ≡ 0) ↔ ((k : ℕ) → i ≤ k → k < i + n → p k ≡ q k)
unfolding memcmp_loop
memcmp_loop-lem zero i p q hp hq = (λ e k a b. absurd (omega arith), λ h. refl)
memcmp_loop-lem (suc n) i p q hp hq = elim (Bool-cases (p i == q i)) [
  | inl eq ↦ rw eq (
    λ e k a b. elim (Bool-cases (k == i)) [
      | inl here ↦ rw (==→eq k i here) (==→eq _ _ eq)
      | inr other ↦ (memcmp_loop-lem n (i + 1) p q hp hq).0 e k (ground arith) (omega arith)
    ],
    λ h. (memcmp_loop-lem n (i + 1) p q hp hq).1 (λ k a b. h k (omega arith) (omega arith)),
  )
  | inr ne ↦ rw ne (
    λ e. absurd (==→ne _ _ ne (omega (arith, hp i, hq i))),
    λ h. absurd (==→ne _ _ ne (h i (omega arith) (omega arith))),
  )
]

-- On bytes `memcmp` returns 0 exactly if the `n` bytes are the same.
pub memcmp_lem :
    (p q : Chars) (n : ℕ) → AreBytes p → AreBytes q → (memcmp p q n ≡ 0) ↔ SameUpTo n p q
unfolding memcmp
memcmp_lem p q n hp hq =
    let (same, zero_diff) = memcmp_loop-lem n 0 p q hp hq in
    (λ e k lt. same e k (omega arith) (omega arith), λ h. zero_diff (λ k a b. h k (omega arith)))

strcmp_loop-lem :
    (fuel i n : ℕ) (s t : Chars)
    → AreBytes s
    → AreBytes t
    → HasLength s n
    → i ≤ n
    → n < i + fuel
    → (r : ℕ) × (strcmp_loop fuel i s t ≡ some r)
      × ((r ≡ 0) ↔ ((k : ℕ) → i ≤ k → k ≤ n → s k ≡ t k))
unfolding strcmp_loop
strcmp_loop-lem zero i n s t hs ht len le enough = absurd (omega arith)
strcmp_loop-lem (suc fuel) i n s t hs ht len le enough = elim (Bool-cases (s i == t i)) [
  | inr ne ↦ rw ne (
    byte_diff (s i) (t i),
    ground arith,
    (
      λ e. absurd (==→ne _ _ ne (omega (arith, hs i, ht i))),
      λ h. absurd (==→ne _ _ ne (h i (omega arith) le)),
    ),
  )
  | inl eq ↦ elim (Bool-cases (s i == 0)) [
    | inl stop ↦ (
      byte_diff (s i) (t i),
      ground arith,
      (
        λ e k a b. last k a b (==→eq _ _ eq) (at_end (==→eq _ _ stop)),
        λ h. ground (arith, ==→eq _ _ eq, hs i),
      ),
    )
    | inr more ↦
        let (r, runs, (same, zero_diff)) =
          strcmp_loop-lem fuel (i + 1) n s t hs ht len (on (==→ne _ _ more)) (omega arith) in
        (
          r,
          ground (arith, runs),
          (
            λ e k a b. elim (Bool-cases (k == i)) [
              | inl here ↦ rw (==→eq k i here) (==→eq _ _ eq)
              | inr other ↦ same e k (ground arith) b
            ],
            λ h. zero_diff (λ k a b. h k (omega arith) b),
          ),
        )
  ]
]
  where
    at_end : s i ≡ 0 → i ≡ n
    at_end e = elim (Bool-cases (i == n)) [
      | inl eq ↦ ==→eq i n eq
      | inr ne ↦ absurd (len.before i (ground arith) e)
    ]

    on : s i ≢ 0 → i + 1 ≤ n
    on ne = elim (Bool-cases (i == n)) [
      | inl eq ↦ absurd (ne (ap s (==→eq i n eq) ∙ len.ends))
      | inr other ↦ ground arith
    ]

    last : (k : ℕ) → i ≤ k → k ≤ n → s i ≡ t i → i ≡ n → s k ≡ t k
    last k a b e stop = rw here e
      where
        here : k ≡ i
        here = omega arith

-- `strcmp` on a string of `n` characters and another, both of bytes, ends and returns 0 exactly
-- if the other has the same characters and ends with it, with a round for each byte and one for
-- the end.
pub strcmp_lem :
    (s t : Chars) (n fuel : ℕ)
    → AreBytes s
    → AreBytes t
    → HasLength s n
    → n < fuel
    → (r : ℕ) × (strcmp fuel s t ≡ some r) × ((r ≡ 0) ↔ SameUpTo (n + 1) s t)
unfolding strcmp
strcmp_lem s t n fuel hs ht len enough =
    let (r, runs, (same, zero_diff)) =
      strcmp_loop-lem fuel 0 n s t hs ht len (omega arith) (omega arith) in
    (
      r,
      runs,
      (λ e k lt. same e k (omega arith) (omega arith), λ h. zero_diff (λ k a b. h k (omega arith))),
    )
