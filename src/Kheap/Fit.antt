-- ===== src/Kheap/Fit.antt =====
-- First fit on the abstract heap: what an allocation takes, and what it leaves alone.
use khazaros.Base.{
  ℕ, ◌+◌, ◌-◌, ◌≤◌, ◌≡◌, refl, ap, ◌≢◌, none, some, [], ◌∷◌, arith, ◌==◌, leb, ltb, if◌then◌else◌,
  Bool-cases, inl, inr, Option-cases, leb→le,
}
use khazaros.Base.{Option}
use khazaros.Kheap.{header_size}
use khazaros.Kheap.Blocks.{Blocks, extent}
use khazaros.Kheap.Malloc.{first_fit, carve, usable}

-- the block whose header lies `o` bytes behind the start of the list
pub block_at : Blocks → ℕ → Option (ℕ × ℕ)
block_at [] o = none
block_at ((s, f) ∷ bs) o =
    let rest = block_at bs (o - (header_size + s)) in
    if o == 0 then some (s, f) else if ltb o (header_size + s) then none else rest

-- What an allocation of `n` bytes at distance `o` makes of the list `bs`.
pub record Fits (n : ℕ) (bs : Blocks) (o : ℕ) (bs' : Blocks) : Type 0 where
  -- the block was free, and is now in use and large enough
  pub was_free : (s : ℕ) × (f : ℕ) × (block_at bs o ≡ some (s, f)) × (f ≢ 0)
  pub in_use : (s : ℕ) × (block_at bs' o ≡ some (s, 0)) × (n ≤ s)
  -- no byte is gained or lost
  pub same_extent : extent bs' ≡ extent bs
  -- every block in use stays where it is, with its size
  pub keeps : (q s : ℕ) → block_at bs q ≡ some (s, 0) → block_at bs' q ≡ some (s, 0)

carve-Fits : (n s f : ℕ) (bs : Blocks) → f ≢ 0 → n ≤ s → Fits n ((s, f) ∷ bs) 0 (carve n s bs)
unfolding carve block_at
carve-Fits n s f bs nz le = elim (Bool-cases (leb (n + header_size + 8) s)) [
  | inl room ↦ rw room (record {
    was_free = (s, f, refl, nz);
    in_use = (n, refl, omega arith);
    same_extent = omega (arith, leb→le _ _ room);
    keeps = λ q t e. ground (arith, leb→le _ _ room, ap (block_at bs) (behind q (leb→le _ _ room)));
  })
  | inr tight ↦ rw tight (record {
    was_free = (s, f, refl, nz);
    in_use = (s, refl, le);
    same_extent = refl;
    keeps = λ q t e. ground arith;
  })
]
  where
    behind :
        (q : ℕ)
        → n + header_size + 8 ≤ s
        → q - (header_size + n) - (header_size + (s - n - header_size)) ≡ q - (header_size + s)
    behind q room = omega arith

-- a block in front of the list that is not chosen
skip-Fits :
    (n s f : ℕ) {bs bs' : Blocks} {o : ℕ}
    → Fits n bs o bs'
    → Fits n ((s, f) ∷ bs) (header_size + s + o) ((s, f) ∷ bs')
unfolding block_at
skip-Fits n s f {bs} {bs'} {o} h =
    let (t, g, at, nz) = h.was_free in
    let (t', at', le) = h.in_use in
    let back : header_size + s + o - (header_size + s) ≡ o = omega arith in
    record {
      was_free = (t, g, ground (arith, at, ap (block_at bs) back), nz);
      in_use = (t', ground (arith, at', ap (block_at bs') back), le);
      same_extent = omega (arith, h.same_extent);
      keeps = λ q u e. ground (arith, h.keeps (q - (header_size + s)) u);
    }

some_pair :
    {a c : ℕ} {b d : Blocks}
    → ◌≡◌ {A = Option (ℕ × Blocks)} (some (a, b)) (some (c, d))
    → (a ≡ c) × (b ≡ d)
some_pair h = (cc, cc)

-- First fit takes a free block that is large enough, changes no block in use, and keeps the extent
-- of the heap.
pub first_fit-Fits :
    (n : ℕ) (bs : Blocks) {o : ℕ} {bs' : Blocks} → first_fit n bs ≡ some (o, bs') → Fits n bs o bs'
unfolding first_fit
first_fit-Fits n [] e = cc
first_fit-Fits n ((s, f) ∷ bs) {o} {bs'} e = elim (Bool-cases (usable n (s, f))) [
  | inl hit ↦
      let (at, new) = some_pair (rw hit at e) in
      rw (← at, ← new) (carve-Fits n s f bs (ground arith) (ground arith))
  | inr miss ↦ elim (Option-cases (first_fit n bs)) [
    | inl nothing ↦ cc (rw (miss, nothing) at e)
    | inr ((o', bs''), found) ↦
        let (at, new) = some_pair (rw (miss, found) at e) in
        rw (← at, ← new) (skip-Fits n s f (first_fit-Fits n bs found))
  ]
]
