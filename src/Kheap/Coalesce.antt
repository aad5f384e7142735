-- ===== src/Kheap/Coalesce.antt =====
-- The heap is kept coalesced: no two neighbours are both free.
use khazaros.Base.{
  ℕ, ◌+◌, ◌-◌, ◌^◌, ◌≤◌, ◌<◌, ◌≡◌, ◌≢◌, refl, ◌⊎◌, inl, inr, [], ◌∷◌, ◌++◌, arith, ◌==◌, leb,
  Bool-cases, Option-cases, some,
}
use khazaros.Kheap.{Memory, header_size, init}
use khazaros.Kheap.Blocks.{Blocks, extent, IsHeap}
use khazaros.Kheap.Malloc.{first_fit, carve, usable}
use khazaros.Kheap.Merge.{absorb}
use khazaros.Kheap.Free.{release, extent-absorb}

-- one of the two is in use
abbrev pub Apart : ℕ → ℕ → Type 0
Apart f g = (f ≡ 0) ⊎ (g ≡ 0)

-- the block before, of mark `f`, and the list behind it
abbrev pub CoalescedFrom : ℕ → Blocks → Type 0
CoalescedFrom f [] = Unit {0}
CoalescedFrom f ((s, g) ∷ bs) = Apart f g × CoalescedFrom g bs

abbrev pub IsCoalesced : Blocks → Type 0
IsCoalesced = CoalescedFrom 0

CoalescedFrom-zero : (f : ℕ) (bs : Blocks) → CoalescedFrom f bs → CoalescedFrom 0 bs
CoalescedFrom-zero f [] h = tt
CoalescedFrom-zero f ((s, g) ∷ bs) (apart, rest) = (inl refl, rest)

-- the mark of a free block may be any number but 0
CoalescedFrom-free : (f g : ℕ) (bs : Blocks) → g ≢ 0 → CoalescedFrom g bs → CoalescedFrom f bs
CoalescedFrom-free f g [] free h = tt
CoalescedFrom-free f g ((t, e) ∷ bs) free (apart, rest) = (inr (ground arith), rest)

carve-CoalescedFrom :
    (n s f g : ℕ) (bs : Blocks)
    → g ≢ 0
    → CoalescedFrom f ((s, g) ∷ bs)
    → CoalescedFrom f (carve n s bs)
unfolding carve
carve-CoalescedFrom n s f g bs free (apart, rest) =
    elim (Bool-cases (leb (n + header_size + 8) s)) [
      | inl room ↦ rw room (inr refl, (inl refl, CoalescedFrom-free 1 g bs free rest))
      | inr tight ↦ rw tight (inr refl, CoalescedFrom-zero g bs rest)
    ]

first_fit-CoalescedFrom :
    (n f : ℕ) (bs : Blocks) {o : ℕ} {bs' : Blocks}
    → CoalescedFrom f bs
    → first_fit n bs ≡ some (o, bs')
    → CoalescedFrom f bs'
unfolding first_fit
first_fit-CoalescedFrom n f [] h e = cc
first_fit-CoalescedFrom n f ((s, g) ∷ bs) {o} {bs'} (apart, rest) e =
    elim (Bool-cases (usable n (s, g))) [
      | inl hit ↦
          let new : carve n s bs ≡ bs' = ground (arith, e) in
          rw (← new) (carve-CoalescedFrom n s f g bs (ground arith) (apart, rest))
      | inr miss ↦ elim (Option-cases (first_fit n bs)) [
        | inl nothing ↦ cc (rw (miss, nothing) at e)
        | inr ((o', bs''), found) ↦
            let new : (s, g) ∷ bs'' ≡ bs' = cc (rw (miss, found) at e) in
            rw (← new) (apart, first_fit-CoalescedFrom n g bs rest found)
      ]
    ]

-- The joined block is free, and what lies behind it is not.
absorb-CoalescedFrom : (s : ℕ) (ys : Blocks) → CoalescedFrom 0 ys → CoalescedFrom 1 (absorb s ys).1
unfolding absorb
absorb-CoalescedFrom s [] h = tt
absorb-CoalescedFrom s ((t, g) ∷ ys) (apart, rest) = elim (Bool-cases (g == 0)) [
  | inl busy ↦ rw busy (inr (ground arith), rest)
  | inr free ↦ rw free (CoalescedFrom-free 1 g ys (ground arith) rest)
]

release-CoalescedFrom :
    (f : ℕ) (x : ℕ × ℕ) (xs : Blocks) (s : ℕ) (ys : Blocks)
    → CoalescedFrom f (x ∷ xs ++ (s, 0) ∷ ys)
    → CoalescedFrom f (release (x ∷ xs) s ys)
unfolding release
release-CoalescedFrom f (t, g) [] s ys (apart, (_, rest)) = elim (Bool-cases (g == 0)) [
  | inl busy ↦ rw busy (apart, (inl (ground arith), absorb-CoalescedFrom s ys rest))
  | inr free ↦
      rw free (
        apart,
        CoalescedFrom-free g 1 (absorb s ys).1 (omega arith) (absorb-CoalescedFrom s ys rest),
      )
]
release-CoalescedFrom f (t, g) (y ∷ xs) s ys (apart, rest) =
    (apart, release-CoalescedFrom g y xs s ys rest)

release-IsCoalesced :
    (xs : Blocks) (s : ℕ) (ys : Blocks)
    → IsCoalesced (xs ++ (s, 0) ∷ ys)
    → IsCoalesced (release xs s ys)
unfolding release
release-IsCoalesced [] s ys (apart, rest) = (inl refl, absorb-CoalescedFrom s ys rest)
release-IsCoalesced (x ∷ xs) s ys h = release-CoalescedFrom 0 x xs s ys h

-- Neither first fit nor freeing leaves two free blocks side by side.
pub steps-IsCoalesced :
    ((n : ℕ) (bs : Blocks) (o : ℕ) (bs' : Blocks)
      → IsCoalesced bs
      → first_fit n bs ≡ some (o, bs')
      → IsCoalesced bs')
    × ((xs : Blocks) (s : ℕ) (ys : Blocks)
        → IsCoalesced (xs ++ (s, 0) ∷ ys)
        → IsCoalesced (release xs s ys))
steps-IsCoalesced = (λ n bs o bs' h e. first_fit-CoalescedFrom n 0 bs h e, release-IsCoalesced)

-- Freeing neither gains nor loses a byte.
pub extent-release :
    (xs : Blocks) (s : ℕ) (ys : Blocks) → extent (release xs s ys) ≡ extent (xs ++ (s, 0) ∷ ys)
unfolding release
extent-release [] s ys = omega (arith, extent-absorb s ys)
extent-release ((t, g) ∷ []) s ys = ground (arith, extent-absorb s ys)
extent-release ((t, g) ∷ y ∷ xs) s ys = omega (arith, extent-release (y ∷ xs) s ys)

-- The heap of `kheap_init` is one free block.
pub init-IsHeap :
    (m : Memory) (start size : ℕ)
    → 0 < start
    → header_size ≤ size
    → size < 2 ^ 32
    → IsHeap (init m start size) 0 start ((size - header_size, 1) ∷ [])
      × IsCoalesced ((size - header_size, 1) ∷ [])
unfolding init
init-IsHeap m start size pos room word = ((pos, ground arith, tt), (inl refl, tt))
