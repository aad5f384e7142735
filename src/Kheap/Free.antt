-- ===== src/Kheap/Free.antt =====
-- `kfree` on the list of blocks: the block becomes free, and is joined with free neighbours.
use mathlib.Core.Path.{subst}
use khazaros.Base.{
  ℕ, ◌+◌, ◌^◌, ◌<◌, ◌≡◌, ◌≢◌, refl, sym, ap, ◌∙◌, false, [], ◌∷◌, ◌++◌, arith, ◌==◌, if◌then◌else◌,
  ne→==,
}
use khazaros.Kheap.{
  Header, Memory, header_size, mark, sub32, merge_next, merge_prev, free_header, kfree,
}
use khazaros.Kheap.Blocks.{Blocks, extent, head_at, header, IsHeap, IsHeap-mark, mark_self, mark_ne}
use khazaros.Kheap.Malloc.{SameBelow}
use khazaros.Kheap.Merge.{absorb, Tail, is_free_block-null, merge_next-absorb, merge_prev-Tail}

-- Freeing the block of `s` bytes between `xs` and `ys`.
unfoldable pub release : Blocks → ℕ → Blocks → Blocks
release [] s ys = let (s', ys') = absorb s ys in (s', 1) ∷ ys'
release ((t, g) ∷ []) s ys =
    let (s', ys') = absorb s ys in
    if g == 0 then (t, g) ∷ (s', 1) ∷ ys' else (t + header_size + s', g) ∷ ys'
release (x ∷ y ∷ xs) s ys = x ∷ release (y ∷ xs) s ys

-- the extent is not changed by `absorb`
pub extent-absorb : (s : ℕ) (ys : Blocks) → (absorb s ys).0 + extent (absorb s ys).1 ≡ s + extent ys
unfolding absorb
extent-absorb s [] = refl
extent-absorb s ((t, f) ∷ ys) = ground arith

-- The header of the freed block, after it has taken in a free successor.
freed-Tail :
    (m : Memory) (prev p s : ℕ) (ys : Blocks)
    → IsHeap m prev p ((s, 0) ∷ ys)
    → p + header_size + s + extent ys < 2 ^ 32
    → Tail (merge_next (mark m p 1) p) p (absorb s ys).0 1 prev (absorb s ys).1
      × SameBelow p m (merge_next (mark m p 1) p)
freed-Tail m prev p s ys (pos, at, rest) top =
    let (tail, below) =
      merge_next-absorb (mark m p 1) p s prev ys pos top
        (mark_self m 1 at, IsHeap-mark m p 1 p (p + header_size + s) ys (omega arith) rest) in
    (tail, λ a lt. below a lt ∙ mark_ne m p 1 a (omega arith))

-- `kfree` of the first block
free_first :
    (m : Memory) (p s : ℕ) (ys : Blocks)
    → IsHeap m 0 p ((s, 0) ∷ ys)
    → p + header_size + s + extent ys < 2 ^ 32
    → IsHeap (free_header m p) 0 p (release [] s ys)
unfolding free_header release merge_prev
free_first m p s ys (pos, at, rest) top =
    let ((here, list), below) = freed-Tail m 0 p s ys (pos, at, rest) top in
    let same : free_header m p ≡ merge_next (mark m p 1) p =
      rw (ap Header.prev here, is_free_block-null (merge_next (mark m p 1) p)) in
    subst (λ x. IsHeap x 0 p (((absorb s ys).0, 1) ∷ (absorb s ys).1)) (sym same) (pos, here, list)

-- `kfree` of the block at `p` behind one at `a`
free_second :
    (m : Memory) (prev a t g s : ℕ) (ys : Blocks)
    → IsHeap m prev a ((t, g) ∷ (s, 0) ∷ ys)
    → a + header_size + t + header_size + s + extent ys < 2 ^ 32
    → IsHeap (free_header m (a + header_size + t)) prev a (release ((t, g) ∷ []) s ys)
      × SameBelow a m (free_header m (a + header_size + t))
unfolding free_header release
free_second m prev a t g s ys (pos, at, rest) top =
    let p = a + header_size + t in
    let ((here, list), below) = freed-Tail m a p s ys rest top in
    let (heap, below') =
      merge_prev-Tail (merge_next (mark m p 1) p) a t g p (absorb s ys).0 prev (absorb s ys).1 pos
        refl (omega (arith, extent-absorb s ys)) (below a (omega arith) ∙ at) (here, list) in
    (heap, λ b lt. below' b lt ∙ below b (omega arith))

release-head :
    (x : ℕ × ℕ) (xs : Blocks) (s : ℕ) (ys : Blocks) (a : ℕ) → head_at a (release (x ∷ xs) s ys) ≡ a
unfolding release absorb
release-head x [] s ys a = ground arith
release-head x (y ∷ xs) s ys a = refl

-- the block at `a`, behind `x ∷ xs`, has a block before it
free_behind :
    (m : Memory) (prev p : ℕ) (x : ℕ × ℕ) (xs : Blocks) (s : ℕ) (ys : Blocks) (a : ℕ)
    → a ≡ p + extent (x ∷ xs)
    → IsHeap m prev p (x ∷ xs ++ (s, 0) ∷ ys)
    → p + extent (x ∷ xs ++ (s, 0) ∷ ys) < 2 ^ 32
    → IsHeap (free_header m a) prev p (release (x ∷ xs) s ys) × SameBelow p m (free_header m a)
unfolding release
free_behind m prev p (t, g) [] s ys a e h top =
    subst
      (λ b.
        IsHeap (free_header m b) prev p (release ((t, g) ∷ []) s ys)
        × SameBelow p m (free_header m b))
      (omega arith) (free_second m prev p t g s ys h (omega arith))
free_behind m prev p (t, g) (y ∷ xs) s ys a e (pos, at, rest) top =
    let (heap, below) =
      free_behind m p (p + header_size + t) y xs s ys a (omega arith) rest (omega arith) in
    (
      (
        pos,
        below p (omega arith) ∙ at ∙ ap (λ b. header t g b prev) (sym (release-head y xs s ys _)),
        heap,
      ),
      λ b lt. below b (omega arith),
    )

free_header-release :
    (m : Memory) (start : ℕ) (xs : Blocks) (s : ℕ) (ys : Blocks)
    → IsHeap m 0 start (xs ++ (s, 0) ∷ ys)
    → start + extent (xs ++ (s, 0) ∷ ys) < 2 ^ 32
    → IsHeap (free_header m (start + extent xs)) 0 start (release xs s ys)
free_header-release m start [] s ys h top =
    subst (λ a. IsHeap (free_header m a) 0 start (release [] s ys)) (omega arith)
      (free_first m start s ys h (omega arith))
free_header-release m start (x ∷ xs) s ys h top =
    (free_behind m 0 start x xs s ys (start + extent (x ∷ xs)) refl h top).0

-- the header of a block of the list
header_of :
    (m : Memory) (prev p : ℕ) (xs : Blocks) (s f : ℕ) (ys : Blocks)
    → IsHeap m prev p (xs ++ (s, f) ∷ ys)
    → (next : ℕ) × (prev' : ℕ) × (m (p + extent xs) ≡ header s f next prev')
header_of m prev p [] s f ys (pos, at, rest) =
    let here : p + extent [] ≡ p = omega arith in
    rw here (head_at (p + header_size + s) ys, prev, at)
header_of m prev p ((t, g) ∷ xs) s f ys (pos, at, rest) =
    let there : p + extent ((t, g) ∷ xs) ≡ p + header_size + t + extent xs = omega arith in
    rw there (header_of m p (p + header_size + t) xs s f ys rest)

extent-append : (xs ys : Blocks) → extent (xs ++ ys) ≡ extent xs + extent ys
extent-append [] ys = omega arith
extent-append ((s, f) ∷ xs) ys = omega (arith, extent-append xs ys)

-- On a well-formed heap that ends below 2 ^ 32, `kfree` of the address behind the header of a
-- block in use leaves a well-formed heap in which that block is free and joined with the free
-- blocks next to it, and every other block is as it was.
pub kfree-release :
    (m : Memory) (start : ℕ) (xs : Blocks) (s : ℕ) (ys : Blocks)
    → IsHeap m 0 start (xs ++ (s, 0) ∷ ys)
    → start + extent (xs ++ (s, 0) ∷ ys) < 2 ^ 32
    → IsHeap (kfree m (start + extent xs + header_size)) 0 start (release xs s ys)
unfolding kfree
kfree-release m start xs s ys h top =
    let (next, prev, at) = header_of m 0 start xs s 0 ys h in
    let back : sub32 (start + extent xs + header_size) header_size ≡ start + extent xs =
      omega (arith, extent-append xs ((s, 0) ∷ ys)) in
    let nonnull : (start + extent xs + header_size == 0) ≡ false = ground arith in
    let same : kfree m (start + extent xs + header_size) ≡ free_header m (start + extent xs) =
      rw (nonnull, back, at) in
    subst (λ x. IsHeap x 0 start (release xs s ys)) (sym same)
      (free_header-release m start xs s ys h top)

-- `kfree` of a block that is free already changes nothing.
pub kfree_twice :
    (m : Memory) (start : ℕ) (xs : Blocks) (s f : ℕ) (ys : Blocks)
    → IsHeap m 0 start (xs ++ (s, f) ∷ ys)
    → start + extent (xs ++ (s, f) ∷ ys) < 2 ^ 32
    → f ≢ 0
    → kfree m (start + extent xs + header_size) ≡ m
unfolding kfree
kfree_twice m start xs s f ys h top free =
    let (next, prev, at) = header_of m 0 start xs s f ys h in
    let back : sub32 (start + extent xs + header_size) header_size ≡ start + extent xs =
      omega (arith, extent-append xs ((s, f) ∷ ys)) in
    let nonnull : (start + extent xs + header_size == 0) ≡ false = ground arith in
    rw (nonnull, back, at, ne→== f 0 free)
