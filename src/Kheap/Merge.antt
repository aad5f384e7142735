-- ===== src/Kheap/Merge.antt =====
-- The joins of `kfree`, with the block behind and with the block before.
use mathlib.Core.Path.{subst}
use khazaros.Base.{
  ℕ, ◌+◌, ◌^◌, ◌<◌, ◌≡◌, refl, sym, ap, ◌∙◌, true, false, not, [], ◌∷◌, arith, ◌==◌, if◌then◌else◌,
  Bool-cases, ==-refl, ne→==, inl, inr,
}
use khazaros.Kheap.{
  Header, Memory, header_size, store, set_prev, add32, merge_next, join_next, join_prev,
  is_free_block, merge_prev,
}
use khazaros.Kheap.Blocks.{
  Blocks, extent, head_at, header, IsHeap, IsHeap-frame, IsHeap-set_prev, set_prev-below,
}
use khazaros.Kheap.Malloc.{SameBelow}

-- A free block of `s` bytes takes in the block behind it, if that is free.
unfoldable pub absorb : ℕ → Blocks → ℕ × Blocks
absorb s [] = (s, [])
absorb s ((t, f) ∷ ys) = if f == 0 then (s, (t, f) ∷ ys) else (s + header_size + t, ys)

-- what the header of a block and the list behind it are
abbrev pub Tail : Memory → (p s f prev : ℕ) → Blocks → Type 0
Tail m p s f prev ys =
    (m p ≡ header s f (head_at (p + header_size + s) ys) prev) × IsHeap m p (p + header_size + s) ys

-- Writing the header at `p` anew, with what lies behind the next block, and linking that back.
relink :
    (m : Memory) (h : Header) (before p q s f prev : ℕ) (ys : Blocks)
    → p < q
    → q ≡ p + header_size + s
    → h ≡ header s f (head_at q ys) prev
    → IsHeap m before q ys
    → Tail (set_prev (store m p h) (head_at q ys) p) p s f prev ys
      × SameBelow p m (set_prev (store m p h) (head_at q ys) p)
relink m h before p q s f prev ys lt at e rest = rw (← at) (
  (
    set_prev-below (store m p h) p q ys p lt ∙ ground arith,
    IsHeap-set_prev (store m p h) before p q ys
        (IsHeap-frame before q ys (λ a le. ground arith) rest),
  ),
  λ a below. set_prev-below (store m p h) p q ys a (omega arith) ∙ ground arith,
)

pub is_free_block-null : (m : Memory) → is_free_block m 0 ≡ false
unfolding is_free_block
is_free_block-null m = refl

is_free_block-header :
    (m : Memory) (p s f next prev : ℕ)
    → 0 < p
    → m p ≡ header s f next prev
    → is_free_block m p ≡ not (f == 0)
unfolding is_free_block
is_free_block-header m p s f next prev pos at = rw at (ground arith)

join_next-lem :
    (m : Memory) (p s t f q prev : ℕ) (ys : Blocks)
    → 0 < p
    → p + header_size + s + header_size + t < 2 ^ 32
    → m p ≡ header s 1 (p + header_size + s) prev
    → m (p + header_size + s) ≡ header t f (head_at q ys) p
    → join_next m p
      ≡ set_prev (store m p (header (s + header_size + t) 1 (head_at q ys) prev)) (head_at q ys) p
unfolding join_next
join_next-lem m p s t f q prev ys pos top at at' =
    let sum : add32 s (add32 header_size t) ≡ s + header_size + t = omega arith in
    let here : (p == p) ≡ true = ==-refl p in rw (at, at', sum, here) refl

pub merge_next-absorb :
    (m : Memory) (p s prev : ℕ) (ys : Blocks)
    → 0 < p
    → p + header_size + s + extent ys < 2 ^ 32
    → Tail m p s 1 prev ys
    → Tail (merge_next m p) p (absorb s ys).0 1 prev (absorb s ys).1
      × SameBelow p m (merge_next m p)
unfolding merge_next absorb
merge_next-absorb m p s prev [] pos top (at, rest) =
    rw (ap Header.next at, is_free_block-null m) ((at, tt), λ a lt. refl)
merge_next-absorb m p s prev ((t, f) ∷ ys) pos top (at, (pos', at', rest')) =
    let free_at : is_free_block m (m p).next ≡ not (f == 0) =
      ap (is_free_block m) (ap Header.next at)
      ∙ is_free_block-header m (p + header_size + s) t f _ p pos' at' in
    elim (Bool-cases (f == 0)) [
      | inl busy ↦ rw (free_at, busy) ((at, (pos', at', rest')), λ a lt. refl)
      | inr free ↦
          rw
            (
              free_at,
              free,
              join_next-lem m p s t f (p + header_size + s + header_size + t) prev ys pos
                  (omega arith) at at',
            )
            (relink m _ (p + header_size + s) p (p + header_size + s + header_size + t)
              (s + header_size + t) 1 prev ys (omega arith) (omega arith) refl rest')
    ]

join_prev-lem :
    (m : Memory) (a t g p s n prev : ℕ)
    → a < p
    → t + header_size + s < 2 ^ 32
    → m a ≡ header t g p prev
    → m p ≡ header s 1 n a
    → join_prev m p ≡ set_prev (store m a (header (t + header_size + s) g n prev)) n a
unfolding join_prev
join_prev-lem m a t g p s n prev lt top at at' =
    let sum : add32 t (add32 header_size s) ≡ t + header_size + s = omega arith in
    let other : (p == a) ≡ false = ne→== p a (omega arith) in rw (at', at, sum, other) refl

-- The block before `p` is in use, or is joined with the free block at `p`.
pub merge_prev-Tail :
    (m : Memory) (a t g p s prev : ℕ) (ys : Blocks)
    → 0 < a
    → p ≡ a + header_size + t
    → p + header_size + s + extent ys < 2 ^ 32
    → m a ≡ header t g p prev
    → Tail m p s 1 a ys
    → IsHeap
        (merge_prev m p)
        prev
        a
        (if g == 0 then (t, g) ∷ (s, 1) ∷ ys else (t + header_size + s, g) ∷ ys)
      × SameBelow a m (merge_prev m p)
unfolding merge_prev
merge_prev-Tail m a t g p s prev ys pos next top at (at', rest) =
    let free_at : is_free_block m (m p).prev ≡ not (g == 0) =
      ap (is_free_block m) (ap Header.prev at') ∙ is_free_block-header m a t g p prev pos at in
    elim (Bool-cases (g == 0)) [
      | inl busy ↦
          let same : merge_prev m p ≡ m = rw (free_at, busy) in
          rw busy (
            subst (λ x. IsHeap x prev a ((t, g) ∷ (s, 1) ∷ ys) × SameBelow a m x) (sym same)
              (rw (← next) ((pos, at, (omega arith, at', rest)), λ b lt. refl)))
      | inr free ↦
          let same : merge_prev m p ≡ join_prev m p = rw (free_at, free) in
          let ((new, list), below) =
            relink m (header (t + header_size + s) g (head_at (p + header_size + s) ys) prev) p a
              (p + header_size + s) (t + header_size + s) g prev ys (omega arith) (omega arith) refl
              rest in
          rw free (
            subst (λ x. IsHeap x prev a ((t + header_size + s, g) ∷ ys) × SameBelow a m x)
              (sym (
                same
                ∙ join_prev-lem m a t g p s (head_at (p + header_size + s) ys) prev (omega arith)
                    (omega arith) at at'))
              ((pos, new, list), below))
    ]
