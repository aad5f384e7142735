-- ===== src/Kheap/Malloc.antt =====
-- `kmalloc` is first fit on the list of blocks.
use mathlib.Core.Option
use khazaros.Base.{
  ℕ, zero, suc, ◌+◌, ◌-◌, ◌*◌, ◌/◌, ◌^◌, ◌≤◌, ◌<◌, ◌≡◌, refl, sym, ap, ◌∙◌, Bool, false, not, ◌&&◌,
  Option, none, some, [], ◌∷◌, arith, ◌==◌, leb, if◌then◌else◌, length, Bool-cases, inl, inr,
  leb→le,
}
use khazaros.Base.Bits.{bit_and-shift, bit_and-low}
use khazaros.Kheap.{
  Header, Memory, header_size, store, link_block, split, sub32, claim, malloc_loop, kmalloc,
  round_up, add32,
}
use khazaros.Kheap.Blocks.{
  Blocks, extent, head_at, header, IsHeap, IsHeap-frame, IsHeap-set_prev, IsHeap-mark, mark_self,
  mark_ne, set_prev-below,
}

-- a block in use, and what is left of it as a free block if that is worth a header
unfoldable pub carve : (n s : ℕ) → Blocks → Blocks
carve n s bs =
    if leb (n + header_size + 8) s then (n, 0) ∷ (s - n - header_size, 1) ∷ bs else (s, 0) ∷ bs

abbrev pub usable : ℕ → ℕ × ℕ → Bool
usable n (s, f) = not (f == 0) && leb n s

-- First fit: the distance of the chosen block from the start of the list, and the new list.
unfoldable pub first_fit : ℕ → Blocks → Option (ℕ × Blocks)
first_fit n [] = none
first_fit n ((s, f) ∷ bs) =
    let rest = first_fit n bs in
    if usable n (s, f)
    then some (0, carve n s bs)
    else Option.map (λ (o, bs'). (header_size + s + o, (s, f) ∷ bs')) rest

-- what a change of the memory at and above `p` leaves alone
abbrev pub SameBelow : ℕ → Memory → Memory → Type 0
SameBelow p m m' = (q : ℕ) → q < p → m' q ≡ m q

-- The three writes of a split: a new header between `p` and `q`, the link back from `q`, and the
-- header at `p`.
link_block-lem :
    (m : Memory) (h : Header) (prev p new q s f n : ℕ) (bs : Blocks)
    → p < new
    → new < q
    → m p ≡ header s f (head_at q bs) prev
    → IsHeap m p q bs
    → (link_block m p n new h p ≡ header n f new prev)
      × (link_block m p n new h new ≡ h)
      × IsHeap (link_block m p n new h) new q bs
      × SameBelow p m (link_block m p n new h)
unfolding link_block
link_block-lem m h prev p new q s f n bs lo hi at rest =
    let below = set_prev-below (store m new h) new q bs in
    let next_at : (store m new h p).next ≡ head_at q bs = ground arith in
    rw next_at (
      ground (arith, below p (omega arith)),
      ground (arith, below new hi),
      IsHeap-frame new q bs (λ a le. ground arith)
          (IsHeap-set_prev (store m new h) p new q bs
            (IsHeap-frame p q bs (λ a le. ground arith) rest)),
      λ a lt. ground (arith, below a (omega arith)),
    )

-- `kmalloc`'s split of the block at `p`, where the block has room for `n` bytes and a header
split-lem :
    (m : Memory) (n prev p s f : ℕ) (bs : Blocks)
    → m p ≡ header s f (head_at (p + header_size + s) bs) prev
    → IsHeap m p (p + header_size + s) bs
    → p + header_size + s < 2 ^ 32
    → n + header_size + 8 ≤ s
    → (split m p n p ≡ header n f (p + header_size + n) prev)
      × (split m p n (p + header_size + n)
          ≡ header (s - n - header_size) 1 (head_at (p + header_size + s) bs) p)
      × IsHeap (split m p n) (p + header_size + n) (p + header_size + s) bs
      × SameBelow p m (split m p n)
unfolding split
split-lem m n prev p s f bs at rest top fits =
    let new_at : add32 (add32 p header_size) n ≡ p + header_size + n = omega arith in
    let left : sub32 (sub32 s n) header_size ≡ s - n - header_size = omega arith in
    rw (new_at, at, left)
      (link_block-lem m (header (s - n - header_size) 1 (head_at (p + header_size + s) bs) p) prev p
        (p + header_size + n) (p + header_size + s) s f n bs (omega arith) (omega arith) at rest)

-- `kmalloc` on the block at `p`
claim-carve :
    (m : Memory) (n prev p s f : ℕ) (bs : Blocks)
    → IsHeap m prev p ((s, f) ∷ bs)
    → p + header_size + s < 2 ^ 32
    → n ≤ s
    → n + header_size + 8 < 2 ^ 32
    → IsHeap (claim m p n) prev p (carve n s bs) × SameBelow p m (claim m p n)
unfolding claim carve
claim-carve m n prev p s f bs (pos, at, rest) top fits small =
    let wide : add32 (add32 n header_size) 8 ≡ n + header_size + 8 = omega arith in
    elim (Bool-cases (leb (n + header_size + 8) s)) [
      | inl room ↦
          let (here, new, behind, below) =
            split-lem m n prev p s f bs at rest top (leb→le _ _ room) in
          let end : p + header_size + n + header_size + (s - n - header_size)
              ≡ p + header_size + s =
            omega (arith, leb→le _ _ room) in
          let new' = mark_ne (split m p n) p 0 (p + header_size + n) (omega arith) ∙ new in
          let behind' =
            IsHeap-mark (split m p n) p 0 _ (p + header_size + s) bs (omega arith) behind in
          rw (wide, at, room, end)
            (
              (pos, mark_self (split m p n) 0 here, (omega arith, new', behind')),
              λ a lt. mark_ne (split m p n) p 0 a (omega arith) ∙ below a lt,
            )
      | inr tight ↦
          rw (wide, at, tight)
            (
              (
                pos,
                mark_self m 0 at,
                IsHeap-mark m p 0 p (p + header_size + s) bs (omega arith) rest,
              ),
              λ a lt. mark_ne m p 0 a (omega arith),
            )
    ]

-- What `kmalloc`'s walk returns from the block at `p` on, for what first fit finds there.
abbrev pub Walks : Memory → (prev p : ℕ) → Option (ℕ × Memory) → Option (ℕ × Blocks) → Type 0
Walks m prev p r none = r ≡ some (0, m)
Walks m prev p r (some (o, bs')) =
    (m' : Memory) × (r ≡ some (p + o + header_size, m')) × IsHeap m' prev p bs' × SameBelow p m m'

step :
    (m : Memory) (prev p s f : ℕ) (bs : Blocks) (r : Option (ℕ × Memory))
    → IsHeap m prev p ((s, f) ∷ bs)
    → (o : Option (ℕ × Blocks))
    → ((o' : ℕ) (bs' : Blocks)
        → o ≡ some (o', bs')
        → head_at (p + header_size + s) bs' ≡ head_at (p + header_size + s) bs)
    → Walks m p (p + header_size + s) r o
    → Walks m prev p r (Option.map (λ (o, bs'). (header_size + s + o, (s, f) ∷ bs')) o)
step m prev p s f bs r h none same e = e
step m prev p s f bs r (pos, at, rest) (some (o, bs')) same (m', e, heap, below) = (
  m',
  e ∙ ap (λ a. some (a, m')) (omega arith),
  (pos, below p (omega arith) ∙ at ∙ ap (λ a. header s f a prev) (sym (same o bs' refl)), heap),
  λ a lt. below a (omega arith),
)

-- First fit does not empty the list.
first_fit-head :
    (n : ℕ) (bs : Blocks) {o : ℕ} {bs' : Blocks} (a : ℕ)
    → first_fit n bs ≡ some (o, bs')
    → head_at a bs' ≡ head_at a bs
unfolding first_fit carve
first_fit-head n [] a e = cc
first_fit-head n ((s, f) ∷ bs) a e = ground arith

malloc_loop-first_fit :
    (fuel : ℕ) (m : Memory) (n prev p : ℕ) (bs : Blocks)
    → IsHeap m prev p bs
    → p + extent bs < 2 ^ 32
    → n + header_size + 8 < 2 ^ 32
    → length bs < fuel
    → Walks m prev p (malloc_loop fuel m n (head_at p bs)) (first_fit n bs)
unfolding malloc_loop first_fit
malloc_loop-first_fit zero m n prev p bs h top small fuel = absurd (omega arith)
malloc_loop-first_fit (suc k) m n prev p [] h top small fuel = refl
malloc_loop-first_fit (suc k) m n prev p ((s, f) ∷ bs) (pos, at, rest) top small fuel =
    let nonnull : (p == 0) ≡ false = ground arith in
    elim (Bool-cases (usable n (s, f))) [
      | inl hit ↦
          let (heap, below) =
            claim-carve m n prev p s f bs (pos, at, rest) (omega arith) (ground arith) small in
          rw (nonnull, at, hit)
            (claim m p n, ap (λ a. some (a, claim m p n)) (omega arith), heap, below)
      | inr miss ↦
          rw (nonnull, at, miss)
            (step m prev p s f bs _ (pos, at, rest) (first_fit n bs)
              (λ o bs' e. first_fit-head n bs _ e)
              (malloc_loop-first_fit k m n p (p + header_size + s) bs rest (omega arith) small
                (omega arith)))
    ]

-- the alignment of the requested size: a multiple of 8, modulo 2 ^ 32
pub round_up_lem : (n : ℕ) → round_up n ≡ add32 n 7 / 8 * 8
unfolding round_up
round_up_lem n =
    bit_and-shift 3 (add32 n 7) 0x1fff_ffff
    ∙ ap (λ a. a * 8) (bit_and-low 29 (add32 n 7 / 8) ∙ omega arith)

-- `kmalloc` refines first fit: on a heap that holds the blocks `bs` and ends below 2 ^ 32, for a
-- size above 0 to which 35 can be added below 2 ^ 32 (7 to round it up, 20 of a header and 8 bytes
-- behind it), and with a round for each block and one more, it returns `NULL` and leaves the memory
-- alone where first fit finds no block, and otherwise returns the address behind the header of the
-- block that first fit takes, and leaves a well-formed heap with the blocks that first fit leaves.
pub kmalloc-first_fit :
    (fuel start : ℕ) (m : Memory) (size : ℕ) (bs : Blocks)
    → IsHeap m 0 start bs
    → start + extent bs < 2 ^ 32
    → 0 < size
    → size + 35 < 2 ^ 32
    → length bs < fuel
    → Walks m 0 start (kmalloc fuel (head_at start bs) m size) (first_fit ((size + 7) / 8 * 8) bs)
unfolding kmalloc
kmalloc-first_fit fuel start m size bs h top pos small enough =
    let nonzero : (size == 0) ≡ false = ground arith in
    let rounded : round_up size ≡ (size + 7) / 8 * 8 = round_up_lem size ∙ omega arith in
    rw (nonzero, rounded)
      (malloc_loop-first_fit fuel m ((size + 7) / 8 * 8) 0 start bs h top (omega arith) enough)

-- On a heap that ends below 2 ^ 32, with enough rounds, a request for one of the seven largest
-- sizes wraps round to 0 bytes, and is served like a request for an empty block.
pub kmalloc_wraps :
    (fuel start : ℕ) (m : Memory) (size : ℕ) (bs : Blocks)
    → IsHeap m 0 start bs
    → start + extent bs < 2 ^ 32
    → 2 ^ 32 ≤ size + 7
    → size < 2 ^ 32
    → length bs < fuel
    → Walks m 0 start (kmalloc fuel (head_at start bs) m size) (first_fit 0 bs)
unfolding kmalloc
kmalloc_wraps fuel start m size bs h top large word enough =
    let nonzero : (size == 0) ≡ false = ground arith in
    let rounded : round_up size ≡ 0 = round_up_lem size ∙ omega arith in
    rw (nonzero, rounded) (malloc_loop-first_fit fuel m 0 0 start bs h top (omega arith) enough)
