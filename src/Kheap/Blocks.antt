-- ===== src/Kheap/Blocks.antt =====
-- The abstract heap: the sizes of the blocks in address order, each with its `is_free`, and when
-- the memory holds such a list.
use khazaros.Base.{ℕ, ◌+◌, ◌≤◌, ◌<◌, ◌≡◌, refl, ◌≢◌, ◌∙◌, List, [], ◌∷◌, arith}
use khazaros.Kheap.{Header, Memory, kheap_magic, header_size, set_prev, mark}

abbrev pub Blocks : Type 0
Blocks = List (ℕ × ℕ)

-- bytes from the first header to the end
abbrev pub extent : Blocks → ℕ
extent [] = 0
extent ((s, f) ∷ bs) = header_size + s + extent bs

-- the address of the first block, `NULL` if there is none
abbrev pub head_at : ℕ → Blocks → ℕ
head_at p [] = 0
head_at p (b ∷ bs) = p

abbrev pub header : (size is_free next prev : ℕ) → Header
header size is_free next prev = record {
  magic = kheap_magic;
  size = size;
  is_free = is_free;
  next = next;
  prev = prev;
}

-- From `p` on the blocks lie one behind the other, linked both ways.
abbrev pub IsHeap : Memory → (prev p : ℕ) → Blocks → Type 0
IsHeap m prev p [] = Unit {0}
IsHeap m prev p ((s, f) ∷ bs) =
    (0 < p)
    × (m p ≡ header s f (head_at (p + header_size + s) bs) prev)
    × IsHeap m p (p + header_size + s) bs

-- The list reads no address below its first block.
pub IsHeap-frame :
    {m m' : Memory} (prev p : ℕ) (bs : Blocks)
    → ((q : ℕ) → p ≤ q → m' q ≡ m q)
    → IsHeap m prev p bs
    → IsHeap m' prev p bs
IsHeap-frame prev p [] same h = tt
IsHeap-frame prev p ((s, f) ∷ bs) same (pos, at, rest) = (
  pos,
  same p (omega arith) ∙ at,
  IsHeap-frame p (p + header_size + s) bs (λ q le. same q (omega arith)) rest,
)

-- Giving the first block another predecessor.
pub IsHeap-set_prev :
    (m : Memory) (prev new p : ℕ) (bs : Blocks)
    → IsHeap m prev p bs
    → IsHeap (set_prev m (head_at p bs) new) new p bs
unfolding set_prev
IsHeap-set_prev m prev new p [] h = tt
IsHeap-set_prev m prev new p ((s, f) ∷ bs) (pos, at, rest) =
    (pos, ground arith, IsHeap-frame p (p + header_size + s) bs (λ q le. ground arith) rest)

-- and what that leaves alone
pub set_prev-below :
    (m : Memory) (new p : ℕ) (bs : Blocks) (q : ℕ) → q < p → set_prev m (head_at p bs) new q ≡ m q
unfolding set_prev
set_prev-below m new p [] q h = refl
set_prev-below m new p (b ∷ bs) q h = ground arith

pub mark_self :
    (m : Memory) {p s f next prev : ℕ} (v : ℕ)
    → m p ≡ header s f next prev
    → mark m p v p ≡ header s v next prev
unfolding mark
mark_self m {p} v at = rw at (ground arith)

pub mark_ne : (m : Memory) (p v q : ℕ) → q ≢ p → mark m p v q ≡ m q
unfolding mark
mark_ne m p v q ne = ground arith

-- A list behind `p` does not see a mark at `p`.
pub IsHeap-mark :
    (m : Memory) (p v prev q : ℕ) (bs : Blocks)
    → p < q
    → IsHeap m prev q bs
    → IsHeap (mark m p v) prev q bs
IsHeap-mark m p v prev q bs lt h = IsHeap-frame prev q bs (λ a le. mark_ne m p v a (omega arith)) h
