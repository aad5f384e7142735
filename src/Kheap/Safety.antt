-- ===== src/Kheap/Safety.antt =====
-- What a caller of `kmalloc` and `kfree` relies on: the refinement together with the laws of the
-- abstract heap.
use mathlib.Core.Path.{subst}
use khazaros.Base.{
  ℕ, ◌+◌, ◌*◌, ◌/◌, ◌^◌, ◌<◌, ◌≡◌, ◌⊎◌, inl, inr, Option, some, ◌∷◌, ◌++◌, Option-cases, length,
}
use khazaros.Kheap.{Memory, header_size, kmalloc, kfree}
use khazaros.Kheap.Blocks.{Blocks, extent, head_at, IsHeap}
use khazaros.Kheap.Malloc.{first_fit, Walks, kmalloc-first_fit}
use khazaros.Kheap.Fit.{Fits, first_fit-Fits}
use khazaros.Kheap.Free.{release, kfree-release}
use khazaros.Kheap.Coalesce.{IsCoalesced, steps-IsCoalesced, extent-release}

-- A request of `n` bytes on the blocks `bs` gives NULL and changes nothing, or gives the address
-- behind the header of a block that `Fits` describes.
abbrev pub MallocOutcome : (n start : ℕ) → Memory → Blocks → Option (ℕ × Memory) → Type 0
MallocOutcome n start m bs r =
    (r ≡ some (0, m))
    ⊎ ((o : ℕ) × (bs' : Blocks) × (m' : Memory) × (r ≡ some (start + o + header_size, m'))
        × IsHeap m' 0 start bs'
        × Fits n bs o bs'
        × IsCoalesced bs')

-- On a coalesced heap that ends below 2 ^ 32, with a round for each block and one more, `kmalloc`
-- of a size above 0 to which 35 can be added below 2 ^ 32 (7 to round it up, 20 of a header and 8
-- bytes behind it) ends: it returns `NULL` and leaves the memory alone, or it returns the address of a block that was free and is large enough, leaves every block in use where
-- it is with its size, loses no byte, and leaves a well-formed heap without two free neighbours.
pub kmalloc-Fits :
    (fuel start : ℕ) (m : Memory) (size : ℕ) (bs : Blocks)
    → IsHeap m 0 start bs
    → IsCoalesced bs
    → start + extent bs < 2 ^ 32
    → 0 < size
    → size + 35 < 2 ^ 32
    → length bs < fuel
    → MallocOutcome ((size + 7) / 8 * 8) start m bs (kmalloc fuel (head_at start bs) m size)
kmalloc-Fits fuel start m size bs h joined top pos small enough =
    elim (Option-cases (first_fit ((size + 7) / 8 * 8) bs)) [
      | inl nothing ↦ inl (walk nothing)
      | inr ((o, bs'), found) ↦
          let (m', runs, heap, same) = walk found in
          inr (
            o,
            bs',
            m',
            runs,
            heap,
            first_fit-Fits ((size + 7) / 8 * 8) bs found,
            steps-IsCoalesced.0 ((size + 7) / 8 * 8) bs o bs' joined found,
          )
    ]
  where
    walk :
        {r : Option (ℕ × Blocks)}
        → first_fit ((size + 7) / 8 * 8) bs ≡ r
        → Walks m 0 start (kmalloc fuel (head_at start bs) m size) r
    walk e =
        subst (Walks m 0 start (kmalloc fuel (head_at start bs) m size)) e
          (kmalloc-first_fit fuel start m size bs h top pos small enough)

-- On a coalesced heap that ends below 2 ^ 32, `kfree` of a block in use leaves a well-formed heap of
-- the same extent without two free neighbours.
pub kfree-IsCoalesced :
    (m : Memory) (start : ℕ) (xs : Blocks) (s : ℕ) (ys : Blocks)
    → IsHeap m 0 start (xs ++ (s, 0) ∷ ys)
    → IsCoalesced (xs ++ (s, 0) ∷ ys)
    → start + extent (xs ++ (s, 0) ∷ ys) < 2 ^ 32
    → (bs : Blocks) × IsHeap (kfree m (start + extent xs + header_size)) 0 start bs
      × IsCoalesced bs
      × (extent bs ≡ extent (xs ++ (s, 0) ∷ ys))
kfree-IsCoalesced m start xs s ys h joined top = (
  release xs s ys,
  kfree-release m start xs s ys h top,
  steps-IsCoalesced.1 xs s ys joined,
  extent-release xs s ys,
)
