-- ===== src/Kheap/Tests.antt =====
-- Examples of the kernel heap, at address 4096.
use khazaros.Base.{◌+◌, ◌*◌, ◌/◌, ◌≡◌, refl, inl, [], ◌∷◌, ◌++◌, arith, ◌==◌, if◌then◌else◌}
use khazaros.Kheap.{Memory, kmalloc, kfree}
use khazaros.Kheap.Blocks.{Blocks, extent, header, IsHeap}
use khazaros.Kheap.Malloc.{first_fit, Walks, kmalloc-first_fit}
use khazaros.Kheap.Safety.{MallocOutcome, kmalloc-Fits, kfree-IsCoalesced}
use khazaros.Kheap.Free.{release, kfree-release}
use khazaros.Kheap.Coalesce.{IsCoalesced}

-- a block of 104 bytes in use, and a free one behind it
abbrev blocks : Blocks
blocks = (104, 0) ∷ (3952, 1) ∷ []

abbrev memory : Memory
memory q =
    if q == 4096
    then header 104 0 4220 0
    else if q == 4220
    then header 3952 1 0 4096
    else header 0 0 0 0

memory-IsHeap : IsHeap memory 0 4096 blocks
memory-IsHeap = (omega arith, refl, (omega arith, refl, tt))

kmalloc-first_fit_example :
    Walks memory 0 4096 (kmalloc 3 4096 memory 100) (first_fit ((100 + 7) / 8 * 8) blocks)
kmalloc-first_fit_example =
    kmalloc-first_fit 3 4096 memory 100 blocks memory-IsHeap (omega arith) (omega arith)
      (omega arith) (omega arith)

kfree-release_example : IsHeap (kfree memory 4116) 0 4096 (release [] 104 ((3952, 1) ∷ []))
kfree-release_example =
    kfree-release memory 4096 [] 104 ((3952, 1) ∷ []) memory-IsHeap (omega arith)

memory-IsCoalesced : IsCoalesced blocks
memory-IsCoalesced = (inl refl, (inl refl, tt))

kmalloc-Fits_example :
    MallocOutcome ((100 + 7) / 8 * 8) 4096 memory blocks (kmalloc 3 4096 memory 100)
kmalloc-Fits_example =
    kmalloc-Fits 3 4096 memory 100 blocks memory-IsHeap memory-IsCoalesced (omega arith)
      (omega arith) (omega arith) (omega arith)

kfree-IsCoalesced_example :
    (bs : Blocks) × IsHeap (kfree memory 4116) 0 4096 bs
    × IsCoalesced bs
    × (extent bs ≡ extent ([] ++ (104, 0) ∷ (3952, 1) ∷ []))
kfree-IsCoalesced_example =
    kfree-IsCoalesced memory 4096 [] 104 ((3952, 1) ∷ []) memory-IsHeap memory-IsCoalesced
      (omega arith)
