-- ===== src/Pmm/Alloc.antt =====
-- `pmm_alloc_block` and `pmm_free_block` against the set of blocks in use.
use khazaros.Base.{
  ℕ, zero, suc, ◌+◌, ◌*◌, ◌/◌, ◌%◌, ◌^◌, ◌<◌, ◌≤◌, ◌≡◌, refl, ap, true, false, Option, none, some,
  arith, ◌==◌, if◌then◌else◌, Bool-cases, Option-cases, inl, inr, ◌⊎◌, ==→eq, ltb, ltb→lt, ltb→ge,
}
use khazaros.Base.Bits.{test_bit, bit_and-pow_test, test_bit-ones}
use khazaros.Base.Search.{find_from-some, find_from-none}
use khazaros.Pmm.{
  Pmm, block_size, all_ones, find_bit, find_word, bitmap_find_first_free, bitmap_set, bitmap_unset,
  inc, dec, alloc_block, free_block,
}
use khazaros.Pmm.View.{taken, taken-set, taken-unset}

-- The inner loop finds the lowest clear bit of the word.
find_bit-some :
    (w : ℕ) {b : ℕ}
    → find_bit w ≡ some b
    → (b < 32) × (test_bit b w ≡ false) × ((k : ℕ) → k < b → test_bit k w ≡ true)
unfolding find_bit
find_bit-some w {b} e =
    let found = find_from-some _ 32 0 e in
    (
      omega (arith, found.below),
      ground (arith, found.passes, bit_and-pow_test b w),
      λ k p. ground (arith, found.earlier k (omega arith) p, bit_and-pow_test k w),
    )

find_bit-none : (w k : ℕ) → find_bit w ≡ none → k < 32 → test_bit k w ≡ true
unfolding find_bit
find_bit-none w k e p =
    ground (arith, find_from-none _ 32 0 e k (omega arith) (omega arith), bit_and-pow_test k w)

-- all blocks from `from` up to `to` are in use
abbrev Full : (ℕ → ℕ) → (from to : ℕ) → Type 0
Full word from to = (b : ℕ) → from ≤ b → b < to → test_bit (b % 32) (word (b / 32)) ≡ true

record IsFirstFree (word : ℕ → ℕ) (left i b : ℕ) : Type 0 where
  below : b < (i + left) * 32
  free : test_bit (b % 32) (word (b / 32)) ≡ false
  earlier : Full word (i * 32) b

-- a word whose bits are all set is 32 blocks in use
Full-word :
    (word : ℕ → ℕ) (i : ℕ)
    → ((k : ℕ) → k < 32 → test_bit k (word i) ≡ true)
    → Full word (i * 32) ((i + 1) * 32)
Full-word word i h = λ b p q. let e : b / 32 ≡ i = omega arith in rw e (h (b % 32) (omega arith))

Full-join : (word : ℕ → ℕ) (a b c : ℕ) → Full word a b → Full word b c → Full word a c
Full-join word a b c h k = λ x p q. elim (Bool-cases (ltb x b)) [
  | inl lo ↦ h x p (ltb→lt x b lo)
  | inr hi ↦ k x (ltb→ge x b hi) q
]

abbrev WordFound : (ℕ → ℕ) → (left i : ℕ) → Option ℕ → Type 0
WordFound word left i none = Full word (i * 32) ((i + left) * 32)
WordFound word left i (some b) = IsFirstFree word left i b

skip :
    (word : ℕ → ℕ) (left i : ℕ)
    → ((k : ℕ) → k < 32 → test_bit k (word i) ≡ true)
    → (o : Option ℕ) → WordFound word left (i + 1) o
    → WordFound word (suc left) i o
skip word left i full none h =
    let e : (i + suc left) * 32 ≡ (i + 1 + left) * 32 = omega arith in
    rw e (Full-join word (i * 32) ((i + 1) * 32) ((i + 1 + left) * 32) (Full-word word i full) h)
skip word left i full (some b) h = record {
  below = omega (arith, h.below);
  free = h.free;
  earlier = Full-join word (i * 32) ((i + 1) * 32) b (Full-word word i full) h.earlier;
}

found_here :
    (word : ℕ → ℕ) (left i j : ℕ)
    → find_bit (word i) ≡ some j
    → IsFirstFree word (suc left) i (i * 32 + j)
found_here word left i j e =
    let (small, free, earlier) = find_bit-some (word i) e in
    let word_of : (i * 32 + j) / 32 ≡ i = omega arith in
    let bit_of : (i * 32 + j) % 32 ≡ j = omega arith in
    record {
      below = omega arith;
      free = rw (word_of, bit_of) free;
      earlier =
          λ b p q. let at : b / 32 ≡ i = omega arith in rw at (earlier (b % 32) (omega arith));
    }

find_word-WordFound : (word : ℕ → ℕ) (left i : ℕ) → WordFound word left i (find_word word left i)
unfolding find_word
find_word-WordFound word zero i = λ b p q. absurd (omega arith)
find_word-WordFound word (suc left) i =
    let rest = find_word-WordFound word left (i + 1) in
    elim (Bool-cases (word i == all_ones)) [
      | inl full ↦
          rw full (skip word left i (λ k p. rw (==→eq _ _ full) (test_bit-ones k 32 p)) _ rest)
      | inr some_free ↦ rw some_free (elim (Option-cases (find_bit (word i))) [
        | inl e ↦ rw e (skip word left i (λ k p. find_bit-none (word i) k e p) _ rest)
        | inr (j, e) ↦ rw e (found_here word left i j e)
      ])
    ]

-- The outcome of an allocation that succeeds: the block that it takes, and what it leaves alone.
pub record Allocates (s : Pmm) (b p : ℕ) (s' : Pmm) : Type 0 where
  pub in_bitmap : b < s.max_blocks / 32 * 32
  pub was_free : taken s b ≡ false
  pub lowest : (c : ℕ) → c < b → taken s c ≡ true
  pub pointer : p ≡ b * block_size % 2 ^ 32
  pub marks : (c : ℕ) → taken s' c ≡ (if c == b then true else taken s c)
  pub counts : s'.used_blocks ≡ inc s.used_blocks
  pub max_same : s'.max_blocks ≡ s.max_blocks

max-set : (b : ℕ) (s : Pmm) → (bitmap_set b s).max_blocks ≡ s.max_blocks
unfolding bitmap_set
max-set b s = refl

used-set : (b : ℕ) (s : Pmm) → (bitmap_set b s).used_blocks ≡ s.used_blocks
unfolding bitmap_set
used-set b s = refl

-- `pmm_alloc_block` either finds every block of the whole words of the bitmap in use, returns
-- `NULL` and changes nothing, or takes the lowest free block, returns its address, marks that
-- block alone and counts it.
pub alloc_block_lem :
    (s : Pmm)
    → (((c : ℕ) → c < s.max_blocks / 32 * 32 → taken s c ≡ true) × (alloc_block s ≡ (0, s)))
      ⊎ ((b : ℕ) × Allocates s b (alloc_block s).0 (alloc_block s).1)
unfolding alloc_block bitmap_find_first_free
alloc_block_lem s = elim (Option-cases (find_word s.word (s.max_blocks / 32) 0)) [
  | inl e ↦ rw e (inl (full e, refl))
  | inr (b, e) ↦ rw e (inr (b, allocates b e))
]
  where
    words : WordFound s.word (s.max_blocks / 32) 0 (find_word s.word (s.max_blocks / 32) 0)
    words = find_word-WordFound s.word (s.max_blocks / 32) 0

    full :
        find_word s.word (s.max_blocks / 32) 0 ≡ none
        → (c : ℕ) → c < s.max_blocks / 32 * 32
        → taken s c ≡ true
    full e =
        let h : Full s.word (0 * 32) ((0 + s.max_blocks / 32) * 32) = rw e at words in
        λ c p. h c (omega arith) (omega arith)

    allocates :
        (b : ℕ)
        → find_word s.word (s.max_blocks / 32) 0 ≡ some b
        → Allocates s b
            (b * block_size % 2 ^ 32)
            (record (bitmap_set b s) { used_blocks = inc (bitmap_set b s).used_blocks })
    allocates b e =
        let h : IsFirstFree s.word (s.max_blocks / 32) 0 b = rw e at words in
        record {
          in_bitmap = omega (arith, h.below);
          was_free = h.free;
          lowest = λ c p. h.earlier c (omega arith) p;
          pointer = refl;
          marks = λ c. taken-set b c s;
          counts = ap inc (used-set b s);
          max_same = max-set b s;
        }

-- `pmm_free_block` clears the mark of the block that the address lies in, and no other; it
-- takes one off the count, whether or not the block was in use.
pub free_block_lem :
    (p : ℕ) (s : Pmm)
    → ((c : ℕ) → taken (free_block p s) c ≡ (if c == p / block_size then false else taken s c))
      × ((free_block p s).used_blocks ≡ dec s.used_blocks)
      × ((free_block p s).max_blocks ≡ s.max_blocks)
unfolding free_block bitmap_unset
free_block_lem p s = (λ c. taken-unset (p / block_size) c s, refl, refl)
