-- ===== src/Pmm/Count.antt =====
-- `pmm_used_blocks` against the number of blocks that the bitmap marks.
use khazaros.Base.{
  ℕ, zero, suc, ◌+◌, ◌/◌, ◌^◌, ◌<◌, ◌≤◌, ◌≡◌, refl, sym, ap, Bool, true, false, arith, ◌==◌,
  if◌then◌else◌, ◌∙◌, Bool-cases, inl, inr, ==→eq,
}
use khazaros.Pmm.{
  Pmm, block_size, bitmap_set, bitmap_unset, init_loop, init_region, inc, dec, alloc_block,
  free_block, get_free_block_count,
}
use khazaros.Pmm.View.{taken, taken-set, taken-unset}
use khazaros.Pmm.Region.{inside, init_loop-taken}
use khazaros.Pmm.Alloc.{Allocates, alloc_block_lem, free_block_lem}

-- how many of the first `n` indices pass
pub count : (ℕ → Bool) → ℕ → ℕ
count f zero = 0
count f (suc n) = (if f n then 1 else 0) + count f n

pub count-le : (f : ℕ → Bool) (n : ℕ) → count f n ≤ n
unfolding count
count-le f zero = omega arith
count-le f (suc n) = ground (arith, count-le f n)

pub count_all : (f : ℕ → Bool) (n : ℕ) → ((c : ℕ) → c < n → f c ≡ true) → count f n ≡ n
unfolding count
count_all f zero h = refl
count_all f (suc n) h = ground (arith, h n (omega arith), count_all f n (λ c p. h c (omega arith)))

count-same : (f g : ℕ → Bool) (n : ℕ) → ((c : ℕ) → c < n → g c ≡ f c) → count g n ≡ count f n
unfolding count
count-same f g zero h = refl
count-same f g (suc n) h =
    ground (arith, h n (omega arith), count-same f g n (λ c p. h c (omega arith)))

module _ (f g : ℕ → Bool) (b : ℕ) where
  -- one more index passes
  pub count-add :
      (n : ℕ)
      → b < n
      → f b ≡ false
      → ((c : ℕ) → g c ≡ (if c == b then true else f c))
      → count g n ≡ count f n + 1
  unfolding count
  count-add zero p free h = absurd (omega arith)
  count-add (suc n) p free h = elim (Bool-cases (n == b)) [
    | inl e ↦ ground (arith, h n, ap f (==→eq n b e), count-same f g n (λ c q. ground (arith, h c)))
    | inr ne ↦ ground (arith, h n, count-add n (ground arith) free h)
  ]

  -- one index less
  pub count-remove :
      (n : ℕ)
      → b < n
      → f b ≡ true
      → ((c : ℕ) → g c ≡ (if c == b then false else f c))
      → count g n + 1 ≡ count f n
  unfolding count
  count-remove zero p busy h = absurd (omega arith)
  count-remove (suc n) p busy h = elim (Bool-cases (n == b)) [
    | inl e ↦ ground (arith, h n, ap f (==→eq n b e), count-same f g n (λ c q. ground (arith, h c)))
    | inr ne ↦ ground (arith, h n, count-remove n (ground arith) busy h)
  ]

-- The count is the number of marked blocks, and the memory is less than 2 ^ 32 blocks.
pub record IsCounted (s : Pmm) : Type 0 where
  pub used : s.used_blocks ≡ count (taken s) s.max_blocks
  pub small : s.max_blocks < 2 ^ 32

module _ (s : Pmm) (v : IsCounted s) where
  Allocates-IsCounted : {b p : ℕ} {s' : Pmm} → Allocates s b p s' → IsCounted s'
  Allocates-IsCounted {b} {s'} a =
      let grown =
        count-add (taken s) (taken s') b s.max_blocks (omega (arith, a.in_bitmap)) a.was_free
          a.marks in
      let bound = count-le (taken s') s.max_blocks in
      record {
        used = rw a.max_same (omega (arith, a.counts, v.used, v.small, grown, bound));
        small = omega (arith, a.max_same, v.small);
      }

  -- From a state whose count is exact, `pmm_alloc_block` keeps it exact.
  pub alloc_block-IsCounted : IsCounted (alloc_block s).1
  alloc_block-IsCounted = elim (alloc_block_lem s) [
    | inl (full, e) ↦ rw e v
    | inr (b, a) ↦ Allocates-IsCounted a
  ]

  -- From a state whose count is exact, `pmm_free_block` keeps it exact, if the block is one of
  -- the memory's and was in use.
  pub free_block-IsCounted :
      (p : ℕ)
      → p / block_size < s.max_blocks
      → taken s (p / block_size) ≡ true
      → IsCounted (free_block p s)
  free_block-IsCounted p inside busy =
      let (marks, used, max) = free_block_lem p s in
      let shrunk =
        count-remove (taken s) (taken (free_block p s)) (p / block_size) s.max_blocks inside busy
          marks in
      record {
        used =
            rw max (omega (arith, used, v.used, v.small, shrunk, count-le (taken s) s.max_blocks));
        small = omega (arith, max, v.small);
      }

  -- The free count of a counted state does not wrap.
  pub get_free_block_count_lem :
      get_free_block_count s + count (taken s) s.max_blocks ≡ s.max_blocks
  unfolding get_free_block_count
  get_free_block_count_lem = omega (arith, v.used, v.small, count-le (taken s) s.max_blocks)

module _ (s : Pmm) (b : ℕ) where
  -- one round of the loop of `pmm_init_region`
  abbrev clear_block : Pmm
  clear_block = record (bitmap_unset b s) { used_blocks = dec (bitmap_unset b s).used_blocks }

  clear_block-IsCounted :
      IsCounted s
      → b < s.max_blocks
      → taken s b ≡ true
      → IsCounted clear_block × (clear_block.max_blocks ≡ s.max_blocks)
  unfolding bitmap_unset
  clear_block-IsCounted v inside busy =
      let shrunk =
        count-remove (taken s) (taken clear_block) b s.max_blocks inside busy
          (λ c. taken-unset b c s) in
      (
        record {
          used = omega (arith, v.used, v.small, shrunk, count-le (taken s) s.max_blocks);
          small = v.small;
        },
        refl,
      )

-- the blocks from `align` on, `n` of them, are in use
abbrev pub InUse : Pmm → (align n : ℕ) → Type 0
InUse s align n = (c : ℕ) → align ≤ c → c < align + n → taken s c ≡ true

init_loop-IsCounted :
    (n align : ℕ) (s : Pmm)
    → IsCounted s
    → align + n ≤ s.max_blocks
    → InUse s align n
    → IsCounted (init_loop n align s) × ((init_loop n align s).max_blocks ≡ s.max_blocks)
unfolding init_loop
init_loop-IsCounted zero align s v fits busy = (v, refl)
init_loop-IsCounted (suc n) align s v fits busy =
    let (v', same) =
      clear_block-IsCounted s align v (omega arith) (busy align (omega arith) (omega arith)) in
    let (v'', same') =
      init_loop-IsCounted n (inc align) (clear_block s align) v' (omega (arith, same, v.small))
        (λ c p q. ground (arith, v.small, busy c, taken-unset align c s)) in
    (v'', same' ∙ same)

fields-set :
    (b : ℕ) (s : Pmm)
    → ((bitmap_set b s).used_blocks ≡ s.used_blocks) × ((bitmap_set b s).max_blocks ≡ s.max_blocks)
unfolding bitmap_set
fields-set b s = (refl, refl)

-- marking a block in use changes no block
set_again : (f g : ℕ → Bool) (c : ℕ) → g c ≡ (if c == 0 then true else f c) → f 0 ≡ true → g c ≡ f c
set_again f g zero h e = h ∙ sym e
set_again f g (suc c) h e = h ∙ ground arith

-- From an exact count, after `pmm_init_region` on a region of blocks in use that lies in the
-- memory, with block 0 in use, the count is exact where the region does not hold block 0. Where
-- it does, block 0 is marked again and not counted, so that the count is one short.
pub init_region-count :
    (base size : ℕ) (s : Pmm)
    → IsCounted s
    → base / block_size + size / block_size ≤ s.max_blocks
    → 0 < s.max_blocks
    → InUse s (base / block_size) (size / block_size)
    → taken s 0 ≡ true
    → count (taken (init_region base size s)) s.max_blocks
      ≡ (init_region base size s).used_blocks
        + (if inside (base / block_size) (size / block_size) 0 then 1 else 0)
unfolding init_region
init_region-count base size s v fits some_block busy zero_taken =
    elim (Bool-cases (inside (base / block_size) (size / block_size) 0)) [
      | inl holds ↦ rw holds (
          omega (
            arith,
            (fields-set 0 freed).0,
            v'.used,
            ap (count (taken freed)) same,
            count-add (taken freed) (taken (bitmap_set 0 freed)) 0 s.max_blocks some_block
                (ground (arith, marks)) (λ c. taken-set 0 c freed),
          ))
      | inr without ↦ rw without (
          omega (
            arith,
            (fields-set 0 freed).0,
            v'.used,
            ap (count (taken freed)) same,
            count-same (taken freed) (taken (bitmap_set 0 freed)) s.max_blocks λ c p.
                set_again (taken freed) (taken (bitmap_set 0 freed)) c (taken-set 0 c freed)
                  (ground (arith, marks)),
          ))
    ]
  where
    freed : Pmm
    freed = init_loop (size / block_size) (base / block_size) s

    v' : IsCounted freed
    v' = (init_loop-IsCounted (size / block_size) (base / block_size) s v fits busy).0

    same : freed.max_blocks ≡ s.max_blocks
    same = (init_loop-IsCounted (size / block_size) (base / block_size) s v fits busy).1

    marks :
        taken freed 0
        ≡ (if inside (base / block_size) (size / block_size) 0 then false else taken s 0)
    marks = init_loop-taken (size / block_size) (base / block_size) s 0 (omega (arith, v.small))
