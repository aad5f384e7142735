-- ===== src/Vmm/Space.antt =====
-- Well-formed page tables: the directory and the tables are frames of their own, which the physical
-- memory manager knows to be in use.
use khazaros.Base.{
  ℕ, ◌+◌, ◌*◌, ◌/◌, ◌%◌, ◌^◌, ◌<◌, ◌≤◌, ◌≡◌, ◌≢◌, sym, ap, ◌∙◌, true, false, arith, ◌==◌,
  Bool-cases, inl, inr, ==→eq, ==→ne,
}
use khazaros.Pmm.{Pmm}
use khazaros.Pmm.View.{taken}
use khazaros.Pmm.Alloc.{Allocates}
use mathlib.Core.Bool.{true≢false}
use khazaros.Vmm.{Vmm, pd_index, frame_of, is_present}

-- directory entry number `i`
abbrev pub entry : Vmm → ℕ → ℕ
entry s i = s.word (s.current_directory + 4 * i)

abbrev pub table : Vmm → ℕ → ℕ
table s i = frame_of (entry s i)

-- over the entries `e` of the directory at `dir`
pub record Tables (pmm : Pmm) (dir : ℕ) (e : ℕ → ℕ) : Type 0 where
  pub few_blocks : pmm.max_blocks ≤ 2 ^ 20
  pub dir_aligned : dir % 4096 ≡ 0
  pub dir_taken : taken pmm (dir / 4096) ≡ true
  pub aligned : (i : ℕ) → i < 1024 → is_present (e i) ≡ true → frame_of (e i) % 4096 ≡ 0
  pub apart : (i : ℕ) → i < 1024 → is_present (e i) ≡ true → frame_of (e i) ≢ dir
  pub tables_taken :
      (i : ℕ) → i < 1024 → is_present (e i) ≡ true → taken pmm (frame_of (e i) / 4096) ≡ true
  pub distinct :
      (i j : ℕ)
      → i < 1024
      → j < 1024
      → i ≢ j
      → is_present (e i) ≡ true
      → is_present (e j) ≡ true
      → frame_of (e i) ≢ frame_of (e j)

abbrev pub IsSpace : Vmm → Type 0
IsSpace s = Tables s.pmm s.current_directory (entry s)

pub Tables-same :
    (pmm : Pmm) (dir : ℕ) (e e' : ℕ → ℕ)
    → Tables pmm dir e
    → ((i : ℕ) → i < 1024 → e' i ≡ e i)
    → Tables pmm dir e'
Tables-same pmm dir e e' v same = record {
  few_blocks = v.few_blocks;
  dir_aligned = v.dir_aligned;
  dir_taken = v.dir_taken;
  aligned = λ i h p. rw (same i h) (v.aligned i h (rw (same i h) at p));
  apart = λ i h p. rw (same i h) (v.apart i h (rw (same i h) at p));
  tables_taken = λ i h p. rw (same i h) (v.tables_taken i h (rw (same i h) at p));
  distinct = λ i j hi hj ne p q.
      rw (same i hi, same j hj)
        (v.distinct i j hi hj ne (rw (same i hi) at p) (rw (same j hj) at q));
}

-- A table in a block that was free, for entry `n`, which had none.
module _ (pmm pmm' : Pmm) (dir : ℕ) (e e' : ℕ → ℕ) (n b pt : ℕ) (v : Tables pmm dir e)
    (a : Allocates pmm b pt pmm') where
  pub new_frame : pt ≡ b * 4096
  new_frame = omega (arith, a.pointer, a.in_bitmap, v.few_blocks)

  still_taken : (c : ℕ) → taken pmm c ≡ true → taken pmm' c ≡ true
  still_taken c h = ground (arith, a.marks c, h)

  -- the new frame is none of those in use
  pub fresh : (f : ℕ) → f % 4096 ≡ 0 → taken pmm (f / 4096) ≡ true → f ≢ pt
  fresh f al h eq =
      let same : f / 4096 ≡ b = omega (arith, new_frame, eq) in
      true≢false (sym (rw same at h) ∙ a.was_free)

  -- the tables are still well formed when the block is only allocated
  pub Tables-taken : Tables pmm' dir e
  Tables-taken = record {
    few_blocks = omega (arith, a.max_same, v.few_blocks);
    dir_aligned = v.dir_aligned;
    dir_taken = still_taken (dir / 4096) v.dir_taken;
    aligned = v.aligned;
    apart = v.apart;
    tables_taken = λ i h p. still_taken _ (v.tables_taken i h p);
    distinct = v.distinct;
  }

  pub Tables-add :
      n < 1024
      → is_present (e n) ≡ false
      → (is_present (e' n) ≡ true) × (frame_of (e' n) ≡ pt)
      → ((i : ℕ) → i < 1024 → i ≢ n → e' i ≡ e i)
      → Tables pmm' dir e'
  Tables-add hn absent (there, at) same = record {
    few_blocks = omega (arith, a.max_same, v.few_blocks);
    dir_aligned = v.dir_aligned;
    dir_taken = still_taken (dir / 4096) v.dir_taken;
    aligned = λ i h.
        at_each i h (λ x. frame_of x % 4096 ≡ 0) (omega (arith, at, new_frame)) (v.aligned i h);
    apart = λ i h.
        at_each i h (λ x. frame_of x ≢ dir)
          (rw at (λ eq. fresh dir v.dir_aligned v.dir_taken (sym eq))) (v.apart i h);
    tables_taken = λ i h.
        at_each i h (λ x. taken pmm' (frame_of x / 4096) ≡ true)
          (rw (at, block) (a.marks b ∙ ground arith)) (λ p. still_taken _ (v.tables_taken i h p));
    distinct = λ i j hi hj ne p q. elim (Bool-cases (i == n)) [
      | inl eq ↦ λ same_frame.
          old j hj (λ e. ne (==→eq i n eq ∙ sym e)) q
            (sym same_frame ∙ ap (λ k. frame_of (e' k)) (==→eq i n eq) ∙ at)
      | inr ni ↦ elim (Bool-cases (j == n)) [
        | inl eq ↦ λ same_frame.
            old i hi (==→ne i n ni) p (same_frame ∙ ap (λ k. frame_of (e' k)) (==→eq j n eq) ∙ at)
        | inr nj ↦
            rw (same i hi (==→ne i n ni), same j hj (==→ne j n nj))
              (v.distinct i j hi hj ne (rw (same i hi (==→ne i n ni)) at p)
                (rw (same j hj (==→ne j n nj)) at q))
      ]
    ];
  }
    where
      block : pt / 4096 ≡ b
      block = omega (arith, new_frame)

      old : (i : ℕ) → i < 1024 → i ≢ n → is_present (e' i) ≡ true → frame_of (e' i) ≢ pt
      old i h ne p = rw (same i h ne) (
          fresh (frame_of (e i)) (v.aligned i h (rw (same i h ne) at p))
            (v.tables_taken i h (rw (same i h ne) at p)))

      at_each :
          (i : ℕ)
          → i < 1024
          → (P : ℕ → Type 0) → P (e' n)
          → (is_present (e i) ≡ true → P (e i))
          → is_present (e' i) ≡ true
          → P (e' i)
      at_each i h P new old p = elim (Bool-cases (i == n)) [
        | inl eq ↦ rw (==→eq i n eq) new
        | inr ne ↦ rw (same i h (==→ne i n ne)) (old (rw (same i h (==→ne i n ne)) at p))
      ]

-- entries of two frames lie at different addresses
pub entry_ne :
    (a b i j : ℕ)
    → a % 4096 ≡ 0
    → b % 4096 ≡ 0
    → a ≢ b
    → i < 1024
    → j < 1024
    → a + 4 * i ≢ b + 4 * j
entry_ne a b i j p q ne hi hj = omega arith

pub pd_index-lt : (virt : ℕ) → virt < 2 ^ 32 → pd_index virt < 1024
pd_index-lt virt h = omega arith
