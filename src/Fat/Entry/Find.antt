-- ===== src/Fat/Entry/Find.antt =====
-- A new entry is found: `fat32_create_entry` of kernel/fs/fat32/fat32.c and the search for a name.
use khazaros.Base.{
  ℕ, zero, suc, ◌+◌, ◌*◌, ◌≤◌, ◌<◌, ◌≡◌, refl, sym, ap, ◌∙◌, fun_ext, true, false, Option, none,
  some, arith, ◌==◌, Bool-cases, Option-cases, inl, inr, ==-refl, ==→eq,
}
use mathlib.Core.Option
use mathlib.Core.Option.{none-ne-some, some-injective}
use khazaros.Base.Search.{find_from, IsFirst, find_from-some}
use khazaros.LibK.Memory.{Bytes, memset}
use khazaros.LibK.Text.{Chars, memcmp, memcmp_loop}
use khazaros.LibK.Copy.{memset_lem}
use khazaros.Fat.Name.{format_fat_name, fat32_compare_name}
use khazaros.Fat.Name.Places.{Formats, format_fat_name-Formats, format_fat_name-Outside}
use khazaros.Fat.Entry.{entry_name, is_unused, set_fields, fill_slot}
use khazaros.Fat.Entry.Fields.{set_fields-other}
use khazaros.Fat.File.{search_name}

memcmp_loop-same :
    (n i : ℕ) (p q : Chars) → ((k : ℕ) → i ≤ k → k < i + n → p k ≡ q k) → memcmp_loop n i p q ≡ 0
unfolding memcmp_loop
memcmp_loop-same zero i p q h = refl
memcmp_loop-same (suc n) i p q h =
    rw (h i (omega arith) (omega arith), ==-refl (q i))
      (memcmp_loop-same n (i + 1) p q λ k a b. h k (omega arith) (omega arith))

-- A name that was formatted compares equal to the text it comes from.
compare_formatted :
    (fuel : ℕ) (name : Chars) (m : Bytes) (a : ℕ) (b : Bytes) {m' : Bytes}
    → format_fat_name fuel name m a ≡ some m'
    → ((k : ℕ) → k < 11 → b (a + k) ≡ m' (a + k))
    → fat32_compare_name fuel (λ k. b (a + k)) name ≡ some true
unfolding fat32_compare_name memcmp
compare_formatted fuel name m a b {m'} e same =
    equal (format_fat_name fuel name (λ _. 0) 0)
      (rw e at (format_fat_name-Formats fuel name m a (λ _. 0) 0))
  where
    equal :
        (o : Option Bytes)
        → Formats (some m') a o 0
        → Option.map (λ x. memcmp_loop 11 0 (λ k. b (a + k)) x == 0) o ≡ some true
    equal none h = absurd h
    equal (some x) h =
        ap (λ n. some (n == 0))
          (memcmp_loop-same 11 0 (λ k. b (a + k)) x λ k p q. same k q ∙ h k q ∙ ap x (omega arith))

memcmp_loop-congruent :
    (n i : ℕ) (p q x : Chars)
    → ((k : ℕ) → k < i + n → p k ≡ q k)
    → memcmp_loop n i p x ≡ memcmp_loop n i q x
unfolding memcmp_loop
memcmp_loop-congruent zero i p q x h = refl
memcmp_loop-congruent (suc n) i p q x h =
    rw (h i (omega arith), memcmp_loop-congruent n (i + 1) p q x (λ k c. h k (omega arith))) refl

-- Only the 11 bytes of a name are compared.
pub compare_congruent :
    (fuel : ℕ) (p q name : Chars)
    → ((k : ℕ) → k < 11 → p k ≡ q k)
    → fat32_compare_name fuel p name ≡ fat32_compare_name fuel q name
unfolding fat32_compare_name memcmp
compare_congruent fuel p q name h =
    ap (λ (f : Bytes → ℕ). Option.map (λ x. f x == 0) (format_fat_name fuel name (λ _. 0) 0))
      (fun_ext λ x. memcmp_loop-congruent 11 0 p q x (λ k c. h k (omega arith)))

-- Only the entries that are searched matter.
pub search_name-congruent :
    (fuel left i : ℕ) (b b' : Bytes) (name : Chars)
    → ((a : ℕ) → a < 32 * (i + left) → b a ≡ b' a)
    → search_name fuel left i b name ≡ search_name fuel left i b' name
unfolding search_name
search_name-congruent fuel zero i b b' name h = refl
search_name-congruent fuel (suc left) i b b' name h =
    rw
      (
        h (32 * i + 0) (omega arith),
        compare_congruent fuel (entry_name b i) (entry_name b' i) name
            (λ k c. h (32 * i + k) (omega arith)),
        search_name-congruent fuel left (i + 1) b b' name (λ a c. h a (omega arith)),
      )
      refl

-- The search passes over entries of other names, and ends at one of this name.
search_name-found :
    (fuel left i slot : ℕ) (b : Bytes) (name : Chars)
    → i ≤ slot
    → slot < i + left
    → ((j : ℕ) → i ≤ j → j ≤ slot → (entry_name b j 0 == 0) ≡ false)
    → ((j : ℕ) → i ≤ j → j < slot → fat32_compare_name fuel (entry_name b j) name ≡ some false)
    → fat32_compare_name fuel (entry_name b slot) name ≡ some true
    → search_name fuel left i b name ≡ some (some slot)
unfolding search_name
search_name-found fuel zero i slot b name p q used others this = absurd (omega arith)
search_name-found fuel (suc left) i slot b name p q used others this =
    elim (Bool-cases (i == slot)) [
      | inl e ↦
          rw
            (
              used i (omega arith) p,
              ap (λ j. fat32_compare_name fuel (entry_name b j) name) (==→eq i slot e) ∙ this,
            )
            (ap (λ j. some (some j)) (==→eq i slot e))
      | inr ne ↦
          rw (used i (omega arith) p, others i (omega arith) (ground arith))
            (search_name-found fuel left (i + 1) slot b name (ground arith) (omega arith)
              (λ j a c. used j (omega arith) c) (λ j a c. others j (omega arith) c) this)
    ]

unused_zero : (b : Bytes) (j : ℕ) → is_unused b j ≡ false → (entry_name b j 0 == 0) ≡ false
unfolding is_unused
unused_zero b j h = ground (arith, h)

memset_before : (m : Bytes) (d a : ℕ) → a < d → memset m d 0 32 a ≡ m a
memset_before m d a h = ground (arith, memset_lem m d 0 32 a)

-- A new entry is found under the name it was given: the search for the name ends at the slot that
-- `fill_slot` has filled, if that was the first unused slot of the directory, no entry before it has
-- the name, and the name does not format to a first byte of 0.
pub search_name-fill_slot :
    (fuel count slot : ℕ) (buffer b : Bytes) (name : Chars) (attr start_cluster size : ℕ)
    → find_from (is_unused buffer) count 0 ≡ some slot
    → fill_slot fuel buffer slot name attr start_cluster size ≡ some b
    → (entry_name b slot 0 == 0) ≡ false
    → ((j : ℕ) → j < slot → fat32_compare_name fuel (entry_name buffer j) name ≡ some false)
    → search_name fuel count 0 b name ≡ some (some slot)
unfolding fill_slot
search_name-fill_slot fuel count slot buffer b name attr start_cluster size first filled start
      others =
    elim (Option-cases (format_fat_name fuel name (memset buffer (32 * slot) 0 32) (32 * slot))) [
      | inl e ↦ absurd (none-ne-some b (rw e at filled))
      | inr (m, e) ↦
          search_name-found fuel count 0 slot b name (omega arith) found.below
            (λ j p q. elim (Bool-cases (j == slot)) [
              | inl same ↦ ap (λ x. entry_name b x 0 == 0) (==→eq j slot same) ∙ start
              | inr other ↦
                  ap (λ x. x == 0) (before m e j 0 (ground arith) (omega arith))
                  ∙ used j (ground arith)
            ])
            (λ j p q.
              compare_congruent fuel (entry_name b j) (entry_name buffer j) name
                (λ k c. before m e j k q (omega arith))
              ∙ others j q)
            (compare_formatted fuel name (memset buffer (32 * slot) 0 32) (32 * slot) b e λ k c.
              at m e (32 * slot + k)
              ∙ set_fields-other m (32 * slot) attr start_cluster size (32 * slot + k)
                  (inl (omega arith)))
    ]
  where
    found : IsFirst (is_unused buffer) count 0 slot
    found = find_from-some (is_unused buffer) count 0 first

    used : (j : ℕ) → j < slot → (entry_name buffer j 0 == 0) ≡ false
    used j p = unused_zero buffer j (found.earlier j (omega arith) p)

    at :
        (m : Bytes)
        → format_fat_name fuel name (memset buffer (32 * slot) 0 32) (32 * slot) ≡ some m
        → (x : ℕ) → b x ≡ set_fields m (32 * slot) attr start_cluster size x
    at m e x = sym (
        ap (λ (f : Bytes). f x)
          (some-injective (set_fields m (32 * slot) attr start_cluster size) b (rw e at filled)))

    before :
        (m : Bytes)
        → format_fat_name fuel name (memset buffer (32 * slot) 0 32) (32 * slot) ≡ some m
        → (j k : ℕ) → j < slot
        → k < 32
        → b (32 * j + k) ≡ buffer (32 * j + k)
    before m e j k p q =
        at m e (32 * j + k)
        ∙ set_fields-other m (32 * slot) attr start_cluster size (32 * j + k) (inl (omega arith))
        ∙ format_fat_name-Outside fuel name (memset buffer (32 * slot) 0 32) (32 * slot) e
            (32 * j + k) (inl (omega arith))
        ∙ memset_before buffer (32 * slot) (32 * j + k) (omega arith)
