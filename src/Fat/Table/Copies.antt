-- ===== src/Fat/Table/Copies.antt =====
-- The copies of the allocation table of kernel/fs/fat32/fat32.c, on the bytes of the disk: where an
-- entry stands, and what a write to it changes.
use khazaros.Base.{
  ℕ, zero, suc, ◌+◌, ◌*◌, ◌%◌, ◌^◌, ◌≤◌, ◌<◌, ◌≡◌, ◌≢◌, ◌⊎◌, refl, sym, ap, ◌∙◌, arith, ◌==◌, ltb,
  if◌then◌else◌, Bool-cases, inl, inr, ==→eq, ==→ne, ltb→lt, ltb→ge,
}
use native.Mathlib.Nat.{mul-le-mul_right}
use khazaros.LibK.Memory.{Bytes, load32, store32}
use khazaros.Fat.{Fat32}
use khazaros.Fat.Table.{fat_sector_offset, fat_offset}
use khazaros.Fat.Table.Dwords.{store32-other, load32-store32, load32-store32_apart}

-- A volume: the tables fit the sector numbers, and a table its clusters.
pub record IsVolume (fat : Fat32) : Type 0 where
  pub some_copy : 0 < fat.bpb.fat_count
  pub sectors : fat.bpb.reserved_sectors + fat.bpb.fat_count * fat.sectors_per_fat < 2 ^ 32
  pub size : fat.sectors_per_fat ≡ fat.bpb.fat_size_long
  pub clusters : 512 * fat.sectors_per_fat < 2 ^ 32

-- the clusters that a table has entries for
abbrev pub InTable : Fat32 → ℕ → Type 0
InTable fat c = 4 * c < 512 * fat.sectors_per_fat

-- where the entry of a cluster stands in copy `i`
abbrev pub entry_address : Fat32 → (i c : ℕ) → ℕ
entry_address fat i c = 512 * (fat.bpb.reserved_sectors + i * fat.sectors_per_fat) + 4 * c

-- the entry of a cluster in copy `i`, with the four bits that the code passes over
unfoldable pub table_entry : Fat32 → Bytes → (i c : ℕ) → ℕ
unfolding load32
table_entry fat m i c = load32 m (entry_address fat i c)

-- the sector of an entry, as `fat32_set_fat_entry` computes it
abbrev pub copy_sector : Fat32 → (i c : ℕ) → ℕ
copy_sector fat i c =
    (fat.bpb.reserved_sectors + i * fat.sectors_per_fat + fat_sector_offset c) % 2 ^ 32

-- The sector and the offset that the code computes are those of the entry.
pub entry_sector :
    (fat : Fat32) (i c : ℕ)
    → IsVolume fat
    → i < fat.bpb.fat_count
    → InTable fat c
    → 512 * copy_sector fat i c + fat_offset c ≡ entry_address fat i c
unfolding fat_sector_offset fat_offset
entry_sector fat i c v h t =
    omega (arith, v.sectors, v.clusters, mul-le-mul_right fat.sectors_per_fat h)

pub first_sector :
    (fat : Fat32) (c : ℕ)
    → IsVolume fat
    → InTable fat c
    → 512 * ((fat.bpb.reserved_sectors + fat_sector_offset c) % 2 ^ 32) + fat_offset c
      ≡ entry_address fat 0 c
first_sector fat c v t =
    ap (λ s. 512 * (s % 2 ^ 32) + fat_offset c) (omega arith) ∙ entry_sector fat 0 c v v.some_copy t

pub offset_fits : (c : ℕ) → fat_offset c + 4 ≤ 512
unfolding fat_offset
offset_fits c = omega arith

-- the disk with an entry written to the copies from number `i` on
unfoldable pub write_copies : Fat32 → (left i c v : ℕ) → Bytes → Bytes
unfolding store32
write_copies fat zero i c v m = m
write_copies fat (suc left) i c v m =
    write_copies fat left (i + 1) c v (store32 m (entry_address fat i c) (v % 2 ^ 28))

-- One dword ends before the other starts.
abbrev pub Apart : ℕ → ℕ → Type 0
Apart a b = (a + 4 ≤ b) ⊎ (b + 4 ≤ a)

pub entries_before :
    (fat : Fat32) (i j c c' : ℕ)
    → InTable fat c
    → i < j
    → entry_address fat i c + 4 ≤ entry_address fat j c'
entries_before fat i j c c' t h = omega (arith, mul-le-mul_right fat.sectors_per_fat h)

pub entries-Apart_cluster :
    (fat : Fat32) (i j c c' : ℕ)
    → i ≡ j
    → c ≢ c'
    → Apart (entry_address fat i c) (entry_address fat j c')
entries-Apart_cluster fat i j c c' e ne = elim (Bool-cases (ltb c c')) [
  | inl p ↦ inl (omega (arith, ap (λ k. k * fat.sectors_per_fat) e, ltb→lt c c' p))
  | inr p ↦ inr (omega (arith, ap (λ k. k * fat.sectors_per_fat) e, ltb→ge c c' p, ne))
]

-- Entries of different clusters, or in different copies, do not overlap.
pub entries-Apart :
    (fat : Fat32) (i j c c' : ℕ)
    → InTable fat c
    → InTable fat c'
    → (i ≢ j) ⊎ (c ≢ c')
    → Apart (entry_address fat i c) (entry_address fat j c')
entries-Apart fat i j c c' t t' h = elim (Bool-cases (ltb i j)) [
  | inl p ↦ inl (entries_before fat i j c c' t (ltb→lt i j p))
  | inr p ↦ elim (Bool-cases (ltb j i)) [
    | inl q ↦ inr (entries_before fat j i c' c t' (ltb→lt j i q))
    | inr q ↦ same (omega (arith, ltb→ge i j p, ltb→ge j i q))
  ]
]
  where
    same : i ≡ j → Apart (entry_address fat i c) (entry_address fat j c')
    same e = entries-Apart_cluster fat i j c c' e (elim h [ inl ne ↦ absurd (ne e) | inr ne ↦ ne ])

-- A write to one entry leaves the others: of other clusters, and of other copies.
pub table_entry-apart :
    (fat : Fat32) (m : Bytes) (i j c c' v : ℕ)
    → InTable fat c
    → InTable fat c'
    → (j ≢ i) ⊎ (c' ≢ c)
    → table_entry fat (store32 m (entry_address fat i c) v) j c' ≡ table_entry fat m j c'
unfolding table_entry
table_entry-apart fat m i j c c' v t t' h =
    load32-store32_apart m (entry_address fat j c') (entry_address fat i c) v
      (entries-Apart fat j i c' c t' t h)

pub write_copies-other :
    (fat : Fat32) (left i c c' v : ℕ) (m : Bytes) (j : ℕ)
    → InTable fat c
    → InTable fat c'
    → (j < i) ⊎ (c' ≢ c)
    → table_entry fat (write_copies fat left i c v m) j c' ≡ table_entry fat m j c'
unfolding write_copies
write_copies-other fat zero i c c' v m j t t' h = refl
write_copies-other fat (suc left) i c c' v m j t t' h =
    write_copies-other fat left (i + 1) c c' v (store32 m (entry_address fat i c) (v % 2 ^ 28)) j t
      t' (elim h [ inl p ↦ inl (omega arith) | inr ne ↦ inr ne ])
    ∙ table_entry-apart fat m i j c c' (v % 2 ^ 28) t t'
        (elim h [ inl p ↦ inl (λ e. absurd (omega arith)) | inr ne ↦ inr ne ])

-- The copies that are written hold the value.
pub write_copies-hit :
    (fat : Fat32) (left i c v : ℕ) (m : Bytes) (j : ℕ)
    → InTable fat c
    → i ≤ j
    → j < i + left
    → table_entry fat (write_copies fat left i c v m) j c ≡ v % 2 ^ 28
unfolding write_copies
write_copies-hit fat zero i c v m j t p q = absurd (omega arith)
write_copies-hit fat (suc left) i c v m j t p q = elim (Bool-cases (i == j)) [
  | inl e ↦
      ap (λ k. table_entry fat (write_copies fat left (i + 1) c v m₁) k c) (sym (==→eq i j e))
      ∙ write_copies-other fat left (i + 1) c c v m₁ i t t (inl (omega arith))
      ∙ here
  | inr ne ↦ write_copies-hit fat left (i + 1) c v m₁ j t (ground arith) (omega arith)
]
  where
    m₁ : Bytes
    m₁ = store32 m (entry_address fat i c) (v % 2 ^ 28)

    here : table_entry fat m₁ i c ≡ v % 2 ^ 28
    here = unfold table_entry in load32-store32 m (entry_address fat i c) (v % 2 ^ 28) (omega arith)

-- the bytes outside the tables
abbrev pub OutsideTables : Fat32 → ℕ → Type 0
OutsideTables fat a =
    (a < 512 * fat.bpb.reserved_sectors)
    ⊎ (512 * (fat.bpb.reserved_sectors + fat.bpb.fat_count * fat.sectors_per_fat) ≤ a)

pub entry_inside :
    (fat : Fat32) (i c a : ℕ)
    → InTable fat c
    → i < fat.bpb.fat_count
    → OutsideTables fat a
    → (a < entry_address fat i c) ⊎ (entry_address fat i c + 4 ≤ a)
entry_inside fat i c a t h (inl p) = inl (omega arith)
entry_inside fat i c a t h (inr p) = inr (omega (arith, mul-le-mul_right fat.sectors_per_fat h))

pub write_copies-outside :
    (fat : Fat32) (left i c v : ℕ) (m : Bytes) (a : ℕ)
    → InTable fat c
    → i + left ≤ fat.bpb.fat_count
    → OutsideTables fat a
    → write_copies fat left i c v m a ≡ m a
unfolding write_copies
write_copies-outside fat zero i c v m a t h o = refl
write_copies-outside fat (suc left) i c v m a t h o =
    write_copies-outside fat left (i + 1) c v (store32 m (entry_address fat i c) (v % 2 ^ 28)) a t
      (omega arith) o
    ∙ store32-other m (entry_address fat i c) (v % 2 ^ 28) a
        (entry_inside fat i c a t (omega arith) o)

-- The disk `m'` is `m` with the value, cut to 28 bits, in every copy's entry of the cluster.
pub record IsWritten (fat : Fat32) (m : Bytes) (c x : ℕ) (m' : Bytes) : Type 0 where
  pub entries :
      (j c' : ℕ)
      → j < fat.bpb.fat_count
      → InTable fat c'
      → table_entry fat m' j c' ≡ (if c' == c then x % 2 ^ 28 else table_entry fat m j c')
  pub outside : (a : ℕ) → OutsideTables fat a → m' a ≡ m a

pub write_copies-IsWritten :
    (fat : Fat32) (c x : ℕ) (m : Bytes)
    → InTable fat c
    → IsWritten fat m c x (write_copies fat fat.bpb.fat_count 0 c x m)
write_copies-IsWritten fat c x m t = record {
  entries = λ j c' p t'. elim (Bool-cases (c' == c)) [
    | inl e ↦ rw e (
        ap (table_entry fat (write_copies fat fat.bpb.fat_count 0 c x m) j) (==→eq c' c e)
        ∙ write_copies-hit fat fat.bpb.fat_count 0 c x m j t (omega arith) (omega arith))
    | inr ne ↦
        rw ne (write_copies-other fat fat.bpb.fat_count 0 c c' x m j t t' (inr (==→ne c' c ne)))
  ];
  outside = λ a o. write_copies-outside fat fat.bpb.fat_count 0 c x m a t (omega arith) o;
}
