-- ===== src/Fat/Dir/Full.antt =====
-- A directory of kernel/fs/fat32/fat32.c that has no slot left: `fat32_vfs_create` and
-- `fat32_vfs_mkdir` give the cluster back.
use khazaros.Base.{
  ℕ, ◌+◌, ◌-◌, ◌*◌, ◌%◌, ◌^◌, ◌≤◌, ◌<◌, ◌≡◌, ◌≢◌, refl, ap, ◌∙◌, true, false, not, Option, none,
  some, arith, ◌==◌, if◌then◌else◌, Bool-cases, Option-cases, inl, inr, ne→==,
}
use khazaros.Base.Search.{find_from, find_from-congruent, find_from-some, IsFirst}
use khazaros.LibK.Memory.{Bytes}
use khazaros.LibK.Text.{Chars}
use khazaros.Vfs.{VfsNode}
use khazaros.Fat.{Io, pure, test_null, ◌>>=◌, Drivers, Fat32}
use khazaros.Fat.Table.{
  end_of_chain, total_clusters, cluster_to_lba, fat32_set_fat_entry, fat32_allocate_cluster,
}
use khazaros.Fat.Table.Copies.{
  IsVolume, InTable, OutsideTables, table_entry, write_copies, IsWritten, write_copies-IsWritten,
}
use khazaros.Fat.Table.Entries.{fat32_set_fat_entry-at}
use khazaros.Fat.Table.Free.{
  is_free, allocated, reserve, fat32_allocate_cluster-Gives, total_clusters-InTable,
}
use khazaros.Fat.Entry.{is_unused, entries_per_cluster, fat32_create_entry}
use khazaros.Fat.Dir.{NewNode, new_entry, fat32_vfs_create, fat32_vfs_mkdir}
use khazaros.Fat.Dir.Created.{directory, is_unused-congruent, Gives-Ends, fat32_create_entry-full}
use khazaros.Fat.Dir.Found.{guard-Ends}
use khazaros.Fat.Runs.{Ends, pure-Ends, Ends-then}
use khazaros.Fat.Volume.{IsReliable}

-- The code reads the same entries, and the bytes outside the tables are the same.
pub record IsUnchanged (fat : Fat32) (m m' : Bytes) : Type 0 where
  pub entries :
      (c : ℕ) → InTable fat c → table_entry fat m' 0 c % 2 ^ 28 ≡ table_entry fat m 0 c % 2 ^ 28
  pub outside : (a : ℕ) → OutsideTables fat a → m' a ≡ m a

-- the sectors of a directory, behind the tables or before them
abbrev pub DirectoryOutside : Fat32 → VfsNode → Type 0
DirectoryOutside fat parent =
    (i : ℕ)
    → i < 512 * fat.bpb.sectors_per_cluster
    → OutsideTables fat (512 * cluster_to_lba fat parent.impl + i)

abbrev pub IsFull : Fat32 → Bytes → VfsNode → Type 0
IsFull fat m parent =
    find_from (is_unused (directory fat m parent)) (entries_per_cluster fat) 0 ≡ none

-- Taking a free cluster and freeing it changes nothing.
freed-IsUnchanged :
    (fat : Fat32) (c : ℕ) (m m₁ m₂ : Bytes)
    → 0 < fat.bpb.fat_count
    → is_free fat m c ≡ true
    → IsWritten fat m c end_of_chain m₁
    → IsWritten fat m₁ c 0 m₂
    → IsUnchanged fat m m₂
freed-IsUnchanged fat c m m₁ m₂ p free h₁ h₂ = record {
  entries = λ c' t. elim (Bool-cases (c' == c)) [
    | inl e ↦ ground (arith, h₂.entries 0 c' p t, free)
    | inr ne ↦ ground (arith, h₂.entries 0 c' p t, h₁.entries 0 c' p t)
  ];
  outside = λ a o. h₂.outside a o ∙ h₁.outside a o;
}

IsFull-congruent :
    (fat : Fat32) (parent : VfsNode) (m m₁ : Bytes)
    → DirectoryOutside fat parent
    → ((a : ℕ) → OutsideTables fat a → m₁ a ≡ m a)
    → IsFull fat m parent
    → IsFull fat m₁ parent
IsFull-congruent fat parent m m₁ out same full =
    find_from-congruent _ _ (entries_per_cluster fat) 0
      (λ k p q. is_unused-congruent _ _ k (same _ (out (32 * k + 0) (omega arith))))
    ∙ full

module _ {W : Type 0} (d : Drivers W) (fat : Fat32) (disk : W → Bytes)
    (works : IsReliable d fat disk) (v : IsVolume fat) where
  abbrev Nothing : {A : Type 0} → Bytes → Option A → W → Type 0
  Nothing m o w = (o ≡ none) × IsUnchanged fat m (disk w)

  new_entry-full :
      (fuel : ℕ) (parent : VfsNode) (name : Chars) (attr : ℕ) (w : W)
      → fat.bpb.sectors_per_cluster < 256
      → total_clusters fat ≤ end_of_chain
      → DirectoryOutside fat parent
      → IsFull fat (disk w) parent
      → Ends (Nothing (disk w)) (new_entry d fat fuel parent name attr w)
  unfolding new_entry
  new_entry-full fuel parent name attr w h clusters out full =
      Gives-Ends d fat disk works _ (fat32_allocate_cluster d fat) _ w (allocated o)
        (reserve fat o (disk w)) (fat32_allocate_cluster-Gives d fat disk works v w (disk w) refl)
        λ w₁ e₁. elim (Option-cases o) [
          | inl e ↦
              rw e (pure-Ends _ _ w₁ (refl, same w₁ (e₁ ∙ ap (λ o. reserve fat o (disk w)) e)))
          | inr (c, e) ↦
              rw (e, ne→== c end_of_chain (below c e))
                (Gives-Ends d fat disk works _ (fat32_create_entry d fat fuel parent name attr c 0)
                  _ w₁ false (taken c)
                  (fat32_create_entry-full d fat disk works fuel parent name attr c 0 w₁ (taken c)
                    (e₁ ∙ ap (λ o. reserve fat o (disk w)) e) h
                    (IsFull-congruent fat parent (disk w) (taken c) out (took c e).outside full))
                  λ w₂ e₂.
                    Gives-Ends d fat disk works _ (fat32_set_fat_entry d fat c 0) _ w₂ true
                      (given_back c)
                      (fat32_set_fat_entry-at d fat disk works v c 0 w₂ (taken c) e₂ (in_table c e))
                      λ w₃ e₃. pure-Ends _ _ w₃ (
                        refl,
                        (freed-IsUnchanged fat c (disk w) (taken c) (disk w₃) v.some_copy
                            (first c e).passes (took c e)
                            (rw e₃ (write_copies-IsWritten fat c 0 (taken c) (in_table c e)))),
                      ))
        ]
    where
      o : Option ℕ
      o = find_from (is_free fat (disk w)) (total_clusters fat - 2) 2

      taken : ℕ → Bytes
      taken c = write_copies fat fat.bpb.fat_count 0 c end_of_chain (disk w)

      given_back : ℕ → Bytes
      given_back c = write_copies fat fat.bpb.fat_count 0 c 0 (taken c)

      same : (w₁ : W) → disk w₁ ≡ disk w → IsUnchanged fat (disk w) (disk w₁)
      same w₁ e = record { entries = λ c t. rw e refl; outside = λ a p. rw e refl }

      first : (c : ℕ) → o ≡ some c → IsFirst (is_free fat (disk w)) (total_clusters fat - 2) 2 c
      first c e = find_from-some _ (total_clusters fat - 2) 2 e

      below : (c : ℕ) → o ≡ some c → c ≢ end_of_chain
      below c e z = omega (arith, (first c e).below, (first c e).from)

      in_table : (c : ℕ) → o ≡ some c → InTable fat c
      in_table c e =
          total_clusters-InTable d fat disk works v c
            (omega (arith, (first c e).below, (first c e).from))

      took : (c : ℕ) → o ≡ some c → IsWritten fat (disk w) c end_of_chain (taken c)
      took c e = write_copies-IsWritten fat c end_of_chain (disk w) (in_table c e)

  -- the rest of a function where there is no new entry
  none-Ends :
      {A : Type 0} (m : Bytes) (n : Io W (Option ℕ)) (k : ℕ → Io W (Option A)) (w : W)
      → Ends (Nothing m) (n w)
      → Ends (Nothing m) ((n >>= λ o. test_null o (pure none) k) w)
  none-Ends m n k w h =
      Ends-then (Nothing m) (Nothing m) n _ w h λ o w₁ r. rw r.0 (pure-Ends _ none w₁ (refl, r.1))

  -- With a heap that has memory and a drive that works, on a volume whose tables fit, that has less
  -- than 2^28 clusters and less than 256 sectors in each: where no slot of a directory that stands
  -- outside the tables is unused, making a file or a directory in it returns NULL, and gives the
  -- cluster that it took back: the entries that the code reads, and every byte outside the tables,
  -- are as before.
  pub fat32_vfs_create-full :
      (fuel : ℕ) (parent : VfsNode) (name : Chars) (w : W)
      → fat.bpb.sectors_per_cluster < 256
      → total_clusters fat ≤ end_of_chain
      → DirectoryOutside fat parent
      → IsFull fat (disk w) parent
      → Ends (Nothing (disk w)) (fat32_vfs_create d fat fuel parent name w)
        × Ends (Nothing (disk w)) (fat32_vfs_mkdir d fat fuel (some parent) name w)
  unfolding fat32_vfs_create fat32_vfs_mkdir
  fat32_vfs_create-full fuel parent name w h clusters out full = elim (Bool-cases fat.fat32_ready) [
    | inl e ↦ (
      guard-Ends _ fat.fat32_ready _ _ w e (
          none-Ends (disk w) (new_entry d fat fuel parent name 32) _ w
            (new_entry-full fuel parent name 32 w h clusters out full)),
      guard-Ends _ fat.fat32_ready _ _ w e (
          none-Ends (disk w) (new_entry d fat fuel parent name 16) _ w
            (new_entry-full fuel parent name 16 w h clusters out full)),
    )
    | inr e ↦ (not_ready _ e, not_ready _ e)
  ]
    where
      not_ready :
          (n : Io W NewNode)
          → fat.fat32_ready ≡ false
          → Ends (Nothing (disk w)) ((if not fat.fat32_ready then pure none else n) w)
      not_ready n e =
          rw e (pure-Ends _ none w (refl, record { entries = λ c t. refl; outside = λ a p. refl }))
