-- ===== src/Fat/Table/Free.antt =====
-- The search for a free cluster, `fat32_allocate_cluster` of kernel/fs/fat32/fat32.c.
use khazaros.Base.{
  ℕ, zero, suc, ◌+◌, ◌-◌, ◌%◌, ◌^◌, ◌≤◌, ◌<◌, ◌≡◌, refl, Bool, Option, none, some, arith, ◌==◌,
  Bool-cases, inl, inr,
}
use khazaros.Base.Search.{find_from}
use khazaros.LibK.Memory.{Bytes}
use khazaros.Fat.{Drivers, Fat32}
use khazaros.Fat.Table.{
  end_of_chain, total_clusters, fat32_get_fat_entry, fat32_set_fat_entry, allocate_loop,
  fat32_allocate_cluster,
}
use khazaros.Fat.Table.Copies.{IsVolume, InTable, table_entry, write_copies}
use khazaros.Fat.Table.Entries.{fat32_get_fat_entry-at, fat32_set_fat_entry-at}
use khazaros.Fat.Volume.{IsReliable, Gives, Gives-then, pure-Gives}

-- a cluster whose entry in the first copy is 0
abbrev pub is_free : Fat32 → Bytes → ℕ → Bool
is_free fat m c = table_entry fat m 0 c % 2 ^ 28 == 0

-- What an allocation does with the cluster that was found: its result, and the disk.
abbrev pub allocated : Option ℕ → ℕ
allocated none = end_of_chain
allocated (some c) = c

abbrev pub reserve : Fat32 → Option ℕ → Bytes → Bytes
reserve fat none m = m
reserve fat (some c) m = write_copies fat fat.bpb.fat_count 0 c end_of_chain m

module _ {W : Type 0} (d : Drivers W) (fat : Fat32) (disk : W → Bytes)
    (works : IsReliable d fat disk) (v : IsVolume fat) where
  pub total_clusters-InTable : (c : ℕ) → c < total_clusters fat → InTable fat c
  unfolding total_clusters
  total_clusters-InTable c h = omega (arith, v.size, v.clusters)

  allocate_loop-Gives :
      (left i : ℕ) (w : W) (m : Bytes)
      → disk w ≡ m
      → left ≤ total_clusters fat - i
      → Gives disk
          (allocate_loop d fat left i w)
          (allocated (find_from (is_free fat m) left i))
          (reserve fat (find_from (is_free fat m) left i) m)
  unfolding allocate_loop find_from
  allocate_loop-Gives zero i w m e h = pure-Gives disk end_of_chain _ w _ refl e
  allocate_loop-Gives (suc left) i w m e h =
      Gives-then disk (fat32_get_fat_entry d fat i) _ w _ _ _ _
        (fat32_get_fat_entry-at d fat disk works v i w m e (total_clusters-InTable i (omega arith)))
        λ w₁ e₁. elim (Bool-cases (is_free fat m i)) [
          | inl free ↦ rw free (
              Gives-then disk (fat32_set_fat_entry d fat i end_of_chain) _ w₁ _ _ _ _
                (fat32_set_fat_entry-at d fat disk works v i end_of_chain w₁ m e₁
                  (total_clusters-InTable i (omega arith)))
                λ w₂ e₂. pure-Gives disk _ _ w₂ _ refl e₂)
          | inr taken ↦ rw taken (allocate_loop-Gives left (i + 1) w₁ m e₁ (omega arith))
        ]

  -- An allocation searches the clusters from number 2 to the end of the table in order: it returns
  -- the first whose entry is 0, with the end of a chain written to it in every copy of the table,
  -- and where there is none it returns 0x0FFFFFFF and leaves the disk as it was. The heap has
  -- memory, the drive works, and the tables of the volume fit.
  pub fat32_allocate_cluster-Gives :
      (w : W) (m : Bytes)
      → disk w ≡ m
      → let o = find_from (is_free fat m) (total_clusters fat - 2) 2 in
        Gives disk (fat32_allocate_cluster d fat w) (allocated o) (reserve fat o m)
  unfolding fat32_allocate_cluster
  fat32_allocate_cluster-Gives w m e =
      allocate_loop-Gives (total_clusters fat - 2) 2 w m e (omega arith)
