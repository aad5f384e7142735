-- ===== src/Fat/Table.antt =====
-- The allocation table: `cluster_to_lba`, `fat32_get_fat_entry`, `fat32_set_fat_entry` and
-- `fat32_allocate_cluster`.
pub mod Dwords
pub mod Copies
pub mod Entries
pub mod Free
use khazaros.Base.{
  ℕ, zero, suc, ◌+◌, ◌-◌, ◌*◌, ◌/◌, ◌%◌, ◌^◌, Bool, true, false, not, Option, none, some, ◌==◌, leb,
  if◌then◌else◌,
}
use khazaros.LibK.Memory.{Bytes, load32, store32}
use khazaros.Fat.{
  Io, pure, call, ◌>>=◌, ◌>>◌, Buffer, Drivers, Bpb, Fat32, release, with_buffer, disk_read_sectors,
  disk_write_sectors,
}

-- `0x0FFFFFFF`, the end of a chain and the code's sign for an error
abbrev pub end_of_chain : ℕ
end_of_chain = 268435455

-- `cluster >= 0x0FFFFFF8`
unfoldable pub ends_chain : ℕ → Bool
ends_chain cluster = leb 268435448 cluster

-- The difference and the product wrap around in 32 bits.
unfoldable pub cluster_to_lba : Fat32 → (cluster : ℕ) → ℕ
cluster_to_lba fat cluster =
    (fat.first_data_sector + (cluster + (2 ^ 32 - 2)) * fat.bpb.sectors_per_cluster) % 2 ^ 32

unfoldable pub fat_sector_offset : (cluster : ℕ) → ℕ
fat_sector_offset cluster = cluster * 4 % 2 ^ 32 / 512

unfoldable pub fat_offset : (cluster : ℕ) → ℕ
fat_offset cluster = cluster * 4 % 2 ^ 32 % 512

unfoldable pub total_clusters : Fat32 → ℕ
total_clusters fat = fat.bpb.fat_size_long * 512 % 2 ^ 32 / 4

module _ {W : Type 0} (d : Drivers W) (fat : Fat32) where
  unfoldable pub fat32_get_fat_entry : (cluster : ℕ) → Io W ℕ
  unfolding with_buffer fat_sector_offset fat_offset
  fat32_get_fat_entry cluster = with_buffer d 512 (pure end_of_chain) λ buffer. do
    let fat_sector = (fat.bpb.reserved_sectors + fat_sector_offset cluster) % 2 ^ 32
    (ok, bytes) ← disk_read_sectors d fat fat_sector 1 buffer.bytes
    release d buffer.address
    pure (if ok then load32 bytes (fat_offset cluster) % 2 ^ 28 else end_of_chain)

  -- The copies of the table from number `i` on, of which `left` are left.
  unfoldable pub set_copies : (left i : ℕ) → (cluster value : ℕ) → Bytes → Io W Bool
  unfolding fat_sector_offset fat_offset
  set_copies zero i cluster value buffer = pure true
  set_copies (suc left) i cluster value buffer = do
    let fat_sector =
        (fat.bpb.reserved_sectors + i * fat.sectors_per_fat + fat_sector_offset cluster) % 2 ^ 32
    (ok, bytes) ← disk_read_sectors d fat fat_sector 1 buffer
    if not ok then pure false else do
      let bytes₁ = store32 bytes (fat_offset cluster) (value % 2 ^ 28)
      written ← disk_write_sectors d fat fat_sector 1 bytes₁
      if not written then pure false else set_copies left (i + 1) cluster value bytes₁

  unfoldable pub fat32_set_fat_entry : (cluster value : ℕ) → Io W Bool
  unfolding with_buffer set_copies
  fat32_set_fat_entry cluster value = with_buffer d 512 (pure false) λ buffer. do
    done ← set_copies fat.bpb.fat_count 0 cluster value buffer.bytes
    release d buffer.address
    pure done

  unfoldable pub allocate_loop : (left i : ℕ) → Io W ℕ
  unfolding fat32_get_fat_entry fat32_set_fat_entry
  allocate_loop zero i = pure end_of_chain
  allocate_loop (suc left) i = do
    entry ← fat32_get_fat_entry i
    if entry == 0
        then (do fat32_set_fat_entry i end_of_chain; pure i)
        else allocate_loop left (i + 1)

  unfoldable pub fat32_allocate_cluster : Io W ℕ
  unfolding allocate_loop total_clusters
  fat32_allocate_cluster = allocate_loop (total_clusters fat - 2) 2
