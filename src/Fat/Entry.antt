-- ===== src/Fat/Entry.antt =====
-- Directory entries: the fields of `struct fat32_dir_entry`, `fat32_create_entry` and
-- `fat32_update_entry_size`. An entry has 32 bytes, the sectors of a cluster hold 16 each.
pub mod Fields
pub mod Find
use khazaros.Base.{
  ℕ, zero, suc, ◌+◌, ◌*◌, ◌/◌, ◌%◌, ◌^◌, Bool, true, false, not, ◌&&◌, ◌||◌, Option, none, some,
  ◌==◌, if◌then◌else◌,
}
use mathlib.Core.Option
use khazaros.Base.Search.{find_from}
use khazaros.LibK.Memory.{Bytes, store8, load32, store32, memset}
use khazaros.LibK.Text.{Chars}
use khazaros.Vfs.{VfsNode}
use khazaros.Fat.{
  Io, pure, stuck, call, lift, ◌>>=◌, ◌>>◌, Buffer, Drivers, Bpb, Fat32, load16, release,
  with_buffer, disk_read_sectors, disk_write_sectors,
}
use khazaros.Fat.Name.{format_fat_name}
use khazaros.Fat.Table.{cluster_to_lba}

abbrev pub entry_name : Bytes → (i : ℕ) → Chars
entry_name buffer i k = buffer (32 * i + k)

abbrev pub entry_attr : Bytes → (i : ℕ) → ℕ
entry_attr buffer i = buffer (32 * i + 11)

-- `cluster_low | (cluster_high << 16)`
unfoldable pub entry_cluster : Bytes → (i : ℕ) → ℕ
entry_cluster buffer i = load16 buffer (32 * i + 26) + load16 buffer (32 * i + 20) * 2 ^ 16

unfoldable pub entry_size : Bytes → (i : ℕ) → ℕ
unfolding load32
entry_size buffer i = load32 buffer (32 * i + 28)

abbrev pub store16 : Bytes → (a v : ℕ) → Bytes
store16 m a v = store8 (store8 m a v) (a + 1) (v / 256)

-- the number of entries in a cluster
abbrev pub entries_per_cluster : Fat32 → ℕ
entries_per_cluster fat = 16 * fat.bpb.sectors_per_cluster

-- `name[0]` is 0, or 0xE5 for an entry that was deleted
unfoldable pub is_unused : Bytes → (i : ℕ) → Bool
is_unused buffer i = (entry_name buffer i 0 == 0) || (entry_name buffer i 0 == 229)

-- The fields of the entry at `e`, behind its name.
unfoldable pub set_fields : Bytes → (e attr start_cluster size : ℕ) → Bytes
unfolding store8 store32
set_fields m e attr start_cluster size =
    let m₁ = store16 (store8 m (e + 11) attr) (e + 26) (start_cluster % 65536) in
    store32 (store16 m₁ (e + 20) (start_cluster / 2 ^ 16 % 65536)) (e + 28) size

-- The slot filled with an entry of that name; on the fuel of the name.
unfoldable pub fill_slot :
    (fuel : ℕ) → Bytes → (slot : ℕ) → Chars → (attr start_cluster size : ℕ) → Option Bytes
unfolding set_fields
fill_slot fuel buffer slot name attr start_cluster size =
    Option.map (λ m. set_fields m (32 * slot) attr start_cluster size)
      (format_fat_name fuel name (memset buffer (32 * slot) 0 32) (32 * slot))

module _ {W : Type 0} (d : Drivers W) (fat : Fat32) where
  -- The write of the slot that was found.
  unfoldable pub write_slot :
      Option ℕ → (fuel lba : ℕ) → Bytes → Chars → (attr start_cluster size : ℕ) → Io W Bool
  unfolding fill_slot
  write_slot none fuel lba buffer name attr start_cluster size = pure false
  write_slot (some slot) fuel lba buffer name attr start_cluster size = do
    bytes ← lift (fill_slot fuel buffer slot name attr start_cluster size)
    disk_write_sectors d fat lba fat.bpb.sectors_per_cluster bytes

  unfoldable pub fat32_create_entry :
      (fuel : ℕ) → (parent : VfsNode) → Chars → (attr start_cluster size : ℕ) → Io W Bool
  unfolding with_buffer write_slot
  fat32_create_entry fuel parent name attr start_cluster size =
      with_buffer d (512 * fat.bpb.sectors_per_cluster) (pure false) λ buffer. do
        let lba = cluster_to_lba fat parent.impl
        (ok, bytes) ← disk_read_sectors d fat lba fat.bpb.sectors_per_cluster buffer.bytes
        done ←
            if not ok
            then pure false
            else write_slot (find_from (is_unused bytes) (entries_per_cluster fat) 0) fuel lba bytes
                name attr start_cluster size
        release d buffer.address
        pure done

  -- `start == file_cluster && name[0] != 0x00 && name[0] != 0xE5`
  unfoldable pub is_entry_of : (file_cluster : ℕ) → Bytes → (i : ℕ) → Bool
  unfolding is_unused
  is_entry_of file_cluster buffer i =
      (entry_cluster buffer i == file_cluster) && not (is_unused buffer i)

  unfoldable pub write_size : Option ℕ → (lba : ℕ) → Bytes → (new_size : ℕ) → Io W Unit
  write_size none lba buffer new_size = pure tt
  write_size (some i) lba buffer new_size = do
    disk_write_sectors d fat lba fat.bpb.sectors_per_cluster (store32 buffer (32 * i + 28) new_size)
    pure tt

  unfoldable pub fat32_update_entry_size : (dir_cluster file_cluster new_size : ℕ) → Io W Unit
  unfolding with_buffer is_entry_of write_size
  fat32_update_entry_size dir_cluster file_cluster new_size =
      with_buffer d (512 * fat.bpb.sectors_per_cluster) (pure tt) λ buffer. do
        let lba = cluster_to_lba fat dir_cluster
        (ok, bytes) ← disk_read_sectors d fat lba fat.bpb.sectors_per_cluster buffer.bytes
        if not ok
            then pure tt
            else write_size (find_from (is_entry_of file_cluster bytes) (entries_per_cluster fat) 0)
                lba bytes new_size
        release d buffer.address
