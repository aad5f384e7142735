-- ===== src/Fat/Dir.antt =====
-- Directories: the operations of a FAT32 node that `fat32_vfs_create`, `fat32_vfs_readdir`,
-- `fat32_vfs_finddir`, `fat32_vfs_unlink` and `fat32_vfs_mkdir` carry out, and `fat32_get_root`.
-- A NULL parent, which the last two test for, is `none`.
pub mod ReadOnly
pub mod Created
pub mod Found
pub mod Full
use khazaros.Base.{
  ℕ, zero, suc, ◌+◌, ◌-◌, ◌*◌, ◌/◌, ◌%◌, ◌^◌, bit_and, Bool, true, false, not, ◌&&◌, ◌||◌, Option,
  none, some, List, [], ◌∷◌, get_or, ◌==◌, leb, if◌then◌else◌,
}
use khazaros.LibK.Memory.{Bytes, store8, memset}
use khazaros.LibK.Text.{Chars, kstrncpy}
use khazaros.Vfs.{VfsNode, vfs_file, vfs_directory}
use khazaros.Vfs
use khazaros.Fat.{
  Io, pure, stuck, call, lift, test_null, ◌>>=◌, ◌>>◌, Buffer, Drivers, Bpb, Fat32, release,
  with_buffer, disk_read_sectors, disk_write_sectors,
}
use khazaros.Fat.Name.{fat32_compare_name, shown_name}
use khazaros.Fat.Table.{
  end_of_chain, ends_chain, cluster_to_lba, fat32_get_fat_entry, fat32_set_fat_entry,
  fat32_allocate_cluster,
}
use khazaros.Fat.Entry.{
  entry_name, entry_attr, entry_cluster, entry_size, store16, entries_per_cluster,
  fat32_create_entry,
}
use khazaros.Fat.File.{found_or, search_name}

-- `"fat32_root"`
abbrev pub root_name : List ℕ
root_name = b'f' ∷ b'a' ∷ b't' ∷ b'3' ∷ b'2' ∷ b'_' ∷ b'r' ∷ b'o' ∷ b'o' ∷ b't' ∷ []

-- A node that a function makes in memory from `kmalloc`, and its address.
abbrev pub NewNode : Type 0
NewNode = Option (ℕ × VfsNode)

-- the node, zeroed and filled; `fat32_get_root` leaves `read` and `write` NULL
unfoldable pub fat32_node :
    (name : Chars) → (length flags impl inode : ℕ) → (read write : Vfs.Handler) → VfsNode
fat32_node name length flags impl inode read write = record {
  name = kstrncpy (λ _. 0) 0 name 127;
  mask = if flags == vfs_directory then 511 else 438;
  uid = 0;
  gid = 0;
  flags = flags;
  inode = inode;
  length = length;
  impl = impl;
  read = read;
  write = write;
  open_file = Vfs.null;
  close = Vfs.null;
  readdir = Vfs.fat32;
  finddir = Vfs.fat32;
  create = Vfs.fat32;
  unlink = Vfs.fat32;
  mkdir = Vfs.fat32;
  ptr = 0;
  device_data = 0;
}

-- the node of an entry, under a name
unfoldable pub entry_node : Bytes → (i : ℕ) → (name : Chars) → (inode : ℕ) → VfsNode
unfolding fat32_node
entry_node buffer i name inode =
    fat32_node name (entry_size buffer i)
      (if not (bit_and (entry_attr buffer i) 16 == 0) then vfs_directory else vfs_file)
      (entry_cluster buffer i) inode Vfs.fat32 Vfs.fat32

-- deleted, a volume label, or a part of a long name: `attr & 0x08` or `attr & 0x0F`
unfoldable pub is_hidden : Bytes → (i : ℕ) → Bool
is_hidden buffer i =
    (entry_name buffer i 0 == 229)
    || not (bit_and (entry_attr buffer i) 8 == 0)
    || not (bit_and (entry_attr buffer i) 15 == 0)

-- The entry of number `index` among those that are shown, of which `count` have been passed.
unfoldable pub index_loop : (left i count : ℕ) → Bytes → (index : ℕ) → Option ℕ
unfolding is_hidden
index_loop zero i count buffer index = none
index_loop (suc left) i count buffer index =
    let hidden = index_loop left (i + 1) count buffer index in
    let shown = index_loop left (i + 1) (count + 1) buffer index in
    if entry_name buffer i 0 == 0
    then none
    else if is_hidden buffer i
    then hidden
    else if count == index
    then some i
    else shown

-- The search of `fat32_vfs_unlink`, which passes over deleted entries.
unfoldable pub search_used : (fuel left i : ℕ) → Bytes → Chars → Option (Option ℕ)
unfolding found_or
search_used fuel zero i buffer name = some none
search_used fuel (suc left) i buffer name =
    let rest = search_used fuel left (i + 1) buffer name in
    if entry_name buffer i 0 == 0
    then some none
    else if entry_name buffer i 0 == 229
    then rest
    else found_or (fat32_compare_name fuel (entry_name buffer i) name) i rest

-- `.` and `..` of a new directory
unfoldable pub dot_entries : Bytes → (cluster parent : ℕ) → Bytes
dot_entries m cluster parent =
    let m₁ = store8 (store8 (memset m 0 b' ' 11) 0 b'.') 11 16 in
    let m₂ = store16 (store16 m₁ 26 (cluster % 65536)) 20 (cluster / 2 ^ 16 % 65536) in
    let m₃ = store8 (store8 (store8 (memset m₂ 32 b' ' 11) 32 b'.') 33 b'.') 43 16 in
    store16 (store16 m₃ 58 (parent % 65536)) 52 (parent / 2 ^ 16 % 65536)

module _ {W : Type 0} (d : Drivers W) (fat : Fat32) where
  -- `kmalloc(sizeof(vfs_node_t))`, whose result the code writes to without a test for NULL
  unfoldable pub new_node : VfsNode → Io W NewNode
  new_node node = with_buffer d 200 stuck λ memory. pure (some (memory.address, node))

  -- A cluster, and an entry for it in the directory: `none` where there is no cluster, or no entry
  -- and the cluster is free again.
  unfoldable pub new_entry : (fuel : ℕ) → (parent : VfsNode) → Chars → (attr : ℕ) → Io W (Option ℕ)
  new_entry fuel parent name attr = do
    cluster ← fat32_allocate_cluster d fat
    if cluster == end_of_chain then pure none else do
      done ← fat32_create_entry d fat fuel parent name attr cluster 0
      if done then pure (some cluster) else do fat32_set_fat_entry d fat cluster 0; pure none

  unfoldable pub fat32_vfs_create : (fuel : ℕ) → (parent : VfsNode) → Chars → Io W NewNode
  unfolding new_entry new_node fat32_node
  fat32_vfs_create fuel parent name = if not fat.fat32_ready then pure none else do
    o ← new_entry fuel parent name 32
    test_null o (pure none)
        λ cluster. new_node (fat32_node name 0 vfs_file cluster parent.impl Vfs.fat32 Vfs.fat32)

  -- The node of an entry that was found, before the buffer is released.
  unfoldable pub node_at_entry : Option ℕ → Bytes → (name : ℕ → Chars) → (inode : ℕ) → Io W NewNode
  unfolding new_node entry_node
  node_at_entry none buffer name inode = pure none
  node_at_entry (some i) buffer name inode = new_node (entry_node buffer i (name i) inode)

  unfoldable pub fat32_vfs_readdir : (node : VfsNode) → (index : ℕ) → Io W NewNode
  unfolding index_loop node_at_entry shown_name
  fat32_vfs_readdir node index =
      if not fat.fat32_ready
      then pure none
      else with_buffer d (512 * fat.bpb.sectors_per_cluster) (pure none) λ buffer. do
        let lba = cluster_to_lba fat node.impl
        (ok, bytes) ← disk_read_sectors d fat lba fat.bpb.sectors_per_cluster buffer.bytes
        res ←
            node_at_entry (index_loop (entries_per_cluster fat) 0 0 bytes index) bytes
              (λ i. shown_name (entry_name bytes i)) node.impl
        release d buffer.address
        pure res

  -- The result of the read is not looked at.
  unfoldable pub fat32_vfs_finddir : (fuel : ℕ) → (node : VfsNode) → Chars → Io W NewNode
  unfolding search_name node_at_entry
  fat32_vfs_finddir fuel node name =
      if not fat.fat32_ready
      then pure none
      else with_buffer d (512 * fat.bpb.sectors_per_cluster) (pure none) λ buffer. do
        let lba = cluster_to_lba fat node.impl
        (ok, bytes) ← disk_read_sectors d fat lba fat.bpb.sectors_per_cluster buffer.bytes
        slot ← lift (search_name fuel (entries_per_cluster fat) 0 bytes name)
        res ← node_at_entry slot bytes (λ i. name) node.impl
        release d buffer.address
        pure res

  -- `while (current >= 2 && current < 0x0FFFFFF8)`, on fuel
  unfoldable pub free_chain : (fuel current : ℕ) → Io W Unit
  free_chain zero current = stuck
  free_chain (suc fuel) current =
      if leb 2 current && not (ends_chain current)
      then (do
        next ← fat32_get_fat_entry d fat current
        fat32_set_fat_entry d fat current 0
        free_chain fuel next)
      else pure tt

  -- The entry that was found is marked, and its cluster returned where that is on the disk.
  unfoldable pub delete_entry : Option ℕ → (lba : ℕ) → Bytes → Io W (Option ℕ)
  delete_entry none lba buffer = pure none
  delete_entry (some i) lba buffer = do
    done ← disk_write_sectors d fat lba fat.bpb.sectors_per_cluster (store8 buffer (32 * i) 229)
    pure (if done then some (entry_cluster buffer i) else none)

  -- The part of `fat32_vfs_unlink` with the buffer.
  unfoldable pub remove_entry : (fuel : ℕ) → (parent : VfsNode) → Chars → Io W (Option ℕ)
  unfolding search_used delete_entry
  remove_entry fuel parent name =
      with_buffer d (512 * fat.bpb.sectors_per_cluster) (pure none) λ buffer. do
        let lba = cluster_to_lba fat parent.impl
        (ok, bytes) ← disk_read_sectors d fat lba fat.bpb.sectors_per_cluster buffer.bytes
        slot ←
            if ok then lift (search_used fuel (entries_per_cluster fat) 0 bytes name) else pure none
        res ← delete_entry slot lba bytes
        release d buffer.address
        pure res

  unfoldable pub fat32_vfs_unlink : (fuel : ℕ) → (parent : Option VfsNode) → Chars → Io W Bool
  unfolding remove_entry free_chain
  fat32_vfs_unlink fuel none name = pure false
  fat32_vfs_unlink fuel (some parent) name = if not fat.fat32_ready then pure false else do
    o ← remove_entry fuel parent name
    test_null o (pure false) λ cluster. free_chain fuel cluster >> pure true

  -- The first cluster of a new directory, and its node.
  unfoldable pub fill_directory : (parent : VfsNode) → Chars → (cluster : ℕ) → Io W NewNode
  unfolding dot_entries new_node fat32_node
  fill_directory parent name cluster =
      with_buffer d (512 * fat.bpb.sectors_per_cluster) (pure none) λ buffer. do
        let lba = cluster_to_lba fat cluster
        let zeroed = memset buffer.bytes 0 0 (512 * fat.bpb.sectors_per_cluster)
        disk_write_sectors d fat lba fat.bpb.sectors_per_cluster
            (dot_entries zeroed cluster parent.impl)
        release d buffer.address
        new_node (fat32_node name 0 vfs_directory cluster parent.impl Vfs.fat32 Vfs.fat32)

  unfoldable pub fat32_vfs_mkdir : (fuel : ℕ) → (parent : Option VfsNode) → Chars → Io W NewNode
  unfolding new_entry fill_directory
  fat32_vfs_mkdir fuel none name = pure none
  fat32_vfs_mkdir fuel (some parent) name = if not fat.fat32_ready then pure none else do
    o ← new_entry fuel parent name 16
    test_null o (pure none) (fill_directory parent name)

  unfoldable pub fat32_get_root : Io W NewNode
  unfolding new_node fat32_node
  fat32_get_root = new_node (
      fat32_node (λ i. get_or root_name i 0) 0 vfs_directory fat.bpb.root_cluster 0 Vfs.null
        Vfs.null)
