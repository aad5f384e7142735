-- ===== src/Fat/File.antt =====
-- Files: `fat32_read_file`, `fat32_vfs_read` and `fat32_vfs_write`.
pub mod Reading
use khazaros.Base.{
  ℕ, zero, suc, ◌+◌, ◌-◌, ◌*◌, ◌/◌, ◌%◌, ◌^◌, min, Bool, true, false, not, ◌&&◌, ◌||◌, Option, none,
  some, ◌==◌, ltb, leb, if◌then◌else◌,
}
use khazaros.LibK.Memory.{Bytes}
use khazaros.LibK.Text.{Chars}
use khazaros.Vfs.{VfsNode}
use khazaros.Fat.{
  Io, pure, stuck, call, lift, test_null, ◌>>=◌, ◌>>◌, Buffer, Drivers, Bpb, Fat32, release,
  with_buffer, disk_read_sectors, disk_write_sectors,
}
use khazaros.Fat.Name.{fat32_compare_name}
use khazaros.Fat.Table.{
  end_of_chain, ends_chain, cluster_to_lba, fat32_get_fat_entry, fat32_set_fat_entry,
  fat32_allocate_cluster,
}
use khazaros.Fat.Entry.{entry_name, entry_cluster, entry_size, fat32_update_entry_size}

-- `memcpy` between two objects: `n` bytes from `s` of the one to `a` of the other
unfoldable pub copy_between : Bytes → (a : ℕ) → Bytes → (s n : ℕ) → Bytes
copy_between dest a src s n b = if leb a b && ltb b (a + n) then src (s + (b - a)) else dest b

-- One entry of a search: what the comparison says, the entry's number, and the rest of the search.
unfoldable pub found_or : Option Bool → (i : ℕ) → Option (Option ℕ) → Option (Option ℕ)
found_or none i rest = none
found_or (some true) i rest = some (some i)
found_or (some false) i rest = rest

-- The first entry of that name, up to an entry that was never used.
unfoldable pub search_name : (fuel left i : ℕ) → Bytes → Chars → Option (Option ℕ)
unfolding found_or
search_name fuel zero i buffer name = some none
search_name fuel (suc left) i buffer name =
    let rest = search_name fuel left (i + 1) buffer name in
    if entry_name buffer i 0 == 0
    then some none
    else found_or (fat32_compare_name fuel (entry_name buffer i) name) i rest

abbrev pub cluster_size : Fat32 → ℕ
cluster_size fat = fat.bpb.sectors_per_cluster * 512

module _ {W : Type 0} (d : Drivers W) (fat : Fat32) where
  -- The data of the entry that was found: NULL, or the address, the bytes and `*size`.
  unfoldable pub read_entry : Option ℕ → Bytes → Io W (Option (Buffer × ℕ))
  read_entry none buffer = pure none
  read_entry (some i) buffer =
      let size = entry_size buffer i in
      let sectors = (size + 511) % 2 ^ 32 / 512 in
      with_buffer d (sectors * 512 % 2 ^ 32) (pure none) λ file_data. do
        (ok, bytes) ←
            disk_read_sectors d fat (cluster_to_lba fat (entry_cluster buffer i)) sectors
              file_data.bytes
        pure (some (record file_data { bytes = bytes }, size))

  -- Only the first 16 entries are looked at, and the results of the reads are not.
  unfoldable pub fat32_read_file : (fuel : ℕ) → Chars → Io W (Option (Buffer × ℕ))
  unfolding search_name read_entry
  fat32_read_file fuel filename =
      if not fat.fat32_ready
      then pure none
      else with_buffer d (512 * fat.bpb.sectors_per_cluster) (pure none) λ buffer. do
        let root_lba = cluster_to_lba fat fat.bpb.root_cluster
        (ok, bytes) ← disk_read_sectors d fat root_lba fat.bpb.sectors_per_cluster buffer.bytes
        slot ← lift (search_name fuel 16 0 bytes filename)
        res ← read_entry slot bytes
        release d buffer.address
        pure res

  -- The cluster that is `left` further on, or `none` where the chain ends before.
  unfoldable pub skip_clusters : (left cluster : ℕ) → Io W (Option ℕ)
  skip_clusters zero cluster = pure (some cluster)
  skip_clusters (suc left) cluster = do
    next ← fat32_get_fat_entry d fat cluster
    if ends_chain next then pure none else skip_clusters left next

  -- The loop of `fat32_vfs_read`, on fuel: the bytes read, and the caller's buffer.
  unfoldable pub read_loop :
      (fuel real_size bytes_read cluster cluster_offset : ℕ)
      → (temp_buffer buffer : Bytes) → Io W (ℕ × Bytes)
  unfolding copy_between
  read_loop zero real_size bytes_read cluster cluster_offset temp_buffer buffer = stuck
  read_loop (suc fuel) real_size bytes_read cluster cluster_offset temp_buffer buffer =
      if ltb bytes_read real_size && leb 2 cluster && not (ends_chain cluster)
      then (do
        (ok, bytes) ←
            disk_read_sectors d fat (cluster_to_lba fat cluster) fat.bpb.sectors_per_cluster
              temp_buffer
        let to_copy = min (cluster_size fat - cluster_offset) (real_size - bytes_read)
        let buffer₁ = copy_between buffer bytes_read bytes cluster_offset to_copy
        let bytes_read₁ = bytes_read + to_copy
        next ← if ltb bytes_read₁ real_size then fat32_get_fat_entry d fat cluster else pure cluster
        read_loop fuel real_size bytes_read₁ next 0 bytes buffer₁)
      else pure (bytes_read, buffer)

  -- The read from a cluster on.
  unfoldable pub read_from :
      (fuel real_size : ℕ) → Option ℕ → (cluster_offset : ℕ) → (buffer : Bytes) → Io W (ℕ × Bytes)
  unfolding read_loop
  read_from fuel real_size none cluster_offset buffer = pure (0, buffer)
  read_from fuel real_size (some cluster) cluster_offset buffer =
      with_buffer d (cluster_size fat) (pure (0, buffer)) λ temp. do
        res ← read_loop fuel real_size 0 cluster cluster_offset temp.bytes buffer
        release d temp.address
        pure res

  -- A cluster of no bytes makes the code divide by zero.
  unfoldable pub fat32_vfs_read :
      (fuel : ℕ) → VfsNode → (offset size : ℕ) → (buffer : Bytes) → Io W (ℕ × Bytes)
  unfolding skip_clusters read_from
  fat32_vfs_read fuel node offset size buffer =
      if not fat.fat32_ready || node.length == 0 || size == 0
      then pure (0, buffer)
      else if leb node.length offset
      then pure (0, buffer)
      else if cluster_size fat == 0
      then stuck
      else do
        let real_size =
            if ltb node.length ((offset + size) % 2 ^ 32) then node.length - offset else size
        cluster ← skip_clusters (offset / cluster_size fat) node.impl
        read_from fuel real_size cluster (offset % cluster_size fat) buffer

  -- The next cluster of a chain, which grows by one where it ends; `none` where no cluster is free.
  unfoldable pub next_cluster : (cluster : ℕ) → Io W (Option ℕ)
  next_cluster cluster = do
    next ← fat32_get_fat_entry d fat cluster
    if not (ends_chain next) then pure (some next) else do
      new ← fat32_allocate_cluster d fat
      if new == end_of_chain
          then pure none
          else do fat32_set_fat_entry d fat cluster new; pure (some new)

  unfoldable pub extend_clusters : (left cluster : ℕ) → Io W (Option ℕ)
  unfolding next_cluster
  extend_clusters zero cluster = pure (some cluster)
  extend_clusters (suc left) cluster = do
    next ← next_cluster cluster
    test_null next (pure none) (extend_clusters left)

  -- The loop of `fat32_vfs_write`, on fuel: the bytes written.
  unfoldable pub write_loop :
      (fuel size bytes_written cluster cluster_offset : ℕ) → (temp_buffer buffer : Bytes) → Io W ℕ
  unfolding next_cluster copy_between
  write_loop zero size bytes_written cluster cluster_offset temp_buffer buffer = stuck
  write_loop (suc fuel) size bytes_written cluster cluster_offset temp_buffer buffer =
      if not (ltb bytes_written size) then pure bytes_written else do
        let lba = cluster_to_lba fat cluster
        let to_write = min (cluster_size fat - cluster_offset) (size - bytes_written)
        (ok, bytes) ←
            if ltb to_write (cluster_size fat)
            then disk_read_sectors d fat lba fat.bpb.sectors_per_cluster temp_buffer
            else pure (true, temp_buffer)
        let bytes₁ = copy_between bytes cluster_offset buffer bytes_written to_write
        disk_write_sectors d fat lba fat.bpb.sectors_per_cluster bytes₁
        let bytes_written₁ = bytes_written + to_write
        next ← if ltb bytes_written₁ size then next_cluster cluster else pure (some cluster)
        test_null next (pure bytes_written₁)
            λ c. write_loop fuel size bytes_written₁ c 0 bytes₁ buffer

  -- The node's first cluster, which is allocated where it has none.
  unfoldable pub first_cluster : VfsNode → Io W (Option VfsNode)
  first_cluster node = if not (node.impl == 0) then pure (some node) else do
    new ← fat32_allocate_cluster d fat
    if new == end_of_chain then pure none else pure (some (record node { impl = new }))

  -- The new length of the node, on the disk too.
  unfoldable pub grow_node : VfsNode → (end : ℕ) → Io W VfsNode
  grow_node node end = if not (ltb node.length end) then pure node else do
    fat32_update_entry_size d fat node.inode node.impl end
    pure (record node { length = end })

  unfoldable pub write_from :
      (fuel : ℕ) → VfsNode → (offset size : ℕ) → Option ℕ → (buffer : Bytes) → Io W (ℕ × VfsNode)
  unfolding write_loop grow_node
  write_from fuel node offset size none buffer = pure (0, node)
  write_from fuel node offset size (some cluster) buffer =
      with_buffer d (cluster_size fat) (pure (0, node)) λ temp. do
        n ← write_loop fuel size 0 cluster (offset % cluster_size fat) temp.bytes buffer
        release d temp.address
        node₁ ← grow_node node ((offset + n) % 2 ^ 32)
        pure (n, node₁)

  unfoldable pub fat32_vfs_write :
      (fuel : ℕ) → VfsNode → (offset size : ℕ) → (buffer : Bytes) → Io W (ℕ × VfsNode)
  unfolding first_cluster extend_clusters write_from
  fat32_vfs_write fuel node offset size buffer =
      if not fat.fat32_ready || size == 0 then pure (0, node) else do
        o ← first_cluster node
        test_null o (pure (0, node)) λ node₁. if cluster_size fat == 0 then stuck else do
          cluster ← extend_clusters (offset / cluster_size fat) node₁.impl
          write_from fuel node₁ offset size cluster buffer
