-- ===== src/Fat/Dir/ReadOnly.antt =====
-- The operations of kernel/fs/fat32/fat32.c that only read leave the disk as it is.
use khazaros.Base.{
  ℕ, zero, suc, ◌+◌, ◌-◌, ◌/◌, ◌%◌, ◌^◌, refl, Bool, true, false, not, ◌||◌, Option, none, some,
  ◌==◌, ltb, leb, if◌then◌else◌,
}
use khazaros.LibK.Memory.{Bytes}
use khazaros.LibK.Text.{Chars}
use khazaros.Vfs.{VfsNode}
use khazaros.Fat.{Io, pure, stuck, lift, ◌>>◌, Drivers, Fat32, release, disk_read_sectors}
use khazaros.Fat.Table.{end_of_chain, ends_chain, fat32_get_fat_entry}
use khazaros.Fat.Entry.{entries_per_cluster}
use khazaros.Fat.File.{
  cluster_size, search_name, read_entry, fat32_read_file, skip_clusters, read_loop, read_from,
  fat32_vfs_read,
}
use khazaros.Fat.Dir.{new_node, node_at_entry, fat32_vfs_readdir, fat32_vfs_finddir}
use khazaros.Fat.Volume.{
  IsQuiet, Keeps, Keeps-then, release-Keeps, disk_read_sectors-Keeps, with_buffer-Keeps,
}

module _ {W : Type 0} (d : Drivers W) (fat : Fat32) (disk : W → Bytes)
    (quiet : IsQuiet d disk) where
  pure-Keeps : {A : Type 0} (a : A) → Keeps disk (pure a)
  pure-Keeps a = record { leaves = λ w. refl }

  stuck-Keeps : {A : Type 0} → Keeps disk (stuck {W = W} {A = A})
  stuck-Keeps = record { leaves = λ w. tt }

  lift-Keeps : {A : Type 0} (o : Option A) → Keeps disk (lift {W = W} o)
  lift-Keeps none = record { leaves = λ w. tt }
  lift-Keeps (some a) = record { leaves = λ w. refl }

  if-Keeps :
      {A : Type 0} (t : Bool) (m n : Io W A)
      → Keeps disk m
      → Keeps disk n
      → Keeps disk (if t then m else n)
  if-Keeps true m n hm hn = hm
  if-Keeps false m n hm hn = hn

  -- The end of a function that has a buffer.
  released-Keeps : {A : Type 0} (address : ℕ) (a : A) → Keeps disk (release d address >> pure a)
  released-Keeps address a =
      Keeps-then disk (release d address) _ (release-Keeps d disk quiet address) λ t. pure-Keeps a

  fat32_get_fat_entry-Keeps : (c : ℕ) → Keeps disk (fat32_get_fat_entry d fat c)
  unfolding fat32_get_fat_entry
  fat32_get_fat_entry-Keeps c =
      with_buffer-Keeps d disk quiet 512 _ _ (pure-Keeps end_of_chain) λ b.
        Keeps-then disk (disk_read_sectors d fat _ 1 b.bytes) _
          (disk_read_sectors-Keeps d disk quiet fat _ 1 b.bytes) λ r. released-Keeps b.address _

  new_node-Keeps : (node : VfsNode) → Keeps disk (new_node d fat node)
  unfolding new_node
  new_node-Keeps node = with_buffer-Keeps d disk quiet 200 _ _ stuck-Keeps λ b. pure-Keeps _

  node_at_entry-Keeps :
      (o : Option ℕ) (b : Bytes) (name : ℕ → Chars) (inode : ℕ)
      → Keeps disk (node_at_entry d fat o b name inode)
  unfolding node_at_entry
  node_at_entry-Keeps none b name inode = pure-Keeps none
  node_at_entry-Keeps (some i) b name inode = new_node-Keeps _

  fat32_vfs_readdir-Keeps :
      (node : VfsNode) (index : ℕ) → Keeps disk (fat32_vfs_readdir d fat node index)
  unfolding fat32_vfs_readdir
  fat32_vfs_readdir-Keeps node index = if-Keeps _ _ _ (pure-Keeps none) (
      with_buffer-Keeps d disk quiet _ _ _ (pure-Keeps none) λ b.
        Keeps-then disk (disk_read_sectors d fat _ fat.bpb.sectors_per_cluster b.bytes) _
          (disk_read_sectors-Keeps d disk quiet fat _ _ b.bytes)
          λ r.
            Keeps-then disk (node_at_entry d fat _ r.1 _ node.impl) _
              (node_at_entry-Keeps _ r.1 _ node.impl) λ res. released-Keeps b.address res)

  fat32_vfs_finddir-Keeps :
      (fuel : ℕ) (node : VfsNode) (name : Chars)
      → Keeps disk (fat32_vfs_finddir d fat fuel node name)
  unfolding fat32_vfs_finddir
  fat32_vfs_finddir-Keeps fuel node name = if-Keeps _ _ _ (pure-Keeps none) (
      with_buffer-Keeps d disk quiet _ _ _ (pure-Keeps none) λ b.
        Keeps-then disk (disk_read_sectors d fat _ fat.bpb.sectors_per_cluster b.bytes) _
          (disk_read_sectors-Keeps d disk quiet fat _ _ b.bytes)
          λ r.
            Keeps-then disk (lift (search_name fuel (entries_per_cluster fat) 0 r.1 name)) _
              (lift-Keeps _)
              λ slot.
                Keeps-then disk (node_at_entry d fat slot r.1 _ node.impl) _
                  (node_at_entry-Keeps slot r.1 _ node.impl) λ res. released-Keeps b.address res)

  read_entry-Keeps : (o : Option ℕ) (b : Bytes) → Keeps disk (read_entry d fat o b)
  unfolding read_entry
  read_entry-Keeps none b = pure-Keeps none
  read_entry-Keeps (some i) b = with_buffer-Keeps d disk quiet _ _ _ (pure-Keeps none) λ f.
      Keeps-then disk (disk_read_sectors d fat _ _ f.bytes) _
        (disk_read_sectors-Keeps d disk quiet fat _ _ f.bytes) λ r. pure-Keeps _

  fat32_read_file-Keeps : (fuel : ℕ) (name : Chars) → Keeps disk (fat32_read_file d fat fuel name)
  unfolding fat32_read_file
  fat32_read_file-Keeps fuel name = if-Keeps _ _ _ (pure-Keeps none) (
      with_buffer-Keeps d disk quiet _ _ _ (pure-Keeps none) λ b.
        Keeps-then disk (disk_read_sectors d fat _ fat.bpb.sectors_per_cluster b.bytes) _
          (disk_read_sectors-Keeps d disk quiet fat _ _ b.bytes)
          λ r. Keeps-then disk (lift (search_name fuel 16 0 r.1 name)) _ (lift-Keeps _) λ slot.
            Keeps-then disk (read_entry d fat slot r.1) _ (read_entry-Keeps slot r.1)
              λ res. released-Keeps b.address res)

  skip_clusters-Keeps : (left c : ℕ) → Keeps disk (skip_clusters d fat left c)
  unfolding skip_clusters
  skip_clusters-Keeps zero c = pure-Keeps (some c)
  skip_clusters-Keeps (suc left) c =
      Keeps-then disk (fat32_get_fat_entry d fat c) _ (fat32_get_fat_entry-Keeps c)
        λ next. if-Keeps (ends_chain next) _ _ (pure-Keeps none) (skip_clusters-Keeps left next)

  read_loop-Keeps :
      (fuel size n c offset : ℕ) (temp buffer : Bytes)
      → Keeps disk (read_loop d fat fuel size n c offset temp buffer)
  unfolding read_loop
  read_loop-Keeps zero size n c offset temp buffer = stuck-Keeps
  read_loop-Keeps (suc fuel) size n c offset temp buffer =
      if-Keeps _ _ _
        (Keeps-then disk (disk_read_sectors d fat _ fat.bpb.sectors_per_cluster temp) _
          (disk_read_sectors-Keeps d disk quiet fat _ _ temp)
          λ r.
            Keeps-then disk (if _ then fat32_get_fat_entry d fat c else pure c) _
              (if-Keeps _ _ _ (fat32_get_fat_entry-Keeps c) (pure-Keeps c))
              λ next. read_loop-Keeps fuel size _ next 0 r.1 _)
        (pure-Keeps (n, buffer))

  read_from-Keeps :
      (fuel size : ℕ) (o : Option ℕ) (offset : ℕ) (buffer : Bytes)
      → Keeps disk (read_from d fat fuel size o offset buffer)
  unfolding read_from
  read_from-Keeps fuel size none offset buffer = pure-Keeps (0, buffer)
  read_from-Keeps fuel size (some c) offset buffer =
      with_buffer-Keeps d disk quiet _ _ _ (pure-Keeps (0, buffer)) λ temp.
        Keeps-then disk (read_loop d fat fuel size 0 c offset temp.bytes buffer) _
          (read_loop-Keeps fuel size 0 c offset temp.bytes buffer)
          λ r. released-Keeps temp.address r

  fat32_vfs_read-Keeps :
      (fuel : ℕ) (node : VfsNode) (offset size : ℕ) (buffer : Bytes)
      → Keeps disk (fat32_vfs_read d fat fuel node offset size buffer)
  unfolding fat32_vfs_read
  fat32_vfs_read-Keeps fuel node offset size buffer =
      if-Keeps (not fat.fat32_ready || node.length == 0 || size == 0) _ _ (pure-Keeps (0, buffer)) (
        if-Keeps (leb node.length offset) _ _ (pure-Keeps (0, buffer)) (
          if-Keeps (cluster_size fat == 0) _ _ stuck-Keeps (
            Keeps-then disk (skip_clusters d fat (offset / cluster_size fat) node.impl) _
              (skip_clusters-Keeps (offset / cluster_size fat) node.impl)
              λ o.
                read_from-Keeps fuel
                  (if ltb node.length ((offset + size) % 2 ^ 32)
                    then node.length - offset
                    else size)
                  o (offset % cluster_size fat) buffer)))

  -- Looking up a name, listing, and reading leave the disk as it is, whether the heap and the reads
  -- work or not, if only a write changes the disk.
  pub reads-Keeps :
      (fuel : ℕ) (node : VfsNode) (name : Chars) (index offset size : ℕ) (buffer : Bytes)
      → Keeps disk (fat32_vfs_finddir d fat fuel node name)
        × Keeps disk (fat32_vfs_readdir d fat node index)
        × Keeps disk (fat32_vfs_read d fat fuel node offset size buffer)
        × Keeps disk (fat32_read_file d fat fuel name)
  reads-Keeps fuel node name index offset size buffer = (
    fat32_vfs_finddir-Keeps fuel node name,
    fat32_vfs_readdir-Keeps node index,
    fat32_vfs_read-Keeps fuel node offset size buffer,
    fat32_read_file-Keeps fuel name,
  )
