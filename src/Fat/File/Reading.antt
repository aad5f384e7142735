-- ===== src/Fat/File/Reading.antt =====
-- `fat32_vfs_read` of kernel/fs/fat32/fat32.c comes back, and keeps to the file and to the buffer.
use khazaros.Base.{
  ℕ, zero, suc, ◌+◌, ◌-◌, ◌/◌, ◌%◌, ◌^◌, ◌≤◌, ◌<◌, ◌≡◌, refl, ◌∙◌, min, Bool, true, false, not,
  ◌&&◌, ◌||◌, Option, none, some, arith, ◌==◌, ltb, leb, if◌then◌else◌, Bool-cases, inl, inr,
}
use native.Mathlib.Nat.{mod-lt}
use khazaros.LibK.Memory.{Bytes}
use khazaros.Vfs.{VfsNode}
use khazaros.Fat.{Io, pure, Drivers, Fat32, disk_read_sectors}
use khazaros.Fat.Table.{ends_chain, cluster_to_lba, fat32_get_fat_entry}
use khazaros.Fat.File.{
  copy_between, cluster_size, skip_clusters, read_loop, read_from, fat32_vfs_read,
}
use khazaros.Fat.Runs.{
  Runs, Any, pure-Runs, Runs-then, with_buffer-Runs, disk_read_sectors-Runs,
  fat32_get_fat_entry-Runs,
}

-- What a read of at most `size` bytes returns: no more than these, and a buffer that differs from
-- the caller's only in the bytes that were read.
pub record IsRead (size : ℕ) (buffer : Bytes) (r : ℕ × Bytes) : Type 0 where
  pub count : r.0 ≤ size
  pub frame : (b : ℕ) → r.0 ≤ b → r.1 b ≡ buffer b

copy_between-after :
    (m : Bytes) (a : ℕ) (src : Bytes) (s n b : ℕ) → a + n ≤ b → copy_between m a src s n b ≡ m b
unfolding copy_between
copy_between-after m a src s n b h = ground arith

module _ {W : Type 0} (d : Drivers W) (fat : Fat32) where
  abbrev next_cluster_of : Bool → (cluster : ℕ) → Io W ℕ
  next_cluster_of more cluster = if more then fat32_get_fat_entry d fat cluster else pure cluster

  next_cluster-Runs :
      (more : Bool) (cluster : ℕ) (w : W) → Runs Any (next_cluster_of more cluster w)
  next_cluster-Runs true cluster w = fat32_get_fat_entry-Runs d fat cluster w
  next_cluster-Runs false cluster w = pure-Runs Any cluster w tt

  read_loop-Runs :
      (fuel real_size n cluster offset : ℕ) (temp buffer : Bytes) (w : W)
      → n ≤ real_size
      → real_size - n < fuel
      → offset < cluster_size fat
      → (b₀ : Bytes) → ((b : ℕ) → n ≤ b → buffer b ≡ b₀ b)
      → Runs (IsRead real_size b₀) (read_loop d fat fuel real_size n cluster offset temp buffer w)
  unfolding read_loop
  read_loop-Runs zero real_size n cluster offset temp buffer w h f o b₀ same = absurd (omega arith)
  read_loop-Runs (suc fuel) real_size n cluster offset temp buffer w h f o b₀ same =
      elim (Bool-cases (ltb n real_size && leb 2 cluster && not (ends_chain cluster))) [
        | inl going ↦ rw going (
            Runs-then Any _
              (disk_read_sectors d fat (cluster_to_lba fat cluster) fat.bpb.sectors_per_cluster
                temp)
              _ w (disk_read_sectors-Runs d fat _ _ temp w)
              λ r w₁ t.
                Runs-then Any _ (next_cluster_of (ltb (n + step) real_size) cluster) _ w₁
                  (next_cluster-Runs (ltb (n + step) real_size) cluster w₁)
                  λ next w₂ t'.
                    read_loop-Runs fuel real_size (n + step) next 0 r.1
                      (copy_between buffer n r.1 offset step) w₂ (omega arith)
                      (ground (arith, going)) (omega arith) b₀
                      λ b q. copy_between-after buffer n r.1 offset step b q ∙ same b (omega arith))
        | inr over ↦ rw over (pure-Runs _ (n, buffer) w (record { count = h; frame = same }))
      ]
    where
      step : ℕ
      step = min (cluster_size fat - offset) (real_size - n)

  nothing-IsRead :
      (size : ℕ) (buffer : Bytes) (w : W) → Runs (IsRead size buffer) (pure (0, buffer) w)
  nothing-IsRead size buffer w =
      pure-Runs _ (0, buffer) w (record { count = omega arith; frame = λ b q. refl })

  skip_clusters-Runs : (left cluster : ℕ) (w : W) → Runs Any (skip_clusters d fat left cluster w)
  unfolding skip_clusters
  skip_clusters-Runs zero cluster w = pure-Runs Any (some cluster) w tt
  skip_clusters-Runs (suc left) cluster w =
      Runs-then Any Any (fat32_get_fat_entry d fat cluster) _ w
        (fat32_get_fat_entry-Runs d fat cluster w)
        λ next w₁ t. elim (Bool-cases (ends_chain next)) [
          | inl e ↦ rw e (pure-Runs Any none w₁ tt)
          | inr ne ↦ rw ne (skip_clusters-Runs left next w₁)
        ]

  read_from-Runs :
      (fuel real_size : ℕ) (o : Option ℕ) (offset : ℕ) (buffer : Bytes) (w : W)
      → real_size < fuel
      → offset < cluster_size fat
      → Runs (IsRead real_size buffer) (read_from d fat fuel real_size o offset buffer w)
  unfolding read_from
  read_from-Runs fuel real_size none offset buffer w f o = nothing-IsRead real_size buffer w
  read_from-Runs fuel real_size (some cluster) offset buffer w f o =
      with_buffer-Runs d _ (cluster_size fat) _ _ w (nothing-IsRead real_size buffer) λ temp w₁.
        Runs-then (IsRead real_size buffer) _
          (read_loop d fat fuel real_size 0 cluster offset temp.bytes buffer) _ w₁
          (read_loop-Runs fuel real_size 0 cluster offset temp.bytes buffer w₁ (omega arith)
            (omega arith) o buffer (λ b q. refl))
          λ r w₂ h. pure-Runs _ r _ h

  -- Where offset + size is below 2 ^ 32 and the clusters are not empty, on fuel above the size, a
  -- read returns, whatever the heap and the drives do and however the chain of clusters runs. It has
  -- not read more bytes than were asked for, nor more than the file has behind the offset, and it has
  -- left the caller's buffer behind these bytes.
  pub fat32_vfs_read-IsRead :
      (fuel : ℕ) (node : VfsNode) (offset size : ℕ) (buffer : Bytes) (w : W)
      → 0 < fat.bpb.sectors_per_cluster
      → size < fuel
      → offset + size < 2 ^ 32
      → Runs
          (IsRead (min size (node.length - offset)) buffer)
          (fat32_vfs_read d fat fuel node offset size buffer w)
  unfolding fat32_vfs_read
  fat32_vfs_read-IsRead fuel node offset size buffer w c f h =
      elim (Bool-cases (not fat.fat32_ready || node.length == 0 || size == 0)) [
        | inl e ↦ rw e (nothing-IsRead _ buffer w)
        | inr e ↦ rw e (elim (Bool-cases (leb node.length offset)) [
          | inl past ↦ rw past (nothing-IsRead _ buffer w)
          | inr within ↦
              rw (within, not_empty)
                (Runs-then Any _ (skip_clusters d fat (offset / cluster_size fat) node.impl) _ w
                  (skip_clusters-Runs (offset / cluster_size fat) node.impl w)
                  λ o w₁ t. rw (real within) (
                    read_from-Runs fuel (min size (node.length - offset)) o
                      (offset % cluster_size fat) buffer w₁ (omega arith)
                      (mod-lt offset (omega arith))))
        ])
      ]
    where
      not_empty : (cluster_size fat == 0) ≡ false
      not_empty = ground arith

      real :
          leb node.length offset ≡ false
          → (if ltb node.length ((offset + size) % 2 ^ 32) then node.length - offset else size)
            ≡ min size (node.length - offset)
      real e = ground (arith, e)
