-- ===== src/Fat/Table/Entries.antt =====
-- What `fat32_get_fat_entry` and `fat32_set_fat_entry` of kernel/fs/fat32/fat32.c read and write on
-- the disk.
use khazaros.Base.{
  ℕ, zero, suc, ◌+◌, ◌%◌, ◌^◌, ◌≤◌, ◌≡◌, refl, sym, ap, ◌∙◌, true, arith, ◌==◌, if◌then◌else◌,
}
use khazaros.LibK.Memory.{Bytes, load32, store32}
use khazaros.Fat.{◌>>◌, Drivers, Fat32, disk_read_sectors, disk_write_sectors}
use khazaros.Fat.Table.{
  fat_sector_offset, fat_offset, fat32_get_fat_entry, set_copies, fat32_set_fat_entry,
}
use khazaros.Fat.Volume.{
  get_sectors, put_sectors, IsReliable, Gives, Gives-then, Gives-leaves, Gives-value,
  released-Gives, with_buffer-Gives, disk_read_sectors-Gives, disk_write_sectors-Gives,
}
use khazaros.Fat.Table.Dwords.{sector_write, sector_read}
use khazaros.Fat.Table.Copies.{
  IsVolume, InTable, entry_address, table_entry, copy_sector, entry_sector, first_sector,
  offset_fits, write_copies, IsWritten, write_copies-IsWritten,
}

module _ {W : Type 0} (d : Drivers W) (fat : Fat32) (disk : W → Bytes)
    (works : IsReliable d fat disk) (v : IsVolume fat) where
  pub fat32_get_fat_entry-Gives :
      (c : ℕ) (w : W)
      → InTable fat c
      → Gives disk (fat32_get_fat_entry d fat c w) (table_entry fat (disk w) 0 c % 2 ^ 28) (disk w)
  unfolding fat32_get_fat_entry
  fat32_get_fat_entry-Gives c w t = with_buffer-Gives d fat disk works 512 _ _ w _ _ λ b w₁ e₁.
      Gives-then disk (disk_read_sectors d fat _ 1 b.bytes) _ w₁ _ _ _ _
        (disk_read_sectors-Gives d fat disk works _ 1 b.bytes w₁ (omega arith))
        λ w₂ e₂. released-Gives d fat disk works b.address _ _ w₂ _ (value b.bytes w₁ e₁) (e₂ ∙ e₁)
    where
      value :
          (b : Bytes) (w₁ : W)
          → disk w₁ ≡ disk w
          → load32
                (get_sectors
                  (disk w₁)
                  ((fat.bpb.reserved_sectors + fat_sector_offset c) % 2 ^ 32)
                  1
                  b)
                (fat_offset c)
              % 2 ^ 28
            ≡ table_entry fat (disk w) 0 c % 2 ^ 28
      value b w₁ e = rw e (
          ap (λ x. x % 2 ^ 28)
            (sector_read (disk w) b ((fat.bpb.reserved_sectors + fat_sector_offset c) % 2 ^ 32)
                (fat_offset c) (offset_fits c)
              ∙ unfold table_entry in ap (load32 (disk w)) (first_sector fat c v t)))

  set_copies-Gives :
      (left i c x : ℕ) (b : Bytes) (w : W)
      → InTable fat c
      → i + left ≤ fat.bpb.fat_count
      → Gives disk (set_copies d fat left i c x b w) true (write_copies fat left i c x (disk w))
  unfolding set_copies write_copies
  set_copies-Gives zero i c x b w t h = record { world = w; run = refl; leaves = refl }
  set_copies-Gives (suc left) i c x b w t h =
      Gives-then disk (disk_read_sectors d fat _ 1 b) _ w _ _ _ _
        (disk_read_sectors-Gives d fat disk works _ 1 b w (omega arith))
        λ w₁ e₁.
          Gives-then disk (disk_write_sectors d fat _ 1 _) _ w₁ _ _ _ _
            (disk_write_sectors-Gives d fat disk works _ 1 _ w₁ (omega arith))
            λ w₂ e₂.
              Gives-leaves disk _ true _ _
                (ap (λ m. write_copies fat left (i + 1) c x m) (e₂ ∙ written w₁ e₁))
                (set_copies-Gives left (i + 1) c x _ w₂ t (omega arith))
    where
      written :
          (w₁ : W)
          → disk w₁ ≡ disk w
          → put_sectors
              (disk w₁)
              (copy_sector fat i c)
              1
              (store32 (get_sectors (disk w) (copy_sector fat i c) 1 b) (fat_offset c) (x % 2 ^ 28))
            ≡ store32 (disk w) (entry_address fat i c) (x % 2 ^ 28)
      written w₁ e = rw e (
          sector_write (disk w) b (copy_sector fat i c) (fat_offset c) (x % 2 ^ 28) (offset_fits c)
          ∙ ap (λ a. store32 (disk w) a (x % 2 ^ 28)) (entry_sector fat i c v (omega arith) t))

  pub fat32_set_fat_entry-Gives :
      (c x : ℕ) (w : W)
      → InTable fat c
      → Gives disk
          (fat32_set_fat_entry d fat c x w)
          true
          (write_copies fat fat.bpb.fat_count 0 c x (disk w))
  unfolding fat32_set_fat_entry
  fat32_set_fat_entry-Gives c x w t = with_buffer-Gives d fat disk works 512 _ _ w _ _ λ b w₁ e₁.
      Gives-then disk (set_copies d fat fat.bpb.fat_count 0 c x b.bytes) _ w₁ _ _ _ _
        (set_copies-Gives fat.bpb.fat_count 0 c x b.bytes w₁ t (omega arith))
        λ w₂ e₂.
          released-Gives d fat disk works b.address _ _ w₂ _ refl
            (e₂ ∙ ap (λ m. write_copies fat fat.bpb.fat_count 0 c x m) e₁)

  -- With a heap that has memory and a drive that works, on a volume whose tables fit, writing the
  -- entry of a cluster succeeds and leaves a disk where every copy of the table has the value, cut
  -- to 28 bits, as the entry of that cluster, every other entry is as it was, and so is every byte
  -- outside the tables.
  pub fat32_set_fat_entry-IsWritten :
      (c x : ℕ) (w : W)
      → InTable fat c
      → let m = write_copies fat fat.bpb.fat_count 0 c x (disk w) in
        Gives disk (fat32_set_fat_entry d fat c x w) true m × IsWritten fat (disk w) c x m
  fat32_set_fat_entry-IsWritten c x w t =
      (fat32_set_fat_entry-Gives c x w t, write_copies-IsWritten fat c x (disk w) t)

  -- The same, with the disk under a name.
  pub fat32_get_fat_entry-at :
      (c : ℕ) (w : W) (m : Bytes)
      → disk w ≡ m
      → InTable fat c
      → Gives disk (fat32_get_fat_entry d fat c w) (table_entry fat m 0 c % 2 ^ 28) m
  fat32_get_fat_entry-at c w m e t = rw (sym e) (fat32_get_fat_entry-Gives c w t)

  pub fat32_set_fat_entry-at :
      (c x : ℕ) (w : W) (m : Bytes)
      → disk w ≡ m
      → InTable fat c
      → Gives disk
          (fat32_set_fat_entry d fat c x w)
          true
          (write_copies fat fat.bpb.fat_count 0 c x m)
  fat32_set_fat_entry-at c x w m e t = rw (sym e) (fat32_set_fat_entry-Gives c x w t)

  -- An entry that was written is read back, cut to 28 bits, and the entries of other clusters are
  -- read as before, on a volume whose tables fit, with a heap that has memory and a drive that
  -- works.
  pub fat32_get_fat_entry-set :
      (c c' x : ℕ) (w : W)
      → InTable fat c
      → InTable fat c'
      → Gives disk
          ((fat32_set_fat_entry d fat c x >> fat32_get_fat_entry d fat c') w)
          (if c' == c then x % 2 ^ 28 else table_entry fat (disk w) 0 c' % 2 ^ 28)
          (write_copies fat fat.bpb.fat_count 0 c x (disk w))
  fat32_get_fat_entry-set c c' x w t t' =
      Gives-then disk (fat32_set_fat_entry d fat c x) _ w _ _ _ _
        (fat32_set_fat_entry-Gives c x w t)
        λ w₁ e₁. Gives-value disk _ _ _ _ value (fat32_get_fat_entry-at c' w₁ m e₁ t')
    where
      m : Bytes
      m = write_copies fat fat.bpb.fat_count 0 c x (disk w)

      value :
          table_entry fat m 0 c' % 2 ^ 28
          ≡ (if c' == c then x % 2 ^ 28 else table_entry fat (disk w) 0 c' % 2 ^ 28)
      value =
          let e = (write_copies-IsWritten fat c x (disk w) t).entries 0 c' v.some_copy t' in
          ground (arith, e)
