-- ===== src/Fat/Dir/Created.antt =====
-- `fat32_create_entry` and `fat32_vfs_finddir` of kernel/fs/fat32/fat32.c on the bytes of the disk:
-- a new entry is found.
use khazaros.Base.{
  ℕ, ◌+◌, ◌*◌, ◌<◌, ◌≡◌, ◌≢◌, refl, sym, ap, ◌∙◌, true, false, Option, none, some, arith,
  Option-cases, inl, inr,
}
use mathlib.Core.Option
use mathlib.Core.Option.{none-ne-some}
use khazaros.Base.Search.{find_from, find_from-congruent}
use khazaros.LibK.Memory.{Bytes, memset}
use khazaros.LibK.Text.{Chars}
use khazaros.Vfs.{VfsNode}
use khazaros.Fat.{
  Io, and_then, ◌>>=◌, Buffer, Drivers, Fat32, with_buffer, disk_read_sectors, disk_write_sectors,
}
use khazaros.Fat.Name.{format_fat_name}
use khazaros.Fat.Name.Ends.{format_fat_name-ends}
use khazaros.Fat.Table.{cluster_to_lba}
use khazaros.Fat.Entry.{
  is_unused, entries_per_cluster, set_fields, fill_slot, write_slot, fat32_create_entry,
}
use khazaros.Fat.Runs.{Ends, pure-Ends}
use khazaros.Fat.Volume.{
  get_sectors, put_sectors, IsReliable, Gives, Gives-then, with_buffer-Gives, released-Gives,
  disk_read_sectors-Gives, disk_write_sectors-Gives,
}

-- the bytes of the first cluster of a directory, and of what follows it on the disk
abbrev pub directory : Fat32 → Bytes → VfsNode → Bytes
directory fat m node i = m (512 * cluster_to_lba fat node.impl + i)

pub get_sectors-at :
    (m b : Bytes) (lba count i : ℕ)
    → i < 512 * count
    → get_sectors m lba count b i ≡ m (512 * lba + i)
unfolding get_sectors
get_sectors-at m b lba count i h = ground arith

pub put_sectors-at :
    (m b : Bytes) (lba count i : ℕ)
    → i < 512 * count
    → put_sectors m lba count b (512 * lba + i) ≡ b i
unfolding put_sectors
put_sectors-at m b lba count i h = ground arith

pub is_unused-congruent :
    (b b' : Bytes) (j : ℕ) → b (32 * j + 0) ≡ b' (32 * j + 0) → is_unused b j ≡ is_unused b' j
unfolding is_unused
is_unused-congruent b b' j h = rw h refl

-- A buffer that holds the directory has its first unused slot.
first_unused-read :
    (m b : Bytes) (fat : Fat32) (node : VfsNode)
    → find_from
        (is_unused (get_sectors m (cluster_to_lba fat node.impl) fat.bpb.sectors_per_cluster b))
        (entries_per_cluster fat)
        0
      ≡ find_from (is_unused (directory fat m node)) (entries_per_cluster fat) 0
first_unused-read m b fat node = find_from-congruent _ _ (entries_per_cluster fat) 0 λ k p q.
    is_unused-congruent _ _ k (
      get_sectors-at m b (cluster_to_lba fat node.impl) fat.bpb.sectors_per_cluster (32 * k + 0)
        (omega arith))

module _ {W : Type 0} (d : Drivers W) (fat : Fat32) (disk : W → Bytes)
    (works : IsReliable d fat disk) where
  pub with_buffer-Ends :
      {A : Type 0} (P : A → W → Type 0) (n : ℕ) (z : Io W A) (k : Buffer → Io W A) (w : W)
      → ((b : Buffer) (w₁ : W) → disk w₁ ≡ disk w → Ends P (k b w₁))
      → Ends P (with_buffer d n z k w)
  unfolding with_buffer
  with_buffer-Ends P n z k w h = elim (Option-cases (d.kmalloc n w).0) [
    | inl e ↦ absurd (works.kmalloc n w e)
    | inr (b, e) ↦ rw e (h b (d.kmalloc n w).1 (works.quiet.kmalloc n w))
  ]

  pub Gives-Ends :
      {A B : Type 0} (P : B → W → Type 0) (m : Io W A) (k : A → Io W B) (w : W) (a : A) (x : Bytes)
      → Gives disk (m w) a x
      → ((w₁ : W) → disk w₁ ≡ x → Ends P (k a w₁))
      → Ends P ((m >>= k) w)
  Gives-Ends P m k w a x h g =
      let r = g h.world h.leaves in
      record {
        value = r.value;
        world = r.world;
        run = ap (λ o. and_then o k) h.run ∙ r.run;
        holds = r.holds;
      }

  -- A directory without an unused slot takes no entry.
  pub fat32_create_entry-full :
      (fuel : ℕ) (parent : VfsNode) (name : Chars) (attr c size : ℕ) (w : W) (m : Bytes)
      → disk w ≡ m
      → fat.bpb.sectors_per_cluster < 256
      → find_from (is_unused (directory fat m parent)) (entries_per_cluster fat) 0 ≡ none
      → Gives disk (fat32_create_entry d fat fuel parent name attr c size w) false m
  unfolding fat32_create_entry write_slot
  fat32_create_entry-full fuel parent name attr c size w m e₀ h full =
      with_buffer-Gives d fat disk works _ _ _ w _ _ λ b w₁ e₁.
        Gives-then disk (disk_read_sectors d fat _ fat.bpb.sectors_per_cluster b.bytes) _ w₁ _ _ _ _
          (disk_read_sectors-Gives d fat disk works _ fat.bpb.sectors_per_cluster b.bytes w₁ h)
          λ w₂ e₂.
            rw (first_unused-read (disk w₁) b.bytes fat parent, e₁, e₀, full)
              (released-Gives d fat disk works b.address false false w₂ m refl (e₂ ∙ e₁ ∙ e₀))

-- The directory's sectors, with the slot filled in a buffer that held them.
pub record IsFilled (fat : Fat32) (fuel : ℕ) (m : Bytes) (parent : VfsNode) (slot : ℕ)
    (name : Chars) (attr c size : ℕ) (m' : Bytes) : Type 0 where
  pub read : Bytes
  pub filled : Bytes
  pub reads : (i : ℕ) → i < 512 * fat.bpb.sectors_per_cluster → read i ≡ directory fat m parent i
  pub fills : fill_slot fuel read slot name attr c size ≡ some filled
  pub writes :
      m' ≡ put_sectors m (cluster_to_lba fat parent.impl) fat.bpb.sectors_per_cluster filled

fill_slot-ends :
    (fuel k : ℕ) (b : Bytes) (slot : ℕ) (name : Chars) (attr c size : ℕ)
    → name k ≡ 0
    → k < fuel
    → fill_slot fuel b slot name attr c size ≢ none
unfolding fill_slot
fill_slot-ends fuel k b slot name attr c size e h =
    some_map (format_fat_name fuel name (memset b (32 * slot) 0 32) (32 * slot))
      (format_fat_name-ends fuel k name (memset b (32 * slot) 0 32) (32 * slot) e h)
  where
    some_map :
        (o : Option Bytes)
        → o ≢ none
        → Option.map (λ m. set_fields m (32 * slot) attr c size) o ≢ none
    some_map none n x = n refl
    some_map (some m) n x = none-ne-some (set_fields m (32 * slot) attr c size) (sym x)

module _ {W : Type 0} (d : Drivers W) (fat : Fat32) (disk : W → Bytes)
    (works : IsReliable d fat disk) where
  pub fat32_create_entry-Ends :
      (fuel k : ℕ) (parent : VfsNode) (name : Chars) (attr c size slot : ℕ) (w : W)
      → fat.bpb.sectors_per_cluster < 256
      → find_from (is_unused (directory fat (disk w) parent)) (entries_per_cluster fat) 0
        ≡ some slot
      → name k ≡ 0
      → k < fuel
      → Ends
          (λ done w'.
            (done ≡ true) × IsFilled fat fuel (disk w) parent slot name attr c size (disk w'))
          (fat32_create_entry d fat fuel parent name attr c size w)
  unfolding fat32_create_entry write_slot
  fat32_create_entry-Ends fuel k parent name attr c size slot w h first e₀ k_fuel =
      with_buffer-Ends d fat disk works _ _ _ _ w λ b w₁ e₁.
        Gives-Ends d fat disk works _
          (disk_read_sectors d fat _ fat.bpb.sectors_per_cluster b.bytes) _ w₁ _ _
          (disk_read_sectors-Gives d fat disk works _ fat.bpb.sectors_per_cluster b.bytes w₁ h)
          λ w₂ e₂.
            rw (first_unused-read (disk w₁) b.bytes fat parent, e₁, first)
              (elim (Option-cases (fill_slot fuel (bytes_read b) slot name attr c size)) [
                | inl none_filled ↦ absurd (
                    fill_slot-ends fuel k (bytes_read b) slot name attr c size e₀ k_fuel
                      none_filled)
                | inr (filled, e) ↦ rw e (
                    Gives-Ends d fat disk works _
                      (disk_write_sectors d fat _ fat.bpb.sectors_per_cluster filled) _ w₂ _ _
                      (disk_write_sectors-Gives d fat disk works _ fat.bpb.sectors_per_cluster
                        filled w₂ h)
                      λ w₃ e₃. pure-Ends _ true (d.kfree b.address w₃) (
                        refl,
                        record {
                          read = bytes_read b;
                          filled = filled;
                          reads = λ i p. get_sectors-at (disk w) b.bytes _ _ i p;
                          fills = e;
                          writes =
                              works.quiet.kfree b.address w₃
                              ∙ e₃
                              ∙ ap
                                  (λ m.
                                    put_sectors m (cluster_to_lba fat parent.impl)
                                      fat.bpb.sectors_per_cluster filled)
                                  (e₂ ∙ e₁);
                        },
                      ))
              ])
    where
      bytes_read : Buffer → Bytes
      bytes_read b =
          get_sectors (disk w) (cluster_to_lba fat parent.impl) fat.bpb.sectors_per_cluster b.bytes
