-- ===== src/Fat/Dir/Found.antt =====
-- An entry that `fat32_create_entry` of kernel/fs/fat32/fat32.c has written is found by
-- `fat32_vfs_finddir`, with the values that it was given.
use khazaros.Base.{
  ℕ, ◌+◌, ◌*◌, ◌^◌, ◌<◌, ◌≡◌, ◌≢◌, refl, sym, ap, ◌∙◌, bit_and, Bool, true, false, not, none, some,
  arith, ◌==◌, if◌then◌else◌, Option-cases, inl, inr, ne→==,
}
use mathlib.Core.Option.{none-ne-some, some-injective}
use khazaros.Base.Search.{find_from, find_from-congruent, find_from-some, IsFirst}
use khazaros.LibK.Memory.{Bytes, memset, load32}
use khazaros.LibK.Text.{Chars}
use khazaros.Vfs.{VfsNode, vfs_file, vfs_directory}
use khazaros.Vfs
use khazaros.Fat.{Io, pure, ◌>>=◌, Buffer, Drivers, Fat32, disk_read_sectors}
use khazaros.Fat.Name.{format_fat_name, fat32_compare_name}
use khazaros.Fat.Name.Ends.{format_fat_name-starts}
use khazaros.Fat.Table.{cluster_to_lba}
use khazaros.Fat.Entry.{
  entry_name, entry_attr, entry_cluster, entry_size, is_unused, entries_per_cluster, set_fields,
  fill_slot, fat32_create_entry,
}
use khazaros.Fat.Entry.Fields.{
  set_fields-other, set_fields-attr, set_fields-cluster, set_fields-size,
}
use khazaros.Fat.Entry.Find.{search_name-fill_slot, search_name-congruent, compare_congruent}
use khazaros.Fat.File.{search_name}
use khazaros.Fat.Dir.{NewNode, fat32_node, new_node, entry_node, node_at_entry, fat32_vfs_finddir}
use khazaros.Fat.Dir.Created.{
  directory, get_sectors-at, put_sectors-at, is_unused-congruent, with_buffer-Ends, Gives-Ends,
  IsFilled, fat32_create_entry-Ends,
}
use khazaros.Fat.Runs.{Ends, pure-Ends, Ends-then}
use khazaros.Fat.Volume.{get_sectors, IsReliable, Gives, disk_read_sectors-Gives}

-- the flags of a node, by the attributes of its entry
abbrev pub flags_of : (attr : ℕ) → ℕ
flags_of attr = if not (bit_and attr 16 == 0) then vfs_directory else vfs_file

-- what an entry says besides its name
record HasFields (b : Bytes) (slot attr c size : ℕ) : Type 0 where
  attr_is : entry_attr b slot ≡ attr
  cluster_is : entry_cluster b slot ≡ c
  size_is : entry_size b slot ≡ size
  starts : (entry_name b slot 0 == 0) ≡ false

fill_slot-HasFields :
    (fuel : ℕ) (read : Bytes) (slot : ℕ) (name : Chars) (attr c size : ℕ) {b : Bytes}
    → fill_slot fuel read slot name attr c size ≡ some b
    → name 0 ≢ 0
    → name 0 < 256
    → attr < 256
    → c < 2 ^ 32
    → size < 2 ^ 32
    → HasFields b slot attr c size
unfolding fill_slot
fill_slot-HasFields fuel read slot name attr c size {b} e n₀ n₁ h₁ h₂ h₃ =
    elim (Option-cases (format_fat_name fuel name (memset read (32 * slot) 0 32) (32 * slot))) [
      | inl e₁ ↦ absurd (none-ne-some b (rw e₁ at e))
      | inr (m, e₂) ↦
          rw (sym (some-injective (set_fields m (32 * slot) attr c size) b (rw e₂ at e))) (record {
            attr_is = set_fields-attr m (32 * slot) attr c size h₁;
            cluster_is = set_fields-cluster m slot attr c size h₂;
            size_is = set_fields-size m slot attr c size h₃;
            starts = ne→== _ 0 λ z.
                format_fat_name-starts fuel name (memset read (32 * slot) 0 32) (32 * slot) e₂ n₀ n₁
                  (sym (set_fields-other m (32 * slot) attr c size (32 * slot) (inl (omega arith)))
                    ∙ ap (set_fields m (32 * slot) attr c size) {x = 32 * slot} {y = 32 * slot + 0}
                        (omega arith)
                    ∙ z);
          })
    ]

-- A copy of the slot's bytes makes the same node.
entry_node-HasFields :
    (b b' : Bytes) (slot attr c size : ℕ) (name : Chars) (inode : ℕ)
    → HasFields b slot attr c size
    → ((k : ℕ) → k < 32 → b' (32 * slot + k) ≡ b (32 * slot + k))
    → entry_node b' slot name inode
      ≡ fat32_node name size (flags_of attr) c inode Vfs.fat32 Vfs.fat32
unfolding entry_node
entry_node-HasFields b b' slot attr c size name inode f h =
    λ k. fat32_node name (s k) (flags_of (a k)) (l k) inode Vfs.fat32 Vfs.fat32
  where
    a : entry_attr b' slot ≡ attr
    a = h 11 (omega arith) ∙ f.attr_is

    at : (n j : ℕ) → n + j < 32 → b' (32 * slot + n + j) ≡ b (32 * slot + n + j)
    at n j p =
        ap b' {x = 32 * slot + n + j} {y = 32 * slot + (n + j)} (omega arith)
        ∙ h (n + j) p
        ∙ ap b {x = 32 * slot + (n + j)} {y = 32 * slot + n + j} (omega arith)

    l : entry_cluster b' slot ≡ c
    l =
        unfold entry_cluster in
        (ground (
          arith,
          f.cluster_is,
          h 26 (omega arith),
          at 26 1 (omega arith),
          h 20 (omega arith),
          at 20 1 (omega arith),
        ))

    s : entry_size b' slot ≡ size
    s =
        unfold entry_size load32 in
        (ground (
          arith,
          f.size_is,
          h 28 (omega arith),
          at 28 1 (omega arith),
          at 28 2 (omega arith),
          at 28 3 (omega arith),
        ))

pub guard-Ends :
    {W A : Type 0} (P : A → W → Type 0) (t : Bool) (m n : Io W A) (w : W)
    → t ≡ true
    → Ends P (n w)
    → Ends P ((if not t then m else n) w)
guard-Ends P t m n w e h = rw e h

-- A node was made in memory, and it is this one.
abbrev pub IsNode : VfsNode → NewNode → Type 0
IsNode node none = ⊥
IsNode node (some (address, n)) = n ≡ node

module _ {W : Type 0} (d : Drivers W) (fat : Fat32) (disk : W → Bytes)
    (works : IsReliable d fat disk) where
  new_node-Ends :
      (node : VfsNode) (w : W) (m : Bytes)
      → disk w ≡ m
      → Ends (λ o w'. IsNode node o × (disk w' ≡ m)) (new_node d fat node w)
  unfolding new_node
  new_node-Ends node w m e =
      with_buffer-Ends d fat disk works _ 200 _ _ w λ b w₁ e₁. pure-Ends _ _ w₁ (refl, e₁ ∙ e)

  -- The lookup of a name that stands in the sectors of the directory.
  fat32_vfs_finddir-Ends :
      (fuel : ℕ) (parent : VfsNode) (name : Chars) (slot : ℕ) (node : VfsNode) (b : Bytes) (w : W)
      (m : Bytes)
      → disk w ≡ m
      → fat.fat32_ready ≡ true
      → fat.bpb.sectors_per_cluster < 256
      → ((i : ℕ) → i < 512 * fat.bpb.sectors_per_cluster → directory fat m parent i ≡ b i)
      → search_name fuel (entries_per_cluster fat) 0 b name ≡ some (some slot)
      → ((b' : Bytes)
          → ((i : ℕ) → i < 512 * fat.bpb.sectors_per_cluster → b' i ≡ b i)
          → entry_node b' slot name parent.impl ≡ node)
      → Ends (λ o w'. IsNode node o × (disk w' ≡ m)) (fat32_vfs_finddir d fat fuel parent name w)
  unfolding fat32_vfs_finddir node_at_entry
  fat32_vfs_finddir-Ends fuel parent name slot node b w m e ready h same found made =
      guard-Ends _ fat.fat32_ready _ _ w ready (
        with_buffer-Ends d fat disk works _ _ _ _ w λ x w₁ e₁.
          Gives-Ends d fat disk works _
            (disk_read_sectors d fat _ fat.bpb.sectors_per_cluster x.bytes) _ w₁
            (true, bytes_read x) m (read_m x w₁ (e₁ ∙ e))
            λ w₂ e₂.
              rw
                (search_name-congruent fuel (entries_per_cluster fat) 0 (bytes_read x) b name
                    (λ i p. read_same x i (omega arith))
                  ∙ found)
                (Ends-then (λ o w'. IsNode node o × (disk w' ≡ m)) _ (new_node d fat _) _ w₂
                  (rw (made (bytes_read x) (read_same x)) (new_node-Ends node w₂ m e₂))
                  λ o w₃ r.
                    pure-Ends _ o (d.kfree x.address w₃)
                      (r.0, works.quiet.kfree x.address w₃ ∙ r.1)))
    where
      bytes_read : Buffer → Bytes
      bytes_read x =
          get_sectors m (cluster_to_lba fat parent.impl) fat.bpb.sectors_per_cluster x.bytes

      read_m :
          (x : Buffer) (w₁ : W)
          → disk w₁ ≡ m
          → Gives disk
              (disk_read_sectors d fat
                (cluster_to_lba fat parent.impl)
                fat.bpb.sectors_per_cluster
                x.bytes
                w₁)
              (true, bytes_read x)
              m
      read_m x w₁ e₁ =
          rw (sym e₁)
            (disk_read_sectors-Gives d fat disk works _ fat.bpb.sectors_per_cluster x.bytes w₁ h)

      read_same :
          (x : Buffer) (i : ℕ) → i < 512 * fat.bpb.sectors_per_cluster → bytes_read x i ≡ b i
      read_same x i p = get_sectors-at m x.bytes _ _ i p ∙ same i p

  -- With a heap that has memory and a drive that works: where a directory has an unused slot, and
  -- no entry before the first of these has the name, `fat32_create_entry` returns true, and
  -- `fat32_vfs_finddir` then finds the name and returns a node with the size, the cluster and the
  -- kind that the entry was given. The name is a text that ends within the fuel and is not empty,
  -- the values fit their fields, and the sectors of a cluster fit a byte.
  pub fat32_vfs_finddir-create_entry :
      (fuel k : ℕ) (parent : VfsNode) (name : Chars) (attr c size slot : ℕ) (w : W)
      → fat.fat32_ready ≡ true
      → fat.bpb.sectors_per_cluster < 256
      → find_from (is_unused (directory fat (disk w) parent)) (entries_per_cluster fat) 0
        ≡ some slot
      → ((j : ℕ)
          → j < slot
          → fat32_compare_name fuel (entry_name (directory fat (disk w) parent) j) name
            ≡ some false)
      → name k ≡ 0
      → k < fuel
      → name 0 ≢ 0
      → name 0 < 256
      → attr < 256
      → c < 2 ^ 32
      → size < 2 ^ 32
      → Ends
          (λ (r : Bool × NewNode) w'.
            (r.0 ≡ true)
            × IsNode (fat32_node name size (flags_of attr) c parent.impl Vfs.fat32 Vfs.fat32) r.1)
          ((do
            done ← fat32_create_entry d fat fuel parent name attr c size
            o ← fat32_vfs_finddir d fat fuel parent name
            pure (done, o))
            w)
  fat32_vfs_finddir-create_entry fuel k parent name attr c size slot w ready h first others e₀
        k_fuel n₀ n₁ h₁ h₂ h₃ =
      Ends-then _ _ (fat32_create_entry d fat fuel parent name attr c size) _ w
        (fat32_create_entry-Ends d fat disk works fuel k parent name attr c size slot w h first e₀
          k_fuel)
        λ done w₁ r.
          Ends-then _ _ (fat32_vfs_finddir d fat fuel parent name) _ w₁
            (fat32_vfs_finddir-Ends fuel parent name slot node r.1.filled w₁ (disk w₁) refl ready h
              (λ i p.
                ap (λ (m : Bytes). m (512 * cluster_to_lba fat parent.impl + i)) r.1.writes
                ∙ put_sectors-at (disk w) r.1.filled _ _ i p)
              (found (disk w₁) r.1)
              (λ b' same.
                entry_node-HasFields r.1.filled b' slot attr c size name parent.impl
                  (fill_slot-HasFields fuel r.1.read slot name attr c size r.1.fills n₀ n₁ h₁ h₂ h₃)
                  (λ j p. same (32 * slot + j) (omega (arith, is_first.below)))))
            λ o w₂ s. pure-Ends _ _ w₂ (r.0, s.0)
    where
      node : VfsNode
      node = fat32_node name size (flags_of attr) c parent.impl Vfs.fat32 Vfs.fat32

      is_first :
          IsFirst (is_unused (directory fat (disk w) parent)) (entries_per_cluster fat) 0 slot
      is_first = find_from-some _ (entries_per_cluster fat) 0 first

      found :
          (m' : Bytes) (r : IsFilled fat fuel (disk w) parent slot name attr c size m')
          → search_name fuel (entries_per_cluster fat) 0 r.filled name ≡ some (some slot)
      found m' r =
          search_name-fill_slot fuel (entries_per_cluster fat) slot r.read r.filled name attr c size
            (find_from-congruent _ _ (entries_per_cluster fat) 0
                (λ j p q. is_unused-congruent _ _ j (r.reads (32 * j + 0) (omega arith)))
              ∙ first)
            r.fills
            (fill_slot-HasFields fuel r.read slot name attr c size r.fills n₀ n₁ h₁ h₂ h₃).starts
            (λ j p.
              compare_congruent fuel (entry_name r.read j)
                (entry_name (directory fat (disk w) parent) j) name
                (λ l q. r.reads (32 * j + l) (omega (arith, is_first.below)))
              ∙ others j p)
