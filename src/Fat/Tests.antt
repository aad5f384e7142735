-- ===== src/Fat/Tests.antt =====
-- Examples of the FAT32 file system: a volume of one sector per cluster and two copies of its table.
use khazaros.Base.{
  ℕ, ◌-◌, ◌%◌, ◌^◌, ◌≡◌, ◌≢◌, ◌<◌, ◌≤◌, refl, min, inr, Bool, true, false, Option, none, some, [],
  ◌∷◌, arith, ◌==◌, if◌then◌else◌,
}
use mathlib.Core.Option
use mathlib.Core.Option.{some-ne-none}
use khazaros.Base.Search.{find_from}
use khazaros.LibK.Memory.{Bytes, store8, store32, memset, set_bytes, set_dwords}
use khazaros.LibK.Text.{Chars}
use khazaros.Net.Link.{packet_of}
use khazaros.Vfs.{VfsNode, vfs_file, vfs_directory}
use khazaros.Vfs
use khazaros.Fat.{Drivers, Fat32, pure, ◌>>=◌, ◌>>◌, fat32_probe}
use khazaros.Fat.Table.{
  cluster_to_lba, end_of_chain, fat32_get_fat_entry, fat32_set_fat_entry, fat32_allocate_cluster,
  total_clusters,
}
use khazaros.Fat.Table.Copies.{IsVolume, IsWritten, table_entry, write_copies}
use khazaros.Fat.Table.Entries.{fat32_set_fat_entry-IsWritten, fat32_get_fat_entry-set}
use khazaros.Fat.Table.Free.{is_free, allocated, reserve, fat32_allocate_cluster-Gives}
use khazaros.Fat.Entry.{is_unused, entry_name, set_fields, fill_slot, fat32_create_entry}
use khazaros.Fat.File.{fat32_read_file, fat32_vfs_read}
use khazaros.Fat.File.Reading.{IsRead, fat32_vfs_read-IsRead}
use khazaros.Fat.Dir.{
  NewNode, fat32_node, fat32_vfs_finddir, fat32_vfs_readdir, fat32_vfs_create, fat32_vfs_mkdir,
}
use khazaros.Fat.Dir.Created.{directory}
use khazaros.Fat.Dir.Found.{flags_of, IsNode, fat32_vfs_finddir-create_entry}
use khazaros.Fat.Dir.Full.{DirectoryOutside, IsUnchanged, fat32_vfs_create-full}
use khazaros.Fat.Dir.ReadOnly.{reads-Keeps}
use khazaros.Fat.Name.{
  upper, base_loop, skip_to_dot, extension_loop, add_extension, format_fat_name,
}
use khazaros.Fat.Probe.{on_drive, other_drives, fat32_probe-drive}
use khazaros.Fat.Runs.{Runs, Ends}
use khazaros.Fat.Volume.{get_sectors, put_sectors, IsQuiet, IsReliable, Gives, Keeps}

-- a machine that is its disk: its heap has memory of zeros, and both drivers work
abbrev machine : Drivers Bytes
machine = record {
  kmalloc = λ n w. (some (record { address = 4096; bytes = λ i. 0 }), w);
  kfree = λ a w. w;
  ahci_get_drive = λ w. (1, w);
  ahci_read = λ port lba count b w. ((true, get_sectors w lba count b), w);
  ahci_write = λ port lba count b w. (true, put_sectors w lba count b);
  ata_read_sectors = λ drive lba count b w. ((true, get_sectors w lba count b), w);
  ata_write_sectors = λ drive lba count b w. (true, put_sectors w lba count b);
}

abbrev volume : Fat32
volume = record {
  bpb = record {
    sectors_per_cluster = 1;
    reserved_sectors = 1;
    fat_count = 2;
    fat_size_long = 1;
    root_cluster = 2;
  };
  fat32_ready = true;
  first_data_sector = 3;
  sectors_per_fat = 1;
  fat32_drive = 160;
  fat32_ahci_port = 1;
}

abbrev disk : Bytes → Bytes
disk w = w

abbrev blank : Bytes
blank i = 0

machine-IsQuiet : IsQuiet machine disk
machine-IsQuiet = record {
  kmalloc = λ n w. refl;
  kfree = λ a w. refl;
  ahci_read = λ port lba count b w. refl;
  ata_read = λ drive lba count b w. refl;
}

machine-IsReliable : IsReliable machine volume disk
machine-IsReliable = record {
  quiet = machine-IsQuiet;
  kmalloc = λ n w e. absurd (some-ne-none (record { address = 4096; bytes = λ i. 0 }) e);
  ahci_read = λ lba count b w. refl;
  ata_read = λ lba count b w. refl;
  ahci_write = λ lba count b w. (refl, refl);
  ata_write = λ lba count b w. (refl, refl);
}

volume-IsVolume : IsVolume volume
volume-IsVolume = record {
  some_copy = omega arith;
  sectors = omega arith;
  size = refl;
  clusters = omega arith;
}

fat32_set_fat_entry-IsWritten_example :
    Gives disk
      (fat32_set_fat_entry machine volume 5 7 blank)
      true
      (write_copies volume 2 0 5 7 blank)
    × IsWritten volume blank 5 7 (write_copies volume 2 0 5 7 blank)
fat32_set_fat_entry-IsWritten_example =
    fat32_set_fat_entry-IsWritten machine volume disk machine-IsReliable volume-IsVolume 5 7 blank
      (omega arith)

fat32_get_fat_entry-set_example :
    Gives disk
      ((fat32_set_fat_entry machine volume 5 7 >> fat32_get_fat_entry machine volume 5) blank)
      (if 5 == 5 then 7 % 2 ^ 28 else table_entry volume blank 0 5 % 2 ^ 28)
      (write_copies volume 2 0 5 7 blank)
fat32_get_fat_entry-set_example =
    fat32_get_fat_entry-set machine volume disk machine-IsReliable volume-IsVolume 5 5 7 blank
      (omega arith) (omega arith)

fat32_allocate_cluster-Gives_example :
    Gives disk
      (fat32_allocate_cluster machine volume blank)
      (allocated (find_from (is_free volume blank) (total_clusters volume - 2) 2))
      (reserve volume (find_from (is_free volume blank) (total_clusters volume - 2) 2) blank)
fat32_allocate_cluster-Gives_example =
    fat32_allocate_cluster-Gives machine volume disk machine-IsReliable volume-IsVolume blank blank
      refl

-- a name that is short enough for its extension too
abbrev kernel_txt : Chars
kernel_txt = packet_of (b'k' ∷ b'.' ∷ b't' ∷ [])

-- a file of 700 bytes from cluster 3 on
abbrev file : VfsNode
file = fat32_node kernel_txt 700 vfs_file 3 2 Vfs.fat32 Vfs.fat32

fat32_vfs_read-IsRead_example :
    Runs
      (IsRead (min 600 (file.length - 500)) blank)
      (fat32_vfs_read machine volume 1000 file 500 600 blank blank)
fat32_vfs_read-IsRead_example =
    fat32_vfs_read-IsRead machine volume 1000 file 500 600 blank blank (omega arith) (omega arith)
      (omega arith)

reads-Keeps_example :
    Keeps disk (fat32_vfs_finddir machine volume 1000 file kernel_txt)
    × Keeps disk (fat32_vfs_readdir machine volume file 1)
    × Keeps disk (fat32_vfs_read machine volume 1000 file 500 600 blank)
    × Keeps disk (fat32_read_file machine volume 1000 kernel_txt)
reads-Keeps_example =
    reads-Keeps machine volume disk machine-IsQuiet 1000 file kernel_txt 1 500 600 blank

-- a read that fails
abbrev failing : ℕ → ℕ → ℕ → Bytes → Bytes → (Bool × Bytes) × Bytes
failing drive lba count m w = ((false, m), w)

fat32_probe-drive_example :
    (fat32_probe machine volume 160 blank
      ≡ Option.map (on_drive 160) (fat32_probe machine volume 176 blank))
    × (fat32_probe (other_drives volume.fat32_drive failing machine) volume 160 blank
        ≡ fat32_probe machine volume 160 blank)
fat32_probe-drive_example = fat32_probe-drive machine volume 160 176 failing blank

-- the directory with its first slot filled
abbrev filled : Option Bytes
filled = fill_slot 4 blank 0 kernel_txt 32 3 0

abbrev bytes_of : Option Bytes → Bytes
bytes_of none = blank
bytes_of (some b) = b

first_unused : find_from (is_unused blank) 16 0 ≡ some 0
unfolding find_from is_unused
first_unused = refl

filled-some : filled ≡ some (bytes_of filled)
unfolding fill_slot format_fat_name base_loop skip_to_dot packet_of
filled-some = refl

filled-starts : (entry_name (bytes_of filled) 0 0 == 0) ≡ false
unfolding fill_slot set_fields format_fat_name base_loop skip_to_dot add_extension extension_loop
    upper store8 store32 memset set_bytes set_dwords packet_of
filled-starts = refl

-- the root directory, and a disk that is all letters
abbrev root : VfsNode
root = fat32_node kernel_txt 0 vfs_directory 2 0 Vfs.fat32 Vfs.fat32

abbrev inked : Bytes
inked i = 65

first_unused_on : find_from (is_unused (directory volume blank root)) 16 0 ≡ some 0
unfolding find_from is_unused
first_unused_on = refl

inked-IsFull : find_from (is_unused (directory volume inked root)) 16 0 ≡ none
unfolding find_from is_unused
inked-IsFull = refl

root-outside : DirectoryOutside volume root
unfolding cluster_to_lba fat32_node
root-outside i p = inr (omega arith)

total_clusters-small : total_clusters volume ≤ end_of_chain
unfolding total_clusters
total_clusters-small = omega arith

kernel_txt-ends : kernel_txt 3 ≡ 0
unfolding packet_of
kernel_txt-ends = refl

kernel_txt-starts : kernel_txt 0 ≢ 0
unfolding packet_of
kernel_txt-starts e = omega arith

kernel_txt-byte : kernel_txt 0 < 256
unfolding packet_of
kernel_txt-byte = omega arith

fat32_vfs_finddir-create_entry_example :
    Ends
      (λ (r : Bool × NewNode) w'.
        (r.0 ≡ true) × IsNode (fat32_node kernel_txt 700 (flags_of 32) 3 2 Vfs.fat32 Vfs.fat32) r.1)
      ((do
        done ← fat32_create_entry machine volume 4 root kernel_txt 32 3 700
        o ← fat32_vfs_finddir machine volume 4 root kernel_txt
        pure (done, o))
        blank)
unfolding fat32_node
fat32_vfs_finddir-create_entry_example =
    fat32_vfs_finddir-create_entry machine volume disk machine-IsReliable 4 3 root kernel_txt 32 3
      700 0 blank refl (omega arith) first_unused_on (λ j p. absurd (omega arith)) kernel_txt-ends
      (omega arith) kernel_txt-starts kernel_txt-byte (omega arith) (omega arith) (omega arith)

fat32_vfs_create-full_example :
    Ends
      (λ o w'. (o ≡ none) × IsUnchanged volume inked w')
      (fat32_vfs_create machine volume 4 root kernel_txt inked)
    × Ends
        (λ o w'. (o ≡ none) × IsUnchanged volume inked w')
        (fat32_vfs_mkdir machine volume 4 (some root) kernel_txt inked)
fat32_vfs_create-full_example =
    fat32_vfs_create-full machine volume disk machine-IsReliable volume-IsVolume 4 root kernel_txt
      inked (omega arith) total_clusters-small root-outside inked-IsFull
