-- ===== src/Fat/Probe.antt =====
-- The probes of `fat32_init` in kernel/fs/fat32/fat32.c read the drive of the last success.
use khazaros.Base.{
  ap, ◌==◌, Bool-cases, inl, inr, ==-refl, ℕ, ◌≡◌, refl, Bool, true, false, not, ◌||◌, Option, none,
  some, if◌then◌else◌,
}
use mathlib.Core.Option
use khazaros.LibK.Memory.{Bytes}
use khazaros.Fat.{
  Io, pure, and_then, test_null, ◌>>=◌, ◌>>◌, Buffer, Drivers, Fat32, release, with_buffer,
  disk_read_sectors, bad_signature, take_boot_record, fat32_probe,
}

-- what a probe says, with its drive in the statics where it has worked
abbrev pub on_drive : (drive : ℕ) → {W : Type 0} → (Bool × Fat32) × W → (Bool × Fat32) × W
on_drive drive ((true, fat), w) = ((true, record fat { fat32_drive = drive }), w)
on_drive drive ((false, fat), w) = ((false, fat), w)

module _ {W : Type 0} (d : Drivers W) (fat : Fat32) (a b : ℕ) where
  same_choice :
      (t : Bool) (bytes : Bytes) (w : W)
      → (if t then pure (false, fat) else pure (true, take_boot_record fat a bytes)) w
        ≡ Option.map
            (on_drive a)
            ((if t then pure (false, fat) else pure (true, take_boot_record fat b bytes)) w)
  unfolding take_boot_record
  same_choice true bytes w = refl
  same_choice false bytes w = refl

  -- the part of a probe behind the read
  abbrev after_read : (drive : ℕ) → (address : ℕ) → Bool × Bytes → Io W (Bool × Fat32)
  after_read drive address r = do
    release d address
    if not r.0 || bad_signature r.1
        then pure (false, fat)
        else pure (true, take_boot_record fat drive r.1)

  same_read :
      (address : ℕ) (o : Option ((Bool × Bytes) × W))
      → and_then o (after_read a address)
        ≡ Option.map (on_drive a) (and_then o (after_read b address))
  same_read address none = refl
  same_read address (some (r, w)) =
      same_choice (not r.0 || bad_signature r.1) r.1 (d.kfree address w)

  same_buffer :
      (o : Option Buffer) (w : W)
      → test_null o
          (pure (false, fat))
          (λ m. disk_read_sectors d fat 0 1 m.bytes >>= after_read a m.address)
          w
        ≡ Option.map (on_drive a) (
            test_null o
              (pure (false, fat))
              (λ m. disk_read_sectors d fat 0 1 m.bytes >>= after_read b m.address)
              w)
  same_buffer none w = refl
  same_buffer (some m) w = same_read m.address (disk_read_sectors d fat 0 1 m.bytes w)

  same_drives : (w : W) → fat32_probe d fat a w ≡ Option.map (on_drive a) (fat32_probe d fat b w)
  unfolding fat32_probe with_buffer
  same_drives w = same_buffer (d.kmalloc 512 w).0 (d.kmalloc 512 w).1

-- Drivers that answer every read of an ATA drive but `drive` with `answer`.
abbrev pub other_drives :
    {W : Type 0}
    → (drive : ℕ) → (ℕ → ℕ → ℕ → Bytes → W → (Bool × Bytes) × W)
    → Drivers W
    → Drivers W
other_drives drive answer d = record d {
  ata_read_sectors = λ n lba count m w.
      if n == drive then d.ata_read_sectors n lba count m w else answer n lba count m w;
}

module _ {W : Type 0} (d : Drivers W) (fat : Fat32)
    (answer : ℕ → ℕ → ℕ → Bytes → W → (Bool × Bytes) × W) where
  same_sector :
      (bytes : Bytes) (w : W)
      → disk_read_sectors (other_drives fat.fat32_drive answer d) fat 0 1 bytes w
        ≡ disk_read_sectors d fat 0 1 bytes w
  unfolding disk_read_sectors
  same_sector bytes w = elim (Bool-cases (fat.fat32_ahci_port == 0)) [
    | inl e ↦ rw e (
        ap
          (λ t. some (
            if t
            then d.ata_read_sectors fat.fat32_drive 0 1 bytes w
            else answer fat.fat32_drive 0 1 bytes w))
          (==-refl fat.fat32_drive))
    | inr ne ↦ rw ne refl
  ]

  same_probe_read :
      (a : ℕ) (o : Option Buffer) (w : W)
      → test_null o
          (pure (false, fat))
          (λ m.
            disk_read_sectors (other_drives fat.fat32_drive answer d) fat 0 1 m.bytes
            >>= after_read d fat a a a m.address)
          w
        ≡ test_null o
            (pure (false, fat))
            (λ m. disk_read_sectors d fat 0 1 m.bytes >>= after_read d fat a a a m.address)
            w
  same_probe_read a none w = refl
  same_probe_read a (some m) w =
      ap (λ o. and_then o (after_read d fat a a a m.address)) (same_sector m.bytes w)

  same_drivers :
      (a : ℕ) (w : W)
      → fat32_probe (other_drives fat.fat32_drive answer d) fat a w ≡ fat32_probe d fat a w
  unfolding fat32_probe with_buffer
  same_drivers a w = same_probe_read a (d.kmalloc 512 w).0 (d.kmalloc 512 w).1

-- A probe of one drive does what a probe of any other does, up to the drive that it leaves in the
-- statics where it works; and it is the same whatever reads of the ATA drives but the one in
-- `fat32_drive` give or do. So the sector is never read from the drive that is probed, unless that
-- one was set before.
pub fat32_probe-drive :
    {W : Type 0} (d : Drivers W) (fat : Fat32) (a b : ℕ)
    (answer : ℕ → ℕ → ℕ → Bytes → W → (Bool × Bytes) × W) (w : W)
    → (fat32_probe d fat a w ≡ Option.map (on_drive a) (fat32_probe d fat b w))
      × (fat32_probe (other_drives fat.fat32_drive answer d) fat a w ≡ fat32_probe d fat a w)
fat32_probe-drive d fat a b answer w = (same_drives d fat a b w, same_drivers d fat answer a w)
