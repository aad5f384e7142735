-- ===== src/Fat.antt =====
-- The FAT32 file system of kernel/fs/fat32/fat32.c: its static data, the drivers and the heap it
-- calls, and the boot record.
use khazaros.Base.{
  ℕ, zero, suc, ◌+◌, ◌*◌, ◌%◌, ◌^◌, Bool, true, false, not, ◌&&◌, ◌||◌, Option, none, some, ◌==◌,
  if◌then◌else◌,
}
use mathlib.Core.Option
use khazaros.LibK.Memory.{Bytes, load32}
use khazaros.Vfs.{VfsNode}
pub mod Name
pub mod Table
pub mod Entry
pub mod File
pub mod Dir
pub mod Volume
pub mod Runs
pub mod Probe
mod Tests

-- A piece of code that runs in a world `W` and returns a value. It is `none` where the code does not
-- come back: a loop that outlasts its fuel, a division by zero, a write through NULL.
abbrev pub Io : Type 0 → Type 0 → Type 0
Io W A = W → Option (A × W)

module _ {W A : Type 0} where
  abbrev pub pure : A → Io W A
  pure a w = some (a, w)

  abbrev pub stuck : Io W A
  stuck w = none

  -- a call that comes back
  abbrev pub call : (W → A × W) → Io W A
  call f w = some (f w)

  -- a computation on values alone
  abbrev pub lift : Option A → Io W A
  lift o w = Option.map (λ a. (a, w)) o

  abbrev pub and_then : {B : Type 0} → Option (A × W) → (A → Io W B) → Option (B × W)
  and_then none k = none
  and_then (some (a, w)) k = k a w

-- `if (!o) ... else ...`
abbrev pub test_null : {A B : Type 0} → Option A → B → (A → B) → B
test_null none b k = b
test_null (some a) b k = k a

infixl 5 ◌>>=◌ ◌>>◌
abbrev pub ◌>>=◌ : {W A B : Type 0} → Io W A → (A → Io W B) → Io W B
◌>>=◌ m k w = and_then (m w) k

abbrev pub ◌>>◌ : {W A B : Type 0} → Io W A → Io W B → Io W B
m >> k = m >>= λ _. k

-- what `kmalloc` returns: the address, and the bytes that stand there
pub record Buffer : Type 0 where
  pub address : ℕ
  pub bytes : Bytes

-- The heap and the disk drivers. An operation on sectors says whether it has worked; a read returns
-- the buffer as it leaves it. A port is an address, 0 is NULL.
pub record Drivers (W : Type 0) : Type 0 where
  pub kmalloc : (size : ℕ) → W → Option Buffer × W
  pub kfree : (address : ℕ) → W → W
  pub ahci_get_drive : W → ℕ × W
  pub ahci_read : (port start_lba count : ℕ) → Bytes → W → (Bool × Bytes) × W
  pub ahci_write : (port start_lba count : ℕ) → Bytes → W → Bool × W
  pub ata_read_sectors : (drive lba count : ℕ) → Bytes → W → (Bool × Bytes) × W
  pub ata_write_sectors : (drive lba count : ℕ) → Bytes → W → Bool × W

-- the fields of `bpb` that the code reads
pub record Bpb : Type 0 where
  pub sectors_per_cluster : ℕ
  pub reserved_sectors : ℕ
  pub fat_count : ℕ
  pub fat_size_long : ℕ
  pub root_cluster : ℕ

pub record Fat32 : Type 0 where
  pub bpb : Bpb
  pub fat32_ready : Bool
  pub first_data_sector : ℕ
  pub sectors_per_fat : ℕ
  pub fat32_drive : ℕ
  pub fat32_ahci_port : ℕ

abbrev pub ata_master : ℕ
ata_master = 160

abbrev pub ata_slave : ℕ
ata_slave = 176

-- a 16-bit field of a structure, little-endian
abbrev pub load16 : Bytes → ℕ → ℕ
load16 m a = m a + 256 * m (a + 1)

unfoldable pub bpb_of : Bytes → Bpb
unfolding load32
bpb_of buffer = record {
  sectors_per_cluster = buffer 13;
  reserved_sectors = load16 buffer 14;
  fat_count = buffer 16;
  fat_size_long = load32 buffer 36;
  root_cluster = load32 buffer 44;
}

-- `boot_signature != 0x29 && boot_signature != 0x28`
unfoldable pub bad_signature : Bytes → Bool
bad_signature buffer = not (buffer 66 == 41) && not (buffer 66 == 40)

-- The statics that a boot record sets.
unfoldable pub take_boot_record : Fat32 → (drive : ℕ) → Bytes → Fat32
unfolding bpb_of
take_boot_record fat drive buffer =
    let b = bpb_of buffer in
    record fat {
      bpb = b;
      fat32_drive = drive;
      sectors_per_fat = b.fat_size_long;
      first_data_sector = (b.reserved_sectors + b.fat_count * b.fat_size_long + 0) % 2 ^ 32;
    }

module _ {W : Type 0} (d : Drivers W) where
  abbrev pub release : ℕ → Io W Unit
  release address = call λ w. (tt, d.kfree address w)

  -- `buffer = kmalloc(size)`, with what happens where it is NULL
  unfoldable pub with_buffer : {A : Type 0} → (size : ℕ) → Io W A → (Buffer → Io W A) → Io W A
  with_buffer size on_null k = call (d.kmalloc size) >>= λ o. test_null o on_null k

  -- The count of the ATA driver is a byte.
  unfoldable pub disk_read_sectors : Fat32 → (lba count : ℕ) → Bytes → Io W (Bool × Bytes)
  disk_read_sectors fat lba count buffer =
      if not (fat.fat32_ahci_port == 0)
      then call (d.ahci_read fat.fat32_ahci_port lba count buffer)
      else call (d.ata_read_sectors fat.fat32_drive lba (count % 256) buffer)

  unfoldable pub disk_write_sectors : Fat32 → (lba count : ℕ) → Bytes → Io W Bool
  disk_write_sectors fat lba count buffer =
      if not (fat.fat32_ahci_port == 0)
      then call (d.ahci_write fat.fat32_ahci_port lba count buffer)
      else call (d.ata_write_sectors fat.fat32_drive lba (count % 256) buffer)

  -- The messages are left out.
  unfoldable pub fat32_probe : Fat32 → (drive : ℕ) → Io W (Bool × Fat32)
  unfolding with_buffer disk_read_sectors bad_signature take_boot_record
  fat32_probe fat drive = with_buffer 512 (pure (false, fat)) λ buffer. do
    (ok, bytes) ← disk_read_sectors fat 0 1 buffer.bytes
    release buffer.address
    if not ok || bad_signature bytes
        then pure (false, fat)
        else pure (true, take_boot_record fat drive bytes)

  abbrev pub ready : Fat32 → Io W (Bool × Fat32)
  ready fat = pure (true, record fat { fat32_ready = true })

  -- The two probes of ATA drives.
  unfoldable pub init_ata : Fat32 → Io W (Bool × Fat32)
  unfolding fat32_probe
  init_ata fat = do
    (ok, fat₁) ← fat32_probe fat ata_master
    if ok then ready fat₁ else do
      (ok₂, fat₂) ← fat32_probe fat₁ ata_slave
      if ok₂ then ready fat₂ else pure (false, fat₂)

  unfoldable pub fat32_init : Fat32 → Io W (Bool × Fat32)
  unfolding fat32_probe init_ata
  fat32_init fat = do
    port ← call d.ahci_get_drive
    let fat₀ = record fat { fat32_ready = false; fat32_ahci_port = port }
    if port == 0
        then init_ata fat₀
        else do (ok, fat₁) ← fat32_probe fat₀ 0; if ok then ready fat₁ else init_ata fat₁
