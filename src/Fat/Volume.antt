-- ===== src/Fat/Volume.antt =====
-- What the drivers and the heap promise to kernel/fs/fat32/fat32.c, as laws on the bytes of the
-- disk, and what a piece of its code does to these bytes.
use khazaros.Base.{
  ℕ, ◌+◌, ◌-◌, ◌*◌, ◌%◌, ◌<◌, ◌≡◌, ◌≢◌, refl, sym, ap, ◌∙◌, Bool, true, ◌&&◌, Option, none, some,
  arith, ◌==◌, ltb, leb, if◌then◌else◌, Bool-cases, Option-cases, inl, inr,
}
use khazaros.LibK.Memory.{Bytes}
use khazaros.Fat.{
  Io, pure, call, and_then, test_null, ◌>>=◌, ◌>>◌, Buffer, Drivers, Fat32, release, with_buffer,
  disk_read_sectors, disk_write_sectors,
}

-- `count` sectors of the disk from `lba` on, read over the bytes of a buffer
unfoldable pub get_sectors : Bytes → (lba count : ℕ) → Bytes → Bytes
get_sectors m lba count buffer i = if ltb i (512 * count) then m (512 * lba + i) else buffer i

-- the disk with these sectors written from a buffer
unfoldable pub put_sectors : Bytes → (lba count : ℕ) → Bytes → Bytes
put_sectors m lba count buffer a =
    if leb (512 * lba) a && ltb a (512 * lba + 512 * count) then buffer (a - 512 * lba) else m a

-- Only a write changes the disk, whether the operations work or not.
pub record IsQuiet {W : Type 0} (d : Drivers W) (disk : W → Bytes) : Type 0 where
  pub kmalloc : (n : ℕ) (w : W) → disk (d.kmalloc n w).1 ≡ disk w
  pub kfree : (a : ℕ) (w : W) → disk (d.kfree a w) ≡ disk w
  pub ahci_read :
      (port lba count : ℕ) (b : Bytes) (w : W) → disk (d.ahci_read port lba count b w).1 ≡ disk w
  pub ata_read :
      (drive lba count : ℕ) (b : Bytes) (w : W)
      → disk (d.ata_read_sectors drive lba count b w).1 ≡ disk w

-- The operation has worked, on the sectors it was told.
abbrev pub Reads :
    {W : Type 0} → (W → Bytes) → (lba count : ℕ) → Bytes → W → (Bool × Bytes) × W → Type 0
Reads disk lba count b w r = r.0 ≡ (true, get_sectors (disk w) lba count b)

abbrev pub Writes : {W : Type 0} → (W → Bytes) → (lba count : ℕ) → Bytes → W → Bool × W → Type 0
Writes disk lba count b w r = (r.0 ≡ true) × (disk r.1 ≡ put_sectors (disk w) lba count b)

-- The heap has memory, and the volume's drive works; the ATA driver for the counts that a byte
-- holds.
pub record IsReliable {W : Type 0} (d : Drivers W) (fat : Fat32) (disk : W → Bytes) : Type 0 where
  pub quiet : IsQuiet d disk
  pub kmalloc : (n : ℕ) (w : W) → (d.kmalloc n w).0 ≢ none
  pub ahci_read :
      (lba count : ℕ) (b : Bytes) (w : W)
      → Reads disk lba count b w (d.ahci_read fat.fat32_ahci_port lba count b w)
  pub ata_read :
      (lba count : ℕ) (b : Bytes) (w : W)
      → Reads disk lba count b w (d.ata_read_sectors fat.fat32_drive lba count b w)
  pub ahci_write :
      (lba count : ℕ) (b : Bytes) (w : W)
      → Writes disk lba count b w (d.ahci_write fat.fat32_ahci_port lba count b w)
  pub ata_write :
      (lba count : ℕ) (b : Bytes) (w : W)
      → Writes disk lba count b w (d.ata_write_sectors fat.fat32_drive lba count b w)

-- A run that comes back has left the disk so.
abbrev pub After : {W A : Type 0} → (W → Bytes) → Bytes → Option (A × W) → Type 0
After disk m none = Unit {0}
After disk m (some (_, w)) = disk w ≡ m

-- A run comes back with this value, and has left the disk so.
pub record Gives {W A : Type 0} (disk : W → Bytes) (o : Option (A × W)) (a : A) (m : Bytes)
    : Type 0 where
  pub world : W
  pub run : o ≡ some (a, world)
  pub leaves : disk world ≡ m

-- The code leaves the disk as it was.
pub record Keeps {W A : Type 0} (disk : W → Bytes) (m : Io W A) : Type 0 where
  pub leaves : (w : W) → After disk (disk w) (m w)

module _ {W : Type 0} (disk : W → Bytes) where
  pub After-then :
      {A B : Type 0} (o : Option (A × W)) (k : A → Io W B) (m : Bytes)
      → After disk m o
      → ((a : A) → Keeps disk (k a))
      → After disk m (and_then o k)
  After-then none k m h g = tt
  After-then (some (a, w)) k m h g = rw (sym h) ((g a).leaves w)

  pub Keeps-then :
      {A B : Type 0} (m : Io W A) (k : A → Io W B)
      → Keeps disk m
      → ((a : A) → Keeps disk (k a))
      → Keeps disk (m >>= k)
  Keeps-then m k h g = record { leaves = λ w. After-then (m w) k (disk w) (h.leaves w) g }

  pub Gives-then :
      {A B : Type 0} (m : Io W A) (k : A → Io W B) (w : W) (a : A) (x : Bytes) (b : B) (y : Bytes)
      → Gives disk (m w) a x
      → ((w₁ : W) → disk w₁ ≡ x → Gives disk (k a w₁) b y)
      → Gives disk ((m >>= k) w) b y
  Gives-then m k w a x b y h g =
      let r = g h.world h.leaves in
      record { world = r.world; run = ap (λ o. and_then o k) h.run ∙ r.run; leaves = r.leaves }

  -- a run that has come back
  pub pure-Gives :
      {A : Type 0} (a b : A) (w : W) (m : Bytes) → a ≡ b → disk w ≡ m → Gives disk (pure a w) b m
  pure-Gives a b w m e l = record { world = w; run = ap (λ x. some (x, w)) e; leaves = l }

  pub Gives-leaves :
      {A : Type 0} (o : Option (A × W)) (a : A) (m m' : Bytes)
      → m ≡ m'
      → Gives disk o a m
      → Gives disk o a m'
  Gives-leaves o a m m' e g = record { world = g.world; run = g.run; leaves = g.leaves ∙ e }

  pub Gives-value :
      {A : Type 0} (o : Option (A × W)) (a b : A) (m : Bytes)
      → a ≡ b
      → Gives disk o a m
      → Gives disk o b m
  Gives-value o a b m e g = record {
    world = g.world;
    run = g.run ∙ ap (λ x. some (x, g.world)) e;
    leaves = g.leaves;
  }

byte_count : (n : ℕ) → n < 256 → n % 256 ≡ n
byte_count n h = omega arith

module _ {W : Type 0} (d : Drivers W) (disk : W → Bytes) (quiet : IsQuiet d disk) where
  pub release-Keeps : (a : ℕ) → Keeps disk (release d a)
  release-Keeps a = record { leaves = quiet.kfree a }

  pub disk_read_sectors-Keeps :
      (fat : Fat32) (lba count : ℕ) (b : Bytes) → Keeps disk (disk_read_sectors d fat lba count b)
  unfolding disk_read_sectors
  disk_read_sectors-Keeps fat lba count b = elim (Bool-cases (fat.fat32_ahci_port == 0)) [
    | inl e ↦ rw e (record { leaves = quiet.ata_read fat.fat32_drive lba (count % 256) b })
    | inr ne ↦ rw ne (record { leaves = quiet.ahci_read fat.fat32_ahci_port lba count b })
  ]

  pub test_null-Keeps :
      {A B : Type 0} (z : Io W A) (k : B → Io W A)
      → Keeps disk z
      → ((b : B) → Keeps disk (k b))
      → (o : Option B) → Keeps disk (test_null o z k)
  test_null-Keeps z k hz hk none = hz
  test_null-Keeps z k hz hk (some b) = hk b

  pub with_buffer-Keeps :
      {A : Type 0} (n : ℕ) (z : Io W A) (k : Buffer → Io W A)
      → Keeps disk z
      → ((b : Buffer) → Keeps disk (k b))
      → Keeps disk (with_buffer d n z k)
  unfolding with_buffer
  with_buffer-Keeps n z k hz hk =
      Keeps-then disk (call (d.kmalloc n)) _ (record { leaves = quiet.kmalloc n })
        (test_null-Keeps z k hz hk)

module _ {W : Type 0} (d : Drivers W) (fat : Fat32) (disk : W → Bytes)
    (works : IsReliable d fat disk) where
  pub release-Gives : (a : ℕ) (w : W) → Gives disk (release d a w) tt (disk w)
  release-Gives a w = record { world = d.kfree a w; run = refl; leaves = works.quiet.kfree a w }

  -- The end of a function that has a buffer.
  pub released-Gives :
      {A : Type 0} (address : ℕ) (a b : A) (w : W) (m : Bytes)
      → a ≡ b
      → disk w ≡ m
      → Gives disk ((release d address >> pure a) w) b m
  released-Gives address a b w m e l =
      pure-Gives disk a b (d.kfree address w) m e (works.quiet.kfree address w ∙ l)

  -- The heap gives a buffer, of which nothing else is known.
  pub with_buffer-Gives :
      {A : Type 0} (n : ℕ) (z : Io W A) (k : Buffer → Io W A) (w : W) (a : A) (m : Bytes)
      → ((b : Buffer) (w₁ : W) → disk w₁ ≡ disk w → Gives disk (k b w₁) a m)
      → Gives disk (with_buffer d n z k w) a m
  unfolding with_buffer
  with_buffer-Gives n z k w a m h = elim (Option-cases (d.kmalloc n w).0) [
    | inl e ↦ absurd (works.kmalloc n w e)
    | inr (b, e) ↦ rw e (h b (d.kmalloc n w).1 (works.quiet.kmalloc n w))
  ]

  pub disk_read_sectors-Gives :
      (lba count : ℕ) (b : Bytes) (w : W)
      → count < 256
      → Gives disk
          (disk_read_sectors d fat lba count b w)
          (true, get_sectors (disk w) lba count b)
          (disk w)
  unfolding disk_read_sectors
  disk_read_sectors-Gives lba count b w h = elim (Bool-cases (fat.fat32_ahci_port == 0)) [
    | inl e ↦
        rw (e, byte_count count h)
          (record {
            world = (d.ata_read_sectors fat.fat32_drive lba count b w).1;
            run =
                ap (λ r. some (r, (d.ata_read_sectors fat.fat32_drive lba count b w).1))
                  (works.ata_read lba count b w);
            leaves = works.quiet.ata_read fat.fat32_drive lba count b w;
          })
    | inr ne ↦ rw ne (record {
      world = (d.ahci_read fat.fat32_ahci_port lba count b w).1;
      run =
          ap (λ r. some (r, (d.ahci_read fat.fat32_ahci_port lba count b w).1))
            (works.ahci_read lba count b w);
      leaves = works.quiet.ahci_read fat.fat32_ahci_port lba count b w;
    })
  ]

  pub disk_write_sectors-Gives :
      (lba count : ℕ) (b : Bytes) (w : W)
      → count < 256
      → Gives disk (disk_write_sectors d fat lba count b w) true (put_sectors (disk w) lba count b)
  unfolding disk_write_sectors
  disk_write_sectors-Gives lba count b w h = elim (Bool-cases (fat.fat32_ahci_port == 0)) [
    | inl e ↦
        rw (e, byte_count count h)
          (record {
            world = (d.ata_write_sectors fat.fat32_drive lba count b w).1;
            run =
                ap (λ r. some (r, (d.ata_write_sectors fat.fat32_drive lba count b w).1))
                  (works.ata_write lba count b w).0;
            leaves = (works.ata_write lba count b w).1;
          })
    | inr ne ↦ rw ne (record {
      world = (d.ahci_write fat.fat32_ahci_port lba count b w).1;
      run =
          ap (λ r. some (r, (d.ahci_write fat.fat32_ahci_port lba count b w).1))
            (works.ahci_write lba count b w).0;
      leaves = (works.ahci_write lba count b w).1;
    })
  ]
