-- ===== src/Fat/Table/Dwords.antt =====
-- Dwords on a disk, which kernel/fs/fat32/fat32.c writes through a buffer of one sector.
use khazaros.Base.{
  ℕ, ◌+◌, ◌-◌, ◌*◌, ◌/◌, ◌%◌, ◌^◌, ◌≤◌, ◌<◌, ◌≡◌, ◌⊎◌, refl, ap, fun_ext, arith, inl, inr,
}
use khazaros.LibK.Memory.{Bytes, load32, store32}
use khazaros.Fat.Volume.{get_sectors, put_sectors}

-- A dword that lies in one sector, written there through a buffer, is written on the disk.
pub sector_write :
    (m b : Bytes) (s off v : ℕ)
    → off + 4 ≤ 512
    → put_sectors m s 1 (store32 (get_sectors m s 1 b) off v) ≡ store32 m (512 * s + off) v
unfolding put_sectors get_sectors store32
sector_write m b s off v h =
    fun_ext λ a. ground (arith, λ (e : 512 * s + (a - 512 * s) ≡ a). ap m e)

-- A dword that lies in one sector is read there.
pub sector_read :
    (m b : Bytes) (s off : ℕ)
    → off + 4 ≤ 512
    → load32 (get_sectors m s 1 b) off ≡ load32 m (512 * s + off)
unfolding load32 get_sectors
sector_read m b s off h = ground arith

-- The bytes of a dword that is written, and the others.
pub store32-bytes :
    (m : Bytes) (a v : ℕ)
    → (store32 m a v a ≡ v % 256)
      × (store32 m a v (a + 1) ≡ v / 256 % 256)
      × (store32 m a v (a + 2) ≡ v / 65536 % 256)
      × (store32 m a v (a + 3) ≡ v / 16777216 % 256)
unfolding store32
store32-bytes m a v = (ground arith, ground arith, ground arith, ground arith)

pub store32-other : (m : Bytes) (a v b : ℕ) → (b < a) ⊎ (a + 4 ≤ b) → store32 m a v b ≡ m b
unfolding store32
store32-other m a v b (inl h) = ground arith
store32-other m a v b (inr h) = ground arith

pub bytes_of_dword :
    (v : ℕ)
    → v < 2 ^ 32
    → v % 256 + 256 * (v / 256 % 256) + 65536 * (v / 65536 % 256) + 16777216 * (v / 16777216 % 256)
      ≡ v
bytes_of_dword v h = omega arith

pub load32-store32 : (m : Bytes) (a v : ℕ) → v < 2 ^ 32 → load32 (store32 m a v) a ≡ v
unfolding load32
load32-store32 m a v h = let b = store32-bytes m a v in rw (b.0, b.1, b.2, b.3) (bytes_of_dword v h)

pub load32-store32_apart :
    (m : Bytes) (a b v : ℕ) → (a + 4 ≤ b) ⊎ (b + 4 ≤ a) → load32 (store32 m b v) a ≡ load32 m a
unfolding load32
load32-store32_apart m a b v h =
    rw
      (
        other a (elim h [ inl q ↦ inl (omega arith) | inr q ↦ inr (omega arith) ]),
        other (a + 1) (elim h [ inl q ↦ inl (omega arith) | inr q ↦ inr (omega arith) ]),
        other (a + 2) (elim h [ inl q ↦ inl (omega arith) | inr q ↦ inr (omega arith) ]),
        other (a + 3) (elim h [ inl q ↦ inl (omega arith) | inr q ↦ inr (omega arith) ]),
      )
      refl
  where
    other : (x : ℕ) → (x < b) ⊎ (b + 4 ≤ x) → store32 m b v x ≡ m x
    other x = store32-other m b v x
