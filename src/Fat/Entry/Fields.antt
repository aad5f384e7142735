-- ===== src/Fat/Entry/Fields.antt =====
-- The fields of a new directory entry of kernel/fs/fat32/fat32.c.
use khazaros.Base.{◌⊎◌, ℕ, ◌+◌, ◌*◌, ◌/◌, ◌%◌, ◌^◌, ◌≤◌, ◌<◌, ◌≡◌, arith, inl, inr}
use khazaros.LibK.Memory.{Bytes, store8, store32}
use khazaros.Fat.Entry.{store16, set_fields, entry_cluster, entry_size}
use khazaros.Fat.Table.Dwords.{load32-store32}

pub set_fields-other :
    (m : Bytes) (e attr c size b : ℕ)
    → (b < e + 11) ⊎ (e + 32 ≤ b)
    → set_fields m e attr c size b ≡ m b
unfolding set_fields store8 store32
set_fields-other m e attr c size b (inl h) = ground arith
set_fields-other m e attr c size b (inr h) = ground arith

-- The fields of a new entry are those that were given.
pub set_fields-attr :
    (m : Bytes) (e attr c size : ℕ) → attr < 256 → set_fields m e attr c size (e + 11) ≡ attr
unfolding set_fields store8 store32
set_fields-attr m e attr c size h = ground arith

pub set_fields-cluster :
    (m : Bytes) (i attr c size : ℕ)
    → c < 2 ^ 32
    → entry_cluster (set_fields m (32 * i) attr c size) i ≡ c
unfolding entry_cluster set_fields store8 store32
set_fields-cluster m i attr c size h = ground arith

pub set_fields-size :
    (m : Bytes) (i attr c size : ℕ)
    → size < 2 ^ 32
    → entry_size (set_fields m (32 * i) attr c size) i ≡ size
unfolding entry_size set_fields
set_fields-size m i attr c size h =
    load32-store32
      (store16 (store16 (store8 m (32 * i + 11) attr) (32 * i + 26) (c % 65536)) (32 * i + 20)
        (c / 2 ^ 16 % 65536))
      (32 * i + 28) size h
