-- ===== src/Fat/Runs.antt =====
-- Code of kernel/fs/fat32/fat32.c that comes back whatever the heap and the disk do.
use khazaros.Base.{ℕ, ◌≡◌, refl, ap, ◌∙◌, Option, none, some, ◌==◌, Bool-cases, inl, inr}
use khazaros.LibK.Memory.{Bytes}
use khazaros.Fat.{
  Io, pure, and_then, test_null, ◌>>=◌, Buffer, Drivers, Fat32, with_buffer, disk_read_sectors,
}
use khazaros.Fat.Table.{end_of_chain, fat32_get_fat_entry}

-- A run comes back, with a value of that kind.
pub record Runs {W A : Type 0} (P : A → Type 0) (o : Option (A × W)) : Type 0 where
  pub value : A
  pub world : W
  pub run : o ≡ some (value, world)
  pub holds : P value

-- A run comes back, with a value and a world of that kind.
pub record Ends {W A : Type 0} (P : A → W → Type 0) (o : Option (A × W)) : Type 0 where
  pub value : A
  pub world : W
  pub run : o ≡ some (value, world)
  pub holds : P value world

-- any value
abbrev pub Any : {A : Type 0} → A → Type 0
Any a = Unit {0}

module _ {W : Type 0} where
  pub pure-Runs : {A : Type 0} (P : A → Type 0) (a : A) (w : W) → P a → Runs P (pure a w)
  pure-Runs P a w h = record { value = a; world = w; run = refl; holds = h }

  pub Runs-then :
      {A B : Type 0} (P : A → Type 0) (Q : B → Type 0) (m : Io W A) (k : A → Io W B) (w : W)
      → Runs P (m w)
      → ((a : A) (w₁ : W) → P a → Runs Q (k a w₁))
      → Runs Q ((m >>= k) w)
  Runs-then P Q m k w h g =
      let r = g h.value h.world h.holds in
      record {
        value = r.value;
        world = r.world;
        run = ap (λ o. and_then o k) h.run ∙ r.run;
        holds = r.holds;
      }

  pub pure-Ends : {A : Type 0} (P : A → W → Type 0) (a : A) (w : W) → P a w → Ends P (pure a w)
  pure-Ends P a w h = record { value = a; world = w; run = refl; holds = h }

  pub Ends-then :
      {A B : Type 0} (P : A → W → Type 0) (Q : B → W → Type 0) (m : Io W A) (k : A → Io W B) (w : W)
      → Ends P (m w)
      → ((a : A) (w₁ : W) → P a w₁ → Ends Q (k a w₁))
      → Ends Q ((m >>= k) w)
  Ends-then P Q m k w h g =
      let r = g h.value h.world h.holds in
      record {
        value = r.value;
        world = r.world;
        run = ap (λ o. and_then o k) h.run ∙ r.run;
        holds = r.holds;
      }

  pub test_null-Runs :
      {A B : Type 0} (P : A → Type 0) (z : Io W A) (k : B → Io W A) (o : Option B) (w : W)
      → Runs P (z w)
      → ((b : B) → Runs P (k b w))
      → Runs P (test_null o z k w)
  test_null-Runs P z k none w hz hk = hz
  test_null-Runs P z k (some b) w hz hk = hk b

module _ {W : Type 0} (d : Drivers W) where
  pub with_buffer-Runs :
      {A : Type 0} (P : A → Type 0) (n : ℕ) (z : Io W A) (k : Buffer → Io W A) (w : W)
      → ((w₁ : W) → Runs P (z w₁))
      → ((b : Buffer) (w₁ : W) → Runs P (k b w₁))
      → Runs P (with_buffer d n z k w)
  unfolding with_buffer
  with_buffer-Runs P n z k w hz hk =
      test_null-Runs P z k (d.kmalloc n w).0 (d.kmalloc n w).1 (hz _) (λ b. hk b _)

  pub disk_read_sectors-Runs :
      (fat : Fat32) (lba count : ℕ) (b : Bytes) (w : W)
      → Runs Any (disk_read_sectors d fat lba count b w)
  unfolding disk_read_sectors
  disk_read_sectors-Runs fat lba count b w = elim (Bool-cases (fat.fat32_ahci_port == 0)) [
    | inl e ↦ rw e (pure-Runs Any _ _ tt)
    | inr ne ↦ rw ne (pure-Runs Any _ _ tt)
  ]

  pub fat32_get_fat_entry-Runs :
      (fat : Fat32) (c : ℕ) (w : W) → Runs Any (fat32_get_fat_entry d fat c w)
  unfolding fat32_get_fat_entry
  fat32_get_fat_entry-Runs fat c w =
      with_buffer-Runs Any 512 _ _ w (λ w₁. pure-Runs Any end_of_chain w₁ tt)
        λ b w₁.
          Runs-then Any Any (disk_read_sectors d fat _ 1 b.bytes) _ w₁
            (disk_read_sectors-Runs fat _ 1 b.bytes w₁) λ r w₂ h. pure-Runs Any _ _ tt
