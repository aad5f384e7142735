-- ===== src/Fat/Name.antt =====
-- Names in 8.3 form: `format_fat_name`, `fat32_compare_name` and the name that `fat32_vfs_readdir`
-- builds.
pub mod Places
pub mod Ends
use khazaros.Base.{
  ℕ, zero, suc, ◌+◌, ◌-◌, Bool, not, ◌&&◌, Option, none, some, ◌==◌, leb, if◌then◌else◌,
}
use mathlib.Core.Option
use khazaros.LibK.Memory.{Bytes, store8, memset}
use khazaros.LibK.Text.{Chars, memcmp}

unfoldable pub upper : ℕ → ℕ
upper c = if leb b'a' c && leb c b'z' then c - 32 else c

-- The characters before the dot, of which up to `left` fit from number `i` on: the index where the
-- loop stops, and the memory.
unfoldable pub base_loop : (left i : ℕ) → Bytes → (dest : ℕ) → Chars → ℕ × Bytes
unfolding upper
base_loop zero i m dest src = (i, m)
base_loop (suc left) i m dest src =
    let rest = base_loop left (i + 1) (store8 m (dest + i) (upper (src i))) dest src in
    if not (src i == b'.') && not (src i == 0) then rest else (i, m)

-- `while (src[i] != '.' && src[i] != '\0') i++`, on fuel
unfoldable pub skip_to_dot : (fuel i : ℕ) → Chars → Option ℕ
skip_to_dot zero i src = none
skip_to_dot (suc fuel) i src =
    let rest = skip_to_dot fuel (i + 1) src in
    if not (src i == b'.') && not (src i == 0) then rest else some i

-- The characters behind the dot, from index `i` of the source to number `j` of the name.
unfoldable pub extension_loop : (left j i : ℕ) → Bytes → (dest : ℕ) → Chars → Bytes
unfolding upper
extension_loop zero j i m dest src = m
extension_loop (suc left) j i m dest src =
    let rest = extension_loop left (j + 1) (i + 1) (store8 m (dest + j) (upper (src i))) dest src in
    if not (src i == 0) then rest else m

unfoldable pub add_extension : (i : ℕ) → Bytes → (dest : ℕ) → Chars → Bytes
unfolding extension_loop
add_extension i m dest src = if src i == b'.' then extension_loop 3 8 (i + 1) m dest src else m

unfoldable pub format_fat_name : (fuel : ℕ) → Chars → Bytes → (dest : ℕ) → Option Bytes
unfolding base_loop skip_to_dot add_extension
format_fat_name fuel src m dest =
    let (i, m₁) = base_loop 8 0 (memset m dest b' ' 11) dest src in
    Option.map (λ k. add_extension k m₁ dest src) (skip_to_dot fuel i src)

-- `normalized` starts as any memory, of which the 11 bytes are set.
unfoldable pub fat32_compare_name : (fuel : ℕ) → (fat_name input_name : Chars) → Option Bool
unfolding format_fat_name
fat32_compare_name fuel fat_name input_name =
    Option.map (λ normalized. memcmp fat_name normalized 11 == 0)
      (format_fat_name fuel input_name (λ _. 0) 0)

-- `for (k ...; k < k + left && name[k] != ' '; k++) name[ni++] = entry.name[k]`: `ni`, and the text
unfoldable pub shown_loop : (left k ni : ℕ) → Chars → Bytes → ℕ × Bytes
shown_loop zero k ni name m = (ni, m)
shown_loop (suc left) k ni name m =
    let rest = shown_loop left (k + 1) (ni + 1) name (store8 m ni (name k)) in
    if not (name k == b' ') then rest else (ni, m)

unfoldable pub shown_extension : (ni : ℕ) → Chars → Bytes → ℕ × Bytes
unfolding shown_loop
shown_extension ni name m =
    if not (name 8 == b' ') then shown_loop 3 8 (ni + 1) name (store8 m ni b'.') else (ni, m)

-- The name of an entry as `fat32_vfs_readdir` shows it, in an array that starts as any memory.
unfoldable pub shown_name : Chars → Chars
unfolding shown_loop shown_extension
shown_name name =
    let (n, m) = shown_loop 8 0 0 name (λ _. 0) in
    let (ni, m₁) = shown_extension n name m in store8 m₁ ni 0
