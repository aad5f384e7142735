-- ===== src/Syscall/Paths.antt =====
-- How `SYS_UNLINK`, `SYS_MKDIR` and `SYS_CREATE` of kernel/syscall/table.c split a path. The two
-- arrays of 128 bytes start as any memory, and are written without a test of the length.
use khazaros.Base.{
  ◌⊎◌, ℕ, zero, suc, ◌+◌, ◌<◌, ◌≤◌, ◌≡◌, ◌≢◌, Option, none, some, ◌==◌, if◌then◌else◌,
}
use mathlib.Core.Option
use mathlib.Core.Option.{some-injective, some-ne-none, none-ne-some}
use khazaros.LibK.Memory.{store8}
use khazaros.LibK.Text.{Chars, kstrncpy}

-- `for (i...; path[i]; i++) if (path[i] == '/') last_slash = i;`, on fuel, -1 is `none`
unfoldable pub last_slash_loop : (fuel i : ℕ) → (last_slash : Option ℕ) → Chars → Option (Option ℕ)
last_slash_loop zero i last_slash path = none
last_slash_loop (suc fuel) i last_slash path =
    let rest = last_slash_loop fuel (i + 1) (if path i == b'/' then some i else last_slash) path in
    if path i == 0 then some last_slash else rest

-- `"/"`
abbrev pub slash : Chars
slash i = if i == 0 then b'/' else 0

pub record PathParts : Type 0 where
  pub parent_path : Chars
  pub name : Chars

unfoldable pub path_parts : Option ℕ → (parent_path name : Chars) → Chars → PathParts
path_parts none parent_path name path = record {
  parent_path = kstrncpy parent_path 0 slash 2;
  name = kstrncpy name 0 path 127;
}
path_parts (some last_slash) parent_path name path = record {
  parent_path =
      if last_slash == 0
      then kstrncpy parent_path 0 slash 2
      else store8 (kstrncpy parent_path 0 path last_slash) last_slash 0;
  name = kstrncpy name 0 (λ i. path (last_slash + 1 + i)) 127;
}

unfoldable pub split_path : (fuel : ℕ) → (parent_path name : Chars) → Chars → Option PathParts
unfolding last_slash_loop path_parts
split_path fuel parent_path name path =
    Option.map (λ l. path_parts l parent_path name path) (last_slash_loop fuel 0 none path)

-- `k` is where the last slash before the end `n` stands, from index `i` on, or what was found
-- before.
abbrev pub IsLastSlash : (i n : ℕ) → Option ℕ → Option ℕ → Chars → Type 0
IsLastSlash i n before none path = (before ≡ none) × ((j : ℕ) → i ≤ j → j < n → path j ≢ b'/')
IsLastSlash i n before (some k) path =
    (((i ≤ k) × (k < n) × (path k ≡ b'/')) ⊎ (before ≡ some k))
    × ((j : ℕ) → i ≤ j → k < j → j < n → path j ≢ b'/')
