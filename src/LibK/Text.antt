-- ===== src/LibK/Text.antt =====
-- The functions on strings that a zero byte ends, and `memcmp`. A string is the function from an
-- index to the byte there, which may be read past the end.
use khazaros.Base.{
  ℕ, zero, suc, ◌+◌, ◌-◌, ◌^◌, ◌%◌, not, ◌&&◌, Option, none, some, ◌==◌, if◌then◌else◌,
}
use khazaros.LibK.Memory.{Bytes, store8}

abbrev pub Chars : Type 0
Chars = ℕ → ℕ

-- `while (str[len]) len++`, on fuel
unfoldable pub strlen_loop : (fuel len : ℕ) → Chars → Option ℕ
strlen_loop zero len str = none
strlen_loop (suc fuel) len str =
    let rest = strlen_loop fuel (len + 1) str in if str len == 0 then some len else rest

unfoldable pub strlen : ℕ → Chars → Option ℕ
unfolding strlen_loop
strlen fuel str = strlen_loop fuel 0 str

-- the difference of two bytes as an `int`, a 32-bit word
abbrev pub byte_diff : ℕ → ℕ → ℕ
byte_diff a b = (a + (2 ^ 32 - b)) % 2 ^ 32

-- The loop from index `i` on, on fuel.
unfoldable pub strcmp_loop : (fuel i : ℕ) (s₁ s₂ : Chars) → Option ℕ
strcmp_loop zero i s₁ s₂ = none
strcmp_loop (suc fuel) i s₁ s₂ =
    let rest = strcmp_loop fuel (i + 1) s₁ s₂ in
    if not (s₁ i == 0) && (s₁ i == s₂ i) then rest else some (byte_diff (s₁ i) (s₂ i))

unfoldable pub strcmp : ℕ → (s₁ s₂ : Chars) → Option ℕ
unfolding strcmp_loop
strcmp fuel s₁ s₂ = strcmp_loop fuel 0 s₁ s₂

-- The loop with `n` bytes left; `n--` makes the test fail with `n` at -1 where none is left.
unfoldable pub strncmp_loop : (n i : ℕ) (s₁ s₂ : Chars) → ℕ
strncmp_loop zero i s₁ s₂ = 0
strncmp_loop (suc n) i s₁ s₂ =
    let rest = strncmp_loop n (i + 1) s₁ s₂ in
    if not (s₁ i == 0) && (s₁ i == s₂ i) then rest else byte_diff (s₁ i) (s₂ i)

unfoldable pub strncmp : (s₁ s₂ : Chars) (n : ℕ) → ℕ
unfolding strncmp_loop
strncmp s₁ s₂ n = strncmp_loop n 0 s₁ s₂

-- `n` bytes are left from index `i` on.
unfoldable pub memcmp_loop : (n i : ℕ) (p₁ p₂ : Chars) → ℕ
memcmp_loop zero i p₁ p₂ = 0
memcmp_loop (suc n) i p₁ p₂ =
    let rest = memcmp_loop n (i + 1) p₁ p₂ in
    if not (p₁ i == p₂ i) then byte_diff (p₁ i) (p₂ i) else rest

unfoldable pub memcmp : (p₁ p₂ : Chars) (n : ℕ) → ℕ
unfolding memcmp_loop
memcmp p₁ p₂ n = memcmp_loop n 0 p₁ p₂

-- The second loop of `kstrncpy`: zeros, for the `left` bytes from index `i` on.
unfoldable pub pad : (left i : ℕ) → Bytes → (dest : ℕ) → Bytes
pad zero i m dest = m
pad (suc left) i m dest = pad left (i + 1) (store8 m (dest + i) 0) dest

-- The first loop, and the second where it stops. `src` is not part of the memory that is written.
unfoldable pub kstrncpy_loop : (left i : ℕ) → Bytes → (dest : ℕ) → Chars → Bytes
unfolding pad
kstrncpy_loop zero i m dest src = m
kstrncpy_loop (suc left) i m dest src =
    let rest = kstrncpy_loop left (i + 1) (store8 m (dest + i) (src i)) dest src in
    if src i == 0 then pad (suc left) i m dest else rest

unfoldable pub kstrncpy : Bytes → (dest : ℕ) → Chars → (n : ℕ) → Bytes
unfolding kstrncpy_loop
kstrncpy m dest src n = kstrncpy_loop n 0 m dest src
