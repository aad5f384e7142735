-- ===== src/LibK/Memory.antt =====
-- `memset`, `memcpy` and `memmove` on a memory of bytes. The first two write four bytes at a time,
-- and the rest one by one.
use khazaros.Base.{ℕ, zero, suc, ◌+◌, ◌-◌, ◌*◌, ◌/◌, ◌%◌, ◌^◌, ◌==◌, ltb, if◌then◌else◌}

-- the byte at each address
abbrev pub Bytes : Type 0
Bytes = ℕ → ℕ

unfoldable pub store8 : Bytes → (a v : ℕ) → Bytes
store8 m a v b = if b == a then v % 256 else m b

-- `*(uint32_t *)a`, little-endian
unfoldable pub load32 : Bytes → ℕ → ℕ
load32 m a = m a + 256 * m (a + 1) + 65536 * m (a + 2) + 16777216 * m (a + 3)

unfoldable pub store32 : Bytes → (a v : ℕ) → Bytes
store32 m a v b =
    if b == a
    then v % 256
    else if b == a + 1
    then v / 256 % 256
    else if b == a + 2
    then v / 65536 % 256
    else if b == a + 3
    then v / 16777216 % 256
    else m b

-- `d32[i] = v32` for the `left` dwords from number `i` on
unfoldable pub set_dwords : (left i : ℕ) → Bytes → (d v32 : ℕ) → Bytes
set_dwords zero i m d v32 = m
set_dwords (suc left) i m d v32 = set_dwords left (i + 1) (store32 m (d + 4 * i) v32) d v32

-- `d8[i] = v` for the `left` bytes from number `i` on
unfoldable pub set_bytes : (left i : ℕ) → Bytes → (d v : ℕ) → Bytes
set_bytes zero i m d v = m
set_bytes (suc left) i m d v = set_bytes left (i + 1) (store8 m (d + i) v) d v

unfoldable pub memset : Bytes → (dest val count : ℕ) → Bytes
memset m dest val count =
    let v = val % 256 in
    let v32 = v + v * 2 ^ 8 + v * 2 ^ 16 + v * 2 ^ 24 in
    let dwords = count / 4 in
    set_bytes (count - 4 * dwords) (4 * dwords) (set_dwords dwords 0 m dest v32) dest v

unfoldable pub copy_dwords : (left i : ℕ) → Bytes → (d s : ℕ) → Bytes
copy_dwords zero i m d s = m
copy_dwords (suc left) i m d s =
    copy_dwords left (i + 1) (store32 m (d + 4 * i) (load32 m (s + 4 * i))) d s

-- `d[i] = s[i]` for the `left` bytes from number `i` on, upwards
unfoldable pub copy_bytes : (left i : ℕ) → Bytes → (d s : ℕ) → Bytes
copy_bytes zero i m d s = m
copy_bytes (suc left) i m d s = copy_bytes left (i + 1) (store8 m (d + i) (m (s + i))) d s

unfoldable pub memcpy : Bytes → (dest src count : ℕ) → Bytes
memcpy m dest src count =
    let dwords = count / 4 in
    copy_bytes (count - 4 * dwords) (4 * dwords) (copy_dwords dwords 0 m dest src) dest src

-- `for (i = count; i > 0; i--) d[i - 1] = s[i - 1]`
unfoldable pub copy_down : (i : ℕ) → Bytes → (d s : ℕ) → Bytes
copy_down zero m d s = m
copy_down (suc i) m d s = copy_down i (store8 m (d + i) (m (s + i))) d s

unfoldable pub memmove : Bytes → (dest src count : ℕ) → Bytes
memmove m dest src count =
    if ltb dest src then copy_bytes count 0 m dest src else copy_down count m dest src
