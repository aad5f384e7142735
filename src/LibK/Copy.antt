-- ===== src/LibK/Copy.antt =====
-- The memory functions write what they promise: the range, and nothing else.
use khazaros.Base.{
  ℕ, zero, suc, ◌+◌, ◌-◌, ◌*◌, ◌/◌, ◌%◌, ◌^◌, ◌≤◌, ◌<◌, ◌≡◌, ap, ◌∙◌, Bool, ◌&&◌, arith, ltb, leb,
  if◌then◌else◌, ◌⊎◌, inl, inr, Bool-cases, ltb→lt, ltb→ge,
}
use khazaros.LibK.Memory.{
  Bytes, store8, load32, store32, set_dwords, set_bytes, memset, copy_dwords, copy_bytes, memcpy,
  copy_down, memmove,
}

-- address `a` is one of the `n` from `d` on
abbrev pub within : (d n a : ℕ) → Bool
within d n a = leb d a && ltb a (d + n)

-- every cell holds a byte
abbrev pub AreBytes : Bytes → Type 0
AreBytes m = (a : ℕ) → m a < 256

set_bytes-at :
    (left i : ℕ) (m : Bytes) (d v a : ℕ)
    → set_bytes left i m d v a ≡ (if within (d + i) left a then v % 256 else m a)
unfolding set_bytes store8
set_bytes-at zero i m d v a = ground arith
set_bytes-at (suc left) i m d v a =
    ground (arith, set_bytes-at left (i + 1) (store8 m (d + i) v) d v a)

-- the four bytes of a dword that repeats one byte
store32_repeat :
    (m : Bytes) (b v a : ℕ)
    → v < 256
    → store32 m b (v + v * 2 ^ 8 + v * 2 ^ 16 + v * 2 ^ 24) a ≡ (if within b 4 a then v else m a)
unfolding store32
store32_repeat m b v a h = ground arith

set_dwords-at :
    (left i : ℕ) (m : Bytes) (d v a : ℕ)
    → v < 256
    → set_dwords left i m d (v + v * 2 ^ 8 + v * 2 ^ 16 + v * 2 ^ 24) a
      ≡ (if within (d + 4 * i) (4 * left) a then v else m a)
unfolding set_dwords
set_dwords-at zero i m d v a h = ground arith
set_dwords-at (suc left) i m d v a h = ground (
  arith,
  set_dwords-at left (i + 1) (store32 m (d + 4 * i) (v + v * 2 ^ 8 + v * 2 ^ 16 + v * 2 ^ 24)) d v
      a,
  store32_repeat m (d + 4 * i) v a,
)

-- `memset` gives every byte of the range the value, and changes no other byte.
pub memset_lem :
    (m : Bytes) (dest val count a : ℕ)
    → memset m dest val count a ≡ (if within dest count a then val % 256 else m a)
unfolding memset
memset_lem m dest val count a = ground (
  arith,
  set_bytes-at (count - 4 * (count / 4)) (4 * (count / 4))
      (set_dwords (count / 4) 0 m dest
        (val % 256 + val % 256 * 2 ^ 8 + val % 256 * 2 ^ 16 + val % 256 * 2 ^ 24))
      dest (val % 256) a,
  set_dwords-at (count / 4) 0 m dest (val % 256) a,
)

store8-AreBytes : (m : Bytes) (a v : ℕ) → AreBytes m → AreBytes (store8 m a v)
unfolding store8
store8-AreBytes m a v h b = ground (arith, h b)

store32-AreBytes : (m : Bytes) (a v : ℕ) → AreBytes m → AreBytes (store32 m a v)
unfolding store32
store32-AreBytes m a v h b = ground (arith, h b)

-- copying a dword copies its four bytes
store32-load32 :
    (m : Bytes) (d s a : ℕ)
    → AreBytes m
    → store32 m d (load32 m s) a ≡ (if within d 4 a then m (s + (a - d)) else m a)
unfolding store32 load32
store32-load32 m d s a h = ground (
  arith,
  h s,
  h (s + 1),
  h (s + 2),
  h (s + 3),
  λ (e : a ≡ d). ap m (first e),
  λ (e : a ≡ d + 1). ap m (second e),
  λ (e : a ≡ d + 2). ap m (third e),
  λ (e : a ≡ d + 3). ap m (fourth e),
)
  where
    first : a ≡ d → s + (a - d) ≡ s
    first e = omega arith

    second : a ≡ d + 1 → s + (a - d) ≡ s + 1
    second e = omega arith

    third : a ≡ d + 2 → s + (a - d) ≡ s + 2
    third e = omega arith

    fourth : a ≡ d + 3 → s + (a - d) ≡ s + 3
    fourth e = omega arith

-- Upwards, a copy is right if the source starts no earlier than the destination, or lies before it.
copy_bytes-at :
    (left i : ℕ) (m : Bytes) (d s a : ℕ)
    → AreBytes m
    → (d ≤ s) ⊎ (s + i + left ≤ d + i)
    → copy_bytes left i m d s a ≡ (if within (d + i) left a then m (s + (a - d)) else m a)
unfolding copy_bytes
copy_bytes-at zero i m d s a h apart = ground arith
copy_bytes-at (suc left) i m d s a h apart =
    copy_bytes-at left (i + 1) (store8 m (d + i) (m (s + i))) d s a
      (store8-AreBytes m (d + i) (m (s + i)) h) (next apart)
    ∙ stepped
  where
    next : (d ≤ s) ⊎ (s + i + suc left ≤ d + i) → (d ≤ s) ⊎ (s + (i + 1) + left ≤ d + (i + 1))
    next (inl le) = inl le
    next (inr le) = inr (omega arith)

    here : a ≡ d + i → s + (a - d) ≡ s + i
    here e = omega arith

    stepped :
        (if within (d + (i + 1)) left a
          then store8 m (d + i) (m (s + i)) (s + (a - d))
          else store8 m (d + i) (m (s + i)) a)
        ≡ (if within (d + i) (suc left) a then m (s + (a - d)) else m a)
    stepped = unfold store8 in ground (arith, apart, h (s + i), λ (e : a ≡ d + i). ap m (here e))

copy_down-at :
    (i : ℕ) (m : Bytes) (d s a : ℕ)
    → AreBytes m
    → s ≤ d
    → copy_down i m d s a ≡ (if within d i a then m (s + (a - d)) else m a)
unfolding copy_down
copy_down-at zero m d s a h le = ground arith
copy_down-at (suc i) m d s a h le =
    copy_down-at i (store8 m (d + i) (m (s + i))) d s a (store8-AreBytes m (d + i) (m (s + i)) h) le
    ∙ stepped
  where
    here : a ≡ d + i → s + (a - d) ≡ s + i
    here e = omega arith

    stepped :
        (if within d i a
          then store8 m (d + i) (m (s + i)) (s + (a - d))
          else store8 m (d + i) (m (s + i)) a)
        ≡ (if within d (suc i) a then m (s + (a - d)) else m a)
    stepped = unfold store8 in ground (arith, h (s + i), λ (e : a ≡ d + i). ap m (here e))

-- On a memory of bytes `memmove` copies the range as it was before the call, however source and
-- destination overlap, and changes no other byte.
pub memmove_lem :
    (m : Bytes) (dest src count a : ℕ)
    → AreBytes m
    → memmove m dest src count a ≡ (if within dest count a then m (src + (a - dest)) else m a)
unfolding memmove
memmove_lem m dest src count a h = elim (Bool-cases (ltb dest src)) [
  | inl up ↦
      rw up
        (copy_bytes-at count 0 m dest src a h (inl (omega (arith, ltb→lt _ _ up))) ∙ ground arith)
  | inr down ↦ rw down (copy_down-at count m dest src a h (ltb→ge _ _ down))
]

copy_dwords-at :
    (left i : ℕ) (m : Bytes) (d s a : ℕ)
    → AreBytes m
    → (d + 4 * i + 4 * left ≤ s + 4 * i) ⊎ (s + 4 * i + 4 * left ≤ d + 4 * i)
    → copy_dwords left i m d s a
      ≡ (if within (d + 4 * i) (4 * left) a then m (s + (a - d)) else m a)
unfolding copy_dwords
copy_dwords-at zero i m d s a h apart = ground arith
copy_dwords-at (suc left) i m d s a h apart =
    copy_dwords-at left (i + 1) m₁ d s a (store32-AreBytes m (d + 4 * i) (load32 m (s + 4 * i)) h)
      (next apart)
    ∙ ground (
      arith,
      apart,
      store32-load32 m (d + 4 * i) (s + 4 * i) a h,
      store32-load32 m (d + 4 * i) (s + 4 * i) (s + (a - d)) h,
      λ (e : d + 4 * i ≤ a). ap m (back e),
    )
  where
    m₁ : Bytes
    m₁ = store32 m (d + 4 * i) (load32 m (s + 4 * i))

    next :
        (d + 4 * i + 4 * suc left ≤ s + 4 * i) ⊎ (s + 4 * i + 4 * suc left ≤ d + 4 * i)
        → (d + 4 * (i + 1) + 4 * left ≤ s + 4 * (i + 1))
          ⊎ (s + 4 * (i + 1) + 4 * left ≤ d + 4 * (i + 1))
    next (inl le) = inl (omega arith)
    next (inr le) = inr (omega arith)

    back : d + 4 * i ≤ a → s + 4 * i + (a - (d + 4 * i)) ≡ s + (a - d)
    back le = omega arith

copy_dwords-AreBytes :
    (left i : ℕ) (m : Bytes) (d s : ℕ) → AreBytes m → AreBytes (copy_dwords left i m d s)
unfolding copy_dwords
copy_dwords-AreBytes zero i m d s h = h
copy_dwords-AreBytes (suc left) i m d s h =
    copy_dwords-AreBytes left (i + 1) (store32 m (d + 4 * i) (load32 m (s + 4 * i))) d s
      (store32-AreBytes m (d + 4 * i) (load32 m (s + 4 * i)) h)

-- On a memory of bytes `memcpy` copies the range, if source and destination do not overlap, and
-- changes no other byte.
pub memcpy_lem :
    (m : Bytes) (dest src count a : ℕ)
    → AreBytes m
    → (dest + count ≤ src) ⊎ (src + count ≤ dest)
    → memcpy m dest src count a ≡ (if within dest count a then m (src + (a - dest)) else m a)
unfolding memcpy
memcpy_lem m dest src count a h apart =
    copy_bytes-at (count - 4 * dwords) (4 * dwords) m₁ dest src a
      (copy_dwords-AreBytes dwords 0 m dest src h) (rest apart)
    ∙ ground (
      arith,
      apart,
      copy_dwords-at dwords 0 m dest src a h (first apart),
      copy_dwords-at dwords 0 m dest src (src + (a - dest)) h (first apart),
    )
  where
    dwords : ℕ
    dwords = count / 4

    m₁ : Bytes
    m₁ = copy_dwords dwords 0 m dest src

    rest :
        (dest + count ≤ src) ⊎ (src + count ≤ dest)
        → (dest ≤ src) ⊎ (src + 4 * dwords + (count - 4 * dwords) ≤ dest + 4 * dwords)
    rest (inl le) = inl (omega arith)
    rest (inr le) = inr (omega arith)

    first :
        (dest + count ≤ src) ⊎ (src + count ≤ dest)
        → (dest + 4 * 0 + 4 * dwords ≤ src + 4 * 0) ⊎ (src + 4 * 0 + 4 * dwords ≤ dest + 4 * 0)
    first (inl le) = inl (omega arith)
    first (inr le) = inr (omega arith)
