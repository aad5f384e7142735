-- ===== src/Fat/Name/Places.antt =====
-- `format_fat_name` of kernel/fs/fat32/fat32.c writes the same 11 bytes wherever it writes them, and
-- no others.
use khazaros.Base.{
  ◌⊎◌, ℕ, zero, suc, ◌+◌, ◌≤◌, ◌<◌, ◌≡◌, ◌≢◌, refl, sym, ap, ◌∙◌, not, ◌&&◌, Option, none, some,
  arith, ◌==◌, Bool-cases, inl, inr, ne→==,
}
use mathlib.Core.Option
use mathlib.Core.Option.{none-ne-some, some-injective}
use khazaros.LibK.Memory.{Bytes, store8, memset}
use khazaros.LibK.Text.{Chars}
use khazaros.LibK.Copy.{memset_lem}
use khazaros.Fat.Name.{
  upper, base_loop, skip_to_dot, extension_loop, add_extension, format_fat_name,
}

-- Two memories hold the same 11 bytes, one from `a` on, the other from `b` on.
abbrev pub Same : (n : ℕ) → (m : Bytes) (a : ℕ) (m' : Bytes) (b : ℕ) → Type 0
Same n m a m' b = (k : ℕ) → k < n → m (a + k) ≡ m' (b + k)

store8-Same :
    (n : ℕ) (m : Bytes) (a : ℕ) (m' : Bytes) (b k v : ℕ)
    → Same n m a m' b
    → Same n (store8 m (a + k) v) a (store8 m' (b + k) v) b
unfolding store8
store8-Same n m a m' b k v h j p = ground (arith, h j p)

base_loop-Same :
    (left i : ℕ) (m : Bytes) (a : ℕ) (m' : Bytes) (b : ℕ) (src : Chars)
    → Same 11 m a m' b
    → ((base_loop left i m a src).0 ≡ (base_loop left i m' b src).0)
      × Same 11 (base_loop left i m a src).1 a (base_loop left i m' b src).1 b
unfolding base_loop
base_loop-Same zero i m a m' b src h = (refl, h)
base_loop-Same (suc left) i m a m' b src h =
    elim (Bool-cases (not (src i == b'.') && not (src i == 0))) [
      | inl e ↦
          rw e
            (base_loop-Same left (i + 1) _ a _ b src (store8-Same 11 m a m' b i (upper (src i)) h))
      | inr ne ↦ rw ne (refl, h)
    ]

extension_loop-Same :
    (left j i : ℕ) (m : Bytes) (a : ℕ) (m' : Bytes) (b : ℕ) (src : Chars)
    → Same 11 m a m' b
    → Same 11 (extension_loop left j i m a src) a (extension_loop left j i m' b src) b
unfolding extension_loop
extension_loop-Same zero j i m a m' b src h = h
extension_loop-Same (suc left) j i m a m' b src h = elim (Bool-cases (not (src i == 0))) [
  | inl e ↦ rw e (
      extension_loop-Same left (j + 1) (i + 1) _ a _ b src
        (store8-Same 11 m a m' b j (upper (src i)) h))
  | inr ne ↦ rw ne h
]

add_extension-Same :
    (i : ℕ) (m : Bytes) (a : ℕ) (m' : Bytes) (b : ℕ) (src : Chars)
    → Same 11 m a m' b
    → Same 11 (add_extension i m a src) a (add_extension i m' b src) b
unfolding add_extension
add_extension-Same i m a m' b src h = elim (Bool-cases (src i == b'.')) [
  | inl e ↦ rw e (extension_loop-Same 3 8 (i + 1) m a m' b src h)
  | inr ne ↦ rw ne h
]

spaces-Same :
    (m : Bytes) (a : ℕ) (m' : Bytes) (b : ℕ)
    → Same 11 (memset m a b' ' 11) a (memset m' b b' ' 11) b
spaces-Same m a m' b k p =
    ground (arith, memset_lem m a b' ' 11 (a + k), memset_lem m' b b' ' 11 (b + k))

-- the same name formatted to two places
abbrev pub Formats : Option Bytes → (a : ℕ) → Option Bytes → (b : ℕ) → Type 0
Formats none a none b = Unit {0}
Formats none a (some m') b = ⊥
Formats (some m) a none b = ⊥
Formats (some m) a (some m') b = Same 11 m a m' b

map-Formats :
    (o o' : Option ℕ) (f g : ℕ → Bytes) (a b : ℕ)
    → o ≡ o'
    → ((k : ℕ) → Same 11 (f k) a (g k) b)
    → Formats (Option.map f o) a (Option.map g o') b
map-Formats o o' f g a b e h = rw (sym e) (here o)
  where
    here : (o : Option ℕ) → Formats (Option.map f o) a (Option.map g o) b
    here none = tt
    here (some k) = h k

pub format_fat_name-Formats :
    (fuel : ℕ) (src : Chars) (m : Bytes) (a : ℕ) (m' : Bytes) (b : ℕ)
    → Formats (format_fat_name fuel src m a) a (format_fat_name fuel src m' b) b
unfolding format_fat_name
format_fat_name-Formats fuel src m a m' b =
    let h =
      base_loop-Same 8 0 (memset m a b' ' 11) a (memset m' b b' ' 11) b src
        (spaces-Same m a m' b) in
    map-Formats _ _ _ _ a b (ap (λ i. skip_to_dot fuel i src) h.0)
      λ k. add_extension-Same k _ a _ b src h.1

-- What the formatting writes outside the 11 bytes: nothing.
abbrev pub Outside : (a n : ℕ) → (m m' : Bytes) → Type 0
Outside a n m m' = (b : ℕ) → (b < a) ⊎ (a + n ≤ b) → m' b ≡ m b

store8-other : (m : Bytes) (a v b : ℕ) → b ≢ a → store8 m a v b ≡ m b
unfolding store8
store8-other m a v b ne = rw (ne→== b a ne) refl

outside_ne : (b a k : ℕ) → (b < a) ⊎ (a + 11 ≤ b) → k < 11 → b ≢ a + k
outside_ne b a k (inl h) p e = omega arith
outside_ne b a k (inr h) p e = omega arith

base_loop-Outside :
    (left i : ℕ) (m : Bytes) (a : ℕ) (src : Chars)
    → i + left ≤ 11
    → Outside a 11 m (base_loop left i m a src).1
unfolding base_loop
base_loop-Outside zero i m a src h b o = refl
base_loop-Outside (suc left) i m a src h b o =
    elim (Bool-cases (not (src i == b'.') && not (src i == 0))) [
      | inl e ↦ rw e (
          base_loop-Outside left (i + 1) _ a src (omega arith) b o
          ∙ store8-other m (a + i) (upper (src i)) b (outside_ne b a i o (omega arith)))
      | inr ne ↦ rw ne refl
    ]

extension_loop-Outside :
    (left j i : ℕ) (m : Bytes) (a : ℕ) (src : Chars)
    → j + left ≤ 11
    → Outside a 11 m (extension_loop left j i m a src)
unfolding extension_loop
extension_loop-Outside zero j i m a src h b o = refl
extension_loop-Outside (suc left) j i m a src h b o = elim (Bool-cases (not (src i == 0))) [
  | inl e ↦ rw e (
      extension_loop-Outside left (j + 1) (i + 1) _ a src (omega arith) b o
      ∙ store8-other m (a + j) (upper (src i)) b (outside_ne b a j o (omega arith)))
  | inr ne ↦ rw ne refl
]

add_extension-Outside :
    (i : ℕ) (m : Bytes) (a : ℕ) (src : Chars) → Outside a 11 m (add_extension i m a src)
unfolding add_extension
add_extension-Outside i m a src b o = elim (Bool-cases (src i == b'.')) [
  | inl e ↦ rw e (extension_loop-Outside 3 8 (i + 1) m a src (omega arith) b o)
  | inr ne ↦ rw ne refl
]

map-Outside :
    (f : ℕ → Bytes) (a : ℕ) (m : Bytes)
    → ((k : ℕ) → Outside a 11 m (f k))
    → (o : Option ℕ) {m' : Bytes} → Option.map f o ≡ some m'
    → Outside a 11 m m'
map-Outside f a m h none {m'} e = absurd (none-ne-some m' e)
map-Outside f a m h (some k) {m'} e = rw (sym (some-injective (f k) m' e)) (h k)

pub format_fat_name-Outside :
    (fuel : ℕ) (src : Chars) (m : Bytes) (a : ℕ) {m' : Bytes}
    → format_fat_name fuel src m a ≡ some m'
    → Outside a 11 m m'
unfolding format_fat_name
format_fat_name-Outside fuel src m a e =
    map-Outside _ a m
      (λ k b o.
        add_extension-Outside k _ a src b o
        ∙ base_loop-Outside 8 0 _ a src (omega arith) b o
        ∙ spaces_outside b o)
      (skip_to_dot fuel (base_loop 8 0 (memset m a b' ' 11) a src).0 src) e
  where
    spaces_outside : Outside a 11 m (memset m a b' ' 11)
    spaces_outside b (inl h) = ground (arith, memset_lem m a b' ' 11 b)
    spaces_outside b (inr h) = ground (arith, memset_lem m a b' ' 11 b)
