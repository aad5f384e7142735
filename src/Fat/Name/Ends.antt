-- ===== src/Fat/Name/Ends.antt =====
-- The loops of `format_fat_name` of kernel/fs/fat32/fat32.c end, and the name that they write starts
-- like the text.
use khazaros.Base.{
  ℕ, zero, suc, ◌+◌, ◌%◌, ◌≤◌, ◌<◌, ◌≡◌, ◌≢◌, refl, sym, ap, ◌∙◌, not, ◌&&◌, Option, none, some,
  arith, ◌==◌, Bool-cases, inl, inr,
}
use mathlib.Core.Option
use mathlib.Core.Option.{none-ne-some, some-injective}
use khazaros.LibK.Memory.{Bytes, store8, memset}
use khazaros.LibK.Text.{Chars}
use khazaros.LibK.Copy.{memset_lem}
use khazaros.Fat.Name.{
  upper, base_loop, skip_to_dot, extension_loop, add_extension, format_fat_name,
}

-- The loop over the base stops at the end of the text.
base_loop-ends :
    (left i k : ℕ) (m : Bytes) (a : ℕ) (src : Chars)
    → src k ≡ 0
    → i ≤ k
    → (base_loop left i m a src).0 ≤ k
unfolding base_loop
base_loop-ends zero i k m a src e h = h
base_loop-ends (suc left) i k m a src e h = elim (Bool-cases (i == k)) [
  | inl same ↦ ground (arith, e, same)
  | inr other ↦
      ground (arith, base_loop-ends left (i + 1) k (store8 m (a + i) (upper (src i))) a src e)
]

skip_to_dot-ends :
    (fuel i k : ℕ) (src : Chars) → src k ≡ 0 → i ≤ k → k < i + fuel → skip_to_dot fuel i src ≢ none
unfolding skip_to_dot
skip_to_dot-ends zero i k src e h b = absurd (omega arith)
skip_to_dot-ends (suc fuel) i k src e h b = elim (Bool-cases (i == k)) [
  | inl same ↦ ground (arith, e, same)
  | inr other ↦ ground (arith, skip_to_dot-ends fuel (i + 1) k src e)
]

map-some : (o : Option ℕ) (f : ℕ → Bytes) → o ≢ none → Option.map f o ≢ none
map-some none f h e = h refl
map-some (some k) f h e = none-ne-some (f k) (sym e)

-- A text that ends within the fuel is formatted.
pub format_fat_name-ends :
    (fuel k : ℕ) (src : Chars) (m : Bytes) (a : ℕ)
    → src k ≡ 0
    → k < fuel
    → format_fat_name fuel src m a ≢ none
unfolding format_fat_name
format_fat_name-ends fuel k src m a e h =
    map-some (skip_to_dot fuel (base_loop 8 0 (memset m a b' ' 11) a src).0 src) _ (
      skip_to_dot-ends fuel _ k src e
        (base_loop-ends 8 0 k (memset m a b' ' 11) a src e (omega arith)) (omega arith))

-- The characters that were written stay.
base_loop-before :
    (left i : ℕ) (m : Bytes) (a : ℕ) (src : Chars) → 0 < i → (base_loop left i m a src).1 a ≡ m a
unfolding base_loop store8
base_loop-before zero i m a src h = refl
base_loop-before (suc left) i m a src h =
    ground (arith, base_loop-before left (i + 1) (store8 m (a + i) (upper (src i))) a src)

extension_loop-before :
    (left j i : ℕ) (m : Bytes) (a : ℕ) (src : Chars)
    → 0 < j
    → extension_loop left j i m a src a ≡ m a
unfolding extension_loop store8
extension_loop-before zero j i m a src h = refl
extension_loop-before (suc left) j i m a src h =
    ground
      (arith, extension_loop-before left (j + 1) (i + 1) (store8 m (a + j) (upper (src i))) a src)

add_extension-before : (i : ℕ) (m : Bytes) (a : ℕ) (src : Chars) → add_extension i m a src a ≡ m a
unfolding add_extension
add_extension-before i m a src =
    ground (arith, extension_loop-before 3 8 (i + 1) m a src (omega arith))

upper-nonzero : (c : ℕ) → c ≢ 0 → c < 256 → upper c % 256 ≢ 0
unfolding upper
upper-nonzero c h b = ground arith

stored-nonzero : (m : Bytes) (a v : ℕ) → v % 256 ≢ 0 → store8 m (a + 0) v a ≢ 0
unfolding store8
stored-nonzero m a v h = ground (arith, h)

base_loop-starts :
    (left : ℕ) (m : Bytes) (a : ℕ) (src : Chars)
    → src 0 ≢ 0
    → src 0 < 256
    → m a ≢ 0
    → (base_loop (suc left) 0 m a src).1 a ≢ 0
unfolding base_loop
base_loop-starts left m a src h b n = elim (Bool-cases (not (src 0 == b'.') && not (src 0 == 0))) [
  | inl e ↦
      rw (e, base_loop-before left 1 (store8 m (a + 0) (upper (src 0))) a src (omega arith))
        (stored-nonzero m a (upper (src 0)) (upper-nonzero (src 0) h b))
  | inr ne ↦ rw ne n
]

-- The name that is written does not start with 0, if the text does not.
pub format_fat_name-starts :
    (fuel : ℕ) (src : Chars) (m : Bytes) (a : ℕ) {m' : Bytes}
    → format_fat_name fuel src m a ≡ some m'
    → src 0 ≢ 0
    → src 0 < 256
    → m' a ≢ 0
unfolding format_fat_name
format_fat_name-starts fuel src m a {m'} e h b =
    of (skip_to_dot fuel (base_loop 8 0 (memset m a b' ' 11) a src).0 src) e
  where
    of :
        (o : Option ℕ)
        → Option.map (λ k. add_extension k (base_loop 8 0 (memset m a b' ' 11) a src).1 a src) o
          ≡ some m'
        → m' a ≢ 0
    of none e = absurd (none-ne-some m' e)
    of (some k) e =
        let x =
          base_loop-starts 7 (memset m a b' ' 11) a src h b
            (ground (arith, memset_lem m a b' ' 11 a)) in
        λ z. x (
          sym (add_extension-before k (base_loop 8 0 (memset m a b' ' 11) a src).1 a src)
          ∙ ap (λ (f : Bytes). f a) (some-injective _ m' e)
          ∙ z)
