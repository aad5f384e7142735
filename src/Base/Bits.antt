-- ===== src/Base/Bits.antt =====
-- Single bits of a word, and the native bit operations read bit by bit and as fields.
use Prim.Native.Nat.{digits, bitwise, bit_and-bitwise, bit_or-bitwise}
use native.Mathlib.Nat.{
  pow-suc, one-le-pow, le_refl, mod-lt, mod-add-div', mod-eq_of_lt, div-div-eq-div-mul,
  add-mul-mod_self_right,
}
use mathlib.Core.Path.{◌≡⟨◌⟩◌, ◌∎, ap, ap₂, ◌∙◌, sym}
use khazaros.Base.{
  ℕ, zero, suc, ◌+◌, ◌-◌, ◌*◌, ◌/◌, ◌%◌, ◌^◌, ◌≤◌, ◌<◌, min, max, bit_and, bit_or, ◌≡◌, refl, Bool,
  true, false, not, ◌&&◌, ◌||◌, arith, ◌==◌, if◌then◌else◌,
}

module _ (z : ℕ → ℕ) (f : ℕ → ℕ → ℕ) where
  -- enough rounds of the digit recursion give one value
  digits_enough : (k l a b : ℕ) → a ≤ k → a ≤ l → digits z f k a b ≡ digits z f l a b
  digits_enough k l zero b p q = base k l
    where
      base : (k l : ℕ) → digits z f k 0 b ≡ digits z f l 0 b
      base zero zero = refl
      base zero (suc l) = refl
      base (suc k) zero = refl
      base (suc k) (suc l) = refl
  digits_enough zero l (suc a) b p q = absurd (omega arith)
  digits_enough (suc k) zero (suc a) b p q = absurd (omega arith)
  digits_enough (suc k) (suc l) (suc a) b p q =
      rw (digits_enough k l (suc a / 2) (b / 2) (omega arith) (omega arith))

  bitwise_digit :
      (a b : ℕ)
      → bitwise z f (suc a) b ≡ bitwise z f (suc a / 2) (b / 2) * 2 + f (suc a % 2) (b % 2)
  bitwise_digit a b =
      omega (arith, digits_enough a (suc a / 2) (suc a / 2) (b / 2) (omega arith) (le_refl _))

pub bit_or_digit : (a b : ℕ) → bit_or a b ≡ bit_or (a / 2) (b / 2) * 2 + max (a % 2) (b % 2)
bit_or_digit zero b = simp bit_or-bitwise (omega arith)
bit_or_digit (suc a) b = simp bit_or-bitwise (bitwise_digit (λ y. y) max a b)

pub bit_and_digit : (a b : ℕ) → bit_and a b ≡ bit_and (a / 2) (b / 2) * 2 + min (a % 2) (b % 2)
bit_and_digit zero b = simp bit_and-bitwise (omega arith)
bit_and_digit (suc a) b = simp bit_and-bitwise (bitwise_digit (λ y. 0) min a b)

-- bit `k` of `w`
pub test_bit : ℕ → ℕ → Bool
test_bit zero w = w % 2 == 1
test_bit (suc k) w = test_bit k (w / 2)

bit_or-half : (a b : ℕ) → bit_or a b / 2 ≡ bit_or (a / 2) (b / 2)
bit_or-half a b = omega (arith, bit_or_digit a b)

bit_and-half : (a b : ℕ) → bit_and a b / 2 ≡ bit_and (a / 2) (b / 2)
bit_and-half a b = omega (arith, bit_and_digit a b)

pub test_bit-or : (k a b : ℕ) → test_bit k (bit_or a b) ≡ (test_bit k a || test_bit k b)
unfolding test_bit
test_bit-or zero a b = ground (arith, bit_or_digit a b)
test_bit-or (suc k) a b = rw bit_or-half (test_bit-or k (a / 2) (b / 2))

pub test_bit-and : (k a b : ℕ) → test_bit k (bit_and a b) ≡ (test_bit k a && test_bit k b)
unfolding test_bit
test_bit-and zero a b = ground (arith, bit_and_digit a b)
test_bit-and (suc k) a b = rw bit_and-half (test_bit-and k (a / 2) (b / 2))

pub double-pow : (k : ℕ) → 2 ^ suc k ≡ 2 ^ k + 2 ^ k
double-pow k = omega (arith, pow-suc 2 k)

test_bit-zero : (k : ℕ) → test_bit k 0 ≡ false
unfolding test_bit
test_bit-zero zero = refl
test_bit-zero (suc k) = test_bit-zero k

pow_suc-half : (k : ℕ) → 2 ^ suc k / 2 ≡ 2 ^ k
pow_suc-half k = omega (arith, double-pow k)

pub test_bit-pow : (j k : ℕ) → test_bit j (2 ^ k) ≡ (j == k)
unfolding test_bit
test_bit-pow zero zero = refl
test_bit-pow zero (suc k) = ground (arith, double-pow k)
test_bit-pow (suc j) zero = rw (test_bit-zero j) (ground arith)
test_bit-pow (suc j) (suc k) = rw (pow_suc-half k, test_bit-pow j k) (ground arith)

pub test_bit-ones : (j n : ℕ) → j < n → test_bit j (2 ^ n - 1) ≡ true
unfolding test_bit
test_bit-ones j zero h = absurd (omega arith)
test_bit-ones zero (suc n) h = ground (arith, double-pow n, one-le-pow n 2 (omega arith))
test_bit-ones (suc j) (suc n) h = rw halved (test_bit-ones j n (omega arith))
  where
    halved : (2 ^ suc n - 1) / 2 ≡ 2 ^ n - 1
    halved = omega (arith, double-pow n, one-le-pow n 2 (omega arith))

pub pow-lt-pow : (k n : ℕ) → k < n → 2 ^ k < 2 ^ n
pow-lt-pow k zero h = absurd (omega arith)
pow-lt-pow zero (suc n) h = omega (arith, double-pow n, one-le-pow n 2 (omega arith))
pow-lt-pow (suc k) (suc n) h =
    omega (arith, double-pow n, double-pow k, pow-lt-pow k n (omega arith))

-- the mask `~(1 << k)` of an `n`-bit word
pub test_bit-hole : (j k n : ℕ) → j < n → k < n → test_bit j (2 ^ n - 1 - 2 ^ k) ≡ not (j == k)
unfolding test_bit
test_bit-hole j k zero p q = absurd (omega arith)
test_bit-hole zero zero (suc n) p q = ground (arith, double-pow n, one-le-pow n 2 (omega arith))
test_bit-hole zero (suc k) (suc n) p q =
    ground (arith, double-pow n, double-pow k, pow-lt-pow k n (omega arith))
test_bit-hole (suc j) zero (suc n) p q = rw (halved, test_bit-ones j n (omega arith)) (ground arith)
  where
    halved : (2 ^ suc n - 1 - 2 ^ 0) / 2 ≡ 2 ^ n - 1
    halved = omega (arith, double-pow n, one-le-pow n 2 (omega arith))
test_bit-hole (suc j) (suc k) (suc n) p q =
    rw (halved, test_bit-hole j k n (omega arith) (omega arith)) (ground arith)
  where
    halved : (2 ^ suc n - 1 - 2 ^ suc k) / 2 ≡ 2 ^ n - 1 - 2 ^ k
    halved = omega (arith, double-pow n, double-pow k, pow-lt-pow k n (omega arith))

pub zero-bit_and : (b : ℕ) → bit_and 0 b ≡ 0
zero-bit_and b = bit_and-bitwise 0 b

bit_and-zero_below : (n a : ℕ) → a ≤ n → bit_and a 0 ≡ 0
bit_and-zero_below n zero h = zero-bit_and 0
bit_and-zero_below zero (suc a) h = absurd (omega arith)
bit_and-zero_below (suc n) (suc a) h =
    omega (arith, bit_and_digit (suc a) 0, bit_and-zero_below n (suc a / 2) (omega arith))

pub bit_and-zero : (a : ℕ) → bit_and a 0 ≡ 0
bit_and-zero a = bit_and-zero_below a a (le_refl a)

-- `w & (1 << k)` is the bit, in its place.
pub bit_and-pow : (k w : ℕ) → bit_and w (2 ^ k) ≡ (if test_bit k w then 2 ^ k else 0)
unfolding test_bit
bit_and-pow zero w = ground (arith, bit_and_digit w 1, bit_and-zero (w / 2))
bit_and-pow (suc k) w =
    ground (arith, bit_and_digit w (2 ^ suc k), double-pow k, pow_suc-half k, bit_and-pow k (w / 2))

-- the test `w & (1 << k)` of C
pub bit_and-pow_test : (k w : ℕ) → (bit_and w (2 ^ k) == 0) ≡ not (test_bit k w)
bit_and-pow_test k w = ground (arith, bit_and-pow k w, one-le-pow k 2)

mod-double : (k a : ℕ) → a % 2 ^ suc k ≡ a / 2 % 2 ^ k * 2 + a % 2
mod-double k a =
    a % 2 ^ suc k
    ≡⟨ ap (λ t. t % 2 ^ suc k) split ⟩ (low + a / 2 / 2 ^ k * 2 ^ suc k) % 2 ^ suc k
    ≡⟨ add-mul-mod_self_right low (a / 2 / 2 ^ k) (2 ^ suc k) ⟩ low % 2 ^ suc k
    ≡⟨ mod-eq_of_lt small ⟩ low ∎
  where
    low : ℕ
    low = a / 2 % 2 ^ k * 2 + a % 2

    split : a ≡ low + a / 2 / 2 ^ k * 2 ^ suc k
    split = omega (arith, ap (λ t. a / 2 / 2 ^ k * t) (double-pow k), mod-add-div' (a / 2) (2 ^ k))

    small : low < 2 ^ suc k
    small = omega (arith, double-pow k, mod-lt (a / 2) (one-le-pow k 2 (omega arith)))

-- a mask of `k` low bits is the remainder by `2 ^ k`
pub bit_and-low : (k a : ℕ) → bit_and a (2 ^ k - 1) ≡ a % 2 ^ k
bit_and-low zero a = omega (arith, bit_and-zero a)
bit_and-low (suc k) a = omega (
  arith,
  bit_and_digit a (2 ^ suc k - 1),
  ap (λ t. bit_and (a / 2) t * 2) halved,
  bit_and-low k (a / 2),
  mod-double k a,
  double-pow k,
  one-le-pow k 2,
)
  where
    halved : (2 ^ suc k - 1) / 2 ≡ 2 ^ k - 1
    halved = omega (arith, double-pow k, one-le-pow k 2 (omega arith))

mul_double : (k m : ℕ) → m * 2 ^ suc k ≡ m * 2 * 2 ^ k
mul_double k m = omega (arith, ap (λ t. m * t) (double-pow k))

bit_and-double : (x m : ℕ) → bit_and x (m * 2) ≡ bit_and (x / 2) m * 2
bit_and-double x m = omega (arith, bit_and_digit x (m * 2), ap (bit_and (x / 2)) halved)
  where
    halved : m * 2 / 2 ≡ m
    halved = omega arith

-- `&` with a mask of high bits clears the low ones
pub bit_and-shift : (k a m : ℕ) → bit_and a (m * 2 ^ k) ≡ bit_and (a / 2 ^ k) m * 2 ^ k
bit_and-shift zero a m = ground arith
bit_and-shift (suc k) a m =
    bit_and a (m * 2 ^ suc k)
    ≡⟨ ap (bit_and a) (mul_double k m) ⟩ bit_and a (m * 2 * 2 ^ k)
    ≡⟨ bit_and-shift k a (m * 2) ⟩ bit_and (a / 2 ^ k) (m * 2) * 2 ^ k
    ≡⟨ ap (λ t. t * 2 ^ k) (bit_and-double (a / 2 ^ k) m) ⟩ bit_and (a / 2 ^ k / 2) m * 2 * 2 ^ k
    ≡⟨ ap (λ t. bit_and t m * 2 * 2 ^ k)
        (div-div-eq-div-mul a (2 ^ k) 2 ∙ ap (λ t. a / t) (sym (pow-suc 2 k))) ⟩
      bit_and (a / 2 ^ suc k) m * 2 * 2 ^ k
    ≡⟨ sym (mul_double k (bit_and (a / 2 ^ suc k) m)) ⟩ bit_and (a / 2 ^ suc k) m * 2 ^ suc k ∎

bit_or-zero_below : (n a : ℕ) → a ≤ n → bit_or a 0 ≡ a
bit_or-zero_below n zero h = bit_or-bitwise 0 0
bit_or-zero_below zero (suc a) h = absurd (omega arith)
bit_or-zero_below (suc n) (suc a) h =
    omega (arith, bit_or_digit (suc a) 0, bit_or-zero_below n (suc a / 2) (omega arith))

-- `|` of a field above bit `k` and one below it is their sum.
pub bit_or-fields : (k q r : ℕ) → r < 2 ^ k → bit_or (q * 2 ^ k) r ≡ q * 2 ^ k + r
bit_or-fields zero q r h =
    omega (arith, bit_or-zero_below q q (le_refl q), ap₂ bit_or units none_below)
  where
    units : q * 2 ^ 0 ≡ q
    units = omega arith

    none_below : r ≡ 0
    none_below = omega arith
bit_or-fields (suc k) q r h = omega (
  arith,
  bit_or_digit (q * 2 ^ suc k) r,
  ap (λ t. bit_or t (r / 2)) halved,
  bit_or-fields k q (r / 2) (omega (arith, double-pow k)),
  ap (λ t. q * t) (double-pow k),
)
  where
    halved : q * 2 ^ suc k / 2 ≡ q * 2 ^ k
    halved = omega (arith, ap (λ t. q * t) (double-pow k))

-- the low `n` bits of a number whose low field is all ones
pub test_bit-low_ones : (k n q : ℕ) → k < n → test_bit k (q * 2 ^ n + (2 ^ n - 1)) ≡ true
unfolding test_bit
test_bit-low_ones k zero q h = absurd (omega arith)
test_bit-low_ones zero (suc n) q h =
    ground (arith, ap (λ t. q * t) (double-pow n), double-pow n, one-le-pow n 2 (omega arith))
test_bit-low_ones (suc k) (suc n) q h = rw halved (test_bit-low_ones k n q (omega arith))
  where
    halved : (q * 2 ^ suc n + (2 ^ suc n - 1)) / 2 ≡ q * 2 ^ n + (2 ^ n - 1)
    halved =
        omega (arith, ap (λ t. q * t) (double-pow n), double-pow n, one-le-pow n 2 (omega arith))

pub bit_or_bound : (k a b : ℕ) → a < 2 ^ k → b < 2 ^ k → bit_or a b < 2 ^ k
bit_or_bound zero a b p q = omega (arith, ap₂ bit_or none_a none_b)
  where
    none_a : a ≡ 0
    none_a = omega arith

    none_b : b ≡ 0
    none_b = omega arith
bit_or_bound (suc k) a b p q = omega (
  arith,
  bit_or_digit a b,
  bit_or_bound k (a / 2) (b / 2) (omega (arith, double-pow k)) (omega (arith, double-pow k)),
  double-pow k,
)

-- `|` with a number below bit `k` leaves the field above alone.
pub bit_or-low :
    (k q a b : ℕ) → a < 2 ^ k → b < 2 ^ k → bit_or (q * 2 ^ k + a) b ≡ q * 2 ^ k + bit_or a b
bit_or-low zero q a b p h =
    rw (none_a, none_b) (ap (λ t. bit_or t 0) units ∙ bit_or-zero_below q q (le_refl q) ∙ back)
  where
    none_a : a ≡ 0
    none_a = omega arith

    none_b : b ≡ 0
    none_b = omega arith

    units : q * 2 ^ 0 + 0 ≡ q
    units = omega arith

    back : q ≡ q * 2 ^ 0 + bit_or 0 0
    back = omega arith
bit_or-low (suc k) q a b p h = omega (
  arith,
  bit_or_digit (q * 2 ^ suc k + a) b,
  bit_or_digit a b,
  ap (λ t. bit_or t (b / 2)) halved,
  bit_or-low k q (a / 2) (b / 2) (omega (arith, double-pow k)) (omega (arith, double-pow k)),
  ap (λ t. q * t) (double-pow k),
)
  where
    halved : (q * 2 ^ suc k + a) / 2 ≡ q * 2 ^ k + a / 2
    halved = omega (arith, ap (λ t. q * t) (double-pow k))

-- the lowest bit of a number that was ORed with 1
pub bit_or-odd : (a : ℕ) → bit_or a 1 % 2 ≡ 1
bit_or-odd a = omega (arith, bit_or_digit a 1)
