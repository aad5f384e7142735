-- ===== src/Pmm/View.antt =====
-- What the bitmap says of each block, and what the bit operations change of it.
use khazaros.Base.{
  ℕ, ◌/◌, ◌%◌, ◌≡◌, ap, Bool, true, false, not, arith, ◌==◌, if◌then◌else◌, Bool-cases, inl, inr,
  ==→eq,
}
use khazaros.Base.Bits.{test_bit, test_bit-or, test_bit-and, test_bit-pow, test_bit-hole}
use khazaros.Base.Bits.{bit_and-pow_test}
use khazaros.Pmm.{Pmm, bitmap_set, bitmap_unset, bitmap_test}

-- block `b` is in use
abbrev pub taken : Pmm → ℕ → Bool
taken s b = test_bit (b % 32) (s.word (b / 32))

eq_of_parts : (a b : ℕ) → a / 32 ≡ b / 32 → a % 32 ≡ b % 32 → a ≡ b
eq_of_parts a b p q = omega arith

pub test-taken : (b : ℕ) (s : Pmm) → bitmap_test b s ≡ taken s b
unfolding bitmap_test
test-taken b s = rw bit_and-pow_test not-not_lem
  where
    not-not_lem : not (not (taken s b)) ≡ taken s b
    not-not_lem = ground arith

-- `bitmap_set` marks its block and no other.
pub taken-set :
    (b c : ℕ) (s : Pmm) → taken (bitmap_set b s) c ≡ (if c == b then true else taken s c)
unfolding bitmap_set
taken-set b c s = elim (Bool-cases (c / 32 == b / 32)) [
  | inl same ↦
      rw (same, test_bit-or, test_bit-pow)
        (ground (arith, eq_of_parts c b, ap s.word (==→eq _ _ same)))
  | inr other ↦ rw other (ground arith)
]

pub taken-unset :
    (b c : ℕ) (s : Pmm) → taken (bitmap_unset b s) c ≡ (if c == b then false else taken s c)
unfolding bitmap_unset
taken-unset b c s = elim (Bool-cases (c / 32 == b / 32)) [
  | inl same ↦
      rw (same, test_bit-and, test_bit-hole (c % 32) (b % 32) 32 (omega arith) (omega arith))
        (ground (arith, eq_of_parts c b, ap s.word (==→eq _ _ same)))
  | inr other ↦ rw other (ground arith)
]
