-- ===== src/Net/Ip/Checksum.antt =====
-- The checksum of kernel/net/ipv4/ipv4.c, and the headers that carry it.
use khazaros.Base.{
  ℕ, zero, suc, ◌+◌, ◌-◌, ◌*◌, ◌/◌, ◌%◌, ◌^◌, ◌≤◌, ◌<◌, ◌≡◌, ap, ◌∙◌, List, [], ◌∷◌, arith, ◌==◌,
  if◌then◌else◌, Bool-cases, inl, inr,
}
use khazaros.Net.Link.{Packet, field16, byte, packet_of, bswap16}
use khazaros.Net.Ip.{add_words, fold_sum, ip_checksum, header_bytes, build_header}

-- a packet of bytes
abbrev pub AreBytes : Packet → Type 0
AreBytes p = (k : ℕ) → p k < 256

-- the sum of `left` words from number `i` on
abbrev pub total : (left i : ℕ) → Packet → ℕ
total zero i p = 0
total (suc left) i p = field16 p (2 * i) + total left (i + 1) p

total_bound : (left i : ℕ) (p : Packet) → AreBytes p → total left i p ≤ 65535 * left
total_bound zero i p h = omega arith
total_bound (suc left) i p h = omega (arith, total_bound left (i + 1) p h, h (2 * i), h (2 * i + 1))

add_words-total :
    (left i : ℕ) (p : Packet) (sum : ℕ)
    → AreBytes p
    → sum + 65535 * left < 2 ^ 32
    → add_words left i p sum ≡ sum + total left i p
unfolding add_words
add_words-total zero i p sum h b = omega arith
add_words-total (suc left) i p sum h b =
    add_words-total left (i + 1) p ((sum + field16 p (2 * i)) % 2 ^ 32) h
      (omega (arith, h (2 * i), h (2 * i + 1)))
    ∙ omega (arith, h (2 * i), h (2 * i + 1))

-- the sum of 16-bit words in one's complement: 0 for 0, else the number from 1 to 65535 that differs
-- by a multiple of 65535
abbrev pub ones_complement : ℕ → ℕ
ones_complement s = if s == 0 then 0 else 1 + (s - 1) % 65535

ones_complement_bound : (s : ℕ) → ones_complement s < 65536
ones_complement_bound s = ground arith

-- Three rounds are enough for a 32-bit sum, and they come to the one's complement sum.
pub fold_sum-ones_complement : (s : ℕ) → s < 2 ^ 32 → fold_sum 3 s ≡ ones_complement s
unfolding fold_sum
fold_sum-ones_complement s h = ground arith

-- The checksum of fewer than 65536 bytes is the complement of the one's complement sum of their
-- 16-bit words, where a last byte that is left over is a word of its own: three rounds of the loop
-- that folds the carries are enough.
pub ip_checksum-ones_complement :
    (p : Packet) (len : ℕ)
    → AreBytes p
    → len < 2 ^ 16
    → ip_checksum p len
      ≡ 65535
        - ones_complement (total (len / 2) 0 p + (if len % 2 == 0 then 0 else p (2 * (len / 2))))
unfolding ip_checksum
ip_checksum-ones_complement p len h b = elim (Bool-cases (len % 2 == 0)) [
  | inl even ↦
      rw (even, words)
        (sum (total (len / 2) 0 p) (omega (arith, bound))
          ∙ ap (λ x. 65535 - ones_complement x) (omega arith))
  | inr odd ↦
      rw (odd, words)
        (ap (λ x. 65535 - fold_sum 3 x % 2 ^ 16)
            {x = (total (len / 2) 0 p + p (2 * (len / 2))) % 2 ^ 32}
            {y = total (len / 2) 0 p + p (2 * (len / 2))} (omega (arith, bound, h (2 * (len / 2))))
          ∙ sum (total (len / 2) 0 p + p (2 * (len / 2))) (omega (arith, bound, h (2 * (len / 2)))))
]
  where
    bound : total (len / 2) 0 p ≤ 65535 * (len / 2)
    bound = total_bound (len / 2) 0 p h

    words : add_words (len / 2) 0 p 0 ≡ total (len / 2) 0 p
    words = add_words-total (len / 2) 0 p 0 h (omega arith) ∙ omega arith

    sum : (x : ℕ) → x < 2 ^ 32 → 65535 - fold_sum 3 x % 2 ^ 16 ≡ 65535 - ones_complement x
    sum x q = omega (arith, fold_sum-ones_complement x q, ones_complement_bound x)

abbrev pub AllBytes : List ℕ → Type 0
AllBytes [] = Unit {0}
AllBytes (b ∷ bs) = (b < 256) × AllBytes bs

pub packet_of-AreBytes : (l : List ℕ) → AllBytes l → AreBytes (packet_of l)
unfolding packet_of
packet_of-AreBytes [] h k = omega arith
packet_of-AreBytes (b ∷ bs) h zero = h.0
packet_of-AreBytes (b ∷ bs) h (suc k) = packet_of-AreBytes bs h.1 k

header_bytes-AllBytes : (t i pr c s d : ℕ) → pr < 256 → AllBytes (header_bytes t i pr c s d)
unfolding header_bytes bswap16
header_bytes-AllBytes t i pr c s d h = (
  omega arith,
  (
    omega arith,
    (
      b (bswap16 t) 0,
      (
        b (bswap16 t) 1,
        (
          b (bswap16 i) 0,
          (
            b (bswap16 i) 1,
            (
              omega arith,
              (
                omega arith,
                (
                  omega arith,
                  (
                    h,
                    (
                      b c 0,
                      (
                        b c 1,
                        (b s 0, (b s 1, (b s 2, (b s 3, (b d 0, (b d 1, (b d 2, (b d 3, tt)))))))),
                      ),
                    ),
                  ),
                ),
              ),
            ),
          ),
        ),
      ),
    ),
  ),
)
  where
    b : (v k : ℕ) → byte v k < 256
    b v k = omega arith

header_bytes-total :
    (t i pr c s d : ℕ)
    → c < 65536
    → total 10 0 (packet_of (header_bytes t i pr c s d))
      ≡ total 10 0 (packet_of (header_bytes t i pr 0 s d)) + c
unfolding header_bytes packet_of
header_bytes-total t i pr c s d h = omega arith

-- With its complement, a sum that is not 0 becomes a sum whose complement is 0.
complement_sum : (s : ℕ) → 0 < s → 65535 - ones_complement (s + (65535 - ones_complement s)) ≡ 0
complement_sum s h = ground arith

header_bytes-positive : (t i pr s d : ℕ) → 0 < total 10 0 (packet_of (header_bytes t i pr 0 s d))
unfolding header_bytes packet_of
header_bytes-positive t i pr s d = omega arith

-- A header that is built with its checksum passes the test of a receiver: the checksum over all of
-- it is 0. The protocol is a byte.
pub ip_checksum-build_header :
    (t i protocol s d : ℕ)
    → protocol < 256
    → ip_checksum (packet_of (build_header t i protocol s d)) 20 ≡ 0
unfolding build_header
ip_checksum-build_header t i protocol s d h =
    ip_checksum-ones_complement (packet_of (header_bytes t i protocol c s d)) 20 (header-AreBytes c)
      (omega arith)
    ∙ ap (λ n. 65535 - ones_complement n) sum
    ∙ complement_sum x (header_bytes-positive t i protocol s d)
  where
    header-AreBytes : (c : ℕ) → AreBytes (packet_of (header_bytes t i protocol c s d))
    header-AreBytes c =
        packet_of-AreBytes (header_bytes t i protocol c s d)
          (header_bytes-AllBytes t i protocol c s d h)

    x : ℕ
    x = total 10 0 (packet_of (header_bytes t i protocol 0 s d))

    c : ℕ
    c = ip_checksum (packet_of (header_bytes t i protocol 0 s d)) 20

    value : c ≡ 65535 - ones_complement x
    value =
        ip_checksum-ones_complement (packet_of (header_bytes t i protocol 0 s d)) 20
          (header-AreBytes 0) (omega arith)
        ∙ ap (λ n. 65535 - ones_complement n) (omega arith)

    sum :
        total 10 0 (packet_of (header_bytes t i protocol c s d)) + 0
        ≡ x + (65535 - ones_complement x)
    sum = omega (arith, header_bytes-total t i protocol c s d (omega (arith, value)), value)
