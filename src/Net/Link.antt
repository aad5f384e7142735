-- ===== src/Net/Link.antt =====
-- What the protocols use of the Ethernet driver, and how they lay numbers out in packets.
use khazaros.Base.{ℕ, zero, suc, ◌+◌, ◌*◌, ◌/◌, ◌%◌, ◌^◌, Bool, Option, List, [], ◌∷◌}

-- `uint8_t mac[6]`
pub record Mac : Type 0 where
  pub b0 : ℕ
  pub b1 : ℕ
  pub b2 : ℕ
  pub b3 : ℕ
  pub b4 : ℕ
  pub b5 : ℕ

-- the bytes of a packet, which a cast reads without regard to its length
abbrev pub Packet : Type 0
Packet = ℕ → ℕ

-- what a call of `ethernet_send` is given
pub record Frame : Type 0 where
  pub dst_mac : Mac
  pub ethertype : ℕ
  pub payload : List ℕ

-- The driver: `Dev` is its state, `get_device` the address if it is initialized, and `send` returns
-- what `ethernet_send` returns.
pub record Ethernet (Dev : Type 0) : Type 0 where
  pub get_device : Dev → Option Mac
  pub send : Frame → Dev → Bool × Dev

-- a little-endian field of two bytes, and of four
abbrev pub field16 : Packet → ℕ → ℕ
field16 p a = p a + 256 * p (a + 1)

abbrev pub field32 : Packet → ℕ → ℕ
field32 p a = p a + 256 * p (a + 1) + 65536 * p (a + 2) + 16777216 * p (a + 3)

abbrev pub field_mac : Packet → ℕ → Mac
field_mac p a = record {
  b0 = p a;
  b1 = p (a + 1);
  b2 = p (a + 2);
  b3 = p (a + 3);
  b4 = p (a + 4);
  b5 = p (a + 5);
}

-- a number's byte `k`, from the lowest
abbrev pub byte : (v k : ℕ) → ℕ
byte v k = v / 256 ^ k % 256

-- a packet's bytes from a list: what lies past its end is not known, and read as 0 here
unfoldable pub packet_of : List ℕ → Packet
packet_of [] k = 0
packet_of (b ∷ bs) zero = b
packet_of (b ∷ bs) (suc k) = packet_of bs k

-- `(v >> 8) | (v << 8)`, as a `uint16_t`
unfoldable pub bswap16 : ℕ → ℕ
bswap16 v = v / 256 % 256 + 256 * (v % 256)
