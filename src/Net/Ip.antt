-- ===== src/Net/Ip.antt =====
-- IPv4 and ICMP: kernel/net/ipv4/ipv4.c, and `udp_send` of kernel/net/udp/udp.c, which stands on it.
use khazaros.Base.{
  ℕ, zero, suc, ◌+◌, ◌-◌, ◌*◌, ◌/◌, ◌%◌, ◌^◌, Bool, true, false, not, ◌||◌, Option, none, some,
  List, [], ◌∷◌, ◌++◌, ◌==◌, ltb, leb, if◌then◌else◌,
}
use khazaros.Net.Link.{Mac, Packet, Frame, Ethernet, field16, field32, byte, packet_of, bswap16}
use khazaros.Net.Arp.{ArpCache, arp_lookup, arp_request}
use khazaros.Net.Udp.{UdpQueues, udp_handle}
use khazaros.Proc.{Procs}
pub mod Checksum
pub mod Loopback

-- How a call ends: a write past the end of an array on the stack is not followed further.
pub data Outcome (A : Type 0) : Type 0 where
  done : A → Outcome A
  overflow : Outcome A
  out_of_fuel : Outcome A

-- What the functions read and change: the statics of ipv4.c, and those of the files it calls.
pub record NetState (Dev : Type 0) : Type 0 where
  pub net_our_ip : ℕ
  pub ip_id : ℕ
  pub arp_cache : ArpCache
  pub udp_queues : UdpQueues
  pub procs : Procs
  pub dev : Dev

abbrev pub proto_icmp : ℕ
proto_icmp = 1

abbrev pub proto_udp : ℕ
proto_udp = 17

-- `ETHERTYPE_IP`
abbrev pub ethertype_ip : ℕ
ethertype_ip = 2048

-- a `uint16_t` in memory
abbrev pub bytes16 : ℕ → List ℕ
bytes16 v = byte v 0 ∷ byte v 1 ∷ []

abbrev pub bytes32 : ℕ → List ℕ
bytes32 v = byte v 0 ∷ byte v 1 ∷ byte v 2 ∷ byte v 3 ∷ []

-- the packet behind a number of bytes
abbrev pub packet_from : Packet → ℕ → Packet
packet_from p a k = p (a + k)

-- `n` bytes of a packet from number `i` on
unfoldable pub bytes_from : (n i : ℕ) → Packet → List ℕ
bytes_from zero i p = []
bytes_from (suc n) i p = p i ∷ bytes_from n (i + 1) p

-- the first loop of `ip_checksum`, over `left` words from number `i` on
unfoldable pub add_words : (left i : ℕ) → Packet → (sum : ℕ) → ℕ
add_words zero i data_ptr sum = sum
add_words (suc left) i data_ptr sum =
    add_words left (i + 1) data_ptr ((sum + field16 data_ptr (2 * i)) % 2 ^ 32)

-- `while (sum >> 16) sum = (sum & 0xFFFF) + (sum >> 16)`, on fuel, of which three rounds are enough
unfoldable pub fold_sum : (fuel sum : ℕ) → ℕ
fold_sum zero sum = sum
fold_sum (suc fuel) sum =
    let rest = fold_sum fuel (sum % 2 ^ 16 + sum / 2 ^ 16) in
    if sum / 2 ^ 16 == 0 then sum else rest

-- `(uint16_t)~sum`
unfoldable pub ip_checksum : Packet → (len : ℕ) → ℕ
unfolding add_words fold_sum
ip_checksum data_ptr len =
    let words = add_words (len / 2) 0 data_ptr 0 in
    let sum = if len % 2 == 0 then words else (words + data_ptr (2 * (len / 2))) % 2 ^ 32 in
    65535 - fold_sum 3 sum % 2 ^ 16

-- the 20 bytes of `ipv4_header_t`
unfoldable pub header_bytes : (total id protocol checksum src_ip dst_ip : ℕ) → List ℕ
unfolding bswap16
header_bytes total id protocol checksum src_ip dst_ip =
    69 ∷ 0 ∷ bytes16 (bswap16 total)
    ++ bytes16 (bswap16 id)
    ++ 0 ∷ 0 ∷ 64 ∷ protocol ∷ bytes16 checksum
    ++ bytes32 src_ip
    ++ bytes32 dst_ip

-- The header with its checksum.
unfoldable pub build_header : (total id protocol src_ip dst_ip : ℕ) → List ℕ
unfolding header_bytes packet_of ip_checksum
build_header total id protocol src_ip dst_ip =
    let sum = ip_checksum (packet_of (header_bytes total id protocol 0 src_ip dst_ip)) 20 in
    header_bytes total id protocol sum src_ip dst_ip

-- The Ethernet header of a packet to ourselves.
abbrev pub loop_header : List ℕ
loop_header = 0 ∷ 0 ∷ 0 ∷ 0 ∷ 0 ∷ 0 ∷ 0 ∷ 0 ∷ 0 ∷ 0 ∷ 0 ∷ 0 ∷ 8 ∷ 0 ∷ []

-- `ip_id++`
abbrev pub next_id : {Dev : Type 0} → NetState Dev → NetState Dev
next_id s = record s { ip_id = (s.ip_id + 1) % 2 ^ 16 }

-- The echo reply to a message: its bytes with type, code and checksum set.
unfoldable pub echo_reply : Packet → (plen : ℕ) → List ℕ
unfolding bytes_from packet_of ip_checksum
echo_reply payload plen =
    let rest = bytes_from (plen - 4) 4 payload in
    let sum = ip_checksum (packet_of (0 ∷ 0 ∷ 0 ∷ 0 ∷ rest)) plen in 0 ∷ 0 ∷ bytes16 sum ++ rest

-- the request of `icmp_send_request`
unfoldable pub echo_request : List ℕ
unfolding bswap16 packet_of ip_checksum
echo_request =
    let rest = bytes16 (bswap16 1234) ++ bytes16 (bswap16 1) in
    let sum = ip_checksum (packet_of (8 ∷ 0 ∷ 0 ∷ 0 ∷ rest)) 8 in 8 ∷ 0 ∷ bytes16 sum ++ rest

-- the header of a datagram from port 1234
unfoldable pub udp_header : (dst_port udp_total : ℕ) → List ℕ
unfolding bswap16
udp_header dst_port udp_total =
    bytes16 (bswap16 1234)
    ++ bytes16 (bswap16 dst_port)
    ++ bytes16 (bswap16 udp_total)
    ++ 0 ∷ 0 ∷ []

-- the type of `ipv4_handle`, and of `ipv4_send`
abbrev pub Handler : Type 0 → Type 0
Handler Dev = (frame : Packet) (frame_len : ℕ) → NetState Dev → Outcome (NetState Dev)

abbrev pub Sender : Type 0 → Type 0
Sender Dev =
    (dst_ip protocol : ℕ) (payload : Packet) (plen : ℕ)
    → NetState Dev
    → Outcome (Bool × NetState Dev)

abbrev pub returning :
    {Dev : Type 0} → Bool → Outcome (NetState Dev) → Outcome (Bool × NetState Dev)
returning b (done s) = done (b, s)
returning b overflow = overflow
returning b out_of_fuel = out_of_fuel

abbrev pub dropping : {Dev : Type 0} → Outcome (Bool × NetState Dev) → Outcome (NetState Dev)
dropping (done (b, s)) = done s
dropping overflow = overflow
dropping out_of_fuel = out_of_fuel

module _ {Dev : Type 0} where
  -- A packet to ourselves, with `ipv4_handle` as an argument. `total` wraps around in 16 bits, and
  -- `plen` bytes are copied.
  unfoldable pub send_loopback : Handler Dev → Sender Dev
  unfolding build_header bytes_from packet_of
  send_loopback handle dst_ip protocol payload plen s =
      let total = (20 + plen) % 2 ^ 16 in
      let hdr = build_header total s.ip_id protocol s.net_our_ip dst_ip in
      if ltb 1518 (total + 14)
      then done (false, s)
      else if ltb 1518 (34 + plen)
      then overflow
      else returning true (
          handle (packet_of (loop_header ++ hdr ++ bytes_from plen 0 payload))
            ((total + 14) % 2 ^ 16) (next_id s))

  -- An ICMP message: an echo request is answered, with 512 bytes at most.
  unfoldable pub icmp_handle :
      Sender Dev
      → (src_ip : ℕ) (payload : Packet) (plen : ℕ) → NetState Dev
      → Outcome (NetState Dev)
  unfolding echo_reply packet_of
  icmp_handle send src_ip payload plen s =
      let n = if ltb 512 plen then 512 else plen in
      if leb 8 plen
      then if payload 0 == 8
        then dropping (send src_ip proto_icmp (packet_of (echo_reply payload n)) n s)
        else done s
      else done s

  -- A datagram is delivered, and an ICMP message handled, by the protocol of the header.
  unfoldable pub dispatch :
      Sender Dev
      → (protocol src_ip : ℕ) (payload : Packet) (plen : ℕ) → NetState Dev
      → Outcome (NetState Dev)
  unfolding icmp_handle
  dispatch send protocol src_ip payload plen s =
      let received = udp_handle payload plen s.udp_queues s.procs in
      if protocol == proto_udp
      then done (record s { udp_queues = received.0; procs = received.1 })
      else if protocol == proto_icmp
      then icmp_handle send src_ip payload plen s
      else done s

  -- The length of the data is the header's, which the frame's length does not bound.
  unfoldable pub handle_with : Sender Dev → Handler Dev
  unfolding dispatch
  handle_with send frame frame_len s =
      let ihl = frame 14 % 16 * 4 in
      let plen = (bswap16 (field16 frame 16) + (2 ^ 16 - ihl)) % 2 ^ 16 in
      if ltb frame_len 34
      then done s
      else dispatch send (frame 23) (field32 frame 26) (packet_from frame (14 + ihl)) plen s

module _ {Dev : Type 0} (eth : Ethernet Dev) where
  -- A packet to another host, whose address has been looked up.
  unfoldable pub send_to : Option Mac → Sender Dev
  unfolding build_header bytes_from
  send_to none dst_ip protocol payload plen s =
      done (false, record s { dev = arp_request eth s.net_our_ip dst_ip s.dev })
  send_to (some dst_mac) dst_ip protocol payload plen s =
      let total = (20 + plen) % 2 ^ 16 in
      let hdr = build_header total s.ip_id protocol s.net_our_ip dst_ip in
      let sent =
        eth.send
          record {
            dst_mac = dst_mac;
            ethertype = ethertype_ip;
            payload = hdr ++ bytes_from plen 0 payload;
          }
          s.dev in
      if ltb 1500 total
      then done (false, s)
      else if ltb 1500 (20 + plen)
      then overflow
      else done (sent.0, record (next_id s) { dev = sent.1 })

  unfoldable pub send_with : Handler Dev → Sender Dev
  unfolding send_loopback send_to
  send_with handle dst_ip protocol payload plen s =
      if dst_ip == 16777343 || dst_ip == s.net_our_ip
      then send_loopback handle dst_ip protocol payload plen s
      else send_to (arp_lookup dst_ip s.arp_cache) dst_ip protocol payload plen s

  -- On fuel for the packets that we send to ourselves.
  unfoldable pub ipv4_handle : (fuel : ℕ) → Handler Dev
  unfolding handle_with send_with
  ipv4_handle zero frame frame_len s = out_of_fuel
  ipv4_handle (suc fuel) frame frame_len s =
      handle_with (send_with (ipv4_handle fuel)) frame frame_len s

  unfoldable pub ipv4_send : (fuel : ℕ) → Sender Dev
  ipv4_send fuel = send_with (ipv4_handle fuel)

  unfoldable pub icmp_send_request :
      (fuel dst_ip : ℕ) → NetState Dev → Outcome (Bool × NetState Dev)
  unfolding echo_request ipv4_send
  icmp_send_request fuel dst_ip s = ipv4_send fuel dst_ip proto_icmp (packet_of echo_request) 8 s

  unfoldable pub udp_send :
      (fuel dst_ip dst_port : ℕ) (payload : Packet) (plen : ℕ)
      → NetState Dev
      → Outcome (Bool × NetState Dev)
  unfolding udp_header bytes_from ipv4_send
  udp_send fuel dst_ip dst_port payload plen s =
      let udp_total = (8 + plen) % 2 ^ 16 in
      if ltb 1472 udp_total
      then done (false, s)
      else if ltb 1472 (8 + plen)
      then overflow
      else ipv4_send fuel dst_ip proto_udp
          (packet_of (udp_header dst_port udp_total ++ bytes_from plen 0 payload)) udp_total s

-- `ipv4_init`
unfoldable pub ipv4_init : {Dev : Type 0} → NetState Dev → NetState Dev
ipv4_init s = record s { ip_id = 0 }
