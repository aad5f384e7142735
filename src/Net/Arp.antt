-- ===== src/Net/Arp.antt =====
-- The address resolution protocol of kernel/net/arp/arp.c: the cache of eight entries and the
-- packets.
use khazaros.Base.{
  ℕ, zero, suc, ◌+◌, ◌*◌, ◌/◌, ◌%◌, ◌^◌, Bool, true, false, not, ◌&&◌, ◌||◌, Option, none, some,
  List, [], ◌∷◌, ◌++◌, ◌==◌, ltb, if◌then◌else◌,
}
use khazaros.Base.Search.{find_from}
use khazaros.Base.Window.{put}
use khazaros.Net.Link.{Mac, Packet, Frame, Ethernet, field16, field32, field_mac, byte}
pub mod Cache
pub mod Exchange

pub record ArpEntry : Type 0 where
  pub ip : ℕ
  pub mac : Mac
  pub valid : Bool

-- `arp_cache`, of which eight entries exist
abbrev pub ArpCache : Type 0
ArpCache = ℕ → ArpEntry

abbrev pub arp_cache_size : ℕ
arp_cache_size = 8

pub record ArpPacket : Type 0 where
  pub htype : ℕ
  pub ptype : ℕ
  pub hlen : ℕ
  pub plen : ℕ
  pub oper : ℕ
  pub sha : Mac
  pub spa : ℕ
  pub tha : Mac
  pub tpa : ℕ

-- The loop, over the entries that exist.
unfoldable pub arp_init : ArpCache → ArpCache
arp_init c i =
    if ltb i arp_cache_size then record { ip = (c i).ip; mac = (c i).mac; valid = false } else c i

-- `arp_cache[i].valid && arp_cache[i].ip == ip`
unfoldable pub is_for : ℕ → ArpCache → ℕ → Bool
is_for ip c i = (c i).valid && ((c i).ip == ip)

unfoldable pub is_empty : ArpCache → ℕ → Bool
is_empty c i = not (c i).valid

-- The slot that an address goes to: its own, the first that is empty, or slot 0.
unfoldable pub empty_slot : Option ℕ → ℕ
empty_slot none = 0
empty_slot (some i) = i

unfoldable pub put_slot : Option ℕ → ArpCache → ℕ
put_slot (some i) c = i
put_slot none c = empty_slot (find_from (is_empty c) arp_cache_size 0)

unfoldable pub arp_cache_put : (ip : ℕ) (mac : Mac) → ArpCache → ArpCache
unfolding put
arp_cache_put ip mac c =
    put c (put_slot (find_from (is_for ip c) arp_cache_size 0) c)
      record { ip = ip; mac = mac; valid = true }

unfoldable pub entry_mac : ArpCache → Option ℕ → Option Mac
entry_mac c none = none
entry_mac c (some i) = some (c i).mac

unfoldable pub arp_lookup : (ip : ℕ) → ArpCache → Option Mac
unfolding entry_mac
arp_lookup ip c = entry_mac c (find_from (is_for ip c) arp_cache_size 0)

-- `(const arp_packet_t *)payload`, of 28 bytes
unfoldable pub packet_at : Packet → ArpPacket
packet_at p = record {
  htype = field16 p 0;
  ptype = field16 p 2;
  hlen = p 4;
  plen = p 5;
  oper = field16 p 6;
  sha = field_mac p 8;
  spa = field32 p 14;
  tha = field_mac p 18;
  tpa = field32 p 24;
}

abbrev pub mac_bytes : Mac → List ℕ
mac_bytes m = m.b0 ∷ m.b1 ∷ m.b2 ∷ m.b3 ∷ m.b4 ∷ m.b5 ∷ []

abbrev pub word_bytes : ℕ → List ℕ
word_bytes v = byte v 0 ∷ byte v 1 ∷ byte v 2 ∷ byte v 3 ∷ []

-- the bytes of a packet in memory
unfoldable pub packet_bytes : ArpPacket → List ℕ
packet_bytes p =
    byte p.htype 0
      ∷ byte p.htype 1
      ∷ byte p.ptype 0
      ∷ byte p.ptype 1
      ∷ p.hlen
      ∷ p.plen
      ∷ byte p.oper 0
      ∷ byte p.oper 1
      ∷ mac_bytes p.sha
    ++ word_bytes p.spa
    ++ mac_bytes p.tha
    ++ word_bytes p.tpa

abbrev pub broadcast_mac : Mac
broadcast_mac = record { b0 = 255; b1 = 255; b2 = 255; b3 = 255; b4 = 255; b5 = 255 }

abbrev pub zero_mac : Mac
zero_mac = record { b0 = 0; b1 = 0; b2 = 0; b3 = 0; b4 = 0; b5 = 0 }

-- `ETHERTYPE_ARP`
abbrev pub ethertype_arp : ℕ
ethertype_arp = 2054

-- a packet of ours: a request (0x0100) or a reply (0x0200)
unfoldable pub our_packet : (oper : ℕ) (mac : Mac) (our_ip : ℕ) (tha : Mac) (tpa : ℕ) → ArpPacket
our_packet oper mac our_ip tha tpa = record {
  htype = 256;
  ptype = 8;
  hlen = 6;
  plen = 4;
  oper = oper;
  sha = mac;
  spa = our_ip;
  tha = tha;
  tpa = tpa;
}

module _ {Dev : Type 0} (eth : Ethernet Dev) (our_ip : ℕ) where
  -- the rest of `arp_request`, with the device's address
  unfoldable pub request_from : Option Mac → (target_ip : ℕ) → Dev → Dev
  unfolding our_packet packet_bytes
  request_from none target_ip dev = dev
  request_from (some mac) target_ip dev =
      (eth.send
        record {
          dst_mac = broadcast_mac;
          ethertype = ethertype_arp;
          payload = packet_bytes (our_packet 256 mac our_ip zero_mac target_ip);
        }
        dev).1

  unfoldable pub arp_request : (target_ip : ℕ) → Dev → Dev
  unfolding request_from
  arp_request target_ip dev = request_from (eth.get_device dev) target_ip dev

  -- the answer to a request for our address
  unfoldable pub reply_from : Option Mac → ArpPacket → Dev → Dev
  unfolding our_packet packet_bytes
  reply_from none pkt dev = dev
  reply_from (some mac) pkt dev =
      (eth.send
        record {
          dst_mac = pkt.sha;
          ethertype = ethertype_arp;
          payload = packet_bytes (our_packet 512 mac our_ip pkt.sha pkt.spa);
        }
        dev).1

  -- the rest of `arp_handle`, with the packet that the payload is read as
  unfoldable pub receive_packet : ArpPacket → ArpCache → Dev → ArpCache × Dev
  unfolding reply_from
  receive_packet pkt c dev = if not (pkt.htype == 256) || not (pkt.ptype == 8) then (c, dev) else (
    arp_cache_put pkt.spa pkt.sha c,
    if (pkt.oper == 256) && (pkt.tpa == our_ip)
        then reply_from (eth.get_device dev) pkt dev
        else dev,
  )

  unfoldable pub arp_handle : (payload : Packet) (len : ℕ) → ArpCache → Dev → ArpCache × Dev
  unfolding receive_packet packet_at
  arp_handle payload len c dev =
      if ltb len 28 then (c, dev) else receive_packet (packet_at payload) c dev
