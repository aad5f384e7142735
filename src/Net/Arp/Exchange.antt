-- ===== src/Net/Arp/Exchange.antt =====
-- A request and its reply: what one host sends is what the other reads.
use khazaros.Base.{ℕ, ◌+◌, ◌*◌, ◌^◌, ◌<◌, ◌≡◌, refl, ap, ◌∙◌, some, arith, ==-refl}
use khazaros.Net.Link.{Mac, Ethernet, byte, packet_of}
use khazaros.Net.Arp.{
  ArpPacket, ArpCache, arp_cache_put, arp_lookup, packet_at, packet_bytes, our_packet, zero_mac,
  ethertype_arp, reply_from, receive_packet, arp_handle,
}
use khazaros.Net.Arp.Cache.{IsArp, arp_lookup-put}

-- the numbers of a packet fit their fields
pub record Fits (p : ArpPacket) : Type 0 where
  pub htype_fits : p.htype < 2 ^ 16
  pub ptype_fits : p.ptype < 2 ^ 16
  pub oper_fits : p.oper < 2 ^ 16
  pub spa_fits : p.spa < 2 ^ 32
  pub tpa_fits : p.tpa < 2 ^ 32

join16 : (v : ℕ) → v < 2 ^ 16 → byte v 0 + 256 * byte v 1 ≡ v
join16 v h = omega arith

join32 :
    (v : ℕ) → v < 2 ^ 32 → byte v 0 + 256 * byte v 1 + 65536 * byte v 2 + 16777216 * byte v 3 ≡ v
join32 v h = omega arith

-- A packet whose numbers fit their fields is read back from memory as it was laid out.
pub packet_at-packet_bytes : (p : ArpPacket) → Fits p → packet_at (packet_of (packet_bytes p)) ≡ p
unfolding packet_at packet_of packet_bytes
packet_at-packet_bytes p h =
    rw
      (
        join16 p.htype h.htype_fits,
        join16 p.ptype h.ptype_fits,
        join16 p.oper h.oper_fits,
        join32 p.spa h.spa_fits,
        join32 p.tpa h.tpa_fits,
      )
      refl

module _ {Dev : Type 0} (eth : Ethernet Dev) where
  arp_handle-packet_bytes :
      (our_ip : ℕ) (p : ArpPacket) (c : ArpCache) (dev : Dev)
      → Fits p
      → arp_handle eth our_ip (packet_of (packet_bytes p)) 28 c dev
        ≡ receive_packet eth our_ip p c dev
  unfolding arp_handle
  arp_handle-packet_bytes our_ip p c dev h =
      ap (λ q. receive_packet eth our_ip q c dev) (packet_at-packet_bytes p h)

  -- A host that is asked for its address, and whose driver reports an address, caches the asker's
  -- and sends it a reply with its own.
  pub arp_handle-request :
      (our_ip ip : ℕ) (our_mac mac : Mac) (c : ArpCache) (dev : Dev)
      → our_ip < 2 ^ 32
      → ip < 2 ^ 32
      → eth.get_device dev ≡ some our_mac
      → arp_handle eth our_ip
          (packet_of (packet_bytes (our_packet 256 mac ip zero_mac our_ip)))
          28
          c
          dev
        ≡ (
          arp_cache_put ip mac c,
          (eth.send
              record {
                dst_mac = mac;
                ethertype = ethertype_arp;
                payload = packet_bytes (our_packet 512 our_mac our_ip mac ip);
              }
              dev).1,
        )
  unfolding receive_packet our_packet reply_from
  arp_handle-request our_ip ip our_mac mac c dev small₁ small₂ ready =
      arp_handle-packet_bytes our_ip (our_packet 256 mac ip zero_mac our_ip) c dev fits
      ∙ rw (==-refl our_ip, ready) refl
    where
      fits : Fits (our_packet 256 mac ip zero_mac our_ip)
      fits = record {
        htype_fits = omega arith;
        ptype_fits = omega arith;
        oper_fits = omega arith;
        spa_fits = small₂;
        tpa_fits = small₁;
      }

  -- A host that receives the reply, with one entry for each address in its cache, then finds the
  -- address of the host that sent it.
  pub arp_lookup-reply :
      (our_ip ip : ℕ) (our_mac mac : Mac) (c : ArpCache) (dev : Dev)
      → our_ip < 2 ^ 32
      → ip < 2 ^ 32
      → IsArp c
      → arp_lookup ip
          (arp_handle eth our_ip
            (packet_of (packet_bytes (our_packet 512 mac ip our_mac our_ip)))
            28
            c
            dev).0
        ≡ some mac
  unfolding receive_packet our_packet
  arp_lookup-reply our_ip ip our_mac mac c dev small₁ small₂ unique =
      ap (λ r. arp_lookup ip r.0)
        (arp_handle-packet_bytes our_ip (our_packet 512 mac ip our_mac our_ip) c dev fits)
      ∙ arp_lookup-put ip mac c unique
    where
      fits : Fits (our_packet 512 mac ip our_mac our_ip)
      fits = record {
        htype_fits = omega arith;
        ptype_fits = omega arith;
        oper_fits = omega arith;
        spa_fits = small₂;
        tpa_fits = small₁;
      }
