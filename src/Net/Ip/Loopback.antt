-- ===== src/Net/Ip/Loopback.antt =====
-- Packets to ourselves in kernel/net/ipv4/ipv4.c: what `ipv4_send` builds is what `ipv4_handle`
-- reads.
use khazaros.Base.{
  ℕ, suc, ◌+◌, ◌-◌, ◌*◌, ◌%◌, ◌^◌, ◌≤◌, ◌<◌, ◌≡◌, refl, ap, ◌∙◌, fun_ext, true, false, ◌||◌, List,
  [], ◌∷◌, ◌++◌, arith, ◌==◌, ltb, if◌then◌else◌, Bool-cases, inl, inr, length,
}
use khazaros.Net.Link.{Packet, Ethernet, field16, field32, packet_of, bswap16}
use khazaros.Net.Udp.{udp_handle}
use khazaros.Net.Ip.{
  done, overflow, NetState, proto_icmp, proto_udp, bytes_from, packet_from, ip_checksum,
  header_bytes, build_header, loop_header, next_id, Sender, returning, icmp_handle, send_loopback,
  send_with, dispatch, handle_with, ipv4_handle, icmp_send_request, echo_request, echo_reply,
  dropping, ipv4_send,
}

packet_of-append : (xs ys : List ℕ) (k : ℕ) → packet_of (xs ++ ys) (length xs + k) ≡ packet_of ys k
unfolding packet_of
packet_of-append [] ys k = ap (packet_of ys) (omega arith)
packet_of-append (x ∷ xs) ys k =
    ap (packet_of (x ∷ (xs ++ ys))) {y = suc (length xs + k)} (omega arith)
    ∙ packet_of-append xs ys k

module _ {Dev : Type 0} (send : Sender Dev) (t i protocol c src dst : ℕ) (rest : List ℕ) where
  abbrev frame : Packet
  frame = packet_of (loop_header ++ header_bytes t i protocol c src dst ++ rest)

  frame-version : frame 14 % 16 * 4 ≡ 20
  unfolding packet_of header_bytes
  frame-version = refl

  frame-protocol : frame 23 ≡ protocol
  unfolding packet_of header_bytes
  frame-protocol = refl

  frame-total : t < 2 ^ 16 → bswap16 (field16 frame 16) ≡ t
  unfolding packet_of header_bytes bswap16
  frame-total h = omega arith

  frame-src : src < 2 ^ 32 → field32 frame 26 ≡ src
  unfolding packet_of header_bytes
  frame-src h = omega arith

  frame-payload : packet_from frame (14 + 20) ≡ packet_of rest
  unfolding header_bytes
  frame-payload =
      fun_ext λ k. packet_of-append (loop_header ++ header_bytes t i protocol c src dst) rest k

  -- A frame with a header of ours is handled as the header says.
  pub handle_with-frame :
      (plen len : ℕ) (s : NetState Dev)
      → t ≡ 20 + plen
      → t < 2 ^ 16
      → src < 2 ^ 32
      → 34 ≤ len
      → handle_with send frame len s ≡ dispatch send protocol src (packet_of rest) plen s
  unfolding handle_with
  handle_with-frame plen len s e h hs hl =
      rw long refl
      ∙ (λ k.
          dispatch send (frame-protocol k) (frame-src hs k)
            (packet_from frame (14 + frame-version k))
            ((frame-total h k + (2 ^ 16 - frame-version k)) % 2 ^ 16) s)
      ∙ (λ k. dispatch send protocol src (frame-payload k) (length_of_data k) s)
    where
      long : ltb len 34 ≡ false
      long = ground arith

      length_of_data : (t + (2 ^ 16 - 20)) % 2 ^ 16 ≡ plen
      length_of_data = omega arith

module _ {Dev : Type 0} (eth : Ethernet Dev) where
  -- the addresses that are ours
  abbrev pub IsOurs : NetState Dev → ℕ → Type 0
  IsOurs s dst_ip = (dst_ip == 16777343 || dst_ip == s.net_our_ip) ≡ true

  -- Sending a packet of at most 1484 bytes to an address of ours comes to handling its data by its
  -- protocol, with our address as its source: the header that `ipv4_send` builds is read back by
  -- `ipv4_handle`, and the length too. Our address is a 32-bit word.
  pub ipv4_send-dispatch :
      (fuel dst_ip protocol : ℕ) (payload : Packet) (plen : ℕ) (s : NetState Dev)
      → IsOurs s dst_ip
      → s.net_our_ip < 2 ^ 32
      → plen ≤ 1484
      → ipv4_send eth (suc fuel) dst_ip protocol payload plen s
        ≡ returning true (
            dispatch
              (ipv4_send eth fuel)
              protocol
              s.net_our_ip
              (packet_of (bytes_from plen 0 payload))
              plen
              (next_id s))
  unfolding ipv4_send send_with send_loopback ipv4_handle build_header
  ipv4_send-dispatch fuel dst_ip protocol payload plen s ours h hp =
      rw (ours, short, fits)
        (ap (returning true) (
          handle_with-frame (ipv4_send eth fuel) ((20 + plen) % 2 ^ 16) s.ip_id protocol
            (ip_checksum
              (packet_of
                (header_bytes ((20 + plen) % 2 ^ 16) s.ip_id protocol 0 s.net_our_ip dst_ip))
              20)
            s.net_our_ip dst_ip (bytes_from plen 0 payload) plen
            (((20 + plen) % 2 ^ 16 + 14) % 2 ^ 16) (next_id s) (omega arith) (omega arith) h
            (omega arith)))
    where
      short : ltb 1518 ((20 + plen) % 2 ^ 16 + 14) ≡ false
      short = ground arith

      fits : ltb 1518 (34 + plen) ≡ false
      fits = ground arith

  -- A packet to an address of ours that is longer than 1484 bytes is refused and changes nothing;
  -- but one of at least 65516 bytes, whose length with the header wraps around in 16 bits, is not
  -- refused and is copied past the end of the array on the stack.
  pub ipv4_send-too_long :
      (fuel dst_ip protocol : ℕ) (payload : Packet) (plen : ℕ) (s : NetState Dev)
      → IsOurs s dst_ip
      → 1484 < plen
      → plen < 2 ^ 16
      → ipv4_send eth fuel dst_ip protocol payload plen s
        ≡ (if ltb plen 65516 then done (false, s) else overflow)
  unfolding ipv4_send send_with send_loopback
  ipv4_send-too_long fuel dst_ip protocol payload plen s ours h hp =
      elim (Bool-cases (ltb plen 65516)) [
        | inl small ↦ rw (ours, small, long small) refl
        | inr large ↦ rw (ours, large, wraps large, past) refl
      ]
    where
      long : ltb plen 65516 ≡ true → ltb 1518 ((20 + plen) % 2 ^ 16 + 14) ≡ true
      long e = ground (arith, e)

      wraps : ltb plen 65516 ≡ false → ltb 1518 ((20 + plen) % 2 ^ 16 + 14) ≡ false
      wraps e = ground (arith, e)

      past : ltb 1518 (34 + plen) ≡ true
      past = ground arith

  -- A datagram of at most 1484 bytes to an address of ours has been handed to `udp_handle`, all of
  -- it and nothing else, when `ipv4_send` returns. Our address is a 32-bit word.
  pub ipv4_send-udp_handle :
      (fuel dst_ip : ℕ) (payload : Packet) (plen : ℕ) (s : NetState Dev)
      → IsOurs s dst_ip
      → s.net_our_ip < 2 ^ 32
      → plen ≤ 1484
      → let received =
          udp_handle (packet_of (bytes_from plen 0 payload)) plen s.udp_queues s.procs in
        ipv4_send eth (suc fuel) dst_ip proto_udp payload plen s
        ≡ done (true, record (next_id s) { udp_queues = received.0; procs = received.1 })
  unfolding dispatch
  ipv4_send-udp_handle fuel dst_ip payload plen s ours h hp =
      ipv4_send-dispatch fuel dst_ip proto_udp payload plen s ours h hp

  IsOurs-self : (s : NetState Dev) → IsOurs s s.net_our_ip
  IsOurs-self s = ground arith

  -- An echo reply to ourselves is dropped.
  reply_dropped :
      (fuel : ℕ) (request : Packet) (s : NetState Dev)
      → dispatch
          (ipv4_send eth fuel)
          proto_icmp
          s.net_our_ip
          (packet_of (bytes_from 8 0 (packet_of (echo_reply request 8))))
          8
          s
        ≡ done s
  unfolding dispatch icmp_handle echo_reply bytes_from packet_of
  reply_dropped fuel request s = refl

  request_answered :
      (fuel : ℕ) (s : NetState Dev)
      → s.net_our_ip < 2 ^ 32
      → dispatch
          (ipv4_send eth (suc fuel))
          proto_icmp
          s.net_our_ip
          (packet_of (bytes_from 8 0 (packet_of echo_request)))
          8
          s
        ≡ done (next_id s)
  unfolding dispatch icmp_handle echo_request
  request_answered fuel s h = ap dropping (
      ipv4_send-dispatch fuel s.net_our_ip proto_icmp (packet_of (echo_reply request 8)) 8 s
        (IsOurs-self s) h (omega arith)
      ∙ ap (returning true) (reply_dropped fuel request (next_id s)))
    where
      request : Packet
      request = packet_of (bytes_from 8 0 (packet_of echo_request))

  -- An echo request to our own 32-bit address succeeds, with two rounds of fuel: it is answered, the
  -- answer is dropped, and all that has changed is the number of the next packet, by two.
  pub icmp_send_request-loopback :
      (fuel : ℕ) (s : NetState Dev)
      → s.net_our_ip < 2 ^ 32
      → icmp_send_request eth (suc (suc fuel)) s.net_our_ip s ≡ done (true, next_id (next_id s))
  unfolding icmp_send_request
  icmp_send_request-loopback fuel s h =
      ipv4_send-dispatch (suc fuel) s.net_our_ip proto_icmp (packet_of echo_request) 8 s
        (IsOurs-self s) h (omega arith)
      ∙ ap (returning true) (request_answered fuel (next_id s) h)
