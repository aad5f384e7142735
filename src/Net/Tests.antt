-- ===== src/Net/Tests.antt =====
-- Examples of the network stack.
use khazaros.Base.{ℕ, ◌+◌, ◌≡◌, refl, true, false, none, some, arith, if◌then◌else◌}
use khazaros.Base.{[], ◌∷◌, false, ltb, ◌<◌}
use khazaros.Base.Search.{find_from}
use khazaros.Proc.{ready, alive, Procs}
use khazaros.Net.Udp.{UdpQueues, serves, is_idle, port_slot, data_length, udp_handle, udp_recv}
use khazaros.Net.Udp.Deliver.{slot, Gives, udp_recv-udp_handle}
use khazaros.Net.Link.{Packet, field16, bswap16, Mac, Ethernet, packet_of}
use khazaros.Net.Arp.{ArpEntry, ArpCache, is_for, arp_cache_put, arp_lookup, zero_mac}
use khazaros.Net.Arp.Cache
use khazaros.Net.Arp.Cache.{IsArp, arp_cache_put-IsArp, arp_lookup-put, arp_lookup-put_other}
use khazaros.Net.Ip.{
  done, overflow, NetState, proto_udp, bytes_from, next_id, ip_checksum, build_header, ipv4_send,
  icmp_send_request,
}
use khazaros.Net.Ip.Checksum.{AreBytes, packet_of-AreBytes, ip_checksum-build_header}
use khazaros.Net.Ip.Loopback.{
  IsOurs, ipv4_send-udp_handle, ipv4_send-too_long, icmp_send_request-loopback,
}

abbrev mac_a : Mac
mac_a = record { b0 = 2; b1 = 0; b2 = 0; b3 = 0; b4 = 0; b5 = 10 }

abbrev mac_b : Mac
mac_b = record { b0 = 2; b1 = 0; b2 = 0; b3 = 0; b4 = 0; b5 = 11 }

abbrev blank : ArpEntry
blank = record { ip = 0; mac = zero_mac; valid = false }

abbrev empty_cache : ArpCache
empty_cache i = blank

empty_cache-IsArp : IsArp empty_cache
unfolding is_for
empty_cache-IsArp ip i j a b e = absurd (ground (arith, e))

-- one address is cached
abbrev one_cached : ArpCache
one_cached = arp_cache_put 167772170 mac_a empty_cache

one_cached-IsArp : IsArp one_cached
one_cached-IsArp = arp_cache_put-IsArp 167772170 mac_a empty_cache empty_cache-IsArp

-- a driver whose state is the number of frames that were sent
abbrev card : Ethernet ℕ
card = record { get_device = λ n. some mac_b; send = λ frame n. (true, n + 1) }

arp_lookup-put_other_example : arp_lookup 167772170 (arp_cache_put 167772171 mac_b one_cached) ≡ (
    if is_for 167772170 one_cached (Cache.slot 167772171 one_cached)
    then none
    else arp_lookup 167772170 one_cached)
arp_lookup-put_other_example =
    arp_lookup-put_other 167772171 mac_b one_cached one_cached-IsArp 167772170
      (λ e. absurd (omega arith))

-- four bytes for port 53
abbrev segment : Packet
segment = packet_of (0 ∷ 0 ∷ 0 ∷ 53 ∷ 0 ∷ 12 ∷ 0 ∷ 0 ∷ 1 ∷ 2 ∷ 3 ∷ 4 ∷ [])

abbrev idle_queues : UdpQueues
idle_queues i = record {
  port = 0;
  buffer = λ k. 0;
  length = 0;
  active = false;
  wait_queue = record { threads = λ k. 0; count = 0 };
}

abbrev no_processes : Procs
no_processes = record {
  thread_at =
      λ a. record { tid = 0; state = ready; context = 0; kernel_stack = 0; process = 0; next = 0 };
  process_at = λ a. record {
    pid = 0;
    parent_pid = 0;
    state = alive;
    exit_status = 0;
    name = [];
    cmdline = [];
    page_directory = 0;
    fd_table = λ i. 0;
    threads = 0;
    next = 0;
  };
  next_pid = 1;
  next_tid = 1;
  process_list = 0;
  current_thread = 0;
  ready_queue = 0;
  closed = [];
}

first_slot : slot (bswap16 (field16 segment 2)) idle_queues ≡ some 0
unfolding packet_of bswap16 port_slot serves is_idle find_from
first_slot = refl

some_data : 0 < data_length segment
unfolding packet_of bswap16 data_length
some_data = omega arith

udp_recv-udp_handle_example :
    Gives (if ltb (data_length segment) 512 then data_length segment else 512) segment (
      udp_recv
        (bswap16 (field16 segment 2))
        (λ k. 0)
        512
        (udp_handle segment 12 idle_queues no_processes).0
        no_processes)
udp_recv-udp_handle_example =
    udp_recv-udp_handle segment 12 0 512 (λ k. 0) idle_queues no_processes no_processes
      (omega arith) first_slot some_data

-- a host of our own, with its address in the first byte
abbrev our_host : NetState ℕ
our_host = record {
  net_our_ip = 251789322;
  ip_id = 65535;
  arp_cache = empty_cache;
  udp_queues = λ i. record {
    port = 0;
    buffer = λ k. 0;
    length = 0;
    active = false;
    wait_queue = record { threads = λ k. 0; count = 0 };
  };
  procs = no_processes;
  dev = 0;
}

our_host-IsOurs : IsOurs card our_host 16777343
our_host-IsOurs = refl

ip_checksum-build_header_example :
    ip_checksum (packet_of (build_header 28 7 17 251789322 16777343)) 20 ≡ 0
ip_checksum-build_header_example = ip_checksum-build_header 28 7 17 251789322 16777343 (omega arith)

ipv4_send-udp_handle_example :
    ipv4_send card 1 16777343 proto_udp (λ k. 5) 12 our_host
    ≡ done (
      true,
      record (next_id our_host) {
        udp_queues =
            (udp_handle
              (packet_of (bytes_from 12 0 (λ k. 5)))
              12
              our_host.udp_queues
              our_host.procs).0;
        procs =
            (udp_handle
              (packet_of (bytes_from 12 0 (λ k. 5)))
              12
              our_host.udp_queues
              our_host.procs).1;
      },
    )
ipv4_send-udp_handle_example =
    ipv4_send-udp_handle card 0 16777343 (λ k. 5) 12 our_host our_host-IsOurs (omega arith)
      (omega arith)

ipv4_send-too_long_example :
    ipv4_send card 1 16777343 proto_udp (λ k. 5) 65516 our_host
    ≡ (if ltb 65516 65516 then done (false, our_host) else overflow)
ipv4_send-too_long_example =
    ipv4_send-too_long card 1 16777343 proto_udp (λ k. 5) 65516 our_host our_host-IsOurs
      (omega arith) (omega arith)

icmp_send_request-loopback_example :
    icmp_send_request card 2 251789322 our_host ≡ done (true, next_id (next_id our_host))
icmp_send_request-loopback_example = icmp_send_request-loopback card 0 our_host (omega arith)

-- the bytes 1, 2 and 3
abbrev three_bytes : Packet
three_bytes = packet_of (1 ∷ 2 ∷ 3 ∷ [])

three_bytes-AreBytes : AreBytes three_bytes
three_bytes-AreBytes =
    packet_of-AreBytes (1 ∷ 2 ∷ 3 ∷ []) (omega arith, (omega arith, (omega arith, tt)))
