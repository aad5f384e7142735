-- ===== src/Net/Dns.antt =====
-- The DNS client of kernel/net/dns.c: the name in a query, the query, and the answers.
use khazaros.Base.{
  ℕ, zero, suc, ◌+◌, ◌-◌, ◌*◌, ◌/◌, ◌%◌, ◌^◌, Bool, true, false, not, ◌&&◌, ◌||◌, Option, none,
  some, List, [], ◌∷◌, ◌==◌, ltb, if◌then◌else◌,
}
use mathlib.Core.Option
use khazaros.LibK.Memory.{Bytes, store8, memset}
use khazaros.LibK.Text.{Chars, strlen, strcmp, kstrncpy}
use khazaros.Net.Link.{Packet, Ethernet, field16, field32, packet_of, bswap16}
use khazaros.Net.Udp.{returns, waits, udp_recv}
use khazaros.Net.Ip.{Outcome, done, overflow, out_of_fuel, NetState, udp_send}

-- a dot where the name does not end with one
unfoldable pub add_dot : (len : ℕ) → Bytes → Bytes
add_dot len src =
    if ltb 0 len && not (src (len - 1) == b'.')
    then store8 (store8 src len b'.') (len + 1) 0
    else src

-- The copy of the host's name in `src`, which starts as any memory: 126 characters at most, with a
-- dot at its end.
unfoldable pub dotted_name : Chars → Option Bytes
unfolding add_dot
dotted_name host =
    let src = store8 (kstrncpy (λ _. 0) 0 host 126) 126 0 in
    Option.map (λ len. add_dot len src) (strlen 128 src)

-- the characters of a label, from number `lock` on, to `q`
unfoldable pub copy_label : (left lock q : ℕ) → (src : Chars) → Bytes → Bytes
copy_label zero lock q src m = m
copy_label (suc left) lock q src m = copy_label left (lock + 1) (q + 1) src (store8 m q (src lock))

-- The loop from index `i` on, on fuel: a label starts at `lock` and goes to `q`. The end of the
-- name is a byte of 0.
unfoldable pub format_loop : (fuel i lock q : ℕ) → (src : Chars) → Bytes → Option Bytes
unfolding copy_label
format_loop zero i lock q src m = none
format_loop (suc fuel) i lock q src m =
    let n = i - lock in
    let label =
      format_loop fuel (i + 1) (lock + n + 1) (q + 1 + n) src
        (copy_label n lock (q + 1) src (store8 m q n)) in
    let rest = format_loop fuel (i + 1) lock q src m in
    if src i == 0 then some (store8 m q 0) else if src i == b'.' then label else rest

abbrev pub format_into : (dns_query : ℕ) → Bytes → Option Bytes → Option Bytes
format_into dns_query m none = none
format_into dns_query m (some src) = format_loop 129 0 0 dns_query src m

unfoldable pub dns_format_name : Bytes → (dns_query : ℕ) → (host : Chars) → Option Bytes
unfolding dotted_name format_loop
dns_format_name m dns_query host = format_into dns_query m (dotted_name host)

-- a structure's `uint16_t` field
abbrev store16 : Bytes → (a v : ℕ) → Bytes
store16 m a v = store8 (store8 m a v) (a + 1) (v / 256)

-- the header of a query, over 512 bytes of zeros; the stack held any memory before
unfoldable pub query_header : Bytes
unfolding memset store8 bswap16
query_header =
    let m = memset (λ _. 0) 0 0 512 in
    store16 (store16 (store16 m 0 (bswap16 4660)) 2 (bswap16 256)) 4 (bswap16 1)

-- The type and the class behind the name, and the size of the packet.
unfoldable pub add_question : Bytes → (name_len : ℕ) → Bytes × ℕ
add_question m name_len =
    let q = 12 + name_len in
    (store8 (store8 (store8 (store8 m q 0) (q + 1) 1) (q + 2) 0) (q + 3) 1, (q + 4) % 2 ^ 16)

unfoldable pub finish_query : Option Bytes → Option (Bytes × ℕ)
unfolding add_question
finish_query none = none
finish_query (some m) = Option.map (λ len. add_question m (len + 1)) (strlen 512 (λ k. m (12 + k)))

unfoldable pub dns_query : (hostname : Chars) → Option (Bytes × ℕ)
unfolding query_header finish_query
dns_query hostname = finish_query (dns_format_name query_header 12 hostname)

-- `while (*ptr != 0) ptr++`, on fuel: where the loop stops
unfoldable pub skip_name : (fuel ptr : ℕ) → Packet → Option ℕ
skip_name zero ptr resp = none
skip_name (suc fuel) ptr resp =
    let rest = skip_name fuel (ptr + 1) resp in if resp ptr == 0 then some ptr else rest

-- a big-endian field
abbrev pub big16 : Packet → ℕ → ℕ
big16 resp a = resp a * 256 + resp (a + 1)

-- the name of an answer: an offset of two bytes (`(*ptr & 0xC0) == 0xC0`), or text
unfoldable pub skip_answer_name : (fuel ptr : ℕ) → Packet → Option ℕ
unfolding skip_name
skip_answer_name fuel ptr resp =
    if resp ptr / 64 % 4 == 3
    then some (ptr + 2)
    else Option.map (λ p. p + 1) (skip_name fuel ptr resp)

-- An answer's fields, behind its name: the address, or what the answers from behind it give.
unfoldable pub parse_answer : Packet → (next : ℕ → Option (Option ℕ)) → Option ℕ → Option (Option ℕ)
parse_answer resp next none = none
parse_answer resp next (some ptr) =
    if (big16 resp ptr == 1) && (big16 resp (ptr + 2) == 1) && (big16 resp (ptr + 8) == 4)
    then some (some (field32 resp (ptr + 10)))
    else next (ptr + 10 + big16 resp (ptr + 8))

-- The answers from `ptr` on, of which `left` are left.
unfoldable pub parse_answers : (fuel left ptr : ℕ) → Packet → Option (Option ℕ)
unfolding skip_answer_name parse_answer
parse_answers fuel zero ptr resp = some none
parse_answers fuel (suc left) ptr resp =
    parse_answer resp (λ p. parse_answers fuel left p resp) (skip_answer_name fuel ptr resp)

abbrev pub parse_after : (fuel left : ℕ) → Packet → Option ℕ → Option (Option ℕ)
parse_after fuel left resp none = none
parse_after fuel left resp (some ptr) = parse_answers fuel left (ptr + 5) resp

-- The response of `received` bytes: the address of its first answer of type A.
unfoldable pub parse_response : (fuel received : ℕ) → Packet → Option (Option ℕ)
unfolding parse_answers skip_name
parse_response fuel received resp =
    let ans_count = bswap16 (field16 resp 6) in
    if ltb received 12
    then some none
    else if ans_count == 0
    then some none
    else parse_after fuel ans_count resp (skip_name fuel 12 resp)

-- `strcmp(hostname, name) == 0`, for a name of fewer than 32 characters
abbrev pub is_zero : Option ℕ → Bool
is_zero none = false
is_zero (some n) = n == 0

unfoldable pub is_name : (hostname : Chars) → List ℕ → Bool
is_name hostname name = is_zero (strcmp 32 hostname (packet_of name))

-- the names with an address of their own: `localhost`, `127.0.0.1`, `google.com`, `khazar-os.org`
abbrev pub localhost : List ℕ
localhost = b'l' ∷ b'o' ∷ b'c' ∷ b'a' ∷ b'l' ∷ b'h' ∷ b'o' ∷ b's' ∷ b't' ∷ []

abbrev pub loopback : List ℕ
loopback = b'1' ∷ b'2' ∷ b'7' ∷ b'.' ∷ b'0' ∷ b'.' ∷ b'0' ∷ b'.' ∷ b'1' ∷ []

abbrev pub google_com : List ℕ
google_com = b'g' ∷ b'o' ∷ b'o' ∷ b'g' ∷ b'l' ∷ b'e' ∷ b'.' ∷ b'c' ∷ b'o' ∷ b'm' ∷ []

abbrev pub khazar_os_org : List ℕ
khazar_os_org =
    b'k' ∷ b'h' ∷ b'a' ∷ b'z' ∷ b'a' ∷ b'r' ∷ b'-' ∷ b'o' ∷ b's' ∷ b'.' ∷ b'o' ∷ b'r' ∷ b'g' ∷ []

unfoldable pub local_address : (hostname : Chars) → Option ℕ
unfolding is_name
local_address hostname =
    if is_name hostname localhost || is_name hostname loopback
    then some 16777343
    else if is_name hostname google_com
    then some 2398812814
    else if is_name hostname khazar_os_org
    then some 93352121
    else none

-- How a resolution goes: an address or none, or the thread waits for the response in this state.
pub data Resolution (Dev : Type 0) : Type 0 where
  resolved : Option ℕ → NetState Dev → Resolution Dev
  waiting : NetState Dev → Resolution Dev
  faulted : Resolution Dev

module _ {Dev : Type 0} (eth : Ethernet Dev) where
  abbrev pub parsed : Option (Option ℕ) → NetState Dev → Resolution Dev
  parsed none s = faulted
  parsed (some o) s = resolved o s

  -- The retry loop, of which `left` rounds are left: the buffer, and what the call has come to.
  unfoldable pub receive_loop : (fuel left : ℕ) → (resp : Packet) → NetState Dev → Resolution Dev
  unfolding parse_response
  receive_loop fuel zero resp s = resolved none s
  receive_loop fuel (suc left) resp s = elim (udp_recv 5553 resp 1024 s.udp_queues s.procs) [
    | returns n buf u ↦
        (let rest = receive_loop fuel left buf (record s { udp_queues = u }) in
          if ltb 0 n
          then parsed (parse_response fuel n buf) (record s { udp_queues = u })
          else rest)
    | waits u p ↦ waiting (record s { udp_queues = u; procs = p })
  ]

  -- behind `udp_send`
  unfoldable pub await_response : (fuel : ℕ) → Outcome (Bool × NetState Dev) → Resolution Dev
  unfolding receive_loop
  await_response fuel (done (true, s)) = receive_loop fuel 5 (λ _. 0) s
  await_response fuel (done (false, s)) = resolved none s
  await_response fuel overflow = faulted
  await_response fuel out_of_fuel = faulted

  -- The first call of `udp_recv`, for no bytes, and the query.
  unfoldable pub send_query : (fuel : ℕ) → Option (Bytes × ℕ) → NetState Dev → Resolution Dev
  unfolding await_response
  send_query fuel none s = faulted
  send_query fuel (some (packet, size)) s = elim (udp_recv 5553 (λ _. 0) 0 s.udp_queues s.procs) [
    | returns n buf u ↦
        await_response fuel
          (udp_send eth fuel 134744072 53 packet size (record s { udp_queues = u }))
    | waits u p ↦ waiting (record s { udp_queues = u; procs = p })
  ]

  -- a name that the code knows, or the query
  unfoldable pub resolve_with :
      Option ℕ → (fuel : ℕ) → (hostname : Chars) → NetState Dev → Resolution Dev
  unfolding dns_query send_query
  resolve_with (some ip) fuel hostname s = resolved (some ip) s
  resolve_with none fuel hostname s = send_query fuel (dns_query hostname) s

  unfoldable pub dns_resolve : (fuel : ℕ) → (hostname : Chars) → NetState Dev → Resolution Dev
  unfolding local_address resolve_with
  dns_resolve fuel hostname s = resolve_with (local_address hostname) fuel hostname s
