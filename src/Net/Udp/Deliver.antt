-- ===== src/Net/Udp/Deliver.antt =====
-- A datagram that `udp_handle` takes is what `udp_recv` returns.
use mathlib.Core.Path.{subst}
use khazaros.Base.{
  ℕ, ◌+◌, ◌≤◌, ◌<◌, ◌≡◌, refl, sym, ap, ◌∙◌, true, false, Option, some, arith, ◌==◌, ltb,
  if◌then◌else◌, Bool-cases, Option-cases, inl, inr, ==-refl, ne→==, lt→ltb,
}
use khazaros.Base.Search.{find_from, IsFirst, find_from-some, find_from-none, find_from-hit}
use khazaros.Base.Window.{put}
use khazaros.Net.Link.{Packet, field16, bswap16}
use khazaros.Net.Udp.{
  UdpQueue, UdpQueues, serves, is_idle, port_slot, copy_data, deliver, data_length, udp_handle,
  Recv, returns, copy_out, recv_from, recv_slot, udp_recv,
}
use khazaros.Proc.{Procs}

-- the slot that a datagram for a port goes to
abbrev pub slot : (port : ℕ) → UdpQueues → Option ℕ
slot port u = port_slot (find_from (serves port u) 16 0) u

serves-deliver :
    (i port n k : ℕ) (segment : Packet) (u : UdpQueues) (s : Procs)
    → serves port (deliver (some i) port n segment u s).0 k
      ≡ (if k == i then true else serves port u k)
unfolding deliver serves put
serves-deliver i port n k segment u s = elim (Bool-cases (k == i)) [
  | inl e ↦ rw (e, ==-refl port) refl
  | inr ne ↦ rw ne refl
]

-- No queue before the slot serves the port.
slot-IsFirst :
    (i port n : ℕ) (segment : Packet) (u : UdpQueues) (s : Procs)
    → slot port u ≡ some i
    → IsFirst (serves port (deliver (some i) port n segment u s).0) 16 0 i
unfolding port_slot
slot-IsFirst i port n segment u s at = elim (Option-cases (find_from (serves port u) 16 0)) [
  | inl absent ↦
      let idle = find_from-some (is_idle u) 16 0 (rw absent at at) in
      record {
        from = omega arith;
        below = idle.below;
        passes = serves-deliver i port n i segment u s ∙ rw (==-refl i) refl;
        earlier = λ k a b.
            serves-deliver i port n k segment u s
            ∙ ground
                (arith, find_from-none (serves port u) 16 0 absent k a (omega (arith, idle.below)));
      }
  | inr (j, here) ↦
      let busy = find_from-some (serves port u) 16 0 (here ∙ rw here at at) in
      record {
        from = omega arith;
        below = busy.below;
        passes = serves-deliver i port n i segment u s ∙ rw (==-refl i) refl;
        earlier =
            λ k a b. serves-deliver i port n k segment u s ∙ ground (arith, busy.earlier k a b);
      }
]

-- the queue that a datagram was put into
abbrev pub filled : (i port n : ℕ) → Packet → UdpQueues → Procs → UdpQueue
filled i port n segment u s = (deliver (some i) port n segment u s).0 i

filled-length :
    (i port n : ℕ) (segment : Packet) (u : UdpQueues) (s : Procs)
    → (filled i port n segment u s).length ≡ n
unfolding deliver put
filled-length i port n segment u s = rw (==-refl i) refl

filled-buffer :
    (i port n k : ℕ) (segment : Packet) (u : UdpQueues) (s : Procs)
    → k < n
    → (filled i port n segment u s).buffer k ≡ segment (8 + k)
unfolding deliver put copy_data
filled-buffer i port n k segment u s lt = rw (==-refl i) (rw (lt→ltb k n lt) refl)

-- `r` returns the first `n` bytes of the datagram's data.
abbrev pub Gives : (n : ℕ) → Packet → Recv → Type 0
Gives n segment r =
    (buf : ℕ → ℕ) × (u : UdpQueues) × (r ≡ returns n buf u)
    × ((k : ℕ) → k < n → buf k ≡ segment (8 + k))

-- what a call returns from a queue that holds data
recv_from-Gives :
    (i maxlen : ℕ) (buf : ℕ → ℕ) (segment : Packet) (u : UdpQueues) (s : Procs)
    → 0 < (u i).length
    → ((k : ℕ) → k < (u i).length → (u i).buffer k ≡ segment (8 + k))
    → Gives
        (if ltb (u i).length maxlen then (u i).length else maxlen)
        segment
        (recv_from i buf maxlen u s)
unfolding recv_from copy_out
recv_from-Gives i maxlen buf segment u s held bytes = (
  copy_out n (u i).buffer buf,
  put u i record {
    port = (u i).port;
    buffer = (u i).buffer;
    length = 0;
    active = (u i).active;
    wait_queue = (u i).wait_queue;
  },
  rw (ne→== (u i).length 0 (λ e. absurd (omega (arith, e)))) refl,
  λ k lt. rw (lt→ltb k n lt) (bytes k (ground arith)),
)
  where
    n : ℕ
    n = if ltb (u i).length maxlen then (u i).length else maxlen

handle-deliver :
    (segment : Packet) (len i : ℕ) (u : UdpQueues) (s : Procs)
    → 8 ≤ len
    → slot (bswap16 (field16 segment 2)) u ≡ some i
    → udp_handle segment len u s
      ≡ deliver (some i) (bswap16 (field16 segment 2)) (data_length segment) segment u s
unfolding udp_handle
handle-deliver segment len i u s whole at =
    rw (long)
      (ap (λ o. deliver o (bswap16 (field16 segment 2)) (data_length segment) segment u s) at)
  where
    long : ltb len 8 ≡ false
    long = ground arith

-- A datagram of at least 8 bytes, whose header gives a length of data above 0, for a port that a
-- queue serves or can be given to: the next `udp_recv` for the port returns the data, cut at
-- UDP_BUF_SIZE and at the size of the caller's buffer.
pub udp_recv-udp_handle :
    (segment : Packet) (len i maxlen : ℕ) (buf : ℕ → ℕ) (u : UdpQueues) (s s₁ : Procs)
    → 8 ≤ len
    → slot (bswap16 (field16 segment 2)) u ≡ some i
    → 0 < data_length segment
    → Gives
        (if ltb (data_length segment) maxlen then data_length segment else maxlen)
        segment
        (udp_recv (bswap16 (field16 segment 2)) buf maxlen (udp_handle segment len u s).0 s₁)
unfolding udp_recv recv_slot
udp_recv-udp_handle segment len i maxlen buf u s s₁ whole at some_data =
    subst (Gives (least n) segment) (sym (received handled)) (
      subst (λ l. Gives (least l) segment (recv_from i buf maxlen u₁ s₁))
        (filled-length i port n segment u s)
        (recv_from-Gives i maxlen buf segment u₁ s₁
          (omega (arith, filled-length i port n segment u s))
          (λ k lt.
            filled-buffer i port n k segment u s
              (omega (arith, filled-length i port n segment u s)))))
  where
    port : ℕ
    port = bswap16 (field16 segment 2)

    n : ℕ
    n = data_length segment

    least : ℕ → ℕ
    least l = if ltb l maxlen then l else maxlen

    u₁ : UdpQueues
    u₁ = (deliver (some i) port n segment u s).0

    handled : udp_handle segment len u s ≡ deliver (some i) port n segment u s
    handled = handle-deliver segment len i u s whole at

    received :
        udp_handle segment len u s ≡ deliver (some i) port n segment u s
        → udp_recv port buf maxlen (udp_handle segment len u s).0 s₁ ≡ recv_from i buf maxlen u₁ s₁
    received e =
        ap (λ r. udp_recv port buf maxlen r.0 s₁) e
        ∙ ap (λ o. recv_slot o port buf maxlen u₁ s₁)
            (find_from-hit (serves port u₁) 16 0 (slot-IsFirst i port n segment u s at))
