-- ===== src/Net/Udp.antt =====
-- The datagram queues of kernel/net/udp/udp.c: sixteen ports, each with room for one datagram.
use khazaros.Base.{
  ℕ, zero, suc, ◌+◌, ◌-◌, ◌*◌, ◌/◌, ◌%◌, ◌^◌, Bool, true, false, not, ◌&&◌, Option, none, some,
  ◌==◌, ltb, if◌then◌else◌,
}
use khazaros.Base.Search.{find_from}
use khazaros.Base.Window.{put}
use khazaros.Net.Link.{Packet, field16, bswap16}
use khazaros.Proc.{Procs}
use khazaros.Proc.Wait.{WaitQueue, wait_queue_init, wait_on, wake_up}
pub mod Deliver

pub record UdpQueue : Type 0 where
  pub port : ℕ
  pub buffer : ℕ → ℕ
  pub length : ℕ
  pub active : Bool
  pub wait_queue : WaitQueue

-- `udp_queues`, of which sixteen exist
abbrev pub UdpQueues : Type 0
UdpQueues = ℕ → UdpQueue

abbrev pub max_udp_ports : ℕ
max_udp_ports = 16

abbrev pub udp_buf_size : ℕ
udp_buf_size = 2048

-- The loop, over the queues that exist.
unfoldable pub udp_init : UdpQueues → UdpQueues
udp_init u i =
    if ltb i max_udp_ports
    then record {
      port = (u i).port;
      buffer = (u i).buffer;
      length = 0;
      active = false;
      wait_queue = wait_queue_init (u i).wait_queue;
    }
    else u i

-- `udp_queues[i].active && udp_queues[i].port == port`
unfoldable pub serves : ℕ → UdpQueues → ℕ → Bool
serves port u i = (u i).active && ((u i).port == port)

unfoldable pub is_idle : UdpQueues → ℕ → Bool
is_idle u i = not (u i).active

-- The queue for a port: the one that serves it, or the first that is idle.
unfoldable pub port_slot : Option ℕ → UdpQueues → Option ℕ
port_slot (some i) u = some i
port_slot none u = find_from (is_idle u) max_udp_ports 0

-- the bytes of a datagram over what the buffer held
unfoldable pub copy_data : Packet → (data_len : ℕ) → (ℕ → ℕ) → ℕ → ℕ
copy_data segment data_len buffer k = if ltb k data_len then segment (8 + k) else buffer k

-- The end of `udp_handle`, for the slot that was found, if any.
unfoldable pub deliver :
    Option ℕ → (dst_port data_len : ℕ) → Packet → UdpQueues → Procs → UdpQueues × Procs
unfolding copy_data put
deliver none dst_port data_len segment u s = (u, s)
deliver (some i) dst_port data_len segment u s = (
  put u i record {
    port = dst_port;
    buffer = copy_data segment data_len (u i).buffer;
    length = data_len;
    active = true;
    wait_queue = (wake_up (u i).wait_queue s).0;
  },
  (wake_up (u i).wait_queue s).1,
)

-- the length of the data, by the header: a `uint16_t`, cut at the size of the buffer
unfoldable pub data_length : Packet → ℕ
data_length segment =
    let data_len = (bswap16 (field16 segment 4) + (2 ^ 16 - 8)) % 2 ^ 16 in
    if ltb udp_buf_size data_len then udp_buf_size else data_len

unfoldable pub udp_handle : (segment : Packet) (len : ℕ) → UdpQueues → Procs → UdpQueues × Procs
unfolding deliver
udp_handle segment len u s =
    let dst_port = bswap16 (field16 segment 2) in
    if ltb len 8
    then (u, s)
    else deliver (port_slot (find_from (serves dst_port u) max_udp_ports 0) u) dst_port
        (data_length segment) segment u s

-- What a call of `udp_recv` comes to: it returns a number, or it waits, in the state in which
-- `wait_on` yields to the scheduler.
pub data Recv : Type 0 where
  returns : (n : ℕ) → (buf : ℕ → ℕ) → UdpQueues → Recv
  waits : UdpQueues → Procs → Recv

-- `memcpy(buf, buffer, n)`
unfoldable pub copy_out : (n : ℕ) → (from buf : ℕ → ℕ) → ℕ → ℕ
copy_out n from buf k = if ltb k n then from k else buf k

-- A call for the port of queue `i`.
unfoldable pub recv_from : ℕ → (buf : ℕ → ℕ) (maxlen : ℕ) → UdpQueues → Procs → Recv
unfolding copy_out put
recv_from i buf maxlen u s =
    let q = u i in
    let n = if ltb q.length maxlen then q.length else maxlen in
    if q.length == 0
    then waits
        (put u i record {
          port = q.port;
          buffer = q.buffer;
          length = q.length;
          active = q.active;
          wait_queue = (wait_on q.wait_queue s).0;
        })
        (wait_on q.wait_queue s).1
    else returns n (copy_out n q.buffer buf) (
        put u i record {
          port = q.port;
          buffer = q.buffer;
          length = 0;
          active = q.active;
          wait_queue = q.wait_queue;
        })

-- A port that no queue serves gets the first idle one.
unfoldable pub bind_port : Option ℕ → (local_port : ℕ) (buf : ℕ → ℕ) → UdpQueues → Recv
unfolding put
bind_port none local_port buf u = returns 0 buf u
bind_port (some i) local_port buf u = returns 0 buf (
    put u i record {
      port = local_port;
      buffer = (u i).buffer;
      length = 0;
      active = true;
      wait_queue = (u i).wait_queue;
    })

unfoldable pub recv_slot :
    Option ℕ → (local_port : ℕ) (buf : ℕ → ℕ) (maxlen : ℕ) → UdpQueues → Procs → Recv
recv_slot none local_port buf maxlen u s =
    bind_port (find_from (is_idle u) max_udp_ports 0) local_port buf u
recv_slot (some i) local_port buf maxlen u s = recv_from i buf maxlen u s

unfoldable pub udp_recv : (local_port : ℕ) (buf : ℕ → ℕ) (maxlen : ℕ) → UdpQueues → Procs → Recv
udp_recv local_port buf maxlen u s =
    recv_slot (find_from (serves local_port u) max_udp_ports 0) local_port buf maxlen u s
