-- ===== src/Tty.antt =====
-- The terminal's input buffer of kernel/drivers/char/tty.c: a ring of 1024 characters, the global
-- `main_tty` as a record.
use khazaros.Base.{ℕ, zero, suc, ◌+◌, ◌-◌, ◌%◌, ◌≤◌, ◌<◌, ◌≡◌, ◌==◌, ltb, if◌then◌else◌}
use khazaros.Base.Window.{put}
pub mod Queue
mod Tests

pub record Tty : Type 0 where
  pub buffer : ℕ → ℕ
  pub head : ℕ
  pub tail : ℕ
  pub count : ℕ

-- `TTY_BUFFER_SIZE`
abbrev pub tty_buffer_size : ℕ
tty_buffer_size = 1024

unfoldable pub tty_init : Tty → Tty
tty_init t = record { buffer = λ i. 0; head = 0; tail = 0; count = 0 }

unfoldable pub tty_putc : (c : ℕ) → Tty → Tty
unfolding put
tty_putc c t =
    if ltb t.count tty_buffer_size
    then record {
      buffer = put t.buffer t.head c;
      head = (t.head + 1) % tty_buffer_size;
      tail = t.tail;
      count = t.count + 1;
    }
    else t

-- the character, 0 from an empty buffer, and the state after it
unfoldable pub tty_getc : Tty → ℕ × Tty
tty_getc t = if t.count == 0 then (0, t) else (
  t.buffer t.tail,
  record {
    buffer = t.buffer;
    head = t.head;
    tail = (t.tail + 1) % tty_buffer_size;
    count = t.count - 1;
  },
)

-- The loop with `left` more rounds: the number read, the caller's buffer and the state.
unfoldable pub tty_read_loop : (left : ℕ) → (buf : ℕ → ℕ) → (read : ℕ) → Tty → ℕ × (ℕ → ℕ) × Tty
unfolding tty_getc put
tty_read_loop zero buf read t = (read, buf, t)
tty_read_loop (suc left) buf read t =
    let c = (tty_getc t).0 in
    let rest = tty_read_loop left (put buf read c) (read + 1) (tty_getc t).1 in
    if c == 10 then (read + 1, put buf read c, (tty_getc t).1) else rest

unfoldable pub tty_read : (buf : ℕ → ℕ) (size : ℕ) → Tty → ℕ × (ℕ → ℕ) × Tty
unfolding tty_read_loop
tty_read buf size t = tty_read_loop size buf 0 t
