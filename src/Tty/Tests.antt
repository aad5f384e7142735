-- ===== src/Tty/Tests.antt =====
-- Examples of the terminal's buffer.
use khazaros.Base.{◌≡◌, refl, arith}
use khazaros.Tty.{Tty, tty_read}
use khazaros.Tty.Queue.{IsTty, typed, line, cells, tty_read-line}

-- three characters that go around the end of the table
abbrev around : Tty
around = record { buffer = λ i. i; head = 1; tail = 1022; count = 3 }

around-IsTty : IsTty around
around-IsTty = record { tail_small = omega arith; bounded = omega arith; aligned = refl }

tty_read-line_example :
    IsTty (tty_read (λ i. 0) 5 around).2
    × (cells (tty_read (λ i. 0) 5 around).1 0 (tty_read (λ i. 0) 5 around).0
        ≡ (line 5 (typed around)).0)
    × (typed (tty_read (λ i. 0) 5 around).2 ≡ (line 5 (typed around)).1)
tty_read-line_example = tty_read-line (λ i. 0) 5 around around-IsTty
