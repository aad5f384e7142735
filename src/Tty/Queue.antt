-- ===== src/Tty/Queue.antt =====
-- The ring of characters is a first-in first-out queue of up to 1024, read a line at a time.
use khazaros.Base.{
  ℕ, zero, suc, ◌+◌, ◌-◌, ◌%◌, ◌≤◌, ◌<◌, ◌≡◌, refl, sym, ap, ◌∙◌, List, [], ◌∷◌, ◌++◌, arith, Bool,
  ◌==◌, ltb, if◌then◌else◌, Bool-cases, inl, inr, ==→eq, ==-refl, true, false,
}
use khazaros.Base.Window.{next, after, put, window, window-put, window-front, window_empty}
use khazaros.Tty.{Tty, tty_putc, tty_getc, tty_read_loop, tty_read}

-- The indices are in the table, and `head` is `count` cells after `tail`.
pub record IsTty (t : Tty) : Type 0 where
  pub tail_small : t.tail < 1024
  pub bounded : t.count ≤ 1024
  pub aligned : t.head ≡ (t.tail + t.count) % 1024

-- the characters that wait, the oldest first
unfoldable pub typed : Tty → List ℕ
typed t = window 1024 t.buffer t.tail t.count

-- In a well-formed buffer a character joins the queue at its end, unless 1024 wait: then it is
-- dropped.
pub tty_putc-typed :
    (c : ℕ) (t : Tty)
    → IsTty t
    → IsTty (tty_putc c t)
      × (typed (tty_putc c t) ≡ (if ltb t.count 1024 then typed t ++ (c ∷ []) else typed t))
unfolding tty_putc typed
tty_putc-typed c t h = elim (Bool-cases (ltb t.count 1024)) [
  | inr full ↦ rw full (h, refl)
  | inl room ↦ rw room (
    record {
      tail_small = h.tail_small;
      bounded = ground (arith, room);
      aligned = omega (arith, h.aligned);
    },
    window-put 1024 t.buffer c t.count t.tail t.head h.tail_small (ground (arith, room))
        (at_end room),
  )
]
  where
    at_end : ltb t.count 1024 ≡ true → t.head ≡ after 1024 t.tail t.count
    at_end room = ground (arith, h.tail_small, h.aligned, room)

-- what is read from a queue: its first element, or 0
abbrev pub first : List ℕ → ℕ
first [] = 0
first (c ∷ q) = c

-- and what is left of it
abbrev pub others : List ℕ → List ℕ
others [] = []
others (c ∷ q) = q

-- From a well-formed buffer `tty_getc` takes the oldest character, or gives 0 if none waits.
pub tty_getc-typed :
    (t : Tty)
    → IsTty t
    → IsTty (tty_getc t).1
      × ((tty_getc t).0 ≡ first (typed t))
      × (typed (tty_getc t).1 ≡ others (typed t))
unfolding tty_getc typed
tty_getc-typed t h = elim (Bool-cases (t.count == 0)) [
  | inl empty ↦
      rw empty (h, ap first (sym (nothing empty)), nothing empty ∙ ap others (sym (nothing empty)))
  | inr held ↦ rw held (
    record {
      tail_small = omega arith;
      bounded = omega (arith, h.bounded);
      aligned = ground (arith, h.aligned, held);
    },
    ap first (sym (front held)),
    ap others (sym (front held)),
  )
]
  where
    nothing : (t.count == 0) ≡ true → window 1024 t.buffer t.tail t.count ≡ []
    nothing empty = window_empty 1024 t.buffer t.tail t.count (==→eq _ _ empty)

    moved : next 1024 t.tail ≡ (t.tail + 1) % 1024
    moved = ground (arith, h.tail_small)

    front :
        (t.count == 0) ≡ false
        → window 1024 t.buffer t.tail t.count
          ≡ t.buffer t.tail ∷ window 1024 t.buffer ((t.tail + 1) % 1024) (t.count - 1)
    front held =
        window-front 1024 t.buffer t.tail t.count (ground (arith, held))
        ∙ ap (λ i. t.buffer t.tail ∷ window 1024 t.buffer i (t.count - 1)) moved

-- The characters that a read of at most `n` takes from a queue, up to the end of the line, and what
-- is left: an empty queue is read as zeros.
unfoldable pub line : (n : ℕ) → List ℕ → List ℕ × List ℕ
line zero q = ([], q)
line (suc n) q =
    let rest = line n (others q) in
    if first q == 10 then (first q ∷ [], others q) else (first q ∷ rest.0, rest.1)

line-stop :
    (n : ℕ) (q : List ℕ) → (first q == 10) ≡ true → line (suc n) q ≡ (first q ∷ [], others q)
unfolding line
line-stop n q stop = rw stop refl

line-more :
    (n : ℕ) (q : List ℕ)
    → (first q == 10) ≡ false
    → line (suc n) q ≡ (first q ∷ (line n (others q)).0, (line n (others q)).1)
unfolding line
line-more n q more = rw more refl

-- the `n` cells of a buffer from `i` on
unfoldable pub cells : (ℕ → ℕ) → (i n : ℕ) → List ℕ
cells buf i zero = []
cells buf i (suc n) = buf i ∷ cells buf (i + 1) n

-- From `read` on, the loop puts the line into the buffer and takes it from the queue.
record IsRead (left read : ℕ) (buf : ℕ → ℕ) (t : Tty) (r : ℕ × (ℕ → ℕ) × Tty) : Type 0 where
  well_formed : IsTty r.2
  left_over : typed r.2 ≡ (line left (typed t)).1
  got : cells r.1 read (r.0 - read) ≡ (line left (typed t)).0
  read_more : read ≤ r.0
  kept : (k : ℕ) → k < read → r.1 k ≡ buf k

-- one more cell at the front
cells-front :
    (buf : ℕ → ℕ) (i n : ℕ)
    → i + 1 ≤ n
    → cells buf i (n - i) ≡ buf i ∷ cells buf (i + 1) (n - (i + 1))
unfolding cells
cells-front buf i n le = ap (cells buf i) one_more
  where
    one_more : n - i ≡ suc (n - (i + 1))
    one_more = omega arith

-- one round
tty_read_loop-step :
    (left read : ℕ) (buf : ℕ → ℕ) (t : Tty)
    → IsTty t
    → IsRead left
        (read + 1)
        (put buf read (tty_getc t).0)
        (tty_getc t).1
        (tty_read_loop left (put buf read (tty_getc t).0) (read + 1) (tty_getc t).1)
    → IsRead (suc left) read buf t (tty_read_loop (suc left) buf read t)
unfolding tty_read_loop cells put
tty_read_loop-step left read buf t h rest = elim (Bool-cases ((tty_getc t).0 == 10)) [
  | inl stop ↦ rw stop (record {
    well_formed = h₁;
    left_over = taken.1 ∙ sym (ap (λ p. p.1) (line-stop left (typed t) (ends stop)));
    got =
        ap (cells (put buf read (tty_getc t).0) read) one_more
        ∙ rw (==-refl read, taken.0) (sym (ap (λ p. p.0) (line-stop left (typed t) (ends stop))));
    read_more = omega arith;
    kept = λ k lt. ground arith;
  })
  | inr more ↦ rw more (record {
    well_formed = rest.well_formed;
    left_over =
        rest.left_over
        ∙ ap (λ q. (line left q).1) taken.1
        ∙ sym (ap (λ p. p.1) (line-more left (typed t) (ends more)));
    got =
        cells-front r.1 read r.0 rest.read_more
        ∙ ap (λ a. a ∷ cells r.1 (read + 1) (r.0 - (read + 1)))
            (rest.kept read (omega arith) ∙ here ∙ taken.0)
        ∙ ap (λ q. first (typed t) ∷ q) (rest.got ∙ ap (λ q. (line left q).0) taken.1)
        ∙ sym (ap (λ p. p.0) (line-more left (typed t) (ends more)));
    read_more = omega (arith, rest.read_more);
    kept = λ k lt. rest.kept k (omega arith) ∙ ground arith;
  })
]
  where
    h₁ : IsTty (tty_getc t).1
    h₁ = (tty_getc-typed t h).0

    taken : ((tty_getc t).0 ≡ first (typed t)) × (typed (tty_getc t).1 ≡ others (typed t))
    taken = let (a, b, c) = tty_getc-typed t h in (b, c)

    r : ℕ × (ℕ → ℕ) × Tty
    r = tty_read_loop left (put buf read (tty_getc t).0) (read + 1) (tty_getc t).1

    ends : {b : Bool} → ((tty_getc t).0 == 10) ≡ b → (first (typed t) == 10) ≡ b
    ends e = ap (λ x. x == 10) (sym taken.0) ∙ e

    here : put buf read (tty_getc t).0 read ≡ (tty_getc t).0
    here = ground arith

    one_more : read + 1 - read ≡ 1
    one_more = omega arith

tty_read_loop-IsRead :
    (left read : ℕ) (buf : ℕ → ℕ) (t : Tty)
    → IsTty t
    → IsRead left read buf t (tty_read_loop left buf read t)
unfolding tty_read_loop line cells put
tty_read_loop-IsRead zero read buf t h = record {
  well_formed = h;
  left_over = refl;
  got = ap (cells buf read) (none_left);
  read_more = ground arith;
  kept = λ k lt. refl;
}
  where
    none_left : read - read ≡ 0
    none_left = omega arith
tty_read_loop-IsRead (suc left) read buf t h = tty_read_loop-step left read buf t h (
    tty_read_loop-IsRead left (read + 1) (put buf read (tty_getc t).0) (tty_getc t).1
      (tty_getc-typed t h).0)

-- `tty_read` on a well-formed buffer gives the first line of the queue that it holds, cut at
-- `size` characters and filled with zeros where the queue is empty, and leaves the rest of the
-- queue.
pub tty_read-line :
    (buf : ℕ → ℕ) (size : ℕ) (t : Tty)
    → IsTty t
    → IsTty (tty_read buf size t).2
      × (cells (tty_read buf size t).1 0 (tty_read buf size t).0 ≡ (line size (typed t)).0)
      × (typed (tty_read buf size t).2 ≡ (line size (typed t)).1)
unfolding tty_read
tty_read-line buf size t h =
    (read.well_formed, ap (cells read_buf 0) whole ∙ read.got, read.left_over)
  where
    read_buf : ℕ → ℕ
    read_buf = (tty_read_loop size buf 0 t).1

    whole : (tty_read_loop size buf 0 t).0 ≡ (tty_read_loop size buf 0 t).0 - 0
    whole = omega arith

    read : IsRead size 0 buf t (tty_read_loop size buf 0 t)
    read = tty_read_loop-IsRead size 0 buf t h
