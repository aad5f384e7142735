-- ===== src/Proc/Ring.antt =====
-- The ready queue as a ring: where its threads lie, and what the loops over it return.
use khazaros.Base.{
  ℕ, zero, suc, ◌+◌, ◌-◌, ◌<◌, ◌≤◌, ◌≡◌, ◌≢◌, refl, sym, ap, ◌∙◌, true, false, some, arith, ◌==◌,
  Bool-cases, inl, inr, ==→eq, ==-refl, ne→==,
}
use khazaros.Proc.{Thread, Procs, find_last, count_queue}

-- the thread `k` steps after the one at `a`
unfoldable pub walk : (ℕ → Thread) → (k a : ℕ) → ℕ
walk f zero a = a
walk f (suc k) a = (f (walk f k a)).next

pub walk-front : (f : ℕ → Thread) (k a : ℕ) → walk f k (f a).next ≡ walk f (suc k) a
unfolding walk
walk-front f zero a = refl
walk-front f (suc k) a = ap (λ b. (f b).next) (walk-front f k a)

pub walk-walk : (f : ℕ → Thread) (k i a : ℕ) → walk f k (walk f i a) ≡ walk f (k + i) a
unfolding walk
walk-walk f zero i a = ap (λ j. walk f j a) (omega arith)
walk-walk f (suc k) i a = ap (λ b. (f b).next) (walk-walk f k i a) ∙ ap (λ j. walk f j a) next
  where
    next : suc (k + i) ≡ suc k + i
    next = omega arith

-- the way depends on nothing but the links
pub walk-links :
    (f g : ℕ → Thread) (k a : ℕ) → ((b : ℕ) → (f b).next ≡ (g b).next) → walk f k a ≡ walk g k a
unfolding walk
walk-links f g zero a same = refl
walk-links f g (suc k) a same = ap (λ b. (f b).next) (walk-links f g k a same) ∙ same (walk g k a)

-- `n` threads from `r` on, around: none is NULL and the first is met again only at the end.
pub record IsRing (f : ℕ → Thread) (r n : ℕ) : Type 0 where
  pub some_thread : 0 < n
  pub closed : walk f n r ≡ r
  pub not_before : (k : ℕ) → 0 < k → k < n → walk f k r ≢ r
  pub not_null : (k : ℕ) → k < n → walk f k r ≢ 0

-- the ready queue is a ring of `n` threads
abbrev pub IsQueue : Procs → ℕ → Type 0
IsQueue s n = IsRing s.thread_at s.ready_queue n

module _ (s : Procs) (n : ℕ) (h : IsQueue s n) where
  -- the thread `k` steps into the queue
  abbrev pub nth : ℕ → ℕ
  nth k = walk s.thread_at k s.ready_queue

  around : (i : ℕ) → (suc i == n) ≡ true → (s.thread_at (nth i)).next ≡ s.ready_queue
  unfolding walk
  around i last = ap (λ k. walk s.thread_at k s.ready_queue) (==→eq (suc i) n last) ∙ h.closed

  onward :
      (i : ℕ) → i < n → (suc i == n) ≡ false → ((s.thread_at (nth i)).next == s.ready_queue) ≡ false
  unfolding walk
  onward i lt more =
      ne→== (nth (suc i)) s.ready_queue (h.not_before (suc i) (omega arith) (ground arith))

  -- The search for the last thread finds the one before the first.
  pub find_last-walk :
      (fuel i : ℕ) → i < n → n ≤ i + fuel → find_last fuel (nth i) s ≡ some (nth (n - 1))
  unfolding find_last walk
  find_last-walk zero i lt enough = absurd (omega arith)
  find_last-walk (suc fuel) i lt enough = elim (Bool-cases (suc i == n)) [
    | inl last ↦ rw (around i last, ==-refl s.ready_queue) (ap (λ k. some (nth k)) (ground arith))
    | inr more ↦ rw (onward i lt more) (find_last-walk fuel (suc i) (ground arith) (omega arith))
  ]

  pub count_queue-walk : (fuel i : ℕ) → i < n → n ≤ i + fuel → count_queue fuel (nth i) i s ≡ some n
  unfolding count_queue walk
  count_queue-walk zero i lt enough = absurd (omega arith)
  count_queue-walk (suc fuel) i lt enough = elim (Bool-cases (suc i == n)) [
    | inl last ↦ rw (around i last, ==-refl s.ready_queue) (ap some (ground arith))
    | inr more ↦ rw (onward i lt more) (
        ap (λ k. count_queue fuel (nth (suc i)) k s) (omega arith)
        ∙ count_queue-walk fuel (suc i) (ground arith) (omega arith))
  ]

  reached : (k : ℕ) → (j : ℕ) × (j < n) × (nth k ≡ nth j)
  unfolding walk
  reached zero = (0, h.some_thread, refl)
  reached (suc k) =
      let (j, lt, same) = reached k in
      elim (Bool-cases (suc j == n)) [
        | inl last ↦ (0, h.some_thread, ap (λ a. (s.thread_at a).next) same ∙ around j last)
        | inr more ↦ (suc j, ground arith, ap (λ a. (s.thread_at a).next) same)
      ]

  -- Nowhere on the way around is a thread NULL.
  pub walk-not_null : (k : ℕ) → nth k ≢ 0
  walk-not_null k e = let (j, lt, same) = reached k in h.not_null j lt (sym same ∙ e)

  -- the last thread is met once on the way
  pub nth-last : (i : ℕ) → i < n - 1 → nth i ≢ nth (n - 1)
  unfolding walk
  nth-last i lt e =
      h.not_before (suc i) (omega arith) (omega arith)
        (ap (λ a. (s.thread_at a).next) e ∙ ap nth one_more ∙ h.closed)
    where
      one_more : suc (n - 1) ≡ n
      one_more = omega (arith, h.some_thread)
