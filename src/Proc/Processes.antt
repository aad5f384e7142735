-- ===== src/Proc/Processes.antt =====
-- The list of processes, and the search for a process number in it.
use khazaros.Base.{
  ℕ, zero, suc, ◌<◌, ◌≡◌, ◌≢◌, refl, false, some, arith, ◌==◌, Bool-cases, inl, inr, ==→eq, ==→ne,
  ne→==, ◌⊎◌,
}
use khazaros.Proc.{Process, Procs, get_by_pid_loop, process_get_by_pid}

-- the process `k` links after the one at `a`
unfoldable pub follow : (ℕ → Process) → (k a : ℕ) → ℕ
follow f zero a = a
follow f (suc k) a = follow f k (f a).next

-- `n` processes from `a` on, and then NULL
pub record IsProcessList (f : ℕ → Process) (a n : ℕ) : Type 0 where
  pub ends : follow f n a ≡ 0
  pub real : (k : ℕ) → k < n → follow f k a ≢ 0

-- `p` is the first process of the list with the number, or NULL if there is none.
abbrev pub IsFirstWith : (ℕ → Process) → (a n pid p : ℕ) → Type 0
IsFirstWith f a n pid p =
    ((p ≡ 0) × ((k : ℕ) → k < n → (f (follow f k a)).pid ≢ pid))
    ⊎ ((k : ℕ) × (k < n)
        × (p ≡ follow f k a)
        × ((f p).pid ≡ pid)
        × ((j : ℕ) → j < k → (f (follow f j a)).pid ≢ pid))

get_by_pid_loop-IsFirstWith :
    (fuel n pid a : ℕ) (s : Procs)
    → IsProcessList s.process_at a n
    → n < fuel
    → (p : ℕ) × (get_by_pid_loop fuel pid a s ≡ some p) × IsFirstWith s.process_at a n pid p
unfolding get_by_pid_loop follow
get_by_pid_loop-IsFirstWith zero n pid a s h enough = absurd (omega arith)
get_by_pid_loop-IsFirstWith (suc fuel) zero pid a s h enough =
    (0, rw h.ends refl, inl (refl, λ k lt. absurd (omega arith)))
get_by_pid_loop-IsFirstWith (suc fuel) (suc n) pid a s h enough =
    elim (Bool-cases ((s.process_at a).pid == pid)) [
      | inl hit ↦ (
        a,
        rw (ne→== a 0 (h.real 0 (omega arith)), hit) refl,
        inr (0, omega arith, refl, ==→eq _ _ hit, λ j lt. absurd (omega arith)),
      )
      | inr miss ↦
          let (p, runs, found) =
            get_by_pid_loop-IsFirstWith fuel n pid (s.process_at a).next s
              record { ends = h.ends; real = λ k lt. h.real (suc k) (omega arith) } (omega arith) in
          (p, rw (ne→== a 0 (h.real 0 (omega arith)), miss) runs, longer p miss found)
    ]
  where
    not_yet :
        (m : ℕ)
        → ((s.process_at a).pid == pid) ≡ false
        → ((j : ℕ) → j < m → (s.process_at (follow s.process_at j (s.process_at a).next)).pid ≢ pid)
        → (j : ℕ) → j < suc m
        → (s.process_at (follow s.process_at j a)).pid ≢ pid
    not_yet m miss rest zero lt = ==→ne _ _ miss
    not_yet m miss rest (suc j) lt = rest j (omega arith)

    longer :
        (p : ℕ)
        → ((s.process_at a).pid == pid) ≡ false
        → IsFirstWith s.process_at (s.process_at a).next n pid p
        → IsFirstWith s.process_at a (suc n) pid p
    longer p miss (inl (null, rest)) = inl (null, not_yet n miss rest)
    longer p miss (inr (k, lt, here, num, rest)) =
        inr (suc k, omega arith, here, num, not_yet k miss rest)

-- On a list of processes that ends with NULL, `process_get_by_pid` ends and gives the first
-- process with the number, or NULL if there is none, with a round for each process and one for
-- the end.
pub process_get_by_pid-IsFirstWith :
    (fuel n pid : ℕ) (s : Procs)
    → IsProcessList s.process_at s.process_list n
    → n < fuel
    → (p : ℕ) × (process_get_by_pid fuel pid s ≡ some p)
      × IsFirstWith s.process_at s.process_list n pid p
unfolding process_get_by_pid
process_get_by_pid-IsFirstWith fuel n pid s h enough =
    get_by_pid_loop-IsFirstWith fuel n pid s.process_list s h enough
