-- ===== src/Proc/Create/Keeps.antt =====
-- `process_create_user` and `process_cleanup` of kernel/proc/task/process.c keep the table of
-- processes.
use khazaros.Base.{
  ℕ, ◌+◌, ◌^◌, ◌<◌, ◌≡◌, ◌≢◌, ◌⊎◌, refl, sym, ap, Option, none, some, List, ◌∷◌, ◌==◌, Bool-cases,
  inl, inr, ==→ne, length,
}
use mathlib.Core.Path.{subst}
use khazaros.Proc.Services.{Services}
use khazaros.Proc.{Procs}
use khazaros.Proc.Reap.{process_cleanup}
use khazaros.Proc.Reap.Unlink.{NotIn, without}
use khazaros.Proc.Terminate.{IsList}
use khazaros.Proc.Reap.Waitpid.{IsGone, process_cleanup-IsGone}
use khazaros.Proc.Create.{
  process_size, thread_size, kernel_stack_size, Parts, allocate_stack, allocate_thread, allocate,
  finish_create_user, process_create_user, parent_pid_of,
}
use khazaros.Proc.Create.Table.{
  IsTable, Falls-same, Falls-without, Falls-IsDistinct, Prepared, add_process-Prepared,
  add_thread-Prepared, set_stack-Prepared, Prepared-IsTable, enlist-IsTable,
}

-- What the allocations have done, for a process at `p`.
Allocated : {W : Type 0} → (p : ℕ) → (xs : List ℕ) → Procs → Option Parts × (Procs × W) → Type 0
Allocated p xs s (none, (s₁, w)) = IsTable s₁ xs
Allocated p xs s (some parts, (s₁, w)) = (parts.process ≡ p) × (p ≢ 0) × Prepared p s s₁

-- What `process_create_user` returns, NULL or the new process, and the table that it leaves.
abbrev pub CreateOutcome : {W : Type 0} → (xs : List ℕ) → Procs → ℕ × (Procs × W) → Type 0
CreateOutcome xs s (p, (s', w)) =
    ((p ≡ 0) × IsTable s' xs)
    ⊎ ((p ≢ 0)
        × IsTable s' (p ∷ xs)
        × ((s'.process_at p).pid ≡ s.next_pid)
        × ((s'.process_at p).parent_pid ≡ parent_pid_of s))

module _ {W : Type 0} (d : Services W) where
  allocate_stack-Allocated :
      (p t : ℕ) (xs : List ℕ) (s s₁ : Procs) (w : W)
      → p ≢ 0
      → NotIn p xs
      → IsTable s xs
      → Prepared p s s₁
      → Allocated p xs s (allocate_stack d p t s₁ w)
  unfolding allocate_stack Allocated
  allocate_stack-Allocated p t xs s s₁ w p₀ n tab h =
      elim (Bool-cases ((d.kmalloc kernel_stack_size w).0 == 0)) [
        | inl e ↦ rw e (Prepared-IsTable p xs s s₁ h n tab)
        | inr ne ↦ rw ne (refl, p₀, set_stack-Prepared p t (d.kmalloc kernel_stack_size w).0 s s₁ h)
      ]

  allocate_thread-Allocated :
      (p : ℕ) (xs : List ℕ) (s s₁ : Procs) (w : W)
      → p ≢ 0
      → NotIn p xs
      → IsTable s xs
      → Prepared p s s₁
      → Allocated p xs s (allocate_thread d p s₁ w)
  unfolding allocate_thread Allocated
  allocate_thread-Allocated p xs s s₁ w p₀ n tab h =
      elim (Bool-cases ((d.kmalloc thread_size w).0 == 0)) [
        | inl e ↦ rw e (Prepared-IsTable p xs s s₁ h n tab)
        | inr ne ↦ rw ne (
            allocate_stack-Allocated p (d.kmalloc thread_size w).0 xs s _
              (d.kmalloc thread_size w).1 p₀ n tab
              (add_thread-Prepared p (d.kmalloc thread_size w).0 s s₁ h))
      ]

  allocate-Allocated :
      (name : List ℕ) (xs : List ℕ) (s : Procs) (w : W)
      → s.next_pid + 1 < 2 ^ 32
      → NotIn (d.kmalloc process_size w).0 xs
      → IsTable s xs
      → Allocated (d.kmalloc process_size w).0 xs s (allocate d name s w)
  unfolding allocate Allocated
  allocate-Allocated name xs s w b n tab = elim (Bool-cases ((d.kmalloc process_size w).0 == 0)) [
    | inl e ↦ rw e tab
    | inr ne ↦ rw ne (
        allocate_thread-Allocated (d.kmalloc process_size w).0 xs s _ (d.kmalloc process_size w).1
          (==→ne _ _ ne) n tab (add_process-Prepared (d.kmalloc process_size w).0 name s b))
  ]

  finish_create_user-Outcome :
      (p : ℕ) (xs : List ℕ) (s : Procs) (entrypoint user_stack_top : ℕ)
      → NotIn p xs
      → IsTable s xs
      → (r : Option Parts × (Procs × W)) → Allocated p xs s r
      → CreateOutcome xs s (finish_create_user d r.0 entrypoint user_stack_top r.1.0 r.1.1)
  unfolding finish_create_user Allocated
  finish_create_user-Outcome p xs s entrypoint user_stack_top n tab (none, (s₁, w₁)) h =
      inl (refl, h)
  finish_create_user-Outcome p xs s entrypoint user_stack_top n tab (some parts, (s₁, w₁))
        (e, p₀, h) =
      let same : p ≡ parts.process = sym e in
      let made =
        enlist-IsTable parts.process parts.thread _ _ xs s s₁ (rw e p₀)
          (subst (λ a. Prepared a s s₁) same h) (subst (λ a. NotIn a xs) same n) tab in
      inr (rw e p₀, made.0, made.1, made.2)

  -- `process_create_user` keeps the table of processes, in which no two have the same number: it
  -- either returns NULL, with the list as it was, or a new process at the head of the list, with
  -- the next number and the number of its parent. The numbers have not run out, and the heap does
  -- not hand out a process that is on the list.
  pub process_create_user-IsTable :
      (name : List ℕ) (entrypoint user_stack_top : ℕ) (xs : List ℕ) (s : Procs) (w : W)
      → s.next_pid + 1 < 2 ^ 32
      → NotIn (d.kmalloc process_size w).0 xs
      → IsTable s xs
      → CreateOutcome xs s (process_create_user d name entrypoint user_stack_top s w)
  unfolding process_create_user
  process_create_user-IsTable name entrypoint user_stack_top xs s w b n tab =
      finish_create_user-Outcome (d.kmalloc process_size w).0 xs s entrypoint user_stack_top n tab
        (allocate d name s w) (allocate-Allocated name xs s w b n tab)

  -- `process_cleanup` returns and keeps the table: what is left is the list without the process.
  -- The threads of the process are a list that ends with NULL, and the fuel is more than the length
  -- of both lists.
  pub process_cleanup-IsTable :
      (n fuel p : ℕ) (xs : List ℕ) (s : Procs) (w : W)
      → p ≢ 0
      → IsTable s xs
      → length xs < fuel
      → IsList s.thread_at (s.process_at p).threads n
      → n < fuel
      → (r : IsGone d p xs s (process_cleanup d fuel p s w)) × IsTable r.state (without p xs)
  process_cleanup-IsTable n fuel p xs s w p₀ tab enough l more =
      let r =
        process_cleanup-IsGone d n fuel p xs s w p₀
          (Falls-IsDistinct s.process_at s.next_pid xs tab.falls) tab.links enough l more in
      (
        r,
        record {
          links = r.links;
          falls = rw r.count (
              Falls-same s.process_at r.state.process_at s.next_pid (without p xs)
                (λ x i. ap (λ q. q.pid) (r.processes x))
                (Falls-without s.process_at s.next_pid p xs tab.falls));
        },
      )
