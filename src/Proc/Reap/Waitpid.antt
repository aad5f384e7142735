-- ===== src/Proc/Reap/Waitpid.antt =====
-- `process_waitpid` of kernel/proc/task/process.c takes the status of a zombie and frees it.
use khazaros.Base.{
  ℕ, zero, suc, ◌<◌, ◌≡◌, ◌≢◌, refl, sym, ap, ◌∙◌, Option, some, List, [], ◌∷◌, arith, ne→==,
  length,
}
use mathlib.Core.Option
use mathlib.Core.Path.{subst}
use khazaros.Proc.{Process, Procs, zombie, get_by_pid_loop, process_get_by_pid}
use khazaros.Proc.Ring.{walk, walk-front}
use khazaros.Proc.Terminate.{IsList}
use khazaros.Proc.Services.{Services}
use khazaros.Proc.Reap.{
  Waited, reaped, set_next_process, free_thread, free_threads, free_process, free_rest,
  process_cleanup, reap, waitpid_round, process_waitpid,
}
use khazaros.Proc.Reap.Unlink.{Links, IsDistinct, without, unlink-IsUnlinked}

-- no process of the list has the number
abbrev pub NoPid : (ℕ → Process) → (pid : ℕ) → List ℕ → Type 0
NoPid f pid [] = Unit {0}
NoPid f pid (x ∷ xs) = ((f x).pid ≢ pid) × NoPid f pid xs

NoPid-same :
    (f g : ℕ → Process) (pid : ℕ) (xs : List ℕ)
    → ((x : ℕ) → (g x).pid ≡ (f x).pid)
    → NoPid f pid xs
    → NoPid g pid xs
NoPid-same f g pid [] same h = tt
NoPid-same f g pid (x ∷ xs) same (ne, h) =
    (λ e. ne (sym (same x) ∙ e), NoPid-same f g pid xs same h)

get_by_pid_loop-null :
    (fuel pid a : ℕ) (xs : List ℕ) (s : Procs)
    → Links s.process_at a xs
    → NoPid s.process_at pid xs
    → length xs < fuel
    → get_by_pid_loop fuel pid a s ≡ some 0
unfolding get_by_pid_loop
get_by_pid_loop-null zero pid a xs s h n enough = absurd (omega arith)
get_by_pid_loop-null (suc fuel) pid a [] s h n enough = rw h refl
get_by_pid_loop-null (suc fuel) pid a (x ∷ xs) s (e, x₀, h) (ne, n) enough =
    rw (e, ne→== x 0 x₀, ne→== _ pid ne)
      (get_by_pid_loop-null fuel pid (s.process_at x).next xs s h n (omega arith))

-- a result that is there
record Comes {A : Type 0} (o : Option A) : Type 0 where
  value : A
  run : o ≡ some value

module _ {W : Type 0} (d : Services W) where
  free_threads-Comes :
      (n fuel t : ℕ) (s : Procs) (w : W)
      → IsList s.thread_at t n
      → n < fuel
      → Comes (free_threads d fuel t s w)
  unfolding free_threads walk
  free_threads-Comes n zero t s w h enough = absurd (omega arith)
  free_threads-Comes zero (suc fuel) t s w h enough = rw h.ends (record { value = w; run = refl })
  free_threads-Comes (suc n) (suc fuel) t s w h enough = rw (ne→== t 0 (h.real 0 (omega arith))) (
      free_threads-Comes n fuel (s.thread_at t).next s (free_thread d (s.thread_at t) t w)
        record {
          ends = walk-front s.thread_at n t ∙ h.ends;
          real = λ k lt e. h.real (suc k) (omega arith) (sym (walk-front s.thread_at k t) ∙ e);
        }
        (omega arith))

  -- The process was taken off the list, and nothing else of the processes is changed but links.
  pub record IsGone (p : ℕ) (xs : List ℕ) (s : Procs) (o : Option (Procs × W)) : Type 0 where
    pub state : Procs
    pub world : W
    pub run : o ≡ some (state, world)
    pub links : Links state.process_at state.process_list (without p xs)
    pub processes :
        (x : ℕ) → set_next_process 0 (state.process_at x) ≡ set_next_process 0 (s.process_at x)
    pub count : state.next_pid ≡ s.next_pid

  pub process_cleanup-IsGone :
      (n fuel p : ℕ) (xs : List ℕ) (s : Procs) (w : W)
      → p ≢ 0
      → IsDistinct xs
      → Links s.process_at s.process_list xs
      → length xs < fuel
      → IsList s.thread_at (s.process_at p).threads n
      → n < fuel
      → IsGone p xs s (process_cleanup d fuel p s w)
  unfolding process_cleanup free_rest
  process_cleanup-IsGone n fuel p xs s w p₀ dist h enough l more =
      let u = unlink-IsUnlinked fuel p xs s p₀ dist h enough in
      let threads : (u.state.process_at p).threads ≡ (s.process_at p).threads =
        ap (λ q. q.threads) (u.processes p) in
      let freed =
        free_threads-Comes n fuel (u.state.process_at p).threads u.state w
          (subst (λ f. IsList f (u.state.process_at p).threads n) (sym u.threads)
            (subst (λ t. IsList s.thread_at t n) (sym threads) l))
          more in
      record {
        state = u.state;
        world = free_process d p u.state freed.value;
        run =
            rw (ne→== p 0 p₀, u.run)
              (ap (Option.map (λ w₁. (u.state, free_process d p u.state w₁))) freed.run);
        links = u.links;
        processes = u.processes;
        count = u.count;
      }

  -- What a wait for a zombie does.
  pub record IsReaped (pid status : ℕ) (p : ℕ) (xs : List ℕ) (fuel : ℕ)
      (o : Option (Waited × (Procs × W))) : Type 0 where
    pub state : Procs
    pub world : W
    pub run : o ≡ some (reaped pid status, (state, world))
    pub links : Links state.process_at state.process_list (without p xs)
    pub unknown : process_get_by_pid fuel pid state ≡ some 0

  reap-run :
      (fuel pid p : ℕ) (s s' : Procs) (w w' : W)
      → process_cleanup d fuel p s w ≡ some (s', w')
      → reap d fuel pid p s w ≡ some (reaped pid (s.process_at p).exit_status, (s', w'))
  unfolding reap
  reap-run fuel pid p s s' w w' e =
      ap (λ o. Option.map (λ r. (reaped pid (s.process_at p).exit_status, r)) o) e

  waitpid_round-zombie :
      (fuel pid p : ℕ) (wait : Option (Waited × (Procs × W))) (s : Procs) (w : W)
      → p ≢ 0
      → (s.process_at p).state ≡ zombie
      → waitpid_round d fuel pid (some p) wait s w ≡ reap d fuel pid p s w
  unfolding waitpid_round
  waitpid_round-zombie fuel pid p wait s w p₀ dead = rw (ne→== p 0 p₀, dead) refl

  waitpid-round :
      (rounds fuel pid : ℕ) (delay : Procs × W → Procs × W) (s : Procs) (w : W)
      → process_waitpid d (suc rounds) fuel pid delay s w
        ≡ waitpid_round d fuel pid
            (process_get_by_pid fuel pid s)
            (process_waitpid d rounds fuel pid delay (delay (s, w)).0 (delay (s, w)).1)
            s
            w
  unfolding process_waitpid
  waitpid-round rounds fuel pid delay s w = refl

  -- `process_waitpid` of a zombie returns its number and its exit status at once, whatever other
  -- threads would do in the meantime, and leaves a list of processes without it, on which the
  -- number is not found any more. The list ends with NULL, has no repetition, and no other process
  -- has the number; the threads of the zombie are a list that ends with NULL, as those of a process
  -- that was never queued are; and the fuel is more than the length of both.
  pub process_waitpid-IsReaped :
      (rounds n fuel pid p : ℕ) (xs : List ℕ) (delay : Procs × W → Procs × W) (s : Procs) (w : W)
      → process_get_by_pid fuel pid s ≡ some p
      → p ≢ 0
      → (s.process_at p).state ≡ zombie
      → IsDistinct xs
      → Links s.process_at s.process_list xs
      → NoPid s.process_at pid (without p xs)
      → length (without p xs) < fuel
      → length xs < fuel
      → IsList s.thread_at (s.process_at p).threads n
      → n < fuel
      → IsReaped pid
          (s.process_at p).exit_status
          p
          xs
          fuel
          (process_waitpid d (suc rounds) fuel pid delay s w)
  process_waitpid-IsReaped rounds n fuel pid p xs delay s w found p₀ dead dist h unique fewer enough
        l more =
      let c = process_cleanup-IsGone n fuel p xs s w p₀ dist h enough l more in
      record {
        state = c.state;
        world = c.world;
        run =
            waitpid-round rounds fuel pid delay s w
            ∙ ap
                (λ o.
                  waitpid_round d fuel pid o
                    (process_waitpid d rounds fuel pid delay (delay (s, w)).0 (delay (s, w)).1) s w)
                found
            ∙ waitpid_round-zombie fuel pid p
                (process_waitpid d rounds fuel pid delay (delay (s, w)).0 (delay (s, w)).1) s w p₀
                dead
            ∙ reap-run fuel pid p s c.state w c.world c.run;
        links = c.links;
        unknown =
            unfold process_get_by_pid in
            get_by_pid_loop-null fuel pid c.state.process_list (without p xs) c.state c.links
              (NoPid-same s.process_at c.state.process_at pid (without p xs)
                (λ x. ap (λ q. q.pid) (c.processes x)) unique)
              fewer;
      }
