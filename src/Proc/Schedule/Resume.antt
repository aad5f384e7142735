-- ===== src/Proc/Schedule/Resume.antt =====
-- Which thread `scheduler_schedule` of kernel/proc/scheduler/scheduler.c resumes.
use khazaros.Base.{ℕ, suc, ◌+◌, ◌≡◌, ◌≢◌, ◌⊎◌, Option, some, ◌==◌, if◌then◌else◌}
use mathlib.Core.Option
use khazaros.Proc.Services.{Services}
use khazaros.Proc.{running, terminated, Procs}
use khazaros.Proc.Ring.{walk}
use khazaros.Proc.Pick.{IsPicked}
use khazaros.Proc.Schedule.{save_context, Scheduled}

-- What is resumed, where a thread was picked from the state `s`: the context that it saved, or the
-- one that was interrupted where it has none; a terminated thread is not.
abbrev pub Resumed : {W : Type 0} → (s : Procs) → (thread regs : ℕ) → ℕ × (Procs × W) → Type 0
Resumed s thread regs (context, (s', w)) =
    (((s.thread_at thread).state ≡ terminated)
      × (context ≡ regs)
      × (s'.current_thread ≡ 0)
      × (s'.thread_at ≡ s.thread_at))
    ⊎ ((s'.current_thread ≡ thread)
        × ((s'.thread_at thread).state ≡ running)
        × (context
            ≡ (if (s.thread_at thread).context == 0 then regs else (s.thread_at thread).context))
        × ((b : ℕ) → b ≢ thread → s'.thread_at b ≡ s.thread_at b))

module _ {W : Type 0} (d : Services W) where
  -- A call of the scheduler: the context of the current thread is saved, a thread is picked, and it
  -- is resumed.
  pub record IsScheduled (n i ticks regs : ℕ) (s : Procs) (o : Option (Scheduled W)) : Type 0 where
    pub thread : ℕ
    pub steps : ℕ
    pub result : ℕ × (Procs × W)
    pub run : o ≡ some (result.0, (ticks + 1, result.1))
    pub saved : ((save_context regs s).thread_at s.current_thread).context ≡ regs
    pub picked :
        IsPicked
          (save_context regs s).thread_at
          n
          (walk (save_context regs s).thread_at (suc i) (save_context regs s).ready_queue)
          thread
          steps
    pub resumed : Resumed (save_context regs s) thread regs result
