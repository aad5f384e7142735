-- ===== src/Proc/Create/Table.antt =====
-- The table of processes of kernel/proc/task/process.c: a list whose numbers fall, so that no two
-- processes have one number.
use khazaros.Base.{
  ℕ, ◌+◌, ◌^◌, ◌<◌, ◌≤◌, ◌≡◌, ◌≢◌, refl, sym, ap, ◌∙◌, List, [], ◌∷◌, arith, ◌==◌, Bool-cases, inl,
  inr,
}
use mathlib.Core.Path.{subst}
use khazaros.Base.Window.{put, put-same}
use khazaros.Proc.{Process, Procs}
use khazaros.Proc.Reap.Unlink.{Links, Links-congruent, NotIn, IsDistinct, without, put-other}
use khazaros.Proc.Create.{add_process, add_thread, set_stack, enlist, new_process, parent_pid_of}

-- The numbers fall along the list, from below `n`.
abbrev pub Falls : (ℕ → Process) → (n : ℕ) → List ℕ → Type 0
Falls f n [] = Unit {0}
Falls f n (x ∷ xs) = ((f x).pid < n) × Falls f (f x).pid xs

pub record IsTable (s : Procs) (xs : List ℕ) : Type 0 where
  pub links : Links s.process_at s.process_list xs
  pub falls : Falls s.process_at s.next_pid xs

Falls-weaken : (f : ℕ → Process) (n m : ℕ) (xs : List ℕ) → n ≤ m → Falls f n xs → Falls f m xs
Falls-weaken f n m [] h g = tt
Falls-weaken f n m (x ∷ xs) h (lt, g) = (omega arith, g)

pub Falls-same :
    (f g : ℕ → Process) (n : ℕ) (xs : List ℕ)
    → ((x : ℕ) → (NotIn x xs → ⊥) → (g x).pid ≡ (f x).pid)
    → Falls f n xs
    → Falls g n xs
Falls-same f g n [] same h = tt
Falls-same f g n (x ∷ xs) same (lt, h) =
    rw (same x (λ n. n.0 refl)) (lt, Falls-same f g (f x).pid xs (λ y i. same y (λ n. i n.1)) h)

pub Falls-without :
    (f : ℕ → Process) (n p : ℕ) (xs : List ℕ) → Falls f n xs → Falls f n (without p xs)
unfolding without
Falls-without f n p [] h = tt
Falls-without f n p (x ∷ xs) (lt, h) = elim (Bool-cases (x == p)) [
  | inl e ↦ rw e (Falls-weaken f (f x).pid n xs (omega arith) h)
  | inr ne ↦ rw ne (lt, Falls-without f (f x).pid p xs h)
]

Falls-NotIn : (f : ℕ → Process) (n x : ℕ) (xs : List ℕ) → n ≤ (f x).pid → Falls f n xs → NotIn x xs
Falls-NotIn f n x [] b h = tt
Falls-NotIn f n x (y ∷ ys) b (lt, h) = (
  λ e. absurd (omega (arith, ap (λ a. (f a).pid) e)),
  Falls-NotIn f (f y).pid x ys (omega arith) h,
)

pub Falls-IsDistinct : (f : ℕ → Process) (n : ℕ) (xs : List ℕ) → Falls f n xs → IsDistinct xs
Falls-IsDistinct f n [] h = tt
Falls-IsDistinct f n (x ∷ xs) (lt, h) =
    (Falls-NotIn f (f x).pid x xs (omega arith) h, Falls-IsDistinct f (f x).pid xs h)

-- The process at `p` has the next number, and the others are as they were.
pub record Prepared (p : ℕ) (s s₁ : Procs) : Type 0 where
  pub others : (x : ℕ) → x ≢ p → s₁.process_at x ≡ s.process_at x
  pub number : (s₁.process_at p).pid ≡ s.next_pid
  pub parent : (s₁.process_at p).parent_pid ≡ parent_pid_of s
  pub list : s₁.process_list ≡ s.process_list
  pub count : s₁.next_pid ≡ s.next_pid + 1

pub add_process-Prepared :
    (p : ℕ) (name : List ℕ) (s : Procs)
    → s.next_pid + 1 < 2 ^ 32
    → Prepared p s (add_process p name s)
unfolding add_process new_process
add_process-Prepared p name s h = record {
  others = λ x ne. put-other s.process_at p x (new_process s.next_pid (parent_pid_of s) name) ne;
  number =
      ap (λ q. q.pid) (put-same s.process_at p (new_process s.next_pid (parent_pid_of s) name));
  parent =
      ap (λ q. q.parent_pid)
        (put-same s.process_at p (new_process s.next_pid (parent_pid_of s) name));
  list = refl;
  count = omega arith;
}

-- An update of the process at `p` that leaves its numbers.
Prepared-put :
    (p : ℕ) (s s₁ s₂ : Procs) (q : Process)
    → Prepared p s s₁
    → s₂.process_at ≡ put s₁.process_at p q
    → q.pid ≡ (s₁.process_at p).pid
    → q.parent_pid ≡ (s₁.process_at p).parent_pid
    → s₂.process_list ≡ s₁.process_list
    → s₂.next_pid ≡ s₁.next_pid
    → Prepared p s s₂
Prepared-put p s s₁ s₂ q h at num par list count = record {
  others =
      λ x ne. ap (λ (f : ℕ → Process). f x) at ∙ put-other s₁.process_at p x q ne ∙ h.others x ne;
  number =
      ap (λ (f : ℕ → Process). (f p).pid) at
      ∙ ap (λ r. r.pid) (put-same s₁.process_at p q)
      ∙ num
      ∙ h.number;
  parent =
      ap (λ (f : ℕ → Process). (f p).parent_pid) at
      ∙ ap (λ r. r.parent_pid) (put-same s₁.process_at p q)
      ∙ par
      ∙ h.parent;
  list = list ∙ h.list;
  count = count ∙ h.count;
}

pub add_thread-Prepared :
    (p t : ℕ) (s s₁ : Procs) → Prepared p s s₁ → Prepared p s (add_thread p t s₁)
unfolding add_thread
add_thread-Prepared p t s s₁ h =
    Prepared-put p s s₁ _ (record (s₁.process_at p) { threads = t }) h refl refl refl refl refl

pub set_stack-Prepared :
    (p t k : ℕ) (s s₁ : Procs) → Prepared p s s₁ → Prepared p s (set_stack t k s₁)
unfolding set_stack
set_stack-Prepared p t k s s₁ h = record {
  others = h.others;
  number = h.number;
  parent = h.parent;
  list = h.list;
  count = h.count;
}

not_member : (p x : ℕ) (xs : List ℕ) → NotIn p xs → (NotIn x xs → ⊥) → x ≢ p
not_member p x xs n i e = i (rw e n)

-- The list is still a table after a number was given away.
pub Prepared-IsTable :
    (p : ℕ) (xs : List ℕ) (s s₁ : Procs)
    → Prepared p s s₁
    → NotIn p xs
    → IsTable s xs
    → IsTable s₁ xs
Prepared-IsTable p xs s s₁ h n t = record {
  links = rw h.list (
      Links-congruent s.process_at s₁.process_at s.process_list xs
        (λ x i. ap (λ q. q.next) (h.others x (not_member p x xs n i))) t.links);
  falls = Falls-weaken s₁.process_at s.next_pid s₁.next_pid xs (omega (arith, h.count)) (
      Falls-same s.process_at s₁.process_at s.next_pid xs
        (λ x i. ap (λ q. q.pid) (h.others x (not_member p x xs n i))) t.falls);
}

-- A process that was prepared is put at the head.
pub enlist-IsTable :
    (p t context dir : ℕ) (xs : List ℕ) (s s₁ : Procs)
    → p ≢ 0
    → Prepared p s s₁
    → NotIn p xs
    → IsTable s xs
    → IsTable (enlist p t context dir s₁) (p ∷ xs)
      × (((enlist p t context dir s₁).process_at p).pid ≡ s.next_pid)
      × (((enlist p t context dir s₁).process_at p).parent_pid ≡ parent_pid_of s)
unfolding enlist
enlist-IsTable p t context dir xs s s₁ p₀ h n tab = (
  record {
    links = (
      refl,
      p₀,
      rw (put-same s₁.process_at p q) (
          Links-congruent s₁.process_at (put s₁.process_at p q) s₁.process_list xs
            (λ x i. ap (λ r. r.next) (put-other s₁.process_at p x q (not_member p x xs n i)))
            t₁.links),
    );
    falls = (
      omega (arith, number, h.count),
      subst (λ m. Falls (put s₁.process_at p q) m xs) (sym number)
          (Falls-same s.process_at (put s₁.process_at p q) s.next_pid xs
            (λ x i.
              ap (λ r. r.pid) (put-other s₁.process_at p x q (not_member p x xs n i))
              ∙ ap (λ r. r.pid) (h.others x (not_member p x xs n i)))
            tab.falls),
    );
  },
  number,
  ap (λ r. r.parent_pid) (put-same s₁.process_at p q) ∙ h.parent,
)
  where
    q : Process
    q = record (s₁.process_at p) { page_directory = dir; next = s₁.process_list }

    t₁ : IsTable s₁ xs
    t₁ = Prepared-IsTable p xs s s₁ h n tab

    number : (put s₁.process_at p q p).pid ≡ s.next_pid
    number = ap (λ r. r.pid) (put-same s₁.process_at p q) ∙ h.number
