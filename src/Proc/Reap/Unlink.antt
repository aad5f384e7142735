-- ===== src/Proc/Reap/Unlink.antt =====
-- `process_cleanup` of kernel/proc/task/process.c takes a process off the list.
use khazaros.Base.{
  ℕ, zero, suc, ◌+◌, ◌<◌, ◌≡◌, ◌≢◌, refl, sym, ap, ◌∙◌, true, false, Option, some, List, [], ◌∷◌,
  arith, ◌==◌, if◌then◌else◌, Bool-cases, inl, inr, ==→eq, ==→ne, ne→==, length,
}
use mathlib.Core.Option
use mathlib.Core.Path.{subst}
use khazaros.Base.Window.{put, put-same}
use khazaros.Proc.{Process, Procs}
use khazaros.Proc.Reap.{set_next_process, with_list, find_before, unlink_after, unlink}

-- The list from `a` on is these processes, and then NULL.
abbrev pub Links : (ℕ → Process) → (a : ℕ) → List ℕ → Type 0
Links f a [] = a ≡ 0
Links f a (x ∷ xs) = (a ≡ x) × (x ≢ 0) × Links f (f x).next xs

abbrev pub NotIn : ℕ → List ℕ → Type 0
NotIn x [] = Unit {0}
NotIn x (y ∷ ys) = (x ≢ y) × NotIn x ys

abbrev pub IsDistinct : List ℕ → Type 0
IsDistinct [] = Unit {0}
IsDistinct (x ∷ xs) = NotIn x xs × IsDistinct xs

-- the list without a process
unfoldable pub without : ℕ → List ℕ → List ℕ
without p [] = []
without p (x ∷ xs) = let rest = without p xs in if x == p then xs else x ∷ rest

without-hit : (p x : ℕ) (xs : List ℕ) → (x == p) ≡ true → without p (x ∷ xs) ≡ xs
unfolding without
without-hit p x xs e = rw e refl

without-miss : (p x : ℕ) (xs : List ℕ) → (x == p) ≡ false → without p (x ∷ xs) ≡ x ∷ without p xs
unfolding without
without-miss p x xs e = rw e refl

-- Only the links of its own processes matter to a list.
pub Links-congruent :
    (f g : ℕ → Process) (a : ℕ) (xs : List ℕ)
    → ((x : ℕ) → (NotIn x xs → ⊥) → (g x).next ≡ (f x).next)
    → Links f a xs
    → Links g a xs
Links-congruent f g a [] same h = h
Links-congruent f g a (x ∷ xs) same (e, ne, h) = (
  e,
  ne,
  rw (same x (λ n. n.0 refl)) (Links-congruent f g (f x).next xs (λ y i. same y (λ n. i n.1)) h),
)

pub put-other : (f : ℕ → Process) (c x : ℕ) (v : Process) → x ≢ c → put f c v x ≡ f x
unfolding put
put-other f c x v ne = rw (ne→== x c ne) refl

-- A process that is given the link of another leads to what follows that.
relink : (f : ℕ → Process) (c p : ℕ) → ℕ → Process
relink f c p = put f c (set_next_process (f p).next (f c))

Links-relink :
    (f : ℕ → Process) (c p : ℕ) (ys : List ℕ)
    → NotIn c ys
    → Links f (f p).next ys
    → Links (relink f c p) (relink f c p c).next ys
unfolding relink
Links-relink f c p ys n h = rw (put-same f c (set_next_process (f p).next (f c))) (
    Links-congruent f (relink f c p) (f p).next ys
      (λ x i.
        ap (λ q. q.next) (put-other f c x (set_next_process (f p).next (f c)) (λ e. i (rw e n))))
      h)

-- a cut of the list behind its first process `c`
record Cut (p c : ℕ) (ys : List ℕ) (s : Procs) (o : Option ℕ) : Type 0 where
  before : ℕ
  run : o ≡ some before
  links : Links (unlink_after p before s).process_at c (c ∷ without p ys)
  others : (x : ℕ) → NotIn x (c ∷ ys) → (unlink_after p before s).process_at x ≡ s.process_at x

find_before-Cut :
    (ys : List ℕ) (fuel p c : ℕ) (s : Procs)
    → length ys + 1 < fuel
    → p ≢ 0
    → c ≢ p
    → IsDistinct (c ∷ ys)
    → Links s.process_at c (c ∷ ys)
    → Cut p c ys s (find_before fuel p c s)
unfolding find_before
find_before-Cut ys zero p c s fuel p₀ ne d h = absurd (omega arith)
find_before-Cut [] (suc zero) p c s fuel p₀ ne d h = absurd (omega arith)
find_before-Cut [] (suc (suc fuel)) p c s fuel_ok p₀ ne d (e, c₀, h) =
    rw (ne→== c 0 c₀, h, ne→== 0 p (λ z. p₀ (sym z)))
      (record {
        before = 0;
        run = refl;
        links = unfold unlink_after without in (refl, c₀, h);
        others = λ x n. unfold unlink_after in refl;
      })
find_before-Cut (y ∷ ys) (suc fuel) p c s fuel_ok p₀ ne (n, d) (e, c₀, (link, y₀, h)) =
    rw (ne→== c 0 c₀, link)
      (elim (Bool-cases (y == p)) [
        | inl hit ↦ rw hit (record {
          before = c;
          run = refl;
          links = rw (without-hit p y ys hit) (cut_here hit);
          others = λ x m. cut_others x m;
        })
        | inr miss ↦ rw miss (
            let r =
              find_before-Cut ys fuel p y s (omega arith) p₀ (==→ne y p miss) d (refl, y₀, h) in
            record {
              before = r.before;
              run = r.run;
              links =
                  rw (without-miss p y ys miss)
                    (refl, c₀, (ap (λ x. x.next) (r.others c n) ∙ link, r.links.1, r.links.2));
              others = λ x m. r.others x m.1;
            })
      ])
  where
    after : (unlink_after p c s).process_at ≡ relink s.process_at c p
    after = unfold unlink_after relink in (rw (ne→== c 0 c₀) refl)

    cut_here : (y == p) ≡ true → Links (unlink_after p c s).process_at c (c ∷ ys)
    cut_here hit = (
      refl,
      c₀,
      subst (λ f. Links f (f c).next ys) (sym after)
          (Links-relink s.process_at c p ys n.1 (rw (sym (==→eq y p hit)) h)),
    )

    cut_others : (x : ℕ) → NotIn x (c ∷ y ∷ ys) → (unlink_after p c s).process_at x ≡ s.process_at x
    cut_others x m =
        ap (λ (f : ℕ → Process). f x) after
        ∙ (unfold relink in
            put-other s.process_at c x (set_next_process (s.process_at p).next (s.process_at c))
              m.0)

-- The list without the process; the fields but the links, and the threads, are the same.
pub record IsUnlinked (p : ℕ) (xs : List ℕ) (s : Procs) (o : Option Procs) : Type 0 where
  pub state : Procs
  pub run : o ≡ some state
  pub links : Links state.process_at state.process_list (without p xs)
  pub processes :
      (x : ℕ) → set_next_process 0 (state.process_at x) ≡ set_next_process 0 (s.process_at x)
  pub threads : state.thread_at ≡ s.thread_at
  pub count : state.next_pid ≡ s.next_pid

unlink_after-fields :
    (p c : ℕ) (s : Procs)
    → ((x : ℕ)
        → set_next_process 0 ((unlink_after p c s).process_at x)
          ≡ set_next_process 0 (s.process_at x))
      × ((unlink_after p c s).thread_at ≡ s.thread_at)
      × ((unlink_after p c s).process_list ≡ s.process_list)
      × ((unlink_after p c s).next_pid ≡ s.next_pid)
unfolding unlink_after put
unlink_after-fields p c s = elim (Bool-cases (c == 0)) [
  | inl e ↦ rw e (λ x. refl, refl, refl, refl)
  | inr ne ↦ rw ne (
    λ x. elim (Bool-cases (x == c)) [
      | inl e ↦ rw e (ap (λ a. set_next_process 0 (s.process_at a)) (sym (==→eq x c e)))
      | inr other ↦ rw other refl
    ],
    refl,
    refl,
    refl,
  )
]

-- Nothing is taken off the empty list.
null_before :
    (fuel p : ℕ) (s : Procs)
    → s.process_list ≡ 0
    → Option.map (λ curr. unlink_after p curr s) (find_before (suc fuel) p s.process_list s)
      ≡ some s
unfolding find_before unlink_after
null_before fuel p s h = rw (ap (λ a. a == 0) h) refl

-- On a list of processes without repetition that NULL ends, a process is taken off with a round for
-- each process and one more: what is left is the list without it, or the whole list where it was
-- not on it.
pub unlink-IsUnlinked :
    (fuel p : ℕ) (xs : List ℕ) (s : Procs)
    → p ≢ 0
    → IsDistinct xs
    → Links s.process_at s.process_list xs
    → length xs < fuel
    → IsUnlinked p xs s (unlink fuel p s)
unfolding unlink
unlink-IsUnlinked zero p xs s p₀ d h enough = absurd (omega arith)
unlink-IsUnlinked (suc fuel) p [] s p₀ d h enough =
    rw (ne→== s.process_list p (λ z. p₀ (sym z ∙ h))) (record {
      state = s;
      run = null_before fuel p s h;
      links = unfold without in h;
      processes = λ x. refl;
      threads = refl;
      count = refl;
    })
unlink-IsUnlinked (suc fuel) p (x ∷ xs) s p₀ d (e, x₀, h) enough = elim (Bool-cases (x == p)) [
  | inl hit ↦ rw (ap (λ a. a == p) e ∙ hit) (record {
    state = with_list (s.process_at p).next s;
    run = refl;
    links = rw (without-hit p x xs hit, sym (==→eq x p hit)) h;
    processes = λ y. refl;
    threads = refl;
    count = refl;
  })
  | inr miss ↦
      let c =
        find_before-Cut xs (suc fuel) p x s (omega arith) p₀ (==→ne x p miss) d (refl, x₀, h) in
      let f = unlink_after-fields p c.before s in
      rw (ap (λ a. a == p) e ∙ miss) (record {
        state = unlink_after p c.before s;
        run =
            ap (Option.map (λ curr. unlink_after p curr s))
              (ap (λ a. find_before (suc fuel) p a s) e ∙ c.run);
        links = rw (without-miss p x xs miss) (f.2 ∙ e, x₀, c.links.2);
        processes = f.0;
        threads = f.1;
        count = f.3;
      })
]
