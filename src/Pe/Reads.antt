-- ===== src/Pe/Reads.antt =====
-- The parts of `pe_load` of kernel/core/pe.c that only read.
use khazaros.Base.{
  ℕ, ◌*◌, ◌≡◌, refl, Bool, true, false, not, ◌||◌, Option, none, some, ◌==◌, ltb, if◌then◌else◌,
}
use mathlib.Core.Path.{subst}
use mathlib.Core.Option
use khazaros.Fat.{Io, pure, and_then, ◌>>=◌}
use khazaros.Pe.{
  Loader, add32, locate, fetch, fetch16, fetch32, read_optional, read_headers, section_at,
}

-- A run ends in a page fault, or with a value and a state of that kind.
abbrev pub After : {A : Type 0} → (A → Loader → Type 0) → Option (A × Loader) → Type 0
After P none = Unit {0}
After P (some (a, s)) = P a s

pub After-then :
    {A B : Type 0} (P : A → Loader → Type 0) (Q : B → Loader → Type 0) (o : Option (A × Loader))
    (k : A → Io Loader B)
    → After P o
    → ((a : A) (s : Loader) → P a s → After Q (k a s))
    → After Q (and_then o k)
After-then P Q none k h g = tt
After-then P Q (some (a, s)) k h g = g a s h

-- What only reads leaves the state as it was.
abbrev pub Same : Loader → {A : Type 0} → A → Loader → Type 0
Same s a s' = s' ≡ s

abbrev pub Reads : {A : Type 0} → Io Loader A → Type 0
Reads m = (s : Loader) → After (Same s) (m s)

pure-Reads : {A : Type 0} (a : A) → Reads (pure a)
pure-Reads a s = refl

Reads-then :
    {A B : Type 0} (m : Io Loader A) (k : A → Io Loader B)
    → Reads m
    → ((a : A) → Reads (k a))
    → Reads (m >>= k)
Reads-then m k h g s =
    After-then (Same s) (Same s) (m s) k (h s)
      (λ a s' e. subst (λ t. After (Same t) (k a s')) e (g a s'))

unless-Reads :
    {A : Type 0} (t : Bool) (m : Io Loader (Option A))
    → Reads m
    → Reads (if t then pure none else m)
unless-Reads true m h = λ s. refl
unless-Reads false m h = h

map-Same :
    {A B : Type 0} (s : Loader) (o : Option A) (f : A → B)
    → After (Same s) (Option.map (λ a. (f a, s)) o)
map-Same s none f = tt
map-Same s (some a) f = refl

pub fetch-Reads : (a : ℕ) → Reads (fetch a)
unfolding fetch
fetch-Reads a s = map-Same s (locate a s.vmm) s.memory

fetch16-Reads : (a : ℕ) → Reads (fetch16 a)
unfolding fetch16
fetch16-Reads a =
    Reads-then (fetch a) _ (fetch-Reads a)
      (λ b₀. Reads-then (fetch (add32 a 1)) _ (fetch-Reads (add32 a 1)) (λ b₁ s. refl))

fetch32-Reads : (a : ℕ) → Reads (fetch32 a)
unfolding fetch32
fetch32-Reads a =
    Reads-then (fetch16 a) _ (fetch16-Reads a)
      (λ b₀. Reads-then (fetch16 (add32 a 2)) _ (fetch16-Reads (add32 a 2)) (λ b₁ s. refl))

read_optional-Reads :
    (file_data file_size e_lfanew : ℕ) → Reads (read_optional file_data file_size e_lfanew)
unfolding read_optional
read_optional-Reads file_data file_size e_lfanew = Reads-then (fetch16 _) _ (fetch16-Reads _) λ n.
    unless-Reads (ltb file_size (add32 (add32 e_lfanew 24) n)) _ (
      Reads-then (fetch32 _) _ (fetch32-Reads _) λ e.
        Reads-then (fetch16 _) _ (fetch16-Reads _) λ c.
          unless-Reads (ltb file_size (add32 (add32 (add32 e_lfanew 24) n) (c * 40))) _
            (Reads-then (fetch32 _) _ (fetch32-Reads _) λ b s. refl))

pub read_headers-Reads : (file_data file_size : ℕ) → Reads (read_headers file_data file_size)
unfolding read_headers
read_headers-Reads file_data file_size = unless-Reads ((file_data == 0) || ltb file_size 64) _ (
    Reads-then (fetch16 _) _ (fetch16-Reads _) λ m. unless-Reads (not (m == 23117)) _ (
      Reads-then (fetch32 _) _ (fetch32-Reads _) λ l. unless-Reads (ltb file_size (add32 l 24)) _ (
        Reads-then (fetch32 _) _ (fetch32-Reads _)
          λ n. unless-Reads (not (n == 17744)) _ (read_optional-Reads file_data file_size l))))

pub section_at-Reads : (a : ℕ) → Reads (section_at a)
unfolding section_at
section_at-Reads a = Reads-then (fetch32 _) _ (fetch32-Reads _) λ x.
    Reads-then (fetch32 _) _ (fetch32-Reads _) λ y.
      Reads-then (fetch32 _) _ (fetch32-Reads _)
        λ z. Reads-then (fetch32 _) _ (fetch32-Reads _) λ w. λ s. refl
