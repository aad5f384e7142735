-- ===== src/Syscall/Joins.antt =====
-- The parts that a path of kernel/syscall/table.c is split into make up the path.
use khazaros.Base.{
  ℕ, zero, suc, ◌+◌, ◌<◌, ◌≤◌, ◌≡◌, ◌≢◌, refl, sym, ap, ◌∙◌, Option, none, some, arith, ◌==◌,
  if◌then◌else◌, true, ◌%◌, Bool-cases, inl, inr, ==→eq, ==→ne, ne→==,
}
use mathlib.Core.Option
use mathlib.Core.Option.{some-injective, some-ne-none, none-ne-some}
use khazaros.LibK.Memory.{store8}
use khazaros.LibK.Text.{Chars, kstrncpy}
use khazaros.LibK.Memory.{Bytes}
use khazaros.LibK.Text.{pad, kstrncpy_loop}
use khazaros.Syscall.Paths.{last_slash_loop, slash, PathParts, path_parts, split_path, IsLastSlash}

-- The result of the loop, and that it is what it promises.
pub record Slash (i n : ℕ) (before : Option ℕ) (path : Chars) (r : Option (Option ℕ)) : Type 0 where
  pub found : Option ℕ
  pub run : r ≡ some found
  pub is_last : IsLastSlash i n before found path

widen :
    (i n : ℕ) (before : Option ℕ) (path : Chars)
    → i < n
    → (o : Option ℕ) → IsLastSlash (i + 1) n (if path i == b'/' then some i else before) o path
    → IsLastSlash i n before o path
widen i n before path lt none (e, h) = elim (Bool-cases (path i == b'/')) [
  | inl hit ↦ absurd (some-ne-none i (rw hit at e))
  | inr miss ↦ (
    rw miss at e,
    λ j a b. elim (Bool-cases (j == i)) [
      | inl same ↦ λ z. ==→ne (path i) b'/' miss (ap path (sym (==→eq j i same)) ∙ z)
      | inr other ↦ h j (ground arith) b
    ],
  )
]
widen i n before path lt (some k) (e, h) = (
  elim e [
    | inl (a, b, c) ↦ inl (omega arith, b, c)
    | inr f ↦ elim (Bool-cases (path i == b'/')) [
      | inl hit ↦
          let same : i ≡ k = some-injective i k (rw hit at f) in
          inl (omega arith, omega arith, ap path (sym same) ∙ ==→eq (path i) b'/' hit)
      | inr miss ↦ inr (rw miss at f)
    ]
  ],
  λ j a b c. elim (Bool-cases (j == i)) [
    | inl same ↦ λ z. elim (Bool-cases (path i == b'/')) [
      | inl hit ↦ elim e [
        | inl (p, q, r) ↦ absurd (omega arith)
        | inr f ↦ absurd (omega (arith, some-injective i k (rw hit at f), ==→eq j i same))
      ]
      | inr miss ↦ ==→ne (path i) b'/' miss (ap path (sym (==→eq j i same)) ∙ z)
    ]
    | inr other ↦ h j (ground arith) b c
  ],
)

pub last_slash_loop-Slash :
    (fuel i n : ℕ) (before : Option ℕ) (path : Chars)
    → path n ≡ 0
    → ((j : ℕ) → j < n → path j ≢ 0)
    → i ≤ n
    → n < i + fuel
    → Slash i n before path (last_slash_loop fuel i before path)
unfolding last_slash_loop
last_slash_loop-Slash zero i n before path ends real below enough = absurd (omega arith)
last_slash_loop-Slash (suc fuel) i n before path ends real below enough =
    elim (Bool-cases (i == n)) [
      | inl e ↦
          rw (ap path (==→eq i n e) ∙ ends)
            (record { found = before; run = refl; is_last = at_end e before })
      | inr ne ↦
          let r =
            last_slash_loop-Slash fuel (i + 1) n (if path i == b'/' then some i else before) path
              ends real (ground arith) (omega arith) in
          rw (ne→== (path i) 0 (real i (ground arith))) (record {
            found = r.found;
            run = r.run;
            is_last = widen i n before path (ground arith) r.found r.is_last;
          })
    ]
  where
    at_end : (i == n) ≡ true → (o : Option ℕ) → IsLastSlash i n o o path
    at_end e none = (refl, λ j a b. absurd (omega (arith, ==→eq i n e)))
    at_end e (some k) = (inr refl, λ j a c b. absurd (omega (arith, ==→eq i n e)))

pad-before : (left i : ℕ) (m : Bytes) (dest a : ℕ) → a < dest + i → pad left i m dest a ≡ m a
unfolding pad store8
pad-before zero i m dest a h = refl
pad-before (suc left) i m dest a h =
    ground (arith, pad-before left (i + 1) (store8 m (dest + i) 0) dest a)

kstrncpy_loop-before :
    (left i : ℕ) (m : Bytes) (dest : ℕ) (src : Chars) (a : ℕ)
    → a < dest + i
    → kstrncpy_loop left i m dest src a ≡ m a
unfolding kstrncpy_loop store8
kstrncpy_loop-before zero i m dest src a h = refl
kstrncpy_loop-before (suc left) i m dest src a h = elim (Bool-cases (src i == 0)) [
  | inl e ↦ rw e (pad-before (suc left) i m dest a h)
  | inr ne ↦ rw ne (
      kstrncpy_loop-before left (i + 1) (store8 m (dest + i) (src i)) dest src a (omega arith)
      ∙ ground arith)
]

-- A copy holds the characters up to the end of the text.
kstrncpy_loop-at :
    (left i : ℕ) (m : Bytes) (dest : ℕ) (src : Chars) (k : ℕ)
    → i ≤ k
    → k < i + left
    → ((j : ℕ) → j < k → src j ≢ 0)
    → kstrncpy_loop left i m dest src (dest + k) ≡ src k % 256
unfolding kstrncpy_loop
kstrncpy_loop-at zero i m dest src k a b real = absurd (omega arith)
kstrncpy_loop-at (suc left) i m dest src k a b real = elim (Bool-cases (i == k)) [
  | inl e ↦ elim (Bool-cases (src i == 0)) [
    | inl z ↦ rw z (
        (unfold pad in
          pad-before left (i + 1) (store8 m (dest + i) 0) dest (dest + k)
            (omega (arith, ==→eq i k e)))
        ∙ (unfold store8 in ground (arith, e, ap src (==→eq i k e))))
    | inr nz ↦ rw nz (
        kstrncpy_loop-before left (i + 1) (store8 m (dest + i) (src i)) dest src (dest + k)
          (omega (arith, ==→eq i k e))
        ∙ (unfold store8 in ground (arith, e, ap src (==→eq i k e))))
  ]
  | inr ne ↦ rw (ne→== (src i) 0 (real i (ground arith))) (
      kstrncpy_loop-at left (i + 1) (store8 m (dest + i) (src i)) dest src k (ground arith)
        (omega arith) real)
]

-- a text of the directory and the name of the part behind its last slash, or the root and the whole
-- path
abbrev pub IsJoined : (n : ℕ) → Chars → Option ℕ → PathParts → Type 0
IsJoined n path none parts =
    (parts.parent_path 0 ≡ b'/')
    × (parts.parent_path 1 ≡ 0)
    × ((j : ℕ) → j ≤ n → parts.name j ≡ path j)
IsJoined n path (some k) parts =
    ((j : ℕ) → j < k → parts.parent_path j ≡ path j)
    × (0 < k → parts.parent_path k ≡ 0)
    × (k ≡ 0 → (parts.parent_path 0 ≡ b'/') × (parts.parent_path 1 ≡ 0))
    × ((j : ℕ) → k + 1 + j ≤ n → parts.name j ≡ path (k + 1 + j))

copied :
    (n j : ℕ) (m : Bytes) (src : Chars)
    → j < n
    → ((i : ℕ) → src i < 256)
    → ((i : ℕ) → i < j → src i ≢ 0)
    → kstrncpy m 0 src n j ≡ src j
unfolding kstrncpy
copied n j m src h b real =
    ap (kstrncpy_loop n 0 m 0 src) {x = j} {y = 0 + j} (omega arith)
    ∙ kstrncpy_loop-at n 0 m 0 src j (omega arith) (omega arith) real
    ∙ ground (arith, b j)

store8-before : (m : Bytes) (k j : ℕ) → j < k → store8 m k 0 j ≡ m j
unfolding store8
store8-before m k j h = ground arith

slash-bytes : (i : ℕ) → slash i < 256
slash-bytes i = ground arith

slash_copied : (m : Bytes) → (kstrncpy m 0 slash 2 0 ≡ b'/') × (kstrncpy m 0 slash 2 1 ≡ 0)
slash_copied m = (
  copied 2 0 m slash (omega arith) slash-bytes (λ i h. absurd (omega arith)),
  copied 2 1 m slash (omega arith) slash-bytes (λ i h. ground arith),
)

path_parts-IsJoined :
    (n : ℕ) (o : Option ℕ) (parent_path name path : Chars)
    → n < 127
    → ((j : ℕ) → path j < 256)
    → ((j : ℕ) → j < n → path j ≢ 0)
    → IsLastSlash 0 n none o path
    → IsJoined n path o (path_parts o parent_path name path)
unfolding path_parts
path_parts-IsJoined n none parent_path name path short b real h =
    let s = slash_copied parent_path in
    (s.0, s.1, λ j p. copied 127 j name path (omega arith) b (λ i q. real i (omega arith)))
path_parts-IsJoined n (some zero) parent_path name path short b real h =
    let s = slash_copied parent_path in
    (
      λ j p. absurd (omega arith),
      λ p. absurd (omega arith),
      λ e. s,
      λ j p.
          copied 127 j name (λ i. path (0 + 1 + i)) (omega arith) (λ i. b (0 + 1 + i))
            (λ i q. real (0 + 1 + i) (omega arith)),
    )
path_parts-IsJoined n (some (suc k)) parent_path name path short b real (h, later) =
    rw (ne→== (suc k) 0 (λ e. omega arith)) (
      λ j p.
          store8-before (kstrncpy parent_path 0 path (suc k)) (suc k) j p
          ∙ copied (suc k) j parent_path path p b (λ i q. real i (omega (arith, inside))),
      λ p. unfold store8 in ground arith,
      λ e. absurd (omega arith),
      λ j p.
          copied 127 j name (λ i. path (suc k + 1 + i)) (omega arith) (λ i. b (suc k + 1 + i))
            (λ i q. real (suc k + 1 + i) (omega arith)),
    )
  where
    inside : suc k < n
    inside = elim h [ inl (p, q, r) ↦ q | inr e ↦ absurd (none-ne-some (suc k) e) ]

-- What the split of a path gives.
pub record IsSplit (n : ℕ) (path : Chars) (r : Option PathParts) : Type 0 where
  pub last_slash : Option ℕ
  pub parts : PathParts
  pub run : r ≡ some parts
  pub is_last : IsLastSlash 0 n none last_slash path
  pub joined : IsJoined n path last_slash parts

-- A path of less than 127 characters is split at its last slash, whatever the arrays held: the
-- parent is the text before the slash, or the root where the slash is the first character or there
-- is none, and the name is the text behind it, or the whole path. The characters are bytes, and the
-- fuel is more than their number.
pub split_path-IsSplit :
    (fuel n : ℕ) (parent_path name path : Chars)
    → path n ≡ 0
    → ((j : ℕ) → j < n → path j ≢ 0)
    → ((j : ℕ) → path j < 256)
    → n < 127
    → n < fuel
    → IsSplit n path (split_path fuel parent_path name path)
unfolding split_path
split_path-IsSplit fuel n parent_path name path ends real b short enough =
    let l = last_slash_loop-Slash fuel 0 n none path ends real (omega arith) (omega arith) in
    record {
      last_slash = l.found;
      parts = path_parts l.found parent_path name path;
      run = ap (Option.map (λ o. path_parts o parent_path name path)) l.run;
      is_last = l.is_last;
      joined = path_parts-IsJoined n l.found parent_path name path short b real l.is_last;
    }
