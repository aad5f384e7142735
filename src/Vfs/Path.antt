-- ===== src/Vfs/Path.antt =====
-- Paths: how `vfs_find_path` of kernel/fs/vfs/vfs.c walks along the names of a path.
use khazaros.Base.{
  ℕ, zero, suc, ◌+◌, ◌≤◌, ◌<◌, ◌≡◌, refl, ap, ◌∙◌, true, false, not, ◌&&◌, Option, some, List, [],
  ◌∷◌, arith, ◌==◌, if◌then◌else◌, Bool-cases, inl, inr, ==→eq, length,
}
use khazaros.LibK.Text.{Chars}
use khazaros.Vfs.{
  FileSystems, component_length, component, vfs_check_mount, vfs_finddir, descend, vfs_find_path,
}

-- the path behind a number of characters
abbrev pub path_from : Chars → ℕ → Chars
path_from path a i = path (a + i)

-- A name of `n` characters stands at the start of a path: one to 126 of them, none of them a slash
-- or the end of the text, and then one of these.
pub record IsName (n : ℕ) (path : Chars) : Type 0 where
  pub some_char : 0 < n
  pub short : n < 127
  pub plain : (k : ℕ) → k < n → (not (path k == b'/') && not (path k == 0)) ≡ true
  pub ends : (not (path n == b'/') && not (path n == 0)) ≡ false

-- A path of names with the lengths of the list, with a slash between two of them, and the end of the
-- text behind the last.
abbrev pub IsPath : List ℕ → Chars → Type 0
IsPath [] path = ⊥
IsPath (n ∷ []) path = IsName n path × (path n ≡ 0)
IsPath (n ∷ l ∷ ns) path =
    IsName n path × (path n ≡ b'/') × IsPath (l ∷ ns) (path_from path (n + 1))

component_length-name :
    (left i n : ℕ) (path : Chars)
    → IsName n path
    → i ≤ n
    → n < i + left
    → component_length left i path ≡ n
unfolding component_length
component_length-name zero i n path h p q = absurd (omega arith)
component_length-name (suc left) i n path h p q = elim (Bool-cases (i == n)) [
  | inl e ↦
      rw (ap (λ k. not (path k == b'/') && not (path k == 0)) (==→eq i n e) ∙ h.ends) (==→eq i n e)
  | inr ne ↦
      rw (h.plain i (ground arith))
        (component_length-name left (i + 1) n path h (ground arith) (omega arith))
]

module _ {W : Type 0} (fs : FileSystems W) where
  -- One step of a walk: the node of a name in a directory, or in what is mounted on it.
  abbrev pub enter : (dir n : ℕ) → Chars → W → ℕ × W
  enter dir n path w = vfs_finddir fs (vfs_check_mount fs dir w) (component n path) w

  -- The walk along the names of a path, as long as they are found.
  abbrev pub walk : (names : List ℕ) → (dir : ℕ) → Chars → W → ℕ × W
  walk [] dir path w = (vfs_check_mount fs dir w, w)
  walk (n ∷ ns) dir path w =
      let r = enter dir n path w in
      let rest = walk ns r.0 (path_from path (n + 1)) r.1 in if r.0 == 0 then (0, r.1) else rest

  -- what is left of a walk behind a name, with the node that was found
  abbrev go_on : (fuel root n : ℕ) → Chars → ℕ × W → Option (ℕ × W)
  go_on fuel root n path r =
      if r.0 == 0
      then some (0, r.1)
      else if path n == b'/'
      then vfs_find_path fs fuel root r.0 (path_from path (n + 1)) r.1
      else some (vfs_check_mount fs r.0 r.1, r.1)

  vfs_find_path-name :
      (fuel root dir n : ℕ) (path : Chars) (w : W)
      → (dir == 0) ≡ false
      → IsName n path
      → vfs_find_path fs (suc fuel) root dir path w ≡ go_on fuel root n path (enter dir n path w)
  unfolding vfs_find_path descend
  vfs_find_path-name fuel root dir n path w real name =
      rw
        (
          not_end,
          not_slash,
          real,
          component_length-name 127 0 n path name (omega arith) (omega (arith, name.short)),
        )
        refl
    where
      not_end : (path 0 == 0) ≡ false
      not_end = ground (arith, name.plain 0 name.some_char)

      not_slash : (path 0 == b'/') ≡ false
      not_slash = ground (arith, name.plain 0 name.some_char)

  go_on-last :
      (fuel root n : ℕ) (path : Chars) (r : ℕ × W)
      → path n ≡ 0
      → go_on fuel root n path r
        ≡ some (if r.0 == 0 then (0, r.1) else (vfs_check_mount fs r.0 r.1, r.1))
  go_on-last fuel root n path r last = elim (Bool-cases (r.0 == 0)) [
    | inl e ↦ rw e refl
    | inr ne ↦ rw (ne, last) refl
  ]

  go_on-slash :
      (fuel root n : ℕ) (path : Chars) (r walked : ℕ × W)
      → path n ≡ b'/'
      → ((r.0 == 0) ≡ false
          → vfs_find_path fs fuel root r.0 (path_from path (n + 1)) r.1 ≡ some walked)
      → go_on fuel root n path r ≡ some (if r.0 == 0 then (0, r.1) else walked)
  go_on-slash fuel root n path r walked slash rest = elim (Bool-cases (r.0 == 0)) [
    | inl e ↦ rw e refl
    | inr ne ↦ rw (ne, slash) (rest ne)
  ]

  -- A path of names is walked name by name from a directory that is not NULL, on a round of fuel for
  -- each name: each name is looked up in the directory, or in what is mounted on it, the first that
  -- is not found makes the result NULL, and behind the last name a mount is followed too. A name has
  -- from 1 to 126 characters, and one slash stands between two names.
  pub vfs_find_path-walk :
      (names : List ℕ) (fuel root dir : ℕ) (path : Chars) (w : W)
      → (dir == 0) ≡ false
      → IsPath names path
      → length names ≤ fuel
      → vfs_find_path fs fuel root dir path w ≡ some (walk names dir path w)
  vfs_find_path-walk [] fuel root dir path w real h f = absurd h
  vfs_find_path-walk (n ∷ ns) zero root dir path w real h f = absurd (omega arith)
  vfs_find_path-walk (n ∷ []) (suc fuel) root dir path w real (name, last) f =
      vfs_find_path-name fuel root dir n path w real name
      ∙ go_on-last fuel root n path (enter dir n path w) last
  vfs_find_path-walk (n ∷ l ∷ ns) (suc fuel) root dir path w real (name, slash, rest) f =
      let r = enter dir n path w in
      vfs_find_path-name fuel root dir n path w real name
      ∙ go_on-slash fuel root n path r (walk (l ∷ ns) r.0 (path_from path (n + 1)) r.1) slash
          (λ found.
            vfs_find_path-walk (l ∷ ns) fuel root r.0 (path_from path (n + 1)) r.1 found rest
              (omega arith))
