-- ===== src/Vfs/Tests.antt =====
-- Examples of the virtual file system.
use khazaros.Base.{
  ℕ, zero, suc, ◌+◌, ◌≡◌, refl, ap, ◌∙◌, true, false, not, ◌&&◌, some, [], ◌∷◌, arith, ◌==◌,
}
use khazaros.LibK.Text.{Chars}
use khazaros.Vfs.{VfsNode, FileSystems, vfs_directory, vfs_find_path}
use khazaros.Vfs
use khazaros.Vfs.Path.{IsName, IsPath, path_from, walk, vfs_find_path-walk}

-- a directory with nothing mounted on it
abbrev directory : VfsNode
directory = record {
  name = λ k. 0;
  mask = 511;
  uid = 0;
  gid = 0;
  flags = vfs_directory;
  inode = 0;
  length = 0;
  impl = 2;
  read = Vfs.null;
  write = Vfs.null;
  open_file = Vfs.null;
  close = Vfs.null;
  readdir = Vfs.null;
  finddir = Vfs.fat32;
  create = Vfs.null;
  unlink = Vfs.null;
  mkdir = Vfs.null;
  ptr = 0;
  device_data = 0;
}

-- directories all the way down: every name is found, at the next address
abbrev deep : FileSystems ℕ
deep = record {
  node_at = λ w a. directory;
  set_node = λ a n w. w;
  call_read = λ h a offset size buffer w. (0, w);
  call_write = λ h a offset size buffer w. (0, w);
  call_open = λ h a w. w;
  call_close = λ h a w. w;
  call_readdir = λ h a index w. (0, w);
  call_finddir = λ h a name w. (a + 1, w + 1);
  call_create = λ h a name w. (0, w);
  call_unlink = λ h a name w. (false, w);
  call_mkdir = λ h a name w. (0, w);
}

-- `a/b`
abbrev a_b : Chars
a_b zero = b'a'
a_b (suc zero) = b'/'
a_b (suc (suc zero)) = b'b'
a_b (suc (suc (suc k))) = 0

one_char :
    (path : Chars)
    → (not (path 0 == b'/') && not (path 0 == 0)) ≡ true
    → (not (path 1 == b'/') && not (path 1 == 0)) ≡ false
    → IsName 1 path
one_char path first next = record {
  some_char = omega arith;
  short = omega arith;
  plain = λ k p.
      ap (λ j. not (path j == b'/') && not (path j == 0)) {x = k} {y = 0} (omega arith) ∙ first;
  ends = next;
}

a_b-IsPath : IsPath (1 ∷ 1 ∷ []) a_b
a_b-IsPath = (one_char a_b refl refl, refl, (one_char (path_from a_b (1 + 1)) refl refl, refl))

vfs_find_path-walk_example : vfs_find_path deep 2 1 1 a_b 0 ≡ some (walk deep (1 ∷ 1 ∷ []) 1 a_b 0)
vfs_find_path-walk_example =
    vfs_find_path-walk deep (1 ∷ 1 ∷ []) 2 1 1 a_b 0 refl a_b-IsPath (omega arith)
