-- ===== src/Vfs.antt =====
-- The virtual file system of kernel/fs/vfs/vfs.c: nodes with function pointers, mounts and paths.
use khazaros.Base.{
  ℕ, zero, suc, ◌+◌, ◌%◌, Bool, true, false, not, ◌&&◌, ◌||◌, Option, none, some, List, ◌==◌, ltb,
  if◌then◌else◌,
}
use mathlib.Core.Option
use khazaros.Base.Search.{find_from}
use khazaros.Base.Window.{put}
use khazaros.LibK.Memory.{Bytes}
use khazaros.LibK.Text.{Chars, kstrncpy}
pub mod Path
mod Tests

-- A function pointer of a node: NULL, or the function of that name of a file system.
pub data Handler : Type 0 where
  null : Handler
  fat32 : Handler
  devfs : Handler
  netinfo : Handler

pub record VfsNode : Type 0 where
  pub name : Chars
  pub mask : ℕ
  pub uid : ℕ
  pub gid : ℕ
  pub flags : ℕ
  pub inode : ℕ
  pub length : ℕ
  pub impl : ℕ
  pub read : Handler
  pub write : Handler
  pub open_file : Handler
  pub close : Handler
  pub readdir : Handler
  pub finddir : Handler
  pub create : Handler
  pub unlink : Handler
  pub mkdir : Handler
  pub ptr : ℕ
  pub device_data : ℕ

-- `VFS_FILE`, `VFS_DIRECTORY` and `VFS_CHAR_DEVICE`
abbrev pub vfs_file : ℕ
vfs_file = 1

abbrev pub vfs_directory : ℕ
vfs_directory = 2

abbrev pub vfs_char_device : ℕ
vfs_char_device = 3

-- What the file system's functions do in a world `W`, which holds the nodes at their addresses (0 is
-- NULL) and the disk: the calls through the pointers of a node, and the nodes themselves.
pub record FileSystems (W : Type 0) : Type 0 where
  pub node_at : W → ℕ → VfsNode
  pub set_node : ℕ → VfsNode → W → W
  pub call_read : Handler → (node offset size buffer : ℕ) → W → ℕ × W
  pub call_write : Handler → (node offset size buffer : ℕ) → W → ℕ × W
  pub call_open : Handler → (node : ℕ) → W → W
  pub call_close : Handler → (node : ℕ) → W → W
  pub call_readdir : Handler → (node index : ℕ) → W → ℕ × W
  pub call_finddir : Handler → (node : ℕ) → Chars → W → ℕ × W
  pub call_create : Handler → (node : ℕ) → Chars → W → ℕ × W
  pub call_unlink : Handler → (node : ℕ) → Chars → W → Bool × W
  pub call_mkdir : Handler → (node : ℕ) → Chars → W → ℕ × W

unfoldable pub is_null : Handler → Bool
is_null null = true
is_null fat32 = false
is_null devfs = false
is_null netinfo = false

-- `(node->flags & 0x07) == VFS_DIRECTORY`
unfoldable pub is_directory : VfsNode → Bool
is_directory n = (n.flags % 8) == vfs_directory

abbrev pub with_ptr : ℕ → VfsNode → VfsNode
with_ptr p n = record n { ptr = p }

-- `vfs_mounts`, of which eight exist
pub record VfsMount : Type 0 where
  pub path : Chars
  pub root : ℕ

abbrev pub max_mounts : ℕ
max_mounts = 8

-- the loop that copies a component, of which up to `left` characters are left: its length
unfoldable pub component_length : (left i : ℕ) → Chars → ℕ
component_length zero i path = i
component_length (suc left) i path =
    let rest = component_length left (i + 1) path in
    if not (path i == b'/') && not (path i == 0) then rest else i

-- The component of `len` characters. What lies behind its end is not set in the code.
unfoldable pub component : (len : ℕ) → Chars → Chars
component len path i = if ltb i len then path i else 0

module _ {W : Type 0} (fs : FileSystems W) where
  unfoldable pub vfs_read : (node offset size buffer : ℕ) → W → ℕ × W
  unfolding is_null
  vfs_read node offset size buffer w =
      let fn = (fs.node_at w node).read in
      if node == 0
      then (0, w)
      else if is_null fn
      then (0, w)
      else fs.call_read fn node offset size buffer w

  unfoldable pub vfs_write : (node offset size buffer : ℕ) → W → ℕ × W
  unfolding is_null
  vfs_write node offset size buffer w =
      let fn = (fs.node_at w node).write in
      if node == 0
      then (0, w)
      else if is_null fn
      then (0, w)
      else fs.call_write fn node offset size buffer w

  unfoldable pub vfs_open : (node : ℕ) → W → W
  unfolding is_null
  vfs_open node w =
      let fn = (fs.node_at w node).open_file in
      if node == 0 then w else if is_null fn then w else fs.call_open fn node w

  unfoldable pub vfs_close : (node : ℕ) → W → W
  unfolding is_null
  vfs_close node w =
      let fn = (fs.node_at w node).close in
      if node == 0 then w else if is_null fn then w else fs.call_close fn node w

  unfoldable pub vfs_readdir : (node index : ℕ) → W → ℕ × W
  unfolding is_null is_directory
  vfs_readdir node index w =
      let n = fs.node_at w node in
      if node == 0
      then (0, w)
      else if is_directory n && not (is_null n.readdir)
      then fs.call_readdir n.readdir node index w
      else (0, w)

  unfoldable pub vfs_finddir : (node : ℕ) → Chars → W → ℕ × W
  unfolding is_null is_directory
  vfs_finddir node name w =
      let n = fs.node_at w node in
      if node == 0
      then (0, w)
      else if is_directory n && not (is_null n.finddir)
      then fs.call_finddir n.finddir node name w
      else (0, w)

  unfoldable pub vfs_create : (node : ℕ) → Chars → W → ℕ × W
  unfolding is_null is_directory
  vfs_create node name w =
      let n = fs.node_at w node in
      if node == 0
      then (0, w)
      else if is_directory n && not (is_null n.create)
      then fs.call_create n.create node name w
      else (0, w)

  unfoldable pub vfs_unlink : (node : ℕ) → Chars → W → Bool × W
  unfolding is_null is_directory
  vfs_unlink node name w =
      let n = fs.node_at w node in
      if node == 0
      then (false, w)
      else if is_directory n && not (is_null n.unlink)
      then fs.call_unlink n.unlink node name w
      else (false, w)

  unfoldable pub vfs_mkdir : (node : ℕ) → Chars → W → ℕ × W
  unfolding is_null is_directory
  vfs_mkdir node name w =
      let n = fs.node_at w node in
      if node == 0
      then (0, w)
      else if is_directory n && not (is_null n.mkdir)
      then fs.call_mkdir n.mkdir node name w
      else (0, w)

  unfoldable pub vfs_check_mount : (node : ℕ) → W → ℕ
  vfs_check_mount node w =
      let p = (fs.node_at w node).ptr in if node == 0 then 0 else if p == 0 then node else p

  -- The path from a directory on, with the function's call of itself as an argument.
  unfoldable pub descend :
      (ℕ → Chars → W → Option (ℕ × W)) → (root : ℕ) → Chars → W → Option (ℕ × W)
  descend again root path w =
      let i = component_length 127 0 path in
      let found = vfs_finddir (vfs_check_mount root w) (component i path) w in
      if root == 0
      then some (0, w)
      else if found.0 == 0
      then some (0, found.1)
      else if path i == b'/'
      then again found.0 (λ k. path (i + 1 + k)) found.1
      else some (vfs_check_mount found.0 found.1, found.1)

  -- On fuel; `vfs_root` is the node of that global.
  unfoldable pub vfs_find_path : (fuel vfs_root root : ℕ) → Chars → W → Option (ℕ × W)
  unfolding descend
  vfs_find_path zero vfs_root root path w = none
  vfs_find_path (suc fuel) vfs_root root path w =
      if path 0 == 0
      then some (vfs_check_mount root w, w)
      else if path 0 == b'/'
      then (if path 1 == 0
          then some (vfs_check_mount vfs_root w, w)
          else descend (vfs_find_path fuel vfs_root) vfs_root (λ k. path (1 + k)) w)
      else descend (vfs_find_path fuel vfs_root) root path w

  -- `if (target) target->ptr = root_node`
  unfoldable pub mark_mount : (root_node : ℕ) → Option (ℕ × W) → Option W
  mark_mount root_node none = none
  mark_mount root_node (some (target, w)) =
      some
        (if target == 0 then w else fs.set_node target (with_ptr root_node (fs.node_at w target)) w)

  -- The slot that was found is filled, and the node of the path marked.
  unfoldable pub mount_at :
      Option ℕ
      → (fuel vfs_root : ℕ) → Chars
      → (root_node : ℕ) → (ℕ → VfsMount)
      → W
      → Option (Bool × (ℕ → VfsMount) × W)
  unfolding mark_mount put
  mount_at none fuel vfs_root path root_node mounts w = some (false, mounts, w)
  mount_at (some i) fuel vfs_root path root_node mounts w =
      Option.map
        (λ w₁. (
          true,
          put mounts i (record { path = kstrncpy (mounts i).path 0 path 127; root = root_node }),
          w₁,
        ))
        (mark_mount root_node (vfs_find_path fuel vfs_root vfs_root path w))

  unfoldable pub vfs_mount :
      (fuel vfs_root : ℕ)
      → Chars
      → (root_node : ℕ) → (ℕ → VfsMount)
      → W
      → Option (Bool × (ℕ → VfsMount) × W)
  unfolding mount_at
  vfs_mount fuel vfs_root path root_node mounts w =
      mount_at (find_from (λ i. (mounts i).path 0 == 0) max_mounts 0) fuel vfs_root path root_node
        mounts w
