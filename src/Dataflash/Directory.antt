-- ===== src/Dataflash/Directory.antt =====
-- The names of files in the root node of firmware/dataflash/fs.c.
-- The loops over the nodes have fuel; where it runs out they would read behind the page.
use matemat.Base.{
  ℕ, zero, suc, ◌+◌, ◌-◌, ◌*◌, Bool, true, false, ◌||◌, Option, none, some, List, [], ◌∷◌, ◌++◌,
  ltb, ◌==◌, if◌then◌else◌,
}
use Prim.Native.Nat.{Ordering}
use matemat.Dataflash.{
  Flash, Fs, Env, Status, fs_ok, fs_nosuchfile, fs_eof, fs_badinode, fs_duplicate, df_buf1,
  df_buf_load, df_buf_write, df_flash_read, none_ffff, nodetable_offset, nodes_in_root, fs_filename,
}
use matemat.Dataflash.Layout.{
  node_unused, node_inode, node_name, strncpy, strncmp, file_node, unused_node,
}
use matemat.Dataflash.Inodes.{fs_new_inode, fs_increment, fs_update_inodetable}

-- A node of the root node in the flash, and buffer 1 with a node written.
unfoldable pub read_node : Fs → ℕ → List ℕ
read_node fs i = df_flash_read fs.root (nodetable_offset + i * 8) 8 fs.flash

unfoldable pub write_node : List ℕ → ℕ → Flash → Flash
write_node node i f = df_buf_write df_buf1 node (nodetable_offset + i * 8) f

abbrev pub same_name : List ℕ → List ℕ → Bool
same_name node name = elim (strncmp fs_filename (node_name node) name) [
  | Ordering.eq ↦ true
  | _ ↦ false
]

abbrev pub before : List ℕ → List ℕ → Bool
before node name = elim (strncmp fs_filename (node_name node) name) [
  | Ordering.lt ↦ true
  | _ ↦ false
]

unfoldable pub fs_list : Fs → ℕ → List ℕ × Status
fs_list fs index =
    let node = read_node fs index in
    (
      strncpy fs_filename (node_name node) ++ 0 ∷ [],
      if node_unused node == 1 then fs_eof else fs_ok,
    )

-- The loop of `fs_get_inode` from a node on.
unfoldable pub get_from : ℕ → Fs → List ℕ → ℕ → Option ℕ
get_from zero fs file i = none
get_from (suc n) fs file i =
    let node = read_node fs i in
    let rest = get_from n fs file (i + 1) in
    if same_name node file
    then some (node_inode node)
    else if node_unused node == 1
    then some none_ffff
    else rest

unfoldable pub fs_get_inode : Fs → List ℕ → Option ℕ
fs_get_inode fs file = get_from (nodes_in_root + 1) fs file 0

-- What the loop of `fs_create` finds: a node of the same name, or the index for the new node and
-- the number of nodes.
pub data Place : Type 0 where
  duplicate : Place
  place : ℕ → ℕ → Place

unfoldable pub find_place : ℕ → Fs → List ℕ → ℕ → ℕ → Option Place
find_place zero fs name index i = none
find_place (suc n) fs name index i =
    let node = read_node fs i in
    let rest = find_place n fs name (if before node name then index + 1 else index) (i + 1) in
    if node_unused node == 1
    then some (place index i)
    else if same_name node name
    then some duplicate
    else rest

-- The loop that writes `n` old nodes from `index` on behind their places.
unfoldable pub shift_up : ℕ → Fs → ℕ → Flash → Flash
shift_up zero fs index f = f
shift_up (suc n) fs index f =
    shift_up n fs (index + 1) (write_node (read_node fs index) (index + 1) f)

-- What the loop of `fs_remove` finds: index and inode of the last node of the name, and the
-- number of nodes.
unfoldable pub find_file : ℕ → Fs → List ℕ → ℕ → ℕ → ℕ → Option (ℕ × ℕ × ℕ)
find_file zero fs name index inode i = none
find_file (suc n) fs name index inode i =
    let node = read_node fs i in
    let same = same_name node name in
    let rest =
      find_file n fs name (if same then i else index) (if same then node_inode node else inode)
        (i + 1) in
    if node_unused node == 1 then some (index, inode, i) else rest

-- The loop that writes the `n` nodes behind `index` one place lower, and the last node read.
unfoldable pub shift_down : ℕ → Fs → ℕ → List ℕ → Flash → Flash × List ℕ
shift_down zero fs index node f = (f, node)
shift_down (suc n) fs index node f =
    let next = read_node fs (index + 1) in
    shift_down n fs (index + 1) next (write_node next index f)

module _ (k : Env) where
  -- The node is `old` before it is filled in: the unused one that ends the search.
  unfoldable pub create_at : List ℕ → ℕ → ℕ → Fs → Fs × Status
  create_at name index max fs =
      let node = file_node (read_node fs max) name (fs_new_inode fs) in
      let loaded = df_buf_load df_buf1 fs.root fs.flash in
      let shifted = shift_up (max - index) fs index (write_node node index loaded) in
      if node_inode node == none_ffff
      then (fs, fs_badinode)
      else fs_increment k (record fs { flash = shifted })

  unfoldable pub fs_create : Fs → List ℕ → Option (Fs × Status)
  fs_create fs name = elim (find_place (nodes_in_root + 1) fs name 0 0) [
    | none ↦ none
    | some duplicate ↦ some (fs, fs_duplicate)
    | some (place index max) ↦ some (create_at name index max fs)
  ]

  -- From the load of the root node on, with at least one node.
  unfoldable pub remove_at : ℕ → ℕ → ℕ → Fs → Fs × Status
  remove_at index inode max fs =
      let loaded = df_buf_load df_buf1 fs.root fs.flash in
      let (shifted, node) = shift_down (max - 1 - index) fs index (read_node fs max) loaded in
      let marked = write_node (unused_node node) (max - 1) shifted in
      let (removed, ret) = fs_increment k (record fs { flash = marked }) in
      elim ret [ fs_ok ↦ fs_update_inodetable k inode none_ffff removed | other ↦ (removed, other) ]

  unfoldable pub fs_remove : Fs → List ℕ → Option (Fs × Status)
  fs_remove fs name = elim (find_file (nodes_in_root + 1) fs name none_ffff none_ffff 0) [
    | none ↦ none
    | some (index, inode, max) ↦
        if max == 0 || ltb max index
        then some (fs, fs_nosuchfile)
        else some (remove_at index inode max fs)
  ]
