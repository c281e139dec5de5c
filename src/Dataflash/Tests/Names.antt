-- ===== src/Dataflash/Tests/Names.antt =====
-- Two files that are created.
use matemat.Base.{
  ltb→lt, ℕ, zero, suc, ◌%◌, ◌<◌, ◌≡◌, refl, Bool, true, false, inl, inr, ◌==◌, ==_iff, Bool-cases,
  arith, List, [], ◌∷◌, length, some, ltb, ◌&&◌,
}
use matemat.Dataflash.{
  df_flash_read, df_buf_load, df_buf_read, df_buf_write, df_buf_save, splice, program, Fs, fs_ok,
  df_pages, page_address,
}
use matemat.Dataflash.Layout.{fs_page_bytes, fs_page_of, strncmp, strncpy, file_node, node_unused}
use matemat.Dataflash.Pages.{free_page, fs_used, fs_mark, fs_new_page}
use matemat.Dataflash.Inodes.{
  fs_increment, new_root, fs_crc, fs_inodetable, inode_entry, free_in_table, free_inode,
  fs_new_inode,
}
use matemat.Dataflash.Root.{save_tables, table_addresses, write_nodes, mark_tables, fs_format}
use matemat.Dataflash.Directory.{
  find_place, create_at, write_node, shift_up, read_node, fs_get_inode, fs_create,
}
use matemat.Dataflash.Listing.{IsFile}
use matemat.Dataflash.Sharing.{TablesUsed, fs_create-shared}
use matemat.Dataflash.Inodes.{fs_inodetable}
use matemat.Dataflash.Names.{Differs, fs_create-fs_get_inode, fs_create-IsFile}
use matemat.Dataflash.Fixtures.{test_env, formatted, state, succeeds, succeeds-state}

-- Files `ab` and `ba`.
abbrev file_ab : List ℕ
file_ab = 97 ∷ 98 ∷ []

abbrev file_ba : List ℕ
file_ba = 98 ∷ 97 ∷ []

abbrev created : Fs
created = state (fs_create test_env formatted file_ba)

-- What the fresh file system and the one with a file are like.
formatted-facts :
    (formatted.last_free < df_pages)
    × (length (formatted.flash.memory (page_address formatted.root)) ≡ 528)
    × (node_unused (read_node formatted 0) ≡ 1)
    × (succeeds (fs_create test_env formatted file_ba) ≡ true)
unfolding succeeds fs_create find_place create_at read_node write_node shift_up df_flash_read
    df_buf_load df_buf_read df_buf_write df_buf_save splice program fs_increment new_root fs_crc
    fs_new_page free_page fs_used fs_mark mark_tables fs_format save_tables table_addresses
    write_nodes fs_page_bytes fs_page_of fs_inodetable inode_entry free_in_table free_inode
    fs_new_inode strncmp strncpy file_node
formatted-facts = (omega arith, refl, refl, refl)

created-facts :
    (created.last_free < df_pages)
    × (length (created.flash.memory (page_address created.root)) ≡ 528)
    × (node_unused (read_node created 1) ≡ 1)
    × (succeeds (fs_create test_env created file_ab) ≡ true)
unfolding succeeds fs_create find_place create_at read_node write_node shift_up df_flash_read
    df_buf_load df_buf_read df_buf_write df_buf_save splice program fs_increment new_root fs_crc
    fs_new_page free_page fs_used fs_mark mark_tables fs_format save_tables table_addresses
    write_nodes fs_page_bytes fs_page_of fs_inodetable inode_entry free_in_table free_inode
    fs_new_inode strncmp strncpy file_node
created-facts = (omega arith, refl, refl, refl)

created-ok : fs_create test_env formatted file_ba ≡ some (created, fs_ok)
created-ok = succeeds-state _ formatted-facts.3

both : Fs
both = state (fs_create test_env created file_ab)

both-ok : fs_create test_env created file_ab ≡ some (both, fs_ok)
unfolding both
both-ok = succeeds-state _ created-facts.3

file_ab-Differs : Differs file_ab file_ba
unfolding strncmp strncpy
file_ab-Differs e = cc e

fs_create-IsFile_example :
    let inode = fs_new_inode formatted % 4096 in
    IsFile both file_ba inode × (fs_get_inode both file_ba ≡ some inode)
fs_create-IsFile_example =
    fs_create-IsFile test_env created both file_ab file_ba 1 (fs_new_inode formatted % 4096)
      created-facts.0 created-facts.1 (omega arith) created-facts.2 both-ok file_ab-Differs
      (fs_create-fs_get_inode test_env formatted created file_ba 0 formatted-facts.0
        formatted-facts.1 (omega arith) formatted-facts.2 created-ok).0

table_used : ℕ → Bool
table_used i =
    ltb (fs_inodetable formatted i) df_pages && fs_used formatted (fs_inodetable formatted i)

and_true : (x y : Bool) → (x && y) ≡ true → (x ≡ true) × (y ≡ true)
and_true true y h = (refl, h)
and_true false y h = absurd (ground arith)

all_below : ℕ → Bool
all_below zero = true
all_below (suc n) = table_used n && all_below n

all_below-table_used : (n i : ℕ) → all_below n ≡ true → i < n → table_used i ≡ true
unfolding all_below
all_below-table_used zero i a h = absurd (omega arith)
all_below-table_used (suc n) i a h = elim (Bool-cases (i == n)) [
  | inl y ↦ (let e : i ≡ n = (==_iff i n).0 y in rw e (and_true _ _ a).0)
  | inr o ↦ all_below-table_used n i (and_true _ _ a).1 (ground arith)
]

tables-facts : all_below 16 ≡ true
unfolding all_below table_used succeeds fs_create find_place create_at read_node write_node shift_up
    df_flash_read df_buf_load df_buf_read df_buf_write df_buf_save splice program fs_increment
    new_root fs_crc fs_new_page free_page fs_used fs_mark mark_tables fs_format save_tables
    table_addresses write_nodes fs_page_bytes fs_page_of fs_inodetable inode_entry free_in_table
    free_inode fs_new_inode strncmp strncpy file_node
tables-facts = refl

formatted-TablesUsed : TablesUsed formatted
unfolding table_used
formatted-TablesUsed i h =
    let u = all_below-table_used 16 i tables-facts h in
    let (b, v) = and_true _ _ u in (ltb→lt _ _ b, v)

fs_create-shared_example :
    let inode = fs_new_inode formatted % 4096 in
    (fs_get_inode both file_ba ≡ some inode) × (fs_get_inode both file_ab ≡ some inode)
fs_create-shared_example =
    fs_create-shared test_env formatted created both file_ba file_ab 0 1 formatted-facts.0
      formatted-facts.1 formatted-TablesUsed (omega arith) formatted-facts.2 created-ok
      (omega arith) created-facts.2 both-ok file_ab-Differs
