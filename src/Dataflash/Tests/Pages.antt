-- ===== src/Dataflash/Tests/Pages.antt =====
-- A scan, a power failure, a file of three bytes and a new page.
use matemat.Base.{
  ℕ, ◌+◌, ◌<◌, ◌≡◌, refl, true, false, inl, inr, ◌==◌, Bool-cases, if◌then◌else◌, arith, List, [],
  ◌∷◌, length, some, replicate,
}
use matemat.Base.Int.{pos}
use matemat.Dataflash.{
  slice, df_flash_read, df_buf_load, df_buf_read, df_buf_write, df_buf_save, splice, program, Fs,
  fs_ok, df_pages, none_ffff,
}
use matemat.Dataflash.Layout.{fs_page_bytes, fs_page_of, strncmp, strncpy, file_node}
use matemat.Dataflash.Pages.{free_page, fs_used, fs_mark, fs_new_page}
use matemat.Dataflash.Inodes.{
  fs_increment, new_root, fs_crc, fs_inodetable, inode_entry, free_in_table, free_inode,
  fs_new_inode,
}
use matemat.Dataflash.Root.{
  save_tables, table_addresses, write_nodes, mark_tables, fs_format, fs_scan,
}
use matemat.Dataflash.Directory.{find_place, create_at, write_node, shift_up, read_node, fs_create}
use matemat.Dataflash.Allocation.{NewPage, fs_new_page-NewPage}
use matemat.Dataflash.Root.{is_root, crc_matches}
use matemat.Dataflash.Inodes.{fs_update_inodetable, write_tables, fs_page, fs_inodetable}
use matemat.Dataflash.Layout.{used_inode}
use matemat.Dataflash.Files.{fs_read, fs_write, write_new, take_page, write_page}
use matemat.Dataflash.Commit.{IsRootOf}
use matemat.Dataflash.Format.{NoRoots}
use matemat.Dataflash.Restart.{fs_scan-formats}
use matemat.Dataflash.Scan.{page_version, is_valid_root, IsCurrent}
use matemat.Dataflash.Recovery.{fs_increment-recovers}
use matemat.Dataflash.Tables.{WholePages}
use matemat.Dataflash.Contents.{fs_write-fs_read}
use matemat.Dataflash.Fixtures.{
  test_env, raw, formatted, state, succeeds, succeeds-state, root_page,
}

-- A flash with a root node in page 7 and nothing else.
abbrev lonely : Fs
lonely = record {
  flash = record formatted.flash {
    memory = λ p. if p == 7 then root_page else [];
    buf1 = root_page;
  };
  root = 7;
  version = 1;
  last_free = 0;
}

root_page-facts :
    (is_valid_root test_env root_page ≡ true)
    × (page_version root_page ≡ 1)
    × (length root_page ≡ 528)
    × (is_root (slice root_page 0 40) ≡ true)
    × (is_valid_root test_env [] ≡ false)
    × ((fs_new_page lonely).1 ≡ 17)
unfolding is_valid_root is_root crc_matches succeeds fs_create find_place create_at read_node
    write_node shift_up df_flash_read df_buf_load df_buf_read df_buf_write df_buf_save splice
    program fs_increment new_root fs_crc fs_new_page free_page fs_used fs_mark mark_tables fs_format
    save_tables table_addresses write_nodes fs_page_bytes fs_page_of fs_inodetable inode_entry
    free_in_table free_inode fs_new_inode strncmp strncpy file_node
root_page-facts = (refl, refl, refl, refl, refl, refl)

lonely-IsCurrent : IsCurrent test_env lonely.flash.memory 7 1
lonely-IsCurrent = record {
  in_flash = omega arith;
  valid = root_page-facts.0;
  numbered = root_page-facts.1;
  positive = omega arith;
  others_older = λ p b o v.
      let n : (p == 7) ≡ false = ground arith in
      let none_there = root_page-facts.4 in absurd (let w = rw n at v in cc (w, none_there));
}

-- The power fails when nothing of the page has been programmed.
abbrev torn : Fs
torn = record lonely { flash = record lonely.flash { memory = program 17 [] lonely.flash.memory } }

abbrev incremented : Fs
incremented = (fs_increment test_env lonely).0

fs_increment-recovers_example :
    let (s', _) = fs_scan test_env torn in
    let (t', _) = fs_scan test_env incremented in
    (s'.root ≡ 7)
    × (s'.version ≡ 1)
    × (t'.root ≡ 17)
    × (t'.version ≡ 1 + 1)
    × IsRootOf test_env (1 + 1) root_page (incremented.flash.memory 17)
fs_increment-recovers_example =
    fs_increment-recovers test_env lonely torn incremented 17 [] root_page-facts.2 root_page-facts.3
      lonely-IsCurrent (omega arith) root_page-facts.5 (omega arith) (omega arith) root_page-facts.4
      refl refl

-- A flash whose pages are all whole, and a file of three bytes.
abbrev plain : Fs
plain = record formatted {
  flash = record formatted.flash {
    memory = λ p. if p == 0 then root_page else formatted.flash.memory 1;
  };
}

abbrev three : List ℕ
three = 10 ∷ 20 ∷ 30 ∷ []

written : Fs
written = state (fs_write test_env 1 plain 3 three 0 3)

plain-facts :
    (plain.last_free < df_pages)
    × (length root_page ≡ 528)
    × (length (formatted.flash.memory 1) ≡ 528)
    × (fs_page plain 3 ≡ none_ffff)
    × (succeeds (fs_write test_env 1 plain 3 three 0 3) ≡ true)
    × ((fs_new_page plain).1 ≡ 17)
    × (written.root ≡ 19)
unfolding written fs_write write_new take_page write_page fs_update_inodetable write_tables
    used_inode fs_page succeeds fs_create find_place create_at read_node write_node shift_up
    df_flash_read df_buf_load df_buf_read df_buf_write df_buf_save splice program fs_increment
    new_root fs_crc fs_new_page free_page fs_used fs_mark mark_tables fs_format save_tables
    table_addresses write_nodes fs_page_bytes fs_page_of fs_inodetable inode_entry free_in_table
    free_inode fs_new_inode strncmp strncpy file_node
plain-facts = (omega arith, refl, refl, refl, refl, refl, refl)

plain-WholePages : WholePages plain
plain-WholePages p = elim (Bool-cases (p == 0)) [
  | inl y ↦ rw y plain-facts.1
  | inr n ↦ rw n plain-facts.2
]

written-ok : fs_write test_env 1 plain 3 three 0 3 ≡ some (written, fs_ok)
unfolding written
written-ok = succeeds-state _ plain-facts.4

fs_write-fs_read_example :
    fs_read 1 written 3 (9 ∷ 9 ∷ 9 ∷ 9 ∷ []) 0 3 ≡ some (pos 3, splice (9 ∷ 9 ∷ 9 ∷ 9 ∷ []) 0 three)
fs_write-fs_read_example =
    fs_write-fs_read test_env plain written 3 three (9 ∷ 9 ∷ 9 ∷ 9 ∷ []) 0 0 plain-WholePages
      plain-facts.0 (omega arith) plain-facts.3 (omega arith) (omega arith) written-ok
      (λ e. omega (arith, plain-facts.5, plain-facts.6, e))

fs_new_page-NewPage_example : let (fs', page) = fs_new_page raw in NewPage raw fs' page
fs_new_page-NewPage_example = fs_new_page-NewPage raw (omega arith)

zeros-facts :
    (length (replicate {A = ℕ} 528 0) ≡ 528) × (is_valid_root test_env (replicate 528 0) ≡ false)
unfolding is_valid_root is_root crc_matches fs_page_of
zeros-facts = (refl, refl)

-- A flash of zeros, and the same after a scan and a restart.
abbrev restarted : Fs
restarted = record (fs_scan test_env raw).0 { root = 5; version = 9 }

raw-NoRoots : NoRoots test_env raw.flash.memory
raw-NoRoots p b = zeros-facts.1

fs_scan-formats_example :
    let (fs', ret) = fs_scan test_env raw in
    let (s', ret') = fs_scan test_env restarted in
    ((ret ≡ fs_ok) × (fs'.root ≡ 0) × (fs'.version ≡ 1))
    × ((ret' ≡ fs_ok) × (s'.root ≡ 0) × (s'.version ≡ 1))
fs_scan-formats_example =
    fs_scan-formats test_env raw restarted (λ p. zeros-facts.0) zeros-facts.0 raw-NoRoots refl
