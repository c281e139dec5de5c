-- ===== src/Dataflash/Root.antt =====
-- Finding, creating and reading the root node in firmware/dataflash/fs.c.
use matemat.Base.{
  ℕ, zero, suc, ◌+◌, ◌*◌, Bool, false, not, ◌&&◌, List, [], ◌∷◌, ◌++◌, ltb, leb, ◌==◌,
  if◌then◌else◌, u32, drop, replicate,
}
use matemat.Dataflash.{
  Flash, Fs, Env, Status, fs_ok, df_buf1, df_buf2, df_buf_load, df_buf_read, df_buf_write,
  df_buf_save, df_flash_read, slice, none_ffff, nodetable_offset, nodes_in_root, fs_data_offset,
  fs_crc_offset, df_pages, df_page_size,
}
use matemat.Dataflash.Layout.{
  byte, word32, bytes16, bytes32, fs_page_of, fs_page_bytes, node_unused, node_inode,
}
use matemat.Dataflash.Pages.{fs_mark}
use matemat.Dataflash.Inodes.{fs_inodetable, fs_page, fs_crc}

-- The version in a page's bytes, and whether the page is a used root node.
abbrev pub root_version : List ℕ → ℕ
root_version s = word32 (drop 4 s)

unfoldable pub is_root : List ℕ → Bool
is_root s = let p = fs_page_of s in (p.unused == 0) && (p.root == 1)

module _ (k : Env) where
  -- The checksum of a page against its last byte.
  unfoldable pub crc_matches : List ℕ → Bool
  crc_matches s = fs_crc k 0 (slice s 0 fs_crc_offset) == byte (slice s fs_crc_offset 1) 0

  -- One round of the loop of `fs_scan`.
  unfoldable pub scan_page : ℕ → Fs → Fs
  scan_page p fs =
      let page = df_flash_read p 0 40 fs.flash in
      let loaded = record fs { flash = df_buf_load df_buf1 p fs.flash } in
      let whole = df_buf_read df_buf1 0 df_page_size loaded.flash in
      if not (is_root page)
      then fs
      else if crc_matches whole && ltb fs.version (root_version page)
      then record loaded { version = root_version page; root = p }
      else loaded

  -- The loop from a page on, for `n` more pages.
  unfoldable pub scan_from : ℕ → ℕ → Fs → Fs
  scan_from p zero fs = fs
  scan_from p (suc n) fs = scan_from (p + 1) n (scan_page p fs)

  -- The pages of the tables of inodes: the same bytes in each of the pages `i + 1` on.
  unfoldable pub save_tables : ℕ → ℕ → Flash → Flash
  save_tables i zero f = f
  save_tables i (suc n) f = save_tables (i + 1) n (df_buf_save df_buf1 (i + 1) f)

  unfoldable pub table_addresses : ℕ → ℕ → List ℕ
  table_addresses i zero = []
  table_addresses i (suc n) = bytes16 (i + 1) ++ table_addresses (i + 1) n

  unfoldable pub write_nodes : ℕ → ℕ → List ℕ → Flash → Flash
  write_nodes i zero node f = f
  write_nodes i (suc n) node f =
      write_nodes (i + 1) n node (df_buf_write df_buf1 node (nodetable_offset + i * 8) f)

  unfoldable pub fs_format : Fs → Fs × Status
  fs_format fs =
      let version = if ltb 0 fs.version then u32 (fs.version + 1) else 1 in
      let old = fs_page_of k.junk in
      let inode_page =
        fs_page_bytes (record old { root = 0; eof = 1; unused = 0; next_inode = 0x0fff }) in
      let begun = df_buf_write df_buf1 inode_page 0 fs.flash in
      let filled = df_buf_write df_buf1 (replicate 509 255) fs_data_offset begun in
      let tables = save_tables 0 16 filled in
      let root =
        fs_page_bytes (record old { root = 1; eof = 1; unused = 0 })
        ++ (bytes32 version ++ table_addresses 0 16) in
      let rooted = df_buf_write df_buf1 root 0 tables in
      let j = λ (i : ℕ). byte k.junk i in
      let node = 1 ∷ 0 ∷ 0 ∷ j 3 ∷ j 4 ∷ j 5 ∷ j 6 ∷ j 7 ∷ [] in
      let noded = write_nodes 0 nodes_in_root node rooted in
      let crc = fs_crc k 0 (df_buf_read df_buf1 0 fs_crc_offset noded) in
      let checked = df_buf_write df_buf1 (crc ∷ []) fs_crc_offset noded in
      (record fs { version = version; root = 0; flash = df_buf_save df_buf1 0 checked }, fs_ok)

  unfoldable pub fs_scan : Fs → Fs × Status
  fs_scan fs =
      let found = scan_from 0 df_pages (record fs { version = 0 }) in
      if leb 1 found.version then (found, fs_ok) else fs_format found

  unfoldable pub mark_tables : ℕ → ℕ → Fs → Fs
  mark_tables i zero fs = fs
  mark_tables i (suc n) fs = mark_tables (i + 1) n (fs_mark (fs_inodetable fs i) false fs)

  -- The first page of each file.
  unfoldable pub mark_files : ℕ → ℕ → Fs → Fs
  mark_files i zero fs = fs
  mark_files i (suc n) fs =
      let node = df_flash_read fs.root (nodetable_offset + i * 8) 8 fs.flash in
      let page = fs_page fs (node_inode node) in
      let marked = fs_mark page false fs in
      mark_files (i + 1) n (if node_unused node == 0 && not (page == none_ffff) then marked else fs)

  unfoldable pub fs_init : Flash → Fs × Status
  fs_init f =
      let free = df_buf_write df_buf2 (replicate df_page_size 255) 0 f in
      let (found, ret) = fs_scan (record { flash = free; root = 0; version = 0; last_free = 0 }) in
      let marked = mark_files 0 nodes_in_root (mark_tables 0 16 (fs_mark found.root false found)) in
      elim ret [ fs_ok ↦ (marked, fs_ok) | other ↦ (found, other) ]
