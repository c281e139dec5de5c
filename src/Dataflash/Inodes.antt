-- ===== src/Dataflash/Inodes.antt =====
-- The root node and the tables of inodes of firmware/dataflash/fs.c.
use matemat.Base.{
  ℕ, zero, suc, ◌+◌, ◌*◌, ◌/◌, ◌%◌, Option, none, some, List, [], ◌∷◌, ◌==◌, if◌then◌else◌, u8, u32,
}
use matemat.Dataflash.{
  Flash, Fs, Env, Status, fs_ok, fs_badpage, df_buf1, df_buf_load, df_buf_read, df_buf_write,
  df_buf_save, df_flash_read, splice, none_ffff, inodetable_offset, fs_data_offset, fs_crc_offset,
}
use matemat.Dataflash.Layout.{
  word16, bytes16, bytes32, inode_unused, inode_page, used_inode, unused_inode,
}
use matemat.Dataflash.Pages.{fs_new_page}

unfoldable pub fs_inodetable : Fs → ℕ → ℕ
fs_inodetable fs tableid =
    word16 (df_flash_read fs.root (inodetable_offset + tableid * 2) 2 fs.flash)

-- An entry of a table of inodes, which lives in a page.
unfoldable pub inode_entry : Flash → ℕ → ℕ → List ℕ
inode_entry f page j = df_flash_read page (fs_data_offset + j * 2) 2 f

unfoldable pub fs_page : Fs → ℕ → ℕ
fs_page fs inode =
    let node = inode_entry fs.flash (fs_inodetable fs (u8 (inode / 256))) (inode % 256) in
    if inode_unused node == 1 then none_ffff else inode_page node

-- The two loops of `fs_new_inode`, for `n` more rounds.
unfoldable pub free_in_table : Flash → ℕ → ℕ → ℕ → Option ℕ
free_in_table f page j zero = none
free_in_table f page j (suc n) =
    let rest = free_in_table f page (j + 1) n in
    if inode_unused (inode_entry f page j) == 1 then some j else rest

unfoldable pub free_inode : Fs → ℕ → ℕ → ℕ
free_inode fs i zero = none_ffff
free_inode fs i (suc n) =
    let rest = free_inode fs (i + 1) n in
    elim (free_in_table fs.flash (fs_inodetable fs i) 0 256) [ some j ↦ i * 256 + j | none ↦ rest ]

unfoldable pub fs_new_inode : Fs → ℕ
fs_new_inode fs = free_inode fs 0 16

module _ (k : Env) where
  -- `fs_crc`, over the bytes that it reads.
  unfoldable pub fs_crc : ℕ → List ℕ → ℕ
  fs_crc crc [] = crc
  fs_crc crc (c ∷ s) = fs_crc (k.crc_update crc c) s

  -- The root node of a version in buffer 1, and its checksum.
  unfoldable pub new_root : ℕ → Flash → Flash
  new_root version f =
      let root = splice (df_buf_read df_buf1 0 40 f) 4 (bytes32 version) in
      let written = df_buf_write df_buf1 root 0 f in
      let crc = fs_crc 0 (df_buf_read df_buf1 0 fs_crc_offset written) in
      df_buf_write df_buf1 (crc ∷ []) fs_crc_offset written

  unfoldable pub fs_increment : Fs → Fs × Status
  fs_increment fs =
      let version = u32 (fs.version + 1) in
      let written = record fs { version = version; flash = new_root version fs.flash } in
      let (taken, page) = fs_new_page written in
      if page == none_ffff
      then (taken, fs_badpage)
      else (record taken { flash = df_buf_save df_buf1 page taken.flash; root = page }, fs_ok)

  -- The table of an inode with its entry assigned, in a new page; and the root node in buffer 1
  -- with the address of that page.
  unfoldable pub write_tables : ℕ → ℕ → ℕ → Fs → Fs
  write_tables inode page new_page fs =
      let node = if page == none_ffff then unused_inode k.junk else used_inode k.junk page in
      let table = df_buf_load df_buf1 (fs_inodetable fs (u8 (inode / 256))) fs.flash in
      let entered = df_buf_write df_buf1 node (fs_data_offset + inode % 256 * 2) table in
      let saved = df_buf_save df_buf1 new_page entered in
      let loaded = df_buf_load df_buf1 fs.root saved in
      let address =
        df_buf_write df_buf1 (bytes16 new_page) (inodetable_offset + inode / 256 * 2) loaded in
      record fs { flash = address }

  unfoldable pub fs_update_inodetable : ℕ → ℕ → Fs → Fs × Status
  fs_update_inodetable inode page fs =
      let (taken, new_page) = fs_new_page fs in
      let updated = fs_increment (write_tables inode page new_page taken) in
      if new_page == none_ffff then (taken, fs_badpage) else updated
