-- ===== src/Dataflash/Files.antt =====
-- The contents of files in firmware/dataflash/fs.c: pages that are linked by their inodes.
-- A loop that follows the links has fuel, since nothing in the pages rules a cycle out.
use matemat.Base.{
  ℕ, zero, suc, ◌+◌, ◌-◌, ◌%◌, ◌||◌, Option, none, some, List, ltb, leb, ◌==◌, if◌then◌else◌, take,
}
use matemat.Base.Int.{ℤ, pos, negsuc}
use matemat.Dataflash.{
  Fs, Env, Status, fs_ok, fs_badpage, fs_badinode, fs_badseek, df_buf1, df_buf_load, df_buf_read,
  df_buf_write, df_buf_save, df_flash_read, splice, none_ffff, fs_data_offset, fs_datasize,
}
use matemat.Dataflash.Layout.{FsPage, fs_page_of, fs_page_bytes}
use matemat.Dataflash.Pages.{fs_new_page}
use matemat.Dataflash.Inodes.{fs_page, fs_new_inode, fs_update_inodetable}

unfoldable pub page_struct : Fs → ℕ → FsPage
page_struct fs pagenum = fs_page_of (df_flash_read pagenum 0 4 fs.flash)

-- The data of a page, from an offset on.
unfoldable pub page_bytes : Fs → ℕ → ℕ → ℕ → List ℕ
page_bytes fs pagenum offset n = df_flash_read pagenum (fs_data_offset + offset) n fs.flash

-- The loop of `fs_size`.
unfoldable pub size_from : ℕ → Fs → ℕ → ℕ → Option ℕ
size_from zero fs inode size = none
size_from (suc n) fs inode size =
    let pagenum = fs_page fs inode in
    let page = page_struct fs pagenum in
    let rest = size_from n fs page.next_inode (size + page.size) in
    if pagenum == none_ffff then some 0 else if page.eof == 1 then some (size + page.size) else rest

unfoldable pub fs_size : ℕ → Fs → ℕ → Option ℕ
fs_size fuel fs inode = size_from fuel fs inode 0

-- Where `fs_read` and `fs_write` get to: a page and the offset in it, or the result they return.
pub data Seek (A : Type 0) : Type 0 where
  returns : A → Seek A
  found : ℕ → ℕ → ℕ → Seek A

-- The loop of `fs_read` that seeks the offset.
unfoldable pub read_seek : ℕ → Fs → ℕ → ℕ → Option (Seek ℤ)
read_seek zero fs pagenum offset = none
read_seek (suc n) fs pagenum offset =
    let page = page_struct fs pagenum in
    let next = fs_page fs page.next_inode in
    let rest = read_seek n fs next (offset - fs_datasize) in
    if ltb offset fs_datasize
    then some (found 0 pagenum offset)
    else if page.eof == 1
    then some (returns (pos 0))
    else if next == none_ffff
    then some (returns (negsuc 0))
    else rest

-- The loop of `fs_read` that reads, with the caller's buffer and the index of `b` in it.
unfoldable pub read_pages : ℕ → Fs → ℕ → ℕ → ℕ → ℕ → List ℕ → Option (ℤ × List ℕ)
read_pages zero fs pagenum offset len b buf = none
read_pages (suc n) fs pagenum offset len b buf =
    let page = page_struct fs pagenum in
    let next = fs_page fs page.next_inode in
    let to_end = page.size - offset in
    let normal = splice buf b (page_bytes fs pagenum offset (fs_datasize - offset)) in
    let rest = read_pages n fs next 0 (len - to_end) (b + to_end) normal in
    if leb (len + offset) page.size
    then some (pos (b + len), splice buf b (page_bytes fs pagenum offset (len + offset)))
    else if page.eof == 1
    then some (pos (b + to_end), splice buf b (page_bytes fs pagenum offset to_end))
    else if next == none_ffff
    then some (negsuc 0, normal)
    else rest

unfoldable pub fs_read : ℕ → Fs → ℕ → List ℕ → ℕ → ℕ → Option (ℤ × List ℕ)
fs_read fuel fs inode buf offset len =
    let pagenum = fs_page fs inode in
    let sought = read_seek fuel fs pagenum offset in
    if pagenum == none_ffff then some (pos 0, buf) else elim sought [
      | none ↦ none
      | some (returns r) ↦ some (r, buf)
      | some (found _ at left) ↦
          if leb (page_struct fs at).size left
          then some (pos 0, buf)
          else read_pages fuel fs at left len 0 buf
    ]

-- The loop of `fs_write` that seeks the offset, with the inode it gets to.
unfoldable pub write_seek : ℕ → Fs → ℕ → ℕ → ℕ → Option (Seek Status)
write_seek zero fs inode pagenum offset = none
write_seek (suc n) fs inode pagenum offset =
    let page = page_struct fs pagenum in
    let rest =
      write_seek n fs page.next_inode (fs_page fs page.next_inode) (offset - fs_datasize) in
    if leb offset fs_datasize
    then some (found inode pagenum offset)
    else if page.eof == 1
    then some (returns fs_badseek)
    else rest

module _ (k : Env) where
  -- A new page for an inode, as both branches of `fs_write` begin a round: the page or the error.
  unfoldable pub take_page : ℕ → Fs → Fs × Status × ℕ
  take_page inode fs =
      let (taken, pagenum) = fs_new_page fs in
      let (updated, ret) = fs_update_inodetable k inode pagenum taken in
      if pagenum == none_ffff then (taken, fs_badpage, pagenum) else (updated, ret, pagenum)

  -- The page of a structure and data over what is in buffer 1, programmed.
  unfoldable pub write_page : FsPage → List ℕ → ℕ → ℕ → Fs → Fs
  write_page page bytes offset pagenum fs =
      let structured = df_buf_write df_buf1 (fs_page_bytes page) 0 fs.flash in
      let written = df_buf_write df_buf1 bytes (fs_data_offset + offset) structured in
      record fs { flash = df_buf_save df_buf1 pagenum written }

  -- The loop of `fs_write` for an inode without a page. `buf` is where the caller's data begins.
  unfoldable pub write_new : ℕ → Fs → ℕ → List ℕ → ℕ → FsPage → Option (Fs × Status)
  write_new zero fs inode buf len page = none
  write_new (suc n) fs inode buf len page =
      let (ready, ret, pagenum) = take_page inode fs in
      let next = fs_new_inode ready % 4096 in
      let linked = record page { eof = 0; root = 0; next_inode = next; size = fs_datasize } in
      let rest =
        write_new n (write_page linked (take fs_datasize buf) 0 pagenum ready) next buf
          (len - fs_datasize) linked in
      let last = record page { eof = 1; root = 0; size = len } in
      elim ret [
        | fs_ok ↦
            if ltb fs_datasize len
            then if next == none_ffff then some (ready, fs_badinode) else rest
            else some (write_page last (take len buf) 0 pagenum ready, fs_ok)
        | other ↦ some (ready, other)
      ]

  -- The loop of `fs_write` over the pages of a file.
  unfoldable pub write_old : ℕ → Fs → ℕ → ℕ → ℕ → List ℕ → ℕ → ℕ → Option (Fs × Status)
  write_old zero fs inode old_pagenum offset buf len eof = none
  write_old (suc n) fs inode old_pagenum offset buf len eof =
      let (ready, ret, pagenum) = take_page inode fs in
      let loaded = record ready { flash = df_buf_load df_buf1 old_pagenum ready.flash } in
      let page = fs_page_of (df_buf_read df_buf1 0 4 loaded.flash) in
      let old_next = if page.eof == 1 then old_pagenum else fs_page loaded page.next_inode in
      let next = fs_new_inode loaded % 4096 in
      let linked = record page {
        unused = 0;
        eof = 0;
        root = 0;
        size = fs_datasize;
        next_inode = next;
      } in
      let part = fs_datasize - offset in
      let rest =
        write_old n (write_page linked (take part buf) offset pagenum loaded) next old_next 0 buf
          (len - part) (if page.eof == 1 then 1 else eof) in
      let last = record page {
        unused = 0;
        eof = if eof == 1 then 1 else page.eof;
        root = 0;
        size = if eof == 1 || ltb page.size (len + offset) then len + offset else page.size;
      } in
      elim ret [
        | fs_ok ↦
            if ltb fs_datasize (len + offset)
            then if next == none_ffff then some (loaded, fs_badinode) else rest
            else some (write_page last (take len buf) offset pagenum loaded, fs_ok)
        | other ↦ some (ready, other)
      ]

  unfoldable pub fs_write : ℕ → Fs → ℕ → List ℕ → ℕ → ℕ → Option (Fs × Status)
  fs_write fuel fs inode buf offset len =
      let pagenum = fs_page fs inode in
      let sought = write_seek fuel fs inode pagenum offset in
      let fresh = record (fs_page_of k.junk) { unused = 0; root = 0 } in
      let created = write_new fuel fs inode buf len fresh in
      if pagenum == none_ffff
      then if offset == 0 then created else some (fs, fs_badseek)
      else elim sought [
        | none ↦ none
        | some (returns ret) ↦ some (fs, ret)
        | some (found at old left) ↦ write_old fuel fs at old left buf len 0
      ]
