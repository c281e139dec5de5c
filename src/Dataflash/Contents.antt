-- ===== src/Dataflash/Contents.antt =====
-- What `fs_read` returns of what `fs_write` wrote (firmware/dataflash/fs.c), for a file of one page.
use matemat.Base.{
  [], ℕ, suc, ◌+◌, ◌/◌, ◌≤◌, ◌<◌, ◌≡◌, ◌≢◌, refl, sym, ap, ◌∙◌, true, false, ◌==◌, leb, arith, List,
  length, take, some, u8, ◌∷◌,
}
use matemat.Base.Int.{pos}
use matemat.Dataflash.{
  Fs, Env, fs_ok, df_buf_write, df_buf_save, df_flash_read, slice, splice, program, df_pages,
  none_ffff, page_address, fs_datasize,
}
use matemat.Dataflash.Layout.{
  FsPage, fs_page_of, fs_page_bytes, word16, bytes16, used_inode, inode_unused, inode_page,
}
use matemat.Dataflash.Pages.{fs_new_page}
use matemat.Dataflash.Inodes.{fs_page, fs_inodetable, inode_entry}
use matemat.Dataflash.Files.{
  page_struct, page_bytes, read_seek, read_pages, fs_read, take_page, write_page, fs_write,
}
use matemat.Dataflash.Bytes.{
  length-splice, slice-splice_self, slice-splice_below, program-same, program-other,
}
use matemat.Dataflash.Tables.{WholePages, Updated}
use matemat.Dataflash.Taking.{Ready, take_page-Ready, only_page, write_new-only, take_page-page}

-- The file in the flash, once the page that was taken for its data has been programmed.
record Written (k : Env) (inode page : ℕ) (buf : List ℕ) (fs' : Fs) : Type 0 where
  some_page : page < df_pages
  found : fs_page fs' inode ≡ page
  size : (page_struct fs' page).size ≡ length buf
  data_bytes : page_bytes fs' page 0 (length buf) ≡ buf

Written-fs_read :
    (k : Env) (n inode page : ℕ) (buf old : List ℕ) (fs' : Fs)
    → 0 < length buf
    → Written k inode page buf fs'
    → fs_read (suc n) fs' inode old 0 (length buf) ≡ some (pos (length buf), splice old 0 buf)
unfolding fs_read read_seek read_pages
Written-fs_read k n inode page buf old fs' l w =
    let there : (page == none_ffff) ≡ false = ground (arith, w.some_page) in
    let more : leb (page_struct fs' page).size 0 ≡ false = ground (arith, w.size) in
    let e : length buf + 0 ≡ length buf = omega arith in
    let z : 0 + length buf ≡ length buf = omega arith in
    let whole : leb (length buf) (page_struct fs' page).size ≡ true = ground (arith, w.size) in
    rw (w.found, there, more, e, whole, z, w.data_bytes) refl

length-fs_page_bytes : (page : FsPage) → length (fs_page_bytes page) ≡ 4
unfolding fs_page_bytes
length-fs_page_bytes page = refl

only_page-size :
    (page : FsPage) (len : ℕ)
    → len ≤ fs_datasize
    → (fs_page_of (fs_page_bytes (only_page page len))).size ≡ len
unfolding fs_page_of fs_page_bytes only_page
only_page-size page len h = omega arith

-- The page of the data.
data_page :
    (k : Env) (page : FsPage) (buf : List ℕ) (pagenum : ℕ) (ready : Fs)
    → length ready.flash.buf1 ≡ 528
    → length buf ≤ fs_datasize
    → pagenum < df_pages
    → let fs' = write_page k (only_page page (length buf)) buf 0 pagenum ready in
      ((page_struct fs' pagenum).size ≡ length buf) × (page_bytes fs' pagenum 0 (length buf) ≡ buf)
unfolding write_page df_buf_write df_buf_save page_struct page_bytes df_flash_read
data_page k page buf pagenum ready l b p =
    let head = fs_page_bytes (only_page page (length buf)) in
    let s1 = splice ready.flash.buf1 0 head in
    let s2 = splice s1 15 buf in
    let m = ready.flash.memory in
    let four : length head ≡ 4 = length-fs_page_bytes (only_page page (length buf)) in
    let l1 : length s1 ≡ 528 = length-splice ready.flash.buf1 0 head (omega arith) ∙ l in
    let front : slice s2 0 4 ≡ head =
      slice-splice_below s1 15 buf 0 4 (omega arith) (omega arith)
      ∙ ap (slice s1 0) (sym four)
      ∙ slice-splice_self ready.flash.buf1 0 head (omega arith) in
    let e : page_address pagenum ≡ pagenum = omega arith in
    let at : program pagenum s2 m pagenum ≡ s2 = program-same pagenum s2 m p in
    rw (e, at)
      (rw front (only_page-size page (length buf) b), slice-splice_self s1 15 buf (omega arith))

-- The inode's page is found in the table that the new root node points to.
found_page :
    (k : Env) (inode pagenum : ℕ) (bytes : List ℕ) (fs ready fs' : Fs)
    → inode < 4096
    → pagenum < df_pages
    → pagenum ≢ ready.root
    → Updated k inode pagenum (record fs { last_free = pagenum }) ready
    → fs'.root ≡ ready.root
    → fs'.flash.memory ≡ program pagenum bytes ready.flash.memory
    → fs_page fs' inode ≡ pagenum
unfolding fs_page fs_inodetable inode_entry df_flash_read used_inode
found_page k inode pagenum bytes fs ready fs' i p o u same now =
    let m = ready.flash.memory in
    let part : u8 (inode / 256) ≡ inode / 256 = omega arith in
    let root : page_address ready.root ≡ ready.root = omega (arith, u.in_flash) in
    let in_root = program-other pagenum bytes m ready.root p (λ e. o (sym e)) in
    let address : word16 (bytes16 u.table) ≡ u.table = omega (arith, u.table_in_flash) in
    let table : page_address u.table ≡ u.table = omega (arith, u.table_in_flash) in
    let in_table = program-other pagenum bytes m u.table p u.fresh in
    let used : inode_unused (used_inode k.junk pagenum) ≡ 0 = omega arith in
    let is : inode_page (used_inode k.junk pagenum) ≡ pagenum = omega arith in
    rw (now, same, part, root, in_root, u.address, address, table, in_table, u.entry, used) is

take_all : (s : List ℕ) → take (length s) s ≡ s
take_all [] = refl
take_all (x ∷ s) = ap (λ t. x ∷ t) (take_all s)

Ready-Written :
    (k : Env) (inode pagenum : ℕ) (page : FsPage) (buf : List ℕ) (fs ready : Fs)
    → length buf ≤ fs_datasize
    → inode < 4096
    → pagenum ≢ ready.root
    → Ready k inode fs ready pagenum
    → Written k inode pagenum buf (write_page k (only_page page (length buf)) buf 0 pagenum ready)
Ready-Written k inode pagenum page buf fs ready l i o r =
    let d = data_page k page buf pagenum ready r.updated.size l r.in_flash in
    record {
      some_page = r.in_flash;
      found =
          unfold write_page df_buf_write df_buf_save in
          found_page k inode pagenum _ fs ready _ i r.in_flash o r.updated refl refl;
      size = d.0;
      data_bytes = d.1;
    }

-- What `fs_write` writes to a file without a page, at least one byte and no more than one page
-- holds, `fs_read` returns. All pages are 528 bytes long, the last page taken is in the flash, and
-- the inode has twelve bits: if the write succeeds and the new root node is not in the page that it
-- took for the data, the read returns the number of bytes and puts the bytes into the caller's
-- buffer, and nothing else.
pub fs_write-fs_read :
    (k : Env) (fs fs' : Fs) (inode : ℕ) (buf old : List ℕ) (n m : ℕ)
    → WholePages fs
    → fs.last_free < df_pages
    → inode < 4096
    → fs_page fs inode ≡ none_ffff
    → 0 < length buf
    → length buf ≤ fs_datasize
    → fs_write k (suc n) fs inode buf 0 (length buf) ≡ some (fs', fs_ok)
    → (fs_new_page fs).1 ≢ fs'.root
    → fs_read (suc m) fs' inode old 0 (length buf) ≡ some (pos (length buf), splice old 0 buf)
unfolding fs_write
fs_write-fs_read k fs fs' inode buf old n m w l i e a b h o =
    let t = take_page k inode fs in
    let fresh = record (fs_page_of k.junk) { unused = 0; root = 0 } in
    let written = write_new-only k n fs fs' inode buf (length buf) fresh b (rw e at h) in
    let ready = take_page-Ready k inode fs w l i written.0 in
    let done : write_page k (only_page fresh (length buf)) buf 0 t.2 t.0 ≡ fs' =
      rw (take_all buf) at written.1 in
    let same = take_page-page k inode fs in
    let other : t.2 ≢ (t.0).root =
      unfold write_page in λ c. o (sym same ∙ c ∙ ap (λ (x : Fs). x.root) done) in
    Written-fs_read k m inode t.2 buf old fs' a
      (rw done at (Ready-Written k inode t.2 fresh buf fs t.0 b i other ready))
