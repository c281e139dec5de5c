-- ===== src/Dataflash/Tables.antt =====
-- Where `fs_update_inodetable` (firmware/dataflash/fs.c) puts an inode's page.
use matemat.Base.{
  ℕ, ◌+◌, ◌*◌, ◌/◌, ◌%◌, ◌<◌, ◌≡◌, ◌≢◌, refl, sym, ap, ◌∙◌, false, inl, inr, ◌==◌, Bool-cases,
  if◌then◌else◌, arith, List, length, u8, u32,
}
use matemat.Dataflash.{
  Fs, Env, Status, fs_ok, fs_badpage, df_buf_write, df_buf_save, df_buf_load, slice, splice,
  program, df_pages, none_ffff, page_address, inodetable_offset, fs_data_offset,
}
use matemat.Dataflash.Layout.{bytes16, used_inode}
use matemat.Dataflash.Inodes.{
  new_root, fs_increment, fs_inodetable, write_tables, fs_update_inodetable,
}
use matemat.Dataflash.Bytes.{length-splice, slice-splice_self, program-same, program-other}
use matemat.Dataflash.Allocation.{NewPage, taken, none_left, fs_new_page-NewPage}
use matemat.Dataflash.Commit.{new_root-IsRootOf}
use matemat.Dataflash.Saved.{Committed, fs_increment-Committed}

-- Every page of the flash is 528 bytes long.
abbrev pub WholePages : Fs → Type 0
WholePages fs = (p : ℕ) → length (fs.flash.memory p) ≡ 528

length-program :
    (page : ℕ) (bytes : List ℕ) (m : ℕ → List ℕ) (p : ℕ)
    → length bytes ≡ 528
    → length (m p) ≡ 528
    → length (program page bytes m p) ≡ 528
unfolding program
length-program page bytes m p b l = elim (Bool-cases (p == page_address page)) [
  | inl y ↦ rw y b
  | inr n ↦ rw n l
]

module _ (k : Env) (inode page new_page : ℕ) (fs : Fs) where
  -- The table and the root node before the commit.
  record Tables (w : Fs) : Type 0 where
    entry :
        slice (w.flash.memory new_page) (fs_data_offset + inode % 256 * 2) 2
        ≡ used_inode k.junk page
    address : slice w.flash.buf1 (inodetable_offset + inode / 256 * 2) 2 ≡ bytes16 new_page
    size : length w.flash.buf1 ≡ 528
    last_free : w.last_free ≡ fs.last_free

  write_tables-Tables :
      WholePages fs
      → inode < 4096
      → page < df_pages
      → new_page < df_pages
      → Tables (write_tables k inode page new_page fs)
  unfolding write_tables df_buf_load df_buf_write df_buf_save used_inode
  write_tables-Tables l i b c =
      let some_page : (page == none_ffff) ≡ false = ground arith in
      let m = fs.flash.memory in
      let old = m (page_address (fs_inodetable fs (u8 (inode / 256)))) in
      let old_size : length old ≡ 528 = l _ in
      let node = used_inode k.junk page in
      let at = fs_data_offset + inode % 256 * 2 in
      let table = splice old at node in
      let table_size : length table ≡ 528 = length-splice old at node (omega arith) ∙ old_size in
      let saved = program new_page table m in
      let root = saved (page_address fs.root) in
      let root_size : length root ≡ 528 = length-program new_page table m _ table_size (l _) in
      let slot = inodetable_offset + inode / 256 * 2 in
      rw some_page (record {
        entry =
            ap (λ (s : List ℕ). slice s at 2) (program-same new_page table m c)
            ∙ slice-splice_self old at node (omega arith);
        address = slice-splice_self root slot (bytes16 new_page) (omega arith);
        size = length-splice root slot (bytes16 new_page) (omega arith) ∙ root_size;
        last_free = refl;
      })

-- The table and the root node in the flash.
pub record Updated (k : Env) (inode page : ℕ) (fs ready : Fs) : Type 0 where
  pub in_flash : ready.root < df_pages
  pub size : length ready.flash.buf1 ≡ 528
  pub table : ℕ
  pub table_in_flash : table < df_pages
  pub fresh : table ≢ fs.last_free
  pub address :
      slice (ready.flash.memory ready.root) (inodetable_offset + inode / 256 * 2) 2 ≡ bytes16 table
  pub entry :
      slice (ready.flash.memory table) (fs_data_offset + inode % 256 * 2) 2 ≡ used_inode k.junk page

committed-Updated :
    (k : Env) (inode page new_page : ℕ) (fs fs1 w ready : Fs)
    → inode < 4096
    → new_page < df_pages
    → new_page ≢ fs.last_free
    → fs1.last_free ≡ new_page
    → Tables k inode page new_page fs1 w
    → Committed k w ready
    → Updated k inode page fs ready
committed-Updated k inode page new_page fs fs1 w ready i b o l t c =
    let v = u32 (w.version + 1) in
    let r = new_root-IsRootOf k v w.flash t.size in
    let new = (new_root k v w.flash).buf1 in
    let slot = inodetable_offset + inode / 256 * 2 in
    let fresh = c.fresh in
    let last = t.last_free in
    let root : ready.flash.memory ready.root ≡ new =
      ap (λ (m : ℕ → List ℕ). m ready.root) c.memory
      ∙ program-same ready.root new w.flash.memory c.in_flash in
    let table : ready.flash.memory new_page ≡ w.flash.memory new_page =
      ap (λ (m : ℕ → List ℕ). m new_page) c.memory
      ∙ program-other ready.root new w.flash.memory new_page c.in_flash
          (λ e. fresh (sym e ∙ sym l ∙ sym last)) in
    record {
      in_flash = c.in_flash;
      size = ap (λ (s : List ℕ). length s) c.buffer ∙ r.size;
      table = new_page;
      table_in_flash = b;
      fresh = o;
      address =
          ap (λ (s : List ℕ). slice s slot 2) root
          ∙ r.rest slot 2 (omega arith) (omega arith)
          ∙ t.address;
      entry = ap (λ (s : List ℕ). slice s (fs_data_offset + inode % 256 * 2) 2) table ∙ t.entry;
    }

table_done :
    (k : Env) (inode page : ℕ) (fs ready fs1 : Fs) (new_page : ℕ)
    → WholePages fs
    → inode < 4096
    → page < df_pages
    → NewPage fs fs1 new_page
    → ◌≡◌ {A = Fs × Status}
        (if new_page == none_ffff
          then (fs1, fs_badpage)
          else fs_increment k (write_tables k inode page new_page fs1))
        (ready, fs_ok)
    → Updated k inode page fs ready
table_done k inode page fs ready _ _ l i b (taken new_page c u o) h =
    let some_page : (new_page == none_ffff) ≡ false = ground arith in
    let fs1 = record fs { last_free = new_page } in
    let t = write_tables-Tables k inode page new_page fs1 l i b c in
    let w = write_tables k inode page new_page fs1 in
    committed-Updated k inode page new_page fs fs1 w ready i c o refl t
      (fs_increment-Committed k w ready (omega (arith, t.last_free)) (rw some_page at h))
table_done k inode page fs ready _ _ l i b (none_left all) h =
    absurd (let g : fs_badpage ≡ fs_ok = ap (λ (x : Fs × Status). x.1) h in cc g)

pub fs_update_inodetable-Updated :
    (k : Env) (inode page : ℕ) (fs ready : Fs)
    → WholePages fs
    → fs.last_free < df_pages
    → inode < 4096
    → page < df_pages
    → fs_update_inodetable k inode page fs ≡ (ready, fs_ok)
    → Updated k inode page fs ready
unfolding fs_update_inodetable
fs_update_inodetable-Updated k inode page fs ready w l i b h =
    table_done k inode page fs ready _ _ w i b (fs_new_page-NewPage fs l) h
