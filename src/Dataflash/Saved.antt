-- ===== src/Dataflash/Saved.antt =====
-- What a run of `fs_increment` (firmware/dataflash/fs.c) that succeeds has done.
use matemat.Base.{ℕ, ◌+◌, ◌<◌, ◌≡◌, ◌≢◌, refl, ap, false, ◌==◌, if◌then◌else◌, arith, u32}
use matemat.Dataflash.{
  Fs, Env, Status, fs_ok, fs_badpage, df_buf1, df_buf_save, df_buf_read, program, df_pages,
  none_ffff,
}
use matemat.Dataflash.Pages.{fs_used}
use matemat.Dataflash.Inodes.{new_root, fs_increment}
use matemat.Dataflash.Allocation.{NewPage, taken, none_left, fs_new_page-NewPage}
use matemat.Dataflash.Commit.{new_root-keeps}

-- A commit that succeeds has programmed a free page.
pub record Committed (k : Env) (fs fs' : Fs) : Type 0 where
  pub in_flash : fs'.root < df_pages
  pub unused : fs_used fs fs'.root ≡ false
  pub memory :
      fs'.flash.memory
      ≡ program fs'.root (new_root k (u32 (fs.version + 1)) fs.flash).buf1 fs.flash.memory
  pub last_free : fs'.last_free ≡ fs'.root
  pub fresh : fs'.root ≢ fs.last_free
  pub buffer : fs'.flash.buf1 ≡ (new_root k (u32 (fs.version + 1)) fs.flash).buf1
  pub marks : fs'.flash.buf2 ≡ fs.flash.buf2

finished :
    (k : Env) (fs fs' fs1 : Fs) (page : ℕ)
    → let v = u32 (fs.version + 1) in
      let written = record fs { version = v; flash = new_root k v fs.flash } in
      NewPage written fs1 page
      → ◌≡◌ {A = Fs × Status}
          (if page == none_ffff
            then (fs1, fs_badpage)
            else (record fs1 { flash = df_buf_save df_buf1 page fs1.flash; root = page }, fs_ok))
          (fs', fs_ok)
      → Committed k fs fs'
unfolding df_buf_save fs_used df_buf_read
finished k fs fs' _ _ (taken page b u o) h =
    let some_page : (page == none_ffff) ≡ false = ground arith in
    let e = ap (λ (x : Fs × Status). x.0) (rw some_page at h) in
    let keeps = new_root-keeps k (u32 (fs.version + 1)) fs.flash in
    let f = new_root k (u32 (fs.version + 1)) fs.flash in
    rw (← e) (record {
      in_flash = b;
      unused = rw keeps.0 at u;
      memory = ap (program page f.buf1) keeps.1;
      last_free = refl;
      fresh = o;
      buffer = refl;
      marks = keeps.0;
    })
finished k fs fs' _ _ (none_left all) h =
    absurd (let g : fs_badpage ≡ fs_ok = ap (λ (x : Fs × Status). x.1) h in cc g)

pub fs_increment-Committed :
    (k : Env) (fs fs' : Fs)
    → fs.last_free < df_pages
    → fs_increment k fs ≡ (fs', fs_ok)
    → Committed k fs fs'
unfolding fs_increment
fs_increment-Committed k fs fs' l h =
    let v = u32 (fs.version + 1) in
    let written = record fs { version = v; flash = new_root k v fs.flash } in
    finished k fs fs' _ _ (fs_new_page-NewPage written l) h
