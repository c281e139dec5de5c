-- ===== src/Dataflash/Taking.antt =====
-- How `fs_write` (firmware/dataflash/fs.c) takes the page of a new file.
use matemat.Base.{
  ℕ, suc, ◌≤◌, ◌<◌, ◌≡◌, refl, ap, Bool, false, ◌==◌, ltb, if◌then◌else◌, arith, List, take, Option,
  some, Bool-cases, inl, inr,
}
use matemat.Dataflash.{
  Fs, Env, Status, fs_ok, fs_mem, fs_nosuchfile, fs_eof, fs_badpage, fs_badinode, fs_duplicate,
  fs_badseek, df_pages, none_ffff, fs_datasize,
}
use matemat.Dataflash.Layout.{FsPage}
use matemat.Dataflash.Pages.{fs_new_page}
use matemat.Dataflash.Inodes.{fs_update_inodetable}
use matemat.Dataflash.Files.{take_page, write_page, write_new}
use matemat.Dataflash.Allocation.{NewPage, taken, none_left, fs_new_page-NewPage}
use matemat.Dataflash.Tables.{WholePages, Updated, fs_update_inodetable-Updated}

-- A page for an inode that has been taken.
pub record Ready (k : Env) (inode : ℕ) (fs ready : Fs) (page : ℕ) : Type 0 where
  pub in_flash : page < df_pages
  pub updated : Updated k inode page (record fs { last_free = page }) ready

take_with :
    (k : Env) (inode : ℕ) (fs fs1 : Fs) (page : ℕ)
    → WholePages fs
    → inode < 4096
    → NewPage fs fs1 page
    → let r : Fs × Status × ℕ =
        let (updated, ret) = fs_update_inodetable k inode page fs1 in
        if page == none_ffff then (fs1, fs_badpage, page) else (updated, ret, page) in
      r.1 ≡ fs_ok → Ready k inode fs r.0 r.2
take_with k inode fs _ _ w i (taken page b u o) h =
    let some_page : (page == none_ffff) ≡ false = ground arith in
    let fs1 = record fs { last_free = page } in
    let ret = rw some_page at h in
    rw some_page (record {
      in_flash = b;
      updated =
          fs_update_inodetable-Updated k inode page fs1 _ w b i b
            (ap (λ (s : Status). ((fs_update_inodetable k inode page fs1).0, s)) ret);
    })
take_with k inode fs _ _ w i (none_left all) h = absurd (cc h)

pub take_page-Ready :
    (k : Env) (inode : ℕ) (fs : Fs)
    → WholePages fs
    → fs.last_free < df_pages
    → inode < 4096
    → (take_page k inode fs).1 ≡ fs_ok
    → Ready k inode fs (take_page k inode fs).0 (take_page k inode fs).2
unfolding take_page
take_page-Ready k inode fs w l i h = take_with k inode fs _ _ w i (fs_new_page-NewPage fs l) h

same_status :
    (ret : Status) (y fs' : Fs)
    → ◌≡◌ {A = Option (Fs × Status)} (some (y, ret)) (some (fs', fs_ok))
    → ret ≡ fs_ok
same_status ret y fs' h = let e : (y, ret) ≡ (fs', fs_ok) = cc h in ap (λ (x : Fs × Status). x.1) e

if_ok :
    (ret : Status) (x : Option (Fs × Status)) (y fs' : Fs)
    → ◌≡◌ {A = Option (Fs × Status)}
        (elim ret [ fs_ok ↦ x | other ↦ some (y, other) ])
        (some (fs', fs_ok))
    → (ret ≡ fs_ok) × (x ≡ some (fs', fs_ok))
if_ok fs_ok x y fs' h = (refl, h)
if_ok fs_mem x y fs' h = absurd (let e = same_status _ y fs' h in cc e)
if_ok fs_nosuchfile x y fs' h = absurd (let e = same_status _ y fs' h in cc e)
if_ok fs_eof x y fs' h = absurd (let e = same_status _ y fs' h in cc e)
if_ok fs_badpage x y fs' h = absurd (let e = same_status _ y fs' h in cc e)
if_ok fs_badinode x y fs' h = absurd (let e = same_status _ y fs' h in cc e)
if_ok fs_duplicate x y fs' h = absurd (let e = same_status _ y fs' h in cc e)
if_ok fs_badseek x y fs' h = absurd (let e = same_status _ y fs' h in cc e)

if_only :
    (ret : Status) (b : Bool) (x : Option (Fs × Status)) (y z fs' : Fs)
    → b ≡ false
    → ◌≡◌ {A = Option (Fs × Status)}
        (elim ret [ fs_ok ↦ if b then x else some (z, fs_ok) | other ↦ some (y, other) ])
        (some (fs', fs_ok))
    → (ret ≡ fs_ok) × (z ≡ fs')
if_only ret b x y z fs' n h =
    let r = if_ok ret (if b then x else some (z, fs_ok)) y fs' h in
    let e : some (z, fs_ok) ≡ some (fs', fs_ok) = rw n at r.1 in
    let p : (z, fs_ok) ≡ (fs', fs_ok) = cc e in (r.0, ap (λ (x : Fs × Status). x.0) p)

-- The structure of the only page of a file.
unfoldable pub only_page : FsPage → ℕ → FsPage
only_page page len = record page { eof = 1; root = 0; size = len }

pub write_new-only :
    (k : Env) (n : ℕ) (fs fs' : Fs) (inode : ℕ) (buf : List ℕ) (len : ℕ) (page : FsPage)
    → len ≤ fs_datasize
    → write_new k (suc n) fs inode buf len page ≡ some (fs', fs_ok)
    → let t = take_page k inode fs in
      (t.1 ≡ fs_ok) × (write_page k (only_page page len) (take len buf) 0 t.2 t.0 ≡ fs')
unfolding write_new only_page
write_new-only k n fs fs' inode buf len page l h =
    let small : ltb fs_datasize len ≡ false = ground arith in
    let t = take_page k inode fs in
    if_only t.1 (ltb fs_datasize len) _ t.0
      (write_page k (only_page page len) (take len buf) 0 t.2 t.0) fs' small h

pub take_page-page : (k : Env) (inode : ℕ) (fs : Fs) → (take_page k inode fs).2 ≡ (fs_new_page fs).1
unfolding take_page
take_page-page k inode fs = elim (Bool-cases ((fs_new_page fs).1 == none_ffff)) [
  | inl y ↦ rw y refl
  | inr n ↦ rw n refl
]
