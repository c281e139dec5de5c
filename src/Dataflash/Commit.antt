-- ===== src/Dataflash/Commit.antt =====
-- What `fs_increment` (firmware/dataflash/fs.c) leaves in the flash.
use matemat.Base.{
  ℕ, zero, suc, ◌+◌, ◌%◌, ◌≤◌, ◌<◌, ◌≡◌, refl, sym, ap, ◌∙◌, false, ◌==◌, arith, List, [], ◌∷◌,
  length, u32, Bool-cases, inl, inr,
}
use matemat.Dataflash.{
  Flash, Fs, Env, fs_ok, df_buf_read, df_buf_write, df_buf_save, slice, splice, program, df_pages,
  none_ffff,
}
use matemat.Dataflash.Layout.{bytes32}
use matemat.Dataflash.Pages.{fs_used, free_page, fs_new_page}
use matemat.Dataflash.Inodes.{fs_crc, new_root, fs_increment}
use matemat.Dataflash.Bytes.{
  length-splice, slice-splice_self, slice-splice_below, slice-splice_above, splice-splice_front,
}

-- The search for a free page reads buffer 2 and the last page taken only.
free_page-same :
    (n : ℕ) (fs fs' : Fs) (page : ℕ)
    → fs'.flash.buf2 ≡ fs.flash.buf2
    → fs'.last_free ≡ fs.last_free
    → free_page n fs' page ≡ free_page n fs page
unfolding free_page
free_page-same zero fs fs' page b l = refl
free_page-same (suc n) fs fs' page b l =
    let used : fs_used fs' page ≡ fs_used fs page = unfold fs_used df_buf_read in rw b in
    rw (free_page-same n fs fs' ((page + 1) % df_pages) b l, used, l)

searched :
    (fs : Fs) (page : ℕ)
    → (fs_new_page fs).1 ≡ page
    → page < df_pages
    → (free_page df_pages fs ((fs.last_free + 1) % df_pages) ≡ page)
      × ((page == fs.last_free) ≡ false)
unfolding fs_new_page
searched fs page h p =
    let r = free_page df_pages fs ((fs.last_free + 1) % df_pages) in
    elim (Bool-cases (r == fs.last_free)) [
      | inl y ↦ absurd (let g : none_ffff ≡ page = rw y at h in omega arith)
      | inr n ↦ (let g : r ≡ page = rw n at h in (g, rw (← g) n))
    ]

-- So a state with the same marks and the same last page takes the same page.
pub fs_new_page-same :
    (fs fs' : Fs) (page : ℕ)
    → fs'.flash.buf2 ≡ fs.flash.buf2
    → fs'.last_free ≡ fs.last_free
    → (fs_new_page fs).1 ≡ page
    → page < df_pages
    → fs_new_page fs' ≡ (record fs' { last_free = page }, page)
unfolding fs_new_page
fs_new_page-same fs fs' page b l h p =
    let first = (fs.last_free + 1) % df_pages in
    let s = searched fs page h p in
    let begin : (fs'.last_free + 1) % df_pages ≡ first = ap (λ (x : ℕ). (x + 1) % df_pages) l in
    let e : free_page df_pages fs' ((fs'.last_free + 1) % df_pages) ≡ page =
      ap (free_page df_pages fs') begin ∙ free_page-same df_pages fs fs' first b l ∙ s.0 in
    let other : (page == fs'.last_free) ≡ false = ap (λ (x : ℕ). page == x) l ∙ s.1 in rw (e, other)

pub new_root-keeps :
    (k : Env) (v : ℕ) (f : Flash)
    → ((new_root k v f).buf2 ≡ f.buf2) × ((new_root k v f).memory ≡ f.memory)
unfolding new_root df_buf_write
new_root-keeps k v f = (refl, refl)

-- The new root node, with the checksum over the rest.
pub record IsRootOf (k : Env) (v : ℕ) (old new : List ℕ) : Type 0 where
  pub size : length new ≡ 528
  pub head : slice new 0 4 ≡ slice old 0 4
  pub version : slice new 4 4 ≡ bytes32 v
  pub rest : (i n : ℕ) → 8 ≤ i → i + n ≤ 527 → slice new i n ≡ slice old i n
  pub crc : slice new 527 1 ≡ fs_crc k 0 (slice new 0 527) ∷ []

pub new_root-IsRootOf :
    (k : Env) (v : ℕ) (f : Flash) → length f.buf1 ≡ 528 → IsRootOf k v f.buf1 (new_root k v f).buf1
unfolding new_root df_buf_write df_buf_read
new_root-IsRootOf k v f l =
    let s = f.buf1 in
    let w = bytes32 v in
    let s1 = splice s 4 w in
    let front : splice s 0 (splice (slice s 0 40) 4 w) ≡ s1 =
      splice-splice_front s 40 4 w (omega arith) (omega arith) in
    let l1 : length s1 ≡ 528 = length-splice s 4 w (omega arith) ∙ l in
    let crc = fs_crc k 0 (slice s1 0 527) ∷ [] in
    let below = λ (i n : ℕ) (h : i + n ≤ 527). slice-splice_below s1 527 crc i n h (omega arith) in
    rw front (record {
      size = length-splice s1 527 crc (omega arith) ∙ l1;
      head = below 0 4 (omega arith) ∙ slice-splice_below s 4 w 0 4 (omega arith) (omega arith);
      version = below 4 4 (omega arith) ∙ slice-splice_self s 4 w (omega arith);
      rest = λ i n h e. below i n e ∙ slice-splice_above s 4 w i n h (omega arith);
      crc =
          slice-splice_self s1 527 crc (omega arith)
          ∙ ap (λ (x : List ℕ). fs_crc k 0 x ∷ []) (sym (below 0 527 (omega arith)));
    })

-- A commit that finds a free page: the version goes up, and the page with the new root node is the
-- root.
unfoldable pub committed : Env → Fs → ℕ → Fs
committed k fs page =
    let f = new_root k (u32 (fs.version + 1)) fs.flash in
    record {
      flash = record f { memory = program page f.buf1 f.memory };
      root = page;
      version = u32 (fs.version + 1);
      last_free = page;
    }

pub fs_increment-committed :
    (k : Env) (fs : Fs) (page : ℕ)
    → (fs_new_page fs).1 ≡ page
    → page < df_pages
    → fs_increment k fs ≡ (committed k fs page, fs_ok)
unfolding fs_increment committed df_buf_save
fs_increment-committed k fs page h p =
    let v = u32 (fs.version + 1) in
    let written = record fs { version = v; flash = new_root k v fs.flash } in
    let e = fs_new_page-same fs written page (new_root-keeps k v fs.flash).0 refl h p in
    let some_page : (page == none_ffff) ≡ false = ground arith in rw (e, some_page)
