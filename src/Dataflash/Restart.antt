-- ===== src/Dataflash/Restart.antt =====
-- `fs_scan` (firmware/dataflash/fs.c) on a flash without a root node, and after a restart.
use matemat.Base.{ℕ, zero, suc, ◌+◌, ◌≡◌, refl, ◌&&◌, inl, inr, Bool-cases, length, ltb}
use matemat.Dataflash.{
  Fs, Env, df_buf_read, slice, df_pages, fs_ok, df_buf_load, df_flash_read, page_address,
}
use matemat.Dataflash.Root.{
  is_root, fs_format, scan_page, scan_from, fs_scan, crc_matches, root_version,
}
use matemat.Dataflash.Scan.{scanned-IsNewest, fs_scan-IsCurrent}
use matemat.Dataflash.Tables.{WholePages}
use matemat.Dataflash.Format.{NoRoots, formatted-IsCurrent}

module _ (k : Env) where
  -- The buffer that a scan loads pages into stays whole.
  abbrev Whole : Fs → Type 0
  Whole fs = ((p : ℕ) → length (fs.flash.memory p) ≡ 528) × (length fs.flash.buf1 ≡ 528)

  scan_page-Whole : (p : ℕ) (fs : Fs) → Whole fs → Whole (scan_page k p fs)
  unfolding scan_page df_buf_load df_buf_read df_flash_read
  scan_page-Whole p fs (pages, buffer) =
      let s = fs.flash.memory (page_address p) in
      elim (Bool-cases (is_root (slice s 0 40))) [
        | inr n ↦ rw n (pages, buffer)
        | inl y ↦
            elim (Bool-cases
              (crc_matches k (slice s 0 528) && ltb fs.version (root_version (slice s 0 40)))) [
                | inl newer ↦ rw (y, newer) (pages, pages (page_address p))
                | inr older ↦ rw (y, older) (pages, pages (page_address p))
              ]
      ]

  scan_from-Whole : (n p : ℕ) (fs : Fs) → Whole fs → Whole (scan_from k p n fs)
  unfolding scan_from
  scan_from-Whole zero p fs w = w
  scan_from-Whole (suc n) p fs w = scan_from-Whole n (p + 1) _ (scan_page-Whole p fs w)

  fs_format-root :
      (fs : Fs)
      → fs.version ≡ 0
      → let (fs', ret) = fs_format k fs in (ret ≡ fs_ok) × (fs'.root ≡ 0) × (fs'.version ≡ 1)
  unfolding fs_format
  fs_format-root fs z = (refl, refl, rw z refl)

  -- A flash without a valid root node, with all pages and buffer 1 528 bytes long, is formatted by
  -- a scan, and a scan after a restart finds the root node in page 0.
  pub fs_scan-formats :
      (fs s : Fs)
      → WholePages fs
      → length fs.flash.buf1 ≡ 528
      → NoRoots k fs.flash.memory
      → s.flash.memory ≡ (fs_scan k fs).0.flash.memory
      → let (fs', ret) = fs_scan k fs in
        let (s', ret') = fs_scan k s in
        ((ret ≡ fs_ok) × (fs'.root ≡ 0) × (fs'.version ≡ 1))
        × ((ret' ≡ fs_ok) × (s'.root ≡ 0) × (s'.version ≡ 1))
  fs_scan-formats fs s w l n e =
      let found = scan_from k 0 df_pages (record fs { version = 0 }) in
      let h = scanned-IsNewest k fs in
      let whole : Whole found = scan_from-Whole df_pages 0 (record fs { version = 0 }) (w, l) in
      let none_found : found.version ≡ 0 = elim h.here [
        | inl z ↦ z
        | inr (b, v, q) ↦ absurd (let o = n found.root b in cc (o, v))
      ] in
      let formats : fs_scan k fs ≡ fs_format k found = unfold fs_scan in rw none_found refl in
      let current = formatted-IsCurrent k found none_found whole.1 (rw h.memory n) in
      (
        rw formats (fs_format-root found none_found),
        fs_scan-IsCurrent k s 0 1 (rw (e, formats) current),
      )
