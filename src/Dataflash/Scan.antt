-- ===== src/Dataflash/Scan.antt =====
-- Which root node `fs_scan` (firmware/dataflash/fs.c) finds.
use matemat.Base.{
  ℕ, zero, suc, ◌+◌, ◌≤◌, ◌<◌, ◌≡◌, ◌≢◌, refl, sym, ap, ◌∙◌, Bool, true, ◌&&◌, ◌⊎◌, inl, inr, ◌==◌,
  ==_iff, ltb, leb, ltb→lt, Bool-cases, if◌then◌else◌, arith, List,
}
use matemat.Dataflash.{
  Fs, Env, fs_ok, df_buf_load, df_buf_read, df_flash_read, slice, df_pages, page_address,
}
use matemat.Dataflash.Root.{is_root, root_version, crc_matches, scan_page, scan_from, fs_scan}

-- The version of a page that is taken for a root node.
abbrev pub page_version : List ℕ → ℕ
page_version s = root_version (slice s 0 40)

module _ (k : Env) where
  -- A used root node with the right checksum.
  unfoldable pub is_valid_root : List ℕ → Bool
  is_valid_root s = is_root (slice s 0 40) && crc_matches k (slice s 0 528)

  -- After a scan of the first `n` pages.
  pub record IsNewest (m : ℕ → List ℕ) (n : ℕ) (fs : Fs) : Type 0 where
    pub memory : fs.flash.memory ≡ m
    pub newest : (p : ℕ) → p < n → is_valid_root (m p) ≡ true → page_version (m p) ≤ fs.version
    pub here :
        (fs.version ≡ 0)
        ⊎ (fs.root < n
            × (is_valid_root (m fs.root) ≡ true)
            × (page_version (m fs.root) ≡ fs.version))

  -- The page is newer than what was found before, or what was found stays.
  scan_page-cases :
      (p : ℕ) (fs : Fs)
      → p < df_pages
      → let s = fs.flash.memory p in
        let fs' = scan_page k p fs in
        (fs'.flash.memory ≡ fs.flash.memory)
        × (fs'.version ≡ (
            if is_valid_root s && ltb fs.version (page_version s)
            then page_version s
            else fs.version))
        × (fs'.root ≡ (if is_valid_root s && ltb fs.version (page_version s) then p else fs.root))
  unfolding scan_page is_valid_root df_flash_read df_buf_load df_buf_read
  scan_page-cases p fs b =
      let e : page_address p ≡ p = omega arith in
      let s = fs.flash.memory p in
      elim (Bool-cases (is_root (slice s 0 40))) [
        | inr no_root ↦ rw (e, no_root) (refl, refl, refl)
        | inl root ↦
            elim (Bool-cases (crc_matches k (slice s 0 528) && ltb fs.version (page_version s))) [
              | inl newer ↦ rw (e, root, newer) (refl, refl, refl)
              | inr older ↦ rw (e, root, older) (refl, refl, refl)
            ]
      ]

  -- What a page that is newer, and one that is not, make of the state.
  data Passed (m : ℕ → List ℕ) (p : ℕ) (fs fs' : Fs) : Type 0 where
    newer :
        is_valid_root (m p) ≡ true
        → fs.version < page_version (m p)
        → fs'.version ≡ page_version (m p)
        → fs'.root ≡ p
        → Passed m p fs fs'
    older :
        (is_valid_root (m p) ≡ true → page_version (m p) ≤ fs.version)
        → fs'.version ≡ fs.version
        → fs'.root ≡ fs.root
        → Passed m p fs fs'

  pages_below : (P : ℕ → Type 0) (p : ℕ) → ((q : ℕ) → q < p → P q) → P p → (q : ℕ) → q < suc p → P q
  pages_below P p below at q h = elim (Bool-cases (q == p)) [
    | inl y ↦ (let e : q ≡ p = (==_iff q p).0 y in rw e at)
    | inr n ↦ below q (ground arith)
  ]

  Passed-IsNewest :
      (m : ℕ → List ℕ) (p : ℕ) (fs fs' : Fs)
      → fs'.flash.memory ≡ m
      → IsNewest m p fs
      → Passed m p fs fs'
      → IsNewest m (suc p) fs'
  Passed-IsNewest m p fs fs' e h (newer v l u r) = record {
    memory = e;
    newest =
        pages_below (λ q. is_valid_root (m q) ≡ true → page_version (m q) ≤ fs'.version) p
          (λ q b w. omega (arith, h.newest q b w)) (λ w. omega arith);
    here = inr (omega arith, rw r v, rw r (sym u));
  }
  Passed-IsNewest m p fs fs' e h (older o u r) = record {
    memory = e;
    newest =
        pages_below (λ q. is_valid_root (m q) ≡ true → page_version (m q) ≤ fs'.version) p
          (λ q b w. omega (arith, h.newest q b w)) (λ w. omega (arith, o w));
    here = elim h.here [
      | inl z ↦ inl (u ∙ z)
      | inr (b, v, w) ↦ inr (omega arith, rw r v, rw r (w ∙ sym u))
    ];
  }

  scan_page-IsNewest :
      (m : ℕ → List ℕ) (p : ℕ) (fs : Fs)
      → p < df_pages
      → IsNewest m p fs
      → IsNewest m (suc p) (scan_page k p fs)
  scan_page-IsNewest m p fs b h =
      let c = scan_page-cases p fs b in
      let s = fs.flash.memory p in
      let es : s ≡ m p = ap (λ (f : ℕ → List ℕ). f p) h.memory in
      let passed : Passed m p fs (scan_page k p fs) = elim (Bool-cases (is_valid_root s)) [
        | inl v ↦ elim (Bool-cases (ltb fs.version (page_version s))) [
          | inl l ↦
              (let d = rw (v, l) at c in
                Passed.newer (rw es at v) (ltb→lt _ _ (rw es at l)) (d.1 ∙ ap page_version es) d.2)
          | inr n ↦
              (let d = rw (v, n) at c in
                let g : page_version s ≤ fs.version = ground arith in
                Passed.older (λ w. rw es at g) d.1 d.2)
        ]
        | inr n ↦ (let d = rw n at c in Passed.older (λ w. cc (n, w, es)) d.1 d.2)
      ] in
      Passed-IsNewest m p fs _ (c.0 ∙ h.memory) h passed

  scan_from-IsNewest :
      (m : ℕ → List ℕ) (n p : ℕ) (fs : Fs)
      → p + n ≤ df_pages
      → IsNewest m p fs
      → IsNewest m (p + n) (scan_from k p n fs)
  unfolding scan_from
  scan_from-IsNewest m zero p fs b h = let e : p + 0 ≡ p = omega arith in rw e h
  scan_from-IsNewest m (suc n) p fs b h =
      let e : p + suc n ≡ p + 1 + n = omega arith in
      let s : suc p ≡ p + 1 = omega arith in
      let h1 : IsNewest m (p + 1) (scan_page k p fs) =
        rw s at (scan_page-IsNewest m p fs (omega arith) h) in
      rw e (scan_from-IsNewest m n (p + 1) _ (omega arith) h1)

  -- The root node of a flash: every other valid one is older.
  pub record IsCurrent (m : ℕ → List ℕ) (root version : ℕ) : Type 0 where
    pub in_flash : root < df_pages
    pub valid : is_valid_root (m root) ≡ true
    pub numbered : page_version (m root) ≡ version
    pub positive : 0 < version
    pub others_older :
        (p : ℕ)
        → p < df_pages
        → p ≢ root
        → is_valid_root (m p) ≡ true
        → page_version (m p) < version

  pub scanned-IsNewest :
      (fs : Fs)
      → IsNewest fs.flash.memory df_pages (scan_from k 0 df_pages (record fs { version = 0 }))
  scanned-IsNewest fs =
      let m = fs.flash.memory in
      let start : IsNewest m 0 (record fs { version = 0 }) = record {
        memory = refl;
        newest = λ p h v. absurd (omega arith);
        here = inl refl;
      } in
      let z : 0 + df_pages ≡ df_pages = omega arith in
      rw z at (scan_from-IsNewest m df_pages 0 (record fs { version = 0 }) (omega arith) start)

  -- A scan finds the root node that is newer than all other valid ones, wherever it stands and
  -- whatever else is in the flash.
  pub fs_scan-IsCurrent :
      (fs : Fs) (root version : ℕ)
      → IsCurrent fs.flash.memory root version
      → let (fs', ret) = fs_scan k fs in (ret ≡ fs_ok) × (fs'.root ≡ root) × (fs'.version ≡ version)
  unfolding fs_scan
  fs_scan-IsCurrent fs root version c =
      let m = fs.flash.memory in
      let h = scanned-IsNewest fs in
      let s = scan_from k 0 df_pages (record fs { version = 0 }) in
      let up : version ≤ s.version = omega (arith, h.newest root c.in_flash c.valid, c.numbered) in
      let some_found : leb 1 s.version ≡ true = ground (arith, up) in
      let same : s.root ≡ root = elim h.here [
        | inl z ↦ absurd (omega (arith, up, c.positive))
        | inr (b, v, w) ↦ elim (Bool-cases (s.root == root)) [
          | inl y ↦ (==_iff s.root root).0 y
          | inr n ↦ absurd (
              let other : s.root ≢ root = ground arith in
              omega (arith, c.others_older s.root b other v))
        ]
      ] in
      let number : s.version ≡ version = elim h.here [
        | inl z ↦ absurd (omega (arith, up, c.positive))
        | inr (b, v, w) ↦ sym w ∙ ap (λ (x : ℕ). page_version (m x)) same ∙ c.numbered
      ] in
      rw some_found (refl, same, number)
