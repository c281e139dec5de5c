-- ===== src/Dataflash/Recovery.antt =====
-- A power failure while `fs_increment` (firmware/dataflash/fs.c) programs the new root node.
use matemat.Base.{
  ℕ, ◌+◌, ◌<◌, ◌≡◌, ◌≢◌, refl, sym, ap, ◌∙◌, true, false, inl, inr, ◌==◌, ==_iff, Bool-cases, arith,
  List, length, u32,
}
use matemat.Dataflash.{Fs, Env, slice, program, df_pages}
use matemat.Dataflash.Layout.{byte, bytes32, fs_page_of}
use matemat.Dataflash.Pages.{fs_new_page}
use matemat.Dataflash.Inodes.{fs_crc, new_root, fs_increment}
use matemat.Dataflash.Root.{is_root, crc_matches, fs_scan}
use matemat.Dataflash.Bytes.{
  byte-slice, byte-slice_eq, take-take, get_or-drop, program-other, program-same,
}
use matemat.Dataflash.Commit.{
  IsRootOf, new_root-IsRootOf, committed, fs_increment-committed, new_root-keeps,
}
use matemat.Dataflash.Scan.{page_version, is_valid_root, IsCurrent, fs_scan-IsCurrent}

pub is_root-same : (s t : List ℕ) → byte s 0 ≡ byte t 0 → is_root s ≡ is_root t
unfolding is_root fs_page_of
is_root-same s t e = rw e

pub ==-no : {p q : ℕ} → (p == q) ≡ false → p ≢ q
==-no n = ground arith

bool_clash : false ≡ true → ⊥
bool_clash e = ground arith

pub byte-front : (s : List ℕ) (n i : ℕ) → i < n → byte (slice s 0 n) i ≡ byte s i
byte-front s n i h = let e : 0 + i ≡ i = omega arith in byte-slice s 0 n i h ∙ ap (byte s) e

-- The version of a page is its bytes from the fifth on.
pub version-of :
    (v : ℕ) (s : List ℕ) → v < 4294967296 → slice s 4 4 ≡ bytes32 v → page_version s ≡ v
version-of v s b h =
    let at = λ (i : ℕ) (l : i < 4).
      get_or-drop 4 (slice s 0 40) i
      ∙ byte-front s 40 (4 + i) (omega arith)
      ∙ sym (byte-slice s 4 4 i l)
      ∙ ap (λ (x : List ℕ). byte x i) h in
    rw (at 0 (omega arith), at 1 (omega arith), at 2 (omega arith), at 3 (omega arith))
      (omega arith)

-- Pages with the same first bytes are both root nodes or both none.
pub is_root-front :
    (s t : List ℕ) → slice s 0 4 ≡ slice t 0 4 → is_root (slice s 0 40) ≡ is_root (slice t 0 40)
is_root-front s t h = is_root-same _ _ (
    byte-front s 40 0 (omega arith)
    ∙ byte-slice_eq s t 0 4 0 (omega arith) h
    ∙ sym (byte-front t 40 0 (omega arith)))

module _ (k : Env) where
  -- A page that is no valid root node leaves the root node current.
  torn-IsCurrent :
      (m : ℕ → List ℕ) (root version page : ℕ) (bytes : List ℕ)
      → page < df_pages
      → page ≢ root
      → is_valid_root k bytes ≡ false
      → IsCurrent k m root version
      → IsCurrent k (program page bytes m) root version
  torn-IsCurrent m root version page bytes b o torn c =
      let at = program-other page bytes m root b (λ e. o (sym e)) in
      record {
        in_flash = c.in_flash;
        valid = rw at c.valid;
        numbered = rw at c.numbered;
        positive = c.positive;
        others_older = λ q l r v. elim (Bool-cases (q == page)) [
          | inl y ↦ absurd (
              let e = (==_iff q page).0 y in
              let u = rw (e, program-same page bytes m b, torn) at v in bool_clash u)
          | inr n ↦
              (let e = program-other page bytes m q b (==-no n) in
                rw e (c.others_older q l r (rw e at v)))
        ];
      }

  older_than :
      (m : ℕ → List ℕ) (root version newer q : ℕ)
      → IsCurrent k m root version
      → version < newer
      → q < df_pages
      → is_valid_root k (m q) ≡ true
      → page_version (m q) < newer
  older_than m root version newer q c w l u = elim (Bool-cases (q == root)) [
    | inl y ↦ (let e = (==_iff q root).0 y in rw (e, c.numbered) w)
    | inr n ↦ (let h = c.others_older q l (==-no n) u in omega arith)
  ]

  -- A page that is a newer one is current.
  newer-IsCurrent :
      (m : ℕ → List ℕ) (root version page : ℕ) (bytes : List ℕ)
      → page < df_pages
      → is_valid_root k bytes ≡ true
      → version < page_version bytes
      → IsCurrent k m root version
      → IsCurrent k (program page bytes m) page (page_version bytes)
  newer-IsCurrent m root version page bytes b v w c =
      let at = program-same page bytes m b in
      record {
        in_flash = b;
        valid = rw at v;
        numbered = rw at refl;
        positive = omega arith;
        others_older = λ q l o u.
            let e = program-other page bytes m q b o in
            rw e (older_than m root version (page_version bytes) q c w l (rw e at u));
      }

  pub IsRootOf-valid :
      (v : ℕ) (old new : List ℕ)
      → is_root (slice old 0 40) ≡ true
      → IsRootOf k v old new
      → is_valid_root k new ≡ true
  unfolding is_valid_root crc_matches
  IsRootOf-valid v old new r h =
      let whole = slice new 0 528 in
      let crc = fs_crc k 0 (slice new 0 527) in
      let root = is_root-front new old h.head ∙ r in
      let bytes : slice whole 0 527 ≡ slice new 0 527 = take-take 527 528 new (omega arith) in
      let last : byte (slice whole 527 1) 0 ≡ fs_crc k 0 (slice new 0 527) =
        byte-slice whole 527 1 0 (omega arith)
        ∙ byte-front new 528 527 (omega arith)
        ∙ sym (byte-slice new 527 1 0 (omega arith))
        ∙ ap (λ (x : List ℕ). byte x 0) h.crc in
      rw (root, bytes, last) ((==_iff crc crc).1 refl)

  committed-memory :
      (fs : Fs) (page : ℕ)
      → (fs_new_page fs).1 ≡ page
      → page < df_pages
      → fs.version + 1 < 4294967296
      → (fs_increment k fs).0.flash.memory
        ≡ program page (new_root k (fs.version + 1) fs.flash).buf1 fs.flash.memory
  unfolding committed
  committed-memory fs page n p b =
      let number : u32 (fs.version + 1) ≡ fs.version + 1 = omega arith in
      rw (fs_increment-committed k fs page n p, number)
        (ap (program page (new_root k (fs.version + 1) fs.flash).buf1)
          (new_root-keeps k _ fs.flash).1)

  -- `fs_increment`, while a root node is current and buffer 1 holds 528 bytes that begin as a used
  -- root node, the version is below its greatest, and the search finds a page of the flash that is
  -- not the root node's. Whatever the page that it programs holds after a power failure, unless
  -- that passes for a root node, a scan finds the old root node. When it has been programmed, a
  -- scan finds the new one in it, which has the next version and, but for version and checksum, the
  -- bytes of the copy.
  pub fs_increment-recovers :
      (fs s t : Fs) (page : ℕ) (torn : List ℕ)
      → length fs.flash.buf1 ≡ 528
      → is_root (slice fs.flash.buf1 0 40) ≡ true
      → IsCurrent k fs.flash.memory fs.root fs.version
      → fs.version + 1 < 4294967296
      → (fs_new_page fs).1 ≡ page
      → page < df_pages
      → page ≢ fs.root
      → is_valid_root k torn ≡ false
      → s.flash.memory ≡ program page torn fs.flash.memory
      → t.flash.memory ≡ (fs_increment k fs).0.flash.memory
      → let (s', _) = fs_scan k s in
        let (t', _) = fs_scan k t in
        (s'.root ≡ fs.root)
        × (s'.version ≡ fs.version)
        × (t'.root ≡ page)
        × (t'.version ≡ fs.version + 1)
        × IsRootOf k (fs.version + 1) fs.flash.buf1 (t.flash.memory page)
  fs_increment-recovers fs s t page torn l r c b n p o d es et =
      let v = fs.version + 1 in
      let new = (new_root k v fs.flash).buf1 in
      let h = new_root-IsRootOf k v fs.flash l in
      let up : (fs_increment k fs).0.flash.memory ≡ program page new fs.flash.memory =
        committed-memory fs page n p b in
      let mem = et ∙ up in
      let number' = version-of v new b h.version in
      let valid = IsRootOf-valid v fs.flash.buf1 new r h in
      let old = torn-IsCurrent fs.flash.memory fs.root fs.version page torn p o d c in
      let later : IsCurrent k (program page new fs.flash.memory) page (page_version new) =
        newer-IsCurrent fs.flash.memory fs.root fs.version page new p valid
          (rw number' (omega arith)) c in
      let s' = fs_scan-IsCurrent k s fs.root fs.version (rw es old) in
      let t' = fs_scan-IsCurrent k t page v (rw mem (rw number' at later)) in
      (s'.1, s'.2, t'.1, t'.2, rw (mem, program-same page new fs.flash.memory p) h)
