-- ===== src/Dataflash/Format.antt =====
-- What `fs_format` (firmware/dataflash/fs.c) makes of a flash without a root node.
use matemat.Base.{
  ℕ, zero, suc, ◌+◌, ◌*◌, ◌%◌, ◌≤◌, ◌<◌, ◌≡◌, refl, sym, ap, ◌∙◌, true, false, ◌&&◌, inl, inr, ◌==◌,
  ==_iff, Bool-cases, arith, List, [], ◌∷◌, ◌++◌, length, replicate, take,
}
use matemat.Dataflash.{
  Flash, Fs, Env, df_buf_write, df_buf_save, df_buf_read, slice, splice, program, df_pages,
  nodetable_offset,
}
use matemat.Dataflash.Layout.{FsPage, fs_page_of, fs_page_bytes, bytes32, byte}
use matemat.Dataflash.Inodes.{fs_crc}
use matemat.Dataflash.Root.{is_root, save_tables, table_addresses, write_nodes, fs_format}
use matemat.Dataflash.Bytes.{
  length-splice, slice-splice_self, slice-splice_below, program-same, program-other, slice-take,
}
use matemat.Dataflash.Commit.{IsRootOf}
use matemat.Dataflash.Scan.{page_version, is_valid_root, IsCurrent}
use matemat.Dataflash.Recovery.{is_root-same, byte-front, version-of, IsRootOf-valid, ==-no}

-- The structure of a page that is a root node, and of one that is none.
is_root-bytes :
    (page : FsPage)
    → is_root (fs_page_bytes page) ≡ ((page.unused % 2 == 0) && (page.root % 2 == 1))
unfolding is_root fs_page_of fs_page_bytes
is_root-bytes page =
    let unused : (fs_page_of (fs_page_bytes page)).unused ≡ page.unused % 2 = omega arith in
    let root : (fs_page_of (fs_page_bytes page)).root ≡ page.root % 2 = omega arith in
    rw (unused, root) refl

is_root-head : (s head : List ℕ) → slice s 0 4 ≡ head → is_root (slice s 0 40) ≡ is_root head
is_root-head s head h = is_root-same _ _ (
    byte-front s 40 0 (omega arith)
    ∙ sym (byte-front s 4 0 (omega arith))
    ∙ ap (λ (x : List ℕ). byte x 0) h)

module _ (k : Env) where
  abbrev pub NoRoots : (ℕ → List ℕ) → Type 0
  NoRoots m = (p : ℕ) → p < df_pages → is_valid_root k (m p) ≡ false

  program-NoRoots :
      (page : ℕ) (bytes : List ℕ) (m : ℕ → List ℕ)
      → page < df_pages
      → is_valid_root k bytes ≡ false
      → NoRoots m
      → NoRoots (program page bytes m)
  program-NoRoots page bytes m b v n p l = elim (Bool-cases (p == page)) [
    | inl y ↦ (let e = (==_iff p page).0 y in rw (e, program-same page bytes m b) v)
    | inr o ↦ rw (program-other page bytes m p b (==-no o)) (n p l)
  ]

  save_tables-NoRoots :
      (i n : ℕ) (f : Flash)
      → i + n < df_pages
      → is_valid_root k f.buf1 ≡ false
      → NoRoots f.memory
      → NoRoots (save_tables k i n f).memory × ((save_tables k i n f).buf1 ≡ f.buf1)
  unfolding save_tables df_buf_save
  save_tables-NoRoots i zero f b v h = (h, refl)
  save_tables-NoRoots i (suc n) f b v h =
      save_tables-NoRoots (i + 1) n (record f { memory = program (i + 1) f.buf1 f.memory })
        (omega arith) v (program-NoRoots (i + 1) f.buf1 f.memory (omega arith) v h)

  write_nodes-front :
      (n i : ℕ) (node : List ℕ) (f : Flash)
      → length node ≡ 8
      → length f.buf1 ≡ 528
      → i + n ≤ 60
      → let f' = write_nodes k i n node f in
        (length f'.buf1 ≡ 528)
        × ((a m : ℕ) → a + m ≤ 40 → slice f'.buf1 a m ≡ slice f.buf1 a m)
        × (f'.memory ≡ f.memory)
  unfolding write_nodes df_buf_write
  write_nodes-front zero i node f l s h = (s, λ a m b. refl, refl)
  write_nodes-front (suc n) i node f l s h =
      let at = nodetable_offset + i * 8 in
      let next = splice f.buf1 at node in
      let size : length next ≡ 528 = length-splice f.buf1 at node (omega arith) ∙ s in
      let ih = write_nodes-front n (i + 1) node (record f { buf1 = next }) l size (omega arith) in
      (
        ih.0,
        λ a m b. ih.1 a m b ∙ slice-splice_below f.buf1 at node a m (omega arith) (omega arith),
        ih.2,
      )

  -- A page with a checksum over a root node's bytes is a valid root node.
  checked :
      (v : ℕ) (s head : List ℕ)
      → v < 4294967296
      → length s ≡ 528
      → is_root head ≡ true
      → slice s 0 4 ≡ head
      → slice s 4 4 ≡ bytes32 v
      → let c = splice s 527 (fs_crc k 0 (slice s 0 527) ∷ []) in
        (is_valid_root k c ≡ true) × (page_version c ≡ v)
  checked v s head b l r h n =
      let crc = fs_crc k 0 (slice s 0 527) ∷ [] in
      let c = splice s 527 crc in
      let below = λ (i m : ℕ) (z : i + m ≤ 527). slice-splice_below s 527 crc i m z (omega arith) in
      let version = below 4 4 (omega arith) ∙ n in
      let new : IsRootOf k v c c = record {
        size = length-splice s 527 crc (omega arith) ∙ l;
        head = refl;
        version = version;
        rest = λ i m a z. refl;
        crc =
            slice-splice_self s 527 crc (omega arith)
            ∙ ap (λ (x : List ℕ). fs_crc k 0 x ∷ []) (sym (below 0 527 (omega arith)));
      } in
      let first : is_root (slice c 0 40) ≡ is_root head =
        is_root-head c head (below 0 4 (omega arith) ∙ h) in
      (IsRootOf-valid k v c c (first ∙ r) new, version-of v c b version)

  program-IsCurrent :
      (v : ℕ) (bytes : List ℕ) (m : ℕ → List ℕ)
      → 0 < v
      → (is_valid_root k bytes ≡ true) × (page_version bytes ≡ v)
      → NoRoots m
      → IsCurrent k (program 0 bytes m) 0 v
  program-IsCurrent v bytes m z h n =
      let at = program-same 0 bytes m (omega arith) in
      record {
        in_flash = omega arith;
        valid = rw at h.0;
        numbered = rw at h.1;
        positive = z;
        others_older = λ p b o u. absurd (
            let w = rw (program-other 0 bytes m p (omega arith) o) at u in
            let none_there = n p b in cc (w, none_there));
      }

  -- The table of inodes that is formatted is no root node.
  table-no_root :
      (s : List ℕ) (page : FsPage)
      → page.unused ≡ 0
      → page.root ≡ 0
      → length s ≡ 528
      → let b = splice (splice s 0 (fs_page_bytes page)) 15 (replicate 509 255) in
        (is_valid_root k b ≡ false) × (length b ≡ 528)
  unfolding is_valid_root
  table-no_root s page u z l =
      let head = fs_page_bytes page in
      let four : length head ≡ 4 = unfold fs_page_bytes in refl in
      let s1 = splice s 0 head in
      let l1 : length s1 ≡ 528 = length-splice s 0 head (omega arith) ∙ l in
      let fill : List ℕ = replicate 509 255 in
      let front : slice (splice s1 15 fill) 0 4 ≡ head =
        slice-splice_below s1 15 fill 0 4 (omega arith) (omega arith)
        ∙ ap (slice s1 0) (sym four)
        ∙ slice-splice_self s 0 head (omega arith) in
      let none_there : is_root (slice (splice s1 15 fill) 0 40) ≡ false =
        is_root-head _ head front ∙ is_root-bytes page ∙ rw (u, z) refl in
      (rw none_there refl, length-splice s1 15 fill (omega arith) ∙ l1)

  -- The root node that is formatted.
  pub formatted-IsCurrent :
      (fs : Fs)
      → fs.version ≡ 0
      → length fs.flash.buf1 ≡ 528
      → NoRoots fs.flash.memory
      → IsCurrent k (fs_format k fs).0.flash.memory 0 1
  unfolding fs_format df_buf_write df_buf_save df_buf_read
  formatted-IsCurrent fs z l n =
      let old = fs_page_of k.junk in
      let ip = record old { root = 0; eof = 1; unused = 0; next_inode = 0x0fff } in
      let rp = record old { root = 1; eof = 1; unused = 0 } in
      let table = table-no_root fs.flash.buf1 ip refl refl l in
      let filled = record fs.flash {
        buf1 = splice (splice fs.flash.buf1 0 (fs_page_bytes ip)) 15 (replicate 509 255);
      } in
      let tables = save_tables k 0 16 filled in
      let saved = save_tables-NoRoots 0 16 filled (omega arith) table.0 n in
      let root = fs_page_bytes rp ++ (bytes32 1 ++ table_addresses k 0 16) in
      let root_size : length root ≡ 40 = unfold fs_page_bytes table_addresses in refl in
      let s : length tables.buf1 ≡ 528 = rw saved.1 table.1 in
      let rooted = splice tables.buf1 0 root in
      let s1 : length rooted ≡ 528 = length-splice tables.buf1 0 root (omega arith) ∙ s in
      let j = λ (i : ℕ). byte k.junk i in
      let node = 1 ∷ 0 ∷ 0 ∷ j 3 ∷ j 4 ∷ j 5 ∷ j 6 ∷ j 7 ∷ [] in
      let noded = write_nodes k 0 60 node (record tables { buf1 = rooted }) in
      let written =
        write_nodes-front 60 0 node (record tables { buf1 = rooted }) refl s1 (omega arith) in
      let head = fs_page_bytes rp in
      let front : take 40 rooted ≡ root =
        ap (λ (i : ℕ). take i rooted) (sym root_size)
        ∙ slice-splice_self tables.buf1 0 root (omega arith) in
      let first : slice rooted 0 4 ≡ head =
        sym (slice-take 40 0 4 rooted (omega arith))
        ∙ ap (λ (x : List ℕ). slice x 0 4) front
        ∙ unfold fs_page_bytes in refl in
      let number : slice rooted 4 4 ≡ bytes32 1 =
        sym (slice-take 40 4 4 rooted (omega arith))
        ∙ ap (λ (x : List ℕ). slice x 4 4) front
        ∙ unfold fs_page_bytes in refl in
      let valid =
        checked 1 noded.buf1 head (omega arith) written.0 (is_root-bytes rp)
          (written.1 0 4 (omega arith) ∙ first) (written.1 4 4 (omega arith) ∙ number) in
      let none_left : NoRoots noded.memory = rw written.2 saved.0 in
      rw z (
        program-IsCurrent 1 (splice noded.buf1 527 (fs_crc k 0 (slice noded.buf1 0 527) ∷ []))
          noded.memory (omega arith) valid none_left)
