-- ===== src/Dataflash/Creation.antt =====
-- What `fs_create` (firmware/dataflash/fs.c) leaves in the flash.
use matemat.Base.{
  ℕ, ◌+◌, ◌*◌, ◌≤◌, ◌<◌, ◌≡◌, ◌≢◌, refl, ap, ◌∙◌, false, inl, inr, ◌==◌, ==_iff, Bool-cases, arith,
  List, length, Option, none, some, u32, leb,
}
use matemat.Dataflash.{
  Fs, Env, Status, fs_ok, fs_duplicate, df_flash_read, df_buf_read, slice, program, df_pages,
  none_ffff, nodes_in_root, page_address,
}
use matemat.Dataflash.Layout.{node_unused, node_inode, file_node}
use matemat.Dataflash.Pages.{fs_used}
use matemat.Dataflash.Inodes.{new_root, fs_new_inode, fs_increment}
use matemat.Dataflash.Directory.{read_node, create_at, fs_create, Place, duplicate, place}
use matemat.Dataflash.Bytes.{program-same, program-other}
use matemat.Dataflash.Commit.{new_root-IsRootOf}
use matemat.Dataflash.Listing.{Placed, find_place-Placed, file_node-laws}
use matemat.Dataflash.Saved.{fs_increment-Committed}
use matemat.Dataflash.Shifting.{Entered, entered, entered-Entered}

-- What `fs_create` has done when it succeeds.
pub record Created (k : Env) (fs fs' : Fs) (name : List ℕ) (x max : ℕ) : Type 0 where
  pub placed : Placed fs name 0 0 max x
  pub bound : max < nodes_in_root
  pub size : length (fs'.flash.memory (page_address fs'.root)) ≡ 528
  pub last_free : fs'.last_free < df_pages
  pub in_flash : fs'.root < df_pages
  pub unused : fs_used fs fs'.root ≡ false
  pub others : (q : ℕ) → q < df_pages → q ≢ fs'.root → fs'.flash.memory q ≡ fs.flash.memory q
  pub marks : fs'.flash.buf2 ≡ fs.flash.buf2
  pub tables :
      (i n : ℕ)
      → 8 ≤ i
      → i + n ≤ 40
      → slice (fs'.flash.memory (page_address fs'.root)) i n
        ≡ slice (fs.flash.memory (page_address fs.root)) i n
  pub kept : (p : ℕ) → p < x → read_node fs' p ≡ read_node fs p
  pub new : read_node fs' x ≡ file_node (read_node fs max) name (fs_new_inode fs)
  pub moved : (p : ℕ) → x ≤ p → p < max → read_node fs' (p + 1) ≡ read_node fs p

programmed :
    (p : ℕ) (bytes : List ℕ) (m : ℕ → List ℕ)
    → p < df_pages
    → program p bytes m (page_address p) ≡ bytes
programmed p bytes m b = let a : page_address p ≡ p = omega arith in rw a (program-same p bytes m b)

used_same :
    (fs fs' : Fs) (page : ℕ)
    → fs.flash.buf2 ≡ fs'.flash.buf2
    → fs_used fs page ≡ false
    → fs_used fs' page ≡ false
unfolding fs_used df_buf_read
used_same fs fs' page e u = rw e at u

room :
    (fs : Fs) (name : List ℕ) (x max free : ℕ)
    → Placed fs name 0 0 max x
    → node_unused (read_node fs free) ≡ 1
    → max ≤ free
room fs name x max free placed u = elim (Bool-cases (leb max free)) [
  | inl y ↦ ground arith
  | inr n ↦ absurd (
      let p = placed.passed free (omega arith) (ground arith) in
      let v = (==_iff (node_unused (read_node fs free)) 1).1 u in cc (p.1, v))
]

committed-Created :
    (k : Env) (fs fs' : Fs) (name : List ℕ) (x max : ℕ)
    → let node = file_node (read_node fs max) name (fs_new_inode fs) in
      fs.last_free < df_pages
      → Entered fs x max node
      → Placed fs name 0 0 max x
      → max ≤ 59
      → fs_increment k (record fs { flash = entered fs x max node }) ≡ (fs', fs_ok)
      → Created k fs fs' name x max
unfolding read_node df_flash_read
committed-Created k fs fs' name x max l e placed b h =
    let node = file_node (read_node fs max) name (fs_new_inode fs) in
    let f = entered fs x max node in
    let v = u32 (fs.version + 1) in
    let c = fs_increment-Committed k (record fs { flash = f }) fs' l h in
    let r = new_root-IsRootOf k v f e.size in
    let new = (new_root k v f).buf1 in
    let low = placed.low in
    let high = placed.high in
    let whole : fs'.flash.memory (page_address fs'.root) ≡ new =
      ap (λ (m : ℕ → List ℕ). m (page_address fs'.root)) c.memory
      ∙ programmed fs'.root new f.memory c.in_flash in
    let at = λ (i n : ℕ) (a : 8 ≤ i) (z : i + n ≤ 527).
      ap (λ (s : List ℕ). slice s i n) whole ∙ r.rest i n a z in
    record {
      placed = placed;
      bound = omega arith;
      size = ap (λ (s : List ℕ). length s) whole ∙ r.size;
      last_free = omega (arith, c.last_free, c.in_flash);
      in_flash = c.in_flash;
      unused = used_same (record fs { flash = f }) fs fs'.root e.marks c.unused;
      others = λ q m o.
          ap (λ (m : ℕ → List ℕ). m q) c.memory
          ∙ program-other fs'.root new f.memory q c.in_flash o
          ∙ ap (λ (m : ℕ → List ℕ). m q) e.memory;
      marks = c.marks ∙ e.marks;
      tables = λ i n a z. at i n a (omega arith) ∙ e.below i n (omega arith);
      kept = λ p a.
          at (40 + p * 8) 8 (omega arith) (omega arith) ∙ e.below (40 + p * 8) 8 (omega arith);
      new = at (40 + x * 8) 8 (omega arith) (omega arith) ∙ e.at;
      moved = λ p a z. at (40 + (p + 1) * 8) 8 (omega arith) (omega arith) ∙ e.moved p a z;
    }

found_place :
    (k : Env) (fs fs' : Fs) (name : List ℕ) (r : Option Place)
    → ◌≡◌ {A = Option (Fs × Status)}
        (elim r [
          | none ↦ none
          | some duplicate ↦ some (fs, fs_duplicate)
          | some (place x max) ↦ some (create_at k name x max fs)
        ])
        (some (fs', fs_ok))
    → (x : ℕ) × (max : ℕ) × (r ≡ some (place x max)) × (create_at k name x max fs ≡ (fs', fs_ok))
found_place k fs fs' name none h = absurd (cc h)
found_place k fs fs' name (some duplicate) h = absurd (
    let e : (fs, fs_duplicate) ≡ (fs', fs_ok) = cc h in
    let g : fs_duplicate ≡ fs_ok = ap (λ (x : Fs × Status). x.1) e in cc g)
found_place k fs fs' name (some (place x max)) h = (x, max, refl, cc h)

create_at-increment :
    (k : Env) (fs fs' : Fs) (name : List ℕ) (x max : ℕ)
    → create_at k name x max fs ≡ (fs', fs_ok)
    → let node = file_node (read_node fs max) name (fs_new_inode fs) in
      fs_increment k (record fs { flash = entered fs x max node }) ≡ (fs', fs_ok)
unfolding create_at entered
create_at-increment k fs fs' name x max h =
    let node = file_node (read_node fs max) name (fs_new_inode fs) in
    let inode = (file_node-laws (read_node fs max) name (fs_new_inode fs)).2 in
    let some_inode : (node_inode node == none_ffff) ≡ false = ground (arith, inode) in
    rw some_inode at h

-- A run of `fs_create` that succeeds, with room for the node.
pub fs_create-Created :
    (k : Env) (fs fs' : Fs) (name : List ℕ) (free : ℕ)
    → fs.last_free < df_pages
    → length (fs.flash.memory (page_address fs.root)) ≡ 528
    → free < nodes_in_root
    → node_unused (read_node fs free) ≡ 1
    → fs_create k fs name ≡ some (fs', fs_ok)
    → (x : ℕ) × (max : ℕ) × Created k fs fs' name x max
unfolding fs_create
fs_create-Created k fs fs' name free l s b u h =
    let (x, max, found, ret) = found_place k fs fs' name _ h in
    let placed = find_place-Placed 61 fs name 0 0 max x found in
    let room : max ≤ free = room fs name x max free placed u in
    let node = file_node-laws (read_node fs max) name (fs_new_inode fs) in
    let e = entered-Entered fs x max _ s node.3 (omega (arith, placed.high)) (omega arith) in
    (
      x,
      max,
      committed-Created k fs fs' name x max l e placed (omega arith)
          (create_at-increment k fs fs' name x max ret),
    )
