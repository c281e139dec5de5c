-- ===== src/Dataflash/Names.antt =====
-- Which files the directory of firmware/dataflash/fs.c names after `fs_create`.
use matemat.Base.{
  ℕ, ◌+◌, ◌-◌, ◌%◌, ◌≤◌, ◌<◌, ◌≡◌, ◌≢◌, false, inl, inr, ◌==◌, ==_iff, Bool-cases, ltb, arith, List,
  length, some,
}
use Prim.Native.Nat.{Ordering}
use matemat.Dataflash.{Fs, Env, fs_ok, df_pages, nodes_in_root, fs_filename, page_address}
use matemat.Dataflash.Layout.{node_unused, strncpy, strncmp}
use matemat.Dataflash.Inodes.{fs_new_inode}
use matemat.Dataflash.Directory.{read_node, same_name, fs_get_inode, fs_create}
use matemat.Dataflash.Listing.{
  IsFile, IsFile-fs_get_inode, Passed, file_node-laws, file_node-differs,
}
use matemat.Dataflash.Creation.{Created, fs_create-Created}

-- A name that does not stand for the other one in a node.
abbrev pub Differs : List ℕ → List ℕ → Type 0
Differs name other = strncmp fs_filename (strncpy fs_filename name) other ≢ Ordering.eq

module _ (k : Env) (fs fs' : Fs) (name : List ℕ) (x max : ℕ) (c : Created k fs fs' name x max) where
  Created-new : IsFile fs' name (fs_new_inode fs % 4096)
  Created-new =
      let laws = file_node-laws (read_node fs max) name (fs_new_inode fs) in
      let high = c.placed.high in
      record {
        at = x;
        in_root = omega (arith, c.bound);
        passed = λ p l b. rw (c.kept p b) (c.placed.passed p l (omega arith));
        used = rw c.new laws.0;
        named = rw c.new laws.1;
        has = rw c.new laws.2;
      }

  before_max : (other : List ℕ) (inode : ℕ) (f : IsFile fs other inode) → f.at < max
  before_max other inode f = elim (Bool-cases (ltb f.at max)) [
    | inl y ↦ ground arith
    | inr n ↦ elim (Bool-cases (f.at == max)) [
      | inl e ↦ absurd (
          let same = (==_iff f.at max).0 e in
          let used = rw same at f.used in cc (used, c.placed.free))
      | inr o ↦
          absurd (let p = f.passed max (omega arith) (ground arith) in cc (p.1, c.placed.free))
    ]
  ]

  not_named : (other : List ℕ) → Differs name other → same_name (read_node fs' x) other ≡ false
  not_named other d = rw c.new (file_node-differs (read_node fs max) name other (fs_new_inode fs) d)

  -- The nodes before the place of a node that was behind the new node's place.
  behind :
      (other : List ℕ) (at p : ℕ)
      → Differs name other
      → Passed (read_node fs) other 0 at
      → at < max
      → x ≤ at
      → p < at + 1
      → (same_name (read_node fs' p) other ≡ false) × ((node_unused (read_node fs' p) == 1) ≡ false)
  behind other at p d f h m b = elim (Bool-cases (ltb p x)) [
    | inl y ↦ (let l : p < x = ground arith in rw (c.kept p l) (f p (omega arith) (omega arith)))
    | inr n ↦ elim (Bool-cases (p == x)) [
      | inl y ↦
          (let e : p ≡ x = (==_iff p x).0 y in
            rw e (
              not_named other d,
              rw c.new (file_node-laws (read_node fs max) name (fs_new_inode fs)).0,
            ))
      | inr o ↦
          (let q = p - 1 in
            let e : p ≡ q + 1 = ground arith in
            let l : x ≤ q = ground arith in
            rw (e, c.moved q l (omega arith)) (f q (omega arith) (omega arith)))
    ]
  ]

  Created-kept :
      (other : List ℕ) (inode : ℕ)
      → Differs name other
      → IsFile fs other inode
      → IsFile fs' other inode
  Created-kept other inode d f =
      let h = before_max other inode f in
      let root = c.bound in
      elim (Bool-cases (ltb f.at x)) [
        | inl y ↦
            let l : f.at < x = ground arith in
            let e = c.kept f.at l in
            record {
              at = f.at;
              in_root = f.in_root;
              passed = λ p l' b. rw (c.kept p (omega arith)) (f.passed p l' b);
              used = rw e f.used;
              named = rw e f.named;
              has = rw e f.has;
            }
        | inr n ↦
            let l : x ≤ f.at = ground arith in
            let e = c.moved f.at l h in
            record {
              at = f.at + 1;
              in_root = omega arith;
              passed = λ p l' b. behind other f.at p d f.passed h l b;
              used = rw e f.used;
              named = rw e f.named;
              has = rw e f.has;
            }
      ]

module _ (k : Env) where
  pub fs_create-fs_get_inode :
      (fs fs' : Fs) (name : List ℕ) (free : ℕ)
      → fs.last_free < df_pages
      → length (fs.flash.memory (page_address fs.root)) ≡ 528
      → free < nodes_in_root
      → node_unused (read_node fs free) ≡ 1
      → fs_create k fs name ≡ some (fs', fs_ok)
      → let inode = fs_new_inode fs % 4096 in
        IsFile fs' name inode × (fs_get_inode fs' name ≡ some inode)
  fs_create-fs_get_inode fs fs' name free l s b u h =
      let (x, max, c) = fs_create-Created k fs fs' name free l s b u h in
      let f = Created-new k fs fs' name x max c in (f, IsFile-fs_get_inode fs' name _ f)

  -- Under the same conditions every other file, of a name that differs in its first six bytes,
  -- keeps its inode and is found, wherever the new node is inserted.
  pub fs_create-IsFile :
      (fs fs' : Fs) (name other : List ℕ) (free inode : ℕ)
      → fs.last_free < df_pages
      → length (fs.flash.memory (page_address fs.root)) ≡ 528
      → free < nodes_in_root
      → node_unused (read_node fs free) ≡ 1
      → fs_create k fs name ≡ some (fs', fs_ok)
      → Differs name other
      → IsFile fs other inode
      → IsFile fs' other inode × (fs_get_inode fs' other ≡ some inode)
  fs_create-IsFile fs fs' name other free inode l s b u h d f =
      let (x, max, c) = fs_create-Created k fs fs' name free l s b u h in
      let f' = Created-kept k fs fs' name x max c other inode d f in
      (f', IsFile-fs_get_inode fs' other inode f')
