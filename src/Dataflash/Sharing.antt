-- ===== src/Dataflash/Sharing.antt =====
-- The inodes of two files that `fs_create` (firmware/dataflash/fs.c) creates one after the other.
use matemat.Base.{
  ℕ, zero, suc, ◌+◌, ◌*◌, ◌%◌, ◌≤◌, ◌<◌, ◌≡◌, refl, ap, true, arith, List, length, Option, none,
  some,
}
use matemat.Dataflash.{
  Flash, Fs, Env, fs_ok, df_flash_read, df_pages, nodes_in_root, inodetable_offset, page_address,
}
use matemat.Dataflash.Layout.{node_unused, word16}
use matemat.Dataflash.Pages.{fs_used}
use matemat.Dataflash.Inodes.{fs_inodetable, inode_entry, free_in_table, free_inode, fs_new_inode}
use matemat.Dataflash.Directory.{read_node, fs_get_inode, fs_create}
use matemat.Dataflash.Creation.{Created, fs_create-Created}
use matemat.Dataflash.Names.{Differs, fs_create-fs_get_inode, fs_create-IsFile}

-- The pages of the tables of inodes are in the flash and marked as used.
abbrev pub TablesUsed : Fs → Type 0
TablesUsed fs =
    (i : ℕ) → i < 16 → (fs_inodetable fs i < df_pages) × (fs_used fs (fs_inodetable fs i) ≡ true)

free_in_table-same :
    (n : ℕ) (f f' : Flash) (page j : ℕ)
    → f'.memory (page_address page) ≡ f.memory (page_address page)
    → free_in_table f' page j n ≡ free_in_table f page j n
unfolding free_in_table
free_in_table-same zero f f' page j e = refl
free_in_table-same (suc n) f f' page j e =
    let entry : inode_entry f' page j ≡ inode_entry f page j =
      unfold inode_entry df_flash_read in rw e refl in
    rw (entry, free_in_table-same n f f' page (j + 1) e) refl

unfoldable first_free : Option ℕ → ℕ → ℕ → ℕ
first_free r i rest = elim r [ some j ↦ i * 256 + j | none ↦ rest ]

free_inode-first_free :
    (fs : Fs) (i n : ℕ)
    → free_inode fs i (suc n)
      ≡ first_free (free_in_table fs.flash (fs_inodetable fs i) 0 256) i (free_inode fs (i + 1) n)
unfolding free_inode first_free
free_inode-first_free fs i n = refl

module _ (k : Env) (fs fs' : Fs) (name : List ℕ) (x max : ℕ) (c : Created k fs fs' name x max) where
  inodetable-same : (i : ℕ) → i < 16 → fs_inodetable fs' i ≡ fs_inodetable fs i
  unfolding fs_inodetable df_flash_read
  inodetable-same i h =
      ap (λ (s : List ℕ). word16 s)
        (c.tables (inodetable_offset + i * 2) 2 (omega arith) (omega arith))

  table-kept :
      TablesUsed fs
      → (i : ℕ) → i < 16
      → let page = fs_inodetable fs i in
        fs'.flash.memory (page_address page) ≡ fs.flash.memory (page_address page)
  table-kept t i h =
      let page = fs_inodetable fs i in
      let (b, u) = t i h in
      let e : page_address page ≡ page = omega arith in
      rw e (c.others page b (λ o. let v = rw o at u in cc (v, c.unused)))

  free_inode-same : TablesUsed fs → (n i : ℕ) → i + n ≤ 16 → free_inode fs' i n ≡ free_inode fs i n
  free_inode-same t zero i h = unfold free_inode in refl
  free_inode-same t (suc n) i h =
      let page = fs_inodetable fs i in
      let same = free_in_table-same 256 fs.flash fs'.flash page 0 (table-kept t i (omega arith)) in
      rw
        (
          free_inode-first_free fs i n,
          free_inode-first_free fs' i n,
          inodetable-same i (omega arith),
          same,
          free_inode-same t n (i + 1) (omega arith),
        )
        refl

  pub fs_new_inode-same : TablesUsed fs → fs_new_inode fs' ≡ fs_new_inode fs
  unfolding fs_new_inode
  fs_new_inode-same t = free_inode-same t 16 0 (omega arith)

module _ (k : Env) where
  -- The root node is 528 bytes long, the last page taken and the tables of inodes are in the flash,
  -- the tables are marked as used, and there is an unused node for each file. Two files of
  -- different names that are created one after the other, with nothing written to the first, are
  -- found under their names with the same inode.
  pub fs_create-shared :
      (fs fs1 fs2 : Fs) (name other : List ℕ) (free free1 : ℕ)
      → fs.last_free < df_pages
      → length (fs.flash.memory (page_address fs.root)) ≡ 528
      → TablesUsed fs
      → free < nodes_in_root
      → node_unused (read_node fs free) ≡ 1
      → fs_create k fs name ≡ some (fs1, fs_ok)
      → free1 < nodes_in_root
      → node_unused (read_node fs1 free1) ≡ 1
      → fs_create k fs1 other ≡ some (fs2, fs_ok)
      → Differs other name
      → let inode = fs_new_inode fs % 4096 in
        (fs_get_inode fs2 name ≡ some inode) × (fs_get_inode fs2 other ≡ some inode)
  fs_create-shared fs fs1 fs2 name other free free1 l s t b u h b1 u1 h1 d =
      let (x, max, c) = fs_create-Created k fs fs1 name free l s b u h in
      let same = fs_new_inode-same k fs fs1 name x max c t in
      let first = fs_create-fs_get_inode k fs fs1 name free l s b u h in
      let kept =
        fs_create-IsFile k fs1 fs2 other name free1 _ c.last_free c.size b1 u1 h1 d first.0 in
      let second = fs_create-fs_get_inode k fs1 fs2 other free1 c.last_free c.size b1 u1 h1 in
      (kept.1, rw same at second.1)
