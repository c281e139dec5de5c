-- ===== src/Dataflash/Listing.antt =====
-- The files that a root node of firmware/dataflash/fs.c names.
use matemat.Base.{
  ℕ, zero, suc, ◌+◌, ◌≤◌, ◌<◌, ◌≡◌, refl, ap, ◌∙◌, true, false, inl, inr, ◌==◌, ==_iff, Bool-cases,
  if◌then◌else◌, arith, List, [], ◌∷◌, length, some, ◌%◌, ◌≢◌,
}
use Prim.Native.Nat.{Ordering}
use matemat.Dataflash.{Fs, nodes_in_root, fs_filename}
use matemat.Dataflash.Layout.{node_unused, node_inode, strncpy, strncmp, file_node}
use matemat.Dataflash.Directory.{
  read_node, same_name, before, get_from, fs_get_inode, place, find_place,
}

-- Used nodes of other names from `i` on.
abbrev pub Passed : (ℕ → List ℕ) → List ℕ → ℕ → ℕ → Type 0
Passed node name i j =
    (p : ℕ)
    → i ≤ p
    → p < j
    → (same_name (node p) name ≡ false) × ((node_unused (node p) == 1) ≡ false)

-- The first node of a name is a used one of 60 nodes, behind used nodes only, and has the inode.
pub record IsFile (fs : Fs) (name : List ℕ) (inode : ℕ) : Type 0 where
  pub at : ℕ
  pub in_root : at < nodes_in_root
  pub passed : Passed (read_node fs) name 0 at
  pub used : (node_unused (read_node fs at) == 1) ≡ false
  pub named : same_name (read_node fs at) name ≡ true
  pub has : node_inode (read_node fs at) ≡ inode

get_from-some :
    (n : ℕ) (fs : Fs) (name : List ℕ) (i j : ℕ)
    → i ≤ j
    → j < i + n
    → Passed (read_node fs) name i j
    → same_name (read_node fs j) name ≡ true
    → get_from n fs name i ≡ some (node_inode (read_node fs j))
unfolding get_from
get_from-some zero fs name i j l b p s = absurd (omega arith)
get_from-some (suc n) fs name i j l b p s = elim (Bool-cases (i == j)) [
  | inl y ↦ (let e : i ≡ j = (==_iff i j).0 y in rw (e, s) refl)
  | inr o ↦
      let h = p i (omega arith) (ground arith) in
      let ih =
        get_from-some n fs name (i + 1) j (ground arith) (omega arith)
          (λ q l' b'. p q (omega arith) b') s in
      rw (h.0, h.1) ih
]

-- `fs_get_inode` finds it.
pub IsFile-fs_get_inode :
    (fs : Fs) (name : List ℕ) (inode : ℕ) → IsFile fs name inode → fs_get_inode fs name ≡ some inode
unfolding fs_get_inode
IsFile-fs_get_inode fs name inode f =
    let b = f.in_root in
    get_from-some 61 fs name 0 f.at (omega arith) (omega arith) f.passed f.named ∙ ap some f.has

-- What the search for a new node's place has passed.
pub record Placed (fs : Fs) (name : List ℕ) (index i max : ℕ) (x : ℕ) : Type 0 where
  pub forward : i ≤ max
  pub low : index ≤ x
  pub high : x + i ≤ index + max
  pub passed : Passed (read_node fs) name i max
  pub free : (node_unused (read_node fs max) == 1) ≡ true

stop-Placed :
    (fs : Fs) (name : List ℕ) (index i max x : ℕ)
    → (node_unused (read_node fs i) == 1) ≡ true
    → some (place index i) ≡ some (place x max)
    → Placed fs name index i max x
stop-Placed fs name index i max x u h =
    let ex : index ≡ x = cc h in
    let em : i ≡ max = cc h in
    record {
      forward = omega arith;
      low = omega arith;
      high = omega arith;
      passed = λ p l b. absurd (omega arith);
      free = rw em at u;
    }

pub find_place-Placed :
    (n : ℕ) (fs : Fs) (name : List ℕ) (index i max x : ℕ)
    → find_place n fs name index i ≡ some (place x max)
    → Placed fs name index i max x
unfolding find_place
find_place-Placed zero fs name index i max x h = absurd (ground arith)
find_place-Placed (suc n) fs name index i max x h =
    let node = read_node fs i in
    let next = if before node name then index + 1 else index in
    elim (Bool-cases (node_unused node == 1)) [
      | inl u ↦ (let g = rw u at h in stop-Placed fs name index i max x u g)
      | inr used ↦ elim (Bool-cases (same_name node name)) [
        | inl same ↦ absurd (let g = rw (used, same) at h in cc g)
        | inr other ↦
            let ih = find_place-Placed n fs name next (i + 1) max x (rw (used, other) at h) in
            let step : (index ≤ next) × (next ≤ index + 1) = ground arith in
            record {
              forward = omega (arith, ih.forward);
              low = omega (arith, ih.low, step);
              high = omega (arith, ih.high, step);
              passed = λ p l b. elim (Bool-cases (p == i)) [
                | inl y ↦ (let e = (==_iff p i).0 y in rw e (other, used))
                | inr n ↦ ih.passed p (ground arith) b
              ];
              free = ih.free;
            }
      ]
    ]

strncmp-strncpy : (n : ℕ) (s : List ℕ) → strncmp n (strncpy n s) s ≡ Ordering.eq
unfolding strncmp strncpy
strncmp-strncpy zero s = refl
strncmp-strncpy (suc n) [] = refl
strncmp-strncpy (suc n) (c ∷ s) =
    let same = (==_iff c c).1 refl in
    elim (Bool-cases (c == 0)) [
      | inl z ↦ rw (same, z) refl
      | inr m ↦ rw (same, m) (strncmp-strncpy n s)
    ]

length-strncpy : (n : ℕ) (s : List ℕ) → length (strncpy n s) ≡ n
unfolding strncpy
length-strncpy zero s = refl
length-strncpy (suc n) [] = ap suc (length-strncpy n [])
length-strncpy (suc n) (c ∷ s) = ap suc (length-strncpy n (if c == 0 then [] else s))

-- A new node is used, has the name and the inode's twelve bits.
pub file_node-laws :
    (old name : List ℕ) (inode : ℕ)
    → let node = file_node old name inode in
      ((node_unused node == 1) ≡ false)
      × (same_name node name ≡ true)
      × (node_inode node ≡ inode % 4096)
      × (length node ≡ 8)
unfolding file_node
file_node-laws old name inode =
    let used : node_unused (file_node old name inode) ≡ 0 = omega arith in
    (
      ground (arith, used),
      rw (same_name, strncmp-strncpy 6 name) refl,
      omega arith,
      ap (λ n. suc (suc n)) (length-strncpy 6 name),
    )

no_match : (o : Ordering) → o ≢ Ordering.eq → (elim o [ Ordering.eq ↦ true | _ ↦ false ]) ≡ false
no_match Ordering.lt d = refl
no_match Ordering.eq d = absurd (d refl)
no_match Ordering.gt d = refl

-- It does not have a name that differs.
pub file_node-differs :
    (old name other : List ℕ) (inode : ℕ)
    → strncmp fs_filename (strncpy fs_filename name) other ≢ Ordering.eq
    → same_name (file_node old name inode) other ≡ false
unfolding file_node
file_node-differs old name other inode d =
    no_match (strncmp fs_filename (strncpy fs_filename name) other) d
