-- ===== src/Dataflash/Layout.antt =====
-- The structures of firmware/dataflash/fs.c in the bytes of a page, as avr-gcc lays them out: bit-fields
-- from bit 0 on, words with their low byte first.
use matemat.Base.{
  ℕ, zero, suc, ◌+◌, ◌*◌, ◌/◌, ◌%◌, List, [], ◌∷◌, get_or, drop, ltb, ◌==◌, if◌then◌else◌,
}
use Prim.Native.Nat.{Ordering}

abbrev pub byte : List ℕ → ℕ → ℕ
byte s i = get_or s i 0

-- A word of two bytes, and one of four.
abbrev pub word16 : List ℕ → ℕ
word16 s = byte s 0 + byte s 1 * 256

abbrev pub bytes16 : ℕ → List ℕ
bytes16 n = (n % 256) ∷ (n / 256 % 256) ∷ []

abbrev pub word32 : List ℕ → ℕ
word32 s = byte s 0 + byte s 1 * 256 + byte s 2 * 65536 + byte s 3 * 16777216

abbrev pub bytes32 : ℕ → List ℕ
bytes32 n = (n % 256) ∷ (n / 256 % 256) ∷ (n / 65536 % 256) ∷ (n / 16777216 % 256) ∷ []

-- `fs_page_t`.
pub record FsPage : Type 0 where
  pub unused : ℕ
  pub root : ℕ
  pub eof : ℕ
  pub reserved : ℕ
  pub next_inode : ℕ
  pub size : ℕ

unfoldable pub fs_page_of : List ℕ → FsPage
fs_page_of s = record {
  unused = byte s 0 % 2;
  root = byte s 0 / 2 % 2;
  eof = byte s 0 / 4 % 2;
  reserved = byte s 0 / 8 % 2;
  next_inode = byte s 0 / 16 % 16 + byte s 1 * 16;
  size = byte s 2 + byte s 3 * 256;
}

unfoldable pub fs_page_bytes : FsPage → List ℕ
fs_page_bytes p =
    (p.unused % 2 + p.root % 2 * 2 + p.eof % 2 * 4 + p.reserved % 2 * 8 + p.next_inode % 16 * 16)
    ∷ (p.next_inode / 16 % 256)
    ∷ bytes16 p.size

-- `fs_inodetable_node_t`, two bytes, with the bits of `old` where nothing is assigned.
abbrev pub inode_unused : List ℕ → ℕ
inode_unused s = byte s 0 % 2

abbrev pub inode_page : List ℕ → ℕ
inode_page s = byte s 0 / 16 % 16 + byte s 1 * 16

unfoldable pub used_inode : List ℕ → ℕ → List ℕ
used_inode old page = (byte old 0 / 2 % 8 * 2 + page % 16 * 16) ∷ (page / 16 % 256) ∷ []

unfoldable pub unused_inode : List ℕ → List ℕ
unused_inode old = (byte old 0 / 2 * 2 + 1) ∷ byte old 1 ∷ []

-- `fs_node_t`, eight bytes.
abbrev pub node_unused : List ℕ → ℕ
node_unused s = byte s 0 % 2

abbrev pub node_inode : List ℕ → ℕ
node_inode s = byte s 0 / 16 % 16 + byte s 1 * 16

abbrev pub node_name : List ℕ → List ℕ
node_name s = drop 2 s

-- `strncpy`, and `strncmp` as an order: a string's end is read as 0.
unfoldable pub strncpy : ℕ → List ℕ → List ℕ
strncpy zero s = []
strncpy (suc n) [] = 0 ∷ strncpy n []
strncpy (suc n) (c ∷ s) = c ∷ strncpy n (if c == 0 then [] else s)

unfoldable pub strncmp : ℕ → List ℕ → List ℕ → Ordering
strncmp zero s t = Ordering.eq
strncmp (suc n) s t =
    let rest = strncmp n (drop 1 s) (drop 1 t) in
    if byte s 0 == byte t 0
    then if byte s 0 == 0 then Ordering.eq else rest
    else if ltb (byte s 0) (byte t 0)
    then Ordering.lt
    else Ordering.gt

-- A node for a new file in the bytes of `old`, and a node that is marked as unused.
unfoldable pub file_node : List ℕ → List ℕ → ℕ → List ℕ
file_node old name inode =
    (2 + byte old 0 / 4 % 4 * 4 + inode % 16 * 16) ∷ (inode / 16 % 256) ∷ strncpy 6 name

unfoldable pub unused_node : List ℕ → List ℕ
unused_node old = (byte old 0 / 2 * 2 + 1) ∷ drop 1 old
