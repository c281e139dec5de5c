-- ===== src/Dataflash.antt =====
-- firmware/dataflash: a file system on a data flash chip (df.c, fs.h and fs.c).
-- The chip is its memory of 4096 pages and its two buffers, each page and buffer a list of 528 bytes;
-- a function of df.c is what its opcode does with them, and the wait for the chip is left out.
-- Bytes behind the end of a page are read as 0.
pub mod Layout
pub mod Pages
pub mod Inodes
pub mod Root
pub mod Directory
pub mod Files
pub mod Bytes
pub mod Allocation
pub mod Commit
pub mod Scan
pub mod Recovery
pub mod Listing
pub mod Saved
pub mod Shifting
pub mod Creation
pub mod Names
pub mod Sharing
pub mod Tables
pub mod Format
pub mod Restart
pub mod Taking
pub mod Contents
pub mod Fixtures
mod Tests
use matemat.Base.{
  ℕ, ◌+◌, ◌*◌, ◌%◌, List, [], ◌∷◌, ◌++◌, ◌==◌, if◌then◌else◌, length, take, drop, get_or,
}

pub data Buffer : Type 0 where
  df_buf1 df_buf2 : Buffer

pub record Flash : Type 0 where
  pub memory : ℕ → List ℕ
  pub buf1 : List ℕ
  pub buf2 : List ℕ

-- `n` bytes at an index, and the bytes with others written over them from an index on.
abbrev pub slice : List ℕ → ℕ → ℕ → List ℕ
slice s at n = take n (drop at s)

unfoldable pub splice : List ℕ → ℕ → List ℕ → List ℕ
splice s at bytes = take at s ++ (bytes ++ drop (at + length bytes) s)

-- The twelve bits of a page's number that the chip reads.
abbrev pub page_address : ℕ → ℕ
page_address page = page % 4096

unfoldable pub df_buf_load : Buffer → ℕ → Flash → Flash
df_buf_load df_buf1 page f = record f { buf1 = f.memory (page_address page) }
df_buf_load df_buf2 page f = record f { buf2 = f.memory (page_address page) }

unfoldable pub df_buf_read : Buffer → ℕ → ℕ → Flash → List ℕ
df_buf_read df_buf1 offset len f = slice f.buf1 offset len
df_buf_read df_buf2 offset len f = slice f.buf2 offset len

unfoldable pub df_buf_write : Buffer → List ℕ → ℕ → Flash → Flash
df_buf_write df_buf1 bytes offset f = record f { buf1 = splice f.buf1 offset bytes }
df_buf_write df_buf2 bytes offset f = record f { buf2 = splice f.buf2 offset bytes }

-- The memory with one page programmed.
unfoldable pub program : ℕ → List ℕ → (ℕ → List ℕ) → ℕ → List ℕ
program page bytes memory p = if p == page_address page then bytes else memory p

unfoldable pub df_buf_save : Buffer → ℕ → Flash → Flash
df_buf_save df_buf1 page f = record f { memory = program page f.buf1 f.memory }
df_buf_save df_buf2 page f = record f { memory = program page f.buf2 f.memory }

unfoldable pub df_flash_read : ℕ → ℕ → ℕ → Flash → List ℕ
df_flash_read page offset len f = slice (f.memory (page_address page)) offset len

-- DF_PAGES, DF_PAGESIZE, FS_DATA_OFFSET, FS_CRC_OFFSET and FS_CRC_LENGTH, FS_DATASIZE.
abbrev pub df_pages : ℕ
df_pages = 4096

abbrev pub df_page_size : ℕ
df_page_size = 528

abbrev pub fs_data_offset : ℕ
fs_data_offset = 15

abbrev pub fs_crc_offset : ℕ
fs_crc_offset = 527

abbrev pub fs_datasize : ℕ
fs_datasize = 512

-- FS_ROOTNODE_INODETABLE_OFFSET, FS_ROOTNODE_NODETABLE_OFFSET and FS_NODES_IN_ROOT: avr-gcc packs
-- `fs_page_t` into 4 bytes, `fs_node_t` into 8, `fs_root_t` into 40.
abbrev pub inodetable_offset : ℕ
inodetable_offset = 8

abbrev pub nodetable_offset : ℕ
nodetable_offset = 40

abbrev pub nodes_in_root : ℕ
nodes_in_root = 60

abbrev pub fs_filename : ℕ
fs_filename = 6

-- The page number, inode or index for none.
abbrev pub none_ffff : ℕ
none_ffff = 0xffff

pub data Status : Type 0 where
  fs_ok fs_nosuchfile fs_eof fs_badpage fs_badinode fs_duplicate fs_mem fs_badseek : Status

pub record Fs : Type 0 where
  pub flash : Flash
  pub root : ℕ
  pub version : ℕ
  pub last_free : ℕ

-- `_crc_ibutton_update` of the C library, and what memory from `malloc` and on the stack holds
-- before it is written; `malloc` is taken to succeed.
pub record Env : Type 0 where
  pub crc_update : ℕ → ℕ → ℕ
  pub junk : List ℕ
