-- ===== src/Fs/State.antt =====
-- The state of the file system program: the device, the super block with its freemaps, and the
-- inodes in memory with their hash table (fs/super.h, fs/inode.h). Operations are state passing:
-- `none` is a failed assert, an EXIT, or an access through a dangling pointer.
use ece344_os.Prelude.{ℕ, Bool, true, false, Option, none, some, List, upd, Op}
use ece344_os.Fs.Layout.{Buffer}
use ece344_os.Fs.Bitmap.{Bitmap}

-- `struct dsuper_block`
pub record Dsuper : Type 0 where
  pub inode_freemap_start : ℕ
  pub block_freemap_start : ℕ
  pub inode_blocks_start : ℕ
  pub data_blocks_start : ℕ
  pub used_inode_count : ℕ
  pub used_block_count : ℕ
  pub max_fs_blocks : ℕ

-- The device file: its blocks, and its length in blocks.
pub record Device : Type 0 where
  pub content : ℕ → Buffer
  pub size : ℕ

-- `struct dinode`; `i_type` is 0 for I_NONE, 1 for I_FILE and 2 for I_DIR
pub record Dinode : Type 0 where
  pub i_type : ℕ
  pub i_block_nr : ℕ → ℕ
  pub i_indirect : ℕ
  pub i_dindirect : ℕ
  pub block_count : ℕ
  pub i_size : ℕ

-- `struct inode`; `dirty` is the flag I_FLAGS_DIRTY of `i_flags`
pub record Inode : Type 0 where
  pub din : Dinode
  pub dirty : Bool
  pub i_nr : ℕ
  pub i_count : ℕ

-- `struct super_block`, the device behind it, the inodes in memory by address, and the chains of
-- inode_hash_table.
pub record Testfs : Type 0 where
  pub sb : Dsuper
  pub dev : Device
  pub inode_freemap : Bitmap
  pub block_freemap : Bitmap
  pub inodes : ℕ → Option Inode
  pub next : ℕ
  pub table : ℕ → List ℕ

abbrev pub M : Type 0 → Type 0
M A = Op Testfs A

abbrev pub assert : Bool → M (Unit {0})
assert true s = some (tt, s)
assert false s = none

-- Reading and writing the inode at an address.
abbrev pub load : ℕ → M Inode
load p s = elim (s.inodes p) [ none ↦ none | some i ↦ some (i, s) ]

abbrev pub store : ℕ → Inode → M (Unit {0})
store p i s = some (tt, record s { inodes = upd s.inodes p (some i) })
