-- ===== src/Fs/Super/Mount.antt =====
-- fs/super.c: making a file system, and opening and closing one; main of fs/mktestfs.c up to the
-- root directory. The device file opens, and malloc succeeds.
use ece344_os.Prelude.{
  ℕ, zero, suc, ◌+◌, ◌*◌, Bool, true, false, ◌&&◌, Option, none, some, List, [], ◌∷◌, ltb, pure,
  ◌>>=◌, ◌>>◌, modify,
}
use ece344_os.Fs.Layout.{
  block_size, super_block_size, inode_freemap_size, block_freemap_size, nr_inode_blocks,
  inodes_per_block, zeros, memcpy, dsuper_size,
}
use ece344_os.Fs.Bitmap
use ece344_os.Fs.Bitmap.{Bitmap, bits_per_word}
use ece344_os.Fs.State.{Dsuper, Device, Testfs, M, assert}
use ece344_os.Fs.Block.{write_blocks, zero_blocks, read_blocks}
use ece344_os.Fs.Super.{dsuper_of_bytes, write_super_block}

abbrev no_bitmap : Bitmap
no_bitmap = record { nbits = 0; v = zeros }

-- A program that has a super block and a device, and no freemaps and no inodes yet. The addresses
-- of inodes begin at 1.
abbrev pub opened : Dsuper → Device → Testfs
opened sb dev = record {
  sb = sb;
  dev = dev;
  inode_freemap = no_bitmap;
  block_freemap = no_bitmap;
  inodes = λ _. none;
  next = 1;
  table = λ _. [];
}

-- The super block that `testfs_make_super_block` fills in.
unfoldable pub new_super : ℕ → Dsuper
new_super max_fs_blocks =
    let inode_freemap_start = super_block_size in
    let block_freemap_start = inode_freemap_start + inode_freemap_size in
    let inode_blocks_start = block_freemap_start + block_freemap_size in
    record {
      inode_freemap_start = inode_freemap_start;
      block_freemap_start = block_freemap_start;
      inode_blocks_start = inode_blocks_start;
      data_blocks_start = inode_blocks_start + nr_inode_blocks;
      used_inode_count = 0;
      used_block_count = 0;
      max_fs_blocks = max_fs_blocks;
    }

-- `testfs_make_super_block`: opening the device for writing empties it.
unfoldable pub make_super_block : ℕ → Option ((Unit {0}) × Testfs)
make_super_block max_fs_blocks =
    write_super_block (opened (new_super max_fs_blocks) (record { content = λ _. zeros; size = 0 }))

-- `testfs_make_inode_freemap`
unfoldable pub make_inode_freemap : M (Unit {0})
make_inode_freemap s = zero_blocks s.sb.inode_freemap_start inode_freemap_size s

-- `testfs_make_block_freemap`
unfoldable pub make_block_freemap : M (Unit {0})
make_block_freemap s = zero_blocks s.sb.block_freemap_start block_freemap_size s

-- `testfs_make_inode_blocks`
unfoldable pub make_inode_blocks : M (Unit {0})
make_inode_blocks = do
  assert (ltb (nr_inode_blocks * inodes_per_block) (block_size * inode_freemap_size * 8 + 1))
  (λ s. zero_blocks s.sb.inode_blocks_start nr_inode_blocks s)

-- `bitmap_create`, and reading a freemap of `size` blocks from the device into it.
unfoldable pub read_freemap : ℕ → ℕ → M Bitmap
read_freemap start size s = elim (Bitmap.create (block_size * size * bits_per_word)) [
  | none ↦ none
  | some b ↦
      (do
        bytes ← read_blocks start size
        pure (record b { v = memcpy b.v 0 bytes 0 (size * block_size) }))
        s
]

-- `testfs_init_super_block`
unfoldable pub init_super_block : Device → Option ((Unit {0}) × Testfs)
init_super_block dev =
    (do
      block ← read_blocks 0 1
      modify (λ s. record s { sb = dsuper_of_bytes (memcpy zeros 0 block 0 dsuper_size) })
      imap ← (λ s. read_freemap s.sb.inode_freemap_start inode_freemap_size s)
      modify (λ s. record s { inode_freemap = imap })
      bmap ← (λ s. read_freemap s.sb.block_freemap_start block_freemap_size s)
      modify (λ s. record s { block_freemap = bmap }))
      (opened (new_super 0) dev)

-- The asserts of `inode_hash_destroy`: the first `n` chains are empty.
unfoldable pub chains_empty : (ℕ → List ℕ) → ℕ → Bool
chains_empty t zero = true
chains_empty t (suc n) = elim (t n) [ [] ↦ true | _ ∷ _ ↦ false ] && chains_empty t n

-- `testfs_close_super_block` where there are no freemaps: the device that is left.
unfoldable pub close_new : M (Unit {0})
close_new = do write_super_block; (λ s. assert (chains_empty s.table 256) s)

-- `testfs_close_super_block` with both freemaps.
unfoldable pub close_super_block : M (Unit {0})
close_super_block = do
  write_super_block
  (λ s. assert (chains_empty s.table 256) s)
  (λ s. write_blocks s.inode_freemap.v s.sb.inode_freemap_start inode_freemap_size s)
  (λ s. write_blocks s.block_freemap.v s.sb.block_freemap_start block_freemap_size s)

-- `main` of fs/mktestfs.c, up to the second opening of the device.
unfoldable pub mkfs : ℕ → Option ((Unit {0}) × Testfs)
mkfs max_fs_blocks = elim (make_super_block max_fs_blocks) [
  | none ↦ none
  | some (_, s) ↦
      elim ((do make_inode_freemap; make_block_freemap; make_inode_blocks; close_new) s) [
        | none ↦ none
        | some (_, t) ↦ init_super_block t.dev
      ]
]
