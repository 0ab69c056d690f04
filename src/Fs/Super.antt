-- ===== src/Fs/Super.antt =====
-- fs/super.c: the super block, and the allocation of inodes and blocks by the freemaps.
pub mod Blocks
pub mod Take
pub mod Free
pub mod Mount
pub mod Remount
use ece344_os.Prelude.{
  ℕ, zero, suc, ◌+◌, ◌-◌, ◌*◌, ◌/◌, ◌%◌, ◌^◌, Bool, Option, none, some, ltb, leb, ◌==◌,
  if◌then◌else◌, List, [], pure, fault, ◌>>=◌, ◌>>◌, modify,
}
use ece344_os.Fs.Errno.{Ret, num, err, enospc}
use ece344_os.Fs.Layout.{
  Buffer, block_size, super_block_size, inode_freemap_size, block_freemap_size, nr_inode_blocks,
  inodes_per_block, dsuper_size, zeros, memcpy, byte_of, get_int, to_ret,
}
use ece344_os.Fs.Bitmap
use ece344_os.Fs.Bitmap.{Bitmap, bits_per_word}
use ece344_os.Fs.State.{Dsuper, Device, Testfs, M, assert}
use ece344_os.Fs.Block.{write_blocks, zero_blocks, read_blocks}

-- The 32-bit word `i` of a `struct dsuper_block` in memory; `max_fs_blocks` takes two.
abbrev pub super_word : Dsuper → ℕ → ℕ
super_word d zero = d.inode_freemap_start
super_word d (suc zero) = d.block_freemap_start
super_word d (suc (suc zero)) = d.inode_blocks_start
super_word d (suc (suc (suc zero))) = d.data_blocks_start
super_word d (suc (suc (suc (suc zero)))) = d.used_inode_count
super_word d (suc (suc (suc (suc (suc zero))))) = d.used_block_count
super_word d (suc (suc (suc (suc (suc (suc zero)))))) = d.max_fs_blocks % 2 ^ 32
super_word d (suc (suc (suc (suc (suc (suc (suc i))))))) = d.max_fs_blocks / 2 ^ 32

-- A `struct dsuper_block` as bytes, and back.
unfoldable pub dsuper_bytes : Dsuper → Buffer
dsuper_bytes d k = byte_of (super_word d (k / 4)) (k % 4)

unfoldable pub dsuper_of_bytes : Buffer → Dsuper
dsuper_of_bytes b = record {
  inode_freemap_start = get_int b 0;
  block_freemap_start = get_int b 1;
  inode_blocks_start = get_int b 2;
  data_blocks_start = get_int b 3;
  used_inode_count = get_int b 4;
  used_block_count = get_int b 5;
  max_fs_blocks = get_int b 6 + 2 ^ 32 * get_int b 7;
}

-- `testfs_write_super_block`
unfoldable pub write_super_block : M (Unit {0})
write_super_block s = write_blocks (memcpy zeros 0 (dsuper_bytes s.sb) 0 dsuper_size) 0 1 s

-- `testfs_write_inode_freemap`
unfoldable pub write_inode_freemap : ℕ → M (Unit {0})
write_inode_freemap inode_nr s =
    let nr = inode_nr / (block_size * bits_per_word) in
    write_blocks (λ k. s.inode_freemap.v (nr * block_size + k)) (s.sb.inode_freemap_start + nr) 1 s

-- `testfs_write_block_freemap`
unfoldable pub write_block_freemap : ℕ → M (Unit {0})
write_block_freemap block_nr s =
    let nr = block_nr / (block_size * bits_per_word) in
    write_blocks (λ k. s.block_freemap.v (nr * block_size + k)) (s.sb.block_freemap_start + nr) 1 s

-- Running an operation of fs/bitmap.c on one of the two freemaps.
abbrev pub on_inode_freemap : (Bitmap → Option (Ret × Bitmap)) → M Ret
on_inode_freemap f s = elim (f s.inode_freemap) [
  | none ↦ none
  | some (r, b) ↦ some (r, record s { inode_freemap = b })
]

abbrev pub on_block_freemap : (Bitmap → Option (Ret × Bitmap)) → M Ret
on_block_freemap f s = elim (f s.block_freemap) [
  | none ↦ none
  | some (r, b) ↦ some (r, record s { block_freemap = b })
]

abbrev pub quiet : (Bitmap → ℕ → Option Bitmap) → ℕ → Bitmap → Option (Ret × Bitmap)
quiet f i b = elim (f b i) [ none ↦ none | some b' ↦ some (num 0, b') ]

-- `testfs_get_block_freemap`
unfoldable pub get_block_freemap : M Ret
get_block_freemap = do
  ret ← on_block_freemap Bitmap.alloc
  elim ret [ err e ↦ pure (err e) | num index ↦ write_block_freemap index >> pure (num index) ]

-- `testfs_put_block_freemap`
unfoldable pub put_block_freemap : ℕ → M (Unit {0})
put_block_freemap block_nr = do
  _ ← on_block_freemap (quiet Bitmap.unmark block_nr)
  write_block_freemap block_nr

abbrev pub set_used_inodes : (ℕ → ℕ) → M (Unit {0})
set_used_inodes f =
    modify (λ s. record s { sb = record (s.sb) { used_inode_count = f s.sb.used_inode_count } })

abbrev pub set_used_blocks : (ℕ → ℕ) → M (Unit {0})
set_used_blocks f =
    modify (λ s. record s { sb = record (s.sb) { used_block_count = f s.sb.used_block_count } })

-- `x++` and `x--` at `u32`
abbrev pub incr32 : ℕ → ℕ
incr32 x = (x + 1) % 2 ^ 32

abbrev pub decr32 : ℕ → ℕ
decr32 x = (x + 2 ^ 32 - 1) % 2 ^ 32

-- `testfs_get_inode_freemap`
unfoldable pub get_inode_freemap : M Ret
get_inode_freemap = do
  ret ← on_inode_freemap Bitmap.alloc
  elim ret [
    | err e ↦ pure (err e)
    | num index ↦ do
      write_inode_freemap index
      set_used_inodes incr32
      write_super_block
      pure (num index)
  ]

-- `testfs_put_inode_freemap`
unfoldable pub put_inode_freemap : ℕ → M (Unit {0})
put_inode_freemap inode_nr = do
  _ ← on_inode_freemap (quiet Bitmap.unmark inode_nr)
  write_inode_freemap inode_nr
  (λ s. assert (ltb 0 s.sb.used_inode_count) s)
  set_used_inodes decr32
  write_super_block

-- `testfs_alloc_block`
unfoldable pub alloc_block : M Ret
alloc_block s =
    if leb s.sb.max_fs_blocks s.sb.used_block_count
    then some (err enospc, s)
    else (do
      phy_block_nr ← get_block_freemap
      elim phy_block_nr [
        | err e ↦ pure (err e)
        | num nr ↦ do
          set_used_blocks incr32
          write_super_block
          (λ t. some (to_ret ((t.sb.data_blocks_start + nr) % 2 ^ 32), t))
      ])
        s

-- `testfs_free_block`: the block number less the start of the data is an `int`. Seeking to a
-- negative block ends the program.
unfoldable pub free_block : ℕ → M Ret
free_block block_nr = do
  assert (ltb block_nr (2 ^ 31))
  zero_blocks block_nr 1
  nr ← (λ s. some ((block_nr + 2 ^ 32 - s.sb.data_blocks_start) % 2 ^ 32, s))
  assert (ltb nr (2 ^ 31))
  put_block_freemap nr
  (λ s. assert (ltb 0 s.sb.used_block_count) s)
  set_used_blocks decr32
  write_super_block
  pure (num 0)
