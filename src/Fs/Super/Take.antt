-- ===== src/Fs/Super/Take.antt =====
-- The allocation of data blocks: testfs_alloc_block of fs/super.c.
use mathlib.Core.Path.{subst}
use ece344_os.Prelude.{
  ℕ, ◌+◌, ◌^◌, ◌≤◌, ◌<◌, ◌≡◌, refl, ◌⊎◌, inl, inr, true, false, ◌||◌, arith, leb, ◌==◌, Option,
  some, Bool-cases, sym, ◌∙◌,
}
use ece344_os.Fs.Errno.{Ret, num, err, enospc}
use ece344_os.Fs.Bitmap
use ece344_os.Fs.Bitmap.{Bitmap, isset, nr_allocated}
use ece344_os.Fs.Bitmap.Alloc.{Allocates, full_up, taken, alloc-Allocates}
use ece344_os.Fs.Bitmap.Count.{nr_allocated-taken, nr_allocated-le}
use ece344_os.Fs.State.{Testfs}
use ece344_os.Fs.Block.{write_blocks}
use ece344_os.Fs.Super.{
  write_super_block, write_block_freemap, get_block_freemap, alloc_block, incr32,
}
use ece344_os.Fs.Super.Blocks.{BlocksValid, with_map, changed, changed-other, changed-BlocksValid}

alloc_block-full :
    (s : Testfs) → s.sb.max_fs_blocks ≤ s.sb.used_block_count → alloc_block s ≡ some (err enospc, s)
unfolding alloc_block
alloc_block-full s h = ground arith

get_block_freemap-refused :
    (s : Testfs)
    → Bitmap.alloc s.block_freemap ≡ some (err enospc, s.block_freemap)
    → get_block_freemap s ≡ some (err enospc, s)
unfolding get_block_freemap
get_block_freemap-refused s e = ground arith

get_block_freemap-taken :
    (s : Testfs) (i : ℕ) (b : Bitmap)
    → Bitmap.alloc s.block_freemap ≡ some (num i, b)
    → get_block_freemap s ≡ some (num i, with_map s b i)
unfolding get_block_freemap write_block_freemap write_blocks
get_block_freemap-taken s i b e = ground arith

alloc_block-refused :
    (s : Testfs)
    → s.sb.used_block_count < s.sb.max_fs_blocks
    → Bitmap.alloc s.block_freemap ≡ some (err enospc, s.block_freemap)
    → alloc_block s ≡ some (err enospc, s)
unfolding alloc_block
alloc_block-refused s h e = ground (arith, get_block_freemap-refused s e)

alloc_block-taken :
    (s : Testfs) (i : ℕ) (b : Bitmap)
    → s.sb.used_block_count < s.sb.max_fs_blocks
    → s.sb.data_blocks_start + i < 2 ^ 31
    → Bitmap.alloc s.block_freemap ≡ some (num i, b)
    → alloc_block s
      ≡ some (num (s.sb.data_blocks_start + i), changed s b i (incr32 s.sb.used_block_count))
unfolding alloc_block write_super_block write_blocks
alloc_block-taken s i b h w e = ground (arith, get_block_freemap-taken s i b e)

-- What testfs_alloc_block may do: refuse, because the limit is reached or no block is free, or
-- take a free block.
pub data Takes (s : Testfs) : Option (Ret × Testfs) → Type 0 where
  refused :
      (s.sb.max_fs_blocks ≤ s.sb.used_block_count)
        ⊎ ((i : ℕ) → i < 2 ^ 20 → isset s.block_freemap i ≡ true)
      → Takes s (some (err enospc, s))
  gives :
      (i : ℕ) (t : Testfs)
      → i < 2 ^ 20
      → s.sb.used_block_count < s.sb.max_fs_blocks
      → isset s.block_freemap i ≡ false
      → ((j : ℕ) → isset t.block_freemap j ≡ (j == i || isset s.block_freemap j))
      → t.sb.used_block_count ≡ s.sb.used_block_count + 1
      → ((blk k : ℕ) → 18 ≤ blk → t.dev.content blk k ≡ s.dev.content blk k)
      → BlocksValid t
      → Takes s (some (num (146 + i), t))

alloc_block-cases :
    (s : Testfs) (r : Option (Ret × Bitmap))
    → BlocksValid s
    → s.sb.used_block_count < s.sb.max_fs_blocks
    → Bitmap.alloc s.block_freemap ≡ r
    → Allocates s.block_freemap r
    → Takes s (alloc_block s)
alloc_block-cases s _ v h e (full_up f) =
    subst (Takes s) (sym (alloc_block-refused s h e)) (refused (inr (λ i hi. f i (rw v.nbits hi))))
alloc_block-cases s _ v h e (taken i b hi c low nb bits same w) = subst (Takes s) (sym step) (
    gives i (changed s b i (s.sb.used_block_count + 1)) below h c bits refl
      (changed-other s b i _ v below same)
      (changed-BlocksValid s b i _ v below same w (nb ∙ v.nbits) count))
  where
    below : i < 2 ^ 20
    below = omega (arith, v.nbits)

    used : s.sb.used_block_count ≤ 2 ^ 20
    used = omega (arith, v.counted, v.nbits, nr_allocated-le s.block_freemap)

    count : s.sb.used_block_count + 1 ≡ nr_allocated b
    count = omega (arith, v.counted, nr_allocated-taken s.block_freemap b i nb hi c bits)

    incr : incr32 s.sb.used_block_count ≡ s.sb.used_block_count + 1
    incr = omega (arith, used)

    step : alloc_block s ≡ some (num (146 + i), changed s b i (s.sb.used_block_count + 1))
    step =
        alloc_block-taken s i b h (omega (arith, v.laid.blocks, below)) e ∙ rw (incr, v.laid.blocks)

-- On a state whose block freemap and counts agree, testfs_alloc_block does not abort. It returns
-- -ENOSPC and changes nothing if the limit max_fs_blocks is reached or every block is in use.
-- Otherwise it returns a block that was free, marks it and no other, adds one to the count of used
-- blocks, leaves the inodes and the data on the device as they were, and keeps freemap, count and
-- device in agreement.
pub alloc_block-Takes : (s : Testfs) → BlocksValid s → Takes s (alloc_block s)
alloc_block-Takes s v = elim (Bool-cases (leb s.sb.max_fs_blocks s.sb.used_block_count)) [
  | inl e ↦ subst (Takes s) (sym (alloc_block-full s (ground arith))) (refused (inl (ground arith)))
  | inr e ↦ alloc_block-cases s _ v (ground arith) refl (alloc-Allocates s.block_freemap v.map)
]
