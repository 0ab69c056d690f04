-- ===== src/Fs/Super/Free.antt =====
-- The release of data blocks: testfs_free_block of fs/super.c.
use ece344_os.Prelude.{
  ℕ, ◌+◌, ◌-◌, ◌%◌, ◌^◌, ◌≤◌, ◌<◌, ◌≡◌, ◌≢◌, true, not, ◌&&◌, arith, ◌==◌, some, ◌∙◌,
}
use ece344_os.Fs.Errno.{num}
use ece344_os.Fs.Layout.{block_size, zeros}
use ece344_os.Fs.Bitmap
use ece344_os.Fs.Bitmap.{Bitmap, isset, nr_allocated}
use ece344_os.Fs.Bitmap.Count.{nr_allocated-le, nr_allocated-unmark}
use ece344_os.Fs.State.{Testfs}
use ece344_os.Fs.Block.{write_device, write_blocks, zero_blocks}
use ece344_os.Fs.Super.{
  write_super_block, write_block_freemap, put_block_freemap, free_block, decr32,
}
use ece344_os.Fs.Super.Blocks.{BlocksValid, with_map, changed, changed-other, changed-BlocksValid}

-- The state after the block has been filled with zeros.
abbrev zeroed : Testfs → ℕ → Testfs
zeroed s i = record s { dev = write_device s.dev zeros (146 + i) 1 }

zeroed-BlocksValid : (s : Testfs) (i : ℕ) → BlocksValid s → BlocksValid (zeroed s i)
unfolding write_device
zeroed-BlocksValid s i v = record {
  laid = v.laid;
  map = v.map;
  nbits = v.nbits;
  counted = v.counted;
  saved = λ k hk. ground (arith, v.saved k hk);
  super_saved = λ k hk. ground (arith, v.super_saved k hk);
}

put_block_freemap-eq :
    (s : Testfs) (i : ℕ) (b : Bitmap)
    → Bitmap.unmark s.block_freemap i ≡ some b
    → put_block_freemap i s ≡ some (tt, with_map s b i)
unfolding put_block_freemap write_block_freemap write_blocks
put_block_freemap-eq s i b e = ground arith

free_block-eq :
    (s : Testfs) (i : ℕ) (b : Bitmap)
    → i < 2 ^ 20
    → s.sb.data_blocks_start ≡ 146
    → 0 < s.sb.used_block_count
    → Bitmap.unmark s.block_freemap i ≡ some b
    → free_block (146 + i) s ≡ some (num 0, changed (zeroed s i) b i (decr32 s.sb.used_block_count))
unfolding free_block zero_blocks write_super_block write_blocks
free_block-eq s i b hi d p e =
    let m : (146 + i + 2 ^ 32 - s.sb.data_blocks_start) % 2 ^ 32 ≡ i = omega arith in
    ground (arith, put_block_freemap-eq (zeroed s i) i b e)

-- What testfs_free_block does for the block of the bit `i`.
pub record Freed (s : Testfs) (i : ℕ) (t : Testfs) : Type 0 where
  pub bits : (j : ℕ) → isset t.block_freemap j ≡ (not (j == i) && isset s.block_freemap j)
  pub count : t.sb.used_block_count + 1 ≡ s.sb.used_block_count
  pub cleared : (k : ℕ) → k < block_size → t.dev.content (146 + i) k ≡ 0
  pub others : (blk k : ℕ) → 18 ≤ blk → blk ≢ 146 + i → t.dev.content blk k ≡ s.dev.content blk k
  pub valid : BlocksValid t

-- On a state whose block freemap and counts agree, freeing a block that is in use does not abort:
-- testfs_free_block fills the block with zeros, clears its bit and no other, takes one off the
-- count, leaves the other blocks of inodes and data as they were, and keeps the agreement.
pub free_block-Freed :
    (s : Testfs) (i : ℕ)
    → BlocksValid s
    → i < 2 ^ 20
    → isset s.block_freemap i ≡ true
    → (t : Testfs) × (free_block (146 + i) s ≡ some (num 0, t)) × Freed s i t
unfolding write_device
free_block-Freed s i v hi on =
    let (b, e, count, nb, bits, same, w) =
      nr_allocated-unmark s.block_freemap i v.map (omega (arith, v.nbits)) on in
    let z = zeroed-BlocksValid s i v in
    let used : s.sb.used_block_count ≤ 2 ^ 20 =
      omega (arith, v.counted, v.nbits, nr_allocated-le s.block_freemap) in
    let d : decr32 s.sb.used_block_count + 1 ≡ s.sb.used_block_count =
      omega (arith, v.counted, count, used) in
    (
      changed (zeroed s i) b i (decr32 s.sb.used_block_count),
      free_block-eq s i b hi v.laid.blocks (omega (arith, v.counted, count)) e,
      record {
        bits = bits;
        count = d;
        cleared = λ k hk. ground (
          arith,
          changed-other (zeroed s i) b i (decr32 s.sb.used_block_count) z hi same (146 + i) k
              (omega arith),
        );
        others = λ blk k l ne. ground (
          arith,
          changed-other (zeroed s i) b i (decr32 s.sb.used_block_count) z hi same blk k l,
        );
        valid =
            changed-BlocksValid (zeroed s i) b i _ z hi same w (nb ∙ v.nbits)
              (omega (arith, d, v.counted, count));
      },
    )
