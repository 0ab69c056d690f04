-- ===== src/Fs/Super/Blocks.antt =====
-- The block freemap, its count and their copies on the device (fs/super.c), across a change of one
-- bit.
use ece344_os.Prelude.{
  ℕ, ◌+◌, ◌*◌, ◌/◌, ◌%◌, ◌^◌, ◌≤◌, ◌<◌, ◌≡◌, ◌≢◌, inl, inr, arith, ◌==◌, Bool-cases,
}
use ece344_os.Fs.Layout.{zeros, memcpy, dsuper_size}
use ece344_os.Fs.Bitmap.{Bitmap, nr_allocated}
use ece344_os.Fs.Bitmap.Alloc.{IsValid}
use ece344_os.Fs.State.{Dsuper, Testfs}
use ece344_os.Fs.Block.{write_device}
use ece344_os.Fs.Super.{dsuper_bytes}

-- The layout that mktestfs makes: the super block, 1 block of inode freemap, 16 of block freemap,
-- 128 of inodes, then the data.
pub record IsLaid (d : Dsuper) : Type 0 where
  pub inode_map : d.inode_freemap_start ≡ 1
  pub block_map : d.block_freemap_start ≡ 2
  pub inodes : d.inode_blocks_start ≡ 18
  pub blocks : d.data_blocks_start ≡ 146

-- The block freemap and the count of used blocks agree, in memory and on the device.
pub record BlocksValid (s : Testfs) : Type 0 where
  pub laid : IsLaid s.sb
  pub map : IsValid s.block_freemap
  pub nbits : s.block_freemap.nbits ≡ 2 ^ 20
  pub counted : s.sb.used_block_count ≡ nr_allocated s.block_freemap
  pub saved : (k : ℕ) → k < 2 ^ 17 → s.dev.content (2 + k / 8192) (k % 8192) ≡ s.block_freemap.v k
  pub super_saved : (k : ℕ) → k < 32 → s.dev.content 0 k ≡ dsuper_bytes s.sb k

-- The states that the writes of one bit's change go through.
abbrev pub with_map : Testfs → Bitmap → ℕ → Testfs
with_map s b i = record s {
  block_freemap = b;
  dev =
      write_device s.dev (λ k. b.v (i / 65536 * 8192 + k)) (s.sb.block_freemap_start + i / 65536) 1;
}

abbrev pub with_count : Testfs → ℕ → Testfs
with_count s n =
    let sb' = record (s.sb) { used_block_count = n } in
    record s {
      sb = sb';
      dev = write_device s.dev (memcpy zeros 0 (dsuper_bytes sb') 0 dsuper_size) 0 1;
    }

-- The state after a change of the bit `i` to the bitmap `b`, with the count `n`.
abbrev pub changed : Testfs → Bitmap → ℕ → ℕ → Testfs
changed s b i n = with_count (with_map s b i) n

module _ (s : Testfs) (b : Bitmap) (i n : ℕ) (v : BlocksValid s) (hi : i < 2 ^ 20)
    (same : (k : ℕ) → k ≢ i / 8 → b.v k ≡ s.block_freemap.v k) where
  pub changed-saved :
      (k : ℕ) → k < 2 ^ 17 → (changed s b i n).dev.content (2 + k / 8192) (k % 8192) ≡ b.v k
  unfolding write_device
  changed-saved k hk = elim (Bool-cases (k / 8192 == i / 65536)) [
    | inl e ↦
        let f : i / 65536 * 8192 + (0 * 8192 + k % 8192) ≡ k = ground arith in
        ground (arith, v.laid.block_map)
    | inr e ↦ ground (arith, v.laid.block_map, v.saved k hk, same k)
  ]

  pub changed-super :
      (k : ℕ) → k < 32 → (changed s b i n).dev.content 0 k ≡ dsuper_bytes (changed s b i n).sb k
  unfolding write_device
  changed-super k hk = ground arith

  -- The blocks of inodes and data are left alone.
  pub changed-other :
      (blk k : ℕ) → 18 ≤ blk → (changed s b i n).dev.content blk k ≡ s.dev.content blk k
  unfolding write_device
  changed-other blk k h = ground (arith, v.laid.block_map)

  pub changed-BlocksValid :
      IsValid b → b.nbits ≡ 2 ^ 20 → n ≡ nr_allocated b → BlocksValid (changed s b i n)
  changed-BlocksValid w e c = record {
    laid = record {
      inode_map = v.laid.inode_map;
      block_map = v.laid.block_map;
      inodes = v.laid.inodes;
      blocks = v.laid.blocks;
    };
    map = w;
    nbits = e;
    counted = c;
    saved = changed-saved;
    super_saved = changed-super;
  }
