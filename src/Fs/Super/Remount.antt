-- ===== src/Fs/Super/Remount.antt =====
-- Closing a file system and opening it again (fs/super.c): nothing of the super block and of the
-- freemaps is lost.
use ece344_os.Prelude.{ℕ, ◌+◌, ◌-◌, ◌*◌, ◌/◌, ◌%◌, ◌^◌, ◌≤◌, ◌<◌, ◌≡◌, refl, true, arith, some, ◌∙◌}
use ece344_os.Fs.Layout.{Buffer, block_size, zeros, memcpy, dsuper_size}
use ece344_os.Fs.Words.{get_int-words}
use ece344_os.Fs.Bitmap.{Bitmap, isset}
use ece344_os.Fs.Bitmap.Alloc.{isset-bit}
use ece344_os.Fs.Bitmap.Create.{create_lem}
use ece344_os.Fs.State.{Dsuper, Device, Testfs}
use ece344_os.Fs.Block.{write_device, write_blocks, read_blocks-eq}
use ece344_os.Fs.Super.{dsuper_bytes, dsuper_of_bytes, super_word, write_super_block}
use ece344_os.Fs.Super.Blocks.{IsLaid}
use ece344_os.Fs.Super.Mount.{
  opened, new_super, init_super_block, close_super_block, chains_empty, read_freemap,
}

-- The fields of a super block fit their C types.
pub record InRange (d : Dsuper) : Type 0 where
  pub inode_map : d.inode_freemap_start < 2 ^ 32
  pub block_map : d.block_freemap_start < 2 ^ 32
  pub inodes : d.inode_blocks_start < 2 ^ 32
  pub blocks : d.data_blocks_start < 2 ^ 32
  pub used_inodes : d.used_inode_count < 2 ^ 32
  pub used_blocks : d.used_block_count < 2 ^ 32
  pub limit : d.max_fs_blocks < 2 ^ 64

-- A super block read from bytes that agree with those of a super block in range is that one.
pub dsuper_of_bytes-dsuper_bytes :
    (d : Dsuper) (b : Buffer)
    → InRange d
    → ((k : ℕ) → k < 32 → b k ≡ dsuper_bytes d k)
    → dsuper_of_bytes b ≡ d
unfolding dsuper_of_bytes dsuper_bytes
dsuper_of_bytes-dsuper_bytes d b r h =
    let word = λ (i : ℕ) (hi : i < 8) (w : super_word d i < 2 ^ 32).
      get_int-words (super_word d) b i w (λ k small. h k (omega arith)) in
    ground (
      arith,
      word 0 (omega arith) r.inode_map,
      word 1 (omega arith) r.block_map,
      word 2 (omega arith) r.inodes,
      word 3 (omega arith) r.blocks,
      word 4 (omega arith) r.used_inodes,
      word 5 (omega arith) r.used_blocks,
      word 6 (omega arith) (omega arith),
      word 7 (omega arith) (omega (arith, r.limit)),
    )

isset-agree : (b c : Bitmap) (j : ℕ) → b.v (j / 8) ≡ c.v (j / 8) → isset b j ≡ isset c j
isset-agree b c j e = rw (isset-bit b j, isset-bit c j, e)

-- A freemap as it stands on the device.
record ReadBack (d : Device) (start size : ℕ) (b : Bitmap) : Type 0 where
  nbits : b.nbits ≡ 8192 * size * 8
  bytes : (k : ℕ) → k < size * 8192 → b.v k ≡ d.content (start + k / 8192) (k % 8192)

read_freemap-ReadBack :
    (start size : ℕ) (s : Testfs)
    → start + size ≤ s.dev.size
    → size ≤ 16
    → (b : Bitmap) × (read_freemap start size s ≡ some (b, s)) × ReadBack s.dev start size b
unfolding read_freemap
read_freemap-ReadBack start size s h small =
    let (b, e, f) = create_lem (8192 * size * 8) (omega arith) in
    (
      record b {
        v = memcpy b.v 0 (λ k. s.dev.content (start + k / 8192) (k % 8192)) 0 (size * 8192);
      },
      ground (arith, e, f.size, read_blocks-eq start size s h),
      record { nbits = f.size; bytes = λ k hk. ground arith },
    )

-- The device that testfs_close_super_block leaves.
abbrev closed : Testfs → Device
closed s =
    write_device
      (write_device (write_device s.dev (memcpy zeros 0 (dsuper_bytes s.sb) 0 dsuper_size) 0 1)
        s.inode_freemap.v s.sb.inode_freemap_start 1)
      s.block_freemap.v s.sb.block_freemap_start 16

close_super_block-eq :
    (s : Testfs)
    → chains_empty s.table 256 ≡ true
    → close_super_block s ≡ some (tt, record s { dev = closed s })
unfolding close_super_block write_super_block write_blocks
close_super_block-eq s h = ground arith

module _ (s : Testfs) (l : IsLaid s.sb) where
  closed-super : (k : ℕ) → k < 32 → (closed s).content 0 k ≡ dsuper_bytes s.sb k
  unfolding write_device
  closed-super k h = ground (arith, l.inode_map, l.block_map)

  closed-inode_map :
      (k : ℕ)
      → k < 8192
      → (closed s).content (s.sb.inode_freemap_start + k / 8192) (k % 8192) ≡ s.inode_freemap.v k
  unfolding write_device
  closed-inode_map k h =
      let a = s.sb.inode_freemap_start in
      let e : (a + k / 8192 - a) * 8192 + k % 8192 ≡ k = omega arith in
      ground (arith, l.inode_map, l.block_map)

  closed-block_map :
      (k : ℕ)
      → k < 16 * 8192
      → (closed s).content (s.sb.block_freemap_start + k / 8192) (k % 8192) ≡ s.block_freemap.v k
  unfolding write_device
  closed-block_map k h =
      let a = s.sb.block_freemap_start in
      let e : (a + k / 8192 - a) * 8192 + k % 8192 ≡ k = omega arith in
      ground (arith, l.inode_map, l.block_map)

  closed-size : 18 ≤ (closed s).size
  unfolding write_device
  closed-size = omega (arith, l.inode_map, l.block_map)

  closed-other : (blk k : ℕ) → 18 ≤ blk → (closed s).content blk k ≡ s.dev.content blk k
  unfolding write_device
  closed-other blk k h = ground (arith, l.inode_map, l.block_map)

-- What a file system keeps across testfs_close_super_block and testfs_init_super_block.
pub record Kept (s t : Testfs) : Type 0 where
  pub super : t.sb ≡ s.sb
  pub inode_bits : (j : ℕ) → j < 2 ^ 16 → isset t.inode_freemap j ≡ isset s.inode_freemap j
  pub block_bits : (j : ℕ) → j < 2 ^ 20 → isset t.block_freemap j ≡ isset s.block_freemap j
  pub inode_nbits : t.inode_freemap.nbits ≡ 2 ^ 16
  pub block_nbits : t.block_freemap.nbits ≡ 2 ^ 20
  pub rest : (blk k : ℕ) → 18 ≤ blk → t.dev.content blk k ≡ s.dev.content blk k

init_super_block-eq :
    (d : Device) (sb : Dsuper) (imap bmap : Bitmap)
    → 1 ≤ d.size
    → dsuper_of_bytes
        (memcpy zeros 0 (λ k. d.content (0 + k / block_size) (k % block_size)) 0 dsuper_size)
      ≡ sb
    → let s₁ = opened sb d in
      read_freemap sb.inode_freemap_start 1 s₁ ≡ some (imap, s₁)
      → let s₂ = record s₁ { inode_freemap = imap } in
        read_freemap sb.block_freemap_start 16 s₂ ≡ some (bmap, s₂)
        → init_super_block d
          ≡ some (tt, record (opened sb d) { inode_freemap = imap; block_freemap = bmap })
unfolding init_super_block
init_super_block-eq d sb imap bmap h e i b =
    ground (arith, read_blocks-eq 0 1 (opened (new_super 0) d) h, e, i, b)

-- A file system with the layout of mktestfs, fields in range and no inode in memory can be closed;
-- opening the device that is left succeeds, and gives back the super block, every bit of both
-- freemaps, and the blocks of inodes and data unchanged.
pub remount :
    (s : Testfs)
    → IsLaid s.sb
    → InRange s.sb
    → chains_empty s.table 256 ≡ true
    → (u t : Testfs) × (close_super_block s ≡ some (tt, u))
      × (init_super_block u.dev ≡ some (tt, t))
      × Kept s t
remount s l r h =
    let d = closed s in
    let size = closed-size s l in
    let s₁ = opened s.sb d in
    let (imap, ei, bi) =
      read_freemap-ReadBack s.sb.inode_freemap_start 1 s₁ (omega (arith, l.inode_map, size))
        (omega arith) in
    let (bmap, eb, bb) =
      read_freemap-ReadBack s.sb.block_freemap_start 16 (record s₁ { inode_freemap = imap })
        (omega (arith, l.block_map, size)) (omega arith) in
    let super =
      dsuper_of_bytes-dsuper_bytes s.sb
        (memcpy zeros 0 (λ k. d.content (0 + k / block_size) (k % block_size)) 0 dsuper_size) r
        (λ k hk.
          let e : 0 + (k - 0 + 0) / 8192 ≡ 0 = omega arith in
          let f : (k - 0 + 0) % 8192 ≡ k = omega arith in ground (arith, closed-super s l k hk)) in
    (
      record s { dev = d },
      record s₁ { inode_freemap = imap; block_freemap = bmap },
      close_super_block-eq s h,
      init_super_block-eq d s.sb imap bmap (omega (arith, size)) super ei eb,
      record {
        super = refl;
        inode_bits = λ j hj.
            isset-agree imap s.inode_freemap j
              (bi.bytes (j / 8) (omega arith) ∙ closed-inode_map s l (j / 8) (omega arith));
        block_bits = λ j hj.
            isset-agree bmap s.block_freemap j
              (bb.bytes (j / 8) (omega arith) ∙ closed-block_map s l (j / 8) (omega arith));
        inode_nbits = omega (arith, bi.nbits);
        block_nbits = omega (arith, bb.nbits);
        rest = closed-other s l;
      },
    )
