-- ===== src/Fs/ReadWrite/ReadBack.antt =====
-- `testfs_write_data` and then `testfs_read_data` (fs/read_write.c).
use ece344_os.Prelude.{
  ℕ, ◌+◌, ◌-◌, ◌*◌, ◌^◌, ◌≤◌, ◌<◌, ◌≡◌, ◌≢◌, Bool, refl, sym, some, true, Option, arith,
}
use ece344_os.Fs.Errno.{num}
use ece344_os.Fs.Layout.{Buffer, block_size}
use ece344_os.Fs.State.{Dinode, Inode, Device, Testfs}
use ece344_os.Fs.ReadWrite.{max_block_nr, write_data, read_data}
use ece344_os.Fs.ReadWrite.Physical.{block_of, IsOnDevice}
use ece344_os.Fs.ReadWrite.Read.{file_byte, reads, available, read_data-Reads}
use ece344_os.Fs.ReadWrite.Kept.{entry_of-agree}
use ece344_os.Fs.ReadWrite.Overwrite.{IsReady, writes, grown, write_data-Writes}

grown-block_of :
    (c : ℕ → Buffer) (d : Dinode) (end n : ℕ) → block_of c (grown d end) n ≡ block_of c d n
unfolding block_of
grown-block_of c d end n = refl

pub grown-file_byte :
    (c : ℕ → Buffer) (d : Dinode) (end o : ℕ) → file_byte c (grown d end) o ≡ file_byte c d o
unfolding file_byte block_of
grown-file_byte c d end o = refl

-- The blocks still lie on the device.
pub written-IsOnDevice :
    (s : Testfs) (p : ℕ) (i : Inode) (start size end : ℕ) (dev : Device) (inodes : ℕ → Option Inode)
    → IsReady s p i start size
    → dev.size ≡ s.dev.size
    → ((n : ℕ) → n < max_block_nr → block_of dev.content i.din n ≡ block_of s.dev.content i.din n)
    → ((b k : ℕ)
        → ((n : ℕ)
            → n < max_block_nr
            → 0 < block_of s.dev.content i.din n
            → b ≢ block_of s.dev.content i.din n)
        → dev.content b k ≡ s.dev.content b k)
    → IsOnDevice (record s { dev = dev; inodes = inodes }) (grown i.din end)
written-IsOnDevice s p i start size end dev inodes r sz blocks rest =
    let v = r.placed in
    let kept = λ (k : ℕ).
      entry_of-agree s.dev.content dev.content i.din.i_dindirect k
        (λ j. rest i.din.i_dindirect j (λ n hn pos e. r.separate.dindirect n hn pos (sym e))) in
    record {
      small = omega (arith, sz, v.small);
      indirect = omega (arith, sz, v.indirect);
      dindirect = omega (arith, sz, v.dindirect);
      tables = λ k h. omega (arith, sz, v.tables k h, kept k);
      blocks = λ n h.
          omega (arith, sz, v.blocks n h, blocks n h, grown-block_of dev.content i.din end n);
    }

-- Where the inode is in memory, its blocks lie on the device and serve once each, and those of the
-- bytes to write exist, at least one byte is written, of a size that an `int` holds and within the
-- largest file, and the file's size is within it too: what `testfs_write_data` has written is what
-- `testfs_read_data` of the same place and size returns, and both return that size.
pub read_data-write :
    (s : Testfs) (p : ℕ) (i : Inode) (start size : ℕ) (buf empty : Buffer) (junk : ℕ → Bool)
    → IsReady s p i start size
    → 0 < size
    → size < 2 ^ 31
    → start + size ≤ max_block_nr * block_size
    → i.din.i_size ≤ max_block_nr * block_size
    → (u : Testfs) × (out : Buffer) × (write_data junk p buf start size s ≡ some (num size, u))
      × (read_data p empty start size u ≡ some ((num size, out), u))
      × ((k : ℕ) → k < size → out k ≡ buf k)
unfolding available
read_data-write s p i start size buf empty junk r pos small inside sized =
    elim (write_data-Writes s p i start size buf junk r pos small inside (omega arith)) [
      | writes dev inodes e here others sz blocks new before after rest ↦
          let u : Testfs = record s { dev = dev; inodes = inodes } in
          let i' : Inode = record i { din = grown i.din (start + size); dirty = true } in
          let whole : available i'.din start size ≡ size = ground arith in
          elim (read_data-Reads u p i' start size empty here
            (written-IsOnDevice s p i start size (start + size) dev inodes r sz blocks rest)
            (ground arith) (ground arith) (omega arith) small) [
              | reads out f mid first last ↦ (
                u,
                out,
                e,
                ground (arith, f, whole),
                λ k h.
                    let at : start + k - start ≡ k = omega arith in
                    ground (
                      arith,
                      mid k,
                      grown-file_byte dev.content i.din (start + size) (start + k),
                      new (start + k),
                      at,
                      whole,
                      h,
                    ),
              )
            ]
    ]
