-- ===== src/Fs/FileTests.antt =====
-- The theorems on inodes and the contents of files at concrete inputs.
use ece344_os.Prelude.{
  ℕ, ◌+◌, ◌-◌, ◌/◌, ◌%◌, ◌^◌, ◌≡◌, ◌≢◌, ◌<◌, true, refl, false, arith, none, some, [], ◌==◌,
  if◌then◌else◌,
}
use ece344_os.Fs.Errno.{num}
use ece344_os.Fs.Layout.{Buffer, zeros}
use ece344_os.Fs.State.{Inode, Testfs}
use ece344_os.Fs.Inode.{sync_inode, load_inode}
use ece344_os.Fs.Inode.Saved.{InRange, IsSame, inode_byte, load_inode-sync}
use ece344_os.Fs.ReadWrite.{read_data, write_data, max_block_nr}
use ece344_os.Fs.ReadWrite.Physical.{block_of, entry_of, IsOnDevice}
use ece344_os.Fs.ReadWrite.Kept.{IsSeparate}
use ece344_os.Fs.ReadWrite.Overwrite.{IsReady, Writes, write_data-Writes}
use ece344_os.Fs.ReadWrite.ReadBack.{read_data-write}
use ece344_os.Fs.ReadWrite.Read.{Reads, read_data-Reads, available}

-- A file of two blocks, at 200 and 201, on a device of 300 blocks.
abbrev two_blocks : Inode
two_blocks = record {
  din = record {
    i_type = 1;
    i_block_nr = λ k. if k == 0 then 200 else if k == 1 then 201 else 0;
    i_indirect = 0;
    i_dindirect = 0;
    block_count = 2;
    i_size = 10000;
  };
  dirty = false;
  i_nr = 3;
  i_count = 1;
}

abbrev file_fs : Testfs
file_fs = record {
  sb = record {
    inode_freemap_start = 1;
    block_freemap_start = 2;
    inode_blocks_start = 18;
    data_blocks_start = 146;
    used_inode_count = 2;
    used_block_count = 3;
    max_fs_blocks = 300;
  };
  dev = record { content = λ b k. (b + k) % 256; size = 300 };
  inode_freemap = record { nbits = 2 ^ 16; v = zeros };
  block_freemap = record { nbits = 2 ^ 20; v = zeros };
  inodes = λ p. if p == 7 then some two_blocks else none;
  next = 8;
  table = λ _. [];
}

no_entries : (i : ℕ) → entry_of file_fs.dev.content 0 i ≡ 0
unfolding entry_of
no_entries i = refl

blocks_on_device : (n : ℕ) → n < max_block_nr → block_of file_fs.dev.content two_blocks.din n < 300
unfolding block_of
blocks_on_device n h =
    ground
      (arith, no_entries (n - 10), no_entries ((n - 2058) / 2048), no_entries ((n - 2058) % 2048))

two_blocks-IsOnDevice : IsOnDevice file_fs two_blocks.din
two_blocks-IsOnDevice = record {
  small = omega arith;
  indirect = omega arith;
  dindirect = omega arith;
  tables = λ k h. ground (arith, no_entries k);
  blocks = blocks_on_device;
}

-- The read crosses from the first block to the second.
read_data-Reads_example :
    Reads file_fs two_blocks.din 8190 0
      (available two_blocks.din 8190 10)
      zeros
      (read_data 7 zeros 8190 10 file_fs)
read_data-Reads_example =
    read_data-Reads file_fs 7 two_blocks 8190 10 zeros refl two_blocks-IsOnDevice (omega arith)
      (omega arith) (omega arith) (omega arith)

abbrev dirty_file : Inode
dirty_file = record two_blocks { dirty = true }

abbrev dirty_fs : Testfs
dirty_fs = record file_fs { inodes = λ p. if p == 7 then some dirty_file else none }

dirty_file-InRange : InRange dirty_file.din
dirty_file-InRange = record {
  i_type = omega arith;
  direct = λ k h. ground arith;
  indirect = omega arith;
  dindirect = omega arith;
  count = omega arith;
  i_size = omega arith;
}

load_inode-sync_example :
    (t u : Testfs) × (j : Inode) × (sync_inode 7 dirty_fs ≡ some (tt, t))
    × (t.inodes 7 ≡ some (record dirty_file { dirty = false }))
    × (load_inode 3 t ≡ some (t.next, u))
    × (u.inodes t.next ≡ some j)
    × (j.i_nr ≡ 3)
    × IsSame j.din dirty_file.din
    × ((n k : ℕ) → k < 64 → n ≢ 3 → inode_byte t n k ≡ inode_byte dirty_fs n k)
load_inode-sync_example =
    load_inode-sync dirty_fs 7 dirty_file refl refl (omega arith) (omega arith) dirty_file-InRange

two_blocks_map :
    (n : ℕ)
    → n < max_block_nr
    → block_of file_fs.dev.content two_blocks.din n
      ≡ (if n == 0 then 200 else if n == 1 then 201 else 0)
unfolding block_of
two_blocks_map n h =
    ground
      (arith, no_entries (n - 10), no_entries ((n - 2058) / 2048), no_entries ((n - 2058) % 2048))

two_blocks-IsSeparate : IsSeparate file_fs.dev.content two_blocks.din
two_blocks-IsSeparate = record {
  distinct = λ n m hn hm pos e. ground (arith, two_blocks_map n hn, two_blocks_map m hm);
  indirect = λ n hn pos e. ground (arith, two_blocks_map n hn);
  dindirect = λ n hn pos e. ground (arith, two_blocks_map n hn);
  tables = λ n k hn hk pos e. ground (arith, two_blocks_map n hn, no_entries k);
}

two_blocks-IsReady : IsReady file_fs 7 two_blocks 8190 10
two_blocks-IsReady = record {
  loaded = refl;
  placed = two_blocks-IsOnDevice;
  separate = two_blocks-IsSeparate;
  allocated = λ n lo hi. ground (arith, two_blocks_map n (omega arith));
}

write_data-Writes_example :
    Writes file_fs 7 two_blocks 8190 8190 10
      (λ k. k)
      (write_data (λ _. true) 7 (λ k. k) 8190 10 file_fs)
write_data-Writes_example =
    write_data-Writes file_fs 7 two_blocks 8190 10 (λ k. k) (λ _. true) two_blocks-IsReady
      (omega arith) (omega arith) (omega arith) (omega arith)

read_data-write_example :
    (u : Testfs) × (out : Buffer) × (write_data (λ _. true) 7 (λ k. k) 8190 10 file_fs
      ≡ some (num 10, u))
    × (read_data 7 zeros 8190 10 u ≡ some ((num 10, out), u))
    × ((k : ℕ) → k < 10 → out k ≡ k)
read_data-write_example =
    read_data-write file_fs 7 two_blocks 8190 10 (λ k. k) zeros (λ _. true) two_blocks-IsReady
      (omega arith) (omega arith) (omega arith) (omega arith)
