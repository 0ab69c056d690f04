-- ===== src/Fs/Inode.antt =====
-- fs/inode.c: the inodes in memory, their hash table and reference counts, and their place on the
-- device. The chains of inode_hash_table (hlist of fs/list.h) are lists of addresses.
pub mod Saved
pub mod Cached
pub mod References
pub mod Release
pub mod Counting
use ece344_os.Prelude.{
  ℕ, ◌+◌, ◌-◌, ◌*◌, ◌/◌, ◌%◌, ◌^◌, true, false, not, Option, none, some, ltb, ◌==◌, if◌then◌else◌,
  List, [], ◌∷◌, upd, pure, ◌>>=◌, ◌>>◌, modify,
}
use ece344_os.Fs.Errno.{Ret, num, err}
use ece344_os.Fs.Layout.{
  Buffer, nr_inode_blocks, dinode_size, inodes_per_block, memcpy, byte_of, get_int, zeros,
}
use ece344_os.Fs.State.{Dinode, Inode, M, assert, load, store}
use ece344_os.Fs.Block.{write_blocks, read_blocks}
use ece344_os.Fs.Super.{alloc_block, free_block, incr32, decr32}

-- The 32-bit word `i` of a `struct dinode` in memory; `i_size` takes two.
abbrev pub dinode_word : Dinode → ℕ → ℕ
dinode_word d i =
    if i == 0
    then d.i_type
    else if ltb i 11
    then d.i_block_nr (i - 1)
    else if i == 11
    then d.i_indirect
    else if i == 12
    then d.i_dindirect
    else if i == 13
    then d.block_count
    else if i == 14
    then d.i_size % 2 ^ 32
    else d.i_size / 2 ^ 32

-- A `struct dinode` as bytes, and back.
unfoldable pub dinode_bytes : Dinode → Buffer
dinode_bytes d k = byte_of (dinode_word d (k / 4)) (k % 4)

unfoldable pub dinode_of_bytes : Buffer → Dinode
dinode_of_bytes b = record {
  i_type = get_int b 0;
  i_block_nr = λ i. get_int b (i + 1);
  i_indirect = get_int b 11;
  i_dindirect = get_int b 12;
  block_count = get_int b 13;
  i_size = get_int b 14 + 2 ^ 32 * get_int b 15;
}

-- A `struct dinode` of zeros.
abbrev pub zero_dinode : Dinode
zero_dinode = record {
  i_type = 0;
  i_block_nr = λ _. 0;
  i_indirect = 0;
  i_dindirect = 0;
  block_count = 0;
  i_size = 0;
}

-- `inode_hashfn`, with `hash_int` of fs/list.h
unfoldable pub inode_hashfn : ℕ → ℕ
inode_hashfn nr = nr * 0x9e370001 % 2 ^ 32 / 2 ^ 24

-- The walk along one chain in `inode_hash_find`.
unfoldable pub find_in : List ℕ → ℕ → M (Option ℕ)
find_in [] nr = pure none
find_in (p ∷ ps) nr = do i ← load p; if i.i_nr == nr then pure (some p) else find_in ps nr

-- `inode_hash_find`
unfoldable pub inode_hash_find : ℕ → M (Option ℕ)
inode_hash_find inode_nr s = find_in (s.table (inode_hashfn inode_nr)) inode_nr s

-- `inode_hash_insert`
unfoldable pub inode_hash_insert : ℕ → M (Unit {0})
inode_hash_insert p = do
  i ← load p
  let h = inode_hashfn i.i_nr
  modify (λ s. record s { table = upd s.table h (p ∷ s.table h) })

-- `hlist_del` on a chain
unfoldable pub unlink : ℕ → List ℕ → List ℕ
unlink p [] = []
unlink p (q ∷ qs) = if q == p then qs else q ∷ unlink p qs

-- `inode_hash_remove`
unfoldable pub inode_hash_remove : ℕ → M (Unit {0})
inode_hash_remove p = do
  i ← load p
  let h = inode_hashfn i.i_nr
  modify (λ s. record s { table = upd s.table h (unlink p (s.table h)) })

-- `testfs_inode_to_block_nr`
unfoldable pub inode_to_block_nr : Inode → M ℕ
inode_to_block_nr i = do
  let block_nr = i.i_nr / inodes_per_block
  assert (ltb block_nr nr_inode_blocks)
  pure block_nr

-- `testfs_inode_to_block_offset`; its asserts hold of any number
unfoldable pub inode_to_block_offset : Inode → ℕ
inode_to_block_offset i = i.i_nr % inodes_per_block * dinode_size

-- `testfs_read_inode_block`
unfoldable pub read_inode_block : Inode → M Buffer
read_inode_block i = do
  block_nr ← inode_to_block_nr i
  (λ s. read_blocks (s.sb.inode_blocks_start + block_nr) 1 s)

-- `testfs_write_inode_block`
unfoldable pub write_inode_block : Inode → Buffer → M (Unit {0})
write_inode_block i block = do
  block_nr ← inode_to_block_nr i
  (λ s. write_blocks block (s.sb.inode_blocks_start + block_nr) 1 s)

-- `calloc` of a `struct inode`: its address
abbrev new_inode : Inode → M ℕ
new_inode i s = some (s.next, record s { inodes = upd s.inodes s.next (some i); next = s.next + 1 })

-- The part of `testfs_get_inode` for an inode that is not in memory.
unfoldable pub load_inode : ℕ → M ℕ
load_inode inode_nr = do
  p ← new_inode (record { din = zero_dinode; dirty = false; i_nr = inode_nr; i_count = 1 })
  i ← load p
  block ← read_inode_block i
  store p (record i {
    din = dinode_of_bytes (memcpy zeros 0 block (inode_to_block_offset i) dinode_size);
  })
  inode_hash_insert p
  pure p

-- `testfs_get_inode`. `i_count` is an int, whose overflow C leaves undefined; here it is a 32-bit word
-- that wraps.
unfoldable pub get_inode : ℕ → M ℕ
get_inode inode_nr = do
  found ← inode_hash_find inode_nr
  elim found [
    | none ↦ load_inode inode_nr
    | some p ↦ do i ← load p; store p (record i { i_count = incr32 i.i_count }); pure p
  ]

-- `testfs_sync_inode`
unfoldable pub sync_inode : ℕ → M (Unit {0})
sync_inode p = do
  i ← load p
  if not i.dirty then pure tt else do
    block ← read_inode_block i
    write_inode_block i (memcpy block (inode_to_block_offset i) (dinode_bytes i.din) 0 dinode_size)
    store p (record i { dirty = false })

-- `testfs_put_inode`
unfoldable pub put_inode : ℕ → M (Unit {0})
put_inode p = do
  i ← load p
  assert (not i.dirty)
  store p (record i { i_count = decr32 i.i_count })
  if decr32 i.i_count == 0
      then (do inode_hash_remove p; modify (λ s. record s { inodes = upd s.inodes p none }))
      else pure tt

-- `testfs_alloc_block_for_inode`
unfoldable pub alloc_block_for_inode : ℕ → M Ret
alloc_block_for_inode p = do
  phy_block_nr ← alloc_block
  elim phy_block_nr [
    | err e ↦ pure (err e)
    | num nr ↦ do
      i ← load p
      store p (record i {
        din = record (i.din) { block_count = incr32 i.din.block_count };
        dirty = true;
      })
      pure (num nr)
  ]

-- `testfs_free_block_from_inode`
unfoldable pub free_block_from_inode : ℕ → ℕ → M (Unit {0})
free_block_from_inode p phy_block_nr = if phy_block_nr == 0 then pure tt else do
  _ ← free_block phy_block_nr
  i ← load p
  store p
      (record i { din = record (i.din) { block_count = decr32 i.din.block_count }; dirty = true })
