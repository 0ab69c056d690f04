-- ===== src/Fs/ReadWrite.antt =====
-- fs/read_write.c: the blocks of a file, direct, indirect and double indirect. An inode is named by
-- its address; a physical block number is the bit pattern of an `int`.
pub mod Physical
pub mod Read
pub mod Kept
pub mod Overwrite
pub mod ReadBack
use ece344_os.Prelude.{
  ℕ, zero, suc, ◌+◌, ◌-◌, ◌*◌, ◌/◌, ◌%◌, ◌^◌, Bool, true, false, ltb, leb, ◌==◌, if◌then◌else◌, upd,
  pure, fault, ◌>>=◌, ◌>>◌,
}
use ece344_os.Fs.Errno.{Ret, num, err, efbig}
use ece344_os.Fs.Layout.{
  Buffer, block_size, nr_direct_blocks, nr_indirect_blocks, zeros, memcpy, get_int, set_int,
  positive, to_ret,
}
use ece344_os.Fs.State.{Dinode, M, assert, load, store}
use ece344_os.Fs.Block.{write_blocks, read_blocks}
use ece344_os.Fs.Inode.{alloc_block_for_inode, free_block_from_inode}

-- MAX_BLOCK_NR
abbrev pub max_block_nr : ℕ
max_block_nr = nr_direct_blocks + nr_indirect_blocks + nr_indirect_blocks * nr_indirect_blocks

-- The entry `i` of the table in a physical block, and 0 where there is no such block.
abbrev pub entry : ℕ → ℕ → Buffer → M (ℕ × Buffer)
entry table_nr i block =
    if positive table_nr
    then (do b ← read_blocks table_nr 1; pure (get_int b i, b))
    else pure (0, block)

-- The part of `testfs_read_block` that finds the physical block number, with what `block` holds.
unfoldable pub physical_block : Dinode → ℕ → Buffer → M (ℕ × Buffer)
physical_block d log_block_nr block =
    if ltb log_block_nr nr_direct_blocks
    then pure (d.i_block_nr log_block_nr, block)
    else if ltb (log_block_nr - nr_direct_blocks) nr_indirect_blocks
    then entry d.i_indirect (log_block_nr - nr_direct_blocks) block
    else (do
      let nr = log_block_nr - (nr_direct_blocks + nr_indirect_blocks)
      (indir_block_nr, b) ← entry d.i_dindirect (nr / nr_indirect_blocks) block
      entry indir_block_nr (nr % nr_indirect_blocks) b)

-- `testfs_read_block`
unfoldable pub read_block : ℕ → ℕ → Buffer → M (Ret × Buffer)
read_block p log_block_nr block =
    if leb max_block_nr log_block_nr then pure (err efbig, block) else (do
      i ← load p
      (phy_block_nr, b) ← physical_block i.din log_block_nr block
      if positive phy_block_nr
          then (do b' ← read_blocks phy_block_nr 1; pure (num phy_block_nr, b'))
          else pure (to_ret phy_block_nr, zeros))

-- `a < b` at `off_t`
abbrev pub lt_off : ℕ → ℕ → Bool
lt_off a b = ltb ((a + 2 ^ 63) % 2 ^ 64) ((b + 2 ^ 63) % 2 ^ 64)

-- The loop of `testfs_read_data`, on fuel; it returns the buffer and the number of bytes read.
unfoldable pub read_loop : ℕ → ℕ → ℕ → ℕ → ℕ → Buffer → Buffer → M (Ret × Buffer)
read_loop zero p start size total block buf = fault
read_loop (suc n) p start size total block buf =
    let block_nr = (start + total) / block_size in
    let block_ix = (start + total) % block_size in
    let remaining = (size - total) % 2 ^ 32 in
    let current =
      (if ltb remaining (block_size - block_ix) then remaining else block_size - block_ix) in
    let step : M (Ret × Buffer) = (do
      (ret, b) ← read_block p block_nr block
      elim ret [
        | err e ↦ pure (err e, buf)
        | num _ ↦
            read_loop n p start size ((total + current) % 2 ^ 32) b
              (memcpy buf total b block_ix current)
      ]) in
    if ltb total size then step else pure (num total, buf)

-- Enough rounds: each reads up to the end of a block.
abbrev pub read_fuel : ℕ → ℕ
read_fuel size = size / block_size + 3

-- `testfs_read_data`: the number of bytes read, and the buffer. `size_t` arithmetic is modulo 2 ^ 64,
-- and the comparison with the file's size is signed.
unfoldable pub read_data : ℕ → Buffer → ℕ → ℕ → M (Ret × Buffer)
read_data p buf start size = do
  i ← load p
  let size' =
      (if lt_off i.din.i_size ((start + size) % 2 ^ 64)
        then (i.din.i_size + 2 ^ 64 - start) % 2 ^ 64
        else size)
  let block_ix = start % block_size
  if ltb block_size ((block_ix + size') % 2 ^ 64)
      then read_loop (read_fuel size') p start size' 0 zeros buf
      else do
        (ret, b) ← read_block p (start / block_size) zeros
        elim ret [
          | err e ↦ pure (err e, buf)
          | num _ ↦ pure (num (size' % 2 ^ 32), memcpy buf 0 b block_ix size')
        ]

-- A table block of `testfs_allocate_block`: the one at `nr`, or a new one, with the flag that says
-- so. `old` is what the flag is if there is one already.
unfoldable pub table_block : ℕ → ℕ → Bool → M (Ret × Buffer × Bool)
table_block p nr old =
    if nr == 0
    then (do ret ← alloc_block_for_inode p; pure (ret, zeros, true))
    else (do b ← read_blocks nr 1; pure (num nr, b, old))

abbrev update_din : ℕ → (Dinode → Dinode) → M (Unit {0})
update_din p f = do i ← load p; store p (record i { din = f i.din })

-- The direct branch of `testfs_allocate_block`.
unfoldable pub allocate_direct : ℕ → ℕ → M Ret
allocate_direct p nr = do
  i ← load p
  assert (i.din.i_block_nr nr == 0)
  phy_block_nr ← alloc_block_for_inode p
  elim phy_block_nr [
    | err e ↦ pure (err e)
    | num b ↦ do update_din p (λ d. record d { i_block_nr = upd d.i_block_nr nr b }); pure (num b)
  ]

-- The indirect branch. `junk` is what the flag `indirect_allocated` holds when nothing has been
-- assigned to it: the C code leaves it uninitialised.
unfoldable pub allocate_indirect : Bool → ℕ → ℕ → M Ret
allocate_indirect junk p nr = do
  i ← load p
  (ret, indirect, allocated) ← table_block p i.din.i_indirect junk
  elim ret [
    | err e ↦ pure (err e)
    | num table ↦ do
      update_din p (λ d. record d { i_indirect = table })
      assert (get_int indirect nr == 0)
      phy_block_nr ← alloc_block_for_inode p
      elim phy_block_nr [
        | num b ↦ do write_blocks (set_int indirect nr b) table 1; pure (num b)
        | err e ↦
            if allocated
            then (do
              free_block_from_inode p table
              update_din p (λ d. record d { i_indirect = 0 })
              pure (err e))
            else pure (err e)
      ]
  ]

-- The double indirect branch, with `junk` as above.
unfoldable pub allocate_dindirect : Bool → ℕ → ℕ → M Ret
allocate_dindirect junk p nr = do
  let high = nr / nr_indirect_blocks
  let low = nr % nr_indirect_blocks
  i ← load p
  (ret, dindirect, dindirect_allocated) ← table_block p i.din.i_dindirect false
  elim ret [
    | err e ↦ pure (err e)
    | num dtable ↦ do
      update_din p (λ d. record d { i_dindirect = dtable })
      (ret', indirect, indirect_allocated) ← table_block p (get_int dindirect high) junk
      elim ret' [
        | err e ↦ pure (err e)
        | num table ↦ do
          let dindirect' = set_int dindirect high table
          phy_block_nr ← alloc_block_for_inode p
          elim phy_block_nr [
            | num b ↦ do
              write_blocks dindirect' dtable 1
              write_blocks (set_int indirect low b) table 1
              pure (num b)
            | err e ↦ do
              if dindirect_allocated
                  then (do
                    free_block_from_inode p dtable
                    update_din p (λ d. record d { i_dindirect = 0 }))
                  else pure tt
              if indirect_allocated then free_block_from_inode p table else pure tt
              pure (err e)
          ]
      ]
  ]

-- `testfs_allocate_block`: the block number, and what `block` holds.
unfoldable pub allocate_block : Bool → ℕ → ℕ → Buffer → M (Ret × Buffer)
allocate_block junk p log_block_nr block =
    if leb max_block_nr log_block_nr then pure (err efbig, block) else (do
      (ret, b) ← read_block p log_block_nr block
      elim ret [
        | err e ↦ pure (err e, b)
        | num (suc nr) ↦ pure (num (suc nr), b)
        | num zero ↦ do
          phy_block_nr ←
              if ltb log_block_nr nr_direct_blocks
              then allocate_direct p log_block_nr
              else if ltb (log_block_nr - nr_direct_blocks) nr_indirect_blocks
              then allocate_indirect junk p (log_block_nr - nr_direct_blocks)
              else allocate_dindirect junk p
                  (log_block_nr - (nr_direct_blocks + nr_indirect_blocks))
          pure (phy_block_nr, b)
      ])

-- The end of `testfs_write_data` after an error: the size grows to what has been written.
abbrev grow_to : ℕ → ℕ → M (Unit {0})
grow_to p size =
    update_din p (λ d. record d { i_size = (if lt_off d.i_size size then size else d.i_size) })

-- The last block of `testfs_write_data`.
unfoldable pub write_last : (ℕ → Bool) → ℕ → Buffer → ℕ → ℕ → ℕ → ℕ → ℕ → M Ret
write_last junk p buf start size total block_nr block_ix = do
  (ret, b) ← allocate_block (junk block_nr) p block_nr zeros
  elim ret [
    | err e ↦ do grow_to p ((start + total) % 2 ^ 64); pure (err e)
    | num nr ↦ do
      write_blocks (memcpy b block_ix buf total ((size + 2 ^ 32 - total) % 2 ^ 32)) nr 1
      if ltb 0 size then grow_to p ((start + size) % 2 ^ 64) else pure tt
      i ← load p
      store p (record i { dirty = true })
      pure (num size)
  ]

-- The loop of `testfs_write_data`, on fuel, and what follows it. `junk` gives what the
-- uninitialised flag of `testfs_allocate_block` holds in the call for each block.
unfoldable pub write_loop : ℕ → (ℕ → Bool) → ℕ → Buffer → ℕ → ℕ → ℕ → ℕ → ℕ → M Ret
write_loop zero junk p buf start size total block_nr block_ix = fault
write_loop (suc n) junk p buf start size total block_nr block_ix =
    let step : M Ret = (do
      (ret, b) ← allocate_block (junk block_nr) p block_nr zeros
      elim ret [
        | err e ↦ do
          if e == efbig then grow_to p ((start + total) % 2 ^ 64) else pure tt
          pure (err e)
        | num nr ↦ do
          write_blocks (memcpy b block_ix buf total (block_size - block_ix)) nr 1
          write_loop n junk p buf start size ((total + (block_size - block_ix)) % 2 ^ 32)
              (block_nr + 1) 0
      ]) in
    if ltb block_size (block_ix + (size + 2 ^ 32 - total) % 2 ^ 32)
    then step
    else write_last junk p buf start size total block_nr block_ix

-- Enough rounds: each writes up to the end of a block.
abbrev pub write_fuel : ℕ → ℕ
write_fuel size = size / block_size + 3

-- `testfs_write_data`, at a size that an `int` holds.
unfoldable pub write_data : (ℕ → Bool) → ℕ → Buffer → ℕ → ℕ → M Ret
write_data junk p buf start size =
    write_loop (write_fuel size) junk p buf start size 0 (start / block_size) (start % block_size)

-- The direct loop of `testfs_free_blocks`, with `n` rounds left; `e` is the number of blocks.
unfoldable pub free_direct : ℕ → ℕ → ℕ → ℕ → M (Unit {0})
free_direct zero p e k = pure tt
free_direct (suc n) p e k =
    let step : M (Unit {0}) = (do
      i ← load p
      if i.din.i_block_nr k == 0 then pure tt else (do
        free_block_from_inode p (i.din.i_block_nr k)
        update_din p (λ d. record d { i_block_nr = upd d.i_block_nr k 0 }))
      free_direct n p e (k + 1)) in
    if ltb k e then step else pure tt

-- The loop over the entries of a table, from `k` on, up to the entry `e`. (The C code also clears
-- the entries in its copy of the table, which is not read again.)
unfoldable pub free_entries : ℕ → ℕ → Buffer → ℕ → ℕ → M (Unit {0})
free_entries zero p table e k = pure tt
free_entries (suc n) p table e k =
    let step : M (Unit {0}) = (do
      free_block_from_inode p (get_int table k)
      free_entries n p table e (k + 1)) in
    if ltb k e then step else pure tt

-- The loop over the entries of the double indirect block, from `k` on.
unfoldable pub free_tables : ℕ → ℕ → Buffer → ℕ → ℕ → M (Unit {0})
free_tables zero p dtable e k = pure tt
free_tables (suc n) p dtable e k = do
  if get_int dtable k == 0 then pure tt else (do
    table ← read_blocks (get_int dtable k) 1
    free_entries nr_indirect_blocks p table (e - k * nr_indirect_blocks) 0
    free_block_from_inode p (get_int dtable k))
  free_tables n p dtable e (k + 1)

-- `testfs_free_blocks`. The signed tests of `e_block_nr`, which falls below 0, are written as tests
-- of the number of blocks; a size is below 2 ^ 44, so that this number is an `int`.
unfoldable pub free_blocks : ℕ → M Ret
free_blocks p = do
  i ← load p
  let e = (i.din.i_size + block_size - 1) / block_size
  free_direct nr_direct_blocks p e 0
  i ← load p
  if positive i.din.i_indirect
      then (do
        assert (ltb nr_direct_blocks e)
        block ← read_blocks i.din.i_indirect 1
        free_entries nr_indirect_blocks p block (e - nr_direct_blocks) 0
        free_block_from_inode p i.din.i_indirect
        update_din p (λ d. record d { i_indirect = 0 }))
      else pure tt
  if ltb (nr_direct_blocks + nr_indirect_blocks) e
      then (do
        i ← load p
        block ← read_blocks i.din.i_dindirect 1
        free_tables nr_indirect_blocks p block (e - (nr_direct_blocks + nr_indirect_blocks)) 0
        free_block_from_inode p i.din.i_dindirect
        update_din p (λ d. record d { i_dindirect = 0 }))
      else pure tt
  i ← load p
  store p (record i { din = record (i.din) { i_size = 0 }; dirty = true })
  pure (num 0)
