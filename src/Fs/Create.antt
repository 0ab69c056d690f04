-- ===== src/Fs/Create.antt =====
-- `testfs_create_inode` and `testfs_remove_inode` of fs/inode.c.
use ece344_os.Prelude.{ℕ, ◌/◌, true, leb, ◌==◌, if◌then◌else◌, pure, ◌>>=◌, ◌>>◌}
use ece344_os.Fs.Errno.{num, err, enospc}
use ece344_os.Fs.Layout.{inodes_per_block, nr_inode_blocks}
use ece344_os.Fs.State.{M, assert, load, store}
use ece344_os.Fs.Super.{get_inode_freemap, put_inode_freemap}
use ece344_os.Fs.Inode.{zero_dinode, get_inode, sync_inode, put_inode}
use ece344_os.Fs.ReadWrite.{free_blocks}

-- `inode_type`
abbrev pub i_file : ℕ
i_file = 1

abbrev pub i_dir : ℕ
i_dir = 2

-- What a function with an error result and a pointer to a result leaves there.
pub data Made : Type 0 where
  made : ℕ → Made
  failed : ℕ → Made

-- `testfs_create_inode`: the address of the inode
unfoldable pub create_inode : ℕ → M Made
create_inode type = do
  ret ← get_inode_freemap
  elim ret [
    | err e ↦ pure (failed e)
    | num inode_nr ↦
        if leb nr_inode_blocks (inode_nr / inodes_per_block)
        then (do put_inode_freemap inode_nr; pure (failed enospc))
        else (do
          p ← get_inode inode_nr
          i ← load p
          store p (record i { din = record (i.din) { i_type = type }; dirty = true })
          pure (made p))
  ]

-- `testfs_remove_inode`
unfoldable pub remove_inode : ℕ → M (Unit {0})
remove_inode p = do
  _ ← free_blocks p
  i ← load p
  assert (i.din.block_count == 0)
  store p (record i { din = zero_dinode; dirty = true })
  put_inode_freemap i.i_nr
  sync_inode p
  put_inode p
