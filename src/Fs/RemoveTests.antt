-- ===== src/Fs/RemoveTests.antt =====
-- The theorem on removing a directory entry at concrete inputs.
use ece344_os.Prelude.{
  ℕ, zero, suc, ◌+◌, ◌-◌, ◌/◌, ◌%◌, ◌^◌, ◌≤◌, ◌<◌, ◌≡◌, refl, true, false, arith, Option, none,
  some, List, [], ◌∷◌, ◌==◌, if◌then◌else◌, upd, same,
}
use ece344_os.Fs.Errno.{num, err, enoent}
use ece344_os.Fs.Layout.{zeros, get_int}
use ece344_os.Fs.State.{Inode, Testfs}
use ece344_os.Fs.ReadWrite.{max_block_nr}
use ece344_os.Fs.ReadWrite.Physical.{block_of, bytes_of, entry_of, IsOnDevice}
use ece344_os.Fs.ReadWrite.Kept.{IsSeparate}
use ece344_os.Fs.ReadWrite.Overwrite.{IsReady}
use ece344_os.Fs.ReadWrite.Read.{file_byte}
use ece344_os.Fs.Inode.{get_inode, put_inode, inode_hash_find, inode_hashfn, find_in}
use ece344_os.Fs.Dirent.{string_bytes, is_dots, remove_dirent_allowed, remove_dirent}
use ece344_os.Fs.Dirent.Entries.{Entry, IsDirectory}
use ece344_os.Fs.Dirent.Lookup.{find_name}
use ece344_os.Fs.Dirent.Remove.{Removes, remove_dirent-Removes}

-- A directory of one block, at 200, with the entries "." for the inode 0 and "a" for the inode 5.
abbrev bytes : List ℕ
bytes = 2 ∷ 0 ∷ 0 ∷ 0 ∷ 0 ∷ 0 ∷ 0 ∷ 0 ∷ b'.' ∷ 0 ∷ 2 ∷ 0 ∷ 0 ∷ 0 ∷ 5 ∷ 0 ∷ 0 ∷ 0 ∷ b'a' ∷ 0 ∷ []

abbrev folder : Inode
folder = record {
  din = record {
    i_type = 2;
    i_block_nr = λ k. if k == 0 then 200 else 0;
    i_indirect = 0;
    i_dindirect = 0;
    block_count = 1;
    i_size = 20;
  };
  dirty = false;
  i_nr = 0;
  i_count = 1;
}

-- The file "a" in memory, with its number of references.
abbrev held : ℕ → Inode
held n = record {
  din = record {
    i_type = 1;
    i_block_nr = λ _. 0;
    i_indirect = 0;
    i_dindirect = 0;
    block_count = 0;
    i_size = 0;
  };
  dirty = false;
  i_nr = 5;
  i_count = n;
}

abbrev folder_fs : (ℕ → Option Inode) → Testfs
folder_fs inodes = record {
  sb = record {
    inode_freemap_start = 1;
    block_freemap_start = 2;
    inode_blocks_start = 18;
    data_blocks_start = 146;
    used_inode_count = 2;
    used_block_count = 1;
    max_fs_blocks = 300;
  };
  dev = record { content = λ b. if b == 200 then string_bytes bytes else zeros; size = 300 };
  inode_freemap = record { nbits = 2 ^ 16; v = zeros };
  block_freemap = record { nbits = 2 ^ 20; v = zeros };
  inodes = inodes;
  next = 10;
  table = λ h. if h == inode_hashfn 5 then 9 ∷ [] else [];
}

abbrev in_memory : ℕ → Option Inode
in_memory p = if p == 7 then some folder else if p == 9 then some (held 1) else none

-- What the get and the put of the file leave.
abbrev put_back : ℕ → Option Inode
put_back = upd (upd in_memory 9 (some (held 2))) 9 (some (held 1))

abbrev own : Entry
own = record { inode_nr = 0; name = b'.' ∷ [] }

abbrev file_a : Entry
file_a = record { inode_nr = 5; name = b'a' ∷ [] }

is_allowed : remove_dirent_allowed 5 (folder_fs in_memory) ≡ some (num 0, folder_fs put_back)
unfolding remove_dirent_allowed get_inode put_inode inode_hash_find inode_hashfn find_in
is_allowed = refl

a_is_next : find_name (own ∷ []) file_a.name ≡ err enoent
unfolding find_name same
a_is_next = refl

a_is_not_dots : is_dots file_a.name ≡ false
unfolding is_dots
a_is_not_dots = refl

module _ (inodes : ℕ → Option Inode) where
  abbrev fs : Testfs
  fs = folder_fs inodes

  no_entries : (i : ℕ) → entry_of fs.dev.content 0 i ≡ 0
  unfolding entry_of
  no_entries i = refl

  folder_map :
      (n : ℕ)
      → n < max_block_nr
      → block_of fs.dev.content folder.din n ≡ (if n == 0 then 200 else 0)
  unfolding block_of
  folder_map n h =
      ground
        (arith, no_entries (n - 10), no_entries ((n - 2058) / 2048), no_entries ((n - 2058) % 2048))

  folder-IsOnDevice : IsOnDevice fs folder.din
  folder-IsOnDevice = record {
    small = omega arith;
    indirect = omega arith;
    dindirect = omega arith;
    tables = λ k h. ground (arith, no_entries k);
    blocks = λ n h. ground (arith, folder_map n h);
  }

  folder-IsSeparate : IsSeparate fs.dev.content folder.din
  folder-IsSeparate = record {
    distinct = λ n m hn hm pos e. ground (arith, folder_map n hn, folder_map m hm);
    indirect = λ n hn pos e. ground (arith, folder_map n hn);
    dindirect = λ n hn pos e. ground (arith, folder_map n hn);
    tables = λ n k hn hk pos e. ground (arith, folder_map n hn, no_entries k);
  }

  own_text :
      (k : ℕ) → k ≤ 1 → file_byte fs.dev.content folder.din (0 + 8 + k) ≡ string_bytes own.name k
  unfolding file_byte bytes_of block_of string_bytes
  own_text zero h = refl
  own_text (suc zero) h = refl
  own_text (suc (suc k)) h = absurd (omega arith)

  a_text :
      (k : ℕ)
      → k ≤ 1
      → file_byte fs.dev.content folder.din (10 + 8 + k) ≡ string_bytes file_a.name k
  unfolding file_byte bytes_of block_of string_bytes
  a_text zero h = refl
  a_text (suc zero) h = refl
  a_text (suc (suc k)) h = absurd (omega arith)

  folder-IsDirectory : inodes 7 ≡ some folder → IsDirectory fs 7 folder (own ∷ file_a ∷ [])
  unfolding file_byte bytes_of block_of string_bytes get_int
  folder-IsDirectory e = record {
    loaded = e;
    type = refl;
    placed = folder-IsOnDevice;
    small = omega arith;
    listed = (
      record { len = refl; nr = refl; text = own_text; clean = omega arith },
      (record { len = refl; nr = refl; text = a_text; clean = omega arith }, refl),
    );
  }

  folder-IsReady : inodes 7 ≡ some folder → IsReady fs 7 folder 10 10
  folder-IsReady e = record {
    loaded = e;
    placed = folder-IsOnDevice;
    separate = folder-IsSeparate;
    allocated = λ n lo hi. ground (arith, folder_map n (omega arith));
  }

remove_dirent-Removes_example :
    Removes 7 (own ∷ []) file_a [] (remove_dirent (λ _. true) 7 file_a.name (folder_fs in_memory))
remove_dirent-Removes_example =
    remove_dirent-Removes (folder_fs in_memory) (folder_fs put_back) 7 folder folder (own ∷ [])
      file_a [] (λ _. true) (folder-IsDirectory in_memory refl) (omega arith) a_is_not_dots
      a_is_next refl is_allowed (folder-IsDirectory put_back refl) (folder-IsReady put_back refl)
