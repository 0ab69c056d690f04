-- ===== src/Fs/DirTests.antt =====
-- The theorems on directories at concrete inputs.
use ece344_os.Prelude.{
  ℕ, zero, suc, ◌+◌, ◌-◌, ◌/◌, ◌%◌, ◌^◌, ◌≤◌, ◌<◌, ◌≡◌, refl, false, true, arith, none, some, List,
  [], ◌∷◌, ◌==◌, if◌then◌else◌, same,
}
use ece344_os.Fs.Errno.{num, err, enoent}
use ece344_os.Fs.Layout.{zeros, get_int}
use ece344_os.Fs.State.{Inode, Testfs}
use ece344_os.Fs.ReadWrite.{max_block_nr}
use ece344_os.Fs.ReadWrite.Physical.{block_of, bytes_of, entry_of, IsOnDevice}
use ece344_os.Fs.ReadWrite.Kept.{IsSeparate}
use ece344_os.Fs.ReadWrite.Overwrite.{IsReady}
use ece344_os.Fs.ReadWrite.Read.{file_byte}
use ece344_os.Fs.Dirent.{string_bytes, dir_name_to_inode_nr, add_dirent}
use ece344_os.Fs.Dirent.Entries.{Entry, IsDirectory}
use ece344_os.Fs.Dirent.Lookup.{find_name, dir_name_to_inode_nr-eq}
use ece344_os.Fs.Dirent.Add.{Adds, add_dirent-Adds, added_at}

-- A directory of one block, at 200, with the entries "." and "..", both for the inode 0.
abbrev bytes : List ℕ
bytes =
    2 ∷ 0 ∷ 0 ∷ 0 ∷ 0 ∷ 0 ∷ 0 ∷ 0 ∷ b'.' ∷ 0 ∷ 3 ∷ 0 ∷ 0 ∷ 0 ∷ 0 ∷ 0 ∷ 0 ∷ 0 ∷ b'.' ∷ b'.' ∷ 0 ∷ []

abbrev root : Inode
root = record {
  din = record {
    i_type = 2;
    i_block_nr = λ k. if k == 0 then 200 else 0;
    i_indirect = 0;
    i_dindirect = 0;
    block_count = 1;
    i_size = 21;
  };
  dirty = false;
  i_nr = 0;
  i_count = 1;
}

abbrev root_fs : Testfs
root_fs = record {
  sb = record {
    inode_freemap_start = 1;
    block_freemap_start = 2;
    inode_blocks_start = 18;
    data_blocks_start = 146;
    used_inode_count = 1;
    used_block_count = 1;
    max_fs_blocks = 300;
  };
  dev = record { content = λ b. if b == 200 then string_bytes bytes else zeros; size = 300 };
  inode_freemap = record { nbits = 2 ^ 16; v = zeros };
  block_freemap = record { nbits = 2 ^ 20; v = zeros };
  inodes = λ p. if p == 7 then some root else none;
  next = 8;
  table = λ _. [];
}

abbrev own : Entry
own = record { inode_nr = 0; name = b'.' ∷ [] }

abbrev parent : Entry
parent = record { inode_nr = 0; name = b'.' ∷ b'.' ∷ [] }

abbrev entries : List Entry
entries = own ∷ parent ∷ []

no_entries : (i : ℕ) → entry_of root_fs.dev.content 0 i ≡ 0
unfolding entry_of
no_entries i = refl

root_map :
    (n : ℕ)
    → n < max_block_nr
    → block_of root_fs.dev.content root.din n ≡ (if n == 0 then 200 else 0)
unfolding block_of
root_map n h =
    ground
      (arith, no_entries (n - 10), no_entries ((n - 2058) / 2048), no_entries ((n - 2058) % 2048))

root-IsOnDevice : IsOnDevice root_fs root.din
root-IsOnDevice = record {
  small = omega arith;
  indirect = omega arith;
  dindirect = omega arith;
  tables = λ k h. ground (arith, no_entries k);
  blocks = λ n h. ground (arith, root_map n h);
}

root-IsSeparate : IsSeparate root_fs.dev.content root.din
root-IsSeparate = record {
  distinct = λ n m hn hm pos e. ground (arith, root_map n hn, root_map m hm);
  indirect = λ n hn pos e. ground (arith, root_map n hn);
  dindirect = λ n hn pos e. ground (arith, root_map n hn);
  tables = λ n k hn hk pos e. ground (arith, root_map n hn, no_entries k);
}

own_text :
    (k : ℕ) → k ≤ 1 → file_byte root_fs.dev.content root.din (0 + 8 + k) ≡ string_bytes own.name k
unfolding file_byte bytes_of block_of string_bytes
own_text zero h = refl
own_text (suc zero) h = refl
own_text (suc (suc k)) h = absurd (omega arith)

parent_text :
    (k : ℕ)
    → k ≤ 2
    → file_byte root_fs.dev.content root.din (10 + 8 + k) ≡ string_bytes parent.name k
unfolding file_byte bytes_of block_of string_bytes
parent_text zero h = refl
parent_text (suc zero) h = refl
parent_text (suc (suc zero)) h = refl
parent_text (suc (suc (suc k))) h = absurd (omega arith)

root-IsDirectory : IsDirectory root_fs 7 root entries
unfolding file_byte bytes_of block_of string_bytes get_int
root-IsDirectory = record {
  loaded = refl;
  type = refl;
  placed = root-IsOnDevice;
  small = omega arith;
  listed = (
    record { len = refl; nr = refl; text = own_text; clean = omega arith },
    (record { len = refl; nr = refl; text = parent_text; clean = omega arith }, refl),
  );
}

dotdot_found : find_name entries (b'.' ∷ b'.' ∷ []) ≡ num 0
unfolding find_name same
dotdot_found = refl

dir_name_to_inode_nr-eq_example :
    dir_name_to_inode_nr 7 (b'a' ∷ []) root_fs ≡ some (find_name entries (b'a' ∷ []), root_fs)
dir_name_to_inode_nr-eq_example =
    dir_name_to_inode_nr-eq root_fs 7 root entries (b'a' ∷ []) root-IsDirectory (omega arith)

abbrev file_a : Entry
file_a = record { inode_nr = 5; name = b'a' ∷ [] }

a_is_new : find_name entries file_a.name ≡ err enoent
unfolding find_name same
a_is_new = refl

root-IsReady : IsReady root_fs 7 root (added_at 0 entries file_a.name) 10
unfolding added_at
root-IsReady = record {
  loaded = refl;
  placed = root-IsOnDevice;
  separate = root-IsSeparate;
  allocated = λ n lo hi. ground (arith, root_map n (omega arith));
}

add_dirent-Adds_example :
    Adds root_fs 7 entries file_a (add_dirent (λ _. true) 7 file_a.name 5 root_fs)
add_dirent-Adds_example =
    add_dirent-Adds root_fs 7 root entries file_a (λ _. true) root-IsDirectory (omega arith)
      a_is_new (omega arith) (omega arith) root-IsReady
