-- ===== src/Fs/Dirent.antt =====
-- The entries of a directory (fs/dir.c). An inode is named by its address, a string is the list of
-- its bytes without the final 0, and an `s32` is its bit pattern. A directory is smaller than 2 ^ 31
-- bytes. malloc succeeds, and memory that has not been written holds zeros.
pub mod Entries
pub mod Lookup
pub mod Add
pub mod Remove
use ece344_os.Prelude.{
  ℕ, zero, suc, ◌+◌, ◌-◌, ◌/◌, ◌^◌, Bool, true, false, ltb, ◌==◌, ◌||◌, not, if◌then◌else◌, List,
  [], ◌∷◌, Option, none, some, length, pure, fault, ◌>>=◌, ◌>>◌,
}
use ece344_os.Fs.Errno.{Ret, num, err, enoent, eexist, einval, enotempty}
use ece344_os.Fs.Layout.{Buffer, zeros, memcpy, get_int, set_int, positive}
use ece344_os.Fs.State.{M, assert, load}
use ece344_os.Fs.Inode.{get_inode, put_inode}
use ece344_os.Fs.ReadWrite.{lt_off, read_data, write_data}
use ece344_os.Fs.Create.{i_dir}

-- `struct dirent` with the name behind it
pub record Dirent : Type 0 where
  pub d_name_len : ℕ
  pub d_inode_nr : ℕ
  pub d_name : Buffer

-- sizeof(struct dirent)
abbrev pub dirent_size : ℕ
dirent_size = 8

-- INVALID_INODE_NR, -1
abbrev pub invalid_inode_nr : ℕ
invalid_inode_nr = 2 ^ 32 - 1

-- `testfs_next_dirent`: the entry, and the offset behind it
unfoldable pub next_dirent : ℕ → ℕ → M (Option (Dirent × ℕ))
next_dirent p offset = do
  i ← load p
  assert (i.din.i_type == i_dir)
  if not (lt_off offset i.din.i_size) then pure none else (do
    (ret, d) ← read_data p zeros offset dirent_size
    elim ret [
      | err e ↦ pure none
      | num _ ↦ do
        assert (positive (get_int d 0))
        (ret', name) ← read_data p zeros (offset + dirent_size) (get_int d 0)
        elim ret' [
          | err e ↦ pure none
          | num _ ↦ pure (
              some (
                record { d_name_len = get_int d 0; d_inode_nr = get_int d 1; d_name = name },
                offset + dirent_size + get_int d 0,
              ))
        ]
    ])

-- Rounds for a loop over the entries: each takes more than `dirent_size` bytes.
abbrev pub entries_fuel : ℕ → M ℕ
entries_fuel p = do i ← load p; pure (i.din.i_size / dirent_size + 1)

-- `strcmp(D_NAME(d), name) == 0` from the byte `k` on; reading past the entry is a fault.
unfoldable pub same_name : ℕ → Dirent → List ℕ → Option Bool
same_name k d [] = if ltb k d.d_name_len then some (d.d_name k == 0) else none
same_name k d (c ∷ cs) =
    let rest = same_name (k + 1) d cs in
    if ltb k d.d_name_len then (if d.d_name k == c then rest else some false) else none

abbrev pub has_name : Dirent → List ℕ → M Bool
has_name d name s = elim (same_name 0 d name) [ none ↦ none | some b ↦ some (b, s) ]

-- `d_inode_nr >= 0`
abbrev pub is_live : Dirent → Bool
is_live d = ltb d.d_inode_nr (2 ^ 31)

-- Whether an entry is in use and has the name.
abbrev pub is_named : Dirent → List ℕ → M Bool
is_named d name = if is_live d then has_name d name else pure false

-- The loop of `testfs_dir_name_to_inode_nr`, on fuel
unfoldable pub name_loop : ℕ → ℕ → List ℕ → ℕ → M Ret
name_loop zero p name offset = fault
name_loop (suc n) p name offset = do
  entry ← next_dirent p offset
  elim entry [
    | none ↦ pure (err enoent)
    | some (d, offset') ↦ do
      let rest = name_loop n p name offset'
      hit ← is_named d name
      if hit then pure (num d.d_inode_nr) else rest
  ]

-- `testfs_dir_name_to_inode_nr`
unfoldable pub dir_name_to_inode_nr : ℕ → List ℕ → M Ret
dir_name_to_inode_nr p name = do
  i ← load p
  assert (i.din.i_type == i_dir)
  n ← entries_fuel p
  name_loop n p name 0

-- The loop of `testfs_find_dirent`, on fuel
unfoldable pub find_loop : ℕ → ℕ → ℕ → ℕ → M (Option Dirent)
find_loop zero p inode_nr offset = fault
find_loop (suc n) p inode_nr offset = do
  entry ← next_dirent p offset
  elim entry [
    | none ↦ pure none
    | some (d, offset') ↦
        let rest = find_loop n p inode_nr offset' in
        if d.d_inode_nr == inode_nr then pure (some d) else rest
  ]

-- `testfs_find_dirent`
unfoldable pub find_dirent : ℕ → ℕ → M (Option Dirent)
find_dirent p inode_nr = do
  i ← load p
  assert (i.din.i_type == i_dir)
  assert (ltb inode_nr (2 ^ 31))
  n ← entries_fuel p
  find_loop n p inode_nr 0

-- The bytes of a string, the final 0 and what is behind it.
unfoldable pub string_bytes : List ℕ → Buffer
string_bytes [] k = 0
string_bytes (c ∷ cs) k = if k == 0 then c else string_bytes cs (k - 1)

-- The bytes of an entry.
unfoldable pub dirent_bytes : Dirent → Buffer
dirent_bytes d =
    memcpy (set_int (set_int zeros 0 d.d_name_len) 1 d.d_inode_nr) dirent_size d.d_name 0
      d.d_name_len

-- `testfs_write_dirent`. `junk` is that of `write_data`.
unfoldable pub write_dirent : (ℕ → Bool) → ℕ → List ℕ → ℕ → ℕ → ℕ → M Ret
write_dirent junk p name len inode_nr offset = do
  assert (ltb inode_nr (2 ^ 31))
  write_data junk p
      (dirent_bytes
        (record { d_name_len = len; d_inode_nr = inode_nr; d_name = string_bytes name }))
      offset (dirent_size + len)

-- Where the loop of `testfs_add_dirent` ends: at an entry of that name, at an unused entry of that
-- length, or behind the last entry.
pub data Place : Type 0 where
  exists : Place
  reuse : ℕ → Place
  behind : ℕ → Place

-- The loop of `testfs_add_dirent`, on fuel
unfoldable pub add_loop : ℕ → ℕ → List ℕ → ℕ → M Place
add_loop zero p name offset = fault
add_loop (suc n) p name offset = do
  entry ← next_dirent p offset
  elim entry [
    | none ↦ pure (behind offset)
    | some (d, offset') ↦ do
      let rest = add_loop n p name offset'
      hit ← is_named d name
      if hit
          then pure exists
          else if is_live d || not (d.d_name_len == length name + 1)
          then rest
          else pure (reuse offset)
  ]

-- `testfs_add_dirent`
unfoldable pub add_dirent : (ℕ → Bool) → ℕ → List ℕ → ℕ → M Ret
add_dirent junk p name inode_nr = do
  i ← load p
  assert (i.din.i_type == i_dir)
  n ← entries_fuel p
  place ← add_loop n p name 0
  elim place [
    | exists ↦ pure (err eexist)
    | reuse offset ↦ write_dirent junk p name (length name + 1) inode_nr offset
    | behind offset ↦ do
      i ← load p
      assert (offset == i.din.i_size)
      write_dirent junk p name (length name + 1) inode_nr offset
  ]

-- "." and ".."
abbrev pub dot : List ℕ
dot = b'.' ∷ []

abbrev pub dotdot : List ℕ
dotdot = b'.' ∷ b'.' ∷ []

-- The test of `testfs_remove_dirent_allowed`: not an entry of the directory's own.
abbrev pub is_content : Dirent → M Bool
is_content d =
    if is_live d
    then (do
      own ← has_name d dot
      if own then pure false else (do parent ← has_name d dotdot; pure (not parent)))
    else pure false

-- The loop of `testfs_remove_dirent_allowed`, on fuel
unfoldable pub allowed_loop : ℕ → ℕ → ℕ → M Ret
allowed_loop zero p offset = fault
allowed_loop (suc n) p offset = do
  entry ← next_dirent p offset
  elim entry [
    | none ↦ pure (num 0)
    | some (d, offset') ↦ do
      let rest = allowed_loop n p offset'
      content ← is_content d
      if content then pure (err enotempty) else rest
  ]

-- `testfs_remove_dirent_allowed`
unfoldable pub remove_dirent_allowed : ℕ → M Ret
remove_dirent_allowed inode_nr = do
  p ← get_inode inode_nr
  i ← load p
  if not (i.din.i_type == i_dir)
      then (do put_inode p; pure (num 0))
      else (do n ← entries_fuel p; ret ← allowed_loop n p 0; put_inode p; pure ret)

-- The entry that `testfs_remove_dirent` has found at an offset: it is marked as unused.
unfoldable pub remove_found : (ℕ → Bool) → ℕ → Dirent → ℕ → M Ret
remove_found junk p d offset = do
  ret ← remove_dirent_allowed d.d_inode_nr
  elim ret [
    | err e ↦ pure (err e)
    | num _ ↦ do
      ret' ←
          write_data junk p (dirent_bytes (record d { d_inode_nr = invalid_inode_nr })) offset
            (dirent_size + d.d_name_len)
      elim ret' [ err e ↦ pure (err e) | num _ ↦ pure (num d.d_inode_nr) ]
  ]

-- The loop of `testfs_remove_dirent`, on fuel
unfoldable pub remove_loop : (ℕ → Bool) → ℕ → ℕ → List ℕ → ℕ → M Ret
remove_loop junk zero p name offset = fault
remove_loop junk (suc n) p name offset = do
  entry ← next_dirent p offset
  elim entry [
    | none ↦ pure (err enoent)
    | some (d, offset') ↦ do
      let rest = remove_loop junk n p name offset'
      hit ← is_named d name
      if hit then remove_found junk p d offset else rest
  ]

-- The name of an argument is one of the two that a directory keeps.
unfoldable pub is_dots : List ℕ → Bool
is_dots [] = false
is_dots (c ∷ []) = c == b'.'
is_dots (c ∷ c' ∷ []) = if c == b'.' then c' == b'.' else false
is_dots (c ∷ c' ∷ _ ∷ _) = false

-- `testfs_remove_dirent`
unfoldable pub remove_dirent : (ℕ → Bool) → ℕ → List ℕ → M Ret
remove_dirent junk p name =
    if is_dots name then pure (err einval) else (do n ← entries_fuel p; remove_loop junk n p name 0)
