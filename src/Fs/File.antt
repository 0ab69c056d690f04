-- ===== src/Fs/File.antt =====
-- The commands on regular files (fs/file.c), with the numbers in their arguments (fs/common.c).
-- strtoll and strtoull are parameters: the 64-bit value, and the part of the string that is left.
use ece344_os.Prelude.{
  ℕ, ◌+◌, ◌^◌, ◌%◌, Bool, ltb, ◌==◌, not, if◌then◌else◌, List, [], ◌∷◌, Option, none, some, length,
  upd, pure, ◌>>=◌, ◌>>◌,
}
use ece344_os.Fs.Errno.{Ret, num, err, einval, eisdir}
use ece344_os.Fs.Layout.{zeros}
use ece344_os.Fs.State.{M, load}
use ece344_os.Fs.Inode.{get_inode, put_inode, sync_inode}
use ece344_os.Fs.ReadWrite.{lt_off, read_data, write_data}
use ece344_os.Fs.Create.{i_dir, Made, made, failed}
use ece344_os.Fs.Dirent.{dir_name_to_inode_nr, string_bytes}
use ece344_os.Fs.Dir.{Context, printed}

-- `testfs_get_file_inode`: the address of the inode
unfoldable pub get_file_inode : ℕ → List ℕ → M Made
get_file_inode dir name = do
  ret ← dir_name_to_inode_nr dir name
  elim ret [
    | err e ↦ pure (failed e)
    | num inode_nr ↦ do
      p ← get_inode inode_nr
      i ← load p
      if i.din.i_type == i_dir then (do put_inode p; pure (failed eisdir)) else pure (made p)
  ]

-- `str_to_offset` and `str_to_size`, of strtoll and of strtoull; `none` is -EINVAL
abbrev pub str_to_offset : (List ℕ → ℕ × List ℕ) → List ℕ → Option ℕ
str_to_offset strtoll str =
    let (val, end) = strtoll str in elim end [ [] ↦ some val | _ ∷ _ ↦ none ]

abbrev pub str_to_size : (List ℕ → ℕ × List ℕ) → List ℕ → Option ℕ
str_to_size strtoull str =
    let (val, end) = strtoull str in elim end [ [] ↦ some val | _ ∷ _ ↦ none ]

-- The part of `cmd_read` with the file's inode at `p`, and what it prints.
unfoldable pub read_file : ℕ → ℕ → ℕ → M (Ret × Option (List ℕ))
read_file p offset size = do
  i ← load p
  result ← if lt_off i.din.i_size ((offset + size) % 2 ^ 64) then pure (err einval, none) else (do
    (ret, buf) ← read_data p zeros offset size
    elim ret [
      | err e ↦ pure (err e, none)
      | num n ↦ pure (num n, some (printed size 0 (upd buf size 0)))
    ])
  put_inode p
  pure result

-- An offset argument: a number that is not negative.
abbrev pub offset_argument : (List ℕ → ℕ × List ℕ) → List ℕ → Option ℕ
offset_argument strtoll str = elim (str_to_offset strtoll str) [
  | none ↦ none
  | some offset ↦ if ltb offset (2 ^ 63) then some offset else none
]

module _ (strtoll strtoull : List ℕ → ℕ × List ℕ) where
  -- `cmd_read`, with what it prints
  unfoldable pub cmd_read : Context → M (Ret × Option (List ℕ))
  cmd_read c =
      if not (c.nargs == 4)
      then pure (err einval, none)
      else elim (offset_argument strtoll (c.cmd 2)) [
        | none ↦ pure (err einval, none)
        | some offset ↦ elim (str_to_size strtoull (c.cmd 3)) [
          | none ↦ pure (err einval, none)
          | some size ↦ do
            file ← get_file_inode c.cur_dir (c.cmd 1)
            elim file [ failed e ↦ pure (err e, none) | made p ↦ read_file p offset size ]
        ]
      ]

-- `cmd_write`
unfoldable pub cmd_write : (List ℕ → ℕ × List ℕ) → (ℕ → Bool) → Context → M Ret
cmd_write strtoll junk c =
    if not (c.nargs == 4) then pure (err einval) else elim (offset_argument strtoll (c.cmd 2)) [
      | none ↦ pure (err einval)
      | some offset ↦ do
        file ← get_file_inode c.cur_dir (c.cmd 1)
        elim file [
          | failed e ↦ pure (err e)
          | made p ↦ do
            ret ← write_data junk p (string_bytes (c.cmd 3)) offset (length (c.cmd 3))
            sync_inode p
            put_inode p
            pure ret
        ]
    ]
