-- ===== src/Fs/Dir.antt =====
-- Creating files and directories, and the commands on them (fs/dir.c). What a command prints is part
-- of its result. The functions that write take `junk`, that of `write_data`.
use ece344_os.Prelude.{
  ℕ, zero, suc, ◌+◌, Bool, true, false, ◌==◌, ◌&&◌, not, if◌then◌else◌, List, [], ◌∷◌, ◌++◌, Option,
  none, some, pure, fault, ◌>>=◌, ◌>>◌,
}
use ece344_os.Fs.Errno.{Ret, num, err, eexist, einval, enotdir}
use ece344_os.Fs.Layout.{Buffer}
use ece344_os.Fs.State.{Dinode, M, assert, load}
use ece344_os.Fs.Inode.{get_inode, put_inode, sync_inode}
use ece344_os.Fs.Create.{i_file, i_dir, create_inode, remove_inode, made, failed}
use ece344_os.Fs.Dirent.{
  Dirent, next_dirent, has_name, is_live, dir_name_to_inode_nr, find_dirent, add_dirent, dot,
  dotdot, remove_dirent,
}

-- `testfs_create_empty_dir`
unfoldable pub create_empty_dir : (ℕ → Bool) → ℕ → ℕ → M Ret
create_empty_dir junk p_inode_nr p = do
  i ← load p
  assert (i.din.i_type == i_dir)
  ret ← add_dirent junk p dot i.i_nr
  elim ret [
    | err e ↦ pure (err e)
    | num _ ↦ do
      ret' ← add_dirent junk p dotdot p_inode_nr
      elim ret' [ num _ ↦ pure (num 0) | err e ↦ do _ ← remove_dirent junk p dot; pure (err e) ]
  ]

-- The test of `testfs_create_file_or_dir`: there is a directory that has the name.
abbrev pub name_taken : Option ℕ → List ℕ → M Bool
name_taken none name = pure false
name_taken (some dir) name = do
  ret ← dir_name_to_inode_nr dir name
  elim ret [ err e ↦ pure false | num _ ↦ pure true ]

-- The entries that `testfs_create_file_or_dir` makes for the new inode at `p`.
unfoldable pub enter_new : (ℕ → Bool) → Option ℕ → ℕ → List ℕ → ℕ → ℕ → M Ret
enter_new junk dir type name p inode_nr = do
  parent ← elim dir as (λ _. M ℕ) [ none ↦ pure inode_nr | some q ↦ do i ← load q; pure i.i_nr ]
  ret ← if type == i_dir then create_empty_dir junk parent p else pure (num 0)
  elim ret [
    | err e ↦ pure (err e)
    | num _ ↦ elim dir as (λ _. M Ret) [
      | none ↦ pure (num 0)
      | some q ↦ do
        ret' ← add_dirent junk q name inode_nr
        elim ret' [ err e ↦ pure (err e) | num _ ↦ do sync_inode q; pure (num 0) ]
    ]
  ]

-- `testfs_create_file_or_dir`
unfoldable pub create_file_or_dir : (ℕ → Bool) → Option ℕ → ℕ → List ℕ → M Ret
create_file_or_dir junk dir type name = do
  taken ← name_taken dir name
  if taken then pure (err eexist) else (do
    new ← create_inode type
    elim new [
      | failed e ↦ pure (err e)
      | made p ↦ do
        i ← load p
        ret ← enter_new junk dir type name p i.i_nr
        elim ret [
          | num _ ↦ do sync_inode p; put_inode p; pure (num 0)
          | err e ↦ do remove_inode p; pure (err e)
        ]
    ])

-- `testfs_make_root_dir`
unfoldable pub make_root_dir : (ℕ → Bool) → M Ret
make_root_dir junk = create_file_or_dir junk none i_dir []

-- The bytes of an entry's name as `printf` writes them, with at most `n` of them.
unfoldable pub printed : ℕ → ℕ → Buffer → List ℕ
printed zero k b = []
printed (suc n) k b = let rest = b k ∷ printed n (k + 1) b in if b k == 0 then [] else rest

-- `testfs_pwd`, on fuel: what it prints, and its result. A chain of parents that is longer than the
-- fuel is a fault.
unfoldable pub pwd_loop : ℕ → ℕ → M (List ℕ × ℕ)
pwd_loop zero p = fault
pwd_loop (suc n) p = do
  ret ← dir_name_to_inode_nr p dotdot
  i ← load p
  elim ret [
    | err e ↦ fault
    | num p_inode_nr ↦ if p_inode_nr == i.i_nr then pure (b'/' ∷ [], 1) else (do
      q ← get_inode p_inode_nr
      entry ← find_dirent q i.i_nr
      elim entry [
        | none ↦ fault
        | some d ↦ do
          (out, top) ← pwd_loop n q
          put_inode q
          let name = printed d.d_name_len 0 d.d_name
          pure (out ++ (if top == 1 then name else b'/' ∷ name), 0)
      ])
  ]

-- A line that `testfs_ls` prints: the name, and whether it is that of a directory.
abbrev pub Line : Type 0
Line = List ℕ × Bool

-- The test of `testfs_ls` for going into a directory.
abbrev pub goes_down : Bool → Bool → Dirent → M Bool
goes_down recursive is_directory d =
    if recursive && is_directory
    then (do
      own ← has_name d dot
      if own then pure false else (do parent ← has_name d dotdot; pure (not parent)))
    else pure false

-- `testfs_ls` from an offset on, on fuel: a round for each entry, and each directory that it goes into
-- has the rounds that are left.
unfoldable pub ls_loop : ℕ → ℕ → Bool → ℕ → M (List Line)
ls_loop zero p recursive offset = fault
ls_loop (suc n) p recursive offset = do
  entry ← next_dirent p offset
  elim entry [
    | none ↦ pure []
    | some (d, offset') ↦ do
      let rest = ls_loop n p recursive offset'
      let shown = (do
        q ← get_inode d.d_inode_nr
        i ← load q
        let line : Line = (printed d.d_name_len 0 d.d_name, i.din.i_type == i_dir)
        down ← goes_down recursive (i.din.i_type == i_dir) d
        let below : M (List Line) = ls_loop n q recursive 0
        lines ← if down then below else pure []
        put_inode q
        lines' ← rest
        pure (line ∷ (lines ++ lines')))
      if is_live d then shown else rest
  ]

-- `struct context`
pub record Context : Type 0 where
  pub nargs : ℕ
  pub cmd : ℕ → List ℕ
  pub cur_dir : ℕ

-- `cmd_ls_internal`, with the fuel for `testfs_ls`
unfoldable pub cmd_ls_internal : ℕ → Context → Bool → M (Ret × List Line)
cmd_ls_internal n c recursive = if not (c.nargs == 2) then pure (err einval, []) else (do
  ret ← dir_name_to_inode_nr c.cur_dir (c.cmd 1)
  elim ret [
    | err e ↦ pure (err e, [])
    | num inode_nr ↦ do
      p ← get_inode inode_nr
      i ← load p
      if i.din.i_type == i_dir
          then (do lines ← ls_loop n p recursive 0; put_inode p; pure (num 0, lines))
          else pure (err enotdir, [])
  ])

-- `cmd_ls` and `cmd_lsr`
unfoldable pub cmd_ls : ℕ → Context → M (Ret × List Line)
cmd_ls n c = cmd_ls_internal n c false

unfoldable pub cmd_lsr : ℕ → Context → M (Ret × List Line)
cmd_lsr n c = cmd_ls_internal n c true

-- `cmd_cd`, with the context that it leaves
unfoldable pub cmd_cd : Context → M (Ret × Context)
cmd_cd c = if not (c.nargs == 2) then pure (err einval, c) else (do
  ret ← dir_name_to_inode_nr c.cur_dir (c.cmd 1)
  elim ret [
    | err e ↦ pure (err e, c)
    | num inode_nr ↦ do
      p ← get_inode inode_nr
      i ← load p
      if not (i.din.i_type == i_dir)
          then (do put_inode p; pure (err enotdir, c))
          else (do put_inode c.cur_dir; pure (num 0, record c { cur_dir = p }))
  ])

-- `cmd_pwd`, with the fuel for `testfs_pwd`
unfoldable pub cmd_pwd : ℕ → Context → M (Ret × List ℕ)
cmd_pwd n c =
    if not (c.nargs == 1)
    then pure (err einval, [])
    else (do (out, _) ← pwd_loop n c.cur_dir; pure (num 0, out ++ b'\n' ∷ []))

-- `cmd_create` and `cmd_mkdir`
unfoldable pub cmd_create : (ℕ → Bool) → Context → M Ret
cmd_create junk c =
    if not (c.nargs == 2)
    then pure (err einval)
    else create_file_or_dir junk (some c.cur_dir) i_file (c.cmd 1)

unfoldable pub cmd_mkdir : (ℕ → Bool) → Context → M Ret
cmd_mkdir junk c =
    if not (c.nargs == 2)
    then pure (err einval)
    else create_file_or_dir junk (some c.cur_dir) i_dir (c.cmd 1)

-- `cmd_rm`
unfoldable pub cmd_rm : (ℕ → Bool) → Context → M Ret
cmd_rm junk c = if not (c.nargs == 2) then pure (err einval) else (do
  ret ← remove_dirent junk c.cur_dir (c.cmd 1)
  elim ret [
    | err e ↦ pure (err e)
    | num inode_nr ↦ do p ← get_inode inode_nr; remove_inode p; sync_inode c.cur_dir; pure (num 0)
  ])

-- `cmd_stat`, with the inode number and the dinode that it prints
unfoldable pub cmd_stat : Context → M (Ret × Option (ℕ × Dinode))
cmd_stat c = if not (c.nargs == 2) then pure (err einval, none) else (do
  ret ← dir_name_to_inode_nr c.cur_dir (c.cmd 1)
  elim ret [
    | err e ↦ pure (err e, none)
    | num inode_nr ↦ do
      p ← get_inode inode_nr
      i ← load p
      put_inode p
      pure (num 0, some (i.i_nr, i.din))
  ])
