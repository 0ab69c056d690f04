-- ===== src/Fs/Testfs.antt =====
-- The program of fs/testfs.c: its commands, the splitting of a line into arguments, and the main loop
-- over the lines of the standard input. strtok_r is a parameter, and so are strtoll and strtoull of
-- fs/file.c, the `junk` of testfs_write_data and the fuel of testfs_ls and testfs_pwd. The output is
-- a list of what is printed.
pub mod Parse
use ece344_os.Prelude.{
  ℕ, zero, suc, ◌+◌, ◌-◌, Bool, true, false, not, ◌==◌, if◌then◌else◌, ltb, List, [], ◌∷◌, ◌++◌,
  Option, none, some, upd, same, pure, fault, ◌>>=◌, ◌>>◌,
}
use ece344_os.Fs.Errno.{Ret, num, err, einval}
use ece344_os.Fs.State.{Dinode, Device, Testfs, M}
use ece344_os.Fs.Inode.{get_inode, put_inode}
use ece344_os.Fs.Dir.{
  Context, Line, cmd_ls, cmd_lsr, cmd_cd, cmd_pwd, cmd_create, cmd_mkdir, cmd_rm, cmd_stat,
}
use ece344_os.Fs.File.{cmd_read, cmd_write}
use ece344_os.Fs.Super.Mount.{init_super_block, close_super_block}

-- The entries of `cmdtable`.
pub data Command : Type 0 where
  help : Command
  cd : Command
  pwd : Command
  ls : Command
  lsr : Command
  create : Command
  stat : Command
  rm : Command
  mkdir : Command
  read : Command
  write : Command
  fsstat : Command
  quit : Command

abbrev pub cmdtable : List Command
cmdtable =
    help ∷ cd ∷ pwd ∷ ls ∷ lsr ∷ create ∷ stat ∷ rm ∷ mkdir ∷ read ∷ write ∷ fsstat ∷ quit ∷ []

abbrev pub name_of : Command → List ℕ
name_of help = b'h' ∷ b'e' ∷ b'l' ∷ b'p' ∷ []
name_of cd = b'c' ∷ b'd' ∷ []
name_of pwd = b'p' ∷ b'w' ∷ b'd' ∷ []
name_of ls = b'l' ∷ b's' ∷ []
name_of lsr = b'l' ∷ b's' ∷ b'r' ∷ []
name_of create = b'c' ∷ b'r' ∷ b'e' ∷ b'a' ∷ b't' ∷ b'e' ∷ []
name_of stat = b's' ∷ b't' ∷ b'a' ∷ b't' ∷ []
name_of rm = b'r' ∷ b'm' ∷ []
name_of mkdir = b'm' ∷ b'k' ∷ b'd' ∷ b'i' ∷ b'r' ∷ []
name_of read = b'r' ∷ b'e' ∷ b'a' ∷ b'd' ∷ []
name_of write = b'w' ∷ b'r' ∷ b'i' ∷ b't' ∷ b'e' ∷ []
name_of fsstat = b'f' ∷ b's' ∷ b's' ∷ b't' ∷ b'a' ∷ b't' ∷ []
name_of quit = b'q' ∷ b'u' ∷ b'i' ∷ b't' ∷ []

abbrev pub max_args : Command → ℕ
max_args help = 1
max_args cd = 2
max_args pwd = 1
max_args ls = 2
max_args lsr = 2
max_args create = 2
max_args stat = 2
max_args rm = 2
max_args mkdir = 2
max_args read = 4
max_args write = 4
max_args fsstat = 1
max_args quit = 1

-- MAX_ARGS of fs/testfs.h
abbrev pub args_limit : ℕ
args_limit = 6

-- The array `cmd` of `struct context`, of MAX_ARGS + 1 strings; `none` is NULL.
abbrev pub Args : Type 0
Args = ℕ → Option (List ℕ)

-- `c->cmd[j] = word`; an index out of bounds is a fault.
unfoldable pub set_cmd : ℕ → Option (List ℕ) → Args → Option Args
set_cmd j word cmd = if ltb j (args_limit + 1) then some (upd cmd j word) else none

-- The last loop of `parse_command`, from the index `j`, of `n` rounds.
unfoldable pub clear_cmd : ℕ → ℕ → Args → Option Args
clear_cmd zero j cmd = some cmd
clear_cmd (suc n) j cmd = elim (set_cmd j none cmd) [
  | none ↦ none
  | some cmd' ↦ clear_cmd n (j + 1) cmd'
]

-- The delimiters " \t\r\n" and "\r\n".
abbrev pub blanks : List ℕ
blanks = 32 ∷ 9 ∷ 13 ∷ 10 ∷ []

abbrev pub line_ends : List ℕ
line_ends = 13 ∷ 10 ∷ []

-- What a command or the program prints.
pub data Output : Type 0 where
  -- the first line of `cmd_help`, and that of a command
  help_heading : Output
  help_line : Command → Output
  bye : Output
  listing : List Line → Output
  directory : List ℕ → Output
  contents : Option (List ℕ) → Output
  status : Option (ℕ × Dinode) → Output
  -- the numbers of allocated inodes and blocks
  usage_counts : ℕ → ℕ → Output
  -- the errno and the usage of the command
  failure : ℕ → Command → Output
  not_found : List ℕ → Output
  prompt : Output
  echo : List ℕ → Output

-- The loop of `cmd_help`.
unfoldable pub help_lines : List Command → List Output
help_lines [] = []
help_lines (c ∷ cs) = help_line c ∷ help_lines cs

-- `cmd_help`
unfoldable pub cmd_help : List Output
cmd_help = help_heading ∷ help_lines cmdtable

-- `cmd_fsstat`
unfoldable pub cmd_fsstat : Context → M (Ret × List Output)
cmd_fsstat c s =
    if not (c.nargs == 1)
    then some ((err einval, []), s)
    else some ((num 0, usage_counts s.sb.used_inode_count s.sb.used_block_count ∷ []), s)

-- The search of `handle_command` for the command of a name.
unfoldable pub find_command : List Command → List ℕ → Option Command
find_command [] name = none
find_command (c ∷ cs) name = if same name (name_of c) then some c else find_command cs name

-- `struct context` with the flag `can_quit`.
pub record Shell : Type 0 where
  pub nargs : ℕ
  pub cmd : Args
  pub cur_dir : ℕ
  pub can_quit : Bool

-- What a command reads of it; no command reads an argument from `nargs` on.
abbrev pub context_of : Shell → Context
context_of sh = record {
  nargs = sh.nargs;
  cmd = λ k. elim (sh.cmd k) [ none ↦ [] | some word ↦ word ];
  cur_dir = sh.cur_dir;
}

-- Calling `func` of a command: its result, the context that it leaves, and what it prints.
module _ (strtoll strtoull : List ℕ → ℕ × List ℕ) (junk : ℕ → Bool) (n : ℕ) where
  unfoldable pub run : Command → Shell → M (Ret × (Shell × List Output))
  run help sh = pure (num 0, (sh, cmd_help))
  run cd sh = do
    (ret, c) ← cmd_cd (context_of sh)
    pure (ret, (record sh { cur_dir = c.cur_dir }, []))
  run pwd sh = do (ret, out) ← cmd_pwd n (context_of sh); pure (ret, (sh, directory out ∷ []))
  run ls sh = do (ret, out) ← cmd_ls n (context_of sh); pure (ret, (sh, listing out ∷ []))
  run lsr sh = do (ret, out) ← cmd_lsr n (context_of sh); pure (ret, (sh, listing out ∷ []))
  run create sh = do ret ← cmd_create junk (context_of sh); pure (ret, (sh, []))
  run stat sh = do (ret, out) ← cmd_stat (context_of sh); pure (ret, (sh, status out ∷ []))
  run rm sh = do ret ← cmd_rm junk (context_of sh); pure (ret, (sh, []))
  run mkdir sh = do ret ← cmd_mkdir junk (context_of sh); pure (ret, (sh, []))
  run read sh = do
    (ret, out) ← cmd_read strtoll strtoull (context_of sh)
    pure (ret, (sh, contents out ∷ []))
  run write sh = do ret ← cmd_write strtoll junk (context_of sh); pure (ret, (sh, []))
  run fsstat sh = do (ret, out) ← cmd_fsstat (context_of sh); pure (ret, (sh, out))
  run quit sh = pure (num 0, (record sh { can_quit = true }, bye ∷ []))

-- Where the first loop of `parse_command` stops.
pub record Scan (Save : Type 0) : Type 0 where
  pub j : ℕ
  pub args : Option (List ℕ)
  pub save : Save
  pub cmd : Args

-- What `parse_command` writes into `struct context`.
pub record Parsed : Type 0 where
  pub nargs : ℕ
  pub cmd : Args

-- `Save` is what strtok_r keeps through its last argument, which `null` initialises.
module _ {Save : Type 0} (null : Save)
    (strtok_r : Option (List ℕ) → List ℕ → Save → Option (List ℕ) × Save) where
  -- The first loop of `parse_command`, of `n` rounds at most.
  unfoldable pub parse_loop : ℕ → ℕ → Option (List ℕ) → Save → Args → Option (Scan Save)
  parse_loop zero j args save cmd = some (record { j = j; args = args; save = save; cmd = cmd })
  parse_loop (suc n) j args save cmd =
      let (word, save') = strtok_r args blanks save in
      elim (set_cmd j word cmd) [
        | none ↦ none
        | some cmd' ↦ elim word [
          | none ↦ some (record { j = j; args = args; save = save'; cmd = cmd' })
          | some _ ↦ parse_loop n (j + 1) none save' cmd'
        ]
      ]

  -- The rest of `parse_command`.
  unfoldable pub parse_end : Scan Save → Option Parsed
  parse_end s =
      let (word, _) = strtok_r s.args line_ends s.save in
      let nargs : ℕ = elim word [ none ↦ s.j | some _ ↦ s.j + 1 ] in
      elim (set_cmd s.j word s.cmd) [
        | none ↦ none
        | some cmd ↦ elim (clear_cmd (args_limit - nargs) (nargs + 1) cmd) [
          | none ↦ none
          | some cmd' ↦ some (record { nargs = nargs; cmd = cmd' })
        ]
      ]

  -- `parse_command`
  unfoldable pub parse_command : Command → List ℕ → Option (List ℕ) → Args → Option Parsed
  parse_command c name args cmd = elim (set_cmd 0 (some name) cmd) [
    | none ↦ none
    | some cmd' ↦ elim (parse_loop (max_args c - 1) 1 args null cmd') [
      | none ↦ none
      | some s ↦ parse_end s
    ]
  ]

  module _ (strtoll strtoull : List ℕ → ℕ × List ℕ) (junk : ℕ → Bool) (n : ℕ) where
    -- The call of a command that has been found, and the report of its failure.
    unfoldable pub call_command :
        Command → List ℕ → Option (List ℕ) → Shell → M (Shell × List Output)
    call_command c name args sh = elim (parse_command c name args sh.cmd) [
      | none ↦ fault
      | some p ↦ do
        (ret, (sh', out)) ←
            run strtoll strtoull junk n c (record sh { nargs = p.nargs; cmd = p.cmd })
        pure (sh', elim ret [ num _ ↦ out | err e ↦ out ++ (failure e c ∷ []) ])
    ]

    -- `handle_command`
    unfoldable pub handle_command :
        Option (List ℕ) → Option (List ℕ) → Shell → M (Shell × List Output)
    handle_command none args sh = pure (sh, [])
    handle_command (some name) args sh = elim (find_command cmdtable name) [
      | none ↦ pure (sh, not_found name ∷ [])
      | some c ↦ call_command c name args sh
    ]

    -- A line of the main loop that is not a comment.
    unfoldable pub handle_line : List ℕ → Shell → M (Shell × List Output)
    handle_line line sh =
        let (cname, save) = strtok_r (some line) blanks null in
        let (pargs, _) = strtok_r none line_ends save in handle_command cname pargs sh

    module _ (hide_prompt verbose : Bool) where
      abbrev pub prompts : List Output
      prompts = if hide_prompt then [] else prompt ∷ []

      abbrev pub echoes : List ℕ → List Output
      echoes line = if verbose then echo line ∷ [] else []

      abbrev pub is_comment : List ℕ → Bool
      is_comment [] = false
      is_comment (b ∷ _) = b == b'#'

      -- The main loop, over the lines that getline reads.
      unfoldable pub main_loop : List (List ℕ) → Shell → M (Shell × List Output)
      main_loop [] sh = pure (sh, prompts)
      main_loop (line ∷ lines) sh = elim (is_comment line) [
        | true ↦ do (sh', out) ← main_loop lines sh; pure (sh', prompts ++ out)
        | false ↦ do
          (sh', out) ← handle_line line sh
          let here = prompts ++ (echoes line ++ out)
          elim sh'.can_quit [
            | true ↦ pure (sh', here)
            | false ↦ do (sh'', out') ← main_loop lines sh'; pure (sh'', here ++ out')
          ]
      ]

      -- `main` behind the options, on a device: the output. `cmd` is what the array holds before it
      -- is written.
      unfoldable pub run_main : Device → Args → List (List ℕ) → Option (List Output × Testfs)
      run_main dev cmd lines = elim (init_super_block dev) [
        | none ↦ none
        | some (_, s) ↦
            (do
              p ← get_inode 0
              (sh, out) ←
                  main_loop lines (record { nargs = 0; cmd = cmd; cur_dir = p; can_quit = false })
              put_inode sh.cur_dir
              close_super_block
              pure out)
              s
      ]
