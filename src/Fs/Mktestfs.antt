-- ===== src/Fs/Mktestfs.antt =====
-- The program of fs/mktestfs.c behind its options: it formats a device and makes the root directory.
use ece344_os.Prelude.{ℕ, ◌*◌, ◌/◌, ◌^◌, Bool, if◌then◌else◌, ltb, none, some, ◌>>=◌}
use ece344_os.Fs.State.{Device}
use ece344_os.Fs.Layout.{block_size, block_freemap_size}
use ece344_os.Fs.Super.Mount.{mkfs, close_super_block}
use ece344_os.Fs.Dir.{make_root_dir}

-- How the program ends: it prints its usage and exits, it aborts, or it leaves a device.
pub data Formatted : Type 0 where
  usage : Formatted
  aborted : Formatted
  formatted : Device → Formatted

-- The largest size, in megabytes.
abbrev pub max_fs_size_mb : ℕ
max_fs_size_mb = block_freemap_size * block_size * 8 * block_size / 2 ^ 20

-- The part of `main` behind the tests of the size.
unfoldable pub format : (ℕ → Bool) → ℕ → Formatted
format junk max_fs_blocks = elim (mkfs max_fs_blocks) [
  | none ↦ aborted
  | some (_, s) ↦ elim ((do _ ← make_root_dir junk; close_super_block) s) [
    | none ↦ aborted
    | some (_, t) ↦ formatted t.dev
  ]
]

-- `main` for the size `fs_size_mb`, in megabytes.
unfoldable pub mktestfs : (ℕ → Bool) → ℕ → Formatted
mktestfs junk fs_size_mb =
    if ltb fs_size_mb 1
    then usage
    else if ltb max_fs_size_mb fs_size_mb
    then usage
    else format junk (fs_size_mb * 2 ^ 20 / block_size)
