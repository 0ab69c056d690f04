-- ===== src/Fs/Errno.antt =====
-- The results of the C functions of fs that return a number, or a negated errno on error.
-- The constants are the error numbers of Linux.
use ece344_os.Prelude.{ℕ, Bool, true, false}

abbrev pub enoent : ℕ
enoent = 2

abbrev pub enomem : ℕ
enomem = 12

abbrev pub eexist : ℕ
eexist = 17

abbrev pub enotdir : ℕ
enotdir = 20

abbrev pub eisdir : ℕ
eisdir = 21

abbrev pub einval : ℕ
einval = 22

abbrev pub efbig : ℕ
efbig = 27

abbrev pub enospc : ℕ
enospc = 28

abbrev pub enotempty : ℕ
enotempty = 39

-- An `int` result: `num n` is n, and `err e` is the negative number -e.
pub data Ret : Type 0 where
  num : ℕ → Ret
  err : ℕ → Ret

-- The test `ret < 0`.
abbrev pub is_err : Ret → Bool
is_err (num n) = false
is_err (err e) = true
