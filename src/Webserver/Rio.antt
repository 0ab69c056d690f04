-- ===== src/Webserver/Rio.antt =====
-- The buffered reading of lines in webserver/common.c, and its writing, over the system calls read and
-- write, which are parameters. A `struct rio` is its descriptor with the bytes of the buffer that are unread.
pub mod Readline
pub mod Write
use ece344_os.Prelude.{
  ℕ, zero, suc, ◌+◌, Bool, true, false, ◌==◌, if◌then◌else◌, ltb, List, [], ◌∷◌, Option, none, some,
  upd, length,
}

-- What a call of read gives: EINTR, another error, or bytes, none at the end of the file.
pub data Got : Type 0 where
  interrupted : Got
  failed : Got
  got : List ℕ → Got

-- RIO_BUFSIZE
abbrev pub rio_bufsize : ℕ
rio_bufsize = 8192

pub record Rio (S : Type 0) : Type 0 where
  pub rio_fd : S
  pub unread : List ℕ

-- What rio_readb returns: -1, or the bytes that it has copied.
pub data Copied : Type 0 where
  error : Copied
  copied : List ℕ → Copied

-- How a function ends: it returns, it writes behind its buffer, it exits with an error message, or
-- it is not done yet when the fuel runs out.
pub data Ending (A : Type 0) : Type 0 where
  returns : A → Ending A
  overflow : Ending A
  exits : Ending A
  not_done : Ending A

-- A buffer in memory by its indices.
abbrev pub Chars : Type 0
Chars = ℕ → ℕ

-- The number of bytes that a line has, the buffer with them, and what is left to read.
pub record Line (S : Type 0) : Type 0 where
  pub rc : ℕ
  pub usrbuf : Chars
  pub rp : Rio S

-- The first `n` bytes of a list, and the others.
abbrev pub first_bytes : ℕ → List ℕ → List ℕ
first_bytes zero bs = []
first_bytes (suc n) [] = []
first_bytes (suc n) (b ∷ bs) = b ∷ first_bytes n bs

abbrev pub other_bytes : ℕ → List ℕ → List ℕ
other_bytes zero bs = bs
other_bytes (suc n) [] = []
other_bytes (suc n) (b ∷ bs) = other_bytes n bs

module _ {S : Type 0} (read : ℕ → S → Got × S) where
  -- The copy at the end of `rio_readb`.
  unfoldable pub copy_out : ℕ → Rio S → Copied × Rio S
  copy_out n rp = (copied (first_bytes n rp.unread), record rp { unread = other_bytes n rp.unread })

  -- The loop of `rio_readb` that fills the buffer again, on fuel for the calls of read.
  unfoldable pub refill : ℕ → ℕ → S → Option (Copied × Rio S)
  refill zero n s = none
  refill (suc k) n s =
      let (r, s') = read rio_bufsize s in
      elim r [
        | interrupted ↦ refill k n s'
        | failed ↦ some (error, record { rio_fd = s'; unread = [] })
        | got bs ↦ elim bs [
          | [] ↦ some (copied [], record { rio_fd = s'; unread = [] })
          | b ∷ bs' ↦ some (copy_out n (record { rio_fd = s'; unread = b ∷ bs' }))
        ]
      ]

  -- `rio_readb`
  unfoldable pub rio_readb : ℕ → ℕ → Rio S → Option (Copied × Rio S)
  rio_readb fuel n rp = elim rp.unread [
    | [] ↦ refill fuel n rp.rio_fd
    | _ ∷ _ ↦ some (copy_out n rp)
  ]

  -- The end of `rio_readlineb`: `*bufp = 0` in a buffer of `size` chars.
  unfoldable pub line_end : ℕ → ℕ → Chars → Rio S → Ending (Line S)
  line_end size n usrbuf rp =
      if ltb n size then returns (record { rc = n; usrbuf = upd usrbuf n 0; rp = rp }) else overflow

  -- The loop of `rio_readlineb` at `n`, with `m` rounds left before `maxlen`. The buffer has `size`
  -- chars.
  unfoldable pub line_loop : ℕ → ℕ → ℕ → ℕ → Chars → Rio S → Ending (Line S)
  line_loop fuel size zero n usrbuf rp = line_end size n usrbuf rp
  line_loop fuel size (suc m) n usrbuf rp = elim (rio_readb fuel 1 rp) [
    | none ↦ not_done
    | some (c, rp') ↦ elim c [
      | error ↦ exits
      | copied bs ↦ elim bs [
        | [] ↦
            if n == 0
            then returns (record { rc = 0; usrbuf = usrbuf; rp = rp' })
            else line_end size n usrbuf rp'
        | b ∷ _ ↦ elim (ltb n size) [
          | false ↦ overflow
          | true ↦ elim (b == b'\n') [
            | true ↦ line_end size (n + 1) (upd usrbuf n b) rp'
            | false ↦ line_loop fuel size m (n + 1) (upd usrbuf n b) rp'
          ]
        ]
      ]
    ]
  ]

  -- `Rio_readlineb` and `rio_readlineb`: an error of read ends the program.
  unfoldable pub rio_readlineb : ℕ → ℕ → ℕ → Chars → Rio S → Ending (Line S)
  rio_readlineb fuel size maxlen usrbuf rp = line_loop fuel size maxlen 0 usrbuf rp

-- What a call of write gives: the number of bytes that it took, at least 1, or else whether errno is
-- EINTR.
pub data Sent : Type 0 where
  took : ℕ → Sent
  stopped : Bool → Sent

module _ {S : Type 0} (write : List ℕ → S → Sent × S) where
  -- The loop of `rio_write`, on fuel: whether it gets to its end, for the bytes that are left.
  unfoldable pub write_out : ℕ → List ℕ → S → Option (Bool × S)
  write_out fuel [] s = some (true, s)
  write_out zero (b ∷ bs) s = none
  write_out (suc k) (b ∷ bs) s =
      let (r, s') = write (b ∷ bs) s in
      elim r [
        | took n ↦ write_out k (other_bytes n (b ∷ bs)) s'
        | stopped again ↦ if again then write_out k (b ∷ bs) s' else some (false, s')
      ]

  -- `rio_write`: the number of bytes, or `none` for -1
  unfoldable pub rio_write : ℕ → List ℕ → S → Option (Option ℕ × S)
  rio_write fuel usrbuf s = elim (write_out fuel usrbuf s) [
    | none ↦ none
    | some (done, s') ↦ some (if done then some (length usrbuf) else none, s')
  ]
