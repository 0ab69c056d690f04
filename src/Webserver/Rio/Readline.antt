-- ===== src/Webserver/Rio/Readline.antt =====
-- rio_readlineb of webserver/common.c against the lines of what the descriptor delivers.
use ece344_os.Prelude.{
  ℕ, zero, suc, ◌+◌, ◌≤◌, ◌<◌, ◌≡◌, refl, sym, ap, ◌∙◌, false, ◌==◌, if◌then◌else◌, ltb, List, [],
  ◌∷◌, ◌++◌, Option, some, upd, arith, length, inl, inr, Bool-cases,
}
use ece344_os.Webserver.Rio.{
  Got, interrupted, got, rio_bufsize, Rio, Copied, copied, Ending, returns, overflow, Chars, Line,
  copy_out, refill, rio_readb, line_end, line_loop, rio_readlineb,
}

-- What read does for a descriptor without errors: `bytes` are those still to come, and `left` bounds
-- the number of times that a signal will interrupt the call.
pub data Delivers {S : Type 0} (bytes : S → List ℕ) (left : S → ℕ) (s : S) (r : Got × S)
    : Type 0 where
  breaks :
      (s' : S)
      → r ≡ (interrupted, s')
      → bytes s' ≡ bytes s
      → left s' < left s
      → Delivers bytes left s r
  gives :
      (bs : List ℕ) (s' : S)
      → r ≡ (got bs, s')
      → bytes s ≡ bs ++ bytes s'
      → (bs ≡ [] → bytes s ≡ [])
      → left s' ≤ left s
      → Delivers bytes left s r

module _ {S : Type 0} (read : ℕ → S → Got × S) (bytes : S → List ℕ) (left : S → ℕ)
    (sound : (s : S) → Delivers bytes left s (read rio_bufsize s)) (fuel : ℕ) where
  -- The bytes that are still to come.
  abbrev pub pending : Rio S → List ℕ
  pending rp = rp.unread ++ bytes rp.rio_fd

  -- A call for one byte: it gives the first one to come, or none at the end.
  pub data OneByte (bs : List ℕ) (n : ℕ) (r : Option (Copied × Rio S)) : Type 0 where
    one :
        (b : ℕ) (rp : Rio S)
        → r ≡ some (copied (b ∷ []), rp)
        → bs ≡ b ∷ pending rp
        → left rp.rio_fd ≤ n
        → OneByte bs n r
    at_end :
        (rp : Rio S)
        → r ≡ some (copied [], rp)
        → bs ≡ []
        → pending rp ≡ []
        → left rp.rio_fd ≤ n
        → OneByte bs n r

  refill-OneByte : (k : ℕ) (s : S) → left s < k → OneByte (bytes s) (left s) (refill read k 1 s)
  unfolding refill copy_out
  refill-OneByte zero s h = absurd (omega arith)
  refill-OneByte (suc k) s h = elim (sound s) [
    | breaks s' e b l ↦
        let again : refill read (suc k) 1 s ≡ refill read k 1 s' = ground (arith, e) in
        elim (refill-OneByte k s' (omega arith)) [
          | one c rp f g m ↦ one c rp (again ∙ f) (sym b ∙ g) (omega arith)
          | at_end rp f g g' m ↦ at_end rp (again ∙ f) (sym b ∙ g) g' (omega arith)
        ]
    | gives bs s' e b z l ↦ filled bs s' e b z l
  ]
    where
      filled :
          (bs : List ℕ) (s' : S)
          → read rio_bufsize s ≡ (got bs, s')
          → bytes s ≡ bs ++ bytes s'
          → (bs ≡ [] → bytes s ≡ [])
          → left s' ≤ left s
          → OneByte (bytes s) (left s) (refill read (suc k) 1 s)
      filled [] s' e b z l =
          at_end (record { rio_fd = s'; unread = [] }) (ground (arith, e)) (z refl) (sym b ∙ z refl)
            l
      filled (c ∷ cs) s' e b z l =
          one c (record { rio_fd = s'; unread = cs }) (ground (arith, e)) b l

  rio_readb-OneByte :
      (rp : Rio S)
      → left rp.rio_fd < fuel
      → OneByte (pending rp) (left rp.rio_fd) (rio_readb read fuel 1 rp)
  unfolding rio_readb copy_out
  rio_readb-OneByte rp h = from rp.unread refl
    where
      from :
          (bs : List ℕ)
          → rp.unread ≡ bs
          → OneByte (pending rp) (left rp.rio_fd) (rio_readb read fuel 1 rp)
      from [] e =
          let empty : rio_readb read fuel 1 rp ≡ refill read fuel 1 rp.rio_fd = ground (arith, e) in
          let all : pending rp ≡ bytes rp.rio_fd = ap (λ x. x ++ bytes rp.rio_fd) e in
          rw empty (rw all (refill-OneByte fuel rp.rio_fd h))
      from (c ∷ cs) e =
          one c (record rp { unread = cs }) (ground (arith, e)) (ap (λ x. x ++ bytes rp.rio_fd) e)
            (omega arith)

-- The first line of some bytes, with its newline if it has one, and what is behind it.
unfoldable pub line_of : List ℕ → List ℕ
line_of [] = []
line_of (b ∷ bs) = let rest = line_of bs in b ∷ (if b == b'\n' then [] else rest)

unfoldable pub behind_line : List ℕ → List ℕ
behind_line [] = []
behind_line (b ∷ bs) = let rest = behind_line bs in if b == b'\n' then bs else rest

-- A buffer with bytes stored from an index on.
unfoldable pub put : Chars → ℕ → List ℕ → Chars
put buf n [] = buf
put buf n (b ∷ bs) = put (upd buf n b) (n + 1) bs

pub put_before : (buf : Chars) (n : ℕ) (bs : List ℕ) (k : ℕ) → k < n → put buf n bs k ≡ buf k
unfolding put
put_before buf n [] k h = refl
put_before buf n (b ∷ bs) k h = ground (arith, put_before (upd buf n b) (n + 1) bs k, h)

module _ {S : Type 0} (read : ℕ → S → Got × S) (bytes : S → List ℕ) (left : S → ℕ)
    (sound : (s : S) → Delivers bytes left s (read rio_bufsize s)) (fuel : ℕ) where
  -- What is read from the bytes `bs` into a buffer that has `n` chars already: their first line and a
  -- 0; nothing, where there is nothing to read; or too much for the buffer.
  pub data Reads (size n : ℕ) (buf : Chars) (bs : List ℕ) (k : ℕ) (r : Ending (Line S))
      : Type 0 where
    line :
        (l : Line S)
        → r ≡ returns l
        → 0 < l.rc
        → l.rc ≡ n + length (line_of bs)
        → l.rc < size
        → l.usrbuf ≡ put buf n (line_of bs ++ 0 ∷ [])
        → pending read bytes left sound fuel l.rp ≡ behind_line bs
        → left l.rp.rio_fd ≤ k
        → Reads size n buf bs k r
    nothing :
        (l : Line S)
        → r ≡ returns l
        → bs ≡ []
        → n ≡ 0
        → l.rc ≡ 0
        → l.usrbuf ≡ buf
        → pending read bytes left sound fuel l.rp ≡ []
        → left l.rp.rio_fd ≤ k
        → Reads size n buf bs k r
    too_long : size ≤ n + length (line_of bs) → r ≡ overflow → Reads size n buf bs k r

  -- A byte that is no newline comes first.
  later :
      {size n : ℕ} {buf : Chars} {k k' : ℕ} {r r' : Ending (Line S)} (b : ℕ) (bs : List ℕ)
      → r ≡ r'
      → (b == b'\n') ≡ false
      → k' ≤ k
      → Reads size (n + 1) (upd buf n b) bs k' r'
      → Reads size n buf (b ∷ bs) k r
  unfolding line_of behind_line put
  later b bs e y le (line l f pos rc lt text over left) =
      line l (e ∙ f) pos (ground (arith, rc, y)) lt (text ∙ ground (arith, y))
        (over ∙ ground (arith, y)) (omega (arith, left, le))
  later b bs e y le (nothing l f empty zero_n rc text over left) = absurd (omega (arith, zero_n))
  later b bs e y le (too_long lt f) = too_long (ground (arith, lt, y)) (e ∙ f)

  line_loop-Reads :
      (size m n : ℕ) (buf : Chars) (rp : Rio S)
      → n + m ≡ size
      → left rp.rio_fd < fuel
      → Reads size n buf
          (pending read bytes left sound fuel rp)
          (left rp.rio_fd)
          (line_loop read fuel size m n buf rp)
  unfolding line_loop line_end line_of behind_line put
  line_loop-Reads size zero n buf rp e h = too_long (omega (arith, e)) (ground (arith, e))
  line_loop-Reads size (suc m) n buf rp e h =
      elim (rio_readb-OneByte read bytes left sound fuel rp h) [
        | at_end rp' f empty over l ↦ elim (Bool-cases (n == 0)) [
          | inl z ↦
              nothing (record { rc = 0; usrbuf = buf; rp = rp' }) (ground (arith, f, z)) empty
                (ground (arith, z)) refl refl over l
          | inr z ↦ rw empty (
              line (record { rc = n; usrbuf = upd buf n 0; rp = rp' }) (ground (arith, f, z, e))
                (ground (arith, z)) (omega arith) (omega (arith, e)) refl over l)
        ]
        | one b rp' f bs l ↦ rw bs (elim (Bool-cases (b == b'\n')) [
          | inl y ↦ elim (Bool-cases (ltb (n + 1) size)) [
            | inl z ↦
                line (record { rc = n + 1; usrbuf = upd (upd buf n b) (n + 1) 0; rp = rp' })
                  (ground (arith, f, e, y, z)) (omega arith) (ground (arith, y)) (ground (arith, z))
                  (ground (arith, y)) (ground (arith, y)) l
            | inr z ↦ too_long (ground (arith, y, z)) (ground (arith, f, e, y, z))
          ]
          | inr y ↦
              let again : line_loop read fuel size (suc m) n buf rp
                  ≡ line_loop read fuel size m (n + 1) (upd buf n b) rp' =
                ground (arith, f, e, y) in
              later b (pending read bytes left sound fuel rp') again y l (
                line_loop-Reads size m (n + 1) (upd buf n b) rp' (omega (arith, e))
                  (omega (arith, l, h)))
        ])
      ]

  -- Where read reports no error, is interrupted less often than the fuel says, and gives the bytes of the
  -- descriptor in pieces of any size, rio_readlineb with the size of its buffer for `maxlen` reads one
  -- line: it stores the bytes up to a newline, which it includes, or up to the end, and a 0 behind them,
  -- returns their number, and leaves what is behind the line. At the end it returns 0 and stores nothing.
  -- A line of `maxlen` bytes or more is not cut: the 0 is written behind the buffer.
  pub rio_readlineb-Reads :
      (maxlen : ℕ) (usrbuf : Chars) (rp : Rio S)
      → left rp.rio_fd < fuel
      → Reads maxlen 0 usrbuf
          (pending read bytes left sound fuel rp)
          (left rp.rio_fd)
          (rio_readlineb read fuel maxlen maxlen usrbuf rp)
  unfolding rio_readlineb
  rio_readlineb-Reads maxlen usrbuf rp h = line_loop-Reads maxlen maxlen 0 usrbuf rp (omega arith) h
