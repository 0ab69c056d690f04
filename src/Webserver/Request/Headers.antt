-- ===== src/Webserver/Request/Headers.antt =====
-- request_read_headers of webserver/request.c: it ends at the first empty line, and only there.
use ece344_os.Prelude.{
  ℕ, zero, suc, ◌+◌, ◌≤◌, ◌<◌, ◌≡◌, refl, sym, ap, ◌∙◌, Bool, true, false, ◌&&◌, ◌==◌, List, [],
  ◌∷◌, ◌++◌, upd, arith, length, inl, inr, Bool-cases,
}
use ece344_os.Webserver.Rio.{Got, rio_bufsize, Rio, Ending, returns, overflow, not_done, Chars}
use ece344_os.Webserver.Rio.Readline.{
  Delivers, pending, line_of, behind_line, put, put_before, line, nothing, too_long,
  rio_readlineb-Reads,
}
use ece344_os.Webserver.Request.{maxline, blank_buf, request_read_headers}

-- Whether a line is "\r\n".
unfoldable pub is_blank : List ℕ → Bool
is_blank (b ∷ c ∷ []) = b == b'\r' && c == b'\n'
is_blank _ = false

-- What is behind the first `n` lines.
unfoldable pub behind : ℕ → List ℕ → List ℕ
behind zero bs = bs
behind (suc n) bs = behind n (behind_line bs)

-- The test on the buffer sees whether the line is empty.
blank_buf-put :
    (buf : Chars) (bs : List ℕ)
    → 0 < length (line_of bs)
    → blank_buf (put buf 0 (line_of bs ++ 0 ∷ [])) ≡ is_blank (line_of bs)
unfolding put line_of is_blank
blank_buf-put buf [] h = absurd (omega arith)
blank_buf-put buf (b ∷ []) h = elim (Bool-cases (b == 10)) [
  | inl y ↦ ground (arith, y)
  | inr y ↦ ground (arith, y)
]
blank_buf-put buf (b ∷ c ∷ bs) h = elim (Bool-cases (b == 10)) [
  | inl y ↦ ground (arith, y)
  | inr y ↦ elim (Bool-cases (c == 10)) [
    | inl z ↦ ground (arith, y, z)
    | inr z ↦
        let rest = line_of bs ++ 0 ∷ [] in
        let at : put (upd (upd buf 0 b) 1 c) 2 rest 1 ≡ c =
          put_before (upd (upd buf 0 b) 1 c) 2 rest 1 (omega arith) in
        ground (arith, y, z, at)
  ]
]

-- The first `n` lines of some bytes are not empty lines.
abbrev pub NoneBlank : ℕ → List ℕ → Type 0
NoneBlank n bs = (i : ℕ) → i < n → is_blank (line_of (behind i bs)) ≡ false

NoneBlank-suc :
    (n : ℕ) (bs : List ℕ)
    → is_blank (line_of bs) ≡ false
    → NoneBlank n (behind_line bs)
    → NoneBlank (n + 1) bs
unfolding behind
NoneBlank-suc n bs e h zero lt = e
NoneBlank-suc n bs e h (suc i) lt = h i (omega arith)

module _ {S : Type 0} (read : ℕ → S → Got × S) (bytes : S → List ℕ) (left : S → ℕ)
    (sound : (s : S) → Delivers bytes left s (read rio_bufsize s)) (fuel : ℕ) where
  -- What reading `n` lines at most comes to: an empty line ends it, or there is none among them, or one
  -- of the lines is too long for the buffer.
  pub data Skips (n : ℕ) (bs : List ℕ) (r : Ending (Rio S)) : Type 0 where
    ends :
        (j : ℕ) (rp : Rio S)
        → r ≡ returns rp
        → j < n
        → NoneBlank j bs
        → is_blank (line_of (behind j bs)) ≡ true
        → pending read bytes left sound fuel rp ≡ behind (suc j) bs
        → Skips n bs r
    endless : r ≡ not_done → NoneBlank n bs → Skips n bs r
    overlong :
        (j : ℕ)
        → r ≡ overflow
        → j < n
        → NoneBlank j bs
        → maxline ≤ length (line_of (behind j bs))
        → Skips n bs r

  Skips-suc :
      (n : ℕ) (bs : List ℕ) (r r' : Ending (Rio S))
      → r ≡ r'
      → is_blank (line_of bs) ≡ false
      → Skips n (behind_line bs) r'
      → Skips (suc n) bs r
  unfolding behind
  Skips-suc n bs r r' e b (ends j rp f lt none_before here over) =
      ends (suc j) rp (e ∙ f) (omega arith)
        (λ i h. NoneBlank-suc j bs b none_before i (omega arith)) here over
  Skips-suc n bs r r' e b (endless f none_there) =
      endless (e ∙ f) (λ i h. NoneBlank-suc n bs b none_there i (omega arith))
  Skips-suc n bs r r' e b (overlong j f lt none_before long) =
      overlong (suc j) (e ∙ f) (omega arith)
        (λ i h. NoneBlank-suc j bs b none_before i (omega arith)) long

  -- Where read reports no error and is interrupted less often than the fuel says, and the buffer does not
  -- hold an empty line by chance, request_read_headers returns behind the first empty line. It does not
  -- return where there is none among the lines to come, however many rounds it runs, not even at the end
  -- of the input. A line of MAXLINE bytes or more before that is written behind the buffer.
  pub request_read_headers-Skips :
      (n : ℕ) (buf : Chars) (rp : Rio S)
      → left rp.rio_fd < fuel
      → blank_buf buf ≡ false
      → Skips n (pending read bytes left sound fuel rp) (request_read_headers read fuel n buf rp)
  unfolding request_read_headers line_of behind behind_line is_blank
  request_read_headers-Skips zero buf rp h e = endless refl (λ i lt. absurd (omega arith))
  request_read_headers-Skips (suc n) buf rp h e =
      let bs = pending read bytes left sound fuel rp in
      elim (rio_readlineb-Reads read bytes left sound fuel maxline buf rp h) [
        | too_long long f ↦
            overlong 0 (ground (arith, f)) (omega arith) (λ i lt. absurd (omega arith))
              (omega (arith, long))
        | nothing l f empty _ rc same over le ↦
            let again : request_read_headers read fuel (suc n) buf rp
                ≡ request_read_headers read fuel n l.usrbuf l.rp =
              ground (arith, f, same, e) in
            let none_left : behind_line bs ≡ pending read bytes left sound fuel l.rp =
              ap behind_line empty ∙ sym over in
            Skips-suc n bs _ _ again (ap (λ x. is_blank (line_of x)) empty) (
              rw none_left (
                request_read_headers-Skips n l.usrbuf l.rp (omega (arith, le, h))
                  (ap blank_buf same ∙ e)))
        | line l f pos rc lt text over le ↦
            let test : blank_buf l.usrbuf ≡ is_blank (line_of bs) =
              ap blank_buf text ∙ blank_buf-put buf bs (omega (arith, pos, rc)) in
            elim (Bool-cases (is_blank (line_of bs))) [
              | inl y ↦
                  ends 0 l.rp (ground (arith, f, test, y)) (omega arith)
                    (λ i lt. absurd (omega arith)) y over
              | inr y ↦
                  let again : request_read_headers read fuel (suc n) buf rp
                      ≡ request_read_headers read fuel n l.usrbuf l.rp =
                    ground (arith, f, test, y) in
                  Skips-suc n bs _ _ again y (
                    rw (sym over) (
                      request_read_headers-Skips n l.usrbuf l.rp (omega (arith, le, h)) (test ∙ y)))
            ]
      ]
