-- ===== src/Webserver/Client/Receive.antt =====
-- The client of webserver/client.c receives what request_sendfile of webserver/request.c sends.
use ece344_os.Prelude.{
  ℕ, zero, suc, ◌+◌, ◌%◌, ◌^◌, ◌<◌, ◌≡◌, refl, sym, ap, ◌∙◌, true, ◌==◌, List, [], ◌∷◌, ◌++◌, upd,
  arith, length, length-append, inl, inr, Bool-cases,
}
use ece344_os.Webserver.Cache.{Data}
use ece344_os.Webserver.Rio.{Got, rio_bufsize, Rio, Ending, returns, Chars}
use ece344_os.Webserver.Rio.Readline.{
  Delivers, pending, line_of, behind_line, put, put_before, line, nothing, too_long,
  rio_readlineb-Reads,
}
use ece344_os.Webserver.Request.{add_csum, FileType, file_page, request_sendfile}
use ece344_os.Webserver.Client.{maxbuf, sum_chars, Received, receive_body, accepts}

-- A line and what is behind it.
line_of-behind : (bs : List ℕ) → line_of bs ++ behind_line bs ≡ bs
unfolding line_of behind_line
line_of-behind [] = refl
line_of-behind (b ∷ bs) = elim (Bool-cases (b == 10)) [
  | inl y ↦ ground (arith, y)
  | inr y ↦ ground (arith, y, line_of-behind bs)
]

add_csum-append :
    (csum : ℕ) (bs cs : List ℕ) → add_csum csum (bs ++ cs) ≡ add_csum (add_csum csum bs) cs
unfolding add_csum
add_csum-append csum [] cs = refl
add_csum-append csum (b ∷ bs) cs = add_csum-append ((csum + b) % 2 ^ 32) bs cs

-- All lines are shorter than the buffer.
pub data Short : List ℕ → Type 0 where
  no_lines : Short []
  short_line : (bs : List ℕ) → length (line_of bs) < maxbuf → Short (behind_line bs) → Short bs

Short-line : (bs : List ℕ) → Short bs → length (line_of bs) < maxbuf
unfolding line_of
Short-line _ no_lines = omega arith
Short-line _ (short_line bs lt rest) = lt

Short-behind : (bs : List ℕ) → Short bs → Short (behind_line bs)
unfolding behind_line
Short-behind _ no_lines = no_lines
Short-behind _ (short_line bs lt rest) = rest

sum_chars-put :
    (csum : ℕ) (buf : Chars) (n : ℕ) (bs cs : List ℕ)
    → sum_chars csum (put buf n (bs ++ cs)) n (length bs) ≡ add_csum csum bs
unfolding sum_chars put add_csum
sum_chars-put csum buf n [] cs = refl
sum_chars-put csum buf n (b ∷ bs) cs =
    let all = put (upd buf n b) (n + 1) (bs ++ cs) in
    let at : all n ≡ b =
      put_before (upd buf n b) (n + 1) (bs ++ cs) n (omega arith) ∙ ground arith in
    ap (λ x. sum_chars ((csum + x) % 2 ^ 32) all (n + 1) (length bs)) at
    ∙ sum_chars-put ((csum + b) % 2 ^ 32) (upd buf n b) (n + 1) bs cs

module _ {S : Type 0} (read : ℕ → S → Got × S) (bytes : S → List ℕ) (left : S → ℕ)
    (sound : (s : S) → Delivers bytes left s (read rio_bufsize s)) (fuel : ℕ) where
  -- What is received of the bytes `bs`, after `len` bytes with the checksum `csum`.
  record Receives (bs : List ℕ) (len csum : ℕ) (e : Ending (Received S)) : Type 0 where
    r : Received S
    ends : e ≡ returns r
    all_bytes : r.length_received ≡ len + length bs
    summed : r.csum_received ≡ add_csum csum bs

  -- A line comes first.
  Receives-line :
      (bs : List ℕ) (len csum rc : ℕ) (buf : Chars) (e e' : Ending (Received S))
      → e ≡ e'
      → rc ≡ 0 + length (line_of bs)
      → Receives
          (behind_line bs)
          (len + rc)
          (sum_chars csum (put buf 0 (line_of bs ++ 0 ∷ [])) 0 rc)
          e'
      → Receives bs len csum e
  Receives-line bs len csum rc buf e e' same_end k v =
      let split = line_of-behind bs in
      let total : length (line_of bs) + length (behind_line bs) ≡ length bs =
        sym (length-append (line_of bs) (behind_line bs)) ∙ ap length split in
      let sum : sum_chars csum (put buf 0 (line_of bs ++ 0 ∷ [])) 0 rc
          ≡ add_csum csum (line_of bs) =
        ap (sum_chars csum (put buf 0 (line_of bs ++ 0 ∷ [])) 0)
          (let n : rc ≡ length (line_of bs) = omega (arith, k) in n)
        ∙ sum_chars-put csum buf 0 (line_of bs) (0 ∷ []) in
      record {
        r = v.r;
        ends = same_end ∙ v.ends;
        all_bytes = omega (arith, v.all_bytes, total, k);
        summed =
            v.summed
            ∙ ap (λ x. add_csum x (behind_line bs)) sum
            ∙ sym (add_csum-append csum (line_of bs) (behind_line bs))
            ∙ ap (add_csum csum) split;
      }

  receive_body-Receives :
      (n : ℕ) (buf : Chars) (len csum : ℕ) (rp : Rio S)
      → left rp.rio_fd < fuel
      → Short (pending read bytes left sound fuel rp)
      → length (pending read bytes left sound fuel rp) < n
      → Receives
          (pending read bytes left sound fuel rp)
          len
          csum
          (receive_body read fuel n buf len csum rp)
  unfolding receive_body add_csum
  receive_body-Receives zero buf len csum rp h short lt = absurd (omega arith)
  receive_body-Receives (suc n) buf len csum rp h short lt =
      let bs = pending read bytes left sound fuel rp in
      elim (rio_readlineb-Reads read bytes left sound fuel maxbuf buf rp h) [
        | too_long long f ↦ let le = Short-line bs short in absurd (omega arith)
        | nothing l f empty _ rc same over le ↦ rw empty (record {
          r = record { length_received = len; csum_received = csum; rp = l.rp };
          ends = ground (arith, f, rc);
          all_bytes = omega arith;
          summed = refl;
        })
        | line l f pos rc small text over le ↦
            let goes_on : receive_body read fuel (suc n) buf len csum rp
                ≡ receive_body read fuel n l.usrbuf (len + l.rc) (sum_chars csum l.usrbuf 0 l.rc)
                    l.rp =
              ground (arith, f, pos) in
            let total : length (line_of bs) + length (behind_line bs) ≡ length bs =
              sym (length-append (line_of bs) (behind_line bs)) ∙ ap length (line_of-behind bs) in
            let fewer : length (behind_line bs) < n = omega (arith, total, rc, pos, lt) in
            let rest =
              receive_body-Receives n l.usrbuf (len + l.rc) (sum_chars csum l.usrbuf 0 l.rc) l.rp
                (omega (arith, le, h)) (rw over (Short-behind bs short)) (rw over fewer) in
            Receives-line bs len csum l.rc buf _ _ goes_on rc (rw (sym text) (rw (sym over) rest))
      ]

  -- Where read reports no error and is interrupted less often than the fuel says, and the bytes to come
  -- are those of a file that request_sendfile has sent, with lines shorter than MAXBUF, the loop of
  -- client_print ends within a round for each byte and one more, and the length and the checksum that it
  -- has are those of the header.
  pub receive_body-sendfile :
      (d : Data) (n : ℕ) (buf : Chars) (rp : Rio S)
      → d.file_size ≡ length d.file_buf
      → pending read bytes left sound fuel rp ≡ d.file_buf
      → Short d.file_buf
      → left rp.rio_fd < fuel
      → length d.file_buf < n
      → (type : FileType) × (len csum : ℕ) × (r : Received S) × (request_sendfile d
          ≡ file_page type len csum d.file_buf)
        × (receive_body read fuel n buf 0 0 rp ≡ returns r)
        × (accepts len csum r ≡ true)
  unfolding request_sendfile accepts
  receive_body-sendfile d n buf rp size sent short h lt =
      let bs = pending read bytes left sound fuel rp in
      let v = receive_body-Receives n buf 0 0 rp h (rw sent short) (rw sent lt) in
      let len : v.r.length_received ≡ d.file_size =
        omega (arith, v.all_bytes, ap length sent, size) in
      let csum : v.r.csum_received ≡ add_csum 0 d.file_buf = v.summed ∙ ap (add_csum 0) sent in
      (_, d.file_size, add_csum 0 d.file_buf, v.r, refl, v.ends, ground (arith, len, csum))
