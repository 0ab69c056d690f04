-- ===== src/Webserver/Client.antt =====
-- client_send of webserver/client.c, and the body of a response with its length and checksum in
-- client_print.
pub mod Receive
pub mod Send
use ece344_os.Prelude.{
  ℕ, zero, suc, ◌+◌, ◌%◌, ◌^◌, Bool, true, false, ◌&&◌, ◌==◌, List, [], ◌∷◌, ◌++◌, length, ltb,
  if◌then◌else◌,
}
use ece344_os.Webserver.Request.{maxline}
use ece344_os.Webserver.Rio.{
  Got, Rio, Chars, Ending, returns, overflow, exits, not_done, Line, rio_readlineb,
}

-- The first line of `client_send`, and the second one, each without its newline.
unfoldable pub request_line : List ℕ → List ℕ
request_line filename =
    b'G' ∷ b'E' ∷ b'T' ∷ b' ' ∷ filename
    ++ (b' ' ∷ b'H' ∷ b'T' ∷ b'T' ∷ b'P' ∷ b'/' ∷ b'1' ∷ b'.' ∷ b'0' ∷ b'\r' ∷ [])

unfoldable pub host_line : List ℕ → List ℕ
host_line host = b'h' ∷ b'o' ∷ b's' ∷ b't' ∷ b':' ∷ b' ' ∷ host ++ (b'\r' ∷ [])

-- The request where the second sprintf of `client_send` copies its buffer in place.
unfoldable pub request_text : List ℕ → List ℕ → List ℕ
request_text host filename =
    request_line filename ++ (b'\n' ∷ (host_line host ++ (b'\n' ∷ b'\r' ∷ b'\n' ∷ [])))

-- `client_send`: the bytes that it passes to Rio_write. The buffer has MAXLINE chars. The second sprintf
-- prints the buffer that it writes to, which C leaves undefined: what the buffer holds then, for the
-- first line and the host, is the argument `overlapping`.
unfoldable pub client_send : (List ℕ → List ℕ → List ℕ) → List ℕ → List ℕ → Ending (List ℕ)
client_send overlapping host filename =
    let first = request_line filename ++ (b'\n' ∷ []) in
    let buf = overlapping first host in
    if ltb (length first) maxline && ltb (length buf) maxline then returns buf else overflow

-- MAXBUF
abbrev pub maxbuf : ℕ
maxbuf = 8192

-- `csum_received` after the chars from `i` on, `n` of them.
unfoldable pub sum_chars : ℕ → Chars → ℕ → ℕ → ℕ
sum_chars csum buf i zero = csum
sum_chars csum buf i (suc n) = sum_chars ((csum + buf i) % 2 ^ 32) buf (i + 1) n

-- The length and the checksum received, and what is left to read.
pub record Received (S : Type 0) : Type 0 where
  pub length_received : ℕ
  pub csum_received : ℕ
  pub rp : Rio S

module _ {S : Type 0} (read : ℕ → S → Got × S) (fuel : ℕ) where
  -- The loop of `client_print` that reads the body, of `n` rounds at most. The length is taken to fit
  -- an int.
  unfoldable pub receive_body : ℕ → Chars → ℕ → ℕ → Rio S → Ending (Received S)
  receive_body zero buf length csum rp = not_done
  receive_body (suc n) buf length csum rp = elim (rio_readlineb read fuel maxbuf maxbuf buf rp) [
    | overflow ↦ overflow
    | exits ↦ exits
    | not_done ↦ not_done
    | returns l ↦ elim (l.rc == 0) [
      | true ↦ returns (record { length_received = length; csum_received = csum; rp = l.rp })
      | false ↦ receive_body n l.usrbuf (length + l.rc) (sum_chars csum l.usrbuf 0 l.rc) l.rp
    ]
  ]

-- The last asserts of `client_print`, for the length and the checksum of the header.
unfoldable pub accepts : {S : Type 0} → ℕ → ℕ → Received S → Bool
accepts length csum r = length == r.length_received && csum == r.csum_received
