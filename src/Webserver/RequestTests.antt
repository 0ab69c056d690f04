-- ===== src/Webserver/RequestTests.antt =====
-- The theorems on reading requests and responses at concrete bytes, with a descriptor that is interrupted
-- a number of times and then gives three bytes at a time.
use ece344_os.Prelude.{
  ℕ, zero, suc, some, ◌+◌, ◌==◌, ◌||◌, if◌then◌else◌, length, ◌≡◌, refl, true, List, [], ◌∷◌, ◌++◌,
  ap, arith, none,
}
use ece344_os.Webserver.Cache.{Data}
use ece344_os.Webserver.Rio.{
  Sent, took, stopped, rio_write, Got, interrupted, got, rio_bufsize, Rio, Chars, returns,
  first_bytes, other_bytes, rio_readlineb,
}
use ece344_os.Webserver.Rio.Readline.{
  Delivers, breaks, gives, line_of, behind_line, Reads, rio_readlineb-Reads,
}
use ece344_os.Webserver.Rio.Write.{Takes, pauses, takes, rio_write-all}
use ece344_os.Webserver.Request.{
  Refusal, refuses, errnum, FileType, file_page, request_readfile, request_read_headers,
  request_sendfile,
}
use ece344_os.Webserver.Request.Headers.{Skips, request_read_headers-Skips}
use ece344_os.Webserver.Request.Policy.{c_file, request_readfile-Forbidden}
use ece344_os.Webserver.Client.{host_line, request_text, Received, receive_body, accepts}
use ece344_os.Webserver.Client.Receive.{no_lines, short_line, receive_body-sendfile}

abbrev Socket : Type 0
Socket = List ℕ × ℕ

abbrev read_socket : ℕ → Socket → Got × Socket
read_socket n (bs, suc k) = (interrupted, (bs, k))
read_socket n (bs, zero) = (got (first_bytes 3 bs), (other_bytes 3 bs, zero))

abbrev to_come : Socket → List ℕ
to_come s = s.0

abbrev interruptions : Socket → ℕ
interruptions s = s.1

split_bytes : (n : ℕ) (bs : List ℕ) → bs ≡ first_bytes n bs ++ other_bytes n bs
split_bytes zero bs = refl
split_bytes (suc n) [] = refl
split_bytes (suc n) (b ∷ bs) = ap (◌∷◌ b) (split_bytes n bs)

none_first : (bs : List ℕ) → first_bytes 3 bs ≡ [] → bs ≡ []
none_first [] e = refl
none_first (b ∷ bs) e = absurd (ground (arith, e))

socket-Delivers : (s : Socket) → Delivers to_come interruptions s (read_socket rio_bufsize s)
socket-Delivers (bs, suc k) = breaks (bs, k) refl refl (omega arith)
socket-Delivers (bs, zero) =
    gives (first_bytes 3 bs) (other_bytes 3 bs, zero) refl (split_bytes 3 bs) (none_first bs)
      (omega arith)

-- "ab\r\n\r\nc" behind two interruptions
abbrev message : Rio Socket
message = record {
  rio_fd = (b'a' ∷ b'b' ∷ b'\r' ∷ b'\n' ∷ b'\r' ∷ b'\n' ∷ b'c' ∷ [], 2);
  unread = [];
}

abbrev no_chars : Chars
no_chars i = 1

rio_readlineb-Reads_example :
    Reads read_socket to_come interruptions socket-Delivers 3 10 0 no_chars message.rio_fd.0 2
      (rio_readlineb read_socket 3 10 10 no_chars message)
rio_readlineb-Reads_example =
    rio_readlineb-Reads read_socket to_come interruptions socket-Delivers 3 10 no_chars message
      (omega arith)

request_read_headers-Skips_example :
    Skips read_socket to_come interruptions socket-Delivers 3 5 message.rio_fd.0
      (request_read_headers read_socket 3 5 no_chars message)
request_read_headers-Skips_example =
    request_read_headers-Skips read_socket to_come interruptions socket-Delivers 3 5 no_chars
      message (omega arith) refl

request_readfile-Forbidden_example :
    (why : Refusal) × (request_readfile
        (λ _. none)
        (λ _ _. none)
        (b'.' ∷ b'/' ∷ b'a' ∷ b'.' ∷ b'c' ∷ [])
      ≡ refuses why)
    × (errnum why ≡ 404)
request_readfile-Forbidden_example =
    request_readfile-Forbidden (λ _. none) (λ _ _. none) (b'.' ∷ b'/' ∷ b'a' ∷ b'.' ∷ b'c' ∷ [])
      (c_file (b'.' ∷ b'/' ∷ b'a' ∷ []))

abbrev two_lines : Data
two_lines = record { file_name = b'f' ∷ []; file_buf = 65 ∷ 10 ∷ 66 ∷ []; file_size = 3 }

abbrev response : Rio Socket
response = record { rio_fd = (66 ∷ [], 1); unread = 65 ∷ 10 ∷ [] }

receive_body-sendfile_example :
    (type : FileType) × (len csum : ℕ) × (r : Received Socket) × (request_sendfile two_lines
      ≡ file_page type len csum two_lines.file_buf)
    × (receive_body read_socket 2 4 no_chars 0 0 response ≡ returns r)
    × (accepts len csum r ≡ true)
unfolding line_of behind_line
receive_body-sendfile_example =
    receive_body-sendfile read_socket to_come interruptions socket-Delivers 2 two_lines 4 no_chars
      response refl refl
      (short_line (65 ∷ 10 ∷ 66 ∷ []) (omega arith) (short_line (66 ∷ []) (omega arith) no_lines))
      (omega arith) (omega arith)

-- The first two words of a string, up to blanks.
abbrev word_at : ℕ → ℕ → Chars → List ℕ
word_at zero k buf = []
word_at (suc n) k buf =
    let rest = word_at n (k + 1) buf in if buf k == b' ' || buf k == 0 then [] else buf k ∷ rest

abbrev two_words : Chars → List ℕ × List ℕ
two_words buf = let method = word_at 20 0 buf in (method, word_at 20 (length method + 1) buf)

abbrev for_a : Rio Socket
for_a = record { rio_fd = (request_text (b'h' ∷ []) (b'a' ∷ []), 2); unread = [] }

-- A sprintf that copies in place.
abbrev copies : List ℕ → List ℕ → List ℕ
copies buf host = buf ++ (host_line host ++ (b'\n' ∷ b'\r' ∷ b'\n' ∷ []))

-- A descriptor that is interrupted a number of times and then takes one byte at a time.
abbrev write_socket : List ℕ → Socket → Sent × Socket
write_socket bs (got_yet, suc k) = (stopped true, (got_yet, k))
write_socket bs (got_yet, zero) = (took 1, (got_yet ++ first_bytes 1 bs, zero))

socket-Takes :
    (b : ℕ) (bs : List ℕ) (s : Socket)
    → Takes to_come interruptions (b ∷ bs) s (write_socket (b ∷ bs) s)
socket-Takes b bs (got_yet, suc k) = pauses (got_yet, k) refl refl (omega arith)
socket-Takes b bs (got_yet, zero) =
    takes 1 (got_yet ++ (b ∷ []), zero) refl (omega arith) (omega arith) refl (omega arith)

rio_write-all_example :
    (s : Socket) × (rio_write write_socket 5 (b'a' ∷ b'b' ∷ b'c' ∷ []) ([], 2) ≡ some (some 3, s))
    × (s.0 ≡ [] ++ (b'a' ∷ b'b' ∷ b'c' ∷ []))
rio_write-all_example =
    rio_write-all write_socket to_come interruptions socket-Takes 5 (b'a' ∷ b'b' ∷ b'c' ∷ [])
      ([], 2) (omega arith)
