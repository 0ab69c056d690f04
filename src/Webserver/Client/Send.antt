-- ===== src/Webserver/Client/Send.antt =====
-- The request that client_send of webserver/client.c sends, as request_init of webserver/request.c reads
-- it.
use ece344_os.Prelude.{ℕ, ◌≡◌, ◌≢◌, refl, false, List, [], ◌∷◌, ◌++◌}
use ece344_os.Webserver.Rio.{Rio}
use ece344_os.Webserver.Rio.Readline.{line_of}
use ece344_os.Webserver.Request.Headers.{is_blank, behind}
use ece344_os.Webserver.Client.{host_line}

-- No newline is among the bytes.
abbrev pub IsOneLine : List ℕ → Type 0
IsOneLine [] = Unit
IsOneLine (b ∷ bs) = (b ≢ b'\n') × IsOneLine bs

-- The lines behind the first one: that of the host, and an empty one.
unfoldable header_text : List ℕ → List ℕ
header_text host = host_line host ++ (b'\n' ∷ b'\r' ∷ b'\n' ∷ [])

host_not_blank :
    (host : List ℕ) → IsOneLine host → is_blank (line_of (behind 0 (header_text host))) ≡ false
unfolding header_text behind host_line is_blank line_of
host_not_blank host h = refl
