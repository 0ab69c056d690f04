-- ===== src/Webserver/Request.antt =====
-- webserver/request.c: reading a request, which files are served, and the responses. The system calls
-- are parameters, and so are sscanf and strcasecmp. What is sent is a list of responses; their text is
-- that of the format strings, with the fields as they are here.
pub mod Headers
pub mod Policy
use ece344_os.Prelude.{
  ℕ, zero, suc, ◌+◌, ◌-◌, ◌%◌, ◌^◌, Bool, true, false, not, ◌&&◌, ◌||◌, ◌==◌, if◌then◌else◌, ltb,
  List, [], ◌∷◌, ◌++◌, Option, none, some, same, length,
}
use ece344_os.Webserver.Cache.{Data}
use ece344_os.Webserver.Rio.{
  Got, Rio, Chars, Ending, returns, overflow, exits, not_done, Line, first_bytes, rio_readlineb,
}

-- MAXLINE
abbrev pub maxline : ℕ
maxline = 8192

-- `!strcmp(buf, "\r\n")`
abbrev pub blank_buf : Chars → Bool
blank_buf buf = buf 0 == b'\r' && buf 1 == b'\n' && buf 2 == 0

module _ {S : Type 0} (read : ℕ → S → Got × S) (fuel : ℕ) where
  -- `request_read_headers`, of `n` lines at most.
  unfoldable pub request_read_headers : ℕ → Chars → Rio S → Ending (Rio S)
  request_read_headers zero buf rp = not_done
  request_read_headers (suc n) buf rp = elim (rio_readlineb read fuel maxline maxline buf rp) [
    | overflow ↦ overflow
    | exits ↦ exits
    | not_done ↦ not_done
    | returns l ↦ elim (blank_buf l.usrbuf) [
      | true ↦ returns l.rp
      | false ↦ request_read_headers n l.usrbuf l.rp
    ]
  ]

-- `request_parse_URI`
unfoldable pub request_parse_uri : List ℕ → ℕ → List ℕ
request_parse_uri uri max = first_bytes (max - 1) (b'.' ∷ b'/' ∷ uri)

-- `strstr(s, t) != NULL`: whether `t` starts `s`, or stands further on in it.
unfoldable pub starts_with : List ℕ → List ℕ → Bool
starts_with s [] = true
starts_with [] (c ∷ t) = false
starts_with (b ∷ s) (c ∷ t) = b == c && starts_with s t

unfoldable pub has_string : List ℕ → List ℕ → Bool
has_string [] t = starts_with [] t
has_string (b ∷ s) t = starts_with (b ∷ s) t || has_string s t

-- `strrchr(s, c)`: the string from the last `c` on.
unfoldable pub last_from : ℕ → List ℕ → Option (List ℕ)
last_from c [] = none
last_from c (b ∷ s) = elim (last_from c s) [
  | some t ↦ some t
  | none ↦ if b == c then some (b ∷ s) else none
]

-- The types of `request_get_file_type`.
pub data FileType : Type 0 where
  html : FileType
  gif : FileType
  jpeg : FileType
  plain : FileType

-- `request_get_file_type`
unfoldable pub request_get_file_type : List ℕ → FileType
request_get_file_type filename =
    if has_string filename (b'.' ∷ b'h' ∷ b't' ∷ b'm' ∷ b'l' ∷ [])
    then html
    else if has_string filename (b'.' ∷ b'g' ∷ b'i' ∷ b'f' ∷ [])
    then gif
    else if has_string filename (b'.' ∷ b'j' ∷ b'p' ∷ b'g' ∷ [])
    then jpeg
    else plain

-- The checksum: the sum of the bytes as an unsigned int, from `csum` on.
unfoldable pub add_csum : ℕ → List ℕ → ℕ
add_csum csum [] = csum
add_csum csum (b ∷ bs) = add_csum ((csum + b) % 2 ^ 32) bs

-- Why a request is refused.
pub data Refusal : Type 0 where
  absolute_path : Refusal
  dots_in_path : Refusal
  source_file : Refusal
  no_file : Refusal
  no_access : Refusal
  no_method : Refusal

-- The number in the status line of `request_error`.
unfoldable pub errnum : Refusal → ℕ
errnum no_access = 403
errnum no_method = 501
errnum _ = 404

-- What is sent: an error, or a file with its header.
pub data Response : Type 0 where
  error_page : Refusal → Response
  file_page : (type : FileType) (content_length csum : ℕ) (body : List ℕ) → Response

-- `struct stat`: st_size, S_ISREG and S_IRUSR of st_mode.
pub record Stat : Type 0 where
  pub st_size : ℕ
  pub is_reg : Bool
  pub readable : Bool

-- What `request_readfile` leaves: it sends an error, it has a file, or it exits.
pub data ReadFile : Type 0 where
  refuses : Refusal → ReadFile
  has_file : Data → ReadFile
  fails : ReadFile

-- The tests of `request_readfile` on the name.
unfoldable pub name_refused : List ℕ → Option Refusal
name_refused name =
    if starts_with name (b'/' ∷ [])
    then some absolute_path
    else if has_string name (b'.' ∷ b'.' ∷ [])
    then some dots_in_path
    else elim (last_from b'.' name) [
      | none ↦ none
      | some ext ↦
          if same ext (b'.' ∷ b'c' ∷ []) || same ext (b'.' ∷ b'h' ∷ [])
          then some source_file
          else none
    ]

-- What `request_init` leaves: it sends an error, or it has the file name of the request.
pub data Init : Type 0 where
  rejected : Refusal → Init
  wants : List ℕ → Init

-- `request_init`. `sscanf` gives the method and the URI of the first line, `strcasecmp` whether two
-- strings are the same but for the case of letters. `buf` and `headers` are what the buffers hold before
-- they are written, `n` bounds the lines of the headers.
module _ {S : Type 0} (read : ℕ → S → Got × S) (fuel : ℕ) (sscanf : Chars → List ℕ × List ℕ)
    (strcasecmp : List ℕ → List ℕ → Bool) where
  unfoldable pub request_init : ℕ → Chars → Chars → Rio S → Ending Init
  request_init n buf headers rp = elim (rio_readlineb read fuel maxline maxline buf rp) [
    | overflow ↦ overflow
    | exits ↦ exits
    | not_done ↦ not_done
    | returns l ↦
        let (method, uri) = sscanf l.usrbuf in
        if not (strcasecmp method (b'G' ∷ b'E' ∷ b'T' ∷ []))
        then returns (rejected no_method)
        else elim (request_read_headers read fuel n headers l.rp) [
          | overflow ↦ overflow
          | exits ↦ exits
          | not_done ↦ not_done
          | returns _ ↦ returns (wants (request_parse_uri uri maxline))
        ]
  ]

-- `stat` gives `none` for an error; `contents` what open and Rio_read give, which have `st_size` bytes. The
-- size of a file is taken to fit the int that it is put into.
module _ (stat : List ℕ → Option Stat) (contents : List ℕ → ℕ → Option (List ℕ)) where
  -- The part of `request_readfile` that opens and reads the file.
  unfoldable pub read_opened : List ℕ → ℕ → ReadFile
  read_opened name size =
      if size == 0
      then has_file (record { file_name = name; file_buf = []; file_size = 0 })
      else elim (contents name size) [
        | none ↦ fails
        | some bytes ↦ has_file (record { file_name = name; file_buf = bytes; file_size = size })
      ]

  -- `request_readfile`
  unfoldable pub request_readfile : List ℕ → ReadFile
  request_readfile name = elim (name_refused name) [
    | some why ↦ refuses why
    | none ↦ elim (stat name) [
      | none ↦ refuses no_file
      | some sbuf ↦
          if not sbuf.is_reg || not sbuf.readable
          then refuses no_access
          else read_opened name sbuf.st_size
    ]
  ]

-- `request_sendfile`
unfoldable pub request_sendfile : Data → Response
request_sendfile d =
    file_page (request_get_file_type d.file_name) d.file_size (add_csum 0 d.file_buf) d.file_buf
