-- ===== src/Webserver/Request/Policy.antt =====
-- Which files request_readfile of webserver/request.c refuses.
use ece344_os.Prelude.{
  ℕ, ◌≡◌, refl, true, false, ◌||◌, ◌==◌, List, [], ◌∷◌, ◌++◌, Option, some, same, arith, inl, inr,
  Bool-cases,
}
use ece344_os.Webserver.Request.{
  starts_with, has_string, last_from, Refusal, absolute_path, dots_in_path, source_file, errnum,
  Stat, refuses, name_refused, request_readfile,
}

-- The names that the server must not open: absolute ones, those with ".." in them, and C sources.
pub data Forbidden : List ℕ → Type 0 where
  absolute : (s : List ℕ) → Forbidden (b'/' ∷ s)
  has_dots : (s t : List ℕ) → Forbidden (s ++ b'.' ∷ b'.' ∷ t)
  c_file : (s : List ℕ) → Forbidden (s ++ b'.' ∷ b'c' ∷ [])
  h_file : (s : List ℕ) → Forbidden (s ++ b'.' ∷ b'h' ∷ [])

has_string-dots : (s t : List ℕ) → has_string (s ++ b'.' ∷ b'.' ∷ t) (b'.' ∷ b'.' ∷ []) ≡ true
unfolding has_string starts_with
has_string-dots [] t = ground arith
has_string-dots (b ∷ s) t = ground (arith, has_string-dots s t)

last_from-append :
    (s : List ℕ) (c : ℕ)
    → (c == b'.') ≡ false
    → last_from b'.' (s ++ b'.' ∷ c ∷ []) ≡ some (b'.' ∷ c ∷ [])
unfolding last_from
last_from-append [] c e = ground (arith, e)
last_from-append (b ∷ s) c e = ground (arith, last_from-append s c e)

-- A name is refused for one of the reasons that come with 404.
abbrev pub Refused : Option Refusal → Type 0
Refused r = (why : Refusal) × (r ≡ some why) × (errnum why ≡ 404)

absolute-Refused : (s : List ℕ) → Refused (name_refused (b'/' ∷ s))
unfolding name_refused starts_with errnum
absolute-Refused s = (absolute_path, ground arith, refl)

dots-Refused :
    (name : List ℕ) → has_string name (b'.' ∷ b'.' ∷ []) ≡ true → Refused (name_refused name)
unfolding name_refused errnum
dots-Refused name e = elim (Bool-cases (starts_with name (b'/' ∷ []))) [
  | inl y ↦ (absolute_path, ground (arith, y), refl)
  | inr y ↦ (dots_in_path, ground (arith, y, e), refl)
]

source-Refused :
    (name ext : List ℕ)
    → last_from b'.' name ≡ some ext
    → (same ext (b'.' ∷ b'c' ∷ []) || same ext (b'.' ∷ b'h' ∷ [])) ≡ true
    → Refused (name_refused name)
unfolding name_refused errnum
source-Refused name ext e h = elim (Bool-cases (starts_with name (b'/' ∷ []))) [
  | inl y ↦ (absolute_path, ground (arith, y), refl)
  | inr y ↦ elim (Bool-cases (has_string name (b'.' ∷ b'.' ∷ []))) [
    | inl z ↦ (dots_in_path, ground (arith, y, z), refl)
    | inr z ↦ (source_file, ground (arith, y, z, e, h), refl)
  ]
]

Forbidden-Refused : (name : List ℕ) → Forbidden name → Refused (name_refused name)
unfolding same
Forbidden-Refused _ (absolute s) = absolute-Refused s
Forbidden-Refused _ (has_dots s t) = dots-Refused (s ++ b'.' ∷ b'.' ∷ t) (has_string-dots s t)
Forbidden-Refused _ (c_file s) =
    source-Refused (s ++ b'.' ∷ b'c' ∷ []) (b'.' ∷ b'c' ∷ []) (last_from-append s b'c' refl) refl
Forbidden-Refused _ (h_file s) =
    source-Refused (s ++ b'.' ∷ b'h' ∷ []) (b'.' ∷ b'h' ∷ []) (last_from-append s b'h' refl) refl

-- A name that is absolute, has ".." in it, or ends in ".c" or ".h", is refused with 404 whatever stat and
-- the contents of files say: no file is opened for it.
pub request_readfile-Forbidden :
    (stat : List ℕ → Option Stat) (contents : List ℕ → ℕ → Option (List ℕ)) (name : List ℕ)
    → Forbidden name
    → (why : Refusal) × (request_readfile stat contents name ≡ refuses why) × (errnum why ≡ 404)
unfolding request_readfile
request_readfile-Forbidden stat contents name h =
    let (why, e, n) = Forbidden-Refused name h in (why, ground (arith, e), n)
