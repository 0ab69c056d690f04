-- ===== src/Fs/TestfsTests.antt =====
-- parse_command at a concrete line, with a function for strtok_r that keeps the rest of its string.
use ece344_os.Prelude.{
  ℕ, ◌≡◌, refl, Bool, false, ◌||◌, ◌==◌, if◌then◌else◌, List, [], ◌∷◌, Option, none, some, same,
}
use ece344_os.Fs.Testfs.{cd, quit, name_of, cmdtable, max_args, find_command, parse_command}
use ece344_os.Fs.Testfs.Parse.{Parses, parse_command-Parses}

is_delimiter : List ℕ → ℕ → Bool
is_delimiter [] b = false
is_delimiter (d ∷ ds) b = d == b || is_delimiter ds b

skip : List ℕ → List ℕ → List ℕ
skip ds [] = []
skip ds (b ∷ bs) = if is_delimiter ds b then skip ds bs else b ∷ bs

-- The bytes up to a delimiter, and those behind it.
split : List ℕ → List ℕ → List ℕ × List ℕ
split ds [] = ([], [])
split ds (b ∷ bs) =
    let (word, rest) = split ds bs in if is_delimiter ds b then ([], bs) else (b ∷ word, rest)

next_word : List ℕ → List ℕ → Option (List ℕ) × List ℕ
next_word ds [] = (none, [])
next_word ds (b ∷ bs) = let (word, rest) = split ds (b ∷ bs) in (some word, rest)

strtok : Option (List ℕ) → List ℕ → List ℕ → Option (List ℕ) × List ℕ
strtok none ds save = next_word ds (skip ds save)
strtok (some str) ds save = next_word ds (skip ds str)

quit_found : find_command cmdtable (b'q' ∷ b'u' ∷ b'i' ∷ b't' ∷ []) ≡ some quit
unfolding find_command same
quit_found = refl

-- " ab  c\n"
abbrev two_words : List ℕ
two_words = b' ' ∷ b'a' ∷ b'b' ∷ b' ' ∷ b' ' ∷ b'c' ∷ 10 ∷ []

parse_command-Parses_example :
    Parses
      (name_of cd)
      (max_args cd)
      (parse_command [] strtok cd (name_of cd) (some two_words) (λ _. none))
parse_command-Parses_example =
    parse_command-Parses [] strtok cd (name_of cd) (some two_words) (λ _. none)
