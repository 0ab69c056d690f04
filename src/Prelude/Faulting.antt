-- ===== src/Prelude/Faulting.antt =====
-- State passing with faults, for the file system and the thread library: an operation takes the
-- state and gives its result with the state it leaves, or `none` where the C program would stop.
-- `Op S` is an operation on states of the type `S`.
use mathlib.Core.Option.{Option, none, some}

abbrev pub Op : Type 0 → Type 0 → Type 0
Op S A = S → Option (A × S)

abbrev pub pure : {S A : Type 0} → A → Op S A
pure result before = some (result, before)

abbrev pub fault : {S A : Type 0} → Op S A
fault before = none

infixl 5 ◌>>=◌ ◌>>◌
abbrev pub ◌>>=◌ : {S A B : Type 0} → Op S A → (A → Op S B) → Op S B
◌>>=◌ first rest before = elim (first before) [
  | none ↦ none
  | some (result, after) ↦ rest result after
]

abbrev pub ◌>>◌ : {S B : Type 0} → Op S (Unit {0}) → Op S B → Op S B
◌>>◌ first rest before = elim (first before) [ none ↦ none | some (_, after) ↦ rest after ]

abbrev pub modify : {S : Type 0} → (S → S) → Op S (Unit {0})
modify change before = some (tt, change before)
