-- ===== src/Fs/Testfs/Parse.antt =====
-- parse_command of fs/testfs.c stays within the array of struct context.
use ece344_os.Prelude.{
  ℕ, zero, suc, ◌+◌, ◌-◌, ◌≤◌, ◌<◌, ◌≡◌, refl, ◌∙◌, ◌==◌, if◌then◌else◌, ltb, List, Option, none,
  some, arith, upd, inl, inr, Bool-cases, Option-cases,
}
use ece344_os.Fs.Testfs.{
  Command, max_args, args_limit, Args, set_cmd, clear_cmd, blanks, line_ends, Scan, Parsed,
  parse_loop, parse_end, parse_command,
}

set_cmd-eq :
    (j : ℕ) (word : Option (List ℕ)) (cmd : Args)
    → j ≤ args_limit
    → set_cmd j word cmd ≡ some (upd cmd j word)
unfolding set_cmd
set_cmd-eq j word cmd h = ground arith

data Clears (n j : ℕ) (cmd : Args) : Type 0 where
  clears :
      (cmd' : Args)
      → clear_cmd n j cmd ≡ some cmd'
      → ((k : ℕ) → cmd' k ≡ (if ltb k j then cmd k else if ltb k (j + n) then none else cmd k))
      → Clears n j cmd

clear_cmd-Clears : (n j : ℕ) (cmd : Args) → j + n ≤ args_limit + 1 → Clears n j cmd
unfolding clear_cmd
clear_cmd-Clears zero j cmd h = clears cmd refl (λ k. ground arith)
clear_cmd-Clears (suc n) j cmd h =
    elim (clear_cmd-Clears n (j + 1) (upd cmd j none) (omega arith)) [
      | clears cmd' e f ↦ clears cmd' (ground (arith, set_cmd-eq j none cmd (omega arith), e)) (λ k.
          elim (Bool-cases (k == j)) [
            | inl y ↦ ground (arith, y, f k)
            | inr m ↦ ground (arith, m, f k)
          ])
    ]

-- The first `j` strings of the array are there, and the first is the name.
record Filled (name : List ℕ) (j : ℕ) (cmd : Args) : Type 0 where
  first : cmd 0 ≡ some name
  given : (k : ℕ) → k < j → (word : List ℕ) × (cmd k ≡ some word)

Filled-next :
    (name word : List ℕ) (j : ℕ) (cmd : Args)
    → 1 ≤ j
    → Filled name j cmd
    → Filled name (j + 1) (upd cmd j (some word))
Filled-next name word j cmd h f = record {
  first = ground (arith, f.first);
  given = λ k lt. elim (Bool-cases (k == j)) [
    | inl y ↦ (word, ground (arith, y))
    | inr n ↦ let (w, e) = f.given k (ground (arith, n, lt)) in (w, ground (arith, n, e))
  ];
}

Filled-same :
    (name : List ℕ) (j : ℕ) (cmd cmd' : Args)
    → 1 ≤ j
    → Filled name j cmd
    → ((k : ℕ) → k < j → cmd' k ≡ cmd k)
    → Filled name j cmd'
Filled-same name j cmd cmd' h f same = record {
  first = same 0 (omega arith) ∙ f.first;
  given = λ k lt. let (w, e) = f.given k lt in (w, same k lt ∙ e);
}

-- What `parse_command` makes of a name: no write is out of bounds, the name comes first, the strings
-- before `nargs` are there, and those after it are NULL.
pub record Parses (name : List ℕ) (bound : ℕ) (r : Option Parsed) : Type 0 where
  pub result : Parsed
  pub returns : r ≡ some result
  pub at_least : 1 ≤ result.nargs
  pub at_most : result.nargs ≤ bound + 1
  pub first : result.cmd 0 ≡ some name
  pub given : (k : ℕ) → k < result.nargs → (word : List ℕ) × (result.cmd k ≡ some word)
  pub cleared : (k : ℕ) → result.nargs < k → k ≤ args_limit → result.cmd k ≡ none

module _ {Save : Type 0} (null : Save)
    (strtok_r : Option (List ℕ) → List ℕ → Save → Option (List ℕ) × Save) where
  data Scans (name : List ℕ) (bound : ℕ) (r : Option (Scan Save)) : Type 0 where
    scans :
        (s : Scan Save)
        → r ≡ some s
        → 1 ≤ s.j
        → s.j ≤ bound
        → Filled name s.j s.cmd
        → Scans name bound r

  parse_loop-Scans :
      (n j bound : ℕ) (name : List ℕ) (args : Option (List ℕ)) (save : Save) (cmd : Args)
      → 1 ≤ j
      → j + n ≤ bound
      → bound ≤ args_limit
      → Filled name j cmd
      → Scans name bound (parse_loop null strtok_r n j args save cmd)
  unfolding parse_loop
  parse_loop-Scans zero j bound name args save cmd pos h lim f = scans _ refl pos (omega arith) f
  parse_loop-Scans (suc n) j bound name args save cmd pos h lim f =
      let r = strtok_r args blanks save in
      elim (Option-cases r.0) [
        | inl e ↦
            let stops : parse_loop null strtok_r (suc n) j args save cmd
                ≡ some (record { j = j; args = args; save = r.1; cmd = upd cmd j none }) =
              ground (arith, e, set_cmd-eq j none cmd (omega arith)) in
            scans _ stops pos (omega arith)
              (Filled-same name j cmd (upd cmd j none) pos f (λ k lt. ground arith))
        | inr (word, e) ↦
            let goes_on : parse_loop null strtok_r (suc n) j args save cmd
                ≡ parse_loop null strtok_r n (j + 1) none r.1 (upd cmd j (some word)) =
              ground (arith, e, set_cmd-eq j (some word) cmd (omega arith)) in
            rw goes_on (
              parse_loop-Scans n (j + 1) bound name none r.1 (upd cmd j (some word)) (omega arith)
                (omega arith) lim (Filled-next name word j cmd pos f))
      ]

  parse_end-Parses :
      (s : Scan Save) (name : List ℕ) (bound : ℕ)
      → 1 ≤ s.j
      → s.j ≤ bound
      → bound + 1 ≤ args_limit
      → Filled name s.j s.cmd
      → Parses name bound (parse_end null strtok_r s)
  unfolding parse_end
  parse_end-Parses s name bound pos le lim f =
      let r = strtok_r s.args line_ends s.save in
      elim (Option-cases r.0) [
        | inl e ↦
            elim (clear_cmd-Clears (args_limit - s.j) (s.j + 1) (upd s.cmd s.j none)
              (omega arith)) [
                | clears cmd' g h ↦
                    let kept =
                      Filled-same name s.j s.cmd cmd' pos f (λ k lt. ground (arith, h k)) in
                    record {
                      result = record { nargs = s.j; cmd = cmd' };
                      returns = ground (arith, e, g, set_cmd-eq s.j none s.cmd);
                      at_least = pos;
                      at_most = omega arith;
                      first = kept.first;
                      given = kept.given;
                      cleared = λ k lt small. ground (arith, h k);
                    }
              ]
        | inr (word, e) ↦
            elim (clear_cmd-Clears (args_limit - (s.j + 1)) (s.j + 1 + 1)
              (upd s.cmd s.j (some word)) (omega arith)) [
                | clears cmd' g h ↦
                    let more = Filled-next name word s.j s.cmd pos f in
                    let kept =
                      Filled-same name (s.j + 1) (upd s.cmd s.j (some word)) cmd' (omega arith) more
                        (λ k lt. ground (arith, h k)) in
                    record {
                      result = record { nargs = s.j + 1; cmd = cmd' };
                      returns = ground (arith, e, g, set_cmd-eq s.j (some word) s.cmd);
                      at_least = omega arith;
                      at_most = omega arith;
                      first = kept.first;
                      given = kept.given;
                      cleared = λ k lt small. ground (arith, h k);
                    }
              ]
      ]

  max_args-bounds : (c : Command) → (1 ≤ max_args c) × (max_args c + 1 ≤ args_limit)
  max_args-bounds c = ground arith

  -- Whatever strtok_r returns, `parse_command` of a command of the table writes only within the array
  -- of MAX_ARGS + 1 strings. The name comes first, there are at most as many strings as the command
  -- takes and one more, all of them are there, and those behind the first after them are NULL.
  pub parse_command-Parses :
      (c : Command) (name : List ℕ) (args : Option (List ℕ)) (cmd : Args)
      → Parses name (max_args c) (parse_command null strtok_r c name args cmd)
  unfolding parse_command
  parse_command-Parses c name args cmd =
      let (pos, lim) = max_args-bounds c in
      let start : Filled name 1 (upd cmd 0 (some name)) = record {
        first = ground arith;
        given = λ k lt. (name, ground (arith, lt));
      } in
      elim (parse_loop-Scans (max_args c - 1) 1 (max_args c) name args null (upd cmd 0 (some name))
        (omega arith) (omega arith) (omega arith) start) [
          | scans s e pos' le f ↦
              let ends : parse_command null strtok_r c name args cmd ≡ parse_end null strtok_r s =
                ground (arith, e, set_cmd-eq 0 (some name) cmd (omega arith)) in
              rw ends (parse_end-Parses s name (max_args c) pos' le lim f)
        ]
