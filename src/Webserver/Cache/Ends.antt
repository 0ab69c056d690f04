-- ===== src/Webserver/Cache/Ends.antt =====
-- When the loops of `cache_lookup` and `table_insert` (webserver/server_thread.c) end.
use ece344_os.Prelude.{
  ℕ, zero, suc, ◌+◌, ◌%◌, ◌<◌, ◌≡◌, refl, false, true, List, none, some, same, arith, inl, inr, ◌⊎◌,
}
use ece344_os.Webserver.Cache.{File, Cache, probe, find}
use ece344_os.Webserver.Cache.Probe.{empty_slot, same_name}
use ece344_os.Webserver.Cache.Insert.{find-Ends}

-- Every slot is taken, and by files of other names.
abbrev pub IsFullWithout : Cache → List ℕ → Type 0
IsFullWithout c name =
    (j : ℕ) → j < c.table_size → (f : File) × (c.table j ≡ some f) × (same f.key name ≡ false)

-- If every slot has a file of another name, the walk for a name has not ended after any number of
-- rounds.
pub probe-full :
    (c : Cache) (name : List ℕ) (n index : ℕ)
    → IsFullWithout c name
    → index < c.table_size
    → probe n c.table c.table_size name index ≡ none
unfolding probe
probe-full c name zero index full h = refl
probe-full c name (suc n) index full h =
    let (f, held, other) = full index h in
    ground
      (arith, held, other, probe-full c name n ((index + 1) % c.table_size) full (ground arith))

-- The walk through the table has stopped: `table_size` rounds were enough.
pub data Stops (c : Cache) (name : List ℕ) : Type 0 where
  stops :
      (j : ℕ)
      → find c name ≡ some j
      → (c.table j ≡ none) ⊎ ((f : File) × (c.table j ≡ some f) × (same f.key name ≡ true))
      → Stops c name

-- If some slot is free, the walk for a name ends within as many rounds as there are slots, and stops at
-- a free slot or at a file of the name.
pub find-Stops :
    (c : Cache) (name : List ℕ) (free : ℕ)
    → c.table free ≡ none
    → free < c.table_size
    → Stops c name
find-Stops c name free e h = elim (find-Ends c name free e h) [
  | empty_slot j r q ↦ stops j r (inl q)
  | same_name j f r q s ↦ stops j r (inr (f, q, s))
]
