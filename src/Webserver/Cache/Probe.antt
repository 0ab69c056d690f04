-- ===== src/Webserver/Cache/Probe.antt =====
-- The walk of linear probing (webserver/server_thread.c): when it ends, and what filling the slot
-- where it has ended does to other walks.
use ece344_os.Prelude.{
  ℕ, zero, suc, ◌+◌, ◌%◌, ◌≤◌, ◌<◌, ◌≡◌, ◌≢◌, true, List, Option, none, some, upd, ◌==◌, arith, inl,
  inr, Bool-cases, Option-cases, ltb, same,
}
use ece344_os.Webserver.Buffer.{mod_wrap}
use ece344_os.Webserver.Cache.{File, probe}

-- A walk that ended at a slot other than the one filled still does.
pub probe-kept :
    (n : ℕ) (t : ℕ → Option File) (size : ℕ) (name : List ℕ) (index slot j : ℕ) (g : File)
    → t slot ≡ none
    → j ≢ slot
    → probe n t size name index ≡ some j
    → probe n (upd t slot (some g)) size name index ≡ some j
unfolding probe
probe-kept zero t size name index slot j g e ne h = h
probe-kept (suc n) t size name index slot j g e ne h = elim (Option-cases (t index)) [
  | inl f ↦ ground (arith, e, ne, h, f)
  | inr (f, ef) ↦ elim (Bool-cases (same f.key name)) [
    | inl b ↦ ground (arith, e, ne, h, ef, b)
    | inr b ↦
        ground (arith, e, ne, h, ef, b, probe-kept n t size name ((index + 1) % size) slot j g e ne)
  ]
]

-- A walk that ended at the slot filled ends there with a file of its name.
pub probe-filled :
    (n : ℕ) (t : ℕ → Option File) (size : ℕ) (name : List ℕ) (index slot : ℕ) (g : File)
    → t slot ≡ none
    → same g.key name ≡ true
    → probe n t size name index ≡ some slot
    → probe n (upd t slot (some g)) size name index ≡ some slot
unfolding probe
probe-filled zero t size name index slot g e eq h = h
probe-filled (suc n) t size name index slot g e eq h = elim (Option-cases (t index)) [
  | inl f ↦ ground (arith, e, eq, h, f)
  | inr (f, ef) ↦ elim (Bool-cases (same f.key name)) [
    | inl b ↦ ground (arith, e, eq, h, ef, b)
    | inr b ↦
        ground (arith, e, eq, h, ef, b, probe-filled n t size name ((index + 1) % size) slot g e eq)
  ]
]

-- A walk ends, at a slot that is empty or has the name.
pub data Ends (t : ℕ → Option File) (name : List ℕ) (r : Option ℕ) : Type 0 where
  empty_slot : (j : ℕ) → r ≡ some j → t j ≡ none → Ends t name r
  same_name :
      (j : ℕ) (f : File) → r ≡ some j → t j ≡ some f → same f.key name ≡ true → Ends t name r

Ends-step :
    (n : ℕ) (t : ℕ → Option File) (size : ℕ) (name : List ℕ) (index : ℕ) (f : File)
    → t index ≡ some f
    → Ends t name (probe n t size name ((index + 1) % size))
    → Ends t name (probe (suc n) t size name index)
unfolding probe
Ends-step n t size name index f e rest = elim (Bool-cases (same f.key name)) [
  | inl b ↦ same_name index f (ground (arith, e, b)) e b
  | inr b ↦ elim rest [
    | empty_slot j r h ↦ empty_slot j (ground (arith, e, b, r)) h
    | same_name j g r h s ↦ same_name j g (ground (arith, e, b, r)) h s
  ]
]

Ends-here :
    (n : ℕ) (t : ℕ → Option File) (size : ℕ) (name : List ℕ) (index : ℕ)
    → t index ≡ none
    → Ends t name (probe (suc n) t size name index)
unfolding probe
Ends-here n t size name index e = empty_slot index (ground (arith, e)) e

-- The walk reaches a free slot ahead of it.
ahead :
    (n : ℕ) (t : ℕ → Option File) (size : ℕ) (name : List ℕ) (index free : ℕ)
    → t free ≡ none
    → index ≤ free
    → free < size
    → free < index + n
    → Ends t name (probe n t size name index)
ahead zero t size name index free e le lt fuel = absurd (omega arith)
ahead (suc n) t size name index free e le lt fuel = elim (Option-cases (t index)) [
  | inl f ↦ Ends-here n t size name index f
  | inr (f, ef) ↦
      let ne : index ≢ free = ground (arith, e, ef) in
      let w : (index + 1) % size ≡ index + 1 =
        ground (arith, mod_wrap (index + 1) size (omega arith)) in
      Ends-step n t size name index f ef
        (rw w (ahead n t size name (index + 1) free e (omega arith) lt (omega arith)))
]

-- The walk comes to the end of the table and goes on from its start.
pub around :
    (n : ℕ) (t : ℕ → Option File) (size : ℕ) (name : List ℕ) (index free : ℕ)
    → t free ≡ none
    → free < index
    → index < size
    → size + free < index + n
    → Ends t name (probe n t size name index)
around zero t size name index free e le lt fuel = absurd (omega arith)
around (suc n) t size name index free e le lt fuel = elim (Option-cases (t index)) [
  | inl f ↦ Ends-here n t size name index f
  | inr (f, ef) ↦ Ends-step n t size name index f ef (elim (Bool-cases (index + 1 == size)) [
    | inl l ↦
        let w : (index + 1) % size ≡ 0 =
          ground (arith, l, mod_wrap (index + 1) size (omega arith)) in
        rw w (ahead n t size name 0 free e (omega arith) (omega arith) (ground (arith, l)))
    | inr l ↦
        let w : (index + 1) % size ≡ index + 1 =
          ground (arith, l, mod_wrap (index + 1) size (omega arith)) in
        rw w
          (around n t size name (index + 1) free e (omega arith) (ground (arith, l)) (omega arith))
  ])
]

pub probe-Ends :
    (t : ℕ → Option File) (size : ℕ) (name : List ℕ) (index free : ℕ)
    → t free ≡ none
    → index < size
    → free < size
    → Ends t name (probe size t size name index)
probe-Ends t size name index free e hi hf = elim (Bool-cases (ltb free index)) [
  | inl b ↦ around size t size name index free e (ground (arith, b)) hi (ground (arith, b))
  | inr b ↦ ahead size t size name index free e (ground (arith, b)) hf (omega arith)
]
