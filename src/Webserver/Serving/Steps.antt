-- ===== src/Webserver/Serving/Steps.antt =====
-- What the steps of a request (webserver/server_thread.c) do to the files in the cache.
use ece344_os.Prelude.{
  ℕ, zero, suc, ◌+◌, ◌%◌, ◌<◌, ◌≡◌, refl, true, List, Option, none, some, arith, inl, inr, ◌⊎◌,
  Bool-cases, Option-cases, same,
}
use ece344_os.Webserver.Cache.{
  Data, File, Cache, get_index, probe, find, cache_lookup, cache_insert, table_insert, enter,
  lru_update, add_to_end, delete_from_queue,
}
use ece344_os.Webserver.Cache.Insert.{IsWell, filled, filled-IsWell}
use ece344_os.Webserver.Cache.Requests.{retouched, set_active-eq}
use ece344_os.Webserver.Cache.Evict.{too_large, room, all_used, reads_freed, cache_evict-Evicts}

-- How many requests use the file of a slot, by its own count.
abbrev pub uses : Option File → ℕ
uses none = 0
uses (some f) = f.active

-- A walk that ends does so at an empty slot or at the name.
probe-stops :
    (n : ℕ) (t : ℕ → Option File) (size : ℕ) (name : List ℕ) (index j : ℕ)
    → probe n t size name index ≡ some j
    → (t j ≡ none) ⊎ ((f : File) × (t j ≡ some f) × (same f.key name ≡ true))
unfolding probe
probe-stops zero t size name index j h = absurd (ground (arith, h))
probe-stops (suc n) t size name index j h = elim (Option-cases (t index)) [
  | inl e ↦ let at : index ≡ j = ground (arith, e, h) in inl (ground (arith, e, at))
  | inr (f, e) ↦ elim (Bool-cases (same f.key name)) [
    | inl y ↦ let at : index ≡ j = ground (arith, e, y, h) in inr (f, ground (arith, e, at), y)
    | inr m ↦ probe-stops n t size name ((index + 1) % size) j (ground (arith, e, m, h))
  ]
]

-- What a lookup finds, unless it does not end.
pub data Looks (c : Cache) (name : List ℕ) (r : Option (Option ℕ)) : Type 0 where
  endless : r ≡ none → Looks c name r
  present : (j : ℕ) (f : File) → r ≡ some (some j) → c.table j ≡ some f → Looks c name r
  absent : (j : ℕ) → r ≡ some none → find c name ≡ some j → c.table j ≡ none → Looks c name r

pub cache_lookup-Looks : (c : Cache) (name : List ℕ) → Looks c name (cache_lookup c name)
unfolding cache_lookup find
cache_lookup-Looks c name = elim (Option-cases (find c name)) [
  | inl e ↦ endless (ground (arith, e))
  | inr (j, e) ↦ elim (probe-stops c.table_size c.table c.table_size name (get_index c name) j e) [
    | inl z ↦ absent j (ground (arith, e, z)) e z
    | inr (f, z, s) ↦ present j f (ground (arith, e, z, s)) z
  ]
]

-- What an insertion does, unless it does not end or reads freed memory.
pub data Inserted (c : Cache) (d : Data) (r : Option (Option ℕ × Cache)) : Type 0 where
  faults : r ≡ none → Inserted c d r
  existing : (j : ℕ) (f : File) → r ≡ some (some j, c) → c.table j ≡ some f → Inserted c d r
  refused : r ≡ some (none, c) → Inserted c d r
  added :
      (j : ℕ)
      → r ≡ some (some j, filled c d j)
      → c.table j ≡ none
      → IsWell (filled c d j)
      → Inserted c d r

pub cache_insert-Inserted :
    (c : Cache) (d : Data) → IsWell c → 0 < c.table_size → Inserted c d (cache_insert d c)
unfolding cache_insert table_insert
cache_insert-Inserted c d w pos = elim (cache_lookup-Looks c d.file_name) [
  | endless e ↦ faults (ground (arith, e))
  | present j f e z ↦ existing j f (ground (arith, e)) z
  | absent j e found z ↦ elim (cache_evict-Evicts d.file_size c w.small) [
    | too_large h g ↦ refused (ground (arith, e, g))
    | all_used h g ↦ refused (ground (arith, e, g))
    | reads_freed slot f h h' h'' g ↦ faults (ground (arith, e, g))
    | room fits g ↦ added j (ground (arith, e, g, found)) z (filled-IsWell c d j w pos z found fits)
  ]
]

-- Counting one more use, with what that does to the queue.
pub enter-eq :
    (c : Cache) (j : ℕ) (f : File) (name : List ℕ)
    → c.table j ≡ some f
    → (queue : List ℕ) × (enter j name c ≡ retouched c j f (f.active + 1) queue)
unfolding lru_update
enter-eq c j f name e =
    let index = get_index c name in
    (
      add_to_end (delete_from_queue c.queue index) index,
      rw (set_active-eq (λ n. n + 1) j c f e) refl,
    )
