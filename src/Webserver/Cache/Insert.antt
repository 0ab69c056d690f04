-- ===== src/Webserver/Cache/Insert.antt =====
-- `cache_insert` of webserver/server_thread.c where no file has to leave the cache.
use ece344_os.Prelude.{
  ℕ, zero, suc, ◌+◌, ◌%◌, ◌≤◌, ◌<◌, ◌≡◌, ◌≢◌, refl, ap, true, List, Option, none, some, upd, ◌==◌,
  arith, inl, inr, Bool-cases, ◌⊎◌, Option-cases, same, same_self,
}
use ece344_os.Webserver.Cache.{
  Data, File, Cache, get_index, probe, find, cache_lookup, add_to_front, table_insert, cache_evict,
  cache_insert,
}
use ece344_os.Webserver.Cache.Probe.{
  probe-kept, probe-filled, Ends, empty_slot, same_name, probe-Ends,
}

unfoldable pub size_at : Option File → ℕ
size_at none = 0
size_at (some f) = f.content.file_size

-- The sizes of the files in the first `n` slots.
unfoldable pub total : ℕ → (ℕ → Option File) → ℕ
total zero t = 0
total (suc n) t = total n t + size_at (t n)

total-beyond :
    (n : ℕ) (t : ℕ → Option File) (slot : ℕ) (o : Option File)
    → n ≤ slot
    → total n (upd t slot o) ≡ total n t
unfolding total
total-beyond zero t slot o h = refl
total-beyond (suc n) t slot o h = ground (arith, total-beyond n t slot o (omega arith))

total-upd :
    (n : ℕ) (t : ℕ → Option File) (slot : ℕ) (g : File)
    → t slot ≡ none
    → slot < n
    → total n (upd t slot (some g)) ≡ total n t + g.content.file_size
unfolding total size_at
total-upd zero t slot g e h = absurd (omega arith)
total-upd (suc n) t slot g e h = elim (Bool-cases (n == slot)) [
  | inl f ↦ ground (arith, e, f, total-beyond n t slot (some g))
  | inr f ↦ ground (arith, f, total-upd n t slot g e)
]

probe-lt :
    (n : ℕ) (t : ℕ → Option File) (size : ℕ) (name : List ℕ) (index j : ℕ)
    → index < size
    → probe n t size name index ≡ some j
    → j < size
unfolding probe
probe-lt zero t size name index j h e = absurd (ground (arith, e))
probe-lt (suc n) t size name index j h e = elim (Option-cases (t index)) [
  | inl f ↦ ground (arith, e, f, h)
  | inr (f, ef) ↦ elim (Bool-cases (same f.key name)) [
    | inl b ↦ ground (arith, e, ef, b, h)
    | inr b ↦
        probe-lt n t size name ((index + 1) % size) j (ground arith) (ground (arith, e, ef, b))
  ]
]

-- The files are found under their names, and their sizes add up to no more than the largest.
pub record IsWell (c : Cache) : Type 0 where
  pub findable : (j : ℕ) (f : File) → c.table j ≡ some f → find c f.key ≡ some j
  pub counted : c.curr_size ≡ total c.table_size c.table
  pub small : c.curr_size ≤ c.max_size

pub find-Ends :
    (c : Cache) (name : List ℕ) (free : ℕ)
    → c.table free ≡ none
    → free < c.table_size
    → Ends c.table name (find c name)
unfolding find get_index
find-Ends c name free e h = probe-Ends c.table c.table_size name _ free e (ground arith) h

-- The new file, and the cache with it in a slot.
abbrev pub new_file : Data → File
new_file d = record { key = d.file_name; content = d; active = 0 }

abbrev pub filled : Cache → Data → ℕ → Cache
filled c d slot = record c {
  table = upd c.table slot (some (new_file d));
  curr_size = c.curr_size + d.file_size;
  queue = add_to_front c.queue slot;
}

find-filled :
    (c : Cache) (d : Data) (slot : ℕ)
    → c.table slot ≡ none
    → find c d.file_name ≡ some slot
    → find (filled c d slot) d.file_name ≡ some slot
unfolding find get_index
find-filled c d slot e h =
    probe-filled c.table_size c.table c.table_size d.file_name _ slot (new_file d) e
      (same_self d.file_name) h

find-kept :
    (c : Cache) (d : Data) (name : List ℕ) (slot j : ℕ)
    → c.table slot ≡ none
    → j ≢ slot
    → find c name ≡ some j
    → find (filled c d slot) name ≡ some j
unfolding find get_index
find-kept c d name slot j e ne h =
    probe-kept c.table_size c.table c.table_size name _ slot j (new_file d) e ne h

find-lt :
    (c : Cache) (name : List ℕ) (j : ℕ) → 0 < c.table_size → find c name ≡ some j → j < c.table_size
unfolding find get_index
find-lt c name j pos h = probe-lt c.table_size c.table c.table_size name _ j (ground arith) h

pub filled-IsWell :
    (c : Cache) (d : Data) (slot : ℕ)
    → IsWell c
    → 0 < c.table_size
    → c.table slot ≡ none
    → find c d.file_name ≡ some slot
    → c.curr_size + d.file_size ≤ c.max_size
    → IsWell (filled c d slot)
filled-IsWell c d slot w pos e h room = record {
  findable = λ j f q. elim (Bool-cases (j == slot)) [
    | inl b ↦
        let k : f ≡ new_file d = ground (arith, b, q) in
        let name : f.key ≡ d.file_name = ap (λ (x : File). x.key) k in
        let here : j ≡ slot = ground (arith, b) in rw name (rw here (find-filled c d slot e h))
    | inr b ↦
        find-kept c d f.key slot j e (ground (arith, b)) (w.findable j f (ground (arith, b, q)))
  ];
  counted = ground (
    arith,
    w.counted,
    total-upd c.table_size c.table slot (new_file d) e (find-lt c d.file_name slot pos h),
  );
  small = room;
}

-- What inserting can do where there is room, or where there can be none.
pub data Inserts (c : Cache) (d : Data) (r : Option (Option ℕ × Cache)) : Type 0 where
  present :
      (j : ℕ) (f : File)
      → r ≡ some (some j, c)
      → c.table j ≡ some f
      → same f.key d.file_name ≡ true
      → Inserts c d r
  added :
      (j : ℕ)
      → r ≡ some (some j, filled c d j)
      → c.table j ≡ none
      → d.file_size ≤ c.max_size
      → IsWell (filled c d j)
      → cache_lookup (filled c d j) d.file_name ≡ some (some j)
      → Inserts c d r
  too_large : r ≡ some (none, c) → c.max_size < d.file_size → Inserts c d r

lookup-filled :
    (c : Cache) (d : Data) (slot : ℕ)
    → c.table slot ≡ none
    → find c d.file_name ≡ some slot
    → cache_lookup (filled c d slot) d.file_name ≡ some (some slot)
unfolding cache_lookup
lookup-filled c d slot e h = ground (arith, find-filled c d slot e h, same_self d.file_name)

pub lookup-empty :
    (c : Cache) (name : List ℕ) (j : ℕ)
    → find c name ≡ some j
    → c.table j ≡ none
    → cache_lookup c name ≡ some none
unfolding cache_lookup
lookup-empty c name j h e = ground (arith, h, e)

pub lookup-same :
    (c : Cache) (name : List ℕ) (j : ℕ) (f : File)
    → find c name ≡ some j
    → c.table j ≡ some f
    → same f.key name ≡ true
    → cache_lookup c name ≡ some (some j)
unfolding cache_lookup
lookup-same c name j f h e s = ground (arith, h, e, s)

-- On a well-formed cache with a free slot, and with room for a file or a file that is larger than
-- the whole cache, `cache_insert` returns. A file in the cache already is found and nothing changes;
-- one larger than the cache is refused and nothing changes; any other is put into an empty slot,
-- where it is found from then on, the size in use grows by its size, and the cache stays
-- well-formed: every file in it is found under its name, and the sizes of the files in it add up to
-- the size in use, which is no more than the largest.
pub cache_insert-Inserts :
    (c : Cache) (d : Data) (free : ℕ)
    → IsWell c
    → c.table free ≡ none
    → free < c.table_size
    → (c.curr_size + d.file_size ≤ c.max_size) ⊎ (c.max_size < d.file_size)
    → Inserts c d (cache_insert d c)
unfolding cache_insert cache_evict table_insert
cache_insert-Inserts c d free w e h room = elim (find-Ends c d.file_name free e h) [
  | same_name j f r q s ↦ present j f (ground (arith, lookup-same c d.file_name j f r q s)) q s
  | empty_slot j r q ↦
      let absent = lookup-empty c d.file_name j r q in
      elim room [
        | inl fits ↦
            added j (ground (arith, absent, fits, r)) q (omega arith)
              (filled-IsWell c d j w (omega arith) q r fits) (lookup-filled c d j q r)
        | inr large ↦ too_large (ground (arith, absent, large)) large
      ]
]
