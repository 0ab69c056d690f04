-- ===== src/Webserver/Cache/Requests.antt =====
-- The parts of `do_server_request` (webserver/server_thread.c) for a file in the cache.
use ece344_os.Prelude.{
  ℕ, zero, suc, ◌+◌, ◌-◌, ◌%◌, ◌<◌, ◌≡◌, ◌≢◌, refl, sym, ap, ◌∙◌, true, List, Option, none, some,
  upd, ◌==◌, arith, inl, inr, Bool-cases, same,
}
use ece344_os.Webserver.Cache.{
  File, Cache, get_index, probe, find, set_active, enter, lru_update, request_begin, request_end,
}
use ece344_os.Webserver.Cache.Probe.{empty_slot, same_name}
use ece344_os.Webserver.Cache.Insert.{IsWell, total, size_at, find-Ends, lookup-same, lookup-empty}

-- A file with another number of requests that use it.
abbrev pub with_active : File → ℕ → File
with_active f n = record f { active = n }

probe-active :
    (n : ℕ) (t : ℕ → Option File) (size : ℕ) (name : List ℕ) (index slot : ℕ) (f : File) (a : ℕ)
    → t slot ≡ some f
    → probe n (upd t slot (some (with_active f a))) size name index ≡ probe n t size name index
unfolding probe
probe-active zero t size name index slot f a e = refl
probe-active (suc n) t size name index slot f a e =
    let rest = probe-active n t size name ((index + 1) % size) slot f a e in
    elim (Bool-cases (index == slot)) [
      | inl b ↦
          let here : t index ≡ some f = ground (arith, b, e) in ground (arith, b, e, here, rest)
      | inr b ↦ ground (arith, b, rest)
    ]

total-active :
    (n : ℕ) (t : ℕ → Option File) (slot : ℕ) (f : File) (a : ℕ)
    → t slot ≡ some f
    → total n (upd t slot (some (with_active f a))) ≡ total n t
unfolding total size_at
total-active zero t slot f a e = refl
total-active (suc n) t slot f a e =
    let rest = total-active n t slot f a e in
    elim (Bool-cases (n == slot)) [
      | inl b ↦ let here : t n ≡ some f = ground (arith, b, e) in ground (arith, b, here, rest)
      | inr b ↦ ground (arith, b, rest)
    ]

-- The cache with that number for the file in a slot, and with another queue.
abbrev pub retouched : Cache → ℕ → File → ℕ → List ℕ → Cache
retouched c slot f a queue = record c {
  table = upd c.table slot (some (with_active f a));
  queue = queue;
}

find-retouched :
    (c : Cache) (slot : ℕ) (f : File) (a : ℕ) (queue : List ℕ) (name : List ℕ)
    → c.table slot ≡ some f
    → find (retouched c slot f a queue) name ≡ find c name
unfolding find get_index
find-retouched c slot f a queue name e =
    probe-active c.table_size c.table c.table_size name _ slot f a e

pub retouched-IsWell :
    (c : Cache) (slot : ℕ) (f : File) (a : ℕ) (queue : List ℕ)
    → c.table slot ≡ some f
    → IsWell c
    → IsWell (retouched c slot f a queue)
retouched-IsWell c slot f a queue e w = record {
  findable = λ j g h. elim (Bool-cases (j == slot)) [
    | inl b ↦
        let k : g ≡ with_active f a = ground (arith, b, h) in
        let key : g.key ≡ f.key = ap (λ (x : File). x.key) k in
        let here : j ≡ slot = ground (arith, b) in
        rw key (rw here (find-retouched c slot f a queue f.key e ∙ w.findable slot f e))
    | inr b ↦ find-retouched c slot f a queue g.key e ∙ w.findable j g (ground (arith, b, h))
  ];
  counted = ground (arith, w.counted, total-active c.table_size c.table slot f a e);
  small = w.small;
}

pub set_active-eq :
    (change : ℕ → ℕ) (slot : ℕ) (c : Cache) (f : File)
    → c.table slot ≡ some f
    → set_active change slot c ≡ retouched c slot f (change f.active) c.queue
set_active-eq change slot c f e = rw (set_active, e) refl

-- A request for a name: it finds no file, or the file that it uses until it ends.
pub data Serves (c : Cache) (name : List ℕ) (r : Option (Option ℕ × Cache)) : Type 0 where
  miss :
      r ≡ some (none, c)
      → ((j : ℕ) (f : File) → c.table j ≡ some f → f.key ≢ name)
      → Serves c name r
  hit :
      (j : ℕ) (f : File) (c' : Cache)
      → r ≡ some (some j, c')
      → c.table j ≡ some f
      → same f.key name ≡ true
      → c'.table j ≡ some (with_active f (f.active + 1))
      → ((k : ℕ) → k ≢ j → c'.table k ≡ c.table k)
      → IsWell c'
      → IsWell (request_end (some j) c')
      → ((k : ℕ) → (request_end (some j) c').table k ≡ c.table k)
      → Serves c name r

-- The end of the request gives back the files as they were.
ended-table :
    (c c' : Cache) (j : ℕ) (f : File)
    → c.table j ≡ some f
    → c'.table j ≡ some (with_active f (f.active + 1))
    → ((k : ℕ) → k ≢ j → c'.table k ≡ c.table k)
    → (k : ℕ) → (request_end (some j) c').table k ≡ c.table k
unfolding request_end
ended-table c c' j f e h same_else k =
    let back : f.active + 1 - 1 ≡ f.active = omega arith in
    ground (
      arith,
      e,
      back,
      same_else k,
      set_active-eq (λ n. n - 1) j c' (with_active f (f.active + 1)) h,
    )

ended-IsWell :
    (c' : Cache) (j : ℕ) (f : File)
    → c'.table j ≡ some f
    → IsWell c'
    → IsWell (request_end (some j) c')
unfolding request_end
ended-IsWell c' j f h w =
    rw (set_active-eq (λ n. n - 1) j c' f h) (retouched-IsWell c' j f (f.active - 1) c'.queue h w)

entered-Serves :
    (c : Cache) (name : List ℕ) (j : ℕ) (f : File)
    → IsWell c
    → c.table j ≡ some f
    → same f.key name ≡ true
    → Serves c name (some (some j, enter j name c))
unfolding lru_update
entered-Serves c name j f w e s = rw (set_active-eq (λ n. n + 1) j c f e) (
    let w' = retouched-IsWell c j f (f.active + 1) _ e w in
    hit j f _ refl e s (ground arith) (λ k ne. ground arith) w'
      (ended-IsWell _ j (with_active f (f.active + 1)) (ground arith) w')
      (ended-table c _ j f e (ground arith) (λ k ne. ground arith)))

-- On a well-formed cache with a free slot, the first part of a request under the lock returns. It
-- finds no file and changes nothing, if no file of that name is in the cache. Otherwise it counts
-- one more use of the file of that name, leaves the other files as they were and the cache
-- well-formed; ending the request then leaves every file as it was before, and the cache
-- well-formed.
pub request_begin-Serves :
    (c : Cache) (name : List ℕ) (free : ℕ)
    → IsWell c
    → c.table free ≡ none
    → free < c.table_size
    → Serves c name (request_begin name c)
unfolding request_begin
request_begin-Serves c name free w e h = elim (find-Ends c name free e h) [
  | empty_slot j r q ↦ miss (ground (arith, lookup-empty c name j r q)) (λ k f held eq.
      let found : find c name ≡ some k = rw (sym eq) (w.findable k f held) in
      ground (arith, found, r, q, held))
  | same_name j f r q s ↦
      rw (request_begin, lookup-same c name j f r q s) (entered-Serves c name j f w q s)
]
