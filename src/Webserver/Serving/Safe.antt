-- ===== src/Webserver/Serving/Safe.antt =====
-- The requests of webserver/server_thread.c over one cache, in any order of their steps.
use ece344_os.Prelude.{
  ◌≢◌, ltb, inl, inr, Bool-cases, Option-cases, ℕ, zero, suc, ◌+◌, ◌≤◌, ◌<◌, ◌≡◌, refl, sym, ap,
  ◌∙◌, Option, none, some, List, [], ◌∷◌, ◌++◌, arith,
}
use ece344_os.Webserver.Cache.{
  Data, File, Cache, cache_init, find, cache_lookup, cache_insert, table_insert, enter,
  request_insert,
}
use ece344_os.Webserver.Cache.Ends.{find-Stops, stops}
use ece344_os.Webserver.Cache.Evict.{too_large, room, all_used, reads_freed, cache_evict-Evicts}
use ece344_os.Webserver.Cache.Insert.{filled, IsWell, total, size_at}
use ece344_os.Webserver.Request.{Stat}
use ece344_os.Webserver.Serving.{
  Phase, looking, reading, inserting, sending_cached, sending_own, finished, request_step, System,
  arrives, steps, Reach, starts, goes_on,
}
use ece344_os.Webserver.Serving.Steps.{uses, endless, present, absent, cache_lookup-Looks}
use ece344_os.Webserver.Serving.Moves.{use_of, Served, Kept, stuck, moves, request_step-Moves}

-- How many of the requests use a slot.
abbrev pub users : ℕ → List Phase → ℕ
users slot [] = 0
users slot (p ∷ ps) = use_of slot p + users slot ps

users-append :
    (slot : ℕ) (ps qs : List Phase) → users slot (ps ++ qs) ≡ users slot ps + users slot qs
users-append slot [] qs = omega arith
users-append slot (p ∷ ps) qs = omega (arith, users-append slot ps qs)

abbrev pub AllServed : Cache → List Phase → Type 0
AllServed c [] = Unit {0}
AllServed c (p ∷ ps) = Served c p × AllServed c ps

-- The cache is well-formed. Each file counts the requests that use it, and each request that uses a
-- file has it.
pub record IsServing (s : System) : Type 0 where
  pub well : IsWell s.cache
  pub has_slots : 0 < s.cache.table_size
  pub counted : (slot : ℕ) → uses (s.cache.table slot) ≡ users slot s.requests
  pub served : AllServed s.cache s.requests

Served-Kept : (c c' : Cache) (p : Phase) → Kept c c' → Served c p → Served c' p
Served-Kept c c' (looking name) k v = tt
Served-Kept c c' (reading name) k v = tt
Served-Kept c c' (inserting d) k v = tt
Served-Kept c c' (sending_cached j d) k (f, e, s) = let (g, e', s') = k j f e in (g, e', s' ∙ s)
Served-Kept c c' (sending_own none d) k v = tt
Served-Kept c c' (sending_own (some j) d) k (f, e) = let (g, e', _) = k j f e in (g, e')
Served-Kept c c' finished k v = tt

AllServed-Kept : (c c' : Cache) (ps : List Phase) → Kept c c' → AllServed c ps → AllServed c' ps
AllServed-Kept c c' [] k v = tt
AllServed-Kept c c' (p ∷ ps) k (v, vs) = (Served-Kept c c' p k v, AllServed-Kept c c' ps k vs)

-- One request of the list, and the list with another in its place.
AllServed-at :
    (c : Cache) (before after : List Phase) (p : Phase)
    → AllServed c (before ++ p ∷ after)
    → Served c p
AllServed-at c [] after p (v, _) = v
AllServed-at c (q ∷ before) after p (_, vs) = AllServed-at c before after p vs

AllServed-put :
    (c : Cache) (before after : List Phase) (p q : Phase)
    → AllServed c (before ++ p ∷ after)
    → Served c q
    → AllServed c (before ++ q ∷ after)
AllServed-put c [] after p q (_, vs) v = (v, vs)
AllServed-put c (x ∷ before) after p q (w, vs) v = (w, AllServed-put c before after p q vs v)

IsServing-moved :
    (s : System) (before after : List Phase) (now next : Phase) (c : Cache)
    → IsServing s
    → s.requests ≡ before ++ now ∷ after
    → IsWell c
    → c.table_size ≡ s.cache.table_size
    → ((slot : ℕ)
        → uses (c.table slot) + use_of slot now ≡ uses (s.cache.table slot) + use_of slot next)
    → Kept s.cache c
    → Served c next
    → IsServing (record { cache = c; requests = before ++ next ∷ after })
IsServing-moved s before after now next c v e w size balance kept mine = record {
  well = w;
  has_slots = omega (arith, v.has_slots, size);
  counted = λ slot.
      let old = v.counted slot ∙ ap (users slot) e in
      omega (
        arith,
        old,
        balance slot,
        users-append slot before (now ∷ after),
        users-append slot before (next ∷ after),
      );
  served =
      AllServed-put c before after now next
        (AllServed-Kept s.cache c (before ++ now ∷ after) kept (rw e at v.served)) mine;
}

IsServing-step :
    (s : System) (before after : List Phase) (stat : List ℕ → Option Stat)
    (contents : List ℕ → ℕ → Option (List ℕ)) (now next : Phase) (c : Cache)
    → IsServing s
    → s.requests ≡ before ++ now ∷ after
    → request_step stat contents now s.cache ≡ some (next, c)
    → IsServing (record { cache = c; requests = before ++ next ∷ after })
IsServing-step s before after stat contents now next c v e h =
    let served : AllServed s.cache (before ++ now ∷ after) = rw e at v.served in
    let counted : (slot : ℕ) → use_of slot now ≤ uses (s.cache.table slot) = λ slot.
      let old = v.counted slot ∙ ap (users slot) e in
      omega (arith, old, users-append slot before (now ∷ after)) in
    elim (request_step-Moves stat contents now s.cache v.well v.has_slots
      (AllServed-at s.cache before after now served) counted) [
        | stuck f ↦ absurd (ground (arith, f, h))
        | moves next' c' f w size balance kept mine ↦
            let same : some (next', c') ≡ some (next, c) = sym f ∙ h in
            let one : next' ≡ next = ground (arith, same) in
            let two : c' ≡ c = ground (arith, same) in
            rw two at
              (rw one at (IsServing-moved s before after now next' c' v e w size balance kept mine))
      ]

-- A new cache is empty.
total-empty : (n : ℕ) → total n (λ _. none) ≡ 0
unfolding total size_at
total-empty zero = refl
total-empty (suc n) = omega (arith, total-empty n)

cache_init-IsWell : (max_size : ℕ) → IsWell (cache_init max_size)
unfolding cache_init
cache_init-IsWell max_size = record {
  findable = λ j f e. absurd (ground (arith, e));
  counted = sym (total-empty 2147000);
  small = omega arith;
}

-- What the insertion of a file comes to: it goes on; or it does not end, where every slot has a file; or
-- it evicts a file that no request uses, since there is too little room, and reads freed memory.
pub data Inserting (s : System) (d : Data) (r : Option (Phase × Cache)) : Type 0 where
  on : (next : Phase) (c : Cache) → r ≡ some (next, c) → Inserting s d r
  full :
      ((slot : ℕ) → slot < s.cache.table_size → s.cache.table slot ≢ none)
      → r ≡ none
      → Inserting s d r
  evicts :
      (slot : ℕ) (f : File)
      → s.cache.table slot ≡ some f
      → users slot s.requests ≡ 0
      → s.cache.max_size < s.cache.curr_size + d.file_size
      → r ≡ none
      → Inserting s d r

full_without :
    (c : Cache) (name : List ℕ)
    → find c name ≡ none
    → (slot : ℕ) → slot < c.table_size
    → c.table slot ≢ none
full_without c name e slot lt free = elim (find-Stops c name slot free lt) [
  | stops j f _ ↦ absurd (ground (arith, e, f))
]

Inserting-step :
    (s : System) (stat : List ℕ → Option Stat) (contents : List ℕ → ℕ → Option (List ℕ)) (d : Data)
    → IsServing s
    → Inserting s d (request_step stat contents (inserting d) s.cache)
unfolding request_step request_insert cache_insert table_insert cache_lookup
Inserting-step s stat contents d v = elim (Bool-cases (ltb 0 s.cache.max_size)) [
  | inr z ↦ on (sending_own none d) s.cache (ground (arith, z))
  | inl z ↦ elim (Option-cases (find s.cache d.file_name)) [
    | inl e ↦ full (full_without s.cache d.file_name e) (ground (arith, z, e))
    | inr (j, e) ↦ elim (cache_lookup-Looks s.cache d.file_name) [
      | endless g ↦ absurd (ground (arith, e, g))
      | present k f g h ↦
          on (sending_own (some k) d) (enter k d.file_name s.cache) (ground (arith, z, e, g))
      | absent k g found free ↦ elim (cache_evict-Evicts d.file_size s.cache v.well.small) [
        | too_large _ h ↦ on (sending_own none d) s.cache (ground (arith, z, g, h))
        | all_used _ h ↦ on (sending_own none d) s.cache (ground (arith, z, g, h))
        | room _ h ↦
            on (sending_own (some k) d) (enter k d.file_name (filled s.cache d k))
              (ground (arith, z, g, h, found))
        | reads_freed slot f idle short _ h ↦
            evicts slot f idle.held (sym (v.counted slot) ∙ ground (arith, idle.held, idle.unused))
              short (ground (arith, z, g, h))
      ]
    ]
  ]
]

Reach-IsServing-state : (s : System) → Reach s → IsServing s
unfolding cache_init
Reach-IsServing-state s (starts max_size) = record {
  well = cache_init-IsWell max_size;
  has_slots = omega arith;
  counted = λ slot. refl;
  served = tt;
}
Reach-IsServing-state s (goes_on {s = before} r (arrives name)) =
    let v = Reach-IsServing-state before r in
    record {
      well = v.well;
      has_slots = v.has_slots;
      counted = λ slot. omega (arith, v.counted slot);
      served = (tt, v.served);
    }
Reach-IsServing-state s (goes_on {s = old} r (steps before after stat contents now next c e h)) =
    IsServing-step old before after stat contents now next c (Reach-IsServing-state old r) e h

-- In every state that requests over one cache lead to, with the steps of the requests in any order,
-- the cache is well-formed; each file in it counts the requests that use it; and a request that uses a
-- file has it in its slot, with the data that it sends if it sends those of the cache. The insertion of a
-- file goes on from there, unless every slot has a file, or it evicts a file, and then it is one that no
-- request uses. An eviction reads freed memory, so that no such state lies behind one.
pub Reach-IsServing :
    (s : System) (stat : List ℕ → Option Stat) (contents : List ℕ → ℕ → Option (List ℕ)) (d : Data)
    → Reach s
    → IsServing s × Inserting s d (request_step stat contents (inserting d) s.cache)
Reach-IsServing s stat contents d r =
    let v = Reach-IsServing-state s r in (v, Inserting-step s stat contents d v)
