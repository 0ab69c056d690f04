-- ===== src/Webserver/Cache/Evict.antt =====
-- `cache_evict` and `LRU_delete` of webserver/server_thread.c.
use ece344_os.Prelude.{
  ℕ, ◌+◌, ◌-◌, ◌<◌, ◌≤◌, ◌≡◌, ◌≢◌, refl, Bool, true, false, List, [], ◌∷◌, Option, none, some, ◌==◌,
  ltb, leb, arith, inl, inr, Bool-cases, Option-cases,
}
use ece344_os.Webserver.Cache.{File, Cache, stands_in, lru_loop, lru_delete, cache_evict}

-- A file in the cache that no request uses, in a slot of the queue.
pub record IsIdle (c : Cache) (queue : List ℕ) (slot : ℕ) (f : File) : Type 0 where
  pub queued : stands_in slot queue ≡ true
  pub held : c.table slot ≡ some f
  pub unused : f.active ≡ 0

-- The loop keeps all files where none is idle, and reads freed memory where one is.
data Sweeps (c : Cache) (queue : List ℕ) (r : Option Cache) : Type 0 where
  freed : (slot : ℕ) (f : File) → IsIdle c queue slot f → r ≡ none → Sweeps c queue r
  kept : ((slot : ℕ) (f : File) → ¬ IsIdle c queue slot f) → r ≡ some c → Sweeps c queue r

IsIdle-cons :
    (c : Cache) (queue : List ℕ) (i slot : ℕ) (f : File)
    → IsIdle c queue slot f
    → IsIdle c (i ∷ queue) slot f
unfolding stands_in
IsIdle-cons c queue i slot f d = record {
  queued = ground (arith, d.queued);
  held = d.held;
  unused = d.unused;
}

IsIdle-tail :
    (c : Cache) (queue : List ℕ) (i slot : ℕ) (f : File)
    → (slot ≡ i → ¬ IsIdle c (i ∷ queue) slot f)
    → IsIdle c (i ∷ queue) slot f
    → IsIdle c queue slot f
unfolding stands_in
IsIdle-tail c queue i slot f differs d = elim (Bool-cases (i == slot)) [
  | inl e ↦ absurd (differs (ground (arith, e)) d)
  | inr e ↦ record { queued = ground (arith, e, d.queued); held = d.held; unused = d.unused }
]

module _ (c : Cache) (size : ℕ) (short : c.max_size - c.curr_size < size) where
  -- A node that is passed over.
  pass :
      (passed next : List ℕ) (i : ℕ) (r : Option Cache)
      → ((f : File) → c.table i ≡ some f → f.active ≢ 0)
      → r ≡ lru_loop (i ∷ passed) next size c
      → Sweeps c next (lru_loop (i ∷ passed) next size c)
      → Sweeps c (i ∷ next) r
  pass passed next i r busy e (freed slot f d z) =
      freed slot f (IsIdle-cons c next i slot f d) (ground (arith, e, z))
  pass passed next i r busy e (kept differs z) =
      kept
        (λ slot f d. differs slot f (
          IsIdle-tail c next i slot f (λ same d'. busy f (ground (arith, same, d'.held)) d'.unused)
            d))
        (ground (arith, e, z))

  busy_cons :
      (passed : List ℕ) (i : ℕ)
      → ((slot : ℕ) (f : File) → ¬ IsIdle c passed slot f)
      → ((f : File) → c.table i ≡ some f → f.active ≢ 0)
      → (slot : ℕ) (f : File) → ¬ IsIdle c (i ∷ passed) slot f
  busy_cons passed i none_idle busy slot f d = none_idle slot f (
      IsIdle-tail c passed i slot f (λ same d'. busy f (ground (arith, same, d'.held)) d'.unused) d)

  lru_loop-Sweeps :
      (passed queue : List ℕ)
      → ((slot : ℕ) (f : File) → ¬ IsIdle c passed slot f)
      → Sweeps c queue (lru_loop passed queue size c)
  unfolding lru_loop stands_in
  lru_loop-Sweeps passed [] none_idle = kept (λ slot f d. ground (arith, d.queued)) refl
  lru_loop-Sweeps passed (i ∷ next) none_idle = elim (Option-cases (c.table i)) [
    | inl e ↦
        let busy : (f : File) → c.table i ≡ some f → f.active ≢ 0 = λ f b u. ground (arith, e, b) in
        pass passed next i _ busy (ground (arith, e, short))
          (lru_loop-Sweeps (i ∷ passed) next (busy_cons passed i none_idle busy))
    | inr (g, e) ↦ elim (Bool-cases (g.active == 0)) [
      | inr a ↦
          let busy : (f : File) → c.table i ≡ some f → f.active ≢ 0 =
            λ f b u. ground (arith, e, a, b, u) in
          pass passed next i _ busy (ground (arith, e, a, short))
            (lru_loop-Sweeps (i ∷ passed) next (busy_cons passed i none_idle busy))
      | inl a ↦ elim (Bool-cases (stands_in i passed)) [
        | inl p ↦
            absurd (none_idle i g (record { queued = p; held = e; unused = ground (arith, a) }))
        | inr p ↦
            freed i g (record { queued = ground arith; held = e; unused = ground (arith, a) })
              (ground (arith, e, a, p, short))
      ]
    ]
  ]

lru_delete-freed :
    (size : ℕ) (c : Cache) → lru_loop [] c.queue size c ≡ none → lru_delete size c ≡ none
unfolding lru_delete
lru_delete-freed size c e = ground (arith, e)

lru_delete-kept :
    (size : ℕ) (c : Cache)
    → lru_loop [] c.queue size c ≡ some c
    → c.max_size - c.curr_size < size
    → lru_delete size c ≡ some (false, c)
unfolding lru_delete
lru_delete-kept size c e h = ground (arith, e, h)

-- What `cache_evict` does: it refuses a file that is larger than the cache, or one without room
-- while no file is idle; it accepts one with room; and it reads freed memory otherwise.
pub data Evicts (size : ℕ) (c : Cache) (r : Option (Bool × Cache)) : Type 0 where
  too_large : c.max_size < size → r ≡ some (false, c) → Evicts size c r
  room : c.curr_size + size ≤ c.max_size → r ≡ some (true, c) → Evicts size c r
  all_used :
      ((slot : ℕ) (f : File) → ¬ IsIdle c c.queue slot f) → r ≡ some (false, c) → Evicts size c r
  reads_freed :
      (slot : ℕ) (f : File)
      → IsIdle c c.queue slot f
      → c.max_size < c.curr_size + size
      → size ≤ c.max_size
      → r ≡ none
      → Evicts size c r

sweep :
    (size : ℕ) (c : Cache)
    → size ≤ c.max_size
    → c.max_size - c.curr_size < size
    → c.curr_size ≤ c.max_size
    → Evicts size c (lru_delete size c)
unfolding stands_in
sweep size c le h small =
    elim (lru_loop-Sweeps c size h [] c.queue (λ slot f d. ground (arith, d.queued))) [
      | freed slot f d e ↦ reads_freed slot f d (omega arith) le (lru_delete-freed size c e)
      | kept none_idle e ↦ all_used none_idle (lru_delete-kept size c e h)
    ]

by_queue :
    (size : ℕ) (c : Cache) (queue : List ℕ) (r : Option (Bool × Cache))
    → c.queue ≡ queue
    → Evicts size c r
    → Evicts size c (elim queue [ [] ↦ some (false, c) | _ ∷ _ ↦ r ])
unfolding stands_in
by_queue size c [] r e evicts = all_used (λ slot f d. ground (arith, e, d.queued)) refl
by_queue size c (i ∷ queue) r e evicts = evicts

-- Where the size in use is at most the largest, `cache_evict` refuses a file that is larger than
-- the cache and accepts one that there is room for. It refuses any other if every file that the
-- queue leads to is in use, and reads freed memory if one is idle. It changes nothing where it
-- returns.
pub cache_evict-Evicts :
    (size : ℕ) (c : Cache) → c.curr_size ≤ c.max_size → Evicts size c (cache_evict size c)
unfolding cache_evict
cache_evict-Evicts size c small = elim (Bool-cases (ltb c.max_size size)) [
  | inl e ↦ too_large (ground (arith, e)) (ground (arith, e))
  | inr e ↦ elim (Bool-cases (leb size (c.max_size - c.curr_size))) [
    | inl f ↦ room (ground (arith, e, f)) (ground (arith, e, f))
    | inr f ↦ rw e (
        rw f (
          by_queue size c c.queue (lru_delete size c) refl
            (sweep size c (ground (arith, e)) (ground (arith, f)) small)))
  ]
]
