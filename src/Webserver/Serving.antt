-- ===== src/Webserver/Serving.antt =====
-- do_server_request of webserver/server_thread.c, as the phases of a request: what it does without
-- cache_lock in between, and one step for each part under the lock. The requests of all workers run
-- over one cache.
pub mod Steps
pub mod Moves
pub mod Safe
use ece344_os.Prelude.{
  ℕ, ◌<◌, ◌≡◌, List, [], ◌∷◌, ◌++◌, Option, none, some, ltb, length, if◌then◌else◌,
}
use ece344_os.Webserver.Cache.{
  Data, File, Cache, cache_init, request_begin, request_insert, request_end,
}
use ece344_os.Webserver.Request.{Stat, refuses, has_file, fails, request_readfile}

-- Where a request is. It looks up its file name; it reads the file; it inserts what it has read; it
-- sends the data of a file in the cache, or data of its own, as a user of the file in a slot.
pub data Phase : Type 0 where
  looking : List ℕ → Phase
  reading : List ℕ → Phase
  inserting : Data → Phase
  sending_cached : ℕ → Data → Phase
  sending_own : Option ℕ → Data → Phase
  finished : Phase

-- The next step of a request, over the files that there are then. A server without a cache has the
-- largest size 0. An error of a system call ends the program.
module _ (stat : List ℕ → Option Stat) (contents : List ℕ → ℕ → Option (List ℕ)) where
  unfoldable pub request_step : Phase → Cache → Option (Phase × Cache)
  request_step (looking name) c =
      if ltb 0 c.max_size
      then elim (request_begin name c) [
        | none ↦ none
        | some (found, c') ↦ elim found [
          | none ↦ some (reading name, c')
          | some slot ↦ elim (c'.table slot) [
            | none ↦ none
            | some f ↦ some (sending_cached slot f.content, c')
          ]
        ]
      ]
      else some (reading name, c)
  request_step (reading name) c = elim (request_readfile stat contents name) [
    | refuses why ↦ some (finished, c)
    | has_file d ↦ some (inserting d, c)
    | fails ↦ none
  ]
  request_step (inserting d) c =
      if ltb 0 c.max_size
      then elim (request_insert d c) [
        | none ↦ none
        | some (file, c') ↦ some (sending_own file d, c')
      ]
      else some (sending_own none d, c)
  request_step (sending_cached slot d) c = some (finished, request_end (some slot) c)
  request_step (sending_own file d) c = some (finished, request_end file c)
  request_step finished c = some (finished, c)

-- The cache and the requests.
pub record System : Type 0 where
  pub cache : Cache
  pub requests : List Phase

-- A request comes in, or one of the requests takes its next step.
pub data Step (s : System) : System → Type 0 where
  arrives : (name : List ℕ) → Step s (record s { requests = looking name ∷ s.requests })
  steps :
      (before after : List Phase) (stat : List ℕ → Option Stat)
      (contents : List ℕ → ℕ → Option (List ℕ)) (now next : Phase) (c : Cache)
      → s.requests ≡ before ++ now ∷ after
      → request_step stat contents now s.cache ≡ some (next, c)
      → Step s (record { cache = c; requests = before ++ next ∷ after })

-- The states that any order of such steps leads to.
pub data Reach : System → Type 0 where
  starts : (max_size : ℕ) → Reach (record { cache = cache_init max_size; requests = [] })
  goes_on : {s s' : System} → Reach s → Step s s' → Reach s'
