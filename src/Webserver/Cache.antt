-- ===== src/Webserver/Cache.antt =====
-- webserver/server_thread.c: the cache of files, a hash table with linear probing and a queue of
-- slots for eviction. A `struct file_struct *` is the slot of the table that holds it. `none` is a
-- loop that does not end, or an access to freed memory. Sizes are those of files, and so not negative.
pub mod Probe
pub mod Insert
pub mod Evict
pub mod Requests
pub mod Ends
use ece344_os.Prelude.{
  ℕ, zero, suc, ◌+◌, ◌-◌, ◌*◌, ◌%◌, ◌^◌, Bool, true, false, List, [], ◌∷◌, ◌++◌, Option, none, some,
  upd, ◌==◌, ◌&&◌, ltb, leb, if◌then◌else◌, same,
}

-- `struct file_data`: a string is the list of its bytes.
pub record Data : Type 0 where
  pub file_name : List ℕ
  pub file_buf : List ℕ
  pub file_size : ℕ

-- `struct file_struct`; `content` is the field `data`.
pub record File : Type 0 where
  pub key : List ℕ
  pub content : Data
  pub active : ℕ

-- `struct cache_struct`; the queue is without its head.
pub record Cache : Type 0 where
  pub curr_size : ℕ
  pub max_size : ℕ
  pub table_size : ℕ
  pub queue : List ℕ
  pub table : ℕ → Option File

-- `cache_init`
unfoldable pub cache_init : ℕ → Cache
cache_init max_cache_size = record {
  curr_size = 0;
  max_size = max_cache_size;
  table_size = 2147000;
  queue = [];
  table = λ _. none;
}

-- The loop of `get_index`; a byte is a signed char.
unfoldable pub djb2 : ℕ → List ℕ → ℕ
djb2 hash [] = hash
djb2 hash (c ∷ cs) = djb2 ((hash * 33 + (if ltb c 128 then c else c + 2 ^ 64 - 256)) % 2 ^ 64) cs

-- `get_index`
unfoldable pub get_index : Cache → List ℕ → ℕ
get_index c word_string = djb2 5381 word_string % c.table_size

-- The loop of `cache_lookup` and of `table_insert`, on fuel: the slot where it stops.
unfoldable pub probe : ℕ → (ℕ → Option File) → ℕ → List ℕ → ℕ → Option ℕ
probe zero table size name index = none
probe (suc n) table size name index =
    let rest = probe n table size name ((index + 1) % size) in
    elim (table index) [ none ↦ some index | some f ↦ if same f.key name then some index else rest ]

-- A round for each slot: a loop that has seen all of them starts again, and does not end.
unfoldable pub find : Cache → List ℕ → Option ℕ
find c name = probe c.table_size c.table c.table_size name (get_index c name)

-- `cache_lookup`
unfoldable pub cache_lookup : Cache → List ℕ → Option (Option ℕ)
cache_lookup c file_name = elim (find c file_name) [
  | none ↦ none
  | some index ↦ elim (c.table index) [
    | none ↦ some none
    | some f ↦ if same f.key file_name then some (some index) else some none
  ]
]

-- `add_to_front`, which adds at the end as well
unfoldable pub add_to_front : List ℕ → ℕ → List ℕ
add_to_front [] index = index ∷ []
add_to_front (i ∷ queue) index = i ∷ add_to_front queue index

-- `add_to_end`
unfoldable pub add_to_end : List ℕ → ℕ → List ℕ
add_to_end [] index = index ∷ []
add_to_end (i ∷ queue) index = i ∷ add_to_end queue index

-- `delete_from_queue`
unfoldable pub delete_from_queue : List ℕ → ℕ → List ℕ
delete_from_queue [] index = []
delete_from_queue (i ∷ queue) index =
    let rest = delete_from_queue queue index in if i == index then queue else i ∷ rest

-- `LRU_add`
abbrev lru_add : ℕ → Cache → Cache
lru_add index c = record c { queue = add_to_front c.queue index }

-- `LRU_update`
unfoldable pub lru_update : ℕ → Cache → Cache
lru_update index c = record c { queue = add_to_end (delete_from_queue c.queue index) index }

-- `table_insert`
unfoldable pub table_insert : Data → Cache → Option (Option ℕ × Cache)
table_insert d c = elim (find c d.file_name) [
  | none ↦ none
  | some index ↦ some (
    some index,
    lru_add index (record c {
      table = upd c.table index (some (record { key = d.file_name; content = d; active = 0 }));
      curr_size = c.curr_size + d.file_size;
    }),
  )
]

-- Whether a node for the slot stands in a part of the queue.
unfoldable pub stands_in : ℕ → List ℕ → Bool
stands_in index [] = false
stands_in index (i ∷ queue) = let rest = stands_in index queue in if i == index then true else rest

-- The loop of `LRU_delete` at the node `curr`, with the nodes that it has passed and those to come.
-- `delete_from_queue` frees the first node for the slot: the loop goes on to `curr->next`, which is
-- freed memory where that node is `curr`.
unfoldable pub lru_loop : List ℕ → List ℕ → ℕ → Cache → Option Cache
lru_loop passed [] file_size c = some c
lru_loop passed (curr ∷ next) file_size c =
    if ltb (c.max_size - c.curr_size) file_size
    then elim (c.table curr) [
      | none ↦ lru_loop (curr ∷ passed) next file_size c
      | some f ↦
          if f.active == 0
          then if stands_in curr passed
            then lru_loop (curr ∷ passed) next file_size (record c {
              curr_size = c.curr_size - f.content.file_size;
              table = upd c.table curr none;
              queue = delete_from_queue c.queue curr;
            })
            else none
          else lru_loop (curr ∷ passed) next file_size c
    ]
    else some c

-- `LRU_delete`
unfoldable pub lru_delete : ℕ → Cache → Option (Bool × Cache)
lru_delete file_size c = elim (lru_loop [] c.queue file_size c) [
  | none ↦ none
  | some c' ↦ some (leb file_size (c'.max_size - c'.curr_size), c')
]

-- `cache_evict`; the size in use is at most the largest, so that the difference is not negative.
unfoldable pub cache_evict : ℕ → Cache → Option (Bool × Cache)
cache_evict file_size c =
    if ltb c.max_size file_size
    then some (false, c)
    else if leb file_size (c.max_size - c.curr_size)
    then some (true, c)
    else elim c.queue [ [] ↦ some (false, c) | _ ∷ _ ↦ lru_delete file_size c ]

-- `cache_insert`
unfoldable pub cache_insert : Data → Cache → Option (Option ℕ × Cache)
cache_insert d c = elim (cache_lookup c d.file_name) [
  | none ↦ none
  | some (some index) ↦ some (some index, c)
  | some none ↦ elim (cache_evict d.file_size c) [
    | none ↦ none
    | some (ok, c') ↦ if ok then table_insert d c' else some (none, c')
  ]
]

-- A change of `active` in the file at a slot.
abbrev pub set_active : (ℕ → ℕ) → ℕ → Cache → Cache
set_active change slot c = elim (c.table slot) [
  | none ↦ c
  | some f ↦ record c { table = upd c.table slot (some (record f { active = change f.active })) }
]

abbrev pub enter : ℕ → List ℕ → Cache → Cache
enter slot name c = lru_update (get_index c name) (set_active (λ n. n + 1) slot c)

-- The first part of `do_server_request` under `cache_lock`: the slot of a file in the cache.
unfoldable pub request_begin : List ℕ → Cache → Option (Option ℕ × Cache)
request_begin file_name c = elim (cache_lookup c file_name) [
  | none ↦ none
  | some none ↦ some (none, c)
  | some (some slot) ↦ some (some slot, enter slot file_name c)
]

-- The part under `cache_lock` after a file that was not in the cache has been read.
unfoldable pub request_insert : Data → Cache → Option (Option ℕ × Cache)
request_insert d c = elim (cache_insert d c) [
  | none ↦ none
  | some (none, c') ↦ some (none, c')
  | some (some slot, c') ↦ some (some slot, enter slot d.file_name c')
]

-- The part under `cache_lock` after the file has been sent.
unfoldable pub request_end : Option ℕ → Cache → Cache
request_end none c = c
request_end (some slot) c = set_active (λ n. n - 1) slot c
