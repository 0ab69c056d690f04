-- ===== src/Webserver/CacheTests.antt =====
-- The theorems on the file cache at concrete inputs.
use ece344_os.Prelude.{
  ◌≡◌, refl, inl, inr, [], ◌∷◌, none, some, ◌==◌, if◌then◌else◌, arith, Bool-cases, same,
}
use ece344_os.Webserver.Cache.{
  Data, File, Cache, cache_insert, cache_evict, find, probe, get_index, djb2, add_to_front,
  cache_lookup, table_insert, request_begin,
}
use ece344_os.Webserver.Cache.Insert.{IsWell, Inserts, cache_insert-Inserts, total, size_at, filled}
use ece344_os.Webserver.Cache.Requests.{Serves, request_begin-Serves}
use ece344_os.Webserver.Cache.Ends.{Stops, find-Stops, IsFullWithout, probe-full}
use ece344_os.Webserver.Cache.Evict.{Evicts, cache_evict-Evicts}

abbrev file_a : File
file_a = record {
  key = 97 ∷ [];
  content = record { file_name = 97 ∷ []; file_buf = []; file_size = 30 };
  active = 0;
}

-- One file of 30 bytes in a cache for 100; the file of the name `e` has the same hash.
abbrev one_file : Cache
one_file = record {
  curr_size = 30;
  max_size = 100;
  table_size = 4;
  queue = 2 ∷ [];
  table = λ i. if i == 2 then some file_a else none;
}

abbrev data_e : Data
data_e = record { file_name = 101 ∷ []; file_buf = []; file_size = 50 }

a_found : find one_file (97 ∷ []) ≡ some 2
unfolding find probe get_index djb2 same
a_found = refl

one_file-IsWell : IsWell one_file
unfolding total size_at
one_file-IsWell = record {
  findable = λ j f e. elim (Bool-cases (j == 2)) [
    | inl b ↦ ground (arith, b, e, a_found)
    | inr b ↦ absurd (ground (arith, b, e))
  ];
  counted = refl;
  small = omega arith;
}

e_probed : cache_insert data_e one_file ≡ some (some 3, filled one_file data_e 3)
unfolding cache_insert cache_lookup cache_evict table_insert find probe get_index djb2 same
    add_to_front
e_probed = refl

cache_insert-Inserts_example : Inserts one_file data_e (cache_insert data_e one_file)
cache_insert-Inserts_example =
    cache_insert-Inserts one_file data_e 0 one_file-IsWell refl (omega arith) (inl (omega arith))

-- The file of 30 bytes would have to leave.
cache_evict-Evicts_example : Evicts 80 one_file (cache_evict 80 one_file)
cache_evict-Evicts_example = cache_evict-Evicts 80 one_file (omega arith)

request_begin-Serves_example : Serves one_file (97 ∷ []) (request_begin (97 ∷ []) one_file)
request_begin-Serves_example =
    request_begin-Serves one_file (97 ∷ []) 0 one_file-IsWell refl (omega arith)

find-Stops_example : Stops one_file (101 ∷ [])
find-Stops_example = find-Stops one_file (101 ∷ []) 0 refl (omega arith)

-- A table of one slot that the file has taken.
abbrev full_table : Cache
full_table = record one_file { table_size = 1; table = λ _. some file_a }

full_table-IsFullWithout : IsFullWithout full_table (101 ∷ [])
unfolding same
full_table-IsFullWithout j h = (file_a, refl, refl)

probe-full_example : probe 1000 full_table.table 1 (101 ∷ []) 0 ≡ none
probe-full_example = probe-full full_table (101 ∷ []) 1000 0 full_table-IsFullWithout (omega arith)
