-- ===== src/Webserver/ServingTests.antt =====
-- The theorem on the requests of webserver/server_thread.c at concrete steps: a request looks for the
-- file "a", reads it and puts it into the cache.
use ece344_os.Prelude.{ℕ, ◌≡◌, refl, Option, none, some, List, [], ◌∷◌, arith, true}
use ece344_os.Webserver.Cache.{
  Data, Cache, cache_init, get_index, probe, find, cache_lookup, cache_evict, cache_insert,
  table_insert, enter, request_begin, request_insert,
}
use ece344_os.Webserver.Cache.Insert.{filled}
use ece344_os.Webserver.Request.{
  Stat, request_readfile, name_refused, starts_with, has_string, last_from, read_opened,
}
use ece344_os.Webserver.Serving.{
  looking, reading, inserting, sending_own, request_step, System, Reach, starts, goes_on, arrives,
  steps,
}
use ece344_os.Webserver.Serving.Safe.{IsServing, Inserting, Reach-IsServing}

abbrev fresh : Cache
fresh = cache_init 100

abbrev name_a : List ℕ
name_a = b'a' ∷ []

abbrev slot_a : ℕ
slot_a = get_index fresh name_a

abbrev data_a : Data
data_a = record { file_name = name_a; file_buf = 1 ∷ 2 ∷ []; file_size = 2 }

-- There is one file.
abbrev stat_a : List ℕ → Option Stat
stat_a name = some (record { st_size = 2; is_reg = true; readable = true })

abbrev contents_a : List ℕ → ℕ → Option (List ℕ)
contents_a name size = some (1 ∷ 2 ∷ [])

abbrev with_a : Cache
with_a = enter slot_a name_a (filled fresh data_a slot_a)

found_free : find fresh name_a ≡ some slot_a
unfolding find probe cache_init
found_free = refl

absent_a : cache_lookup fresh name_a ≡ some none
unfolding cache_lookup cache_init
absent_a = ground (arith, found_free)

step_looking : request_step stat_a contents_a (looking name_a) fresh ≡ some (reading name_a, fresh)
unfolding request_step request_begin cache_init
step_looking = ground (arith, absent_a)

evict_nothing : cache_evict 2 fresh ≡ some (true, fresh)
unfolding cache_evict cache_init
evict_nothing = refl

insert_a : cache_insert data_a fresh ≡ some (some slot_a, filled fresh data_a slot_a)
unfolding cache_insert table_insert
insert_a = ground (arith, absent_a, evict_nothing, found_free)

step_reading :
    request_step stat_a contents_a (reading name_a) fresh ≡ some (inserting data_a, fresh)
unfolding request_step request_readfile name_refused starts_with has_string last_from read_opened
step_reading = refl

step_inserting :
    request_step stat_a contents_a (inserting data_a) fresh
    ≡ some (sending_own (some slot_a) data_a, with_a)
unfolding request_step request_insert cache_init
step_inserting = ground (arith, insert_a)

abbrev sending_a : System
sending_a = record { cache = with_a; requests = sending_own (some slot_a) data_a ∷ [] }

sending_a-Reach : Reach sending_a
sending_a-Reach =
    goes_on
      (goes_on
        (goes_on (goes_on (starts 100) (arrives name_a))
          (steps [] [] stat_a contents_a (looking name_a) (reading name_a) fresh refl step_looking))
        (steps [] [] stat_a contents_a (reading name_a) (inserting data_a) fresh refl step_reading))
      (steps [] [] stat_a contents_a (inserting data_a) (sending_own (some slot_a) data_a) with_a
        refl step_inserting)

Reach-IsServing_example :
    IsServing sending_a
    × Inserting sending_a data_a (request_step stat_a contents_a (inserting data_a) with_a)
Reach-IsServing_example = Reach-IsServing sending_a stat_a contents_a data_a sending_a-Reach
