-- ===== src/Webserver/Server.antt =====
-- webserver/server_thread.c: the bounded buffer of requests between the thread that accepts
-- connections and the workers, with the mutex `lock` and the condition variables `empty` and `full`.
-- A thread runs its part under the mutex as one step. What a broadcast does to the threads that wait
-- is part of the step that makes it.
use ece344_os.Prelude.{
  ℕ, zero, suc, ◌+◌, ◌-◌, ◌%◌, Bool, true, false, List, [], ◌∷◌, upd, ◌==◌, if◌then◌else◌, ◌≡◌,
  refl, ◌⊎◌, inl, inr,
}

-- Where a thread stands: outside the monitor, waiting on its condition variable, woken and about to
-- take the mutex again, or ended by pthread_exit.
pub data Phase : Type 0 where
  outside asleep woken ended : Phase

pub Phase-cases : (ph : Phase) → (ph ≡ outside) ⊎ (ph ≡ asleep) ⊎ (ph ≡ woken) ⊎ (ph ≡ ended)
Phase-cases outside = inl refl
Phase-cases asleep = inr (inl refl)
Phase-cases woken = inr (inr (inl refl))
Phase-cases ended = inr (inr (inr refl))

-- `struct server`, without the cache, and the phases of the workers and of the threads that call
-- `server_request`. `inn` is the field `in`.
pub record Server : Type 0 where
  pub nr_threads : ℕ
  pub max_requests : ℕ
  pub exiting : Bool
  pub buffer : ℕ → ℕ
  pub inn : ℕ
  pub out : ℕ
  pub request_counter : ℕ
  pub workers : ℕ → Phase
  pub clients : ℕ → Phase

-- `server_basic_init`, with the buffer of `server_init`
unfoldable pub server_init : ℕ → ℕ → Server
server_init nr_threads max_requests = record {
  nr_threads = nr_threads;
  max_requests = max_requests;
  exiting = false;
  buffer = λ _. 0;
  inn = 0;
  out = 0;
  request_counter = 0;
  workers = λ _. outside;
  clients = λ _. outside;
}

abbrev pub wake : Phase → Phase
wake outside = outside
wake asleep = woken
wake woken = woken
wake ended = ended

-- `pthread_cond_broadcast(&empty)` and `(&full)`
abbrev pub broadcast_empty : Server → Server
broadcast_empty sv = record sv { workers = λ i. wake (sv.workers i) }

abbrev pub broadcast_full : Server → Server
broadcast_full sv = record sv { clients = λ i. wake (sv.clients i) }

-- `send_to_buffer`
unfoldable pub send_to_buffer : Server → ℕ → Server
send_to_buffer sv connfd =
    let put = record sv { buffer = upd sv.buffer sv.inn connfd } in
    let told = (if sv.request_counter == 0 then broadcast_empty put else put) in
    record told { inn = (sv.inn + 1) % sv.max_requests; request_counter = sv.request_counter + 1 }

-- `read_from_buffer`: the descriptor and the new state
unfoldable pub read_from_buffer : Server → ℕ × Server
read_from_buffer sv =
    let told = (if sv.request_counter == sv.max_requests then broadcast_full sv else sv) in
    (
      sv.buffer sv.out,
      record told {
        out = (sv.out + 1) % sv.max_requests;
        request_counter = sv.request_counter - 1;
      },
    )

abbrev pub set_worker : Server → ℕ → Phase → Server
set_worker sv i ph = record sv { workers = upd sv.workers i ph }

abbrev pub set_client : Server → ℕ → Phase → Server
set_client sv i ph = record sv { clients = upd sv.clients i ph }

-- The test of the loop of `worker`, up to the next wait or the end of its critical section.
unfoldable pub worker_round : Server → ℕ → Server
worker_round sv i =
    if sv.request_counter == 0
    then set_worker sv i asleep
    else set_worker (read_from_buffer sv).1 i outside

-- A step of the worker `i`: it enters the monitor, or comes back from pthread_cond_wait.
unfoldable pub worker_step : Server → ℕ → Server
worker_step sv i = elim (sv.workers i) [
  | outside ↦ worker_round sv i
  | woken ↦ if sv.exiting then set_worker sv i ended else worker_round sv i
  | asleep ↦ sv
  | ended ↦ sv
]

-- The same for `server_request` with the descriptor `connfd`, where there are workers.
unfoldable pub client_round : Server → ℕ → ℕ → Server
client_round sv i connfd =
    if sv.request_counter == sv.max_requests
    then set_client sv i asleep
    else set_client (send_to_buffer sv connfd) i outside

unfoldable pub client_step : Server → ℕ → ℕ → Server
client_step sv i connfd = elim (sv.clients i) [
  | outside ↦ client_round sv i connfd
  | woken ↦ if sv.exiting then set_client sv i ended else client_round sv i connfd
  | asleep ↦ sv
  | ended ↦ sv
]

-- The start of `server_exit`, up to the first pthread_join.
unfoldable pub server_exit : Server → Server
server_exit sv = broadcast_full (broadcast_empty (record sv { exiting = true }))

abbrev pub has_ended : Phase → Bool
has_ended ended = true
has_ended _ = false

-- Whether the calls of pthread_join in `server_exit` return, for the first `n` workers.
unfoldable pub joins : ℕ → Server → Bool
joins zero sv = true
joins (suc n) sv = let rest = joins n sv in if has_ended (sv.workers n) then rest else false

-- What can happen: a step of a worker or of a client, a spurious wake-up, or the exit.
pub data Event : Type 0 where
  works : ℕ → Event
  requests : ℕ → ℕ → Event
  spurious_worker : ℕ → Event
  spurious_client : ℕ → Event
  exits : Event

unfoldable pub happen : Server → Event → Server
happen sv (works i) = worker_step sv i
happen sv (requests i connfd) = client_step sv i connfd
happen sv (spurious_worker i) = set_worker sv i (wake (sv.workers i))
happen sv (spurious_client i) = set_client sv i (wake (sv.clients i))
happen sv exits = server_exit sv

unfoldable pub history : Server → List Event → Server
history sv [] = sv
history sv (e ∷ es) = history (happen sv e) es
