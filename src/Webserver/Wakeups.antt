-- ===== src/Webserver/Wakeups.antt =====
-- No wake-up is lost in the bounded buffer of webserver/server_thread.c; one is lost when the server
-- exits.
use ece344_os.Prelude.{
  ℕ, zero, suc, false, ◌≤◌, ◌<◌, ◌≡◌, ◌≢◌, refl, true, List, [], ◌∷◌, upd, ◌==◌, arith, Bool-cases,
  inl, inr, if_both,
}
use ece344_os.Webserver.Server.{
  Phase, outside, asleep, woken, ended, Server, wake, send_to_buffer, read_from_buffer,
  worker_round, worker_step, client_round, client_step, server_exit, server_init, Event, works,
  requests, spurious_worker, spurious_client, exits, happen, history, joins, Phase-cases,
}

-- The buffer is not overfull, a worker waits only for an empty buffer, and a client only for a full
-- one.
pub record IsSound (sv : Server) : Type 0 where
  pub bounded : sv.request_counter ≤ sv.max_requests
  pub in_range : sv.inn < sv.max_requests
  pub out_range : sv.out < sv.max_requests
  pub workers_wait : (i : ℕ) → sv.workers i ≡ asleep → sv.request_counter ≡ 0
  pub clients_wait : (i : ℕ) → sv.clients i ≡ asleep → sv.request_counter ≡ sv.max_requests

wake-ne-asleep : (ph : Phase) → wake ph ≢ asleep
wake-ne-asleep outside e = cc
wake-ne-asleep asleep e = cc
wake-ne-asleep woken e = cc
wake-ne-asleep ended e = cc

-- A request taken out of a buffer that is not empty.
read-IsSound :
    (sv : Server) (i : ℕ)
    → IsSound sv
    → sv.request_counter ≢ 0
    → IsSound
        (record (read_from_buffer sv).1 { workers = upd (read_from_buffer sv).1.workers i outside })
unfolding read_from_buffer
read-IsSound sv i v ne = record {
  bounded = ground (arith, v.bounded);
  in_range = ground (arith, v.in_range);
  out_range = ground (arith, v.out_range);
  workers_wait = λ j e. ground (arith, v.workers_wait j);
  clients_wait = λ j e. ground (arith, v.clients_wait j, wake-ne-asleep (sv.clients j));
}

-- A request put into a buffer that is not full.
send-IsSound :
    (sv : Server) (i connfd : ℕ)
    → IsSound sv
    → sv.request_counter ≢ sv.max_requests
    → IsSound (record (send_to_buffer sv connfd) {
      clients = upd (send_to_buffer sv connfd).clients i outside;
    })
unfolding send_to_buffer
send-IsSound sv i connfd v ne = record {
  bounded = ground (arith, v.bounded);
  in_range = ground (arith, v.in_range);
  out_range = ground (arith, v.out_range);
  workers_wait = λ j e. ground (arith, v.workers_wait j, wake-ne-asleep (sv.workers j));
  clients_wait = λ j e. ground (arith, v.clients_wait j);
}

-- A worker's phase changed, not to a wait unless the buffer is empty.
worker-IsSound :
    (sv : Server) (i : ℕ) (ph : Phase)
    → IsSound sv
    → (ph ≡ asleep → sv.request_counter ≡ 0)
    → IsSound (record sv { workers = upd sv.workers i ph })
worker-IsSound sv i ph v h = record {
  bounded = v.bounded;
  in_range = v.in_range;
  out_range = v.out_range;
  workers_wait = λ j e. elim (Bool-cases (j == i)) [
    | inl y ↦ h (ground arith)
    | inr n ↦ v.workers_wait j (ground arith)
  ];
  clients_wait = v.clients_wait;
}

client-IsSound :
    (sv : Server) (i : ℕ) (ph : Phase)
    → IsSound sv
    → (ph ≡ asleep → sv.request_counter ≡ sv.max_requests)
    → IsSound (record sv { clients = upd sv.clients i ph })
client-IsSound sv i ph v h = record {
  bounded = v.bounded;
  in_range = v.in_range;
  out_range = v.out_range;
  workers_wait = v.workers_wait;
  clients_wait = λ j e. elim (Bool-cases (j == i)) [
    | inl y ↦ h (ground arith)
    | inr n ↦ v.clients_wait j (ground arith)
  ];
}

worker_round-IsSound : (sv : Server) (i : ℕ) → IsSound sv → IsSound (worker_round sv i)
unfolding worker_round
worker_round-IsSound sv i v = elim (Bool-cases (sv.request_counter == 0)) [
  | inl e ↦ rw (e, worker_round) (worker-IsSound sv i asleep v (λ _. ground arith))
  | inr e ↦ rw (e, worker_round) (read-IsSound sv i v (ground arith))
]

client_round-IsSound :
    (sv : Server) (i connfd : ℕ) → IsSound sv → IsSound (client_round sv i connfd)
unfolding client_round
client_round-IsSound sv i connfd v = elim (Bool-cases (sv.request_counter == sv.max_requests)) [
  | inl e ↦ rw (e, client_round) (client-IsSound sv i asleep v (λ _. ground arith))
  | inr e ↦ rw (e, client_round) (send-IsSound sv i connfd v (ground arith))
]

worker_step-IsSound : (sv : Server) (i : ℕ) → IsSound sv → IsSound (worker_step sv i)
unfolding worker_step
worker_step-IsSound sv i v = elim (Phase-cases (sv.workers i)) [
  | inl e ↦ rw (e, worker_step) (worker_round-IsSound sv i v)
  | inr (inl e) ↦ rw (e, worker_step) v
  | inr (inr (inr e)) ↦ rw (e, worker_step) v
  | inr (inr (inl e)) ↦
      rw (e, worker_step)
        (if_both IsSound sv.exiting (worker-IsSound sv i ended v (λ z. cc))
          (worker_round-IsSound sv i v))
]

client_step-IsSound : (sv : Server) (i connfd : ℕ) → IsSound sv → IsSound (client_step sv i connfd)
unfolding client_step
client_step-IsSound sv i connfd v = elim (Phase-cases (sv.clients i)) [
  | inl e ↦ rw (e, client_step) (client_round-IsSound sv i connfd v)
  | inr (inl e) ↦ rw (e, client_step) v
  | inr (inr (inr e)) ↦ rw (e, client_step) v
  | inr (inr (inl e)) ↦
      rw (e, client_step)
        (if_both IsSound sv.exiting (client-IsSound sv i ended v (λ z. cc))
          (client_round-IsSound sv i connfd v))
]

server_exit-IsSound : (sv : Server) → IsSound sv → IsSound (server_exit sv)
unfolding server_exit
server_exit-IsSound sv v = record {
  bounded = v.bounded;
  in_range = v.in_range;
  out_range = v.out_range;
  workers_wait = λ j e. absurd (wake-ne-asleep (sv.workers j) e);
  clients_wait = λ j e. absurd (wake-ne-asleep (sv.clients j) e);
}

happen-IsSound : (sv : Server) (e : Event) → IsSound sv → IsSound (happen sv e)
unfolding happen
happen-IsSound sv (works i) v = worker_step-IsSound sv i v
happen-IsSound sv (requests i connfd) v = client_step-IsSound sv i connfd v
happen-IsSound sv (spurious_worker i) v =
    worker-IsSound sv i _ v (λ z. absurd (wake-ne-asleep (sv.workers i) z))
happen-IsSound sv (spurious_client i) v =
    client-IsSound sv i _ v (λ z. absurd (wake-ne-asleep (sv.clients i) z))
happen-IsSound sv exits v = server_exit-IsSound sv v

history-IsSound : (es : List Event) (sv : Server) → IsSound sv → IsSound (history sv es)
unfolding history
history-IsSound [] sv v = v
history-IsSound (e ∷ es) sv v = history-IsSound es (happen sv e) (happen-IsSound sv e v)

-- From a new server with room for a request, whatever the workers and the clients do in whatever
-- order, spurious wake-ups and the exit included: the buffer never holds more than max_requests,
-- its indices stay inside it, a worker waits on `empty` only while the buffer is empty, and a client
-- waits on `full` only while it is full.
pub no_lost_wakeup :
    (es : List Event) (nr_threads max_requests : ℕ)
    → 0 < max_requests
    → IsSound (history (server_init nr_threads max_requests) es)
unfolding server_init
no_lost_wakeup es nr_threads max_requests h = history-IsSound es _ (record {
  bounded = omega arith;
  in_range = h;
  out_range = h;
  workers_wait = λ i e. refl;
  clients_wait = λ i e. absurd (cc);
})

-- What can happen while server_exit joins the workers, without a spurious wake-up of the worker `i`.
abbrev pub AllQuiet : ℕ → List Event → Type 0
AllQuiet i [] = Unit {0}
AllQuiet i (works j ∷ es) = AllQuiet i es
AllQuiet i (spurious_worker j ∷ es) = (j ≢ i) × AllQuiet i es
AllQuiet i (spurious_client j ∷ es) = AllQuiet i es
AllQuiet i (requests j connfd ∷ es) = ⊥
AllQuiet i (exits ∷ es) = ⊥

-- The state in which a worker has missed the exit.
record Missed (sv : Server) (i : ℕ) : Type 0 where
  exiting : sv.exiting ≡ true
  empty : sv.request_counter ≡ 0
  waiting : sv.workers i ≡ asleep

Missed-step : (sv : Server) (i j : ℕ) → Missed sv i → Missed (worker_step sv j) i
unfolding worker_step worker_round
Missed-step sv i j m = elim (Phase-cases (sv.workers j)) [
  | inl e ↦ ground (arith, m.exiting, m.empty, m.waiting)
  | inr (inl e) ↦ ground (arith, m.exiting, m.empty, m.waiting)
  | inr (inr (inl e)) ↦ ground (arith, m.exiting, m.empty, m.waiting)
  | inr (inr (inr e)) ↦ ground (arith, m.exiting, m.empty, m.waiting)
]

Missed-history :
    (es : List Event) (sv : Server) (i : ℕ) → AllQuiet i es → Missed sv i → Missed (history sv es) i
unfolding history happen
Missed-history [] sv i q m = m
Missed-history (works j ∷ es) sv i q m =
    Missed-history es (worker_step sv j) i q (Missed-step sv i j m)
Missed-history (spurious_worker j ∷ es) sv i (ne, q) m =
    Missed-history es _ i q
      (record { exiting = m.exiting; empty = m.empty; waiting = ground (arith, m.waiting, ne) })
Missed-history (spurious_client j ∷ es) sv i q m =
    Missed-history es _ i q (record { exiting = m.exiting; empty = m.empty; waiting = m.waiting })
Missed-history (requests _ _ ∷ es) sv i q m = elim q [ ]
Missed-history (exits ∷ es) sv i q m = elim q [ ]

joins-asleep : (n i : ℕ) (sv : Server) → i < n → sv.workers i ≡ asleep → joins n sv ≡ false
unfolding joins
joins-asleep zero i sv h e = absurd (omega arith)
joins-asleep (suc n) i sv h e = elim (Bool-cases (i == n)) [
  | inl y ↦ ground (arith, y, e)
  | inr m ↦ let rest = joins-asleep n i sv (ground (arith, m)) e in ground (arith, rest)
]

-- A worker that is outside the monitor when the server exits with an empty buffer goes to sleep on
-- `empty` at its next step, since `exiting` is tested only behind a wait. Whatever the workers do from
-- then on, and whatever other threads are woken spuriously, while no request comes in, it sleeps until it
-- is woken spuriously itself, and until then server_exit does not get past joining the workers.
pub exit_missed :
    (sv : Server) (i : ℕ) (es : List Event)
    → i < sv.nr_threads
    → sv.workers i ≡ outside
    → sv.request_counter ≡ 0
    → AllQuiet i es
    → ((history (server_exit sv) (works i ∷ es)).workers i ≡ asleep)
      × (joins sv.nr_threads (history (server_exit sv) (works i ∷ es)) ≡ false)
unfolding history happen
exit_missed sv i es h o e q =
    let last = (Missed-history es (worker_step (server_exit sv) i) i q first).waiting in
    (last, joins-asleep sv.nr_threads i _ h last)
  where
    first : Missed (worker_step (server_exit sv) i) i
    first = unfold server_exit worker_step worker_round in ground arith
