-- ===== src/Webserver/Fifo.antt =====
-- The requests of webserver/server_thread.c across threads: what the clients put into the buffer is
-- what the workers take out, in the same order.
use mathlib.Core.List.{append-nil, append_assoc}
use native.Mathlib.Nat.{mod-eq_of_lt}
use ece344_os.Prelude.{
  ℕ, ◌<◌, ◌≡◌, refl, Bool, true, false, not, ◌&&◌, List, [], ◌∷◌, ◌++◌, ◌==◌, if◌then◌else◌, arith,
  inl, inr, ◌∙◌, sym, ap,
}
use ece344_os.Webserver.Server.{
  Phase, outside, asleep, woken, ended, Server, read_from_buffer, worker_round, worker_step,
  client_round, client_step, server_exit, server_init, Event, works, requests, spurious_worker,
  spurious_client, exits, happen, history, Phase-cases,
}
use ece344_os.Webserver.Buffer.{contents, IsRing, send-contents, read-contents}

-- May a thread in this phase reach the buffer at its next step?
abbrev pub may_run : Bool → Phase → Bool
may_run exiting outside = true
may_run exiting asleep = false
may_run exiting woken = not exiting
may_run exiting ended = false

-- What an event puts into the buffer, and what it takes out.
abbrev pub put_by : Server → Event → List ℕ
put_by sv (requests i connfd) =
    if may_run sv.exiting (sv.clients i) && not (sv.request_counter == sv.max_requests)
    then connfd ∷ []
    else []
put_by sv (works i) = []
put_by sv (spurious_worker i) = []
put_by sv (spurious_client i) = []
put_by sv exits = []

abbrev pub got_by : Server → Event → List ℕ
got_by sv (works i) =
    if may_run sv.exiting (sv.workers i) && not (sv.request_counter == 0)
    then (read_from_buffer sv).0 ∷ []
    else []
got_by sv (requests i connfd) = []
got_by sv (spurious_worker i) = []
got_by sv (spurious_client i) = []
got_by sv exits = []

unfoldable pub all_put : Server → List Event → List ℕ
all_put sv [] = []
all_put sv (e ∷ es) = put_by sv e ++ all_put (happen sv e) es

unfoldable pub all_got : Server → List Event → List ℕ
all_got sv [] = []
all_got sv (e ∷ es) = got_by sv e ++ all_got (happen sv e) es

-- One step keeps the order.
record Keeps (sv : Server) (e : Event) : Type 0 where
  order : got_by sv e ++ contents (happen sv e) ≡ contents sv ++ put_by sv e
  ring : IsRing (happen sv e)

works-Keeps : (sv : Server) (i : ℕ) → IsRing sv → Keeps sv (works i)
unfolding happen worker_step worker_round
works-Keeps sv i v =
    let nil = append-nil (contents sv) in
    let read = read-contents sv v in
    elim (Phase-cases (sv.workers i)) [
      | inl p ↦ record { order = ground arith; ring = ground arith }
      | inr (inl p) ↦ record { order = ground arith; ring = ground arith }
      | inr (inr (inl p)) ↦ record { order = ground arith; ring = ground arith }
      | inr (inr (inr p)) ↦ record { order = ground arith; ring = ground arith }
    ]

requests-Keeps : (sv : Server) (i connfd : ℕ) → IsRing sv → Keeps sv (requests i connfd)
unfolding happen client_step client_round
requests-Keeps sv i connfd v =
    let nil = append-nil (contents sv) in
    let send = send-contents sv connfd v in
    let b = v.bounded in
    elim (Phase-cases (sv.clients i)) [
      | inl p ↦ record { order = ground arith; ring = ground arith }
      | inr (inl p) ↦ record { order = ground arith; ring = ground arith }
      | inr (inr (inl p)) ↦ record { order = ground arith; ring = ground arith }
      | inr (inr (inr p)) ↦ record { order = ground arith; ring = ground arith }
    ]

happen-Keeps : (sv : Server) (e : Event) → IsRing sv → Keeps sv e
unfolding happen server_exit
happen-Keeps sv (works i) v = works-Keeps sv i v
happen-Keeps sv (requests i connfd) v = requests-Keeps sv i connfd v
happen-Keeps sv (spurious_worker i) v = record {
  order = sym (append-nil (contents sv));
  ring = ground (arith, v.place);
}
happen-Keeps sv (spurious_client i) v = record {
  order = sym (append-nil (contents sv));
  ring = ground (arith, v.place);
}
happen-Keeps sv exits v = record {
  order = sym (append-nil (contents sv));
  ring = ground (arith, v.place);
}

fifo_from :
    (es : List Event) (sv : Server)
    → IsRing sv
    → all_got sv es ++ contents (history sv es) ≡ contents sv ++ all_put sv es
unfolding all_got all_put history
fifo_from [] sv v = sym (append-nil (contents sv))
fifo_from (e ∷ es) sv v =
    let k = happen-Keeps sv e v in
    append_assoc (got_by sv e) (all_got (happen sv e) es) _
    ∙ ap (◌++◌ (got_by sv e)) (fifo_from es (happen sv e) k.ring)
    ∙ sym (append_assoc (got_by sv e) (contents (happen sv e)) _)
    ∙ ap (λ l. l ++ all_put (happen sv e) es) k.order
    ∙ append_assoc (contents sv) (put_by sv e) _

-- From a new server with room for a request, whatever workers and clients do in whatever order: the
-- descriptors that the workers have taken out, followed by those still in the buffer, are exactly
-- those that the clients have put in, in the same order.
pub fifo :
    (es : List Event) (nr_threads max_requests : ℕ)
    → 0 < max_requests
    → let sv = server_init nr_threads max_requests in
      all_got sv es ++ contents (history sv es) ≡ all_put sv es
fifo es nr_threads max_requests h =
    fifo_from es (server_init nr_threads max_requests) (
      unfold server_init in
      record { out_range = h; bounded = omega arith; place = sym (mod-eq_of_lt (omega arith)) })
    ∙ unfold server_init in refl
