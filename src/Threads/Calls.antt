-- ===== src/Threads/Calls.antt =====
-- Yielding to any thread (threads/thread.c) keeps the invariant of the scheduler.
use ece344_os.Prelude.{
  count-append, ℕ, ◌≡◌, refl, Option, some, arith, List, [], ◌∷◌, ◌==◌, if◌then◌else◌,
}
use ece344_os.Threads.State.{any, running, ready, yielded, no_thread, Thread, Kernel}
use ece344_os.Threads.Scheduler.{returned, switched, thread_yield}
use ece344_os.Threads.Switch.{Next, other_address, yield_any-eq, rotated, no_switch}
use ece344_os.Threads.Scheduled.{IsScheduled, Scheduled, scheduled, head, Head-of}
use ece344_os.Threads.Switched.{
  switch-Runs, switch-IsAllocated, switch-listed, still_waits, turn_rest,
}

-- A call that returns or switches, and keeps the invariant.
pub data Keeps {A : Type 0} (r : Option (A × Kernel)) : Type 0 where
  keeps : (a : A) (s' : Kernel) → r ≡ some (a, s') → Scheduled s' → Keeps r

module _ (s : Kernel) (c p : ℕ) (t : Thread) (v : IsScheduled s c p t) (r : ℕ) (u : Thread)
    (rest : List ℕ) (nx : Next s r u rest) where
  pub rotated-IsScheduled :
      IsScheduled (rotated s c p t v.runs r u rest nx) u.id r (record u { status = running })
  rotated-IsScheduled =
      let s' = rotated s c p t v.runs r u rest nx in
      let k = yielded r s.enabled in
      let ne = other_address s c p t v.runs r u rest nx in
      let heap : (x : ℕ)
          → s'.heap x ≡ (
              if x == p
              then some (record t { context = k; status = ready })
              else if x == r
              then some (record u { status = running })
              else s.heap x) =
        λ x. ground arith in
      let table : (i : ℕ) → s'.threads i ≡ s.threads i = λ i. refl in
      record {
        runs = switch-Runs s c p t v r u rest nx k ready refl refl s' table refl heap;
        allocated = switch-IsAllocated s c p t v r u rest nx k ready refl refl s' table refl heap;
        bounded = v.bounded;
        listed = switch-listed s c p t v r u rest nx k ready refl refl s' table refl heap;
        turn = λ x. ground (
          arith,
          count-append x rest (p ∷ []),
          heap x,
          turn_rest s c p t v r u rest nx k ready refl refl s' table refl heap x,
        );
        waits = still_waits s c p t v r u rest nx k ready refl refl s' table refl heap;
        once = v.once;
        apart = v.apart;
      }

-- Yielding to any thread returns or switches, and keeps the invariant.
pub yield_any-Keeps : (s : Kernel) → Scheduled s → Keeps (thread_yield any s)
yield_any-Keeps s (scheduled c p t v) = yield_from s.ready_queue refl
  where
    yield_from : (ps : List ℕ) → s.ready_queue ≡ ps → Keeps (thread_yield any s)
    yield_from [] e =
        keeps (returned no_thread) s ((no_switch s c p t 0 v.runs e).0) (scheduled c p t v)
    yield_from (r ∷ rest) e = elim (Head-of s c p t r rest v e) [
      | head u nx ↦
          keeps (switched r) (rotated s c p t v.runs r u rest nx)
            (yield_any-eq s c p t v.runs r u rest nx)
            (scheduled u.id r (record u { status = running })
              (rotated-IsScheduled s c p t v r u rest nx))
    ]
