-- ===== src/Threads/Switch.antt =====
-- thread_yield and thread_sleep of threads/thread.c: which thread runs next, and where the caller
-- goes.
use ece344_os.Prelude.{
  ℕ, ◌<◌, ◌≡◌, ◌≢◌, refl, true, false, some, arith, ◌∙◌, sym, List, [], ◌∷◌, ◌++◌, upd,
}
use ece344_os.Threads.State.{
  num, any, self, no_thread, max_threads, running, ready, blocked, yielded, slept, Thread, Kernel,
  interrupts_off, interrupts_set, finish,
}
use ece344_os.Threads.Queue.{add_to_queue, get_first, delete_from_queue}
use ece344_os.Threads.Scheduler.{
  is_running, is_exited, thread_id, free_exited, returned, switched, yield_target, yield_to,
  thread_yield, thread_sleep, sleep_to,
}
use ece344_os.Threads.Scan.{Registered, holds, thread_id-running, free_exited-none}

-- The thread `c`, at the address `p`, is the only one that runs, and none has exited.
pub record Runs (s : Kernel) (c p : ℕ) (t : Thread) : Type 0 where
  pub registered : Registered s
  pub slot : s.threads c ≡ some p
  pub struct : s.heap p ≡ some t
  pub below : c < max_threads
  pub runs : t.status ≡ running
  pub only : (j : ℕ) → holds s is_running j ≡ true → j ≡ c
  pub none_exited : (j : ℕ) → j < max_threads → holds s is_exited j ≡ false

-- The first thread `r` of the ready queue, with the struct `u`, and the rest of the queue.
pub record Next (s : Kernel) (r : ℕ) (u : Thread) (rest : List ℕ) : Type 0 where
  pub queue : s.ready_queue ≡ r ∷ rest
  pub struct : s.heap r ≡ some u
  pub slot : s.threads u.id ≡ some r
  pub waits : u.status ≡ ready

abbrev pub off : Kernel → Kernel
off s = record s { enabled = false }

module _ (s : Kernel) (c p : ℕ) (t : Thread) (run : Runs s c p t) where
  pub thread_id-eq : thread_id (off s) ≡ some (num c, off s)
  thread_id-eq =
      let h : holds s is_running c ≡ true = ground (arith, run.slot, run.struct, run.runs) in
      thread_id-running (off s) (record { live = run.registered.live }) c run.below h run.only

  pub free_exited-eq :
      (q : List ℕ)
      → let o = record s { ready_queue = q; enabled = false } in free_exited o ≡ some (no_thread, o)
  free_exited-eq q =
      free_exited-none (record s { ready_queue = q; enabled = false })
        (record { live = run.registered.live }) run.none_exited

  module _ (r : ℕ) (u : Thread) (rest : List ℕ) (nx : Next s r u rest) where
    get_first-eq : get_first (off s).ready_queue (off s) ≡ some (num u.id, off s)
    unfolding get_first
    get_first-eq = ground (arith, nx.queue, nx.struct)

    delete-eq :
        (o : Kernel) → o.heap r ≡ some u → delete_from_queue (r ∷ rest) u.id o ≡ some (rest, o)
    unfolding delete_from_queue
    delete-eq o e = ground (arith, e)

    pub other_address : r ≢ p
    other_address e =
        let a : some u ≡ some t = sym nx.struct ∙ rw e run.struct in
        let b : u.status ≡ t.status = ground arith in
        let d : ready ≡ running = sym nx.waits ∙ b ∙ run.runs in cc

    -- The state that the yield to `r` leaves, for the caller's interrupt mask.
    abbrev pub rotated : Kernel
    rotated = record s {
      enabled = false;
      ready_queue = rest ++ (p ∷ []);
      heap =
          upd
            (upd (upd s.heap p (some (record t { context = yielded r s.enabled }))) r
              (some (record u { status = running })))
            p (some (record t { context = yielded r s.enabled; status = ready }));
    }

    yield_to-eq : yield_to s.enabled (num c) u.id (off s) ≡ some (switched r, rotated)
    unfolding yield_to add_to_queue
    yield_to-eq =
        let ne = other_address in
        ground (
          arith,
          nx.slot,
          nx.queue,
          run.slot,
          run.struct,
          nx.struct,
          delete-eq (off s) nx.struct,
          free_exited-eq rest,
        )

    pub yield_any-eq : thread_yield any s ≡ some (switched r, rotated)
    unfolding thread_yield yield_target interrupts_off interrupts_set
    yield_any-eq =
        ground (arith, thread_id-eq, free_exited-eq s.ready_queue, get_first-eq, yield_to-eq)

    -- The state that the sleep in the queue `q`, in which `ps` wait, leaves.
    abbrev pub asleep : ℕ → List ℕ → Kernel
    asleep q ps = record s {
      enabled = false;
      ready_queue = rest;
      queues = upd s.queues q (some (ps ++ (p ∷ [])));
      heap =
          upd
            (upd (upd s.heap p (some (record t { context = slept (num u.id) s.enabled }))) r
              (some (record u { status = running })))
            p (some (record t { context = slept (num u.id) s.enabled; status = blocked }));
    }

    pub sleep-eq :
        (q : ℕ) (ps : List ℕ)
        → s.queues q ≡ some ps
        → thread_sleep (some q) s ≡ some (switched r, asleep q ps)
    unfolding thread_sleep sleep_to add_to_queue interrupts_off interrupts_set
    sleep-eq q ps e =
        let ne = other_address in
        let o = record s {
          enabled = false;
          queues = upd s.queues q (some (ps ++ (p ∷ [])));
          heap = upd s.heap p (some (record t { context = slept (num u.id) s.enabled }));
        } in
        let h : o.heap r ≡ some u = ground (arith, nx.struct) in
        ground (
          arith,
          thread_id-eq,
          get_first-eq,
          nx.slot,
          nx.queue,
          run.slot,
          run.struct,
          nx.struct,
          delete-eq o h,
        )

-- What the switch from the thread `p` to the first ready thread `r` makes of the structs and the
-- table.
pub record Switches (s : Kernel) (p r : ℕ) (t u : Thread) (s' : Kernel) : Type 0 where
  pub next : s'.heap r ≡ some (record u { status = running })
  pub caller : s'.heap p ≡ some t
  pub others : (x : ℕ) → x ≢ p → x ≢ r → s'.heap x ≡ s.heap x
  pub threads : (i : ℕ) → s'.threads i ≡ s.threads i
  pub locks : (l : ℕ) → s'.locks l ≡ s.locks l

-- Where one thread runs and none has exited, yielding to any thread switches to the first thread of
-- the ready queue, which becomes RUNNING. The caller becomes READY and goes to the end of the ready
-- queue, with what it needs to restore its interrupt mask; other threads and wait queues stay as
-- they are.
pub thread_yield-any :
    (s : Kernel) (c p : ℕ) (t : Thread) (r : ℕ) (u : Thread) (rest : List ℕ)
    → Runs s c p t
    → Next s r u rest
    → (s' : Kernel) × (thread_yield any s ≡ some (switched r, s'))
      × (s'.ready_queue ≡ rest ++ (p ∷ []))
      × Switches s p r (record t { context = yielded r s.enabled; status = ready }) u s'
      × ((q : ℕ) → s'.queues q ≡ s.queues q)
thread_yield-any s c p t r u rest run nx =
    let ne = other_address s c p t run r u rest nx in
    (
      rotated s c p t run r u rest nx,
      yield_any-eq s c p t run r u rest nx,
      refl,
      record {
        next = ground arith;
        caller = ground arith;
        others = λ x a b. ground arith;
        threads = λ i. refl;
        locks = λ l. refl;
      },
      λ q. refl,
    )

-- Where one thread runs and none has exited, sleeping in a wait queue switches to the first thread
-- of the ready queue, which becomes RUNNING and leaves the ready queue. The caller becomes BLOCKED
-- and goes to the end of the wait queue; other threads and wait queues stay as they are.
pub thread_sleep-Switches :
    (s : Kernel) (c p : ℕ) (t : Thread) (r : ℕ) (u : Thread) (rest : List ℕ) (q : ℕ) (ps : List ℕ)
    → Runs s c p t
    → Next s r u rest
    → s.queues q ≡ some ps
    → (s' : Kernel) × (thread_sleep (some q) s ≡ some (switched r, s'))
      × (s'.ready_queue ≡ rest)
      × (s'.queues q ≡ some (ps ++ (p ∷ [])))
      × Switches s p r (record t { context = slept (num u.id) s.enabled; status = blocked }) u s'
      × ((x : ℕ) → x ≢ q → s'.queues x ≡ s.queues x)
thread_sleep-Switches s c p t r u rest q ps run nx e =
    let ne = other_address s c p t run r u rest nx in
    (
      asleep s c p t run r u rest nx q ps,
      sleep-eq s c p t run r u rest nx q ps e,
      refl,
      ground arith,
      record {
        next = ground arith;
        caller = ground arith;
        others = λ x a b. ground arith;
        threads = λ i. refl;
        locks = λ l. refl;
      },
      λ x ne. ground arith,
    )

-- With an empty ready queue, neither yielding to any thread nor sleeping in a queue switches: both
-- return THREAD_NONE and change nothing. Nor does a yield to oneself, which returns one's own id.
pub no_switch :
    (s : Kernel) (c p : ℕ) (t : Thread) (q : ℕ)
    → Runs s c p t
    → s.ready_queue ≡ []
    → (thread_yield any s ≡ some (returned no_thread, s))
      × (thread_sleep (some q) s ≡ some (returned no_thread, s))
      × (thread_yield self s ≡ some (returned (num c), s))
      × (thread_yield (num c) s ≡ some (returned (num c), s))
unfolding thread_yield thread_sleep yield_target get_first interrupts_off interrupts_set finish
no_switch s c p t q run e =
    let i = thread_id-eq s c p t run in
    let f = free_exited-eq s c p t run s.ready_queue in
    let h = run.below in
    (ground (arith, i, f, e), ground (arith, e), ground (arith, i, f), ground (arith, i, f, h))
