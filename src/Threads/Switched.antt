-- ===== src/Threads/Switched.antt =====
-- What a switch of threads/thread.c from one thread to another does to the invariant of the scheduler.
use ece344_os.Prelude.{
  count, ℕ, ◌<◌, ◌≡◌, ◌≢◌, refl, sym, ap, ◌∙◌, Bool, true, false, none, some, arith, List, ◌∷◌,
  ◌==◌, if◌then◌else◌, inl, inr, Bool-cases, Option-cases,
}
use ece344_os.Threads.State.{max_threads, Status, running, ready, blocked, Context, Thread, Kernel}
use ece344_os.Threads.Scheduler.{is_running, is_exited}
use ece344_os.Threads.Scan.{Registered, holds}
use ece344_os.Threads.Create.{IsAllocated}
use ece344_os.Threads.Switch.{Runs, Next, other_address}
use ece344_os.Threads.Scheduled.{turns, IsScheduled}

-- What a switch from the thread `t` at `p` to `u` at `r` leaves, whatever becomes of the queues: the
-- caller has the status `st`.
module _ (s : Kernel) (c p : ℕ) (t : Thread) (v : IsScheduled s c p t) (r : ℕ) (u : Thread)
    (rest : List ℕ) (nx : Next s r u rest) (k : Context) (st : Status)
    (idle : is_running st ≡ false) (alive : is_exited st ≡ false) (s' : Kernel)
    (table : (i : ℕ) → s'.threads i ≡ s.threads i) (next : s.next ≡ s'.next)
    (heap : (x : ℕ)
      → s'.heap x ≡ (
          if x == p
          then some (record t { context = k; status = st })
          else if x == r
          then some (record u { status = running })
          else s.heap x)) where
  run : Runs s c p t
  run = v.runs

  apart_addresses : r ≢ p
  apart_addresses = other_address s c p t run r u rest nx

  switch-Registered : Registered s'
  switch-Registered = record {
    live = λ i x e.
        let (w, f, g) = run.registered.live i x (sym (table i) ∙ e) in
        elim (Bool-cases (x == p)) [
          | inl y ↦
              let z : s.heap x ≡ some t = ground (arith, y, run.struct) in
              (
                record t { context = k; status = st },
                ground (arith, heap x, y),
                ground (arith, z, f, g),
              )
          | inr n ↦ elim (Bool-cases (x == r)) [
            | inl y ↦
                let z : s.heap x ≡ some u = ground (arith, y, nx.struct) in
                (
                  record u { status = running },
                  ground (arith, heap x, n, y),
                  ground (arith, z, f, g),
                )
            | inr m ↦ (w, ground (arith, heap x, n, m, f), g)
          ]
        ];
  }

  -- What a slot holds now.
  holds-switch :
      (j x : ℕ) (test : Status → Bool)
      → s.threads j ≡ some x
      → holds s' test j ≡ (
          if x == p
          then test st
          else if x == r
          then test running
          else elim (s.heap x) [ none ↦ false | some w ↦ test w.status ])
  holds-switch j x test e = elim (Bool-cases (x == p)) [
    | inl y ↦ ground (arith, table j, e, heap x, y)
    | inr n ↦ elim (Bool-cases (x == r)) [
      | inl y ↦ ground (arith, table j, e, heap x, n, y)
      | inr m ↦ ground (arith, table j, e, heap x, n, m)
    ]
  ]

  only_next : (j : ℕ) → holds s' is_running j ≡ true → j ≡ u.id
  only_next j h = elim (Option-cases (s.threads j)) [
    | inl e ↦ absurd (ground (arith, table j, e, h))
    | inr (x, e) ↦
        let now = holds-switch j x is_running e in
        elim (Bool-cases (x == p)) [
          | inl y ↦ absurd (ground (arith, now, y, idle, h))
          | inr n ↦ elim (Bool-cases (x == r)) [
            | inl y ↦
                let (w, f, g) = run.registered.live j x e in
                let same : some w ≡ some u = sym f ∙ ground (arith, y, nx.struct) in
                ground (arith, same, g)
            | inr m ↦
                let before : holds s is_running j ≡ true = ground (arith, e, now, n, m, h) in
                let at : j ≡ c = run.only j before in
                let z : s.threads j ≡ some p = rw at run.slot in absurd (ground (arith, e, z, n))
          ]
        ]
  ]

  none_exited' : (j : ℕ) → j < max_threads → holds s' is_exited j ≡ false
  none_exited' j h = elim (Option-cases (s.threads j)) [
    | inl e ↦ ground (arith, table j, e)
    | inr (x, e) ↦ ground (arith, holds-switch j x is_exited e, alive, run.none_exited j h, e)
  ]

  pub switch-Runs : Runs s' u.id r (record u { status = running })
  switch-Runs = record {
    registered = switch-Registered;
    slot = table u.id ∙ nx.slot;
    struct = let ne = apart_addresses in ground (arith, heap r);
    below = v.bounded u.id r nx.slot;
    runs = refl;
    only = only_next;
    none_exited = none_exited';
  }

  pub switch-IsAllocated : IsAllocated s'
  switch-IsAllocated = record {
    below = λ i x e. omega (arith, next, v.allocated.below i x (sym (table i) ∙ e));
  }

  pub switch-listed : (x : ℕ) (w : Thread) → s'.heap x ≡ some w → s'.threads w.id ≡ some x
  switch-listed x w e = elim (Bool-cases (x == p)) [
    | inl y ↦
        let same : record t { context = k; status = st } ≡ w = ground (arith, heap x, y, e) in
        let id : w.id ≡ t.id = sym (ap (λ (z : Thread). z.id) same) in
        let here : x ≡ p = ground (arith, y) in
        rw id (rw here (table t.id ∙ v.listed p t run.struct))
    | inr n ↦ elim (Bool-cases (x == r)) [
      | inl y ↦
          let same : record u { status = running } ≡ w = ground (arith, heap x, n, y, e) in
          let id : w.id ≡ u.id = sym (ap (λ (z : Thread). z.id) same) in
          let here : x ≡ r = ground (arith, y) in
          rw id (rw here (table u.id ∙ v.listed r u nx.struct))
      | inr m ↦ table w.id ∙ v.listed x w (ground (arith, heap x, n, m, e))
    ]
  ]

  -- A thread that waits is neither the caller nor the next one.
  pub waits_not_caller : (q : ℕ) (ps : List ℕ) → s.queues q ≡ some ps → count p ps ≡ 0
  waits_not_caller q ps e = elim (Bool-cases (count p ps == 0)) [
    | inl z ↦ ground (arith, z)
    | inr z ↦
        let (w, f, b) = v.waits q p ps e (ground (arith, z)) in
        let same : some w ≡ some t = sym f ∙ run.struct in
        let d : blocked ≡ running = sym b ∙ ground (arith, same, run.runs) in cc
  ]

  waits_not_next : (q : ℕ) (ps : List ℕ) → s.queues q ≡ some ps → count r ps ≡ 0
  waits_not_next q ps e = elim (Bool-cases (count r ps == 0)) [
    | inl z ↦ ground (arith, z)
    | inr z ↦
        let (w, f, b) = v.waits q r ps e (ground (arith, z)) in
        let same : some w ≡ some u = sym f ∙ nx.struct in
        let d : blocked ≡ ready = sym b ∙ ground (arith, same, nx.waits) in cc
  ]

  pub still_waits :
      (q x : ℕ) (ps : List ℕ)
      → s.queues q ≡ some ps
      → 0 < count x ps
      → (w : Thread) × (s'.heap x ≡ some w) × (w.status ≡ blocked)
  still_waits q x ps e pos =
      let (w, f, b) = v.waits q x ps e pos in
      elim (Bool-cases (x == p)) [
        | inl y ↦
            let here : x ≡ p = ground (arith, y) in
            let z : count x ps ≡ 0 = rw here (waits_not_caller q ps e) in absurd (omega arith)
        | inr n ↦ elim (Bool-cases (x == r)) [
          | inl y ↦
              let here : x ≡ r = ground (arith, y) in
              let z : count x ps ≡ 0 = rw here (waits_not_next q ps e) in absurd (omega arith)
          | inr m ↦ (w, ground (arith, heap x, n, m, f), b)
        ]
      ]

  -- The ready queue without the next thread.
  pub turn_rest :
      (x : ℕ) → count x rest ≡ (if x == p then 0 else if x == r then 0 else turns (s.heap x))
  turn_rest x =
      let ne = apart_addresses in
      let turn : count x (r ∷ rest) ≡ turns (s.heap x) = ground (arith, v.turn x, nx.queue) in
      elim (Bool-cases (x == p)) [
        | inl y ↦
            let z : s.heap x ≡ some t = ground (arith, y, run.struct) in
            ground (arith, y, turn, z, run.runs)
        | inr n ↦ elim (Bool-cases (x == r)) [
          | inl y ↦
              let z : s.heap x ≡ some u = ground (arith, y, nx.struct) in
              ground (arith, n, y, turn, z, nx.waits)
          | inr m ↦ ground (arith, n, m, turn)
        ]
      ]
