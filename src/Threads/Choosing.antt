-- ===== src/Threads/Choosing.antt =====
-- thread_yield of threads/thread.c for every argument: a chosen thread, any, oneself, or none there is.
use ece344_os.Prelude.{
  ℕ, ◌<◌, ◌≡◌, refl, sym, ap, ◌∙◌, true, false, some, arith, List, [], ◌∷◌, count, ltb, ◌==◌,
  if◌then◌else◌, inl, inr, Bool-cases, Option-cases,
}
use ece344_os.Threads.State.{
  Tid, num, neg, invalid, max_threads, Status, running, ready, blocked, exited, Thread, Kernel,
  interrupts_off, interrupts_set, finish,
}
use ece344_os.Threads.Queue.{add_to_queue, delete_from_queue}
use ece344_os.Threads.Scheduler.{is_ready, returned, switched, yield_target, yield_to, thread_yield}
use ece344_os.Threads.Switch.{Next, off, thread_id-eq, free_exited-eq, other_address, rotated}
use ece344_os.Threads.Scheduled.{IsScheduled, Scheduled, scheduled}
use ece344_os.Threads.Calls.{Keeps, keeps, rotated-IsScheduled, yield_any-Keeps}

-- A list without the first `r` in it.
abbrev without : ℕ → List ℕ → List ℕ
without r [] = []
without r (x ∷ xs) = if x == r then xs else x ∷ without r xs

count-without : (r x : ℕ) (ps : List ℕ) → 0 < count r ps → count x (r ∷ without r ps) ≡ count x ps
count-without r x [] h = absurd (omega arith)
count-without r x (y ∷ ys) h = elim (Bool-cases (y == r)) [
  | inl e ↦ ground (arith, e)
  | inr n ↦
      let more : 0 < count r ys = ground (arith, n, h) in
      ground (arith, n, count-without r x ys more)
]

delete_from_queue-without :
    (o : Kernel) (id r : ℕ) (ps : List ℕ)
    → ((x : ℕ) → 0 < count x ps → (w : Thread) × (o.heap x ≡ some w) × ((w.id == id) ≡ (x == r)))
    → delete_from_queue ps id o ≡ some (without r ps, o)
unfolding delete_from_queue
delete_from_queue-without o id r [] h = refl
delete_from_queue-without o id r (x ∷ xs) h =
    let (w, e, same) = h x (ground arith) in
    let rest = delete_from_queue-without o id r xs (λ y pos. h y (ground arith)) in
    elim (Bool-cases (x == r)) [
      | inl y ↦ ground (arith, e, same, y, rest)
      | inr n ↦ ground (arith, e, same, n, rest)
    ]

-- The yield of the running thread `c` to the READY thread `u`, wherever it stands in the ready queue.
module _ (s : Kernel) (c p : ℕ) (t : Thread) (v : IsScheduled s c p t) (r : ℕ) (u : Thread)
    (struct : s.heap r ≡ some u) (waits : u.status ≡ ready) where
  in_queue : 0 < count r s.ready_queue
  in_queue = ground (arith, v.turn r, struct, waits)

  queued :
      (x : ℕ)
      → 0 < count x s.ready_queue
      → (w : Thread) × (s.heap x ≡ some w) × ((w.id == u.id) ≡ (x == r))
  queued x pos = elim (Option-cases (s.heap x)) [
    | inl e ↦ absurd (ground (arith, v.turn x, e, pos))
    | inr (w, e) ↦ elim (Bool-cases (x == r)) [
      | inl y ↦
          let same : some w ≡ some u = sym e ∙ ground (arith, y, struct) in
          (w, e, ground (arith, same, y))
      | inr n ↦ elim (Bool-cases (w.id == u.id)) [
        | inl y ↦
            let at : w.id ≡ u.id = ground (arith, y) in
            let z : some x ≡ some r =
              sym (v.listed x w e) ∙ ap s.threads at ∙ v.listed r u struct in
            absurd (ground (arith, z, n))
        | inr m ↦ (w, e, ground (arith, n, m))
      ]
    ]
  ]

  abbrev others : List ℕ
  others = without r s.ready_queue

  -- The same state with the chosen thread at the head of the ready queue.
  abbrev front : Kernel
  front = record s { ready_queue = r ∷ others }

  front-IsScheduled : IsScheduled front c p t
  front-IsScheduled = record {
    runs = record {
      registered = record { live = v.runs.registered.live };
      slot = v.runs.slot;
      struct = v.runs.struct;
      below = v.runs.below;
      runs = v.runs.runs;
      only = v.runs.only;
      none_exited = v.runs.none_exited;
    };
    allocated = record { below = v.allocated.below };
    bounded = v.bounded;
    listed = v.listed;
    turn = λ x. count-without r x s.ready_queue in_queue ∙ v.turn x;
    waits = v.waits;
    once = v.once;
    apart = v.apart;
  }

  front-Next : Next front r u others
  front-Next = record { queue = refl; struct = struct; slot = v.listed r u struct; waits = waits }

  abbrev chosen : Kernel
  chosen = rotated front c p t front-IsScheduled.runs r u others front-Next

  yield_to-eq : yield_to s.enabled (num c) u.id (off s) ≡ some (switched r, chosen)
  unfolding yield_to add_to_queue
  yield_to-eq =
      let ne = other_address front c p t front-IsScheduled.runs r u others front-Next in
      ground (
        arith,
        v.listed r u struct,
        v.runs.slot,
        v.runs.struct,
        struct,
        delete_from_queue-without (off s) u.id r s.ready_queue queued,
        free_exited-eq s c p t v.runs others,
      )

  another : (u.id == c) ≡ false
  another = elim (Bool-cases (u.id == c)) [
    | inr n ↦ n
    | inl y ↦
        let ne = other_address front c p t front-IsScheduled.runs r u others front-Next in
        let at : u.id ≡ c = ground (arith, y) in
        let z : some r ≡ some p = sym (v.listed r u struct) ∙ ap s.threads at ∙ v.runs.slot in
        absurd (ground (arith, z))
  ]

  yield_num-eq : thread_yield (num u.id) s ≡ some (switched r, chosen)
  unfolding thread_yield yield_target interrupts_off interrupts_set
  yield_num-eq = ground (
    arith,
    thread_id-eq s c p t v.runs,
    free_exited-eq s c p t v.runs s.ready_queue,
    v.bounded u.id r (v.listed r u struct),
    another,
    v.listed r u struct,
    struct,
    waits,
    yield_to-eq,
  )

  yield_ready-Keeps : Keeps (thread_yield (num u.id) s)
  yield_ready-Keeps = keeps (switched r) chosen yield_num-eq (
      scheduled u.id r (record u { status = running })
        (rotated-IsScheduled front c p t front-IsScheduled r u others front-Next))

ready-is_ready : (st : Status) → is_ready st ≡ true → st ≡ ready
ready-is_ready ready h = refl
ready-is_ready running h = absurd (ground (arith, h))
ready-is_ready blocked h = absurd (ground (arith, h))
ready-is_ready exited h = absurd (ground (arith, h))

module _ (s : Kernel) (c p : ℕ) (t : Thread) (v : IsScheduled s c p t) where
  -- A yield that does not switch.
  returned-Keeps :
      (want r : Tid)
      → yield_target (num c) want (off s) ≡ some (inl r, off s)
      → Keeps (thread_yield want s)
  unfolding thread_yield interrupts_off interrupts_set finish
  returned-Keeps want r e =
      let returns : thread_yield want s ≡ some (returned r, s) =
        ground
          (arith, thread_id-eq s c p t v.runs, free_exited-eq s c p t v.runs s.ready_queue, e) in
      keeps (returned r) s returns (scheduled c p t v)

  yield_num-Keeps : (want : ℕ) → Keeps (thread_yield (num want) s)
  unfolding yield_target
  yield_num-Keeps want =
      let me = thread_id-eq s c p t v.runs in
      elim (Bool-cases (ltb want max_threads)) [
        | inr h ↦ returned-Keeps (num want) invalid (ground (arith, h))
        | inl h ↦ elim (Bool-cases (c == want)) [
          | inl e ↦ returned-Keeps (num want) (num c) (ground (arith, h, me, e))
          | inr n ↦ elim (Option-cases (s.threads want)) [
            | inl e ↦ returned-Keeps (num want) invalid (ground (arith, h, me, n, e))
            | inr (x, e) ↦
                let (w, f, id) = v.runs.registered.live want x e in
                elim (Bool-cases (is_ready w.status)) [
                  | inr a ↦ returned-Keeps (num want) invalid (ground (arith, h, me, n, e, f, a))
                  | inl a ↦ rw id at (yield_ready-Keeps s c p t v x w f (ready-is_ready w.status a))
                ]
          ]
        ]
      ]

-- Yielding to a thread, to any, or to oneself returns or switches, and keeps the invariant.
pub thread_yield-Keeps : (s : Kernel) (want : Tid) → Scheduled s → Keeps (thread_yield want s)
unfolding yield_target
thread_yield-Keeps s (num want) (scheduled c p t v) = yield_num-Keeps s c p t v want
thread_yield-Keeps s (neg n) (scheduled c p t v) = elim (Bool-cases (n == 2)) [
  | inl y ↦ returned-Keeps s c p t v (neg n) (num c) (ground (arith, y))
  | inr a ↦ elim (Bool-cases (n == 1)) [
    | inl y ↦ let at : 1 ≡ n = ground (arith, y) in rw at at (yield_any-Keeps s (scheduled c p t v))
    | inr b ↦ returned-Keeps s c p t v (neg n) invalid (ground (arith, a, b))
  ]
]
