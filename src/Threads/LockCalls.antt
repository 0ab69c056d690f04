-- ===== src/Threads/LockCalls.antt =====
-- Creating wait queues, and creating, taking and releasing locks, and creating and signalling
-- condition variables (threads/thread.c) keep the invariant of the scheduler.
use ece344_os.Prelude.{
  ℕ, ◌≡◌, refl, ap, Bool, true, false, ◌&&◌, Option, some, arith, List, [], ◌+◌, ◌≤◌, ◌<◌, ◌==◌,
  count, upd, inl, inr, Bool-cases,
}
use ece344_os.Threads.State.{Tid, num, Lock, Kernel, interrupts_off, interrupts_set, finish}
use ece344_os.Threads.Queue.{wait_queue_create}
use ece344_os.Threads.Sync.{
  taken, waits, same_tid, acquire_round, lock_acquire, lock_release, lock_create, cv_create,
  cv_wake,
}
use ece344_os.Threads.Switch.{off, thread_id-eq}
use ece344_os.Threads.Scheduled.{Scheduled, scheduled}
use ece344_os.Threads.Calls.{Keeps, keeps}
use ece344_os.Threads.Sleeping.{thread_sleep-Keeps}
use ece344_os.Threads.Waking.{thread_wakeup-Keeps}

-- The interrupt mask, the locks, the condition variables and the addresses that are left have no part
-- in the invariant.
pub ignored :
    (s : Kernel) (b : Bool) (locks : ℕ → Option Lock) (cvs : ℕ → Option ℕ) (next : ℕ)
    → s.next ≤ next
    → Scheduled s
    → Scheduled (record s { enabled = b; locks = locks; cvs = cvs; next = next })
ignored s b locks cvs next le (scheduled c p t v) = scheduled c p t (record {
  runs = record {
    registered = record { live = v.runs.registered.live };
    slot = v.runs.slot;
    struct = v.runs.struct;
    below = v.runs.below;
    runs = v.runs.runs;
    only = v.runs.only;
    none_exited = v.runs.none_exited;
  };
  allocated = record { below = λ i x e. omega (arith, le, v.allocated.below i x e) };
  bounded = v.bounded;
  listed = v.listed;
  turn = v.turn;
  waits = v.waits;
  once = v.once;
  apart = v.apart;
})

-- A new wait queue is empty.
pub queue-Keeps : (s : Kernel) → Scheduled s → Keeps (wait_queue_create s)
unfolding wait_queue_create interrupts_off interrupts_set finish
queue-Keeps s (scheduled c p t v) =
    let s' = record s { queues = upd s.queues s.next (some []); next = s.next + 1 } in
    let old : (q x : ℕ) (ps : List ℕ)
        → s'.queues q ≡ some ps
        → 0 < count x ps
        → s.queues q ≡ some ps =
      λ q x ps e pos. elim (Bool-cases (q == s.next)) [
        | inl y ↦
            let same : [] ≡ ps = ground (arith, y, e) in
            let none_there : 0 ≡ count x ps = ap (count x) same in absurd (omega arith)
        | inr n ↦ ground (arith, n, e)
      ] in
    keeps s.next s' refl (
      scheduled c p t (record {
        runs = record {
          registered = record { live = v.runs.registered.live };
          slot = v.runs.slot;
          struct = v.runs.struct;
          below = v.runs.below;
          runs = v.runs.runs;
          only = v.runs.only;
          none_exited = v.runs.none_exited;
        };
        allocated = record { below = λ i x e. omega (arith, v.allocated.below i x e) };
        bounded = v.bounded;
        listed = v.listed;
        turn = v.turn;
        waits = λ q x ps e pos. v.waits q x ps (old q x ps e pos) pos;
        once = λ q x ps e. elim (Bool-cases (count x ps == 0)) [
          | inl z ↦ ground (arith, z)
          | inr z ↦ v.once q x ps (old q x ps e (ground (arith, z)))
        ];
        apart = λ q₁ q₂ x ps₁ ps₂ e₁ e₂ pos₁ pos₂.
            v.apart q₁ q₂ x ps₁ ps₂ (old q₁ x ps₁ e₁ pos₁) (old q₂ x ps₂ e₂ pos₂) pos₁ pos₂;
      }))

-- Creating a lock.
pub lock_create-Keeps : (owner : Tid) (s : Kernel) → Scheduled s → Keeps (lock_create owner s)
unfolding lock_create interrupts_off interrupts_set finish
lock_create-Keeps owner s v =
    let o = record s { enabled = false; next = s.next + 1 } in
    elim (queue-Keeps o (ignored s false s.locks s.cvs (s.next + 1) (omega arith) v)) [
      | keeps q s' g w ↦
          let locks =
            upd s'.locks s.next (some (record { queue = q; owner = owner; acquired = false })) in
          keeps s.next (record s' { enabled = s.enabled; locks = locks }) (ground (arith, g))
            (ignored s' s.enabled locks s'.cvs s'.next (omega arith) w)
    ]

-- One round, with interrupts off, of taking a lock whose wait queue there is: the thread has the lock,
-- or it sleeps.
pub acquire_round-Keeps :
    (b : Bool) (s : Kernel) (l : ℕ) (k : Lock) (ps : List ℕ)
    → Scheduled s
    → s.locks l ≡ some k
    → s.queues k.queue ≡ some ps
    → Keeps (acquire_round b l (off s))
unfolding acquire_round finish
acquire_round-Keeps b s l k ps (scheduled c p t v) e f = elim (Bool-cases k.acquired) [
  | inr a ↦
      let locks = upd s.locks l (some (record k { acquired = true; owner = num c })) in
      keeps taken (record s { enabled = b; locks = locks })
        (ground (arith, thread_id-eq s c p t v.runs, e, a))
        (ignored s b locks s.cvs s.next (omega arith) (scheduled c p t v))
  | inl a ↦
      elim (thread_sleep-Keeps (off s) k.queue ps
        (ignored s false s.locks s.cvs s.next (omega arith) (scheduled c p t v)) f) [
          | keeps o s' g w ↦ keeps (waits o) s' (ground (arith, e, a, g)) w
        ]
]

-- Taking a lock whose wait queue there is, up to the first sleep.
pub lock_acquire-Keeps :
    (s : Kernel) (l : ℕ) (k : Lock) (ps : List ℕ)
    → Scheduled s
    → s.locks l ≡ some k
    → s.queues k.queue ≡ some ps
    → Keeps (lock_acquire l s)
unfolding lock_acquire interrupts_off interrupts_set
lock_acquire-Keeps s l k ps v e f = acquire_round-Keeps s.enabled s l k ps v e f

-- Releasing a lock whose wait queue there is, by its owner or not.
pub lock_release-Keeps :
    (s : Kernel) (l : ℕ) (k : Lock) (ps : List ℕ)
    → Scheduled s
    → s.locks l ≡ some k
    → s.queues k.queue ≡ some ps
    → Keeps (lock_release l s)
unfolding lock_release interrupts_off interrupts_set finish
lock_release-Keeps s l k ps (scheduled c p t v) e f =
    let i = thread_id-eq s c p t v.runs in
    elim (Bool-cases (k.acquired && same_tid (num c) k.owner)) [
      | inr a ↦ keeps tt s (ground (arith, i, e, a)) (scheduled c p t v)
      | inl a ↦
          let locks = upd s.locks l (some (record k { acquired = false })) in
          let o = record s { enabled = false; locks = locks } in
          elim (thread_wakeup-Keeps o k.queue ps true
            (ignored s false locks s.cvs s.next (omega arith) (scheduled c p t v)) f) [
              | keeps n s' g w ↦
                  keeps tt (record s' { enabled = s.enabled }) (ground (arith, i, e, a, g))
                    (ignored s' s.enabled s'.locks s'.cvs s'.next (omega arith) w)
            ]
    ]

-- Creating a condition variable.
pub cv_create-Keeps : (s : Kernel) → Scheduled s → Keeps (cv_create s)
unfolding cv_create interrupts_off interrupts_set finish
cv_create-Keeps s v =
    let o = record s { enabled = false; next = s.next + 1 } in
    elim (queue-Keeps o (ignored s false s.locks s.cvs (s.next + 1) (omega arith) v)) [
      | keeps q s' g w ↦
          let cvs = upd s'.cvs s.next (some q) in
          keeps s.next (record s' { enabled = s.enabled; cvs = cvs }) (ground (arith, g))
            (ignored s' s.enabled s'.locks cvs s'.next (omega arith) w)
    ]

-- Signalling a condition variable, or broadcasting, with its lock and its wait queue there.
pub cv_wake-Keeps :
    (all : Bool) (s : Kernel) (x l q : ℕ) (k : Lock) (ps : List ℕ)
    → Scheduled s
    → s.cvs x ≡ some q
    → s.locks l ≡ some k
    → s.queues q ≡ some ps
    → Keeps (cv_wake all x l s)
unfolding cv_wake interrupts_off interrupts_set finish
cv_wake-Keeps all s x l q k ps (scheduled c p t v) d e f =
    let i = thread_id-eq s c p t v.runs in
    elim (Bool-cases (same_tid k.owner (num c))) [
      | inr a ↦ keeps tt s (ground (arith, i, d, e, a)) (scheduled c p t v)
      | inl a ↦
          let o = ignored s false s.locks s.cvs s.next (omega arith) (scheduled c p t v) in
          elim (thread_wakeup-Keeps (off s) q ps all o f) [
            | keeps n s' g w ↦
                keeps tt (record s' { enabled = s.enabled }) (ground (arith, i, d, e, a, g))
                  (ignored s' s.enabled s'.locks s'.cvs s'.next (omega arith) w)
          ]
    ]
