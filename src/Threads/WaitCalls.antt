-- ===== src/Threads/WaitCalls.antt =====
-- thread_wait and cv_wait (threads/thread.c) keep the invariant of the scheduler.
use ece344_os.Prelude.{
  ℕ, ◌≡◌, refl, sym, ap, ◌∙◌, Bool, true, false, ◌&&◌, some, arith, List, ◌==◌, ltb, upd, inl, inr,
  Bool-cases, Option-cases,
}
use ece344_os.Threads.State.{
  Tid, num, neg, invalid, max_threads, Lock, Thread, Kernel, interrupts_off, interrupts_set, finish,
}
use ece344_os.Threads.Scheduler.{returned, switched, other_thread}
use ece344_os.Threads.Sync.{waits, same_tid, thread_wait, lock_release, sleep_then_acquire, cv_wait}
use ece344_os.Threads.Switch.{off, thread_id-eq}
use ece344_os.Threads.Scheduled.{Scheduled, scheduled}
use ece344_os.Threads.Calls.{Keeps, keeps}
use ece344_os.Threads.Sleeping.{sleep_in, thread_sleep-Keeps}
use ece344_os.Threads.Waking.{thread_wakeup-Scheduled}
use ece344_os.Threads.LockCalls.{ignored, acquire_round-Keeps}

-- The thread of an id, if there is one, has its wait queue.
abbrev pub HasQueue : Kernel → Tid → Type 0
HasQueue s tid =
    (i x : ℕ) (u : Thread)
    → tid ≡ num i
    → s.threads i ≡ some x
    → s.heap x ≡ some u
    → (ps : List ℕ) × (s.queues u.queue ≡ some ps)

-- Waiting for a thread that has its wait queue, or for an id that no thread has: the call returns or
-- sleeps.
pub thread_wait-Keeps :
    (s : Kernel) (tid : Tid) → HasQueue s tid → Scheduled s → Keeps (thread_wait tid s)
unfolding thread_wait other_thread interrupts_off interrupts_set finish
thread_wait-Keeps s (neg n) has v = keeps (returned invalid) s (ground arith) v
thread_wait-Keeps s (num i) has (scheduled c p t v) =
    let me = thread_id-eq s c p t v.runs in
    let w = ignored s false s.locks s.cvs s.next (omega arith) (scheduled c p t v) in
    let refused : thread_wait (num i) s ≡ some (returned invalid, s)
        → Keeps (thread_wait (num i) s) =
      λ e. keeps (returned invalid) s e (scheduled c p t v) in
    elim (Bool-cases (ltb i max_threads)) [
      | inr h ↦ refused (ground (arith, me, h))
      | inl h ↦ elim (Option-cases (s.threads i)) [
        | inl e ↦ refused (ground (arith, me, h, e))
        | inr (x, e) ↦ elim (Bool-cases (c == i)) [
          | inl y ↦ refused (ground (arith, me, h, e, y))
          | inr n ↦
              let (u, f, _) = v.runs.registered.live i x e in
              let (ps, g) = has i x u refl e f in
              elim (thread_sleep-Keeps (off s) u.queue ps w g) [
                | keeps (switched q) s' k w' ↦
                    keeps (switched q) s' (ground (arith, me, h, e, n, f, k)) w'
                | keeps (returned r) s' k w' ↦
                    keeps (returned (num i)) (record s' { enabled = s.enabled })
                      (ground (arith, me, h, e, n, f, k))
                      (ignored s' s.enabled s'.locks s'.cvs s'.next (omega arith) w')
              ]
        ]
      ]
    ]

-- What releasing a lock keeps for those who wait: the wait queues are there, the lock has its own, and
-- the mask is as before.
record Released (s : Kernel) (l : ℕ) (k : Lock) (s' : Kernel) : Type 0 where
  holds : Scheduled s'
  there : (x : ℕ) (qs : List ℕ) → s.queues x ≡ some qs → (rs : List ℕ) × (s'.queues x ≡ some rs)
  lock : (k' : Lock) × (s'.locks l ≡ some k') × (k'.queue ≡ k.queue)
  masked : s'.enabled ≡ s.enabled

lock_release-Released :
    (s : Kernel) (l : ℕ) (k : Lock) (ps : List ℕ)
    → Scheduled s
    → s.locks l ≡ some k
    → s.queues k.queue ≡ some ps
    → (s' : Kernel) × (lock_release l s ≡ some (tt, s')) × Released s l k s'
unfolding lock_release interrupts_off interrupts_set finish
lock_release-Released s l k ps (scheduled c p t v) e f =
    let i = thread_id-eq s c p t v.runs in
    elim (Bool-cases (k.acquired && same_tid (num c) k.owner)) [
      | inr a ↦ (
        s,
        ground (arith, i, e, a),
        record {
          holds = scheduled c p t v;
          there = λ x qs g. (qs, g);
          lock = (k, e, refl);
          masked = refl;
        },
      )
      | inl a ↦
          let free = record k { acquired = false } in
          let locks = upd s.locks l (some free) in
          let o = record s { enabled = false; locks = locks } in
          let (s', g, w, holds, there) =
            thread_wakeup-Scheduled o k.queue ps true
              (ignored s false locks s.cvs s.next (omega arith) (scheduled c p t v)) f in
          (
            record s' { enabled = s.enabled },
            ground (arith, i, e, a, g),
            record {
              holds = ignored s' s.enabled s'.locks s'.cvs s'.next (omega arith) holds;
              there = there;
              lock = (free, w.locks l ∙ ground arith, refl);
              masked = refl;
            },
          )
    ]

cv_sleep-Keeps :
    (b : Bool) (s : Kernel) (q l : ℕ) (k : Lock) (qs ps : List ℕ)
    → Scheduled s
    → s.enabled ≡ false
    → s.locks l ≡ some k
    → s.queues q ≡ some qs
    → s.queues k.queue ≡ some ps
    → Keeps (sleep_then_acquire b q l s)
cv_sleep-Keeps b s q l k qs ps v m e g f = elim (sleep_in s q qs v g) [
  | inl (r, s', h, w) ↦ keeps (waits (switched r)) s' (ground (arith, h)) w
  | inr h ↦
      let same : off s ≡ s = ap (λ z. record s { enabled = z }) (sym m) in
      elim (acquire_round-Keeps b s l k ps v e f) [
        | keeps o s' y w ↦ keeps o s' (ground (arith, h, y, same)) w
      ]
]

-- Waiting for a condition variable, with its lock and both wait queues there, up to the first sleep:
-- the caller sleeps, or has the lock.
pub cv_wait-Keeps :
    (s : Kernel) (x l q : ℕ) (k : Lock) (qs ps : List ℕ)
    → Scheduled s
    → s.cvs x ≡ some q
    → s.locks l ≡ some k
    → s.queues q ≡ some qs
    → s.queues k.queue ≡ some ps
    → Keeps (cv_wait x l s)
unfolding cv_wait interrupts_off interrupts_set
cv_wait-Keeps s x l q k qs ps (scheduled c p t v) d e g f =
    let me = thread_id-eq s c p t v.runs in
    let w = ignored s false s.locks s.cvs s.next (omega arith) (scheduled c p t v) in
    elim (Bool-cases (same_tid k.owner (num c))) [
      | inr a ↦ elim (acquire_round-Keeps s.enabled s l k ps (scheduled c p t v) e f) [
        | keeps r s' h z ↦ keeps r s' (ground (arith, me, d, e, a, h)) z
      ]
      | inl a ↦
          let (s₁, h, rel) = lock_release-Released (off s) l k ps w e f in
          let (qs', g') = rel.there q qs g in
          let (ps', f') = rel.there k.queue ps f in
          let (k', e', same) = rel.lock in
          elim (cv_sleep-Keeps s.enabled s₁ q l k' qs' ps' rel.holds rel.masked e' g'
            (rw same f')) [ keeps r s' y z ↦ keeps r s' (ground (arith, me, d, e, a, h, y)) z ]
    ]
