-- ===== src/Threads/History.antt =====
-- Histories of calls of threads/thread.c, from thread_init on.
use ece344_os.Prelude.{
  ◌&&◌, ap, sym, false, ℕ, ◌≡◌, refl, Bool, true, Option, some, arith, List, inl, inr, Option-cases,
}
use ece344_os.Threads.State.{
  interrupts_set, any, Lock, Tid, Context, start, yielded, slept, Thread, Kernel, finish,
}
use ece344_os.Threads.Queue.{thread_wakeup, wait_queue_create}
use ece344_os.Threads.Scheduler.{
  Outcome, Mallocs, thread_init, thread_create, thread_yield, thread_sleep, resume,
}
use ece344_os.Threads.Begun.{blank, begin-Scheduled}
use ece344_os.Threads.Interrupt.{interrupts_enabled, interrupt_handler}
use ece344_os.Threads.Scan.{free_exited-none}
use ece344_os.Threads.Switch.{off}
use ece344_os.Threads.Scheduled.{Scheduled, scheduled}
use ece344_os.Threads.Calls.{Keeps, keeps}
use ece344_os.Threads.Sleeping.{thread_sleep-Keeps}
use ece344_os.Threads.Choosing.{thread_yield-Keeps}
use ece344_os.Threads.Sync.{
  Round, thread_wait, acquire_round, cv_wait, lock_create, lock_acquire, lock_release, cv_create,
  cv_wake,
}
use ece344_os.Threads.LockCalls.{
  ignored, acquire_round-Keeps, queue-Keeps, lock_create-Keeps, cv_create-Keeps, cv_wake-Keeps,
  lock_acquire-Keeps, lock_release-Keeps,
}
use ece344_os.Threads.WaitCalls.{HasQueue, thread_wait-Keeps, cv_wait-Keeps}
use ece344_os.Threads.Waking.{thread_wakeup-Keeps}
use ece344_os.Threads.Creating.{thread_create-Keeps}

-- A call that the running thread makes, its going on when its context has been set, or a signal that
-- comes while interrupts are on. Behind the handler the mask is set again, which is a call of its own.
pub data Call (s s' : Kernel) : Type 0 where
  creates :
      (m : Mallocs) (r : Tid)
      → m.wait_queue && m.node ≡ true
      → thread_create m s ≡ some (r, s')
      → Call s s'
  yields : (want : Tid) (o : Outcome) → thread_yield want s ≡ some (o, s') → Call s s'
  sleeps :
      (q : ℕ) (ps : List ℕ) (o : Outcome)
      → s.queues q ≡ some ps
      → thread_sleep (some q) s ≡ some (o, s')
      → Call s s'
  wakes :
      (q : ℕ) (ps : List ℕ) (all : Bool) (n : ℕ)
      → s.queues q ≡ some ps
      → thread_wakeup (some q) all s ≡ some (n, s')
      → Call s s'
  acquires :
      (l : ℕ) (k : Lock) (ps : List ℕ) (o : Round)
      → s.locks l ≡ some k
      → s.queues k.queue ≡ some ps
      → lock_acquire l s ≡ some (o, s')
      → Call s s'
  releases :
      (l : ℕ) (k : Lock) (ps : List ℕ)
      → s.locks l ≡ some k
      → s.queues k.queue ≡ some ps
      → lock_release l s ≡ some (tt, s')
      → Call s s'
  makes_lock : (owner : Tid) (l : ℕ) → lock_create owner s ≡ some (l, s') → Call s s'
  makes_cv : (x : ℕ) → cv_create s ≡ some (x, s') → Call s s'
  signals :
      (all : Bool) (x l q : ℕ) (k : Lock) (ps : List ℕ)
      → s.cvs x ≡ some q
      → s.locks l ≡ some k
      → s.queues q ≡ some ps
      → cv_wake all x l s ≡ some (tt, s')
      → Call s s'
  tries_again :
      (b : Bool) (l : ℕ) (k : Lock) (ps : List ℕ) (o : Round)
      → s.enabled ≡ false
      → s.locks l ≡ some k
      → s.queues k.queue ≡ some ps
      → acquire_round b l s ≡ some (o, s')
      → Call s s'
  joins : (tid : Tid) (o : Outcome) → HasQueue s tid → thread_wait tid s ≡ some (o, s') → Call s s'
  awaits :
      (x l q : ℕ) (k : Lock) (qs ps : List ℕ) (o : Round)
      → s.cvs x ≡ some q
      → s.locks l ≡ some k
      → s.queues q ≡ some qs
      → s.queues k.queue ≡ some ps
      → cv_wait x l s ≡ some (o, s')
      → Call s s'
  masks : (e old : Bool) → interrupts_set e s ≡ some (old, s') → Call s s'
  preempts :
      (o : Outcome)
      → s.enabled ≡ true
      → interrupt_handler (record s { enabled = false }) ≡ some (o, s')
      → Call s s'
  makes_queue : (q : ℕ) → wait_queue_create s ≡ some (q, s') → Call s s'
  resumes : (p : ℕ) (r : Tid) → resume p s ≡ some (r, s') → Call s s'

-- The states that such calls lead to.
pub data Reach : Kernel → Type 0 where
  begins :
      {s : Kernel} (zeroed : Bool) (k : ℕ) → thread_init zeroed k blank ≡ some (tt, s) → Reach s
  goes_on : {s s' : Kernel} → Reach s → Call s s' → Reach s'

state_of :
    {A : Type 0} {r : Option (A × Kernel)} {a : A} {s' : Kernel}
    → Keeps r
    → r ≡ some (a, s')
    → Scheduled s'
state_of {s'} (keeps b u e v) f = let same : u ≡ s' = ground (arith, e, f) in rw same at v

-- Setting a context again changes the interrupt mask at most.
resume-mask :
    (s s' : Kernel) (p : ℕ) (r : Tid)
    → Scheduled s
    → resume p s ≡ some (r, s')
    → (b : Bool) × (s' ≡ record s { enabled = b })
unfolding resume finish
resume-mask s s' p r (scheduled c q t v) e = elim (Option-cases (s.heap p)) [
  | inl f ↦ absurd (ground (arith, e, f))
  | inr (u, f) ↦ by_context u f u.context refl
]
  where
    by_context :
        (u : Thread)
        → s.heap p ≡ some u
        → (k : Context) → u.context ≡ k
        → (b : Bool) × (s' ≡ record s { enabled = b })
    by_context u f start k = (true, ground (arith, e, f, k))
    by_context u f (yielded x b) k = (b, ground (arith, e, f, k))
    by_context u f (slept x b) k =
        let none_freed = free_exited-none s v.runs.registered v.runs.none_exited in
        (b, ground (arith, e, f, k, none_freed))

-- The handler passes its assert, and returns or switches.
interrupt_handler-Keeps :
    (s : Kernel) → Scheduled s → Keeps (interrupt_handler (record s { enabled = false }))
unfolding interrupt_handler interrupts_enabled
interrupt_handler-Keeps s v =
    let o = record s { enabled = false } in
    thread_yield-Keeps o any (ignored s false s.locks s.cvs s.next (omega arith) v)

-- Each call keeps the invariant.
Call-Scheduled : {s s' : Kernel} → Call s s' → Scheduled s → Scheduled s'
unfolding interrupts_set
Call-Scheduled {s} (creates m r ok e) v = state_of (thread_create-Keeps m s ok v) e
Call-Scheduled {s} (yields want o e) v = state_of (thread_yield-Keeps s want v) e
Call-Scheduled {s} (sleeps q ps o f e) v = state_of (thread_sleep-Keeps s q ps v f) e
Call-Scheduled {s} (wakes q ps all n f e) v = state_of (thread_wakeup-Keeps s q ps all v f) e
Call-Scheduled {s} (acquires l k ps o e f g) v = state_of (lock_acquire-Keeps s l k ps v e f) g
Call-Scheduled {s} (releases l k ps e f g) v = state_of (lock_release-Keeps s l k ps v e f) g
Call-Scheduled {s} (makes_lock owner l e) v = state_of (lock_create-Keeps owner s v) e
Call-Scheduled {s} (makes_cv x e) v = state_of (cv_create-Keeps s v) e
Call-Scheduled {s} (signals all x l q k ps d e f g) v =
    state_of (cv_wake-Keeps all s x l q k ps v d e f) g
Call-Scheduled {s} {s'} (tries_again b l k ps o m e f g) v =
    let same : off s ≡ s = ap (λ z. record s { enabled = z }) (sym m) in
    let again : acquire_round b l (off s) ≡ some (o, s') = rw same g in
    state_of (acquire_round-Keeps b s l k ps v e f) again
Call-Scheduled {s} (joins tid o has e) v = state_of (thread_wait-Keeps s tid has v) e
Call-Scheduled {s} (awaits x l q k qs ps o d e g f h) v =
    state_of (cv_wait-Keeps s x l q k qs ps v d e g f) h
Call-Scheduled {s} {s'} (masks e old f) v =
    let same : record s { enabled = e } ≡ s' = ground (arith, f) in
    rw same at (ignored s e s.locks s.cvs s.next (omega arith) v)
Call-Scheduled {s} (preempts o h e) v = state_of (interrupt_handler-Keeps s v) e
Call-Scheduled {s} (makes_queue q e) v = state_of (queue-Keeps s v) e
Call-Scheduled {s} {s'} (resumes p r e) v =
    let (b, same) = resume-mask s s' p r v e in
    rw same (ignored s b s.locks s.cvs s.next (omega arith) v)

-- In every state that calls of thread_create, thread_yield, thread_sleep, thread_wakeup,
-- wait_queue_create, thread_wait, lock_create, lock_acquire, lock_release, cv_create, cv_wait, cv_signal,
-- cv_broadcast and interrupts_set, threads that go on, and signals that come while interrupts are on lead
-- to from thread_init, whatever the memory of new structs holds, one thread runs, the ready queue has the
-- READY threads once each and no others, and the threads in wait queues are BLOCKED, each in one of them.
-- Calls that sleep in or wake a wait queue, thread_wait included, are made on one that there is: the
-- queue of a thread is not if the head of it did not hold zeros. In thread_create, malloc fails at most
-- where it is tested.
pub Reach-Scheduled : (s : Kernel) → Reach s → Scheduled s
Reach-Scheduled s (begins zeroed k e) = begin-Scheduled zeroed k s e
Reach-Scheduled s (goes_on {s = before} r call) = Call-Scheduled call (Reach-Scheduled before r)
