-- ===== src/Threads/Scheduled.antt =====
-- The invariant of the scheduler of threads/thread.c: which queues a thread stands in, by its status.
use ece344_os.Prelude.{
  count, ℕ, ◌+◌, ◌≤◌, ◌<◌, ◌≡◌, refl, sym, ◌∙◌, true, false, Option, none, some, arith, List, [],
  ◌∷◌, if◌then◌else◌, inl, inr, Option-cases,
}
use ece344_os.Threads.State.{max_threads, Status, running, ready, blocked, exited, Thread, Kernel}
use ece344_os.Threads.Scheduler.{is_ready}
use ece344_os.Threads.Create.{IsAllocated}
use ece344_os.Threads.Switch.{Runs, Next}
use ece344_os.Threads.Wakeup.{mem}

pub mem-count : (p : ℕ) (ps : List ℕ) → mem p ps ≡ true → 0 < count p ps
mem-count p [] h = ground (arith, h)
mem-count p (q ∷ qs) h = ground (arith, h, mem-count p qs)

pub not_mem-count : (p : ℕ) (ps : List ℕ) → mem p ps ≡ false → count p ps ≡ 0
not_mem-count p [] h = refl
not_mem-count p (q ∷ qs) h = ground (arith, h, not_mem-count p qs)

-- How often a thread has to stand in the ready queue.
abbrev pub turns : Option Thread → ℕ
turns none = 0
turns (some t) = if is_ready t.status then 1 else 0

-- The thread `c`, at the address `p`, is the only one that runs, and none has exited. Every thread has
-- its slot. The ready queue has the READY threads once each, and no others. A thread in a wait queue is
-- BLOCKED, and stands in one of them, once.
pub record IsScheduled (s : Kernel) (c p : ℕ) (t : Thread) : Type 0 where
  pub runs : Runs s c p t
  pub allocated : IsAllocated s
  pub bounded : (i x : ℕ) → s.threads i ≡ some x → i < max_threads
  pub listed : (x : ℕ) (u : Thread) → s.heap x ≡ some u → s.threads u.id ≡ some x
  pub turn : (x : ℕ) → count x s.ready_queue ≡ turns (s.heap x)
  pub waits :
      (q x : ℕ) (ps : List ℕ)
      → s.queues q ≡ some ps
      → 0 < count x ps
      → (u : Thread) × (s.heap x ≡ some u) × (u.status ≡ blocked)
  pub once : (q x : ℕ) (ps : List ℕ) → s.queues q ≡ some ps → count x ps ≤ 1
  pub apart :
      (q q' x : ℕ) (ps ps' : List ℕ)
      → s.queues q ≡ some ps
      → s.queues q' ≡ some ps'
      → 0 < count x ps
      → 0 < count x ps'
      → q ≡ q'

-- Some thread runs, and the invariant holds.
pub data Scheduled (s : Kernel) : Type 0 where
  scheduled : (c p : ℕ) (t : Thread) → IsScheduled s c p t → Scheduled s

-- The head of the ready queue is a thread that `thread_yield` can switch to.
pub data Head (s : Kernel) (r : ℕ) (rest : List ℕ) : Type 0 where
  head : (u : Thread) → Next s r u rest → Head s r rest

ready_of : (u : Thread) (n : ℕ) → turns (some u) ≡ n + 1 → u.status ≡ ready
ready_of u n h = go u.status h
  where
    go : (st : Status) → (if is_ready st then 1 else 0) ≡ n + 1 → st ≡ ready
    go ready h = refl
    go running h = absurd (omega arith)
    go blocked h = absurd (omega arith)
    go exited h = absurd (omega arith)

pub Head-of :
    (s : Kernel) (c p : ℕ) (t : Thread) (r : ℕ) (rest : List ℕ)
    → IsScheduled s c p t
    → s.ready_queue ≡ r ∷ rest
    → Head s r rest
Head-of s c p t r rest v e =
    let k : turns (s.heap r) ≡ count r rest + 1 = sym (v.turn r) ∙ rw e (ground arith) in
    elim (Option-cases (s.heap r)) [
      | inl f ↦ absurd (ground (arith, f, k))
      | inr (u, f) ↦ head u (record {
        queue = e;
        struct = f;
        slot = v.listed r u f;
        waits = ready_of u (count r rest) (rw f at k);
      })
    ]
