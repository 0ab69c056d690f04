-- ===== src/Threads/Locks.antt =====
-- The locks of threads/thread.c.
use ece344_os.Prelude.{
  ℕ, ◌≡◌, refl, true, false, some, arith, ◌∙◌, List, [], ◌∷◌, ◌++◌, upd, ◌⊎◌, if◌then◌else◌,
}
use ece344_os.Threads.State.{
  num, blocked, slept, Thread, Kernel, Lock, interrupts_off, interrupts_set, finish,
}
use ece344_os.Threads.Scheduler.{switched}
use ece344_os.Threads.Sync.{same_tid, taken, waits, acquire_round, lock_acquire, lock_release}
use ece344_os.Threads.Wakeup.{mem, made_ready, AllListed, thread_wakeup-Woken}
use ece344_os.Threads.Switch.{Runs, Next, Switches, off, thread_id-eq, thread_sleep-Switches}

-- The running thread takes a lock that is free: it becomes the owner, nothing else changes, and the
-- interrupt mask is restored.
pub lock_acquire-free :
    (s : Kernel) (c p : ℕ) (t : Thread) (l : ℕ) (k : Lock)
    → Runs s c p t
    → s.locks l ≡ some k
    → k.acquired ≡ false
    → lock_acquire l s
      ≡ some (
        taken,
        record s { locks = upd s.locks l (some (record k { acquired = true; owner = num c })) },
      )
unfolding lock_acquire acquire_round interrupts_off interrupts_set finish
lock_acquire-free s c p t l k run e f = ground (arith, thread_id-eq s c p t run, e, f)

-- The running thread that finds the lock held sleeps at the end of the lock's queue, and the first
-- ready thread runs: the lock stays as it is, so that its owner keeps it.
pub lock_acquire-held :
    (s : Kernel) (c p : ℕ) (t : Thread) (r : ℕ) (u : Thread) (rest : List ℕ) (l : ℕ) (k : Lock)
    (ps : List ℕ)
    → Runs s c p t
    → Next s r u rest
    → s.locks l ≡ some k
    → k.acquired ≡ true
    → s.queues k.queue ≡ some ps
    → (s' : Kernel) × (lock_acquire l s ≡ some (waits (switched r), s'))
      × (s'.locks l ≡ some k)
      × (s'.queues k.queue ≡ some (ps ++ (p ∷ [])))
      × (s'.ready_queue ≡ rest)
      × Switches s p r (record t { context = slept (num u.id) false; status = blocked }) u s'
unfolding lock_acquire acquire_round interrupts_off interrupts_set
lock_acquire-held s c p t r u rest l k ps run nx e f g =
    let o = off s in
    let run' : Runs o c p t = record {
      registered = record { live = run.registered.live };
      slot = run.slot;
      struct = run.struct;
      below = run.below;
      runs = run.runs;
      only = run.only;
      none_exited = run.none_exited;
    } in
    let nx' : Next o r u rest = record {
      queue = nx.queue;
      struct = nx.struct;
      slot = nx.slot;
      waits = nx.waits;
    } in
    let (s', e', q, w, sw, _) = thread_sleep-Switches o c p t r u rest k.queue ps run' nx' g in
    (
      s',
      ground (arith, e, f, e'),
      sw.locks l ∙ e,
      w,
      q,
      record {
        next = sw.next;
        caller = sw.caller;
        others = sw.others;
        threads = sw.threads;
        locks = sw.locks;
      },
    )

-- The owner of a held lock releases it, where each thread that waits for it stands in its slot of the
-- table: the lock is free, those threads are READY and go in their order to the end of the ready queue,
-- the other threads stay as they are, and the interrupt mask is restored.
pub lock_release-owner :
    (s : Kernel) (c p : ℕ) (t : Thread) (l : ℕ) (k : Lock) (ps : List ℕ)
    → Runs s c p t
    → s.locks l ≡ some k
    → k.acquired ≡ true
    → k.owner ≡ num c
    → s.queues k.queue ≡ some ps
    → AllListed s ps
    → (s' : Kernel) × (lock_release l s ≡ some (tt, s'))
      × (s'.locks l ≡ some (record k { acquired = false }))
      × (s'.ready_queue ≡ s.ready_queue ++ ps)
      × (s'.queues k.queue ≡ some [])
      × (s'.enabled ≡ s.enabled)
      × ((x : ℕ) → s'.heap x ≡ (if mem x ps then made_ready (s.heap x) else s.heap x))
unfolding lock_release interrupts_off interrupts_set finish
lock_release-owner s c p t l k ps run e f o g h =
    let s₁ = record s {
      enabled = false;
      locks = upd s.locks l (some (record k { acquired = false }));
    } in
    let (s₂, e', w) = thread_wakeup-Woken true ps s₁ k.queue g (listed ps h) in
    (
      record s₂ { enabled = s.enabled },
      ground (arith, thread_id-eq s c p t run, e, f, o, e'),
      w.locks l ∙ ground arith,
      w.ready_queue,
      w.waiting,
      refl,
      w.heap,
    )
  where
    listed :
        (qs : List ℕ)
        → AllListed s qs
        → AllListed
            (record s {
              enabled = false;
              locks = upd s.locks l (some (record k { acquired = false }));
            })
            qs
    listed [] h = tt
    listed (r ∷ rs) (h, hs) = (h, listed rs hs)

-- A thread that does not own the lock, or one that releases a free lock, changes nothing.
pub lock_release-other :
    (s : Kernel) (c p : ℕ) (t : Thread) (l : ℕ) (k : Lock)
    → Runs s c p t
    → s.locks l ≡ some k
    → (k.acquired ≡ false) ⊎ (same_tid (num c) k.owner ≡ false)
    → lock_release l s ≡ some (tt, s)
unfolding lock_release interrupts_off interrupts_set finish
lock_release-other s c p t l k run e h = ground (arith, thread_id-eq s c p t run)
