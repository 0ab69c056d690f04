-- ===== src/Threads/Create.antt =====
-- thread_create of threads/thread.c.
use ece344_os.Prelude.{
  ℕ, ◌+◌, ◌<◌, ◌≡◌, ◌≢◌, refl, Bool, true, false, ◌&&◌, Option, none, some, arith, inl, inr, [],
  ◌∷◌, ◌++◌, ◌==◌, if◌then◌else◌, Bool-cases,
}
use ece344_os.Threads.State.{
  new_queue, Tid, num, nomore, nomemory, max_threads, ready, start, Kernel, interrupts_off,
  interrupts_set, finish,
}
use ece344_os.Threads.Queue.{add_to_queue}
use ece344_os.Threads.Scheduler.{Mallocs, get_id, new_thread, thread_create}
use ece344_os.Threads.Scan.{Registered, is_free, get_id_lem}

-- The addresses in the table have been allocated.
pub record IsAllocated (s : Kernel) : Type 0 where
  pub below : (i p : ℕ) → s.threads i ≡ some p → p < s.next

-- The state `s'` has the new thread `i`, at the address `s.next`.
pub record Created (zeroed : Bool) (s : Kernel) (i : ℕ) (s' : Kernel) : Type 0 where
  pub slot : (j : ℕ) → s'.threads j ≡ (if j == i then some s.next else s.threads j)
  pub struct :
      s'.heap s.next
      ≡ some (record { id = i; status = ready; context = start; killmepls = 0; queue = s.next + 1 })
  pub other_structs : (p : ℕ) → p ≢ s.next → s'.heap p ≡ s.heap p
  pub ready_queue : s'.ready_queue ≡ s.ready_queue ++ (s.next ∷ [])
  pub wait_queue : s'.queues (s.next + 1) ≡ new_queue zeroed
  pub other_queues : (q : ℕ) → q ≢ s.next + 1 → s'.queues q ≡ s.queues q
  pub enabled : s'.enabled ≡ s.enabled
  pub registered : Registered s'
  pub allocated : IsAllocated s'

abbrev added : Bool → Kernel → ℕ → Kernel
added zeroed s i = record s {
  heap = λ p.
      if p == s.next
      then some
          (record { id = i; status = ready; context = start; killmepls = 0; queue = s.next + 1 })
      else s.heap p;
  queues = λ q. if q == s.next + 1 then new_queue zeroed else s.queues q;
  threads = λ j. if j == i then some s.next else s.threads j;
  ready_queue = s.ready_queue ++ (s.next ∷ []);
  next = s.next + 2;
}

new_thread-eq :
    (zeroed : Bool) (s : Kernel) (i : ℕ) → new_thread zeroed i s ≡ some (tt, added zeroed s i)
unfolding new_thread add_to_queue
new_thread-eq zeroed s i = refl

added-Created :
    (zeroed : Bool) (s : Kernel) (i : ℕ)
    → Registered s
    → IsAllocated s
    → Created zeroed s i (added zeroed s i)
added-Created zeroed s i reg old = record {
  slot = λ j. refl;
  struct = ground arith;
  other_structs = λ p h. ground arith;
  ready_queue = refl;
  wait_queue = ground arith;
  other_queues = λ q ne. ground arith;
  enabled = refl;
  registered = record {
    live = λ j p e. elim (Bool-cases (j == i)) [
      | inl y ↦ (
        record { id = i; status = ready; context = start; killmepls = 0; queue = s.next + 1 },
        ground arith,
        ground arith,
      )
      | inr n ↦
          let f : s.threads j ≡ some p = ground arith in
          let b = old.below j p f in let (t, h, k) = reg.live j p f in (t, ground arith, k)
    ];
  };
  allocated = record {
    below = λ j p e. elim (Bool-cases (j == i)) [
      | inl y ↦ ground arith
      | inr n ↦
          let f : s.threads j ≡ some p = ground arith in let b = old.below j p f in ground arith
    ];
  };
}

-- What thread_create may do: find no slot, or fail to allocate the stack or the thread, and change
-- nothing; write through NULL where one of the other calls of malloc fails; or make a thread in the
-- lowest slot that is empty or has an exited thread.
pub data Creates (m : Mallocs) (s : Kernel) : Option (Tid × Kernel) → Type 0 where
  no_slot : ((j : ℕ) → j < max_threads → is_free s j ≡ false) → Creates m s (some (nomore, s))
  no_memory :
      (i : ℕ)
      → i < max_threads
      → is_free s i ≡ true
      → m.stack && m.thread ≡ false
      → Creates m s (some (nomemory, s))
  faults :
      (i : ℕ)
      → i < max_threads
      → is_free s i ≡ true
      → m.stack && m.thread ≡ true
      → m.wait_queue && m.node ≡ false
      → Creates m s none
  creates :
      (i : ℕ) (s' : Kernel)
      → m.stack && m.thread ≡ true
      → m.wait_queue && m.node ≡ true
      → i < max_threads
      → is_free s i ≡ true
      → ((j : ℕ) → j < i → is_free s j ≡ false)
      → Created m.zeroed s i s'
      → Creates m s (some (num i, s'))

abbrev off : Kernel → Kernel
off s = record s { enabled = false }

thread_create-nomore :
    (m : Mallocs) (s : Kernel)
    → get_id (off s) ≡ some (nomore, off s)
    → thread_create m s ≡ some (nomore, s)
unfolding thread_create interrupts_off interrupts_set finish
thread_create-nomore m s e = ground arith

-- With a slot, the calls of malloc decide.
module _ (m : Mallocs) (s : Kernel) (i : ℕ) (e : get_id (off s) ≡ some (num i, off s)) where
  thread_create-nomemory : m.stack && m.thread ≡ false → thread_create m s ≡ some (nomemory, s)
  unfolding thread_create interrupts_off interrupts_set finish
  thread_create-nomemory h = ground arith

  thread_create-faults :
      m.stack && m.thread ≡ true → m.wait_queue && m.node ≡ false → thread_create m s ≡ none
  unfolding thread_create interrupts_off interrupts_set finish
  thread_create-faults h k = ground arith

  thread_create-eq :
      m.stack && m.thread ≡ true
      → m.wait_queue && m.node ≡ true
      → thread_create m s ≡ some (num i, added m.zeroed s i)
  unfolding thread_create interrupts_off interrupts_set finish
  thread_create-eq h k = ground (arith, new_thread-eq m.zeroed (off s) i)

-- Where each slot of the table is empty or has a thread of that id, at an address that has been
-- allocated: if no slot is empty or has an exited thread, thread_create returns THREAD_NOMORE, and if
-- malloc of the stack or of the thread fails, THREAD_NOMEMORY, and changes nothing. If malloc of the
-- `struct wait_queue` or of the node fails then, it writes through NULL. Otherwise it takes the lowest
-- such slot for a new READY thread, puts it at the end of the ready queue, returns its id, leaves the
-- other threads and queues and the interrupt mask as they were, and keeps the table well-formed. The
-- new thread has an empty wait queue if the head of it happens to hold zeros, and else none.
pub thread_create-Creates :
    (m : Mallocs) (s : Kernel) → Registered s → IsAllocated s → Creates m s (thread_create m s)
thread_create-Creates m s reg old = elim (get_id_lem (off s) (record { live = reg.live })) [
  | inr (e, none_free) ↦ rw (thread_create-nomore m s e) (no_slot none_free)
  | inl (i, e, hi, free, low) ↦ elim (Bool-cases (m.stack && m.thread)) [
    | inr n ↦ rw (thread_create-nomemory m s i e n) (no_memory i hi free n)
    | inl y ↦ elim (Bool-cases (m.wait_queue && m.node)) [
      | inr n ↦ rw (thread_create-faults m s i e y n) (faults i hi free y n)
      | inl z ↦
          rw (thread_create-eq m s i e y z)
            (creates i (added m.zeroed s i) y z hi free low (added-Created m.zeroed s i reg old))
    ]
  ]
]
