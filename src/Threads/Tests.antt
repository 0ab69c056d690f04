-- ===== src/Threads/Tests.antt =====
-- Tests of the thread library's model, and its theorems at concrete inputs.
use ece344_os.Prelude.{
  Option, ℕ, ◌≡◌, ◌≢◌, refl, true, false, [], ◌∷◌, ◌++◌, arith, none, some, ◌==◌, if◌then◌else◌,
  inl, inr, Bool-cases,
}
use ece344_os.Threads.State.{
  num, any, Status, running, ready, blocked, start, yielded, slept, Thread, Kernel, interrupts_off,
  interrupts_set, finish,
}
use ece344_os.Threads.Queue.{
  delete_from_queue, thread_wakeup, wakeup_nodes, delete_from_all_queues, delete_from_slots,
  delete_nodes, free_thread, wait_queue_destroy, drain, wake_all, wake_first,
}
use ece344_os.Threads.Scheduler.{
  thread_kill, other_thread, thread_id, Mallocs, free_exited, first_thread, thread_create,
  thread_yield, thread_sleep, switched,
}
use ece344_os.Threads.Sync.{lock_acquire, lock_release, waits}
use ece344_os.Threads.Scan.{Registered}
use ece344_os.Threads.Wakeup.{mem, made_ready, Woken, thread_wakeup-Woken}
use ece344_os.Threads.Create.{IsAllocated, Creates, thread_create-Creates}
use ece344_os.Threads.Switch.{Runs, Next, Switches, thread_yield-any, thread_sleep-Switches}
use ece344_os.Threads.Locks.{lock_acquire-held, lock_release-owner}

abbrev plain : ℕ → Status → ℕ → Thread
plain i st q = record { id = i; status = st; context = start; killmepls = 0; queue = q }

-- Thread 0 runs, thread 1 is ready, and thread 2 waits in the queue 9 of the lock 8, which thread 0
-- holds.
abbrev trio : Kernel
trio = record {
  threads =
      λ i. if i == 0 then some 1 else if i == 1 then some 3 else if i == 2 then some 5 else none;
  heap = λ p.
      if p == 1
      then some (plain 0 running 2)
      else if p == 3
      then some (plain 1 ready 4)
      else if p == 5
      then some (plain 2 blocked 6)
      else none;
  ready_queue = 3 ∷ [];
  queues = λ q.
      if q == 9
      then some (5 ∷ [])
      else if q == 2
      then some []
      else if q == 4
      then some []
      else if q == 6
      then some []
      else none;
  locks = λ l. if l == 8 then some (record { queue = 9; owner = num 0; acquired = true }) else none;
  cvs = λ _. none;
  enabled = true;
  next = 10;
}

trio-Registered : Registered trio
trio-Registered = record {
  live = λ i p e. elim (Bool-cases (i == 0)) [
    | inl y ↦ (plain 0 running 2, ground arith, ground arith)
    | inr n ↦ elim (Bool-cases (i == 1)) [
      | inl y ↦ (plain 1 ready 4, ground arith, ground arith)
      | inr m ↦ (plain 2 blocked 6, ground arith, ground arith)
    ]
  ];
}

trio-Runs : Runs trio 0 1 (plain 0 running 2)
trio-Runs = record {
  registered = trio-Registered;
  slot = refl;
  struct = refl;
  below = omega arith;
  runs = refl;
  only = λ j e. ground arith;
  none_exited = λ j h. ground arith;
}

trio-Next : Next trio 3 (plain 1 ready 4) []
trio-Next = record { queue = refl; struct = refl; slot = refl; waits = refl }

thread_yield-any_example :
    (s' : Kernel) × (thread_yield any trio ≡ some (switched 3, s'))
    × (s'.ready_queue ≡ [] ++ (1 ∷ []))
    × Switches trio 1 3
        (record { id = 0; status = ready; context = yielded 3 true; killmepls = 0; queue = 2 })
        (plain 1 ready 4)
        s'
    × ((q : ℕ) → s'.queues q ≡ trio.queues q)
thread_yield-any_example =
    thread_yield-any trio 0 1 (plain 0 running 2) 3 (plain 1 ready 4) [] trio-Runs trio-Next

thread_sleep-Switches_example :
    (s' : Kernel) × (thread_sleep (some 4) trio ≡ some (switched 3, s'))
    × (s'.ready_queue ≡ [])
    × (s'.queues 4 ≡ some ([] ++ (1 ∷ [])))
    × Switches trio 1 3
        (record {
          id = 0;
          status = blocked;
          context = slept (num 1) true;
          killmepls = 0;
          queue = 2;
        })
        (plain 1 ready 4)
        s'
    × ((x : ℕ) → x ≢ 4 → s'.queues x ≡ trio.queues x)
thread_sleep-Switches_example =
    thread_sleep-Switches trio 0 1 (plain 0 running 2) 3 (plain 1 ready 4) [] 4 [] trio-Runs
      trio-Next refl

thread_wakeup-Woken_example :
    (s' : Kernel) × (thread_wakeup (some 9) true trio ≡ some (1, s')) × Woken trio 9 (5 ∷ []) [] s'
thread_wakeup-Woken_example =
    thread_wakeup-Woken true (5 ∷ []) trio 9 refl ((plain 2 blocked 6, refl, refl), tt)

trio-IsAllocated : IsAllocated trio
trio-IsAllocated = record { below = λ i p e. ground arith }

abbrev all_given : Mallocs
all_given = record { stack = true; thread = true; wait_queue = true; node = true; zeroed = false }

thread_create-Creates_example : Creates all_given trio (thread_create all_given trio)
thread_create-Creates_example =
    thread_create-Creates all_given trio trio-Registered trio-IsAllocated

lock_release-owner_example :
    (s' : Kernel) × (lock_release 8 trio ≡ some (tt, s'))
    × (s'.locks 8 ≡ some (record { queue = 9; owner = num 0; acquired = false }))
    × (s'.ready_queue ≡ (3 ∷ []) ++ (5 ∷ []))
    × (s'.queues 9 ≡ some [])
    × (s'.enabled ≡ true)
    × ((x : ℕ) → s'.heap x ≡ (if mem x (5 ∷ []) then made_ready (trio.heap x) else trio.heap x))
lock_release-owner_example =
    lock_release-owner trio 0 1 (plain 0 running 2) 8
      (record { queue = 9; owner = num 0; acquired = true }) (5 ∷ []) trio-Runs refl refl refl refl
      ((plain 2 blocked 6, refl, refl), tt)

lock_acquire-held_example :
    (s' : Kernel) × (lock_acquire 8 trio ≡ some (waits (switched 3), s'))
    × (s'.locks 8 ≡ some (record { queue = 9; owner = num 0; acquired = true }))
    × (s'.queues 9 ≡ some ((5 ∷ []) ++ (1 ∷ [])))
    × (s'.ready_queue ≡ [])
    × Switches trio 1 3
        (record {
          id = 0;
          status = blocked;
          context = slept (num 1) false;
          killmepls = 0;
          queue = 2;
        })
        (plain 1 ready 4)
        s'
lock_acquire-held_example =
    lock_acquire-held trio 0 1 (plain 0 running 2) 3 (plain 1 ready 4) [] 8
      (record { queue = 9; owner = num 0; acquired = true }) (5 ∷ []) trio-Runs trio-Next refl refl
      refl

-- Thread 0 kills thread 2, which waits for the lock 8, and releases the lock: the queue of the lock
-- still has the struct that has been freed.
abbrev kill_then_release : Option ((Unit {0}) × Kernel)
kill_then_release = elim (thread_kill (num 2) trio) [
  | none ↦ some (tt, trio)
  | some (_, s) ↦ lock_release 8 s
]

kill_waiting : kill_then_release ≡ none
unfolding thread_kill other_thread thread_id free_exited interrupts_off interrupts_set first_thread
    delete_from_queue thread_wakeup wakeup_nodes finish delete_from_all_queues delete_from_slots
    delete_nodes free_thread wait_queue_destroy drain lock_release wake_all wake_first
kill_waiting = refl
