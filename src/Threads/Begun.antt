-- ===== src/Threads/Begun.antt =====
-- The state that thread_init of threads/thread.c leaves.
use ece344_os.Prelude.{
  count, Bool, ℕ, ◌≡◌, refl, true, some, none, arith, List, [], upd, ◌==◌, inl, inr, Bool-cases,
}
use ece344_os.Threads.State.{new_queue, new_queue-empty, running, start, Thread, Kernel}
use ece344_os.Threads.Scheduler.{thread_init}
use ece344_os.Threads.Switch.{Runs}
use ece344_os.Threads.Scheduled.{IsScheduled, Scheduled, scheduled}

-- The program before thread_init.
abbrev pub blank : Kernel
blank = record {
  threads = λ _. none;
  ready_queue = [];
  heap = λ _. none;
  queues = λ _. none;
  locks = λ _. none;
  cvs = λ _. none;
  enabled = true;
  next = 1;
}

-- The thread that calls thread_init, and the state that this leaves.
abbrev pub first : ℕ → Thread
first k = record { id = 0; status = running; context = start; killmepls = k; queue = 2 }

abbrev pub begun : Bool → ℕ → Kernel
begun zeroed k = record blank {
  threads = upd blank.threads 0 (some 1);
  heap = upd blank.heap 1 (some (first k));
  queues = upd blank.queues 2 (new_queue zeroed);
  next = 3;
}

module _ (zeroed : Bool) (k : ℕ) where
  none_waits : (q x : ℕ) (ps : List ℕ) → (begun zeroed k).queues q ≡ some ps → count x ps ≡ 0
  none_waits q x ps f = elim (Bool-cases (q == 2)) [
    | inl y ↦ new_queue-empty zeroed ps x (ground (arith, y, f))
    | inr n ↦ absurd (ground (arith, n, f))
  ]

  begun-Runs : Runs (begun zeroed k) 0 1 (first k)
  begun-Runs = record {
    registered = record {
      live = λ i x f. elim (Bool-cases (i == 0)) [
        | inl y ↦ (first k, ground (arith, y, f), ground (arith, y))
        | inr n ↦ absurd (ground (arith, n, f))
      ];
    };
    slot = refl;
    struct = refl;
    below = omega arith;
    runs = refl;
    only = λ j h. ground (arith, h);
    none_exited = λ j h. ground arith;
  }

  begun-IsScheduled : IsScheduled (begun zeroed k) 0 1 (first k)
  begun-IsScheduled = record {
    runs = begun-Runs;
    allocated = record { below = λ i x f. ground (arith, f) };
    bounded = λ i x f. ground (arith, f);
    listed = λ x u f. ground (arith, f);
    turn = λ x. ground arith;
    waits = λ q x ps f pos. let z = none_waits q x ps f in absurd (omega arith);
    once = λ q x ps f. let z = none_waits q x ps f in omega arith;
    apart =
        λ q₁ q₂ x ps₁ ps₂ f₁ f₂ pos₁ pos₂. let z = none_waits q₁ x ps₁ f₁ in absurd (omega arith);
  }

  pub begin-Scheduled : (s : Kernel) → thread_init zeroed k blank ≡ some (tt, s) → Scheduled s
  unfolding thread_init
  begin-Scheduled s e =
      let same : (begun zeroed k) ≡ s = ground (arith, e) in
      rw same at (scheduled 0 1 (first k) begun-IsScheduled)
