-- ===== src/Threads/Creating.antt =====
-- Creating threads (threads/thread.c) keeps the invariant of the scheduler.
use ece344_os.Prelude.{
  count, count-append, ℕ, ◌+◌, ◌<◌, ◌≡◌, refl, ap, ◌∙◌, Bool, true, ◌&&◌, Option, none, some, arith,
  List, [], ◌∷◌, ◌==◌, if◌then◌else◌, inl, inr, Bool-cases, Option-cases,
}
use ece344_os.Threads.State.{
  new_queue, new_queue-empty, Tid, num, nomore, nomemory, max_threads, Status, ready, Thread,
  Kernel,
}
use ece344_os.Threads.Scheduler.{Mallocs, is_running, is_exited, thread_create}
use ece344_os.Threads.Scan.{holds, is_free}
use ece344_os.Threads.Create.{
  Creates, no_slot, no_memory, faults, creates, Created, thread_create-Creates,
}
use ece344_os.Threads.Switch.{Runs}
use ece344_os.Threads.Scheduled.{IsScheduled, Scheduled, scheduled}
use ece344_os.Threads.Calls.{Keeps, keeps}

module _ (s : Kernel) (c p : ℕ) (t : Thread) (v : IsScheduled s c p t) (i : ℕ)
    (hi : i < max_threads) (free : is_free s i ≡ true) (s' : Kernel) (zeroed : Bool)
    (made : Created zeroed s i s') where
  was_empty : s.threads i ≡ none
  was_empty = elim (Option-cases (s.threads i)) [
    | inl e ↦ e
    | inr (x, e) ↦
        let (u, f, _) = v.runs.registered.live i x e in
        let not_exited = v.runs.none_exited i hi in absurd (ground (arith, e, f, free, not_exited))
  ]

  below_next : (x : ℕ) (u : Thread) → s.heap x ≡ some u → x < s.next
  below_next x u e = v.allocated.below u.id x (v.listed x u e)

  fresh : s.heap s.next ≡ none
  fresh = elim (Option-cases (s.heap s.next)) [
    | inl e ↦ e
    | inr (u, e) ↦ let below = below_next s.next u e in absurd (omega arith)
  ]

  heap_kept : (x : ℕ) (u : Thread) → s.heap x ≡ some u → s'.heap x ≡ some u
  heap_kept x u e = let below = below_next x u e in made.other_structs x (omega arith) ∙ e

  created-holds :
      (test : Status → Bool) (j : ℕ)
      → holds s' test j ≡ (if j == i then test ready else holds s test j)
  created-holds test j = elim (Bool-cases (j == i)) [
    | inl y ↦ ground (arith, y, made.slot j, made.struct)
    | inr n ↦ elim (Option-cases (s.threads j)) [
      | inl e ↦ ground (arith, n, made.slot j, e)
      | inr (x, e) ↦
          let below = v.allocated.below j x e in
          ground (arith, n, made.slot j, e, made.other_structs x)
    ]
  ]

  created-Runs : Runs s' c p t
  created-Runs = record {
    registered = made.registered;
    slot = ground (arith, made.slot c, v.runs.slot, was_empty);
    struct = heap_kept p t v.runs.struct;
    below = v.runs.below;
    runs = v.runs.runs;
    only = λ j h. elim (Bool-cases (j == i)) [
      | inl y ↦ absurd (ground (arith, created-holds is_running j, y, h))
      | inr n ↦ v.runs.only j (ground (arith, created-holds is_running j, n, h))
    ];
    none_exited = λ j h. ground (arith, created-holds is_exited j, v.runs.none_exited j h);
  }

  -- Only the new wait queue is new, and it is empty.
  old_queue :
      (q x : ℕ) (ps : List ℕ) → s'.queues q ≡ some ps → 0 < count x ps → s.queues q ≡ some ps
  old_queue q x ps e pos = elim (Bool-cases (q == s.next + 1)) [
    | inl y ↦
        let new : new_queue zeroed ≡ some ps = ground (arith, y, e, made.wait_queue) in
        let none_there = new_queue-empty zeroed ps x new in absurd (omega arith)
    | inr n ↦ ground (arith, n, e, made.other_queues q)
  ]

  created-IsScheduled : IsScheduled s' c p t
  created-IsScheduled = record {
    runs = created-Runs;
    allocated = made.allocated;
    bounded = λ j x e. elim (Bool-cases (j == i)) [
      | inl y ↦ ground (arith, y, hi)
      | inr n ↦ v.bounded j x (ground (arith, n, e, made.slot j))
    ];
    listed = λ x u e. elim (Bool-cases (x == s.next)) [
      | inl y ↦ ground (arith, y, e, made.struct, made.slot u.id)
      | inr n ↦
          let before : s.heap x ≡ some u = ground (arith, n, e, made.other_structs x) in
          ground (arith, made.slot u.id, v.listed x u before, was_empty)
    ];
    turn = λ x.
        let turn = v.turn x in
        let total : count x s'.ready_queue ≡ count x s.ready_queue + count x (s.next ∷ []) =
          ap (count x) made.ready_queue ∙ count-append x s.ready_queue (s.next ∷ []) in
        elim (Bool-cases (x == s.next)) [
          | inl y ↦ ground (arith, y, total, turn, fresh, made.struct)
          | inr n ↦ ground (arith, n, total, turn, made.other_structs x)
        ];
    waits = λ q x ps e pos.
        let (u, f, b) = v.waits q x ps (old_queue q x ps e pos) pos in (u, heap_kept x u f, b);
    once = λ q x ps e. elim (Bool-cases (count x ps == 0)) [
      | inl z ↦ ground (arith, z)
      | inr z ↦ v.once q x ps (old_queue q x ps e (ground (arith, z)))
    ];
    apart = λ q₁ q₂ x ps₁ ps₂ e₁ e₂ pos₁ pos₂.
        v.apart q₁ q₂ x ps₁ ps₂ (old_queue q₁ x ps₁ e₁ pos₁) (old_queue q₂ x ps₂ e₂ pos₂) pos₁ pos₂;
  }

-- Creating a thread keeps the invariant, unless a call of malloc fails that is not tested.
pub thread_create-Keeps :
    (m : Mallocs) (s : Kernel)
    → m.wait_queue && m.node ≡ true
    → Scheduled s
    → Keeps (thread_create m s)
thread_create-Keeps m s ok (scheduled c p t v) =
    kept (thread_create-Creates m s v.runs.registered v.allocated)
  where
    kept : {r : Option (Tid × Kernel)} → Creates m s r → Keeps r
    kept (no_slot _) = keeps nomore _ refl (scheduled c p t v)
    kept (no_memory _ _ _ _) = keeps nomemory _ refl (scheduled c p t v)
    kept (faults _ _ _ _ e) = absurd (ground (arith, e, ok))
    kept (creates i s' _ _ hi free _ made) =
        keeps (num i) s' refl
          (scheduled c p t (created-IsScheduled _ c p t v i hi free s' m.zeroed made))
