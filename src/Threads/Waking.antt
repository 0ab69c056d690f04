-- ===== src/Threads/Waking.antt =====
-- Waking threads (threads/thread.c) keeps the invariant of the scheduler.
use ece344_os.Prelude.{
  count, count-append, ℕ, ◌+◌, ◌≤◌, ◌<◌, ◌≡◌, refl, sym, ap, ◌∙◌, Bool, true, false, some, arith,
  List, [], ◌∷◌, ◌==◌, inl, inr, Bool-cases, Option-cases, ◌⊎◌, length,
}
use ece344_os.Threads.State.{Status, running, ready, blocked, Thread, Kernel}
use ece344_os.Threads.Queue.{thread_wakeup}
use ece344_os.Threads.Scheduler.{is_running, is_exited}
use ece344_os.Threads.Scan.{holds}
use ece344_os.Threads.Switch.{Runs}
use ece344_os.Threads.Wakeup.{mem, AllListed, Woken, chosen, left, thread_wakeup-Woken}
use ece344_os.Threads.Scheduled.{mem-count, not_mem-count, IsScheduled, Scheduled, scheduled}
use ece344_os.Threads.Calls.{Keeps, keeps}

count-chosen :
    (all : Bool) (ps : List ℕ) (x : ℕ)
    → count x (chosen all ps) + count x (left all ps) ≡ count x ps
count-chosen true ps x = omega arith
count-chosen false [] x = refl
count-chosen false (p ∷ ps) x = ground arith

module _ (s : Kernel) (c p : ℕ) (t : Thread) (v : IsScheduled s c p t) (q : ℕ) (ps : List ℕ)
    (e : s.queues q ≡ some ps) where
  waiting_listed : (qs : List ℕ) → ((x : ℕ) → 0 < count x qs → 0 < count x ps) → AllListed s qs
  waiting_listed [] h = tt
  waiting_listed (x ∷ xs) h =
      let (w, f, b) = v.waits q x ps e (h x (ground arith)) in
      ((w, f, v.listed x w f), waiting_listed xs (λ y pos. h y (ground arith)))

  not_running : count p ps ≡ 0
  not_running = elim (Bool-cases (count p ps == 0)) [
    | inl z ↦ ground (arith, z)
    | inr z ↦
        let (w, f, b) = v.waits q p ps e (ground (arith, z)) in
        let same : some w ≡ some t = sym f ∙ v.runs.struct in
        let d : blocked ≡ running = sym b ∙ ground (arith, same, v.runs.runs) in cc
  ]

  module _ (all : Bool) (s' : Kernel) (w : Woken s q (chosen all ps) (left all ps) s') where
    -- A thread that was woken was BLOCKED, and is READY.
    woken_or_not :
        (x : ℕ)
        → ((u : Thread) × (s.heap x ≡ some u)
            × (u.status ≡ blocked)
            × (s'.heap x ≡ some (record u { status = ready }))
            × (count x (chosen all ps) ≡ 1)
            × (count x (left all ps) ≡ 0))
          ⊎ ((s'.heap x ≡ s.heap x) × (count x (chosen all ps) ≡ 0))
    woken_or_not x = elim (Bool-cases (mem x (chosen all ps))) [
      | inr n ↦ inr (ground (arith, w.heap x, n), not_mem-count x (chosen all ps) n)
      | inl y ↦
          let pos = mem-count x (chosen all ps) y in
          let total = count-chosen all ps x in
          let one = v.once q x ps e in
          let (u, f, b) = v.waits q x ps e (omega arith) in
          inl (u, f, b, ground (arith, w.heap x, y, f), omega arith, omega arith)
    ]

    same_table : (i : ℕ) → s'.threads i ≡ s.threads i
    same_table = w.threads

    holds-woken :
        (test : Status → Bool) (j : ℕ)
        → test blocked ≡ test ready
        → holds s' test j ≡ holds s test j
    holds-woken test j alike = elim (Option-cases (s.threads j)) [
      | inl f ↦ ground (arith, w.threads j, f)
      | inr (x, f) ↦ elim (woken_or_not x) [
        | inl (u, h, b, h', _, _) ↦ ground (arith, w.threads j, f, h, h', b, alike)
        | inr (h, _) ↦ ground (arith, w.threads j, f, h)
      ]
    ]

    woken-Runs : Runs s' c p t
    woken-Runs = record {
      registered = record {
        live = λ i x f.
            let (u, g, k) = v.runs.registered.live i x (sym (w.threads i) ∙ f) in
            elim (woken_or_not x) [
              | inl (u', h, b, h', _, _) ↦
                  let same : some u ≡ some u' = sym g ∙ h in
                  (record u' { status = ready }, h', ground (arith, same, k))
              | inr (h, _) ↦ (u, h ∙ g, k)
            ];
      };
      slot = w.threads c ∙ v.runs.slot;
      struct =
          let total = count-chosen all ps p in
          let none_here = not_running in
          elim (woken_or_not p) [
            | inl (u, h, b, h', one, _) ↦ absurd (omega arith)
            | inr (h, _) ↦ h ∙ v.runs.struct
          ];
      below = v.runs.below;
      runs = v.runs.runs;
      only = λ j h. v.runs.only j (sym (holds-woken is_running j refl) ∙ h);
      none_exited = λ j h. holds-woken is_exited j refl ∙ v.runs.none_exited j h;
    }

    -- A thread that waits now waited in the same queue before, and has not been woken.
    waited :
        (q' x : ℕ) (ps' : List ℕ)
        → s'.queues q' ≡ some ps'
        → 0 < count x ps'
        → (old : List ℕ) × (s.queues q' ≡ some old)
          × (count x ps' ≤ count x old)
          × (s'.heap x ≡ s.heap x)
    waited q' x ps' f pos = elim (Bool-cases (q' == q)) [
      | inl y ↦
          let same : left all ps ≡ ps' = ground (arith, y, f, w.waiting) in
          let total = count-chosen all ps x in
          let here : count x (left all ps) ≡ count x ps' = ap (count x) same in
          elim (woken_or_not x) [
            | inl (u, h, b, h', _, gone) ↦ absurd (omega arith)
            | inr (h, _) ↦ (ps, ground (arith, y, e), omega arith, h)
          ]
      | inr n ↦
          let before : s.queues q' ≡ some ps' = ground (arith, n, f, w.others q') in
          elim (woken_or_not x) [
            | inl (u, h, b, h', one, _) ↦
                let total = count-chosen all ps x in
                let clash : q' ≡ q = v.apart q' q x ps' ps before e pos (omega arith) in
                absurd (ground (arith, n, clash))
            | inr (h, _) ↦ (ps', before, omega arith, h)
          ]
    ]

    woken_once : (q' x : ℕ) (ps' : List ℕ) → s'.queues q' ≡ some ps' → count x ps' ≤ 1
    woken_once q' x ps' f = elim (Bool-cases (count x ps' == 0)) [
      | inl z ↦ ground (arith, z)
      | inr z ↦
          let (old, g, le, _) = waited q' x ps' f (ground (arith, z)) in
          let one = v.once q' x old g in omega arith
    ]

    still_there :
        (q' : ℕ) (ps' : List ℕ) → s.queues q' ≡ some ps' → (qs : List ℕ) × (s'.queues q' ≡ some qs)
    still_there q' ps' f = elim (Bool-cases (q' == q)) [
      | inl y ↦ (left all ps, ground (arith, y, w.waiting))
      | inr n ↦ (ps', ground (arith, n, f, w.others q'))
    ]

    woken-IsScheduled : IsScheduled s' c p t
    woken-IsScheduled = record {
      runs = woken-Runs;
      allocated = record {
        below = λ i x f. omega (arith, w.next, v.allocated.below i x (sym (w.threads i) ∙ f));
      };
      bounded = λ i x f. v.bounded i x (sym (w.threads i) ∙ f);
      listed = λ x u f. elim (woken_or_not x) [
        | inl (u', h, b, h', _, _) ↦
            let same : some u ≡ some (record u' { status = ready }) = sym f ∙ h' in
            let id : u.id ≡ u'.id = ground (arith, same) in w.threads u.id ∙ rw id (v.listed x u' h)
        | inr (h, _) ↦ w.threads u.id ∙ v.listed x u (sym h ∙ f)
      ];
      turn = λ x.
          let turn = v.turn x in
          let total : count x s'.ready_queue ≡ count x s.ready_queue + count x (chosen all ps) =
            ap (count x) w.ready_queue ∙ count-append x s.ready_queue (chosen all ps) in
          elim (woken_or_not x) [
            | inl (u, h, b, h', one, _) ↦ ground (arith, total, turn, h, b, h', one)
            | inr (h, none_woken) ↦ ground (arith, total, turn, h, none_woken)
          ];
      waits = λ q' x ps' f pos.
          let (old, g, le, h) = waited q' x ps' f pos in
          let (u, k, b) = v.waits q' x old g (omega arith) in (u, h ∙ k, b);
      once = woken_once;
      apart = λ q₁ q₂ x ps₁ ps₂ f₁ f₂ pos₁ pos₂.
          let (o₁, g₁, le₁, _) = waited q₁ x ps₁ f₁ pos₁ in
          let (o₂, g₂, le₂, _) = waited q₂ x ps₂ f₂ pos₂ in
          v.apart q₁ q₂ x o₁ o₂ g₁ g₂ (omega arith) (omega arith);
    }

-- Waking all threads or the first of a wait queue that there is returns: those threads are woken, the
-- invariant holds, and every wait queue is still there.
pub thread_wakeup-Scheduled :
    (s : Kernel) (q : ℕ) (ps : List ℕ) (all : Bool)
    → Scheduled s
    → s.queues q ≡ some ps
    → (s' : Kernel) × (thread_wakeup (some q) all s ≡ some (length (chosen all ps), s'))
      × Woken s q (chosen all ps) (left all ps) s'
      × Scheduled s'
      × ((x : ℕ) (qs : List ℕ) → s.queues x ≡ some qs → (rs : List ℕ) × (s'.queues x ≡ some rs))
thread_wakeup-Scheduled s q ps all (scheduled c p t v) e =
    let (s', f, w) =
      thread_wakeup-Woken all ps s q e (waiting_listed s c p t v q ps e ps (λ x h. h)) in
    (
      s',
      f,
      w,
      scheduled c p t (woken-IsScheduled s c p t v q ps e all s' w),
      still_there s c p t v q ps e all s' w,
    )

pub thread_wakeup-Keeps :
    (s : Kernel) (q : ℕ) (ps : List ℕ) (all : Bool)
    → Scheduled s
    → s.queues q ≡ some ps
    → Keeps (thread_wakeup (some q) all s)
thread_wakeup-Keeps s q ps all v e =
    let (s', f, _, w, _) = thread_wakeup-Scheduled s q ps all v e in
    keeps (length (chosen all ps)) s' f w
