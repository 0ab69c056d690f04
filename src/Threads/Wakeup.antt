-- ===== src/Threads/Wakeup.antt =====
-- thread_wakeup of threads/thread.c: waiting threads go to the ready queue in their order.
use mathlib.Core.List.{append-nil, append_assoc}
use ece344_os.Prelude.{
  ℕ, suc, ◌≡◌, ◌≢◌, refl, Bool, true, false, ◌||◌, Option, none, some, arith, Bool-cases, inl, inr,
  ◌∙◌, sym, List, [], ◌∷◌, ◌++◌, length, ◌==◌, if◌then◌else◌, upd,
}
use ece344_os.Threads.State.{ready, Thread, Kernel, interrupts_off, interrupts_set, finish}
use ece344_os.Threads.Queue.{add_to_queue, wake_first, wake_all, wakeup_nodes, thread_wakeup}

abbrev pub mem : ℕ → List ℕ → Bool
mem p [] = false
mem p (q ∷ qs) = p == q || mem p qs

-- The thread struct at an address has its own slot in the table.
abbrev pub IsListed : Kernel → ℕ → Type 0
IsListed s p = (t : Thread) × (s.heap p ≡ some t) × (s.threads t.id ≡ some p)

abbrev pub AllListed : Kernel → List ℕ → Type 0
AllListed s [] = Unit {0}
AllListed s (p ∷ ps) = IsListed s p × AllListed s ps

abbrev pub made_ready : Option Thread → Option Thread
made_ready none = none
made_ready (some t) = some (record t { status = ready })

-- What waking the threads `ps`, the first of the wait queue `q`, makes of the state `s`; `rest`
-- stays in the queue.
pub record Woken (s : Kernel) (q : ℕ) (ps rest : List ℕ) (s' : Kernel) : Type 0 where
  pub ready_queue : s'.ready_queue ≡ s.ready_queue ++ ps
  pub waiting : s'.queues q ≡ some rest
  pub others : (r : ℕ) → r ≢ q → s'.queues r ≡ s.queues r
  pub heap : (p : ℕ) → s'.heap p ≡ (if mem p ps then made_ready (s.heap p) else s.heap p)
  pub threads : (i : ℕ) → s'.threads i ≡ s.threads i
  pub locks : (l : ℕ) → s'.locks l ≡ s.locks l
  pub enabled : s'.enabled ≡ s.enabled
  pub next : s'.next ≡ s.next

-- The state behind one round.
abbrev awake : Kernel → ℕ → ℕ → List ℕ → Thread → Kernel
awake s q p ps t = record s {
  queues = upd s.queues q (some ps);
  ready_queue = s.ready_queue ++ (p ∷ []);
  heap = upd s.heap p (some (record t { status = ready }));
}

wake_first-eq :
    (s : Kernel) (q p : ℕ) (ps : List ℕ) (t : Thread)
    → s.heap p ≡ some t
    → s.threads t.id ≡ some p
    → wake_first q p ps s ≡ some (tt, awake s q p ps t)
unfolding wake_first add_to_queue
wake_first-eq s q p ps t e f = ground arith

awake-AllListed :
    (s : Kernel) (q p : ℕ) (ps : List ℕ) (t : Thread)
    → s.heap p ≡ some t
    → (qs : List ℕ) → AllListed s qs
    → AllListed (awake s q p ps t) qs
awake-AllListed s q p ps t e [] h = tt
awake-AllListed s q p ps t e (r ∷ rs) ((u, f, g), h) = (
  elim (Bool-cases (r == p)) [
    | inl y ↦ (record u { status = ready }, ground arith, g)
    | inr n ↦ (u, ground arith, g)
  ],
  awake-AllListed s q p ps t e rs h,
)

module _ (s : Kernel) (q p : ℕ) (ps : List ℕ) (t : Thread) (e : s.heap p ≡ some t) where
  heap-next :
      (qs : List ℕ) (s' : Kernel) (x : ℕ)
      → s'.heap x
        ≡ (if mem x qs then made_ready ((awake s q p ps t).heap x) else (awake s q p ps t).heap x)
      → s'.heap x ≡ (if mem x (p ∷ qs) then made_ready (s.heap x) else s.heap x)
  heap-next qs s' x h = elim (Bool-cases (x == p)) [
    | inl y ↦ let z : s.heap x ≡ some t = ground arith in ground arith
    | inr n ↦ ground arith
  ]

  Woken-next :
      (qs rest : List ℕ) (s' : Kernel)
      → Woken (awake s q p ps t) q qs rest s'
      → Woken s q (p ∷ qs) rest s'
  Woken-next qs rest s' w = record {
    ready_queue = w.ready_queue ∙ append_assoc s.ready_queue (p ∷ []) qs;
    waiting = w.waiting;
    others = λ r ne. ground (arith, w.others r ne);
    heap = λ x. heap-next qs s' x (w.heap x);
    threads = w.threads;
    locks = w.locks;
    enabled = w.enabled;
    next = w.next;
  }

Woken-refl : (s : Kernel) (q : ℕ) (rest : List ℕ) → s.queues q ≡ some rest → Woken s q [] rest s
Woken-refl s q rest e = record {
  ready_queue = sym (append-nil s.ready_queue);
  waiting = e;
  others = λ r ne. refl;
  heap = λ x. refl;
  threads = λ i. refl;
  locks = λ l. refl;
  enabled = refl;
  next = refl;
}

wake_all-Woken :
    (ps : List ℕ) (s : Kernel) (q : ℕ)
    → s.queues q ≡ some ps
    → AllListed s ps
    → (s' : Kernel) × (wake_all q ps s ≡ some (length ps, s')) × Woken s q ps [] s'
wake_all-Woken [] s q e h = (s, unfold wake_all in refl, Woken-refl s q [] e)
wake_all-Woken (p ∷ ps) s q e ((t, f, g), h) =
    let a = awake s q p ps t in
    let (s', e', w) = wake_all-Woken ps a q (ground arith) (awake-AllListed s q p ps t f ps h) in
    (s', wake_all-cons s q p ps t f g s' e', Woken-next s q p ps t f ps [] s' w)
  where
    wake_all-cons :
        (s : Kernel) (q p : ℕ) (ps : List ℕ) (t : Thread)
        → s.heap p ≡ some t
        → s.threads t.id ≡ some p
        → (s' : Kernel) → wake_all q ps (awake s q p ps t) ≡ some (length ps, s')
        → wake_all q (p ∷ ps) s ≡ some (suc (length ps), s')
    wake_all-cons s q p ps t f g s' e' =
        unfold wake_all in ground (arith, wake_first-eq s q p ps t f g)

-- How many of the waiting threads a wake-up takes: all of them, or the first.
abbrev pub chosen : Bool → List ℕ → List ℕ
chosen true ps = ps
chosen false [] = []
chosen false (p ∷ ps) = p ∷ []

abbrev pub left : Bool → List ℕ → List ℕ
left true ps = []
left false [] = []
left false (p ∷ ps) = ps

wakeup_nodes-Woken :
    (all : Bool) (ps : List ℕ) (s : Kernel) (q : ℕ)
    → s.queues q ≡ some ps
    → AllListed s ps
    → (s' : Kernel) × (wakeup_nodes q all ps s ≡ some (length (chosen all ps), s'))
      × Woken s q (chosen all ps) (left all ps) s'
wakeup_nodes-Woken true [] s q e h = (s, unfold wakeup_nodes in refl, Woken-refl s q [] e)
wakeup_nodes-Woken false [] s q e h = (s, unfold wakeup_nodes in refl, Woken-refl s q [] e)
wakeup_nodes-Woken true (p ∷ ps) s q e h = unfold wakeup_nodes in wake_all-Woken (p ∷ ps) s q e h
wakeup_nodes-Woken false (p ∷ ps) s q e ((t, f, g), h) =
    let a = awake s q p ps t in
    (
      a,
      unfold wakeup_nodes in ground (arith, wake_first-eq s q p ps t f g),
      Woken-next s q p ps t f [] ps a (Woken-refl a q ps (ground arith)),
    )

-- If each thread that waits in the queue stands in its slot of the table, thread_wakeup does not
-- fault. With `all` it wakes every thread of the queue, otherwise the first if there is one: it
-- returns their number, moves them in their order to the end of the ready queue, makes them READY,
-- leaves the rest waiting and the other queues, threads and locks as they are, and restores the
-- interrupt mask.
pub thread_wakeup-Woken :
    (all : Bool) (ps : List ℕ) (s : Kernel) (q : ℕ)
    → s.queues q ≡ some ps
    → AllListed s ps
    → (s' : Kernel) × (thread_wakeup (some q) all s ≡ some (length (chosen all ps), s'))
      × Woken s q (chosen all ps) (left all ps) s'
unfolding thread_wakeup interrupts_off interrupts_set finish
thread_wakeup-Woken all ps s q e h =
    let off = record s { enabled = false } in
    let (t, e', w) = wakeup_nodes-Woken all ps off q e (off_listed ps h) in
    (
      record t { enabled = s.enabled },
      ground (arith, e'),
      record {
        ready_queue = w.ready_queue;
        waiting = w.waiting;
        others = w.others;
        heap = w.heap;
        threads = w.threads;
        locks = w.locks;
        enabled = refl;
        next = w.next;
      },
    )
  where
    off_listed : (qs : List ℕ) → AllListed s qs → AllListed (record s { enabled = false }) qs
    off_listed [] h = tt
    off_listed (r ∷ rs) (h, hs) = (h, off_listed rs hs)
