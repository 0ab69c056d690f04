-- ===== src/Threads/Sleeping.antt =====
-- Sleeping (threads/thread.c) keeps the invariant of the scheduler.
use ece344_os.Prelude.{
  count, count-append, ℕ, ◌≤◌, ◌<◌, ◌≡◌, refl, sym, ◌∙◌, some, arith, List, [], ◌∷◌, ◌++◌, ◌==◌,
  if◌then◌else◌, inl, inr, Bool-cases, ◌⊎◌,
}
use ece344_os.Threads.State.{running, blocked, slept, no_thread, num, Context, Thread, Kernel}
use ece344_os.Threads.Scheduler.{returned, switched, thread_sleep}
use ece344_os.Threads.Switch.{Next, other_address, sleep-eq, asleep, no_switch}
use ece344_os.Threads.Scheduled.{IsScheduled, Scheduled, scheduled, head, Head-of}
use ece344_os.Threads.Switched.{
  switch-Runs, switch-IsAllocated, switch-listed, waits_not_caller, still_waits, turn_rest,
}
use ece344_os.Threads.Calls.{Keeps, keeps}

module _ (s : Kernel) (c p : ℕ) (t : Thread) (v : IsScheduled s c p t) (r : ℕ) (u : Thread)
    (rest : List ℕ) (nx : Next s r u rest) where
  -- The queues after the sleep: the caller stands behind those that waited before.
  module _ (q : ℕ) (ps : List ℕ) (e : s.queues q ≡ some ps) where
    abbrev down : Kernel
    down = asleep s c p t v.runs r u rest nx q ps

    abbrev locals : Context
    locals = slept (num u.id) s.enabled

    asleep_heap :
        (x : ℕ)
        → down.heap x ≡ (
            if x == p
            then some (record t { context = locals; status = blocked })
            else if x == r
            then some (record u { status = running })
            else s.heap x)
    asleep_heap x = let ne = other_address s c p t v.runs r u rest nx in ground arith

    not_caller : (q' : ℕ) (ps' : List ℕ) → s.queues q' ≡ some ps' → count p ps' ≡ 0
    not_caller =
        waits_not_caller s c p t v r u rest nx locals blocked refl refl down (λ i. refl) refl
          asleep_heap

    -- A thread in a queue after the sleep is the caller in `q`, or stood there before.
    stood :
        (q' x : ℕ) (ps' : List ℕ)
        → down.queues q' ≡ some ps'
        → 0 < count x ps'
        → ((x ≡ p) × (q' ≡ q)) ⊎ ((old : List ℕ) × (s.queues q' ≡ some old) × (0 < count x old))
    stood q' x ps' f pos = elim (Bool-cases (q' == q)) [
      | inr n ↦ inr (ps', ground (arith, n, f), pos)
      | inl y ↦ elim (Bool-cases (x == p)) [
        | inl z ↦ inl (ground (arith, z), ground (arith, y))
        | inr z ↦
            let same : ps ++ (p ∷ []) ≡ ps' = ground (arith, y, f) in
            let more : 0 < count x (ps ++ (p ∷ [])) = rw same pos in
            inr (ps, ground (arith, y, e), ground (arith, count-append x ps (p ∷ []), more, z))
      ]
    ]

    asleep_once : (q' x : ℕ) (ps' : List ℕ) → down.queues q' ≡ some ps' → count x ps' ≤ 1
    asleep_once q' x ps' f = elim (Bool-cases (q' == q)) [
      | inr n ↦ v.once q' x ps' (ground (arith, n, f))
      | inl y ↦
          let same : ps ++ (p ∷ []) ≡ ps' = ground (arith, y, f) in
          let total = count-append x ps (p ∷ []) in
          let bound : count x (ps ++ (p ∷ [])) ≤ 1 = elim (Bool-cases (x == p)) [
            | inl z ↦
                let here : x ≡ p = ground (arith, z) in
                let none_yet : count x ps ≡ 0 = rw here (not_caller q ps e) in
                ground (arith, total, none_yet)
            | inr z ↦ ground (arith, total, z, v.once q x ps e)
          ] in
          rw same at bound
    ]

    caller_alone : (q' x : ℕ) (old : List ℕ) → x ≡ p → s.queues q' ≡ some old → ¬ 0 < count x old
    caller_alone q' x old here f pos =
        let z : count x old ≡ 0 = rw here (not_caller q' old f) in omega arith

    asleep_apart :
        (q₁ q₂ x : ℕ) (ps₁ ps₂ : List ℕ)
        → down.queues q₁ ≡ some ps₁
        → down.queues q₂ ≡ some ps₂
        → 0 < count x ps₁
        → 0 < count x ps₂
        → q₁ ≡ q₂
    asleep_apart q₁ q₂ x ps₁ ps₂ e₁ e₂ pos₁ pos₂ = elim (stood q₁ x ps₁ e₁ pos₁) [
      | inl (h₁, k₁) ↦ elim (stood q₂ x ps₂ e₂ pos₂) [
        | inl (h₂, k₂) ↦ k₁ ∙ sym k₂
        | inr (o₂, f₂, c₂) ↦ absurd (caller_alone q₂ x o₂ h₁ f₂ c₂)
      ]
      | inr (o₁, f₁, c₁) ↦ elim (stood q₂ x ps₂ e₂ pos₂) [
        | inl (h₂, k₂) ↦ absurd (caller_alone q₁ x o₁ h₂ f₁ c₁)
        | inr (o₂, f₂, c₂) ↦ v.apart q₁ q₂ x o₁ o₂ f₁ f₂ c₁ c₂
      ]
    ]

    asleep_waits :
        (q' x : ℕ) (ps' : List ℕ)
        → down.queues q' ≡ some ps'
        → 0 < count x ps'
        → (w : Thread) × (down.heap x ≡ some w) × (w.status ≡ blocked)
    asleep_waits q' x ps' f pos = elim (stood q' x ps' f pos) [
      | inl (here, _) ↦ (
        record t { context = locals; status = blocked },
        rw here (ground (arith, asleep_heap p)),
        refl,
      )
      | inr (old, g, more) ↦
          still_waits s c p t v r u rest nx locals blocked refl refl down (λ i. refl) refl
            asleep_heap q' x old g more
    ]

    asleep-IsScheduled : IsScheduled down u.id r (record u { status = running })
    asleep-IsScheduled = record {
      runs =
          switch-Runs s c p t v r u rest nx locals blocked refl refl down (λ i. refl) refl
            asleep_heap;
      allocated =
          switch-IsAllocated s c p t v r u rest nx locals blocked refl refl down (λ i. refl) refl
            asleep_heap;
      bounded = v.bounded;
      listed =
          switch-listed s c p t v r u rest nx locals blocked refl refl down (λ i. refl) refl
            asleep_heap;
      turn = λ x. ground (
        arith,
        asleep_heap x,
        turn_rest s c p t v r u rest nx locals blocked refl refl down (λ i. refl) refl asleep_heap
            x,
      );
      waits = asleep_waits;
      once = asleep_once;
      apart = asleep_apart;
    }

-- Sleeping in a wait queue that there is switches, and keeps the invariant, or it returns and changes
-- nothing.
pub sleep_in :
    (s : Kernel) (q : ℕ) (ps : List ℕ)
    → Scheduled s
    → s.queues q ≡ some ps
    → ((r : ℕ) × (s' : Kernel) × (thread_sleep (some q) s ≡ some (switched r, s')) × Scheduled s')
      ⊎ (thread_sleep (some q) s ≡ some (returned no_thread, s))
sleep_in s q ps (scheduled c p t v) f = sleep_from s.ready_queue refl
  where
    sleep_from :
        (rs : List ℕ)
        → s.ready_queue ≡ rs
        → ((r : ℕ) × (s' : Kernel) × (thread_sleep (some q) s ≡ some (switched r, s'))
            × Scheduled s')
          ⊎ (thread_sleep (some q) s ≡ some (returned no_thread, s))
    sleep_from [] e = inr (no_switch s c p t q v.runs e).1
    sleep_from (r ∷ rest) e = elim (Head-of s c p t r rest v e) [
      | head u nx ↦ inl (
        r,
        asleep s c p t v.runs r u rest nx q ps,
        sleep-eq s c p t v.runs r u rest nx q ps f,
        scheduled u.id r (record u { status = running })
            (asleep-IsScheduled s c p t v r u rest nx q ps f),
      )
    ]

pub thread_sleep-Keeps :
    (s : Kernel) (q : ℕ) (ps : List ℕ)
    → Scheduled s
    → s.queues q ≡ some ps
    → Keeps (thread_sleep (some q) s)
thread_sleep-Keeps s q ps v f = elim (sleep_in s q ps v f) [
  | inl (r, s', e, w) ↦ keeps (switched r) s' e w
  | inr e ↦ keeps (returned no_thread) s e v
]
