-- ===== src/Threads/Scan.antt =====
-- The scans of the thread table in threads/thread.c: thread_id, get_id and free_exited.
use ece344_os.Prelude.{
  ℕ, zero, suc, ◌+◌, ◌≤◌, ◌<◌, ◌≡◌, refl, Bool, true, false, Option, none, some, arith, ltb,
  Bool-cases, Option-cases, inl, inr, ◌∙◌, ◌⊎◌, ap,
}
use ece344_os.Threads.State.{num, nomore, max_threads, Status, Thread, Kernel, no_thread}
use ece344_os.Threads.Scheduler.{
  is_running, is_exited, first_thread, free_slot, thread_id, get_id, free_exited,
}

-- Each slot of the table is empty or has a thread of that id.
pub record Registered (s : Kernel) : Type 0 where
  pub live : (i p : ℕ) → s.threads i ≡ some p → (t : Thread) × (s.heap p ≡ some t) × (t.id ≡ i)

-- Does the slot `i` have a thread whose status passes the test?
abbrev pub holds : Kernel → (Status → Bool) → ℕ → Bool
holds s test i = elim (s.threads i) [
  | none ↦ false
  | some p ↦ elim (s.heap p) [ none ↦ false | some t ↦ test t.status ]
]

-- Is the slot `i` empty, or has it an exited thread?
abbrev pub is_free : Kernel → ℕ → Bool
is_free s i = elim (s.threads i) [
  | none ↦ true
  | some p ↦ elim (s.heap p) [ none ↦ false | some t ↦ is_exited t.status ]
]

-- The lowest number of `i`, ..., `i + n - 1` at which `f` is true.
pub data Lowest (f : ℕ → Bool) (i n : ℕ) : Option ℕ → Type 0 where
  nowhere : ((j : ℕ) → i ≤ j → j < i + n → f j ≡ false) → Lowest f i n none
  at :
      (k : ℕ)
      → i ≤ k
      → k < i + n
      → f k ≡ true
      → ((j : ℕ) → i ≤ j → j < k → f j ≡ false)
      → Lowest f i n (some k)

Lowest-here : (f : ℕ → Bool) (i n : ℕ) → f i ≡ true → Lowest f i (suc n) (some i)
Lowest-here f i n h = at i (omega arith) (omega arith) h (λ j l r. absurd (omega arith))

Lowest-next :
    (f : ℕ → Bool) (i n : ℕ) {r : Option ℕ}
    → f i ≡ false
    → Lowest f (i + 1) n r
    → Lowest f i (suc n) r
Lowest-next f i n h (nowhere g) = nowhere (λ j l r. elim (Bool-cases (ltb i j)) [
  | inl e ↦ g j (ground arith) (omega arith)
  | inr e ↦ rw (let q : j ≡ i = ground arith in q) h
])
Lowest-next f i n h (at k l r t g) = at k (omega arith) (omega arith) t (λ j l' r'.
    elim (Bool-cases (ltb i j)) [
      | inl e ↦ g j (ground arith) r'
      | inr e ↦ rw (let q : j ≡ i = ground arith in q) h
    ])

module _ (s : Kernel) (reg : Registered s) where
  first_thread-step :
      (test : Status → Bool) (n i : ℕ)
      → ((holds s test i ≡ true) × (first_thread test (suc n) i s ≡ some (some i, s)))
        ⊎ ((holds s test i ≡ false)
            × (first_thread test (suc n) i s ≡ first_thread test n (i + 1) s))
  unfolding first_thread
  first_thread-step test n i = elim (Option-cases (s.threads i)) [
    | inl e ↦ inr (ground arith, ground arith)
    | inr (p, e) ↦
        let (t, h, _) = reg.live i p e in
        elim (Bool-cases (test t.status)) [
          | inl y ↦ inl (ground arith, ground arith)
          | inr y ↦ inr (ground arith, ground arith)
        ]
  ]

  pub first_thread-Lowest :
      (test : Status → Bool) (n i : ℕ)
      → (r : Option ℕ) × (first_thread test n i s ≡ some (r, s)) × Lowest (holds s test) i n r
  first_thread-Lowest test zero i =
      (none, unfold first_thread in refl, nowhere (λ j l r. absurd (omega arith)))
  first_thread-Lowest test (suc n) i = elim (first_thread-step test n i) [
    | inl (h, e) ↦ (some i, e, Lowest-here (holds s test) i n h)
    | inr (h, e) ↦
        let (r, e', l) = first_thread-Lowest test n (i + 1) in
        (r, e ∙ e', Lowest-next (holds s test) i n h l)
  ]

  free_slot-step :
      (n i : ℕ)
      → ((is_free s i ≡ true) × (free_slot (suc n) i s ≡ some (some i, s)))
        ⊎ ((is_free s i ≡ false) × (free_slot (suc n) i s ≡ free_slot n (i + 1) s))
  unfolding free_slot
  free_slot-step n i = elim (Option-cases (s.threads i)) [
    | inl e ↦ inl (ground arith, ground arith)
    | inr (p, e) ↦
        let (t, h, _) = reg.live i p e in
        elim (Bool-cases (is_exited t.status)) [
          | inl y ↦ inl (ground arith, ground arith)
          | inr y ↦ inr (ground arith, ground arith)
        ]
  ]

  pub free_slot-Lowest :
      (n i : ℕ) → (r : Option ℕ) × (free_slot n i s ≡ some (r, s)) × Lowest (is_free s) i n r
  free_slot-Lowest zero i =
      (none, unfold free_slot in refl, nowhere (λ j l r. absurd (omega arith)))
  free_slot-Lowest (suc n) i = elim (free_slot-step n i) [
    | inl (h, e) ↦ (some i, e, Lowest-here (is_free s) i n h)
    | inr (h, e) ↦
        let (r, e', l) = free_slot-Lowest n (i + 1) in (r, e ∙ e', Lowest-next (is_free s) i n h l)
  ]

  thread_id_of :
      (c : ℕ) (r : Option ℕ)
      → c < max_threads
      → holds s is_running c ≡ true
      → ((j : ℕ) → holds s is_running j ≡ true → j ≡ c)
      → Lowest (holds s is_running) 0 max_threads r
      → r ≡ some c
  thread_id_of c none h y only (nowhere g) = let z = g c (omega arith) (omega arith) in cc
  thread_id_of c (some k) h y only (at _ _ _ t _) = ap some (only k t)

  -- Where each slot of the table is empty or has a thread of that id, and one thread runs,
  -- thread_id returns its id and changes nothing.
  pub thread_id-running :
      (c : ℕ)
      → c < max_threads
      → holds s is_running c ≡ true
      → ((j : ℕ) → holds s is_running j ≡ true → j ≡ c)
      → thread_id s ≡ some (num c, s)
  unfolding thread_id
  thread_id-running c h y only =
      let (r, e, l) = first_thread-Lowest is_running max_threads 0 in
      ground (arith, e, thread_id_of c r h y only l)

  no_exited_of :
      (r : Option ℕ)
      → ((j : ℕ) → j < max_threads → holds s is_exited j ≡ false)
      → Lowest (holds s is_exited) 0 max_threads r
      → r ≡ none
  no_exited_of none h l = refl
  no_exited_of (some k) h (at _ l r t _) = let z = h k (omega arith) in cc

  -- With no exited thread in the table, free_exited frees nothing.
  pub free_exited-none :
      ((j : ℕ) → j < max_threads → holds s is_exited j ≡ false)
      → free_exited s ≡ some (no_thread, s)
  unfolding free_exited
  free_exited-none h =
      let (r, e, l) = first_thread-Lowest is_exited max_threads 0 in
      ground (arith, e, no_exited_of r h l)

  -- Where each slot of the table is empty or has a thread of that id, get_id returns the lowest slot that is empty or has an exited thread, or THREAD_NOMORE if each
  -- of the slots has a thread that has not exited; it changes nothing.
  pub get_id_lem :
      ((i : ℕ) × (get_id s ≡ some (num i, s))
        × (i < max_threads)
        × (is_free s i ≡ true)
        × ((j : ℕ) → j < i → is_free s j ≡ false))
      ⊎ ((get_id s ≡ some (nomore, s)) × ((j : ℕ) → j < max_threads → is_free s j ≡ false))
  get_id_lem = let (r, e, l) = free_slot-Lowest max_threads 0 in go r e l
    where
      go :
          (r : Option ℕ)
          → free_slot max_threads 0 s ≡ some (r, s)
          → Lowest (is_free s) 0 max_threads r
          → ((i : ℕ) × (get_id s ≡ some (num i, s))
              × (i < max_threads)
              × (is_free s i ≡ true)
              × ((j : ℕ) → j < i → is_free s j ≡ false))
            ⊎ ((get_id s ≡ some (nomore, s)) × ((j : ℕ) → j < max_threads → is_free s j ≡ false))
      go none e (nowhere g) =
          inr (unfold get_id in ground arith, λ j h. g j (omega arith) (omega arith))
      go (some i) e (at _ _ h t g) =
          inl (i, unfold get_id in ground arith, omega arith, t, λ j h. g j (omega arith) h)
