-- ===== src/Threads/Scheduler.antt =====
-- The scheduling of threads/thread.c: creating, yielding, exiting, killing, sleeping and waiting.
-- A call that sets another thread's context does not return at once: it is `switched`, and goes on
-- by `resume` when its own context is set again.
use ece344_os.Prelude.{
  ℕ, zero, suc, ◌+◌, Bool, true, false, not, ◌&&◌, Option, none, some, [], upd, ltb, ◌==◌,
  if◌then◌else◌, ◌⊎◌, inl, inr, pure, fault, ◌>>=◌, ◌>>◌,
}
use ece344_os.Threads.State.{
  Tid, num, neg, invalid, no_thread, nomore, nomemory, max_threads, Status, running, ready, blocked,
  exited, start, yielded, slept, M, load, store, load_queue, store_queue, new_queue, thread_at,
  set_status, interrupts_off, finish,
}
use ece344_os.Threads.Queue.{
  get_first, add_to_queue, delete_from_all_queues, add_ready, delete_ready, free_thread,
  thread_wakeup,
}

abbrev pub is_running : Status → Bool
is_running running = true
is_running _ = false

abbrev pub is_ready : Status → Bool
is_ready ready = true
is_ready _ = false

abbrev pub is_exited : Status → Bool
is_exited exited = true
is_exited _ = false

-- The first slot from `i` on, of `n`, whose thread passes the test.
unfoldable pub first_thread : (Status → Bool) → ℕ → ℕ → M (Option ℕ)
first_thread test zero i = pure none
first_thread test (suc n) i = do
  found ← (λ s. elim (s.threads i) [
    | none ↦ some (false, s)
    | some p ↦ (do t ← load p; pure (test t.status)) s
  ])
  let rest = first_thread test n (i + 1)
  if found then pure (some i) else rest

-- `thread_id`
unfoldable pub thread_id : M Tid
thread_id = do
  found ← first_thread is_running max_threads 0
  elim found [ none ↦ pure invalid | some i ↦ pure (num i) ]

-- `get_id`: the first slot from `i` on, of `n`, that is empty or has an exited thread.
unfoldable pub free_slot : ℕ → ℕ → M (Option ℕ)
free_slot zero i = pure none
free_slot (suc n) i = do
  free ← (λ s. elim (s.threads i) [
    | none ↦ some (true, s)
    | some p ↦ (do t ← load p; pure (is_exited t.status)) s
  ])
  let rest = free_slot n (i + 1)
  if free then pure (some i) else rest

unfoldable pub get_id : M Tid
get_id = do
  found ← free_slot max_threads 0
  elim found [ none ↦ pure nomore | some i ↦ pure (num i) ]

-- `free_exited`: at most one thread is freed.
unfoldable pub free_exited : M Tid
free_exited = do
  found ← first_thread is_exited max_threads 0
  elim found [ none ↦ pure no_thread | some i ↦ do delete_ready i; free_thread i; pure (num i) ]

-- `thread_init`, on a program that has no threads. It assigns neither `next` of the head of the wait
-- queue nor `killmepls`: the arguments say whether the one holds zeros, and what the other holds.
unfoldable pub thread_init : Bool → ℕ → M (Unit {0})
thread_init zeroed killmepls s = some (
  tt,
  record s {
    threads = upd s.threads 0 (some s.next);
    heap = upd s.heap s.next (
        some (record {
          id = 0;
          status = running;
          context = start;
          killmepls = killmepls;
          queue = s.next + 1;
        }));
    queues = upd s.queues (s.next + 1) (new_queue zeroed);
    ready_queue = [];
    next = s.next + 2;
  },
)

-- What the calls of malloc in `thread_create` give: whether those of the stack and of the thread
-- succeed, those of its `struct wait_queue` and of the node in `add_to_queue`, which are not tested;
-- and whether the head of the wait queue holds zeros.
pub record Mallocs : Type 0 where
  pub stack : Bool
  pub thread : Bool
  pub wait_queue : Bool
  pub node : Bool
  pub zeroed : Bool

-- The part of `thread_create` behind the allocations, for the id that `get_id` returns.
unfoldable pub new_thread : Bool → ℕ → M (Unit {0})
new_thread zeroed id = do
  p ← (λ s. some (
    s.next,
    record s {
      heap = upd s.heap s.next (
          some (record {
            id = id;
            status = ready;
            context = start;
            killmepls = 0;
            queue = s.next + 1;
          }));
      queues = upd s.queues (s.next + 1) (new_queue zeroed);
      threads = upd s.threads id (some s.next);
      next = s.next + 2;
    },
  ))
  add_ready p

-- `thread_create`
unfoldable pub thread_create : Mallocs → M Tid
thread_create m = do
  enabled ← interrupts_off
  id ← get_id
  elim id [
    | neg n ↦ finish enabled nomore
    | num i ↦
        if m.stack && m.thread
        then if m.wait_queue && m.node
          then (do new_thread m.zeroed i; finish enabled (num i))
          else fault
        else finish enabled nomemory
  ]

-- What a call does: it returns, or the context of the thread at an address is set.
pub data Outcome : Type 0 where
  returned : Tid → Outcome
  switched : ℕ → Outcome

-- The thread that `thread_yield` looks for, from the test of `want_tid` on: an id, or the value
-- that it returns at once.
unfoldable pub yield_target : Tid → Tid → M (Tid ⊎ ℕ)
yield_target running_id (neg n) =
    if n == 2
    then pure (inl running_id)
    else if n == 1
    then (do
      first ← (λ s. get_first s.ready_queue s)
      elim first [ neg _ ↦ pure (inl no_thread) | num i ↦ pure (inr i) ])
    else pure (inl invalid)
yield_target running_id (num want) = if not (ltb want max_threads) then pure (inl invalid) else (do
  current ← thread_id
  if elim current [ num i ↦ i == want | neg _ ↦ false ] then pure (inl running_id) else (λ s.
      elim (s.threads want) [
        | none ↦ some (inl invalid, s)
        | some p ↦ (do t ← load p; pure (if is_ready t.status then inr want else inl invalid)) s
      ]))

abbrev pub the_id : Tid → M ℕ
the_id (num i) = pure i
the_id (neg n) = fault

-- The switch of `thread_yield` to the thread `ready_id`.
unfoldable pub yield_to : Bool → Tid → ℕ → M Outcome
yield_to enabled running_id ready_id = do
  ready_thread ← thread_at ready_id
  delete_ready ready_id
  _ ← free_exited
  i ← the_id running_id
  current ← thread_at i
  t ← load current
  store current (record t { context = yielded ready_thread enabled })
  set_status ready_thread running
  set_status current ready
  add_ready current
  pure (switched ready_thread)

-- `thread_yield`
unfoldable pub thread_yield : Tid → M Outcome
thread_yield want_tid = do
  enabled ← interrupts_off
  running_id ← thread_id
  _ ← free_exited
  target ← yield_target running_id want_tid
  elim target [
    | inl r ↦ finish enabled (returned r)
    | inr ready_id ↦ yield_to enabled running_id ready_id
  ]

-- What a thread does when its context is set: a new one enters `thread_stub`, which turns
-- interrupts on; the others return from their calls.
unfoldable pub resume : ℕ → M Tid
resume p = do
  t ← load p
  elim t.context [
    | start ↦ finish true (num t.id)
    | yielded q enabled ↦ do r ← load q; finish enabled (num r.id)
    | slept ready_id enabled ↦ do _ ← free_exited; finish enabled ready_id
  ]

-- `yeet`: the first thread of the ready queue runs, if there is one.
unfoldable pub yeet : M Outcome
yeet = do
  first ← (λ s. get_first s.ready_queue s)
  elim first [
    | neg _ ↦ pure (returned no_thread)
    | num i ↦ do
      p ← thread_at i
      set_status p running
      t ← load p
      delete_ready t.id
      pure (switched p)
  ]

-- `thread_exit`: the address of the thread that runs then. `exit(0)` is `none`.
unfoldable pub thread_exit : M ℕ
thread_exit = do
  enabled ← interrupts_off
  _ ← free_exited
  me ← thread_id
  id ← the_id me
  p ← thread_at id
  t ← load p
  store p (record t { killmepls = 1 })
  delete_from_all_queues id
  _ ← thread_wakeup (some t.queue) true
  set_status p exited
  next ← yeet
  elim next [ returned _ ↦ fault | switched q ↦ pure q ]

-- The test `valid_id` of `thread_kill` and `thread_wait`: the id of another thread that exists.
unfoldable pub other_thread : Tid → M (Option ℕ)
other_thread (neg n) = pure none
other_thread (num tid) = do
  current ← thread_id
  (λ s. some (
    (if ltb tid max_threads
        then elim (s.threads tid) [
          | none ↦ none
          | some _ ↦ if elim current [ num i ↦ i == tid | neg _ ↦ false ] then none else some tid
        ]
        else none),
    s,
  ))

-- `thread_kill`
unfoldable pub thread_kill : Tid → M Tid
thread_kill tid = do
  enabled ← interrupts_off
  valid ← other_thread tid
  elim valid [
    | none ↦ finish enabled invalid
    | some id ↦ do
      p ← thread_at id
      set_status p exited
      delete_ready id
      t ← load p
      _ ← thread_wakeup (some t.queue) true
      delete_from_all_queues id
      _ ← free_exited
      finish enabled (num id)
  ]

-- The switch of `thread_sleep` to the first thread of the ready queue.
unfoldable pub sleep_to : Bool → ℕ → ℕ → M Outcome
sleep_to enabled q ready_id = do
  ready_thread ← thread_at ready_id
  me ← thread_id
  i ← the_id me
  current ← thread_at i
  t ← load current
  store current (record t { context = slept (num ready_id) enabled })
  ps ← load_queue q
  store_queue q (add_to_queue ps current)
  r ← load ready_thread
  delete_ready r.id
  set_status ready_thread running
  set_status current blocked
  pure (switched ready_thread)

-- `thread_sleep`; `none` is the NULL pointer
unfoldable pub thread_sleep : Option ℕ → M Outcome
thread_sleep none = do enabled ← interrupts_off; finish enabled (returned invalid)
thread_sleep (some q) = do
  enabled ← interrupts_off
  first ← (λ s. get_first s.ready_queue s)
  elim first [
    | neg _ ↦ finish enabled (returned no_thread)
    | num ready_id ↦ sleep_to enabled q ready_id
  ]
