-- ===== src/Threads/Sync.antt =====
-- thread_wait, the locks and the condition variables of threads/thread.c.
-- Where a call sleeps, the model gives the outcome of the sleep; the thread goes on behind it when it
-- is resumed: `thread_wait` returns the id, `lock_acquire` starts its next round, `cv_wait` acquires.
use ece344_os.Prelude.{
  ℕ, ◌+◌, Bool, true, false, ◌&&◌, none, some, [], ◌∷◌, upd, ◌==◌, if◌then◌else◌, pure, ◌>>=◌, ◌>>◌,
  modify,
}
use ece344_os.Threads.State.{
  Tid, num, neg, invalid, Lock, M, the, load, load_queue, thread_at, interrupts_off, finish,
}
use ece344_os.Threads.Queue.{wait_queue_create, wait_queue_destroy, thread_wakeup}
use ece344_os.Threads.Scheduler.{thread_id, Outcome, returned, switched, other_thread, thread_sleep}

-- `thread_wait`
unfoldable pub thread_wait : Tid → M Outcome
thread_wait tid = do
  enabled ← interrupts_off
  valid ← other_thread tid
  elim valid [
    | none ↦ finish enabled (returned invalid)
    | some id ↦ do
      p ← thread_at id
      t ← load p
      slept ← thread_sleep (some t.queue)
      elim slept [
        | returned _ ↦ finish enabled (returned (num id))
        | switched q ↦ pure (switched q)
      ]
  ]

abbrev pub load_lock : ℕ → M Lock
load_lock l s = the (s.locks l) s

abbrev pub store_lock : ℕ → Lock → M (Unit {0})
store_lock l k s = some (tt, record s { locks = upd s.locks l (some k) })

abbrev pub same_tid : Tid → Tid → Bool
same_tid (num i) (num j) = i == j
same_tid (num i) (neg j) = false
same_tid (neg i) (num j) = false
same_tid (neg i) (neg j) = i == j

-- `lock_create`: the new lock's address. The field `thread` is not assigned: the argument is what it
-- holds.
unfoldable pub lock_create : Tid → M ℕ
lock_create owner = do
  enabled ← interrupts_off
  l ← (λ s. some (s.next, record s { next = s.next + 1 }))
  q ← wait_queue_create
  store_lock l (record { queue = q; owner = owner; acquired = false })
  finish enabled l

-- `lock_destroy`: a lock that is held is left alone.
unfoldable pub lock_destroy : ℕ → M (Unit {0})
lock_destroy l = do
  enabled ← interrupts_off
  k ← load_lock l
  if k.acquired then finish enabled tt else (do
    wait_queue_destroy k.queue
    modify (λ s. record s { locks = upd s.locks l none })
    finish enabled tt)

-- One round of the loop of `lock_acquire`: the lock is taken, or the thread sleeps. The flag is the
-- interrupt mask to restore.
pub data Round : Type 0 where
  taken : Round
  waits : Outcome → Round

unfoldable pub acquire_round : Bool → ℕ → M Round
acquire_round enabled l = do
  k ← load_lock l
  if k.acquired then (do slept ← thread_sleep (some k.queue); pure (waits slept)) else (do
    me ← thread_id
    store_lock l (record k { acquired = true; owner = me })
    finish enabled taken)

-- `lock_acquire`, up to its first sleep
unfoldable pub lock_acquire : ℕ → M Round
lock_acquire l = do enabled ← interrupts_off; acquire_round enabled l

-- `lock_release`
unfoldable pub lock_release : ℕ → M (Unit {0})
lock_release l = do
  enabled ← interrupts_off
  k ← load_lock l
  me ← thread_id
  if k.acquired && same_tid me k.owner
      then (do
        store_lock l (record k { acquired = false })
        _ ← thread_wakeup (some k.queue) true
        finish enabled tt)
      else finish enabled tt

abbrev load_cv : ℕ → M ℕ
load_cv c s = the (s.cvs c) s

-- `cv_create`: a condition variable is the address of its wait queue.
unfoldable pub cv_create : M ℕ
cv_create = do
  enabled ← interrupts_off
  c ← (λ s. some (s.next, record s { next = s.next + 1 }))
  q ← wait_queue_create
  modify (λ s. record s { cvs = upd s.cvs c (some q) })
  finish enabled c

-- `cv_destroy`: a condition variable with waiting threads is left alone.
unfoldable pub cv_destroy : ℕ → M (Unit {0})
cv_destroy c = do
  enabled ← interrupts_off
  q ← load_cv c
  ps ← load_queue q
  elim ps [
    | _ ∷ _ ↦ finish enabled tt
    | [] ↦ do
      wait_queue_destroy q
      modify (λ s. record s { cvs = upd s.cvs c none })
      finish enabled tt
  ]

-- `cv_wait` behind its release: without a sleep it goes on to acquire the lock.
abbrev pub sleep_then_acquire : Bool → ℕ → ℕ → M Round
sleep_then_acquire b q l = do
  slept ← thread_sleep (some q)
  elim slept [ switched p ↦ pure (waits (switched p)) | returned _ ↦ acquire_round b l ]

-- `cv_wait`, up to its first sleep: the owner releases the lock first.
unfoldable pub cv_wait : ℕ → ℕ → M Round
cv_wait c l = do
  enabled ← interrupts_off
  q ← load_cv c
  k ← load_lock l
  me ← thread_id
  if same_tid k.owner me
      then (do lock_release l; sleep_then_acquire enabled q l)
      else acquire_round enabled l

-- `cv_signal` for false, `cv_broadcast` for true: only the last owner of the lock wakes threads.
unfoldable pub cv_wake : Bool → ℕ → ℕ → M (Unit {0})
cv_wake all c l = do
  enabled ← interrupts_off
  q ← load_cv c
  k ← load_lock l
  me ← thread_id
  if same_tid k.owner me
      then (do _ ← thread_wakeup (some q) all; finish enabled tt)
      else finish enabled tt

unfoldable pub cv_signal : ℕ → ℕ → M (Unit {0})
cv_signal c l = cv_wake false c l

unfoldable pub cv_broadcast : ℕ → ℕ → M (Unit {0})
cv_broadcast c l = cv_wake true c l
