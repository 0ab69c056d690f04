-- ===== src/Threads/Queue.antt =====
-- The queues of threads/thread.c: the ready queue and the wait queues.
use ece344_os.Prelude.{
  ℕ, zero, suc, ◌+◌, Bool, true, false, Option, none, some, List, [], ◌∷◌, ◌++◌, upd, ◌==◌,
  if◌then◌else◌, length, pure, ◌>>=◌, ◌>>◌, modify,
}
use ece344_os.Threads.State.{
  Tid, num, no_thread, max_threads, M, load, load_queue, store_queue, thread_at, set_status, ready,
  interrupts_off, finish,
}

-- `queue_count`
unfoldable pub queue_count : List ℕ → ℕ
queue_count ps = length ps

-- `get_first`
unfoldable pub get_first : List ℕ → M Tid
get_first [] = pure no_thread
get_first (p ∷ ps) = do t ← load p; pure (num t.id)

-- `add_to_queue`
unfoldable pub add_to_queue : List ℕ → ℕ → List ℕ
add_to_queue ps p = ps ++ (p ∷ [])

-- `delete_from_queue`: the first node whose thread has the id is unlinked.
unfoldable pub delete_from_queue : List ℕ → ℕ → M (List ℕ)
delete_from_queue [] id = pure []
delete_from_queue (p ∷ ps) id = do
  t ← load p
  let rest : M (List ℕ) = (do qs ← delete_from_queue ps id; pure (p ∷ qs))
  if t.id == id then pure ps else rest

abbrev pub add_ready : ℕ → M (Unit {0})
add_ready p = modify (λ s. record s { ready_queue = add_to_queue s.ready_queue p })

abbrev pub delete_ready : ℕ → M (Unit {0})
delete_ready id = do
  q ← (λ s. delete_from_queue s.ready_queue id s)
  modify (λ s. record s { ready_queue = q })

-- The inner loop of `delete_from_all_queues` on one wait queue: each node of the thread is unlinked.
-- (The loop reads `next` of a node after it has been freed; that field is taken to be unchanged.)
unfoldable pub delete_nodes : List ℕ → ℕ → M (List ℕ)
delete_nodes [] id = pure []
delete_nodes (p ∷ ps) id = do
  t ← load p
  qs ← delete_nodes ps id
  pure (if t.id == id then qs else p ∷ qs)

-- The outer loop, from the slot `i` on, with `n` slots left.
unfoldable pub delete_from_slots : ℕ → ℕ → ℕ → M (Unit {0})
delete_from_slots zero i id = pure tt
delete_from_slots (suc n) i id = do
  (λ s. elim (s.threads i) [
    | none ↦ some (tt, s)
    | some p ↦
        (do t ← load p; ps ← load_queue t.queue; qs ← delete_nodes ps id; store_queue t.queue qs) s
  ])
  delete_from_slots n (i + 1) id

-- `delete_from_all_queues`
unfoldable pub delete_from_all_queues : ℕ → M (Unit {0})
delete_from_all_queues id = delete_from_slots max_threads 0 id

-- `wait_queue_create`: the new queue's address
unfoldable pub wait_queue_create : M ℕ
wait_queue_create = do
  enabled ← interrupts_off
  (λ s.
      finish enabled (s.next)
        (record s { queues = upd s.queues s.next (some []); next = s.next + 1 }))

-- The loop of `wait_queue_destroy`: the first node is unlinked until none is left.
unfoldable pub drain : List ℕ → M (Unit {0})
drain [] = pure tt
drain (p ∷ ps) = do _ ← load p; drain ps

-- `wait_queue_destroy`
unfoldable pub wait_queue_destroy : ℕ → M (Unit {0})
wait_queue_destroy q = do
  ps ← load_queue q
  drain ps
  modify (λ s. record s { queues = upd s.queues q none })

-- `free_thread`
unfoldable pub free_thread : ℕ → M (Unit {0})
free_thread id = do
  p ← thread_at id
  t ← load p
  wait_queue_destroy t.queue
  modify (λ s. record s { heap = upd s.heap p none; threads = upd s.threads id none })

-- One thread of a wait queue made ready: the body of the loop in `thread_wakeup`, for the first
-- node `p`, with the rest `ps` of the queue `q`.
unfoldable pub wake_first : ℕ → ℕ → List ℕ → M (Unit {0})
wake_first q p ps = do
  t ← load p
  store_queue q ps
  w ← thread_at t.id
  add_ready w
  set_status w ready

-- The loop of `thread_wakeup` for `all`: the number of threads woken.
unfoldable pub wake_all : ℕ → List ℕ → M ℕ
wake_all q [] = pure 0
wake_all q (p ∷ ps) = do wake_first q p ps; n ← wake_all q ps; pure (n + 1)

-- `thread_wakeup` on a queue with the nodes `ps`
unfoldable pub wakeup_nodes : ℕ → Bool → List ℕ → M ℕ
wakeup_nodes q all [] = pure 0
wakeup_nodes q true (p ∷ ps) = wake_all q (p ∷ ps)
wakeup_nodes q false (p ∷ ps) = do wake_first q p ps; pure 1

-- `thread_wakeup`; `none` is the NULL pointer
unfoldable pub thread_wakeup : Option ℕ → Bool → M ℕ
thread_wakeup none all = do enabled ← interrupts_off; finish enabled 0
thread_wakeup (some q) all = do
  enabled ← interrupts_off
  ps ← load_queue q
  n ← wakeup_nodes q all ps
  finish enabled n
