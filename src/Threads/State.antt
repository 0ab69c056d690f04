-- ===== src/Threads/State.antt =====
-- The state of threads/thread.c. Structs are named by their addresses. `none` is an access through
-- a NULL or dangling pointer, a failed assert, or the end of the program by `exit`.
-- The head of a thread's wait queue is not initialised: unless malloc happens to give zeros there, the
-- thread has no queue at its address, and an access through it faults. The other calls of malloc but
-- those of `thread_create` succeed.
use ece344_os.Prelude.{
  ℕ, Bool, false, Option, none, some, List, [], if◌then◌else◌, upd, Op, ◌>>=◌, ◌≡◌, sym, ap, count,
  true, arith,
}

-- A `Tid`: `num n` is n, and `neg n` is -n.
pub data Tid : Type 0 where
  num : ℕ → Tid
  neg : ℕ → Tid

abbrev pub any : Tid
any = neg 1

abbrev pub self : Tid
self = neg 2

abbrev pub invalid : Tid
invalid = neg 3

-- THREAD_NONE
abbrev pub no_thread : Tid
no_thread = neg 4

abbrev pub nomore : Tid
nomore = neg 5

abbrev pub nomemory : Tid
nomemory = neg 6

abbrev pub max_threads : ℕ
max_threads = 1024

pub data Status : Type 0 where
  running ready blocked exited : Status

-- Where a thread goes on when its context is set: at its start, or behind the getcontext of
-- `thread_yield` or of `thread_sleep`, with the local variables that are read there.
pub data Context : Type 0 where
  start : Context
  yielded : ℕ → Bool → Context
  slept : Tid → Bool → Context

-- `struct thread`; `queue` is the address of its wait queue
pub record Thread : Type 0 where
  pub id : ℕ
  pub status : Status
  pub context : Context
  pub killmepls : ℕ
  pub queue : ℕ

-- `struct lock`: `owner` is the field `thread`
pub record Lock : Type 0 where
  pub queue : ℕ
  pub owner : Tid
  pub acquired : Bool

-- The globals `threads` and `ready_queue`, the structs on the heap, the interrupt mask, and the
-- next address. A queue is the list of the threads of its nodes, without the head node.
pub record Kernel : Type 0 where
  pub threads : ℕ → Option ℕ
  pub ready_queue : List ℕ
  pub heap : ℕ → Option Thread
  pub queues : ℕ → Option (List ℕ)
  pub locks : ℕ → Option Lock
  pub cvs : ℕ → Option ℕ
  pub enabled : Bool
  pub next : ℕ

abbrev pub M : Type 0 → Type 0
M A = Op Kernel A

-- A pointer read from a table or a struct: NULL and a dangling one fault.
abbrev pub the {ℓ} : {A : Type ℓ} → Option A → Kernel → Option (A × Kernel)
the none s = none
the (some a) s = some (a, s)

abbrev pub load : ℕ → M Thread
load p s = the (s.heap p) s

abbrev pub store : ℕ → Thread → M (Unit {0})
store p t s = some (tt, record s { heap = upd s.heap p (some t) })

abbrev pub load_queue : ℕ → M (List ℕ)
load_queue q s = the (s.queues q) s

abbrev pub store_queue : ℕ → List ℕ → M (Unit {0})
store_queue q ps s = some (tt, record s { queues = upd s.queues q (some ps) })

-- The wait queue behind a new head, by whether malloc gives it zeros.
abbrev pub new_queue : Bool → Option (List ℕ)
new_queue zeroed = if zeroed then some [] else none

pub new_queue-empty :
    (zeroed : Bool) (ps : List ℕ) (x : ℕ) → new_queue zeroed ≡ some ps → count x ps ≡ 0
new_queue-empty true ps x e = let same : [] ≡ ps = ground (arith, e) in sym (ap (count x) same)
new_queue-empty false ps x e = absurd (ground (arith, e))

abbrev pub thread_at : ℕ → M ℕ
thread_at i s = the (s.threads i) s

abbrev pub set_status : ℕ → Status → M (Unit {0})
set_status p st = do t ← load p; store p (record t { status = st })

-- `interrupts_set` and `interrupts_off` of threads/interrupt.c: the old mask is returned.
unfoldable pub interrupts_set : Bool → M Bool
interrupts_set e s = some (s.enabled, record s { enabled = e })

unfoldable pub interrupts_off : M Bool
interrupts_off s = interrupts_set false s

-- `interrupts_set(enabled); return r;`
unfoldable pub finish {ℓ} : {A : Type ℓ} → Bool → A → Kernel → Option (A × Kernel)
finish e a s = some (a, record s { enabled = e })
