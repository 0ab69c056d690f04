-- ===== src/Threads/HistoryTests.antt =====
-- The theorems on histories of calls of threads/thread.c at a concrete history: thread_init, then
-- thread_create.
use ece344_os.Prelude.{◌≡◌, refl, true, some, upd, [], ◌∷◌}
use ece344_os.Threads.State.{
  num, ready, start, Thread, Kernel, interrupts_off, interrupts_set, finish,
}
use ece344_os.Threads.Queue.{add_to_queue}
use ece344_os.Threads.Scheduler.{Mallocs, thread_init, get_id, free_slot, new_thread, thread_create}
use ece344_os.Threads.Scheduled.{Scheduled}
use ece344_os.Threads.Begun.{blank, begun}
use ece344_os.Threads.History.{Reach, begins, goes_on, creates, Reach-Scheduled}

abbrev second : Thread
second = record { id = 1; status = ready; context = start; killmepls = 0; queue = 4 }

-- Every call of malloc succeeds, with zeros.
abbrev all_given : Mallocs
all_given = record { stack = true; thread = true; wait_queue = true; node = true; zeroed = true }

abbrev start_state : Kernel
start_state = begun true 0

-- Two threads.
abbrev pair : Kernel
pair = record start_state {
  threads = upd start_state.threads 1 (some 3);
  heap = upd start_state.heap 3 (some second);
  queues = upd start_state.queues 4 (some []);
  ready_queue = 3 ∷ [];
  next = 5;
}

begun-eq : thread_init true 0 blank ≡ some (tt, start_state)
unfolding thread_init
begun-eq = refl

pair-eq : thread_create all_given start_state ≡ some (num 1, pair)
unfolding thread_create get_id free_slot new_thread add_to_queue interrupts_off interrupts_set
    finish
pair-eq = refl

pair-Reach : Reach pair
pair-Reach = goes_on (begins true 0 begun-eq) (creates all_given (num 1) refl pair-eq)

Reach-Scheduled_example : Scheduled pair
Reach-Scheduled_example = Reach-Scheduled pair pair-Reach
