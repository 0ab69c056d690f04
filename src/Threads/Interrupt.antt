-- ===== src/Threads/Interrupt.antt =====
-- The rest of threads/interrupt.c: the interrupt mask and the handler that preempts a thread. The timer
-- that set_interrupt arms is no part of the state, and what the handler prints if it is `loud` is left out.
use ece344_os.Prelude.{Bool, true, false, Option, some, none, fault, ◌>>=◌, if◌then◌else◌}
use ece344_os.Threads.State.{M, any, interrupts_set}
use ece344_os.Threads.Scheduler.{Outcome, thread_yield}

-- `interrupts_on`: the old mask
unfoldable pub interrupts_on : M Bool
interrupts_on = interrupts_set true

-- `interrupts_enabled`
unfoldable pub interrupts_enabled : M Bool
interrupts_enabled s = some (s.enabled, s)

-- The statics `init` and `loud`.
pub record Handler : Type 0 where
  pub init : Bool
  pub loud : Bool

-- `register_interrupt_handler`; a second call fails its assert.
unfoldable pub register_interrupt_handler : Bool → Handler → Option Handler
register_interrupt_handler verbose h =
    if h.init then none else some (record { init = true; loud = verbose })

-- `interrupts_quiet`
unfoldable pub interrupts_quiet : Handler → Handler
interrupts_quiet h = record h { loud = false }

-- `interrupt_handler`. It runs with its signal blocked, as sigaction without SA_NODEFER has it.
unfoldable pub interrupt_handler : M Outcome
interrupt_handler = do enabled ← interrupts_enabled; if enabled then fault else thread_yield any
