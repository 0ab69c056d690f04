-- ===== src/Webserver/Tests.antt =====
-- Tests of the web server's model, and its theorems at concrete inputs.
use ece344_os.Prelude.{◌≡◌, refl, false, List, [], ◌∷◌, ◌++◌, arith}
use ece344_os.Webserver.Server.{
  Server, server_init, history, server_exit, works, requests, spurious_worker, joins, Event, asleep,
  happen, worker_step, worker_round, client_step, client_round, send_to_buffer, read_from_buffer,
}
use ece344_os.Webserver.Buffer.{contents}
use ece344_os.Webserver.Wakeups.{IsSound, no_lost_wakeup, exit_missed}
use ece344_os.Webserver.Fifo.{all_got, all_put, fifo}

abbrev two_slots : Server
two_slots = server_init 2 2

-- A worker waits, two requests fill the buffer, a client waits, and the worker serves two.
abbrev busy_day : List Event
busy_day =
    works 0 ∷ requests 0 7 ∷ requests 0 8 ∷ requests 1 9 ∷ works 0 ∷ requests 1 9 ∷ works 0 ∷ []

served_in_order : all_got two_slots busy_day ≡ 7 ∷ 8 ∷ []
unfolding all_got happen server_init worker_step worker_round client_step client_round
    send_to_buffer read_from_buffer
served_in_order = refl

no_lost_wakeup_example : IsSound (history two_slots busy_day)
no_lost_wakeup_example = no_lost_wakeup busy_day 2 2 (omega arith)

fifo_example :
    all_got two_slots busy_day ++ contents (history two_slots busy_day) ≡ all_put two_slots busy_day
fifo_example = fifo busy_day 2 2 (omega arith)

-- The workers 0 and 1 act, and 1 is woken spuriously.
abbrev at_exit : List Event
at_exit = works 1 ∷ spurious_worker 1 ∷ works 1 ∷ works 0 ∷ []

exit_missed_example :
    ((history (server_exit two_slots) (works 0 ∷ at_exit)).workers 0 ≡ asleep)
    × (joins 2 (history (server_exit two_slots) (works 0 ∷ at_exit)) ≡ false)
unfolding server_init
exit_missed_example = exit_missed two_slots 0 at_exit (omega arith) refl refl (omega arith)
