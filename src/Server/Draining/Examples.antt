-- ===== src/Server/Draining/Examples.antt =====
-- A session whose terminal is resized twice.
use mathlib.Core.List.{Sublist}
use voidshell.Prelude.{
  ◌≡◌, ◌≢◌, ◌≤◌, ◌⊎◌, refl, true, false, Option, none, some, List, [], ◌∷◌, ◌++◌, codes, text_eq,
  length,
}
use voidshell.Server.Wire.{Request, reply}
use voidshell.Server.Session.{Terminal, push, next, stop, resize, drain_request}
use voidshell.Server.Examples.{wire}
use voidshell.Server.Draining.{
  Draining, served, returned, ended, main_step, resizes, asks, drainer_step, is_some, step, Move,
  on_main, reads, on_drainer, Reach, start, later,
}
use voidshell.Server.Draining.Joined.{handle_session-drains}

abbrev wide : Terminal
wide = record { tty = true; term = codes "xterm"; cols = 80; rows = 24 }

abbrev window : Request
window = record { kind = codes "window-change"; want_reply = true; payload = [] }

record Run : Type 0 where
  last : Draining
  reach : Reach wire wide last

take_step : (r : Run) (m : Move) (o : Option Draining) → step wire wide m r.last ≡ o → Run
take_step r m none e = r
take_step r m (some s) e = record { last = s; reach = later m r.reach e }

run : List Move → Run → Run
unfolding take_step
run [] r = r
run (m ∷ ms) r = run ms (take_step r m (step wire wide m r.last) refl)

-- A resize is taken while the program runs, and another after it has ended.
abbrev resized_twice : Run
resized_twice =
    run
      (on_main
        ∷ on_main
        ∷ on_drainer (some window)
        ∷ on_drainer none
        ∷ reads
        ∷ on_main
        ∷ on_main
        ∷ on_drainer (some window)
        ∷ on_main
        ∷ on_drainer none
        ∷ on_drainer none
        ∷ on_drainer none
        ∷ on_drainer none
        ∷ on_main
        ∷ on_main
        ∷ on_main
        ∷ on_main
        ∷ [])
      (record { last = served; reach = start })

resized_twice_returned :
    (resized_twice.last.main ≡ returned) × (resized_twice.last.replies ≡ false ∷ false ∷ [])
unfolding run step main_step drainer_step resizes drain_request asks resize push next stop reply
    text_eq
resized_twice_returned = (refl, refl)

handle_session-drains_example :
    (resized_twice.last.panicked ≡ false)
    × Sublist
        (resized_twice.last.resized ++ resized_twice.last.sizes.queued)
        resized_twice.last.asked
    × (length resized_twice.last.sizes.queued ≤ 16)
    × (length resized_twice.last.asked ≤ 16
        → resized_twice.last.resized ++ resized_twice.last.sizes.queued ≡ resized_twice.last.asked)
    × (resized_twice.last.main ≡ returned
        → (resized_twice.last.drainer ≡ ended)
          × (resized_twice.last.cancelled ≡ true)
          × (resized_twice.last.sizes.closed ≡ true)
          × (resized_twice.last.closed ≡ true))
    × (resized_twice.last.main ≢ returned
        → (req : Option Request)
        → (is_some (step wire wide on_main resized_twice.last) ≡ true)
          ⊎ (is_some (step wire wide (on_drainer req) resized_twice.last) ≡ true))
handle_session-drains_example = handle_session-drains resized_twice.reach
