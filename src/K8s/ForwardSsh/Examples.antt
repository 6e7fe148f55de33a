-- ===== src/K8s/ForwardSsh/Examples.antt =====
-- A connection whose client leaves after the output has ended, and one that is cancelled before.
use voidshell.K8s.ForwardSsh.{
  running, completed, Forwarding, begun, Move, input_ends, output_ends, output_marked,
  remote_closes, context_ends, timer_fires, take_input, take_output, take_remote, see_context,
  leave, step, around, in_loop, select, receive, returns, Reach, start, later, is_around,
}
use voidshell.K8s.ForwardSsh.Results.{cancelled_returns, steps_left}
use voidshell.Prelude.{◌<◌, ◌≡◌, refl, true, false, Option, none, some, List, [], ◌∷◌, ◌⊎◌}

record Run : Type 0 where
  last : Forwarding
  reach : Reach last

take_step : (r : Run) (m : Move) (o : Option Forwarding) → step m r.last ≡ o → Run
take_step r m none e = r
take_step r m (some g) e = record { last = g; reach = later m r.reach e }

run : List Move → Run → Run
unfolding take_step
run [] r = r
run (m ∷ ms) r = run ms (take_step r m (step m r.last) refl)

abbrev at_start : Run
at_start = record { last = begun; reach = start }

-- The context ends after the output, and the input is still drained.
abbrev drained : Run
drained =
    run
      (output_marked
        ∷ context_ends
        ∷ see_context
        ∷ output_ends none
        ∷ take_output
        ∷ input_ends none
        ∷ take_input
        ∷ remote_closes
        ∷ take_remote
        ∷ leave
        ∷ [])
      at_start

abbrev cancelled : Run
cancelled = run (input_ends none ∷ context_ends ∷ []) at_start

drained_result : drained.last.result ≡ some completed
unfolding run step around in_loop select receive returns
drained_result = refl

cancelled_returns_example :
    ((m : Move) (g : Forwarding)
      → step m cancelled.last ≡ some g
      → steps_left g < steps_left cancelled.last)
    × (cancelled.last.context_done ≡ true
        → cancelled.last.result ≡ none
        → ((m : Move) × (g : Forwarding) × (is_around m ≡ false) × (step m cancelled.last ≡ some g))
          ⊎ (cancelled.last.timer ≡ running)
            × ((g : Forwarding) × (step timer_fires cancelled.last ≡ some g)))
cancelled_returns_example = cancelled_returns cancelled.reach
