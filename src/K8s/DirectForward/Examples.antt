-- ===== src/K8s/DirectForward/Examples.antt =====
-- A connection whose context ends while its channel is opened, and one that is drained.
use voidshell.Prelude.{◌≡◌, ◌≢◌, ◌⊎◌, refl, true, false, Option, none, some, List, [], ◌∷◌}
use voidshell.K8s.ForwardSsh
use voidshell.K8s.ForwardSsh.{around, select, receive, returns}
use voidshell.K8s.ForwardSsh.Invariant.{IsDue}
use voidshell.K8s.DirectForward.{
  Direct, opening, looping, returned, cancelled, looped, called, leave_loop, main_step, Move,
  on_main, in_loop, context_ends, func_starts, func_closes, step, Reach, start, later,
}
use voidshell.K8s.DirectForward.Closes.{forward_ssh-closes}

record Run : Type 0 where
  last : Direct
  reach : Reach last

take_step : (r : Run) (m : Move) (o : Option Direct) → step m r.last ≡ o → Run
take_step r m none e = r
take_step r m (some s) e = record { last = s; reach = later m r.reach e }

run : List Move → Run → Run
unfolding take_step
run [] r = r
run (m ∷ ms) r = run ms (take_step r m (step m r.last) refl)

abbrev at_start : Run
at_start = record { last = called; reach = start }

abbrev interrupted : Run
interrupted =
    run
      (on_main true
        ∷ on_main true
        ∷ context_ends
        ∷ func_starts
        ∷ func_closes
        ∷ on_main false
        ∷ on_main true
        ∷ on_main true
        ∷ [])
      at_start

interrupted_returned : (interrupted.last.phase ≡ returned) × (interrupted.last.client_closed ≡ true)
unfolding run step main_step
interrupted_returned = (refl, refl)

-- The context ends in the loop, after the output.
abbrev drained : Run
drained =
    run
      (on_main true
        ∷ on_main true
        ∷ on_main true
        ∷ on_main true
        ∷ on_main true
        ∷ in_loop ForwardSsh.output_marked
        ∷ in_loop ForwardSsh.context_ends
        ∷ func_starts
        ∷ in_loop ForwardSsh.see_context
        ∷ in_loop (ForwardSsh.output_ends none)
        ∷ in_loop ForwardSsh.take_output
        ∷ in_loop (ForwardSsh.input_ends none)
        ∷ in_loop ForwardSsh.take_input
        ∷ in_loop ForwardSsh.remote_closes
        ∷ in_loop ForwardSsh.take_remote
        ∷ in_loop ForwardSsh.leave
        ∷ on_main true
        ∷ on_main true
        ∷ on_main true
        ∷ on_main true
        ∷ [])
      at_start

drained_returned :
    (drained.last.phase ≡ returned) × (drained.last.answer ≡ some (looped ForwardSsh.completed))
unfolding run step main_step leave_loop ForwardSsh.step around ForwardSsh.in_loop select receive
    returns
drained_returned = (refl, refl)

forward_ssh-closes_example :
    (drained.last.phase ≡ opening
      → drained.last.context_done ≡ true
      → (drained.last.client_closed ≡ true)
        ⊎ ((s : Direct) × (step func_starts drained.last ≡ some s))
        ⊎ ((s : Direct) × (step func_closes drained.last ≡ some s) × (s.client_closed ≡ true)))
    × (drained.last.phase ≡ looping
        → (drained.last.client_closed ≡ false)
          × (drained.last.conn_closed ≡ false)
          × (step func_starts drained.last ≡ none))
    × (drained.last.phase ≡ returned
        → (drained.last.client_closed ≡ drained.last.has_client)
          × (drained.last.conn_closed ≡ drained.last.has_conn)
          × (step func_starts drained.last ≡ none)
          × (drained.last.answer ≢ none))
    × ((o : ForwardSsh.Outcome)
        → drained.last.answer ≡ some (looped o)
        → IsDue drained.last.forwarding o)
    × (drained.last.answer ≡ some cancelled → drained.last.context_done ≡ true)
forward_ssh-closes_example = forward_ssh-closes drained.reach
