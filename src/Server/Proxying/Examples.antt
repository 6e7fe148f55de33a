-- ===== src/Server/Proxying/Examples.antt =====
-- A proxied session that ends with an exit status.
use voidshell.Prelude.{
  ◌≤◌, ◌≡◌, refl, true, false, Option, none, some, List, [], ◌∷◌, ◌++◌, codes, length, Bool,
}
use voidshell.Server.Wire.{Request}
use voidshell.Server.Effects.{release_once, has_release}
use voidshell.Server.Examples.{wire}
use voidshell.Server.Proxy.{count_starts, count_ptys}
use voidshell.Server.Relay
use voidshell.Server.Relay.{proxy_session, told_exit}
use voidshell.Server.Proxying.{
  Proxying, accepted, Choice, Move, on_main, on_reader, output_ends, outputs_joined, takes,
  returned, main_step, reader_step, take_pending, return_with, step, Reach, start, later, holding,
  ended,
}
use voidshell.Server.Proxying.Refines.{returned-proxy_session}
use voidshell.Server.Proxying.Pending.{sent_of, gives_up, pending_requests}

abbrev shell : Request
shell = record { kind = codes "shell"; want_reply = true; payload = [] }

abbrev exit : Request
exit = record { kind = codes "exit-status"; want_reply = false; payload = 0 ∷ 0 ∷ 0 ∷ 0 ∷ [] }

abbrev works : Choice
works = record { succeeds = true; request = none }

abbrev gives : Request → Choice
gives req = record { succeeds = true; request = some req }

record Run : Type 0 where
  last : Proxying
  reach : Reach last

take_step : (r : Run) (m : Move) (o : Option Proxying) → step m r.last ≡ o → Run
take_step r m none e = r
take_step r m (some s) e = record { last = s; reach = later m r.reach e }

run : List Move → Run → Run
unfolding take_step
run [] r = r
run (m ∷ ms) r = run ms (take_step r m (step m r.last) refl)

abbrev at_start : Run
at_start = record { last = accepted; reach = start }

-- The client asks for a shell before the workspace is there, and closes its channel at the end.
abbrev exits : Run
exits =
    run
      (on_reader (gives shell)
        ∷ on_reader works
        ∷ on_main works
        ∷ on_main works
        ∷ on_main works
        ∷ takes
        ∷ on_main (gives exit)
        ∷ on_main works
        ∷ output_ends
        ∷ output_ends
        ∷ outputs_joined
        ∷ on_main works
        ∷ on_main works
        ∷ on_reader works
        ∷ [])
      at_start

exits_returned :
    (exits.last.main ≡ returned) × (exits.last.taken ≡ shell ∷ []) × (exits.last.heard ≡ exit ∷ [])
unfolding run step main_step reader_step take_pending return_with told_exit release_once has_release
exits_returned = (refl, refl, refl)

returned-proxy_session_example :
    (a : Relay.Answers) × (exits.last.trace ≡ proxy_session a)
    × (a.remote_requests ≡ exits.last.heard)
    × (a.acquires ≡ true → a.opens_ssh ≡ true → a.opens_remote ≡ true → exits.last.outputs ≡ 0)
returned-proxy_session_example = returned-proxy_session exits.reach exits_returned.0

agrees : List Request → Request → Option Bool
agrees before req = some true

pending_requests_example :
    (exits.last.taken ++ exits.last.pending ≡ exits.last.queued)
    × (length exits.last.pending ≤ 16)
    × (count_starts (sent_of wire agrees exits.last) ≤ 1)
    × (count_ptys (sent_of wire agrees exits.last) ≤ 1)
    × (exits.last.reader ≡ ended → exits.last.cancelled ≡ true)
    × (exits.last.main ≡ returned → exits.last.cancelled ≡ true)
    × ((req : Request)
        → exits.last.reader ≡ holding req
        → exits.last.cancelled ≡ true
        → (s : Proxying) × (step (on_reader gives_up) exits.last ≡ some s) × (s.reader ≡ ended))
pending_requests_example = pending_requests wire agrees exits.reach
