-- ===== src/K8s/ApiForward/Examples.antt =====
-- A connection that ends well, and one that is cancelled while its data stream is reset.
use voidshell.Prelude.{
  ◌≡◌, ◌≢◌, refl, true, false, Option, none, some, List, [], ◌∷◌, codes, text_eq, arith,
}
use voidshell.K8s.Decimal.{itoa}
use voidshell.K8s.Forward.{
  ForwardError, Wait, Calls, cancelled, remote_done, errors_read, receive, forward_api,
}
use voidshell.K8s.Forward.Tunnelled.{Tunnelled}
use voidshell.K8s.DirectForward.{armed}
use voidshell.K8s.ApiForward.{
  ApiForwarding, Output, Reader, waiting, called, main_step, take_context, take_remote, take_errors,
  Move, on_main, takes_context, takes_remote, takes_errors, input_closes, context_ends, func_starts,
  func_closes, reader_ends, input_ends, output_ends, around, step, Reach, start, later,
}
use voidshell.K8s.ApiForward.Remaining.{with_events}
use voidshell.K8s.ApiForward.Invariant.{is_returned}
use voidshell.K8s.ApiForward.Answers.{answer, forward-Answers}

abbrev lib : Calls
lib = record {
  has_rest_config = true;
  makes_transport = true;
  makes_request = true;
  protocol_v1 = codes "v1";
  negotiate = λ req protocol. some protocol;
  create_stream = λ headers. text_eq headers.port (codes "8080");
  events = [];
}

abbrev Steps : ApiForwarding → Type 0
Steps s = Reach lib (codes "guests") (codes "shell-a") 8080 s

record Run : Type 0 where
  last : ApiForwarding
  reach : Steps last

take_step :
    (r : Run) (m : Move) (o : Option ApiForwarding)
    → step lib (codes "guests") (codes "shell-a") 8080 m r.last ≡ o
    → Run
take_step r m none e = r
take_step r m (some s) e = record { last = s; reach = later m r.reach e }

run : List Move → Run → Run
unfolding take_step
run [] r = r
run (m ∷ ms) r =
    run ms (take_step r m (step lib (codes "guests") (codes "shell-a") 8080 m r.last) refl)

abbrev connected : Run
connected =
    run (on_main ∷ on_main ∷ on_main ∷ on_main ∷ on_main ∷ on_main ∷ on_main ∷ on_main ∷ [])
      (record { last = called; reach = start })

-- The pod's end comes first, and the error stream after it.
abbrev copied : Run
copied =
    run
      (output_ends none
        ∷ takes_remote
        ∷ on_main
        ∷ reader_ends [] none
        ∷ takes_errors
        ∷ on_main
        ∷ on_main
        ∷ input_ends none
        ∷ input_closes
        ∷ [])
      connected

copied_returned :
    (answer copied.last.phase ≡ some none)
    × (copied.last.heard ≡ remote_done none ∷ errors_read [] none ∷ [])
    × (copied.last.conn_closed ≡ true)
unfolding run step main_step take_remote take_errors around receive itoa text_eq
copied_returned = (refl, refl, refl)

abbrev dropped : Run
dropped =
    run
      (output_ends none
        ∷ takes_remote
        ∷ context_ends
        ∷ func_starts
        ∷ on_main
        ∷ takes_context
        ∷ func_closes
        ∷ [])
      connected

dropped_cancelled :
    (answer dropped.last.phase ≡ some (some cancelled)) × (dropped.last.data_reset ≡ true)
unfolding run step main_step take_context take_remote around receive itoa text_eq
dropped_cancelled = (refl, refl)

forward-Answers_example :
    ((r : Option ForwardError)
      → answer copied.last.phase ≡ some r
      → forward_api (with_events lib copied.last.heard) (codes "guests") (codes "shell-a") 8080
        ≡ some r)
    × (answer copied.last.phase ≡ some none
        → Tunnelled (with_events lib copied.last.heard) (codes "guests") (codes "shell-a") 8080
          × (copied.last.output ≡ Output.taken none)
          × (copied.last.reader ≡ Reader.taken [] none))
    × (copied.last.conn_closed ≡ true
        → is_returned copied.last.phase ≡ false
        → copied.last.context_done ≡ true)
    × (is_returned copied.last.phase ≡ true
        → (copied.last.conn_closed ≡ copied.last.has_conn) × (copied.last.after ≢ armed))
    × ((w : Wait)
        → copied.last.phase ≡ waiting w
        → copied.last.context_done ≡ true
        → (s : ApiForwarding) × (step lib
              (codes "guests")
              (codes "shell-a")
              8080
              takes_context
              copied.last
            ≡ some s)
          × (answer s.phase ≡ some (some cancelled)))
forward-Answers_example =
    forward-Answers lib (codes "guests") (codes "shell-a") 8080 (omega arith) copied.reach
