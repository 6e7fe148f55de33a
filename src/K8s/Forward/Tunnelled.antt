-- ===== src/K8s/Forward/Tunnelled.antt =====
-- What has happened where `Forward` through the API returns no error.
use voidshell.Prelude.{
  ℕ, Bool, true, false, Option, none, some, List, [], ◌∷◌, ◌++◌, Text, text_eq, ◌≡◌, refl, arith,
  ◌<◌, ◌^◌, text_eq_iff, ◌∙◌, ap,
}
use voidshell.K8s.Decimal.{number, number-itoa}
use voidshell.K8s.Forward.{
  Event, context_ended, local_failed, remote_done, errors_read, pod_error, copying, copy_result,
  Wait, anything, error_stream, output, receive, receives, Calls, portforward_request,
  error_headers, data_headers, forward_streams, forward_api,
}

-- An event is among some events.
abbrev pub Occurs : Event → List Event → Type 0
Occurs e events = (before : List Event) × (after : List Event) × (events ≡ before ++ e ∷ after)

Occurs-later : {e x : Event} {events : List Event} → Occurs e events → Occurs e (x ∷ events)
Occurs-later {x} (before, after, q) = (x ∷ before, after, λ i. x ∷ q i)

-- What has to have happened where `Forward` returns no error, from each wait.
abbrev Ended : Wait → List Event → Type 0
Ended anything events = Occurs (remote_done none) events × Occurs (errors_read [] none) events
Ended (error_stream e) events = (e ≡ none) × Occurs (errors_read [] none) events
Ended output events = Occurs (remote_done none) events

later-Ended : (w : Wait) (x : Event) (events : List Event) → Ended w events → Ended w (x ∷ events)
later-Ended anything x events (a, b) = (Occurs-later a, Occurs-later b)
later-Ended (error_stream e) x events (q, b) = (q, Occurs-later b)
later-Ended output x events a = Occurs-later a

receives-Ended : (w : Wait) (events : List Event) → receives w events ≡ some none → Ended w events
unfolding receives receive
receives-Ended w [] h = cc
receives-Ended anything (context_ended ∷ events) h = cc
receives-Ended anything (local_failed e ∷ events) h = cc
receives-Ended anything (remote_done none ∷ events) h =
    let (q, read) = receives-Ended (error_stream none) events h in
    (([], events, refl), Occurs-later read)
receives-Ended anything (remote_done (some e) ∷ events) h =
    let (q, read) = receives-Ended (error_stream (some (copying e))) events h in cc
receives-Ended anything (errors_read [] none ∷ events) h =
    (Occurs-later (receives-Ended output events h), ([], events, refl))
receives-Ended anything (errors_read [] (some e) ∷ events) h = cc
receives-Ended anything (errors_read (c ∷ message) failure ∷ events) h = cc
receives-Ended (error_stream x) (context_ended ∷ events) h = cc
receives-Ended (error_stream x) (local_failed e ∷ events) h =
    later-Ended (error_stream x) (local_failed e) events (receives-Ended (error_stream x) events h)
receives-Ended (error_stream x) (remote_done e ∷ events) h =
    later-Ended (error_stream x) (remote_done e) events (receives-Ended (error_stream x) events h)
receives-Ended (error_stream x) (errors_read [] none ∷ events) h = (cc, ([], events, refl))
receives-Ended (error_stream x) (errors_read [] (some e) ∷ events) h = cc
receives-Ended (error_stream x) (errors_read (c ∷ message) failure ∷ events) h = cc
receives-Ended output (context_ended ∷ events) h = cc
receives-Ended output (local_failed e ∷ events) h = cc
receives-Ended output (remote_done none ∷ events) h = ([], events, refl)
receives-Ended output (remote_done (some e) ∷ events) h = cc
receives-Ended output (errors_read message failure ∷ events) h =
    later-Ended output (errors_read message failure) events (receives-Ended output events h)

-- Neither has the context ended, nor the error stream.
abbrev pub is_unfinished : List Event → Bool
is_unfinished [] = true
is_unfinished (context_ended ∷ events) = false
is_unfinished (errors_read message failure ∷ events) = false
is_unfinished (local_failed e ∷ events) = is_unfinished events
is_unfinished (remote_done e ∷ events) = is_unfinished events

-- A connection through the API that has gone to the port of a pod, and has ended well: the API
-- server has chosen the protocol for the pod's `portforward`; the two streams were created with the
-- port in decimal; the copy of the pod's output has ended without an error; and the error stream
-- was read to its end, without a message of the pod and without an error.
pub record Tunnelled (calls : Calls) (namespace pod : Text) (port : ℕ) : Type 0 where
  pub negotiated :
      calls.negotiate (portforward_request namespace pod) calls.protocol_v1 ≡ some calls.protocol_v1
  pub error_stream_created : calls.create_stream (error_headers port) ≡ true
  pub data_stream_created : calls.create_stream (data_headers port) ≡ true
  pub to_port : number 0 (data_headers port).port ≡ port
  pub copied : Occurs (remote_done none) calls.events
  pub read : Occurs (errors_read [] none) calls.events

forward_streams-Tunnelled :
    (calls : Calls) (namespace pod : Text) (port : ℕ) (chosen : Option Text)
    → port < 2 ^ 16
    → calls.negotiate (portforward_request namespace pod) calls.protocol_v1 ≡ chosen
    → forward_streams calls port chosen ≡ some none
    → Tunnelled calls namespace pod port
unfolding forward_streams
forward_streams-Tunnelled calls namespace pod port none small e h = cc
forward_streams-Tunnelled calls namespace pod port (some protocol) small e h =
    let same : text_eq protocol calls.protocol_v1 ≡ true = ground arith in
    let ended : receives anything calls.events ≡ some none = ground arith in
    let (copied, read) = receives-Ended anything calls.events ended in
    record {
      negotiated = e ∙ ap some ((text_eq_iff protocol calls.protocol_v1).0 same);
      error_stream_created = ground arith;
      data_stream_created = ground arith;
      to_port = number-itoa port small;
      copied = copied;
      read = read;
    }

-- `Forward` through the API returns no error only where the connection has gone to the port.
pub forward_api-Tunnelled :
    (calls : Calls) (namespace pod : Text) (port : ℕ)
    → port < 2 ^ 16
    → forward_api calls namespace pod port ≡ some none
    → Tunnelled calls namespace pod port
unfolding forward_api
forward_api-Tunnelled calls namespace pod port small h =
    forward_streams-Tunnelled calls namespace pod port _ small refl (ground arith)

-- An end of the output that came with an error, or an end without one, does not hide what the pod
-- reports: after it, the message of the pod is the error that is returned, unless the context ends
-- first.
pod_error_first :
    (e : Option Text) (c : ℕ) (message : Text) (failure : Option Text) (between after : List Event)
    → is_unfinished between ≡ true
    → receives anything (remote_done e ∷ between ++ errors_read (c ∷ message) failure ∷ after)
      ≡ some (some (pod_error (c ∷ message)))
unfolding receives receive
pod_error_first e c message failure between after h = reported between h
  where
    reported :
        (l : List Event)
        → is_unfinished l ≡ true
        → receives (error_stream (copy_result e)) (l ++ errors_read (c ∷ message) failure ∷ after)
          ≡ some (some (pod_error (c ∷ message)))
    reported [] h = refl
    reported (context_ended ∷ l) h = cc
    reported (local_failed x ∷ l) h = reported l h
    reported (remote_done x ∷ l) h = reported l h
    reported (errors_read m f ∷ l) h = cc
