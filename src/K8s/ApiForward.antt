-- ===== src/K8s/ApiForward.antt =====
-- internal/k8s/portfwd.go: `Forward` through the Kubernetes API with its goroutines, the function
-- that `context.AfterFunc` registers, and its deferred calls, one step at a time.
pub mod Remaining
pub mod Ends
pub mod Invariant
pub mod Heard
pub mod Answers
mod Examples
use voidshell.Prelude.{
  ℕ, Bool, true, false, ◌&&◌, Option, none, some, List, [], ◌∷◌, ◌++◌, Text, text_eq, if◌then◌else◌,
  ◌≡◌,
}
use voidshell.K8s.Forward.{
  Event, context_ended, local_failed, remote_done, errors_read, ForwardError, no_rest_config,
  connecting, wrong_protocol, creating_stream, Wait, anything, error_stream, output, Next, receive,
  Calls, portforward_request, error_headers, data_headers,
}
use voidshell.K8s.Forward
use voidshell.K8s.DirectForward.{AfterFunc, unset, armed, started, ran, stop}

-- At the look at `m.restCfg`, `RoundTripperFor`, `NewRequestWithContext` and `Negotiate`; at the
-- look at the protocol; at `AfterFunc`; at the two calls of `CreateStream`; at a `select`; at
-- `data.Reset()` before a `select`; and with what is returned at the deferred `stop()`, at the
-- deferred `conn.Close()`, and returned.
pub data Phase : Type 0 where
  configuring transporting requesting negotiating arming creating_errors creating_data : Phase
  checking : (protocol : Text) → Phase
  waiting resetting : Wait → Phase
  stopping closing_conn returned : Option ForwardError → Phase

-- The goroutine that reads the error stream, with its channel `errorResult`.
pub data Reader : Type 0 where
  unstarted reading : Reader
  sent taken : (message : Text) (failure : Option Text) → Reader

-- The copy of the input, which closes its side of the stream and sends only an error to
-- `localError`; and the copy of the output, which sends its end to `remoteDone`.
pub data Input : Type 0 where
  unstarted copying finished : Input
  ended : Option Text → Input
  sent : Text → Input

pub data Output : Type 0 where
  unstarted copying : Output
  sent taken : Option Text → Output

-- What was received by the `select`s is only there for what is stated of it.
pub record ApiForwarding : Type 0 where
  pub phase : Phase
  pub after : AfterFunc
  pub context_done : Bool
  pub has_conn : Bool
  pub conn_closed : Bool
  pub reader : Reader
  pub input : Input
  pub output : Output
  pub data_closed : Bool
  pub data_reset : Bool
  pub heard : List Event

abbrev pub called : ApiForwarding
called = record {
  phase = configuring;
  after = unset;
  context_done = false;
  has_conn = false;
  conn_closed = false;
  reader = Reader.unstarted;
  input = Input.unstarted;
  output = Output.unstarted;
  data_closed = false;
  data_reset = false;
  heard = [];
}

-- What `Negotiate` gives.
abbrev pub negotiated : ApiForwarding → Option Text → ApiForwarding
negotiated s none = record s { phase = returned (some connecting) }
negotiated s (some protocol) = record s { phase = checking protocol; has_conn = true }

module _ (calls : Calls) (namespace pod : Text) (port : ℕ) where
  -- The steps of `Forward` but for its `select`s.
  unfoldable pub main_step : ApiForwarding → Phase → Option ApiForwarding
  main_step s configuring = some (record s {
    phase = if calls.has_rest_config then transporting else returned (some no_rest_config);
  })
  main_step s transporting = some (record s {
    phase = if calls.makes_transport then requesting else returned (some connecting);
  })
  main_step s requesting =
      some (record s {
        phase = if calls.makes_request then negotiating else returned (some connecting);
      })
  main_step s negotiating =
      some (negotiated s (calls.negotiate (portforward_request namespace pod) calls.protocol_v1))
  main_step s (checking protocol) = some (record s {
    phase =
        if text_eq protocol calls.protocol_v1 then arming else closing_conn (some wrong_protocol);
  })
  main_step s arming = some (record s { phase = creating_errors; after = armed })
  main_step s creating_errors = some (
      if calls.create_stream (error_headers port)
      then record s { phase = creating_data; reader = reading }
      else record s { phase = stopping (some creating_stream) })
  main_step s creating_data = some (
      if calls.create_stream (data_headers port)
      then record s { phase = waiting anything; input = Input.copying; output = Output.copying }
      else record s { phase = stopping (some creating_stream) })
  main_step s (waiting w) = none
  main_step s (resetting w) = some (record s { phase = waiting w; data_reset = true })
  main_step s (stopping r) = some (record s { phase = closing_conn r; after = stop s.after })
  main_step s (closing_conn r) = some (record s { phase = returned r; conn_closed = true })
  main_step s (returned r) = none

-- Which cases a `select` has beside the end of the context.
abbrev pub hears_copies : Wait → Bool
hears_copies (error_stream e) = false
hears_copies _ = true

abbrev pub hears_errors : Wait → Bool
hears_errors output = false
hears_errors _ = true

-- What comes after an event: where the output has ended first, `data.Reset()`.
abbrev pub goes_to : Event → Next → Phase
goes_to e (Forward.returned r) = stopping r
goes_to (remote_done e) (Forward.waits w) = resetting w
goes_to _ (Forward.waits w) = waiting w

abbrev pub hear : Event → ApiForwarding → Wait → ApiForwarding
hear e s w = record s { phase = goes_to e (receive w e); heard = s.heard ++ e ∷ [] }

-- The cases of the `select`s.
unfoldable pub take_context : ApiForwarding → Phase → Option ApiForwarding
take_context s (waiting w) = if s.context_done then some (hear context_ended s w) else none
take_context s _ = none

unfoldable pub take_local : ApiForwarding → Phase → Input → Option ApiForwarding
take_local s (waiting w) (Input.sent e) =
    if hears_copies w then some (record (hear (local_failed e) s w) { input = finished }) else none
take_local s _ _ = none

unfoldable pub take_remote : ApiForwarding → Phase → Output → Option ApiForwarding
take_remote s (waiting w) (Output.sent e) =
    if hears_copies w
    then some (record (hear (remote_done e) s w) { output = Output.taken e })
    else none
take_remote s _ _ = none

unfoldable pub take_errors : ApiForwarding → Phase → Reader → Option ApiForwarding
take_errors s (waiting w) (Reader.sent message failure) =
    if hears_errors w
    then some
        (record (hear (errors_read message failure) s w) { reader = Reader.taken message failure })
    else none
take_errors s _ _ = none

pub data Move : Type 0 where
  on_main takes_context takes_local takes_remote takes_errors : Move
  input_closes context_ends func_starts func_closes : Move
  reader_ends : (message : Text) (failure : Option Text) → Move
  input_ends output_ends : Option Text → Move

abbrev pub close_input : Option Text → Input
close_input none = finished
close_input (some e) = Input.sent e

-- The goroutines and the registered function, and the end of the context.
unfoldable pub around : Move → ApiForwarding → Option ApiForwarding
around (reader_ends message failure) s = elim s.reader [
  | Reader.reading ↦ some (record s { reader = Reader.sent message failure })
  | _ ↦ none
]
around (input_ends e) s = elim s.input [
  | Input.copying ↦ some (record s { input = Input.ended e })
  | _ ↦ none
]
around input_closes s = elim s.input [
  | Input.ended e ↦ some (record s { input = close_input e; data_closed = true })
  | _ ↦ none
]
around (output_ends e) s = elim s.output [
  | Output.copying ↦ some (record s { output = Output.sent e })
  | _ ↦ none
]
around context_ends s = some (record s { context_done = true })
around func_starts s = elim s.after [
  | armed ↦ if s.context_done then some (record s { after = started }) else none
  | _ ↦ none
]
around func_closes s = elim s.after [
  | started ↦ some (record s { after = ran; conn_closed = true })
  | _ ↦ none
]
around _ s = none

module _ (calls : Calls) (namespace pod : Text) (port : ℕ) where
  unfoldable pub step : Move → ApiForwarding → Option ApiForwarding
  unfolding main_step take_context take_local take_remote take_errors around
  step on_main s = main_step calls namespace pod port s s.phase
  step takes_context s = take_context s s.phase
  step takes_local s = take_local s s.phase s.input
  step takes_remote s = take_remote s s.phase s.output
  step takes_errors s = take_errors s s.phase s.reader
  step m s = around m s

  pub data Reach : ApiForwarding → Type 0 where
    start : Reach called
    later : {s s' : ApiForwarding} (m : Move) → Reach s → step m s ≡ some s' → Reach s'
