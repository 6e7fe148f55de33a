-- ===== src/K8s/Forward.antt =====
-- internal/k8s/portfwd.go: `Forward` through the Kubernetes API. The client library, with its
-- streams and the copying between them, is a parameter.
pub mod Tunnelled
mod Examples
use voidshell.K8s.Decimal.{itoa, number, number-itoa}
use voidshell.Prelude.{
  ℕ, Bool, true, false, not, Option, none, some, List, [], ◌∷◌, ◌++◌, Text, codes, text_eq,
  if◌then◌else◌, is_empty, ◌≡◌, ◌≢◌, refl, ◌⊎◌, inl, inr, Bool-cases, arith,
}
use voidshell.K8s.Build.{Config, direct_ssh_enabled}

-- What happens to a forwarded connection, in the order in which `Forward` learns of it: the context
-- ends, the copy of the client's input fails, the copy of the pod's output ends, and the error
-- stream is read to its end, with the message of the pod and the error of the reading.
pub data Event : Type 0 where
  context_ended : Event
  local_failed : Text → Event
  remote_done : Option Text → Event
  errors_read : (message : Text) → (failure : Option Text) → Event

pub data ForwardError : Type 0 where
  no_rest_config connecting wrong_protocol creating_stream cancelled : ForwardError
  copying : Text → ForwardError
  pod_error : Text → ForwardError

-- `if len(message) > 0 { err = ... }`
abbrev pub error_result : Text → Option Text → Option ForwardError
error_result [] none = none
error_result [] (some e) = some (copying e)
error_result (c ∷ message) failure = some (pod_error (c ∷ message))

abbrev pub copy_result : Option Text → Option ForwardError
copy_result none = none
copy_result (some e) = some (copying e)

-- Where the `select`s of `Forward` wait: for anything; after the output has ended, for the error
-- stream; and after the error stream has ended well, for the output.
pub data Wait : Type 0 where
  anything : Wait
  error_stream : Option ForwardError → Wait
  output : Wait

pub data Next : Type 0 where
  waits : Wait → Next
  returned : Option ForwardError → Next

-- `if remoteErr != nil { return remoteErr }; return err`
abbrev pub first_error : Option ForwardError → Option ForwardError → Option ForwardError
first_error none e = e
first_error (some r) e = some r

-- `if err != nil { return err }`, and then the wait for the output
abbrev pub drained : Option ForwardError → Next
drained none = waits output
drained (some e) = returned (some e)

-- An event at a wait; one that the `select` does not list is left.
unfoldable pub receive : Wait → Event → Next
receive anything context_ended = returned (some cancelled)
receive anything (local_failed e) = returned (some (copying e))
receive anything (remote_done e) = waits (error_stream (copy_result e))
receive anything (errors_read message failure) = drained (error_result message failure)
receive (error_stream e) context_ended = returned (some cancelled)
receive (error_stream e) (local_failed x) = waits (error_stream e)
receive (error_stream e) (remote_done x) = waits (error_stream e)
receive (error_stream e) (errors_read message failure) =
    returned (first_error (error_result message failure) e)
receive output context_ended = returned (some cancelled)
receive output (local_failed e) = returned (some (copying e))
receive output (remote_done e) = returned (copy_result e)
receive output (errors_read message failure) = waits output

-- What `Forward` returns after some events, if it has returned.
unfoldable pub receives : Wait → List Event → Option (Option ForwardError)
unfolding receive
receives w [] = none
receives w (e ∷ events) = elim (receive w e) [ waits w' ↦ receives w' events | returned r ↦ some r ]

-- The request for a pod's `portforward` in a namespace.
pub record PodRequest : Type 0 where
  pub resource : Text
  pub name : Text
  pub namespace : Text
  pub subresource : Text

abbrev pub portforward_request : Text → Text → PodRequest
portforward_request namespace pod = record {
  resource = codes "pods";
  name = pod;
  namespace = namespace;
  subresource = codes "portforward";
}

-- `corev1.StreamTypeError` and `corev1.StreamTypeData`
pub data StreamType : Type 0 where
  error_type data_type : StreamType

-- The values of the three headers of a stream.
pub record Headers : Type 0 where
  pub port : Text
  pub request_id : Text
  pub stream_type : StreamType

abbrev pub error_headers : ℕ → Headers
error_headers port = record { port = itoa port; request_id = codes "0"; stream_type = error_type }

abbrev pub data_headers : ℕ → Headers
data_headers port = record { port = itoa port; request_id = codes "0"; stream_type = data_type }

-- The client library: whether there is a REST configuration, and whether a transport and a request
-- can be made of it; the name of the protocol; the protocol that the API server chooses for a
-- request, where it is reached; whether a stream is created; and what then happens.
pub record Calls : Type 0 where
  pub has_rest_config : Bool
  pub makes_transport : Bool
  pub makes_request : Bool
  pub protocol_v1 : Text
  pub negotiate : PodRequest → Text → Option Text
  pub create_stream : Headers → Bool
  pub events : List Event

-- After the negotiation.
unfoldable pub forward_streams : Calls → ℕ → Option Text → Option (Option ForwardError)
unfolding receives
forward_streams calls port none = some (some connecting)
forward_streams calls port (some protocol) =
    if not (text_eq protocol calls.protocol_v1)
    then some (some wrong_protocol)
    else if not (calls.create_stream (error_headers port))
    then some (some creating_stream)
    else if not (calls.create_stream (data_headers port))
    then some (some creating_stream)
    else receives anything calls.events

-- `Forward` for the backend without direct SSH, to a port of a pod.
unfoldable pub forward_api : Calls → Text → Text → ℕ → Option (Option ForwardError)
unfolding forward_streams
forward_api calls namespace pod port =
    if not calls.has_rest_config
    then some (some no_rest_config)
    else if not calls.makes_transport
    then some (some connecting)
    else if not calls.makes_request
    then some (some connecting)
    else forward_streams calls port
        (calls.negotiate (portforward_request namespace pod) calls.protocol_v1)
