-- ===== src/K8s/Forward/Examples.antt =====
-- Forwarded connections that end in different orders.
use voidshell.Prelude.{◌≡◌, refl, some, none, true, [], ◌∷◌, codes, text_eq}
use voidshell.K8s.Forward.{
  local_failed, remote_done, errors_read, Calls, receive, receives, forward_api, forward_streams,
  pod_error, text_eq,
}

abbrev ends_well : Calls
ends_well = record {
  has_rest_config = true;
  makes_transport = true;
  makes_request = true;
  protocol_v1 = codes "portforward";
  negotiate = λ req protocol. some protocol;
  create_stream = λ headers. true;
  events = errors_read [] none ∷ remote_done none ∷ [];
}

ends_well_result : forward_api ends_well (codes "guests") (codes "shell-a") 8080 ≡ some none
unfolding forward_api forward_streams text_eq receives receive
ends_well_result = refl

-- The copy of the output ends first, and the pod's message is returned all the same.
abbrev reports : Calls
reports = record ends_well {
  events =
      remote_done none ∷ local_failed (codes "reset") ∷ errors_read (codes "refused") none ∷ [];
}

reports_result :
    forward_api reports (codes "guests") (codes "shell-a") 8080
    ≡ some (some (pod_error (codes "refused")))
unfolding forward_api forward_streams text_eq receives receive
reports_result = refl
