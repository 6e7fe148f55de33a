-- ===== src/K8s/Route/Examples.antt =====
-- Forwarded connections over both ways.
use voidshell.Prelude.{
  codes, arith, if◌then◌else◌, ◌≡◌, refl, some, none, true, false, [], ◌∷◌, ℕ, ◌+◌, text_eq, ◌⊎◌,
}
use voidshell.Workspace.Selector.{ephemeral}
use voidshell.Workspace.Identity.{pod_name_for}
use voidshell.Workspace.Examples.{ascii, alice}
use voidshell.K8s.Lifecycle.{Manager}
use voidshell.K8s.Tunnel.Examples.{network, network-IsVerifying, endpoint, ssh_cfg}
use voidshell.K8s.Build.{Config, direct_ssh_enabled}
use voidshell.K8s.Dial.{open_workspace_ssh, dial_endpoint, shake_hands}
use voidshell.K8s.Decimal.{itoa}
use voidshell.K8s.Forward
use voidshell.K8s.Forward.{Calls, remote_done, errors_read, receives, forward_streams, forward_api}
use voidshell.K8s.Forward.Tunnelled.{Tunnelled}
use voidshell.K8s.ForwardSsh.{
  input_ends, output_marked, output_ends, remote_closes, take_input, take_output, take_remote,
  leave, step, around, in_loop, select, receive, returns,
}
use voidshell.K8s.Route.{Remote, succeeded, forward, forward_ssh, open_port, run_loop, play}
use voidshell.K8s.Route.Copied.{Copied, forward-Copied}

-- An API server that forwards to one pod's port.
abbrev api : Calls
api = record {
  has_rest_config = true;
  makes_transport = true;
  makes_request = true;
  protocol_v1 = codes "portforward";
  negotiate =
      λ req protocol. if text_eq req.namespace (codes "guests") then some protocol else none;
  create_stream = λ headers. text_eq headers.port (codes "8080");
  events = remote_done none ∷ errors_read [] none ∷ [];
}

abbrev copies : Remote ℕ
copies = record {
  open_channel = λ client kind request now. (now + 1, true);
  lasts = λ now. (now, true);
  moves = λ now.
      input_ends none
      ∷ take_input
      ∷ output_marked
      ∷ output_ends none
      ∷ take_output
      ∷ remote_closes
      ∷ take_remote
      ∷ leave
      ∷ [];
}

abbrev prepared : Manager ℕ
prepared = record { world = 0; endpoints = λ name. some endpoint }

copies_well :
    succeeded (forward network copies ascii ssh_cfg api alice ephemeral 8080 prepared).1 ≡ true
unfolding forward forward_ssh open_port run_loop play step around in_loop select receive returns
    open_workspace_ssh dial_endpoint shake_hands direct_ssh_enabled text_eq
copies_well = refl

abbrev api_cfg : Config
api_cfg = record ssh_cfg { backend = codes "kubernetes"; namespace = codes "guests" }

tunnels_well :
    succeeded (forward network copies ascii api_cfg api alice ephemeral 8080 prepared).1 ≡ true
unfolding forward forward_api forward_streams receives Forward.receive itoa direct_ssh_enabled
    text_eq
tunnels_well = refl

other_port_fails :
    succeeded (forward network copies ascii api_cfg api alice ephemeral 80 prepared).1 ≡ false
unfolding forward forward_api forward_streams receives Forward.receive itoa direct_ssh_enabled
    text_eq
other_port_fails = refl

forward-Copied_example :
    (direct_ssh_enabled api_cfg ≡ true)
      × Copied network copies ascii api_cfg alice ephemeral 8080 prepared
    ⊎ (direct_ssh_enabled api_cfg ≡ false)
      × Tunnelled api api_cfg.namespace (pod_name_for ascii alice ephemeral) 8080
forward-Copied_example =
    forward-Copied network copies ascii api_cfg network-IsVerifying api alice ephemeral 8080
      prepared (omega arith) tunnels_well
