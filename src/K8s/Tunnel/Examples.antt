-- ===== src/K8s/Tunnel/Examples.antt =====
-- A pod with direct SSH, and the connection to it.
use voidshell.Prelude.{
  ℕ, ◌+◌, ◌≡◌, refl, true, some, none, [], ◌∷◌, codes, text_eq, if◌then◌else◌, put,
}
use voidshell.Workspace.Selector.{ephemeral}
use voidshell.Workspace.Identity.{pod_name_for, workspace_id, normalize_segment, compute_hash}
use voidshell.Workspace.Examples.{ascii, alice}
use voidshell.K8s.Pods.{Pod, Secret, running, value_of}
use voidshell.K8s.Build.{Config, build_pod, base_pod, configure_ssh_pod, direct_ssh_enabled}
use voidshell.K8s.Monad.{done, refused, other, ok}
use voidshell.K8s.Lifecycle.{
  Api, Manager, Endpoint, ensure_pod, after_get_pod, backend_mismatch, wait_for_pod_ready,
  after_poll, after_check, check_pod, workspace_ready,
}
use voidshell.K8s.Ssh.{
  ensure_workspace, provision, within, ensure_storage, when_direct, ensure_ssh_credentials,
  after_get_secret, prepare_ssh, pin_pod, pin_secret, pin_keys, store_endpoint,
}
use voidshell.K8s.Dial.{
  Network, IsVerifying, connected, open_workspace_ssh, dial_endpoint, shake_hands,
}
use voidshell.K8s.Tunnel.{Reaches, open_workspace_ssh-Reaches, arith}

abbrev pub ssh_cfg : Config
ssh_cfg = record {
  backend = codes "ssh";
  namespace = codes "guests";
  storage_class = [];
  storage_size = codes "5Gi";
  image = codes "workspace:main";
  shell_command = [];
  pod_ready_timeout = 0;
  pod_poll_interval = 0;
}

abbrev pub ssh_pod : Pod
ssh_pod = record (build_pod ascii alice ephemeral ssh_cfg (codes "abc")) {
  phase = running;
  statuses = record { name = codes "workspace"; ready = true } ∷ [];
  pod_ip = codes "10.0.0.7";
}

-- A public key is the text of its private key.
abbrev keys : Secret
keys = record {
  name = codes "workspace-ssh-abc";
  namespace = codes "guests";
  labels = [];
  owner = some 0;
  immutable = true;
  contents =
      record { key = codes "host-key"; value = codes "HOST" }
      ∷ record { key = codes "client-key"; value = codes "CLIENT" }
      ∷ [];
}

abbrev pub steady : Api ℕ
steady = record {
  get_pod = λ namespace name now. (now + 1, done ssh_pod);
  create_pod = λ pod now. (now, refused other);
  remove_pod = λ namespace name now. (now, refused other);
  get_claim = λ namespace name now. (now, refused other);
  create_claim = λ c now. (now, refused other);
  get_secret = λ namespace name now. (now + 1, done keys);
  create_secret = λ s now. (now + 1, done tt);
  pause = λ interval now. (now, true);
  with_timeout = λ timeout now. now;
  cancel = λ now. now;
  random_text = λ now. (now, codes "abc");
  random_key = λ now. (now + 1, some (codes "key"));
  marshal_key = λ k. some k;
  signer_of = λ k. some k;
  to_pem = λ b. b;
  authorized_line = λ k. k;
  is_ip = λ t. true;
  public_of = λ t. some t;
}

-- The server at the other end has the key `HOST`.
abbrev pub network : Network ℕ
network = record {
  dial = λ address port now. (now + 1, true);
  handshake =
      λ callback key now. (now + 1, if callback (codes "HOST") then some (codes "HOST") else none);
  lasts = λ now. (now, true);
}

pub network-IsVerifying : IsVerifying network
network-IsVerifying = record { verifies = λ callback client_key w key h. ground arith }

abbrev pub endpoint : Endpoint
endpoint = record {
  address = codes "10.0.0.7";
  port = 2222;
  client_key = codes "CLIENT";
  host_key = codes "HOST";
}

abbrev pub unprepared : Manager ℕ
unprepared = record { world = 0; endpoints = λ name. none }

abbrev prepared : Manager ℕ
prepared = (ensure_workspace steady ascii ssh_cfg 5 alice ephemeral unprepared).0

prepares : ensure_workspace steady ascii ssh_cfg 5 alice ephemeral unprepared ≡ (prepared, ok tt)
unfolding ensure_workspace provision within ensure_storage when_direct ensure_pod after_get_pod
    backend_mismatch ensure_ssh_credentials after_get_secret wait_for_pod_ready after_poll
    after_check check_pod workspace_ready prepare_ssh pin_pod pin_secret pin_keys store_endpoint
    direct_ssh_enabled build_pod base_pod configure_ssh_pod value_of text_eq
prepares = refl

abbrev dialled : Manager ℕ
dialled = (open_workspace_ssh network ascii alice ephemeral prepared).0

opens :
    open_workspace_ssh network ascii alice ephemeral prepared
    ≡ (dialled, ok (connected network ascii endpoint (codes "HOST")))
unfolding ensure_workspace provision within ensure_storage when_direct ensure_pod after_get_pod
    backend_mismatch ensure_ssh_credentials after_get_secret wait_for_pod_ready after_poll
    after_check check_pod workspace_ready prepare_ssh pin_pod pin_secret pin_keys store_endpoint
    direct_ssh_enabled build_pod base_pod configure_ssh_pod value_of text_eq put open_workspace_ssh
    dial_endpoint shake_hands pod_name_for workspace_id normalize_segment compute_hash
opens = refl

open_workspace_ssh-Reaches_example :
    Reaches steady network ascii ssh_cfg
      (pod_name_for ascii alice ephemeral)
      (connected network ascii endpoint (codes "HOST"))
unfolding direct_ssh_enabled text_eq
open_workspace_ssh-Reaches_example =
    open_workspace_ssh-Reaches steady network ascii ssh_cfg network-IsVerifying 5 alice ephemeral
      unprepared prepared prepared dialled (connected network ascii endpoint (codes "HOST")) refl
      prepares refl opens
