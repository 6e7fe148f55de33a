-- ===== src/Start.antt =====
-- cmd/voidshell/main.go: what the program sets up before it serves; `ListenAndServe` of
-- internal/server/server.go; and `NewFromKubeconfig` of internal/k8s/lifecycle.go. The file system,
-- the environment and the client library are a parameter.
pub mod Serves
mod Examples
use voidshell.Prelude.{
  ◌++◌, ℕ, ◌≡◌, refl, ◌⊎◌, inl, inr, Bool, true, false, Option, none, some, List, Text, codes,
  is_empty, if◌then◌else◌, arith, ap, sym, ◌∙◌, [],
}
use voidshell.Config
use voidshell.Config.{ℤ, Env, Loaded, loaded, load_failed, load}
use voidshell.Config.Backend.{IsChosen, load-IsChosen}
use voidshell.K8s.Build
use voidshell.K8s.Build.{direct_ssh_enabled}
use voidshell.Server.HostKey.{
  Sources, HostKey, HostKeyError, failed, load_host_key, InFile, InSecret, load_host_key_iff,
}
use voidshell.Server.HostKey

-- A REST configuration of the client library is a text here.
pub record Machine : Type 0 where
  pub env : Env
  pub parse_duration : Text → Option ℤ
  -- `rest.InClusterConfig()`, and the configuration that the loading rules give for an explicit
  -- path
  pub in_cluster : Option Text
  pub kubeconfig : Option Text → Option Text
  -- `kubernetes.NewForConfig`: the secrets of the cluster that a client reaches
  pub new_client : Text → Option (Text → Text → Option (Text → Option Text))
  -- `ssh.ParsePrivateKey`
  pub parse_key : Text → Option Text
  -- `fmt.Sprintf("%d", n)`, and whether `net.Listen("tcp", addr)` succeeds
  pub print_int : ℤ → Text
  pub listens : Text → Bool

pub data StartError : Type 0 where
  bad_config bad_ttl no_manager : StartError
  no_host_key : HostKeyError → StartError
  cannot_listen : Text → StartError

-- What `server.New` and `ListenAndServe` are given, where `Serve` is called.
pub record Service : Type 0 where
  pub allowed_users : List Text
  pub ttl : ℤ
  pub manager : Build.Config
  pub host_key : Text
  pub port : ℤ

pub data Started : Type 0 where
  serves : Service → Started
  exits : StartError → Started

module _ (machine : Machine) where
  abbrev pub Secrets : Type 0
  Secrets = Text → Text → Option (Text → Option Text)

  -- `NewFromKubeconfig`: the client's secrets.
  abbrev pub rest_config : Text → Option Text → Option Text
  rest_config path (some cfg) = some cfg
  rest_config path none = machine.kubeconfig (if is_empty path then none else some path)

  abbrev pub client_for : Option Text → Option Secrets
  client_for none = none
  client_for (some cfg) = machine.new_client cfg

  unfoldable pub new_from_kubeconfig : Text → Option Secrets
  new_from_kubeconfig path = client_for (rest_config path machine.in_cluster)

  abbrev pub namespace_file : Text
  namespace_file = codes "/var/run/secrets/kubernetes.io/serviceaccount/namespace"

  abbrev pub namespace_of : Text → Option Text → Text
  namespace_of default none = default
  namespace_of default (some contents) = if is_empty contents then default else contents

  -- `podNamespace`
  unfoldable pub pod_namespace : Text → Text
  pod_namespace default = namespace_of default (machine.env.read_file namespace_file)

  -- The `k8s.Config` of `main`, whose durations are left at 0.
  unfoldable pub manager_config : Config.Config → Build.Config
  manager_config cfg = record {
    backend = cfg.workspace.backend;
    namespace = cfg.kubernetes.guest_namespace;
    storage_class = cfg.kubernetes.storage_class;
    storage_size = cfg.kubernetes.storage_size;
    image = cfg.workspace.image;
    shell_command = cfg.workspace.shell_command;
    pod_ready_timeout = 0;
    pod_poll_interval = 0;
  }

  abbrev pub sources : Secrets → Sources
  sources secrets = record {
    read_file = machine.env.read_file;
    get_secret = secrets;
    parse = machine.parse_key;
  }

  abbrev pub address : ℤ → Text
  address port = codes ":" ++ machine.print_int port

  -- `ListenAndServe`, until it calls `Serve`.
  unfoldable pub listen_and_serve : Service → Text → Started
  listen_and_serve s addr = if machine.listens addr then serves s else exits (cannot_listen addr)

  unfoldable pub service : Config.Config → ℤ → Text → Service
  unfolding manager_config
  service cfg ttl key = record {
    allowed_users = cfg.auth.allowed_github_users;
    ttl = ttl;
    manager = manager_config cfg;
    host_key = key;
    port = cfg.ssh.port;
  }

  abbrev pub with_key : Config.Config → ℤ → HostKey → Started
  with_key cfg ttl (failed e) = exits (no_host_key e)
  with_key cfg ttl (HostKey.loaded key) =
      listen_and_serve (service cfg ttl key) (address cfg.ssh.port)

  abbrev pub with_manager : Config.Config → ℤ → Option Secrets → Started
  with_manager cfg ttl none = exits no_manager
  with_manager cfg ttl (some secrets) =
      with_key cfg ttl
        (load_host_key (sources secrets) cfg.ssh (pod_namespace cfg.kubernetes.guest_namespace))

  abbrev pub with_ttl : Config.Config → Option ℤ → Started
  with_ttl cfg none = exits bad_ttl
  with_ttl cfg (some ttl) = with_manager cfg ttl (new_from_kubeconfig [])

  abbrev pub with_config : Loaded → Started
  with_config (load_failed e) = exits bad_config
  with_config (loaded cfg) = with_ttl cfg (machine.parse_duration cfg.auth.key_cache_ttl)

  -- `main`, until it serves.
  unfoldable pub start : Text → Started
  start path = with_config (load machine.env path)
