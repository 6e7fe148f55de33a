-- ===== src/K8s/Ssh.antt =====
-- internal/k8s/ssh.go: a pod's credentials for direct SSH; and `EnsureWorkspace` of lifecycle.go,
-- which calls for them.
use voidshell.Prelude.{
  ℕ, Bool, true, false, not, ◌&&◌, Option, none, some, [], ◌∷◌, Text, codes, if◌then◌else◌, put,
  is_empty,
}
use voidshell.Workspace.Stdlib.{Stdlib}
use voidshell.Workspace.Selector.{StorageMode, ephemeral, persistent}
use voidshell.Workspace.Identity.{Identity, pod_name_for, workspace_id}
use voidshell.K8s.Pods.{Pod, Secret, value_of}
use voidshell.K8s.Build.{
  Config, direct_ssh_enabled, workspace_label, secret_annotation, workspace_ssh_port, ready_timeout,
}
use voidshell.K8s.Monad.{
  not_found, already_exists, other, Reply, done, refused, Error, M, ◌>>=◌, ◌>>◌, ret, fail, wrap,
}
use voidshell.K8s.Lifecycle.{
  KeyPair, Api, Endpoint, Manager, lift, is_controlled_by, ensure_pvc, ensure_pod,
  wait_for_pod_ready,
}

-- `if err != nil { return err }` after a request, and the same after another fallible call.
abbrev pub require : {S A : Type 0} → Reply A → M S A
require (done a) = ret a
require (refused e) = fail (Error.api_error e)

abbrev pub require_some : {S A : Type 0} → Error → Option A → M S A
require_some e none = fail e
require_some e (some a) = ret a

abbrev pub require_that : {S : Type 0} → Error → Bool → M S (Unit {0})
require_that e true = ret tt
require_that e false = fail e

module _ {W : Type 0} (api : Api W) (lib : Stdlib) (cfg : Config) where
  -- `generateSSHKey`
  unfoldable pub generate_ssh_key : M (Manager W) KeyPair
  generate_ssh_key = do
    k ← lift api.random_key
    key ← require_some Error.key_generation k
    block ← require_some Error.key_generation (api.marshal_key key)
    public ← require_some Error.key_generation (api.signer_of key)
    ret (record { private_key = api.to_pem block; public_key = public })

  -- The secret of `ensureSSHCredentials`: the client key stays with the proxy.
  unfoldable pub new_secret : Identity → Pod → Text → KeyPair → KeyPair → Secret
  new_secret id pod name host client = record {
    name = name;
    namespace = cfg.namespace;
    labels = record { key = workspace_label; value = workspace_id lib id } ∷ [];
    owner = some pod.uid;
    immutable = true;
    contents =
        record { key = codes "host-key"; value = host.private_key }
        ∷ record { key = codes "client-key"; value = client.private_key }
        ∷ record { key = codes "authorized_keys"; value = api.authorized_line client.public_key }
        ∷ [];
  }

  unfoldable pub create_credentials : Identity → Pod → Text → M (Manager W) (Unit {0})
  create_credentials id pod name = do
    host ← generate_ssh_key
    client ← generate_ssh_key
    r ← lift (api.create_secret (new_secret id pod name host client))
    require r

  unfoldable pub after_get_secret : Identity → Pod → Text → Reply Secret → M (Manager W) (Unit {0})
  after_get_secret id pod name (done secret) =
      require_that Error.not_owned (is_controlled_by secret pod)
  after_get_secret id pod name (refused not_found) = create_credentials id pod name
  after_get_secret id pod name (refused already_exists) = fail (Error.api_error already_exists)
  after_get_secret id pod name (refused other) = fail (Error.api_error other)

  unfoldable pub ensure_ssh_credentials : Identity → StorageMode → M (Manager W) (Unit {0})
  ensure_ssh_credentials id mode = do
    p ← lift (api.get_pod cfg.namespace (pod_name_for lib id mode))
    pod ← require p
    let name = value_of secret_annotation pod.annotations
    require_that Error.no_credentials (not (is_empty name))
    s ← lift (api.get_secret cfg.namespace name)
    after_get_secret id pod name s

  -- `m.sshEndpoints.Store(name, endpoint)`
  unfoldable pub store_endpoint : Text → Endpoint → M (Manager W) (Unit {0})
  store_endpoint name endpoint m =
      ret tt (record m { endpoints = put name (some endpoint) m.endpoints })

  -- `prepareSSH`, from its end: with the secret, with the secret's name, and with the pod.
  unfoldable pub pin_keys : Text → Pod → Secret → M (Manager W) (Unit {0})
  pin_keys pod_name pod secret = do
    require_that Error.not_owned (is_controlled_by secret pod)
    let client_key = value_of (codes "client-key") secret.contents
    client ← require_some Error.bad_client_key (api.public_of client_key)
    host ←
        require_some Error.bad_host_key
          (api.public_of (value_of (codes "host-key") secret.contents))
    store_endpoint pod_name (record {
      address = pod.pod_ip;
      port = workspace_ssh_port;
      client_key = client_key;
      host_key = host;
    })

  unfoldable pub pin_secret : Text → Pod → Text → M (Manager W) (Unit {0})
  pin_secret pod_name pod name = do
    s ← lift (api.get_secret cfg.namespace name)
    secret ← require s
    pin_keys pod_name pod secret

  unfoldable pub pin_pod : Text → Pod → M (Manager W) (Unit {0})
  pin_pod pod_name pod = do
    require_that Error.no_pod_ip (not pod.deleting && api.is_ip pod.pod_ip)
    let name = value_of secret_annotation pod.annotations
    require_that Error.no_secret (not (is_empty name))
    pin_secret pod_name pod name

  unfoldable pub prepare_ssh : Identity → StorageMode → M (Manager W) (Unit {0})
  prepare_ssh id mode = do
    p ← lift (api.get_pod cfg.namespace (pod_name_for lib id mode))
    pod ← require p
    pin_pod (pod_name_for lib id mode) pod

  unfoldable pub ensure_storage : Identity → StorageMode → M (Manager W) (Unit {0})
  ensure_storage id persistent = wrap Error.ensuring_pvc (ensure_pvc api lib cfg id)
  ensure_storage id ephemeral = ret tt

  -- `if m.DirectSSHEnabled() { ... }`
  unfoldable pub when_direct : M (Manager W) (Unit {0}) → M (Manager W) (Unit {0})
  when_direct call = if direct_ssh_enabled cfg then call else ret tt

  -- A call in a context with a timeout, which is cancelled at its end.
  unfoldable pub within : ℕ → M (Manager W) (Unit {0}) → M (Manager W) (Unit {0})
  within timeout call m =
      let (m', r) = call (record m { world = api.with_timeout timeout m.world }) in
      (record m' { world = api.cancel m'.world }, r)

  -- `EnsureWorkspace` after the context is made; the fuel bounds each of its two loops.
  unfoldable pub provision : ℕ → Identity → StorageMode → M (Manager W) (Unit {0})
  provision fuel id mode = do
    ensure_storage id mode
    wrap Error.ensuring_pod (ensure_pod api lib cfg fuel id mode)
    when_direct (wrap Error.ensuring_credentials (ensure_ssh_credentials id mode))
    wrap Error.waiting_ready (wait_for_pod_ready api lib cfg fuel (pod_name_for lib id mode))
    when_direct (wrap Error.preparing_ssh (prepare_ssh id mode))

  -- `EnsureWorkspace`
  unfoldable pub ensure_workspace : ℕ → Identity → StorageMode → M (Manager W) (Unit {0})
  ensure_workspace fuel id mode = within (ready_timeout cfg) (provision fuel id mode)
