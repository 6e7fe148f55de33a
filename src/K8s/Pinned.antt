-- ===== src/K8s/Pinned.antt =====
-- The endpoint that `prepareSSH` stores comes from a secret that the pod owns.
use voidshell.Prelude.{
  ◌≡◌, refl, true, false, not, ◌&&◌, some, Text, ap, sym, ◌∙◌, codes, put_self, is_empty, arith,
}
use voidshell.Workspace.Stdlib.{Stdlib}
use voidshell.Workspace.Selector.{StorageMode}
use voidshell.Workspace.Identity.{Identity, pod_name_for}
use voidshell.K8s.Pods.{Pod, Secret, value_of}
use voidshell.K8s.Build.{Config, secret_annotation, workspace_ssh_port}
use voidshell.K8s.Monad.{Error, Reply, done, Outcome, ok, ◌>>=◌}
use voidshell.K8s.Lifecycle.{Api, Manager, Endpoint, lift, is_controlled_by}
use voidshell.K8s.Ssh.{
  require, require_some, require_that, pin_keys, pin_secret, pin_pod, prepare_ssh, store_endpoint,
}
use voidshell.K8s.Inversion.{bind_ok, require_ok, require_some_ok, require_that_ok}

module _ {W : Type 0} (api : Api W) where
  -- What the endpoint takes from a pod and a secret.
  pub record IsPinned (pod : Pod) (secret : Secret) (endpoint : Endpoint) : Type 0 where
    pub owned : is_controlled_by secret pod ≡ true
    pub address : endpoint.address ≡ pod.pod_ip
    pub port : endpoint.port ≡ workspace_ssh_port
    pub host_key :
        api.public_of (value_of (codes "host-key") secret.contents) ≡ some endpoint.host_key
    pub client_key : endpoint.client_key ≡ value_of (codes "client-key") secret.contents

  pin_keys_ok :
      (cfg : Config) (lib : Stdlib) (name : Text) (pod : Pod) (secret : Secret) (m m' : Manager W)
      → pin_keys api lib cfg name pod secret m ≡ (m', ok tt)
      → (endpoint : Endpoint) × (m'.endpoints name ≡ some endpoint) × IsPinned pod secret endpoint
  unfolding pin_keys store_endpoint
  pin_keys_ok cfg lib name pod secret m m' h =
      let client_key = value_of (codes "client-key") secret.contents in
      let host_pem = value_of (codes "host-key") secret.contents in
      let stored : Text → Endpoint = λ host. record {
        address = pod.pod_ip;
        port = workspace_ssh_port;
        client_key = client_key;
        host_key = host;
      } in
      let with_host = λ (host : Text). store_endpoint api lib cfg name (stored host) in
      let with_client =
        λ (client : Text). require_some Error.bad_host_key (api.public_of host_pem) >>= with_host in
      let (u, m1, e1, h1) =
        bind_ok (require_that Error.not_owned (is_controlled_by secret pod))
          (λ _. require_some Error.bad_client_key (api.public_of client_key) >>= with_client) m m'
          tt h in
      let (client, m2, e2, h2) =
        bind_ok (require_some Error.bad_client_key (api.public_of client_key)) with_client m1 m' tt
          h1 in
      let (host, m3, e3, h3) =
        bind_ok (require_some Error.bad_host_key (api.public_of host_pem)) with_host m2 m' tt h2 in
      (
        stored host,
        ap (λ (p : Manager W × Outcome (Unit {0})). p.0.endpoints name) (sym h3)
            ∙ put_self name (some (stored host)) m3.endpoints,
        record {
          owned = (require_that_ok Error.not_owned (is_controlled_by secret pod) m m1 e1).0;
          address = refl;
          port = refl;
          host_key = (require_some_ok Error.bad_host_key (api.public_of host_pem) m2 m3 host e3).0;
          client_key = refl;
        },
      )

  -- A secret that the API server gave, and the endpoint that was made of it.
  pub record IsStored (cfg : Config) (name : Text) (pod : Pod) (m' : Manager W) : Type 0 where
    pub secret : Secret
    pub endpoint : Endpoint
    pub before : W
    pub answered :
        (api.get_secret cfg.namespace (value_of secret_annotation pod.annotations) before).1
        ≡ done secret
    pub stored : m'.endpoints name ≡ some endpoint
    pub pinned : IsPinned pod secret endpoint

  pin_secret_ok :
      (cfg : Config) (lib : Stdlib) (name : Text) (pod : Pod) (m m' : Manager W)
      → pin_secret api lib cfg name pod (value_of secret_annotation pod.annotations) m ≡ (m', ok tt)
      → IsStored cfg name pod m'
  unfolding pin_secret
  pin_secret_ok cfg lib name pod m m' h =
      let get = api.get_secret cfg.namespace (value_of secret_annotation pod.annotations) in
      let with_secret = pin_keys api lib cfg name pod in
      let (r, m1, e1, h1) = bind_ok (lift get) (λ r. require r >>= with_secret) m m' tt h in
      let (secret, m2, e2, h2) = bind_ok (require r) with_secret m1 m' tt h1 in
      let (endpoint, stored, pinned) = pin_keys_ok cfg lib name pod secret m2 m' h2 in
      record {
        secret = secret;
        endpoint = endpoint;
        before = m.world;
        answered = answer_of e1 ∙ (require_ok r m1 m2 secret e2).0;
        stored = stored;
        pinned = pinned;
      }
    where
      answer_of :
          {m1 : Manager W} {r : Reply Secret}
          → lift (api.get_secret cfg.namespace (value_of secret_annotation pod.annotations)) m
            ≡ (m1, ok r)
          → (api.get_secret cfg.namespace (value_of secret_annotation pod.annotations) m.world).1
            ≡ r
      answer_of q = cc

  pin_pod_ok :
      (cfg : Config) (lib : Stdlib) (name : Text) (pod : Pod) (m m' : Manager W)
      → pin_pod api lib cfg name pod m ≡ (m', ok tt)
      → (pod.deleting ≡ false) × (api.is_ip pod.pod_ip ≡ true) × IsStored cfg name pod m'
  unfolding pin_pod
  pin_pod_ok cfg lib name pod m m' h =
      let secret_name = value_of secret_annotation pod.annotations in
      let with_name = λ (u : Unit {0}). pin_secret api lib cfg name pod secret_name in
      let (u, m1, e1, h1) =
        bind_ok (require_that Error.no_pod_ip (not pod.deleting && api.is_ip pod.pod_ip))
          (λ _. require_that Error.no_secret (not (is_empty secret_name)) >>= with_name) m m' tt
          h in
      let (u2, m2, e2, h2) =
        bind_ok (require_that Error.no_secret (not (is_empty secret_name))) with_name m1 m' tt h1 in
      let usable =
        (require_that_ok Error.no_pod_ip (not pod.deleting && api.is_ip pod.pod_ip) m m1 e1).0 in
      (ground arith, ground arith, pin_secret_ok cfg lib name pod m2 m' h2)

  -- A pod of the workspace that the API server gave, which is not being deleted, with the endpoint
  -- that was made of it.
  pub record IsPrepared (cfg : Config) (name : Text) (m' : Manager W) : Type 0 where
    pub pod : Pod
    pub before : W
    pub answered : (api.get_pod cfg.namespace name before).1 ≡ done pod
    pub alive : pod.deleting ≡ false
    pub usable : api.is_ip pod.pod_ip ≡ true
    pub made : IsStored cfg name pod m'

  pub prepare_ssh-IsPrepared :
      (cfg : Config) (lib : Stdlib) (id : Identity) (mode : StorageMode) (m m' : Manager W)
      → prepare_ssh api lib cfg id mode m ≡ (m', ok tt)
      → IsPrepared cfg (pod_name_for lib id mode) m'
  unfolding prepare_ssh
  prepare_ssh-IsPrepared cfg lib id mode m m' h =
      let name = pod_name_for lib id mode in
      let with_pod = pin_pod api lib cfg name in
      let (r, m1, e1, h1) =
        bind_ok (lift (api.get_pod cfg.namespace name)) (λ r. require r >>= with_pod) m m' tt h in
      let (pod, m2, e2, h2) = bind_ok (require r) with_pod m1 m' tt h1 in
      let (alive, usable, made) = pin_pod_ok cfg lib name pod m2 m' h2 in
      record {
        pod = pod;
        before = m.world;
        answered = answer_of e1 ∙ (require_ok r m1 m2 pod e2).0;
        alive = alive;
        usable = usable;
        made = made;
      }
    where
      answer_of :
          {m1 : Manager W} {r : Reply Pod}
          → lift (api.get_pod cfg.namespace (pod_name_for lib id mode)) m ≡ (m1, ok r)
          → (api.get_pod cfg.namespace (pod_name_for lib id mode) m.world).1 ≡ r
      answer_of q = cc
