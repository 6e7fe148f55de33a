-- ===== src/K8s/LoopFree.antt =====
-- The calls of `EnsureWorkspace` that have no loop come to an end, and give no time back.
use voidshell.Prelude.{ℕ, ◌≤◌, not, ◌&&◌, Text, arith, codes, is_empty}
use voidshell.Workspace.Stdlib.{Stdlib}
use voidshell.Workspace.Selector.{StorageMode, ephemeral, persistent}
use voidshell.Workspace.Identity.{Identity, pod_name_for, pvc_name}
use voidshell.K8s.Pods.{Claim, Pod, Secret, value_of}
use voidshell.K8s.Build.{Config, secret_annotation, workspace_ssh_port}
use voidshell.K8s.Monad.{not_found, already_exists, other, Reply, done, refused, Error, ◌>>=◌, ret}
use voidshell.K8s.Lifecycle.{
  KeyPair, is_controlled_by, Api, Manager, lift, ensure_pvc, after_get_claim, returned, new_claim,
}
use voidshell.K8s.Ssh.{
  require, require_some, require_that, new_secret, create_credentials, after_get_secret,
  ensure_ssh_credentials, store_endpoint, pin_keys, pin_secret, pin_pod, prepare_ssh,
  ensure_storage, generate_ssh_key,
}
use voidshell.K8s.Ends.{
  Ends, bind-Ends, wrap-Ends, require-Ends, require_some-Ends, require_that-Ends, ret-Ends,
}
use voidshell.K8s.Timeout.{IsTimed}

module _ {W : Type 0} (api : Api W) (lib : Stdlib) (cfg : Config) (left : W → ℕ)
    (timed : IsTimed api left) (t : ℕ) where
  -- The context has at most `t` left.
  abbrev pub Timely : Manager W → Type 0
  Timely m = left m.world ≤ t

  lift-Ends :
      {A : Type 0} (f : W → W × A) → ((w : W) → left (f w).0 ≤ left w) → Ends Timely (lift f)
  lift-Ends f lasts s p = (λ q. cc, omega (arith, p, lasts s.world))

  returned-Ends : (r : Reply (Unit {0})) → Ends Timely (returned api lib cfg r)
  unfolding returned
  returned-Ends (done u) s p = (λ q. cc, p)
  returned-Ends (refused e) s p = (λ q. cc, p)

  after_get_claim-Ends :
      (id : Identity) (r : Reply Claim) → Ends Timely (after_get_claim api lib cfg id r)
  unfolding after_get_claim
  after_get_claim-Ends id (done c) s p = (λ q. cc, p)
  after_get_claim-Ends id (refused not_found) s p =
      bind-Ends Timely (lift (api.create_claim (new_claim api lib cfg id))) (returned api lib cfg)
        (lift-Ends (api.create_claim (new_claim api lib cfg id))
          (timed.new_claims (new_claim api lib cfg id)))
        returned-Ends s p
  after_get_claim-Ends id (refused already_exists) s p = (λ q. cc, p)
  after_get_claim-Ends id (refused other) s p = (λ q. cc, p)

  pub ensure_storage-Ends :
      (id : Identity) (mode : StorageMode) → Ends Timely (ensure_storage api lib cfg id mode)
  unfolding ensure_storage ensure_pvc
  ensure_storage-Ends id ephemeral s p = (λ q. cc, p)
  ensure_storage-Ends id persistent s p =
      let get = api.get_claim cfg.namespace (pvc_name lib id) in
      wrap-Ends Timely Error.ensuring_pvc (lift get >>= after_get_claim api lib cfg id)
        (bind-Ends Timely (lift get) (after_get_claim api lib cfg id)
          (lift-Ends get (timed.claiming cfg.namespace (pvc_name lib id)))
          (after_get_claim-Ends id))
        s p

  generate_ssh_key-Ends : Ends Timely (generate_ssh_key api lib cfg)
  unfolding generate_ssh_key
  generate_ssh_key-Ends =
      let pair = λ (block public : Text).
        ret {S = Manager W} (record { private_key = api.to_pem block; public_key = public }) in
      let signed = λ (key block : Text).
        require_some Error.key_generation (api.signer_of key) >>= pair block in
      let marshalled =
        λ (key : Text). require_some Error.key_generation (api.marshal_key key) >>= signed key in
      bind-Ends Timely (lift api.random_key)
        (λ k. require_some Error.key_generation k >>= marshalled)
        (lift-Ends api.random_key timed.keys)
        (λ k.
          bind-Ends Timely (require_some Error.key_generation k) marshalled
            (require_some-Ends Timely Error.key_generation k)
            (λ key.
              bind-Ends Timely (require_some Error.key_generation (api.marshal_key key))
                (signed key) (require_some-Ends Timely Error.key_generation (api.marshal_key key))
                (λ block.
                  bind-Ends Timely (require_some Error.key_generation (api.signer_of key))
                    (pair block) (require_some-Ends Timely Error.key_generation (api.signer_of key))
                    (λ public.
                      ret-Ends Timely
                        (record { private_key = api.to_pem block; public_key = public })))))

  create_credentials-Ends :
      (id : Identity) (pod : Pod) (name : Text)
      → Ends Timely (create_credentials api lib cfg id pod name)
  unfolding create_credentials
  create_credentials-Ends id pod name =
      let made = λ (host client : KeyPair).
        api.create_secret (new_secret api lib cfg id pod name host client) in
      let store = λ (host client : KeyPair). lift (made host client) >>= require in
      bind-Ends Timely (generate_ssh_key api lib cfg)
        (λ host. generate_ssh_key api lib cfg >>= store host) generate_ssh_key-Ends
        (λ host.
          bind-Ends Timely (generate_ssh_key api lib cfg) (store host) generate_ssh_key-Ends
            (λ client.
              bind-Ends Timely (lift (made host client)) require
                (lift-Ends (made host client)
                  (timed.storing (new_secret api lib cfg id pod name host client)))
                (require-Ends Timely)))

  after_get_secret-Ends :
      (id : Identity) (pod : Pod) (name : Text) (r : Reply Secret)
      → Ends Timely (after_get_secret api lib cfg id pod name r)
  unfolding after_get_secret
  after_get_secret-Ends id pod name (done secret) s p =
      require_that-Ends Timely Error.not_owned (is_controlled_by secret pod) s p
  after_get_secret-Ends id pod name (refused not_found) s p =
      create_credentials-Ends id pod name s p
  after_get_secret-Ends id pod name (refused already_exists) s p = (λ q. cc, p)
  after_get_secret-Ends id pod name (refused other) s p = (λ q. cc, p)

  pub ensure_ssh_credentials-Ends :
      (id : Identity) (mode : StorageMode)
      → Ends Timely (ensure_ssh_credentials api lib cfg id mode)
  unfolding ensure_ssh_credentials
  ensure_ssh_credentials-Ends id mode =
      let get = api.get_pod cfg.namespace (pod_name_for lib id mode) in
      let name_of = λ (pod : Pod). value_of secret_annotation pod.annotations in
      let get_secret = λ (pod : Pod). api.get_secret cfg.namespace (name_of pod) in
      let decide = λ (pod : Pod). after_get_secret api lib cfg id pod (name_of pod) in
      let named = λ (pod : Pod) (u : Unit {0}). lift (get_secret pod) >>= decide pod in
      let has_name = λ (pod : Pod).
        require_that {S = Manager W} Error.no_credentials (not (is_empty (name_of pod))) in
      let with_pod = λ (pod : Pod). has_name pod >>= named pod in
      bind-Ends Timely (lift get) (λ p. require p >>= with_pod)
        (lift-Ends get (timed.asking cfg.namespace (pod_name_for lib id mode)))
        (λ p. bind-Ends Timely (require p) with_pod (require-Ends Timely p) (λ pod.
          bind-Ends Timely (has_name pod) (named pod)
            (require_that-Ends Timely Error.no_credentials (not (is_empty (name_of pod))))
            (λ u.
              bind-Ends Timely (lift (get_secret pod)) (decide pod)
                (lift-Ends (get_secret pod) (timed.reading cfg.namespace (name_of pod)))
                (after_get_secret-Ends id pod (name_of pod)))))

  pin_keys-Ends :
      (name : Text) (pod : Pod) (secret : Secret)
      → Ends Timely (pin_keys api lib cfg name pod secret)
  unfolding pin_keys store_endpoint
  pin_keys-Ends name pod secret =
      let client_key = value_of (codes "client-key") secret.contents in
      let client_of = api.public_of client_key in
      let host_of = api.public_of (value_of (codes "host-key") secret.contents) in
      let store = λ (host : Text). store_endpoint api lib cfg name (record {
        address = pod.pod_ip;
        port = workspace_ssh_port;
        client_key = client_key;
        host_key = host;
      }) in
      let with_client =
        λ (client : Text). require_some {S = Manager W} Error.bad_host_key host_of >>= store in
      let with_owner = λ (u : Unit {0}).
        require_some {S = Manager W} Error.bad_client_key client_of >>= with_client in
      bind-Ends Timely (require_that Error.not_owned (is_controlled_by secret pod)) with_owner
        (require_that-Ends Timely Error.not_owned (is_controlled_by secret pod))
        (λ u.
          bind-Ends Timely (require_some Error.bad_client_key client_of) with_client
            (require_some-Ends Timely Error.bad_client_key client_of)
            (λ client.
              bind-Ends Timely (require_some Error.bad_host_key host_of) store
                (require_some-Ends Timely Error.bad_host_key host_of) (λ host s p. (λ q. cc, p))))

  pin_pod-Ends : (name : Text) (pod : Pod) → Ends Timely (pin_pod api lib cfg name pod)
  unfolding pin_pod pin_secret
  pin_pod-Ends name pod =
      let secret_name = value_of secret_annotation pod.annotations in
      let get = api.get_secret cfg.namespace secret_name in
      let pin = pin_keys api lib cfg name pod in
      let with_reply = λ (r : Reply Secret). require r >>= pin in
      let usable = not pod.deleting && api.is_ip pod.pod_ip in
      let named = not (is_empty secret_name) in
      let fetch = λ (u : Unit {0}). lift get >>= with_reply in
      let with_name = λ (u : Unit {0}). require_that Error.no_secret named >>= fetch in
      bind-Ends Timely (require_that Error.no_pod_ip usable) with_name
        (require_that-Ends Timely Error.no_pod_ip usable)
        (λ u.
          bind-Ends Timely (require_that Error.no_secret named) fetch
            (require_that-Ends Timely Error.no_secret named)
            (λ v.
              bind-Ends Timely (lift get) with_reply
                (lift-Ends get (timed.reading cfg.namespace secret_name))
                (λ r.
                  bind-Ends Timely (require r) pin (require-Ends Timely r)
                    (pin_keys-Ends name pod))))

  pub prepare_ssh-Ends :
      (id : Identity) (mode : StorageMode) → Ends Timely (prepare_ssh api lib cfg id mode)
  unfolding prepare_ssh
  prepare_ssh-Ends id mode =
      let name = pod_name_for lib id mode in
      let get = api.get_pod cfg.namespace name in
      let pin = pin_pod api lib cfg name in
      bind-Ends Timely (lift get) (λ r. require r >>= pin)
        (lift-Ends get (timed.asking cfg.namespace name))
        (λ r. bind-Ends Timely (require r) pin (require-Ends Timely r) (pin_pod-Ends name))
