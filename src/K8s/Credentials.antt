-- ===== src/K8s/Credentials.antt =====
-- The secret that `ensureSSHCredentials` creates is one that `prepareSSH` accepts.
mod Examples
use voidshell.Prelude.{
  ◌≡◌, refl, true, false, Option, none, some, Text, codes, ap, sym, ◌∙◌, ◌==◌, [], ◌∷◌, text_eq,
  if◌then◌else◌, put, subst, ℕ, arith,
}
use voidshell.Workspace.Stdlib.{Stdlib}
use voidshell.Workspace.Identity.{Identity}
use voidshell.K8s.Pods.{Pod, Secret, value_of}
use voidshell.K8s.Build.{Config, workspace_ssh_port}
use voidshell.K8s.Monad.{Error, Reply, done, Outcome, ok, M, ◌>>=◌, ret}
use voidshell.K8s.Lifecycle.{Api, KeyPair, Manager, Endpoint, lift, is_controlled_by}
use voidshell.K8s.Ssh.{
  require, require_some, require_that, generate_ssh_key, new_secret, create_credentials, pin_keys,
  store_endpoint,
}
use voidshell.K8s.Inversion.{bind_ok, require_ok, require_some_ok}

-- Documented of the SSH library: the PEM text of a marshalled private key is parsed as the key that
-- it was made of.
pub record IsCodec {W : Type 0} (api : Api W) : Type 0 where
  pub parses :
      (key block public : Text)
      → api.marshal_key key ≡ some block
      → api.signer_of key ≡ some public
      → api.public_of (api.to_pem block) ≡ some public

module _ {W : Type 0} (api : Api W) (lib : Stdlib) (cfg : Config) (codec : IsCodec api) where
  generate_ssh_key_ok :
      (m m' : Manager W) (pair : KeyPair)
      → generate_ssh_key api lib cfg m ≡ (m', ok pair)
      → api.public_of pair.private_key ≡ some pair.public_key
  unfolding generate_ssh_key
  generate_ssh_key_ok m m' pair h =
      let made = λ (block public : Text).
        ret {S = Manager W} (record { private_key = api.to_pem block; public_key = public }) in
      let signed = λ (key block : Text).
        require_some Error.key_generation (api.signer_of key) >>= made block in
      let marshalled =
        λ (key : Text). require_some Error.key_generation (api.marshal_key key) >>= signed key in
      let (k, m1, e1, h1) =
        bind_ok (lift api.random_key) (λ k. require_some Error.key_generation k >>= marshalled) m m'
          pair h in
      let (key, m2, e2, h2) =
        bind_ok (require_some Error.key_generation k) marshalled m1 m' pair h1 in
      let (block, m3, e3, h3) =
        bind_ok (require_some Error.key_generation (api.marshal_key key)) (signed key) m2 m' pair
          h2 in
      let (public, m4, e4, h4) =
        bind_ok (require_some Error.key_generation (api.signer_of key)) (made block) m3 m' pair
          h3 in
      let parsed =
        codec.parses key block public
          (require_some_ok Error.key_generation (api.marshal_key key) m2 m3 block e3).0
          (require_some_ok Error.key_generation (api.signer_of key) m3 m4 public e4).0 in
      let same : record { private_key = api.to_pem block; public_key = public } ≡ pair =
        pair_of h4 in
      subst (λ (p : KeyPair). api.public_of p.private_key ≡ some p.public_key) same parsed
    where
      pair_of : {m4 : Manager W} {p : KeyPair} → ret p m4 ≡ (m', ok pair) → p ≡ pair
      pair_of q = cc

  -- The keys of a secret: the host's, and the client's with its line in the authorized keys.
  pub record HasKeys (secret : Secret) : Type 0 where
    pub host : Text
    pub client : Text
    pub host_key : api.public_of (value_of (codes "host-key") secret.contents) ≡ some host
    pub client_key : api.public_of (value_of (codes "client-key") secret.contents) ≡ some client
    pub authorized : value_of (codes "authorized_keys") secret.contents ≡ api.authorized_line client

  new_secret-HasKeys :
      (id : Identity) (pod : Pod) (name : Text) (host client : KeyPair)
      → api.public_of host.private_key ≡ some host.public_key
      → api.public_of client.private_key ≡ some client.public_key
      → HasKeys (new_secret api lib cfg id pod name host client)
  unfolding new_secret value_of text_eq
  new_secret-HasKeys id pod name host client h c = record {
    host = host.public_key;
    client = client.public_key;
    host_key = h;
    client_key = c;
    authorized = refl;
  }

  -- What is created for a pod.
  pub record IsCreated (pod : Pod) (name : Text) : Type 0 where
    pub secret : Secret
    pub before : W
    pub created : (api.create_secret secret before).1 ≡ done tt
    pub named : secret.name ≡ name
    pub placed : secret.namespace ≡ cfg.namespace
    pub fixed : secret.immutable ≡ true
    pub owned : is_controlled_by secret pod ≡ true
    pub keys : HasKeys secret

  create_credentials-IsCreated :
      (id : Identity) (pod : Pod) (name : Text) (m m' : Manager W)
      → create_credentials api lib cfg id pod name m ≡ (m', ok tt)
      → IsCreated pod name
  unfolding create_credentials new_secret
  create_credentials-IsCreated id pod name m m' h =
      let made = λ (host client : KeyPair).
        api.create_secret (new_secret api lib cfg id pod name host client) in
      let store = λ (host client : KeyPair). lift (made host client) >>= require in
      let (host, m1, e1, h1) =
        bind_ok (generate_ssh_key api lib cfg) (λ host. generate_ssh_key api lib cfg >>= store host)
          m m' tt h in
      let (client, m2, e2, h2) = bind_ok (generate_ssh_key api lib cfg) (store host) m1 m' tt h1 in
      let (r, m3, e3, h3) = bind_ok (lift (made host client)) require m2 m' tt h2 in
      record {
        secret = new_secret api lib cfg id pod name host client;
        before = m2.world;
        created = answer_of (made host client) e3 ∙ (require_ok r m3 m' tt h3).0;
        named = refl;
        placed = refl;
        fixed = refl;
        owned = eq_refl pod.uid;
        keys =
            new_secret-HasKeys id pod name host client (generate_ssh_key_ok m m1 host e1)
              (generate_ssh_key_ok m1 m2 client e2);
      }
    where
      answer_of :
          (f : W → W × Reply (Unit {0})) {m2 m3 : Manager W} {r : Reply (Unit {0})}
          → lift f m2 ≡ (m3, ok r)
          → (f m2.world).1 ≡ r
      answer_of f q = cc

      eq_refl : (n : ℕ) → (n == n) ≡ true
      eq_refl n = ground arith

  -- The SSH library is taken to parse the key that it has marshalled. Where the credentials of a
  -- pod are created, the API server has accepted a secret under this name, which cannot be changed
  -- and is owned by the pod, and which authorizes the public key of the client key that it holds;
  -- and `prepareSSH`, when it is given the pod and this secret, stores an endpoint with the pod's
  -- address, the client key and the public key of the host key.
  pub create_credentials-prepared :
      (id : Identity) (pod : Pod) (name pod_name : Text) (m m' m1 : Manager W)
      → create_credentials api lib cfg id pod name m ≡ (m', ok tt)
      → (c : IsCreated pod name) × (pin_keys api lib cfg pod_name pod c.secret m1
          ≡ store_endpoint api lib cfg pod_name
              (record {
                address = pod.pod_ip;
                port = workspace_ssh_port;
                client_key = value_of (codes "client-key") c.secret.contents;
                host_key = c.keys.host;
              })
              m1)
  unfolding pin_keys
  create_credentials-prepared id pod name pod_name m m' m1 h =
      let c = create_credentials-IsCreated id pod name m m' h in
      (c, rw (c.owned, c.keys.client_key, c.keys.host_key) refl)
