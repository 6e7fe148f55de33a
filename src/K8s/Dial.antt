-- ===== src/K8s/Dial.antt =====
-- internal/k8s/ssh.go: `OpenWorkspaceSSH`. The network and the SSH handshake are a parameter.
use voidshell.Prelude.{ℕ, ◌≡◌, Bool, true, Option, some, Text, ap, sym, ◌∙◌, text_eq, text_eq→eq}
use voidshell.Workspace.Stdlib.{Stdlib}
use voidshell.Workspace.Selector.{StorageMode}
use voidshell.Workspace.Identity.{Identity, pod_name_for}
use voidshell.K8s.Monad.{Error, ok, M, ◌>>=◌, ◌>>◌, ret}
use voidshell.K8s.Lifecycle.{Manager, Endpoint, lift}
use voidshell.K8s.Ssh.{require_some, require_that}
use voidshell.K8s.Inversion.{bind_ok, require_some_ok}

-- `DialContext` to an address and a port; `ssh.NewClientConn` with a host-key callback and a client
-- key, which yields the key that the server has shown; and whether the context for dialling lasts.
pub record Network (W : Type 0) : Type 0 where
  pub dial : Text → ℕ → W → W × Bool
  pub handshake : (Text → Bool) → Text → W → W × Option Text
  pub lasts : W → W × Bool

-- Documented of `ssh.NewClientConn`: it fails where the callback rejects the server's key.
pub record IsVerifying {W : Type 0} (net : Network W) : Type 0 where
  pub verifies :
      (callback : Text → Bool) (client_key : Text) (w : W) (key : Text)
      → (net.handshake callback client_key w).1 ≡ some key
      → callback key ≡ true

-- An `ssh.Client`: where it is connected to, and the key that the server has shown.
pub record Client : Type 0 where
  pub address : Text
  pub port : ℕ
  pub shown_key : Text
  pub client_key : Text

module _ {W : Type 0} (net : Network W) (lib : Stdlib) where
  -- The host-key callback of `prepareSSH`.
  abbrev pub accepts_key : Endpoint → Text → Bool
  accepts_key endpoint key = text_eq key endpoint.host_key

  unfoldable pub connected : Endpoint → Text → Client
  connected endpoint key = record {
    address = endpoint.address;
    port = endpoint.port;
    shown_key = key;
    client_key = endpoint.client_key;
  }

  -- After the dial.
  unfoldable pub shake_hands : Endpoint → M (Manager W) Client
  shake_hands endpoint = do
    shown ← lift (net.handshake (accepts_key endpoint) endpoint.client_key)
    key ← require_some Error.handshaking shown
    lasts ← lift net.lasts
    require_that Error.context_done lasts
    ret (connected endpoint key)

  unfoldable pub dial_endpoint : Endpoint → M (Manager W) Client
  dial_endpoint endpoint = do
    dialled ← lift (net.dial endpoint.address endpoint.port)
    require_that Error.dialing dialled
    shake_hands endpoint

  -- `OpenWorkspaceSSH`
  unfoldable pub open_workspace_ssh : Identity → StorageMode → M (Manager W) Client
  open_workspace_ssh id mode m =
      (require_some Error.not_prepared (m.endpoints (pod_name_for lib id mode)) >>= dial_endpoint) m

  shake_hands_ok :
      (verifying : IsVerifying net) (endpoint : Endpoint) (m m' : Manager W) (client : Client)
      → shake_hands endpoint m ≡ (m', ok client)
      → connected endpoint endpoint.host_key ≡ client
  unfolding shake_hands
  shake_hands_ok verifying endpoint m m' client h =
      let shake = net.handshake (accepts_key endpoint) endpoint.client_key in
      let give = λ (key : Text) (u : Unit {0}). ret {S = Manager W} (connected endpoint key) in
      let lasting =
        λ (key : Text) (lasts : Bool). require_that Error.context_done lasts >>= give key in
      let keyed = λ (key : Text). lift net.lasts >>= lasting key in
      let (shown, m1, e1, h1) =
        bind_ok (lift shake) (λ shown. require_some Error.handshaking shown >>= keyed) m m' client
          h in
      let (key, m2, e2, h2) =
        bind_ok (require_some Error.handshaking shown) keyed m1 m' client h1 in
      let (lasts, m3, e3, h3) = bind_ok (lift net.lasts) (lasting key) m2 m' client h2 in
      let (u, m4, e4, h4) =
        bind_ok (require_that Error.context_done lasts) (give key) m3 m' client h3 in
      let shown_some : shown ≡ some key =
        (require_some_ok Error.handshaking shown m1 m2 key e2).0 in
      let answered : (shake m.world).1 ≡ some key = answer_of e1 ∙ shown_some in
      let same : endpoint.host_key ≡ key = sym (
        text_eq→eq key endpoint.host_key
          (verifying.verifies (accepts_key endpoint) endpoint.client_key m.world key answered)) in
      ap (connected endpoint) same ∙ client_of h4
    where
      answer_of :
          {m1 : Manager W} {shown : Option Text}
          → lift (net.handshake (accepts_key endpoint) endpoint.client_key) m ≡ (m1, ok shown)
          → (net.handshake (accepts_key endpoint) endpoint.client_key m.world).1 ≡ shown
      answer_of q = cc

      client_of : {m4 : Manager W} {c : Client} → ret c m4 ≡ (m', ok client) → c ≡ client
      client_of q = cc

  -- Where `OpenWorkspaceSSH` succeeds, an endpoint is stored for the pod; the connection goes to
  -- its address and port, is made with its client key, and the server has shown its host key.
  pub open_workspace_ssh_ok :
      (verifying : IsVerifying net) (id : Identity) (mode : StorageMode) (m m' : Manager W)
      (client : Client)
      → open_workspace_ssh id mode m ≡ (m', ok client)
      → (endpoint : Endpoint) × (m.endpoints (pod_name_for lib id mode) ≡ some endpoint)
        × (connected endpoint endpoint.host_key ≡ client)
  unfolding open_workspace_ssh dial_endpoint
  open_workspace_ssh_ok verifying id mode m m' client h =
      let stored = m.endpoints (pod_name_for lib id mode) in
      let (endpoint, m1, e1, h1) =
        bind_ok (require_some Error.not_prepared stored) dial_endpoint m m' client h in
      let shaken = λ (u : Unit {0}). shake_hands endpoint in
      let (dialled, m2, e2, h2) =
        bind_ok (lift (net.dial endpoint.address endpoint.port))
          (λ dialled. require_that Error.dialing dialled >>= shaken) m1 m' client h1 in
      let (u, m3, e3, h3) = bind_ok (require_that Error.dialing dialled) shaken m2 m' client h2 in
      (
        endpoint,
        (require_some_ok Error.not_prepared stored m m1 endpoint e1).0,
        shake_hands_ok verifying endpoint m3 m' client h3,
      )
