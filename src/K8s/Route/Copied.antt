-- ===== src/K8s/Route/Copied.antt =====
-- A forwarded connection that `Forward` reports as well ended was copied, and went to the
-- workspace.
use voidshell.Prelude.{
  ◌<◌, ◌^◌, ℕ, Bool, true, false, Option, none, some, List, [], ◌∷◌, codes, ◌≡◌, refl, ◌⊎◌, inl,
  inr, Bool-cases, ap, ◌∙◌,
}
use voidshell.Workspace.Stdlib.{Stdlib}
use voidshell.Workspace.Selector.{StorageMode}
use voidshell.Workspace.Identity.{Identity, pod_name_for}
use voidshell.K8s.Build.{Config, direct_ssh_enabled}
use voidshell.K8s.Monad.{Error, Outcome, ok, err, out_of_fuel, M, ◌>>=◌, ret}
use voidshell.K8s.Lifecycle.{Manager, Endpoint, lift}
use voidshell.K8s.Ssh.{require_that}
use voidshell.K8s.Inversion.{bind_ok, require_that_ok}
use voidshell.K8s.Dial.{Network, IsVerifying, connected, open_workspace_ssh, open_workspace_ssh_ok}
use voidshell.K8s.Forward.{ForwardError, Calls, forward_api}
use voidshell.K8s.Forward.Tunnelled.{Tunnelled, forward_api-Tunnelled}
use voidshell.K8s.ForwardSsh
use voidshell.K8s.ForwardSsh.{Copy, taken, Forwarding, begun, Move, step, Reach, start, later}
use voidshell.K8s.ForwardSsh.Results.{result-IsDue}
use voidshell.K8s.Route.{
  PortRequest, port_request, Remote, play, moved_to, over_api, over_ssh, succeeded, run_loop,
  open_port, forward_ssh, forward, sym,
}

moved_to-Reach :
    (m : Move) (f : Forwarding)
    → Reach f
    → (o : Option Forwarding) → step m f ≡ o
    → Reach (moved_to f o)
moved_to-Reach m f r none e = r
moved_to-Reach m f r (some g) e = later m r e

play-Reach : (ms : List Move) (f : Forwarding) → Reach f → Reach (play ms f)
unfolding play
play-Reach [] f r = r
play-Reach (m ∷ ms) f r =
    play-Reach ms (moved_to f (step m f)) (moved_to-Reach m f r (step m f) refl)

ssh_succeeded :
    (r : Outcome (Option ForwardSsh.Outcome))
    → succeeded (over_ssh r) ≡ true
    → r ≡ ok (some ForwardSsh.completed)
ssh_succeeded (ok (some ForwardSsh.completed)) h = refl
ssh_succeeded (ok (some ForwardSsh.context_ended)) h = cc
ssh_succeeded (ok (some (ForwardSsh.copy_failed e))) h = cc
ssh_succeeded (ok none) h = cc
ssh_succeeded (err e) h = cc
ssh_succeeded out_of_fuel h = cc

api_succeeded : (r : Option (Option ForwardError)) → succeeded (over_api r) ≡ true → r ≡ some none
api_succeeded none h = cc
api_succeeded (some none) h = refl
api_succeeded (some (some e)) h = cc

module _ {W : Type 0} (net : Network W) (remote : Remote W) (lib : Stdlib) (cfg : Config) where
  -- A forwarded connection over SSH that was copied to its ends: the client is connected by the
  -- endpoint stored under the pod's name, and its host key; its channel goes to the port at the
  -- server's own loopback address; and the loop, run with what then happens, has returned without an
  -- error, after both copies and the backend's channel have ended without one.
  pub record Copied (id : Identity) (mode : StorageMode) (port : ℕ) (m : Manager W) : Type 0 where
    pub endpoint : Endpoint
    pub stored : m.endpoints (pod_name_for lib id mode) ≡ some endpoint
    pub after : Manager W
    pub dialled :
        open_workspace_ssh net lib id mode m
        ≡ (after, ok (connected net lib endpoint endpoint.host_key))
    pub request : PortRequest
    pub to_loopback : request.host ≡ codes "127.0.0.1"
    pub to_port : request.port ≡ port
    pub opened_at : W
    pub opened :
        remote.open_channel
          (connected net lib endpoint endpoint.host_key)
          (codes "direct-tcpip")
          request
          after.world
        ≡ (opened_at, true)
    pub copied_at : W
    pub lasted : remote.lasts opened_at ≡ (copied_at, true)
    pub returned : (play (remote.moves copied_at) begun).result ≡ some ForwardSsh.completed
    pub sent : (play (remote.moves copied_at) begun).input ≡ taken
    pub received : (play (remote.moves copied_at) begun).output ≡ taken
    pub closed : (play (remote.moves copied_at) begun).remote ≡ taken

  lift_ok :
      {A : Type 0} (f : W → W × A) {m m' : Manager W} {a : A}
      → lift f m ≡ (m', ok a)
      → f m.world ≡ (m'.world, a)
  lift_ok f q = cc

  run_loop_ok :
      (m m' : Manager W) (o : Option ForwardSsh.Outcome)
      → run_loop net remote lib cfg m ≡ (m', ok o)
      → (w : W) × (remote.lasts m.world ≡ (w, true)) × ((play (remote.moves w) begun).result ≡ o)
  unfolding run_loop
  run_loop_ok m m' o h =
      let finish : M (Manager W) (Option ForwardSsh.Outcome) =
        λ m. (m, ok (play (remote.moves m.world) begun).result) in
      let (lasts, m1, e1, h1) =
        bind_ok (lift remote.lasts)
          (λ lasts. require_that Error.context_done lasts >>= (λ (u : Unit {0}). finish)) m m' o
          h in
      let (u, m2, e2, h2) =
        bind_ok (require_that Error.context_done lasts) (λ (u : Unit {0}). finish) m1 m' o h1 in
      let (held, same) = require_that_ok Error.context_done lasts m1 m2 e2 in
      (
        m1.world,
        lift_ok {A = Bool} remote.lasts e1 ∙ ap (λ b. (m1.world, b)) held,
        ap (λ (s : Manager W). (play (remote.moves s.world) begun).result) same ∙ result_of m2 h2,
      )
    where
      result_of :
          (m2 : Manager W)
          → ret (play (remote.moves m2.world) begun).result m2 ≡ (m', ok o)
          → (play (remote.moves m2.world) begun).result ≡ o
      result_of m2 q = cc

  forward_ssh-Copied :
      (verifying : IsVerifying net) (id : Identity) (mode : StorageMode) (port : ℕ)
      (m m' : Manager W)
      → forward_ssh net remote lib cfg id mode port m ≡ (m', ok (some ForwardSsh.completed))
      → Copied id mode port m
  unfolding forward_ssh open_port
  forward_ssh-Copied verifying id mode port m m' h =
      let done = some ForwardSsh.completed in
      let (client, m1, e1, h1) =
        bind_ok (open_workspace_ssh net lib id mode) (open_port net remote lib cfg port) m m' done
          h in
      let (endpoint, stored, at) = open_workspace_ssh_ok net lib verifying id mode m m1 client e1 in
      let channel = remote.open_channel client (codes "direct-tcpip") (port_request port) in
      let loop = λ (u : Unit {0}). run_loop net remote lib cfg in
      let (opened, m2, e2, h2) =
        bind_ok (lift channel) (λ opened. require_that Error.opening_channel opened >>= loop) m1 m'
          done h1 in
      let (u, m3, e3, h3) =
        bind_ok (require_that Error.opening_channel opened) loop m2 m' done h2 in
      let (held, same) = require_that_ok Error.opening_channel opened m2 m3 e3 in
      let (copied_at, lasted, ended) = run_loop_ok m3 m' done h3 in
      let (sent, received, closed) =
        result-IsDue (play-Reach (remote.moves copied_at) begun start) ForwardSsh.completed ended in
      record {
        endpoint = endpoint;
        stored = stored;
        after = m1;
        dialled = e1 ∙ ap (λ c. (m1, ok c)) (sym at);
        request = port_request port;
        to_loopback = refl;
        to_port = refl;
        opened_at = m2.world;
        opened =
            ap (λ c. remote.open_channel c (codes "direct-tcpip") (port_request port) m1.world) at
            ∙ lift_ok {A = Bool} channel e2
            ∙ ap (λ b. (m2.world, b)) held;
        copied_at = copied_at;
        lasted = ap (λ (s : Manager W). remote.lasts s.world) same ∙ lasted;
        returned = ended;
        sent = sent;
        received = received;
        closed = closed;
      }

  -- Where `Forward` has returned without an error, for a port of 16 bits: over direct SSH, the
  -- connection went by the endpoint stored for the workspace's pod, to a server that has shown its
  -- host key, and there to this port at the loopback address, and the loop, run with what then
  -- happened, has returned without an error, with the input, the output and the channel ended
  -- without one. Through the API, the API server has chosen the protocol
  -- for the request to forward to the workspace's pod in the manager's namespace; the two streams
  -- were created with this port in decimal; the copy of the pod's output has ended without an
  -- error; and the error stream was read to its end, without a message of the pod and without an
  -- error. The SSH library is taken to refuse a server whose key the callback rejects.
  pub forward-Copied :
      (verifying : IsVerifying net) (calls : Calls) (id : Identity) (mode : StorageMode) (port : ℕ)
      (m : Manager W)
      → port < 2 ^ 16
      → succeeded (forward net remote lib cfg calls id mode port m).1 ≡ true
      → (direct_ssh_enabled cfg ≡ true) × Copied id mode port m
        ⊎ (direct_ssh_enabled cfg ≡ false)
          × Tunnelled calls cfg.namespace (pod_name_for lib id mode) port
  unfolding forward
  forward-Copied verifying calls id mode port m small s =
      elim (Bool-cases (direct_ssh_enabled cfg)) [
        | inl e ↦
            let (m', r) = forward_ssh net remote lib cfg id mode port m in
            let completed = ssh_succeeded r (rw e at s) in
            inl (
              e,
              forward_ssh-Copied verifying id mode port m m'
                  (ap (λ (o : Outcome (Option ForwardSsh.Outcome)). (m', o)) completed),
            )
        | inr e ↦
            let pod = pod_name_for lib id mode in
            let ended = api_succeeded (forward_api calls cfg.namespace pod port) (rw e at s) in
            inr (e, forward_api-Tunnelled calls cfg.namespace pod port small ended)
      ]
