-- ===== src/K8s/Route.antt =====
-- internal/k8s/portfwd.go and ssh.go: `Forward`, which takes the backend's way to a port of the
-- workspace, and `forwardSSH` around its loop. The client library is a parameter.
pub mod Copied
mod Examples
use voidshell.Prelude.{
  ℕ, Bool, true, false, Option, none, some, List, [], ◌∷◌, Text, codes, if◌then◌else◌, ◌≡◌, refl,
  ◌⊎◌, inl, inr, Bool-cases, arith, ap, sym, ◌∙◌,
}
use voidshell.Workspace.Stdlib.{Stdlib}
use voidshell.Workspace.Selector.{StorageMode}
use voidshell.Workspace.Identity.{Identity, pod_name_for}
use voidshell.K8s.Build.{Config, direct_ssh_enabled}
use voidshell.K8s.Monad.{Error, Outcome, ok, err, out_of_fuel, M, ◌>>=◌, ◌>>◌, ret}
use voidshell.K8s.Lifecycle.{Manager, Endpoint, lift}
use voidshell.K8s.Ssh.{require_that}
use voidshell.K8s.Inversion.{bind_ok, require_that_ok}
use voidshell.K8s.Dial.{
  Network, IsVerifying, Client, connected, open_workspace_ssh, open_workspace_ssh_ok,
}
use voidshell.K8s.Forward.{ForwardError, Calls, forward_api}
use voidshell.K8s.ForwardSsh
use voidshell.K8s.ForwardSsh.{Copy, taken, Forwarding, begun, Move, step, Reach, start, later}
use voidshell.K8s.ForwardSsh.Results.{result-IsDue}

-- The request of `forwardSSH` for its channel.
pub record PortRequest : Type 0 where
  pub host : Text
  pub port : ℕ
  pub origin_host : Text
  pub origin_port : ℕ

abbrev pub port_request : ℕ → PortRequest
port_request port = record {
  host = codes "127.0.0.1";
  port = port;
  origin_host = codes "127.0.0.1";
  origin_port = 0;
}

-- `OpenChannel` of the client library, with the channel's type; whether the context lasts; and what
-- then happens, in which order.
pub record Remote (W : Type 0) : Type 0 where
  pub open_channel : Client → Text → PortRequest → W → W × Bool
  pub lasts : W → W × Bool
  pub moves : W → List Move

abbrev pub moved_to : Forwarding → Option Forwarding → Forwarding
moved_to f none = f
moved_to f (some g) = g

-- The loop and what is around it take these moves; one that is not possible is left out.
unfoldable pub play : List Move → Forwarding → Forwarding
play [] f = f
play (m ∷ ms) f = play ms (moved_to f (step m f))

-- What `Forward` returns: through the API, or over direct SSH; `none` is a call that has not
-- returned.
pub data Forwarded : Type 0 where
  over_api : Option (Option ForwardError) → Forwarded
  over_ssh : Outcome (Option ForwardSsh.Outcome) → Forwarded

abbrev pub succeeded : Forwarded → Bool
succeeded (over_api (some none)) = true
succeeded (over_ssh (ok (some ForwardSsh.completed))) = true
succeeded _ = false

module _ {W : Type 0} (net : Network W) (remote : Remote W) (lib : Stdlib) (cfg : Config) where
  -- After the channel is opened.
  unfoldable pub run_loop : M (Manager W) (Option ForwardSsh.Outcome)
  run_loop = do
    lasts ← lift remote.lasts
    require_that Error.context_done lasts
    λ m. (m, ok (play (remote.moves m.world) begun).result)

  unfoldable pub open_port : ℕ → Client → M (Manager W) (Option ForwardSsh.Outcome)
  open_port port client = do
    opened ← lift (remote.open_channel client (codes "direct-tcpip") (port_request port))
    require_that Error.opening_channel opened
    run_loop

  -- `forwardSSH`
  unfoldable pub forward_ssh :
      Identity → StorageMode → ℕ → M (Manager W) (Option ForwardSsh.Outcome)
  forward_ssh id mode port = open_workspace_ssh net lib id mode >>= open_port port

  -- `Forward`
  unfoldable pub forward : Calls → Identity → StorageMode → ℕ → Manager W → Manager W × Forwarded
  unfolding forward_ssh
  forward calls id mode port m =
      if direct_ssh_enabled cfg
      then (let (m', r) = forward_ssh id mode port m in (m', over_ssh r))
      else (m, over_api (forward_api calls cfg.namespace (pod_name_for lib id mode) port))
