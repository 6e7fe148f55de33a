-- ===== src/K8s/Lifecycle.antt =====
-- internal/k8s/lifecycle.go and ssh.go: the calls that provision and delete a workspace. The API
-- server, the clock with the context, and the SSH library are a parameter; the loops that poll take
-- fuel.

use voidshell.Prelude.{
  ℕ, zero, suc, Bool, true, false, not, ◌&&◌, Option, none, some, List, [], ◌∷◌, Text, codes,
  text_eq, if◌then◌else◌, put, is_empty, ◌==◌,
}
use voidshell.Workspace.Stdlib.{Stdlib}
use voidshell.Workspace.Selector.{StorageMode}
use voidshell.Workspace.Identity.{Identity, pod_name_for, pvc_name, workspace_id}
use voidshell.K8s.Pods.{running, succeeded, failed, ContainerStatus, Pod, Secret, Claim, value_of}
use voidshell.K8s.Build.{
  Config, build_pod, direct_ssh_enabled, workspace_label, backend_label, poll_interval,
}
use voidshell.K8s.Monad.{
  not_found, already_exists, other, Reply, done, refused, Error, Outcome, ok, err, out_of_fuel, M,
  ◌>>=◌, ret, fail,
}

-- A private key in PEM and its public key.
pub record KeyPair : Type 0 where
  pub private_key : Text
  pub public_key : Text

-- What the manager calls. `pause` waits for the next tick of an interval or for the end of the
-- context, and says whether the context has ended; `with_timeout` starts a context with a timeout,
-- and `cancel` ends it. `random_key` is `ed25519.GenerateKey`, `marshal_key`
-- `ssh.MarshalPrivateKey`, `signer_of` `ssh.NewSignerFromKey` with `PublicKey()`, `to_pem`
-- `pem.EncodeToMemory`, `authorized_line` `ssh.MarshalAuthorizedKey`, and `public_of`
-- `ssh.ParsePrivateKey` with `PublicKey()`.
pub record Api (W : Type 0) : Type 0 where
  pub get_pod : Text → Text → W → W × Reply Pod
  pub create_pod : Pod → W → W × Reply (Unit {0})
  pub remove_pod : Text → Text → W → W × Reply (Unit {0})
  pub get_claim : Text → Text → W → W × Reply Claim
  pub create_claim : Claim → W → W × Reply (Unit {0})
  pub get_secret : Text → Text → W → W × Reply Secret
  pub create_secret : Secret → W → W × Reply (Unit {0})
  pub pause : ℕ → W → W × Bool
  pub with_timeout : ℕ → W → W
  pub cancel : W → W
  pub random_text : W → W × Text
  pub random_key : W → W × Option Text
  pub marshal_key : Text → Option Text
  pub signer_of : Text → Option Text
  pub to_pem : Text → Text
  pub authorized_line : Text → Text
  pub is_ip : Text → Bool
  pub public_of : Text → Option Text

-- `sshEndpoint`: where to dial, the key to log in with, and the host key that is pinned.
pub record Endpoint : Type 0 where
  pub address : Text
  pub port : ℕ
  pub client_key : Text
  pub host_key : Text

-- The part of `Manager` that changes, and the world around it.
pub record Manager (W : Type 0) : Type 0 where
  pub world : W
  pub endpoints : Text → Option Endpoint

abbrev pub lift : {W A : Type 0} → (W → W × A) → M (Manager W) A
lift f m = let (w, a) = f m.world in (record m { world = w }, Outcome.ok a)

-- `metav1.IsControlledBy(secret, pod)`
abbrev pub is_controlled_by : Secret → Pod → Bool
is_controlled_by secret pod = elim secret.owner [ none ↦ false | some uid ↦ uid == pod.uid ]

-- The loop over the container statuses.
unfoldable pub workspace_ready : List ContainerStatus → Bool
workspace_ready [] = false
workspace_ready (status ∷ rest) =
    if text_eq status.name (codes "workspace") && status.ready then true else workspace_ready rest

-- The `switch` of `check` in `waitForPodReady`.
unfoldable pub check_pod : Pod → Outcome Bool
check_pod pod = elim pod.phase [
  | running ↦ ok (workspace_ready pod.statuses)
  | failed ↦ err (Error.terminal_phase failed)
  | succeeded ↦ err (Error.terminal_phase succeeded)
  | _ ↦ ok false
]

-- `100 * time.Millisecond`
abbrev pub retry_interval : ℕ
retry_interval = 100000000

module _ {W : Type 0} (api : Api W) (lib : Stdlib) (cfg : Config) where
  -- A poll: after the pause either the context has ended, or the call is made again.
  unfoldable pub pause_then : ℕ → M (Manager W) (Unit {0}) → M (Manager W) (Unit {0})
  pause_then interval again =
      lift (api.pause interval) >>= λ ended. if ended then fail Error.context_done else again

  unfoldable pub after_gone : M (Manager W) (Unit {0}) → Reply Pod → M (Manager W) (Unit {0})
  after_gone again (done pod) = pause_then retry_interval again
  after_gone again (refused not_found) = ret tt
  after_gone again (refused already_exists) = fail (Error.api_error already_exists)
  after_gone again (refused other) = fail (Error.api_error other)

  -- The loop of `DeletePod`.
  unfoldable pub wait_gone : ℕ → Text → M (Manager W) (Unit {0})
  wait_gone zero name m = (m, out_of_fuel)
  wait_gone (suc fuel) name m =
      (lift (api.get_pod cfg.namespace name) >>= after_gone (wait_gone fuel name)) m

  unfoldable pub after_remove : ℕ → Text → Reply (Unit {0}) → M (Manager W) (Unit {0})
  after_remove fuel name (done _) = wait_gone fuel name
  after_remove fuel name (refused not_found) = ret tt
  after_remove fuel name (refused already_exists) = fail (Error.api_error already_exists)
  after_remove fuel name (refused other) = fail (Error.api_error other)

  -- `m.sshEndpoints.Delete(name)`
  unfoldable pub forget_endpoint : Text → Manager W → Manager W
  forget_endpoint name m = record m { endpoints = put name none m.endpoints }

  -- `DeletePod`
  unfoldable pub delete_pod : ℕ → Identity → StorageMode → M (Manager W) (Unit {0})
  delete_pod fuel id mode m =
      let name = pod_name_for lib id mode in
      (lift (api.remove_pod cfg.namespace name) >>= after_remove fuel name) (forget_endpoint name m)

  -- `ensurePVC`
  unfoldable pub new_claim : Identity → Claim
  new_claim id = record {
    name = pvc_name lib id;
    namespace = cfg.namespace;
    labels = record { key = workspace_label; value = workspace_id lib id } ∷ [];
    size = cfg.storage_size;
    storage_class = if is_empty cfg.storage_class then none else some cfg.storage_class;
  }

  unfoldable pub returned : Reply (Unit {0}) → M (Manager W) (Unit {0})
  returned (done _) = ret tt
  returned (refused e) = fail (Error.api_error e)

  unfoldable pub after_get_claim : Identity → Reply Claim → M (Manager W) (Unit {0})
  after_get_claim id (done _) = ret tt
  after_get_claim id (refused not_found) = lift (api.create_claim (new_claim id)) >>= returned
  after_get_claim id (refused already_exists) = fail (Error.api_error already_exists)
  after_get_claim id (refused other) = fail (Error.api_error other)

  unfoldable pub ensure_pvc : Identity → M (Manager W) (Unit {0})
  ensure_pvc id = lift (api.get_claim cfg.namespace (pvc_name lib id)) >>= after_get_claim id

  -- `buildPod`, which draws a random text for the direct SSH backend only.
  unfoldable pub make_pod : Identity → StorageMode → M (Manager W) Pod
  make_pod id mode = elim (direct_ssh_enabled cfg) [
    | true ↦ lift api.random_text >>= λ random. ret (build_pod lib id mode cfg random)
    | false ↦ ret (build_pod lib id mode cfg [])
  ]

  unfoldable pub after_create_pod :
      M (Manager W) (Unit {0}) → Reply (Unit {0}) → M (Manager W) (Unit {0})
  after_create_pod again (done _) = ret tt
  after_create_pod again (refused already_exists) = again
  after_create_pod again (refused not_found) = fail (Error.api_error not_found)
  after_create_pod again (refused other) = fail (Error.api_error other)

  -- `(pod.Labels["voidshell.io/backend"] == "ssh") != m.DirectSSHEnabled()`
  unfoldable pub backend_mismatch : Pod → Bool
  backend_mismatch pod = elim (text_eq (value_of backend_label pod.labels) (codes "ssh")) [
    | true ↦ not (direct_ssh_enabled cfg)
    | false ↦ direct_ssh_enabled cfg
  ]

  unfoldable pub after_get_pod :
      Identity → StorageMode → M (Manager W) (Unit {0}) → Reply Pod → M (Manager W) (Unit {0})
  after_get_pod id mode again (done pod) =
      if pod.deleting
      then pause_then retry_interval again
      else if backend_mismatch pod
      then fail Error.backend_differs
      else ret tt
  after_get_pod id mode again (refused not_found) =
      make_pod id mode >>= λ pod. lift (api.create_pod pod) >>= after_create_pod again
  after_get_pod id mode again (refused already_exists) = fail (Error.api_error already_exists)
  after_get_pod id mode again (refused other) = fail (Error.api_error other)

  unfoldable pub ensure_pod : ℕ → Identity → StorageMode → M (Manager W) (Unit {0})
  ensure_pod zero id mode m = (m, out_of_fuel)
  ensure_pod (suc fuel) id mode m =
      (lift (api.get_pod cfg.namespace (pod_name_for lib id mode))
          >>= after_get_pod id mode (ensure_pod fuel id mode))
        m

  unfoldable pub after_check : M (Manager W) (Unit {0}) → Outcome Bool → M (Manager W) (Unit {0})
  after_check again (ok true) m = ret tt m
  after_check again (ok false) m = pause_then (poll_interval cfg) again m
  after_check again (err e) m = fail e m
  after_check again out_of_fuel m = (m, out_of_fuel)

  unfoldable pub after_poll : M (Manager W) (Unit {0}) → Reply Pod → M (Manager W) (Unit {0})
  after_poll again (done pod) = after_check again (check_pod pod)
  after_poll again (refused e) = fail (Error.api_error e)

  -- `waitForPodReady`: the first check and the loop.
  unfoldable pub wait_for_pod_ready : ℕ → Text → M (Manager W) (Unit {0})
  wait_for_pod_ready zero name m = (m, out_of_fuel)
  wait_for_pod_ready (suc fuel) name m =
      (lift (api.get_pod cfg.namespace name) >>= after_poll (wait_for_pod_ready fuel name)) m
