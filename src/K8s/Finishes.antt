-- ===== src/K8s/Finishes.antt =====
-- `EnsureWorkspace` comes to an end.
use voidshell.Prelude.{ℕ, ◌<◌, ◌≢◌, arith, Bool-cases, inl, inr}
use voidshell.Workspace.Stdlib.{Stdlib}
use voidshell.Workspace.Selector.{StorageMode}
use voidshell.Workspace.Identity.{Identity, pod_name_for}
use voidshell.K8s.Build.{Config, direct_ssh_enabled, ready_timeout}
use voidshell.K8s.Monad.{Error, out_of_fuel, M, ◌>>=◌, ◌>>◌, wrap}
use voidshell.K8s.Lifecycle.{Api, Manager, ensure_pod, wait_for_pod_ready}
use voidshell.K8s.Ssh.{
  ensure_ssh_credentials, prepare_ssh, ensure_storage, when_direct, within, provision,
  ensure_workspace,
}
use voidshell.K8s.Ends.{Ends, bind-Ends, wrap-Ends}
use voidshell.K8s.Lasting.{ensure_pod-Keeps, wait_for_pod_ready-Keeps}
use voidshell.K8s.Timeout.{IsTimed, ensure_pod-Ends, wait_for_pod_ready-Ends}
use voidshell.K8s.LoopFree.{
  Timely, ensure_storage-Ends, ensure_ssh_credentials-Ends, prepare_ssh-Ends,
}

module _ {W : Type 0} (api : Api W) (lib : Stdlib) (cfg : Config) (left : W → ℕ)
    (timed : IsTimed api left) (t : ℕ) where
  when_direct-Ends :
      (call : M (Manager W) (Unit {0}))
      → Ends (Timely api lib cfg left timed t) call
      → Ends (Timely api lib cfg left timed t) (when_direct api lib cfg call)
  unfolding when_direct
  when_direct-Ends call h s p = elim (Bool-cases (direct_ssh_enabled cfg)) [
    | inl e ↦ rw (when_direct, e) (h s p)
    | inr e ↦ rw (when_direct, e) (λ q. cc, p)
  ]

  provision-Ends :
      (fuel : ℕ) (id : Identity) (mode : StorageMode)
      → t < fuel
      → Ends (Timely api lib cfg left timed t) (provision api lib cfg fuel id mode)
  unfolding provision
  provision-Ends fuel id mode h =
      let name = pod_name_for lib id mode in
      let storage = ensure_storage api lib cfg id mode in
      let pod = wrap Error.ensuring_pod (ensure_pod api lib cfg fuel id mode) in
      let keys = wrap Error.ensuring_credentials (ensure_ssh_credentials api lib cfg id mode) in
      let ready = wrap Error.waiting_ready (wait_for_pod_ready api lib cfg fuel name) in
      let pins = wrap Error.preparing_ssh (prepare_ssh api lib cfg id mode) in
      let tail = when_direct api lib cfg pins in
      let from_ready = λ (u : Unit {0}). ready >> tail in
      let from_keys = λ (u : Unit {0}). when_direct api lib cfg keys >>= from_ready in
      let from_pod = λ (u : Unit {0}). pod >>= from_keys in
      bind-Ends (Timely api lib cfg left timed t) storage from_pod
        (ensure_storage-Ends api lib cfg left timed t id mode)
        (λ u.
          bind-Ends (Timely api lib cfg left timed t) pod from_keys
            (wrap-Ends (Timely api lib cfg left timed t) Error.ensuring_pod
              (ensure_pod api lib cfg fuel id mode)
              (λ m p. (
                ensure_pod-Ends api lib cfg left timed fuel id mode m (omega (arith, p, h)),
                ensure_pod-Keeps api lib cfg left timed t fuel id mode m p,
              )))
            (λ v.
              bind-Ends (Timely api lib cfg left timed t) (when_direct api lib cfg keys) from_ready
                (when_direct-Ends keys (
                  wrap-Ends (Timely api lib cfg left timed t) Error.ensuring_credentials
                    (ensure_ssh_credentials api lib cfg id mode)
                    (ensure_ssh_credentials-Ends api lib cfg left timed t id mode)))
                (λ w.
                  bind-Ends (Timely api lib cfg left timed t) ready (λ x. tail)
                    (wrap-Ends (Timely api lib cfg left timed t) Error.waiting_ready
                      (wait_for_pod_ready api lib cfg fuel name)
                      (λ m p. (
                        wait_for_pod_ready-Ends api lib cfg left timed fuel name m
                            (omega (arith, p, h)),
                        wait_for_pod_ready-Keeps api lib cfg left timed t fuel name m p,
                      )))
                    (λ x. when_direct-Ends pins (
                      wrap-Ends (Timely api lib cfg left timed t) Error.preparing_ssh
                        (prepare_ssh api lib cfg id mode)
                        (prepare_ssh-Ends api lib cfg left timed t id mode))))))

-- `EnsureWorkspace` comes to an end from every state, with either backend and storage mode, where
-- the API is timed and with fuel above the timeout of the configuration, however much time the
-- context of the caller has left.
pub ensure_workspace-Ends :
    {W : Type 0} (api : Api W) (lib : Stdlib) (cfg : Config) (left : W → ℕ)
    (timed : IsTimed api left) (fuel : ℕ) (id : Identity) (mode : StorageMode) (m : Manager W)
    → ready_timeout cfg < fuel
    → (ensure_workspace api lib cfg fuel id mode m).1 ≢ out_of_fuel
unfolding ensure_workspace within
ensure_workspace-Ends api lib cfg left timed fuel id mode m h =
    let begun = api.with_timeout (ready_timeout cfg) m.world in
    (provision-Ends api lib cfg left timed (ready_timeout cfg) fuel id mode h
      (record m { world = begun }) (timed.started (ready_timeout cfg) m.world)).0
