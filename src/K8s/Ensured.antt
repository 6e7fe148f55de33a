-- ===== src/K8s/Ensured.antt =====
-- `EnsureWorkspace` reports success only once it has seen the pod ready.
use voidshell.Prelude.{ℕ, ◌≡◌, ap}
use voidshell.Workspace.Stdlib.{Stdlib}
use voidshell.Workspace.Selector.{StorageMode}
use voidshell.Workspace.Identity.{Identity, pod_name_for}
use voidshell.K8s.Build.{Config, ready_timeout}
use voidshell.K8s.Monad.{Error, ok, M, ◌>>◌, wrap, Outcome}
use voidshell.K8s.Lifecycle.{Api, Manager, ensure_pod, wait_for_pod_ready}
use voidshell.K8s.Ssh.{
  ensure_ssh_credentials, prepare_ssh, ensure_storage, when_direct, ensure_workspace, provision,
  within,
}
use voidshell.K8s.Ready.{SawReady, wait_for_pod_ready_ok}
use voidshell.K8s.Inversion.{bind_ok, wrap_ok}

module _ {W : Type 0} (api : Api W) (lib : Stdlib) (cfg : Config) (fuel : ℕ) (id : Identity)
    (mode : StorageMode) where
  abbrev pub preparing : M (Manager W) (Unit {0})
  preparing = when_direct api lib cfg (wrap Error.preparing_ssh (prepare_ssh api lib cfg id mode))

  abbrev waiting : M (Manager W) (Unit {0})
  waiting =
      wrap Error.waiting_ready (wait_for_pod_ready api lib cfg fuel (pod_name_for lib id mode))

  abbrev with_credentials : M (Manager W) (Unit {0})
  with_credentials =
      when_direct api lib cfg
        (wrap Error.ensuring_credentials (ensure_ssh_credentials api lib cfg id mode))

  abbrev with_pod : M (Manager W) (Unit {0})
  with_pod = wrap Error.ensuring_pod (ensure_pod api lib cfg fuel id mode)

  provision-SawReady :
      (m m' : Manager W)
      → provision api lib cfg fuel id mode m ≡ (m', ok tt)
      → (seen : Manager W) × SawReady api cfg (pod_name_for lib id mode) seen.world
        × (preparing seen ≡ (m', ok tt))
  unfolding provision
  provision-SawReady m m' h =
      let (u, m1, e1, h1) =
        bind_ok (ensure_storage api lib cfg id mode)
          (λ _. with_pod >> (with_credentials >> (waiting >> preparing))) m m' tt h in
      let (u2, m2, e2, h2) =
        bind_ok with_pod (λ _. with_credentials >> (waiting >> preparing)) m1 m' tt h1 in
      let (u3, m3, e3, h3) = bind_ok with_credentials (λ _. waiting >> preparing) m2 m' tt h2 in
      let (u4, m4, e4, h4) = bind_ok waiting (λ _. preparing) m3 m' tt h3 in
      let saw = wait_for_pod_ready_ok api cfg lib fuel (pod_name_for lib id mode) m3 m4 (
        wrap_ok Error.waiting_ready (wait_for_pod_ready api lib cfg fuel (pod_name_for lib id mode))
          m3 m4 u4 e4) in
      (m4, saw.0, h4)

  -- Where `EnsureWorkspace` succeeds, the API server has answered a request for the workspace's pod
  -- with one that is running and in which the container `workspace` is ready; only the preparation
  -- of direct SSH and the end of the context come after that answer.
  pub ensure_workspace-SawReady :
      (m m' : Manager W)
      → ensure_workspace api lib cfg fuel id mode m ≡ (m', ok tt)
      → (seen : Manager W) × (prepared : Manager W) × SawReady api cfg
          (pod_name_for lib id mode)
          seen.world
        × (preparing seen ≡ (prepared, ok tt))
        × (record prepared { world = api.cancel prepared.world } ≡ m')
  unfolding ensure_workspace within
  ensure_workspace-SawReady m m' h =
      let begun = record m { world = api.with_timeout (ready_timeout cfg) m.world } in
      let r = provision api lib cfg fuel id mode begun in
      let e : r.1 ≡ ok tt = ap (λ (p : Manager W × Outcome (Unit {0})). p.1) h in
      let (seen, saw, prep) = provision-SawReady begun r.0 (λ i. (r.0, e i)) in
      (seen, r.0, saw, prep, ap (λ (p : Manager W × Outcome (Unit {0})). p.0) h)
