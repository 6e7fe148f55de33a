-- ===== src/K8s/Deleting.antt =====
-- `DeletePod` reports success only once the API server has said that the pod is gone.
use voidshell.Prelude.{
  ℕ, zero, suc, ◌≡◌, refl, ◌⊎◌, inl, inr, Option, none, Text, put, put_self, arith, Bool-cases, ap,
  sym, subst, ◌∙◌,
}
use voidshell.Workspace.Stdlib.{Stdlib}
use voidshell.Workspace.Selector.{StorageMode}
use voidshell.Workspace.Identity.{Identity, pod_name_for}
use voidshell.K8s.Pods.{Pod}
use voidshell.K8s.Build.{Config}
use voidshell.K8s.Monad.{not_found, already_exists, other, Reply, done, refused, Outcome, ok, M}
use voidshell.K8s.Lifecycle.{
  Api, Manager, pause_then, after_gone, wait_gone, after_remove, forget_endpoint, delete_pod,
  Endpoint, retry_interval,
}

module _ {W : Type 0} (api : Api W) (cfg : Config) where
  -- A poll that succeeds has made the call again.
  pub pause_then_ok :
      (lib : Stdlib) (interval : ℕ) (again : M (Manager W) (Unit {0})) (m m' : Manager W)
      → pause_then api lib cfg interval again m ≡ (m', ok tt)
      → (w : W) × (again (record m { world = w }) ≡ (m', ok tt))
  unfolding pause_then
  pause_then_ok lib interval again m m' h = elim (Bool-cases (api.pause interval m.world).1) [
    | inl e ↦ absurd (let h' = rw e at h in cc)
    | inr e ↦ ((api.pause interval m.world).0, rw e at h)
  ]

  -- The last answer about the pod was that there is none.
  pub record IsGone (name : Text) (w' : W) : Type 0 where
    pub before : W
    pub gone :
        (api.get_pod cfg.namespace name before ≡ (w', refused not_found))
        ⊎ (api.remove_pod cfg.namespace name before ≡ (w', refused not_found))

  after_gone_ok :
      (lib : Stdlib) (again : M (Manager W) (Unit {0})) (r : Reply Pod) (m m' : Manager W)
      → after_gone api lib cfg again r m ≡ (m', ok tt)
      → ((r ≡ refused not_found) × (m ≡ m'))
        ⊎ ((w : W) × (again (record m { world = w }) ≡ (m', ok tt)))
  unfolding after_gone
  after_gone_ok lib again (done pod) m m' h = inr (pause_then_ok lib retry_interval again m m' h)
  after_gone_ok lib again (refused not_found) m m' h =
      inl (refl, ap (λ (p : Manager W × Outcome (Unit {0})). p.0) h)
  after_gone_ok lib again (refused already_exists) m m' h = cc
  after_gone_ok lib again (refused other) m m' h = cc

  wait_gone_ok :
      (lib : Stdlib) (fuel : ℕ) (name : Text) (m m' : Manager W)
      → wait_gone api lib cfg fuel name m ≡ (m', ok tt)
      → IsGone name m'.world × (m'.endpoints ≡ m.endpoints)
  unfolding wait_gone
  wait_gone_ok lib zero name m m' h = cc
  wait_gone_ok lib (suc fuel) name m m' h =
      let answer = api.get_pod cfg.namespace name m.world in
      elim (after_gone_ok lib (wait_gone api lib cfg fuel name) answer.1
        (record m { world = answer.0 }) m' h) [
          | inl (e, same) ↦ (
            record { before = m.world; gone = inl (ground arith) },
            ap (λ (x : Manager W). x.endpoints) (sym same),
          )
          | inr (w, h') ↦ wait_gone_ok lib fuel name (record m { world = w }) m' h'
        ]

  after_remove_ok :
      (lib : Stdlib) (fuel : ℕ) (name : Text) (r : Reply (Unit {0})) (m m' : Manager W) (w : W)
      → api.remove_pod cfg.namespace name w ≡ (m.world, r)
      → after_remove api lib cfg fuel name r m ≡ (m', ok tt)
      → IsGone name m'.world × (m'.endpoints ≡ m.endpoints)
  unfolding after_remove
  after_remove_ok lib fuel name (done u) m m' w e h = wait_gone_ok lib fuel name m m' h
  after_remove_ok lib fuel name (refused not_found) m m' w e h =
      let same : m ≡ m' = ap (λ (p : Manager W × Outcome (Unit {0})). p.0) h in
      (
        record {
          before = w;
          gone = inr (
              subst
                (λ (x : Manager W).
                  api.remove_pod cfg.namespace name w ≡ (x.world, refused not_found))
                same e);
        },
        ap (λ (x : Manager W). x.endpoints) (sym same),
      )
  after_remove_ok lib fuel name (refused already_exists) m m' w e h = cc
  after_remove_ok lib fuel name (refused other) m m' w e h = cc

  -- Where `DeletePod` succeeds, the last answer of the API server, to a request for the workspace's
  -- pod, was that there is none; and no SSH endpoint is kept for the pod.
  pub delete_pod-IsGone :
      (lib : Stdlib) (fuel : ℕ) (id : Identity) (mode : StorageMode) (m m' : Manager W)
      → delete_pod api lib cfg fuel id mode m ≡ (m', ok tt)
      → IsGone (pod_name_for lib id mode) m'.world
        × (m'.endpoints (pod_name_for lib id mode) ≡ none)
  unfolding delete_pod forget_endpoint
  delete_pod-IsGone lib fuel id mode m m' h =
      let name = pod_name_for lib id mode in
      let answer = api.remove_pod cfg.namespace name m.world in
      let (gone, kept) =
        after_remove_ok lib fuel name answer.1
          (record m { world = answer.0; endpoints = put name none m.endpoints }) m' m.world refl
          h in
      (gone, ap (λ (f : Text → Option Endpoint). f name) kept ∙ put_self name none m.endpoints)
