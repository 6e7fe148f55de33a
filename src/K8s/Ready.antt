-- ===== src/K8s/Ready.antt =====
-- What the wait for a pod has seen where it succeeds.
use voidshell.Prelude.{
  ℕ, zero, suc, ◌≡◌, refl, ◌⊎◌, inl, inr, Bool, true, false, Text, arith, Bool-cases, codes, List,
  ◌++◌, ◌∷◌, [], text_eq, ap, ◌&&◌, sym, text_eq→eq,
}
use voidshell.Workspace.Stdlib.{Stdlib}
use voidshell.K8s.Pods.{Pod, ContainerStatus, running}
use voidshell.K8s.Build.{Config, poll_interval}
use voidshell.K8s.Monad.{Reply, done, refused, Outcome, ok, err, out_of_fuel, M}
use voidshell.K8s.Lifecycle.{
  Api, Manager, after_check, after_poll, wait_for_pod_ready, check_pod, workspace_ready,
}
use voidshell.K8s.Deleting.{pause_then_ok}

-- The pod is running, and a container status says that the container `workspace` is ready.
pub record IsReady (pod : Pod) : Type 0 where
  pub phase : pod.phase ≡ running
  pub before : List ContainerStatus
  pub status : ContainerStatus
  pub after : List ContainerStatus
  pub listed : pod.statuses ≡ before ++ status ∷ after
  pub named : status.name ≡ codes "workspace"
  pub ready : status.ready ≡ true

-- A status of the list says that the container `workspace` is ready.
record HasReady (statuses : List ContainerStatus) : Type 0 where
  before : List ContainerStatus
  status : ContainerStatus
  after : List ContainerStatus
  listed : statuses ≡ before ++ status ∷ after
  named : status.name ≡ codes "workspace"
  ready : status.ready ≡ true

workspace_ready-HasReady :
    (statuses : List ContainerStatus) → workspace_ready statuses ≡ true → HasReady statuses
unfolding workspace_ready
workspace_ready-HasReady [] h = cc
workspace_ready-HasReady (s ∷ rest) h =
    elim (Bool-cases (text_eq s.name (codes "workspace") && s.ready)) [
      | inl e ↦ record {
        before = [];
        status = s;
        after = rest;
        listed = refl;
        named = text_eq→eq s.name (codes "workspace") (ground arith);
        ready = ground arith;
      }
      | inr e ↦
          let more = workspace_ready-HasReady rest (rw e at h) in
          record {
            before = s ∷ more.before;
            status = more.status;
            after = more.after;
            listed = ap (λ r. s ∷ r) more.listed;
            named = more.named;
            ready = more.ready;
          }
    ]

check_pod-IsReady : (pod : Pod) → check_pod pod ≡ ok true → IsReady pod
unfolding check_pod
check_pod-IsReady pod h =
    let phase : pod.phase ≡ running = ground arith in
    let statuses : workspace_ready pod.statuses ≡ true = ground arith in
    let has = workspace_ready-HasReady pod.statuses statuses in
    record {
      phase = phase;
      before = has.before;
      status = has.status;
      after = has.after;
      listed = has.listed;
      named = has.named;
      ready = has.ready;
    }

module _ {W : Type 0} (api : Api W) (cfg : Config) where
  -- The last answer about the pod showed it ready.
  pub record SawReady (name : Text) (w' : W) : Type 0 where
    pub before : W
    pub pod : Pod
    pub answer : api.get_pod cfg.namespace name before ≡ (w', done pod)
    pub ready : IsReady pod

  after_poll_ok :
      (lib : Stdlib) (again : M (Manager W) (Unit {0})) (r : Reply Pod) (m m' : Manager W)
      → after_poll api lib cfg again r m ≡ (m', ok tt)
      → ((pod : Pod) × (r ≡ done pod) × IsReady pod × (m ≡ m'))
        ⊎ ((w : W) × (again (record m { world = w }) ≡ (m', ok tt)))
  unfolding after_poll after_check
  after_poll_ok lib again (refused e) m m' h = cc
  after_poll_ok lib again (done pod) m m' h = checked (check_pod pod) refl h
    where
      checked :
          (o : Outcome Bool)
          → check_pod pod ≡ o
          → after_check api lib cfg again o m ≡ (m', ok tt)
          → ((p : Pod) × (done pod ≡ done p) × IsReady p × (m ≡ m'))
            ⊎ ((w : W) × (again (record m { world = w }) ≡ (m', ok tt)))
      checked (ok true) e h' =
          inl (
            pod,
            refl,
            check_pod-IsReady pod e,
            ap (λ (p : Manager W × Outcome (Unit {0})). p.0) h',
          )
      checked (ok false) e h' = inr (pause_then_ok api cfg lib (poll_interval cfg) again m m' h')
      checked (err x) e h' = cc
      checked out_of_fuel e h' = cc

  pub wait_for_pod_ready_ok :
      (lib : Stdlib) (fuel : ℕ) (name : Text) (m m' : Manager W)
      → wait_for_pod_ready api lib cfg fuel name m ≡ (m', ok tt)
      → SawReady name m'.world × (m'.endpoints ≡ m.endpoints)
  unfolding wait_for_pod_ready
  wait_for_pod_ready_ok lib zero name m m' h = cc
  wait_for_pod_ready_ok lib (suc fuel) name m m' h =
      let answer = api.get_pod cfg.namespace name m.world in
      elim (after_poll_ok lib (wait_for_pod_ready api lib cfg fuel name) answer.1
        (record m { world = answer.0 }) m' h) [
          | inl (pod, e, ready, same) ↦ (
            record { before = m.world; pod = pod; answer = ground arith; ready = ready },
            ap (λ (x : Manager W). x.endpoints) (sym same),
          )
          | inr (w, h') ↦ wait_for_pod_ready_ok lib fuel name (record m { world = w }) m' h'
        ]
