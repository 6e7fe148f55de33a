-- ===== src/K8s/Lasting.antt =====
-- No call gives the context time back.
use voidshell.Prelude.{
  ℕ, zero, suc, ◌≤◌, Bool, true, false, Text, arith, Bool-cases, inl, inr, subst, sym,
}
use voidshell.Workspace.Stdlib.{Stdlib}
use voidshell.Workspace.Selector.{StorageMode}
use voidshell.Workspace.Identity.{Identity, pod_name_for}
use voidshell.K8s.Pods.{Pod}
use voidshell.K8s.Build.{Config, poll_interval}
use voidshell.K8s.Monad.{
  not_found, already_exists, other, Reply, done, refused, Outcome, ok, err, out_of_fuel, M, ◌>>=◌,
}
use voidshell.K8s.Lifecycle.{
  Api, Manager, lift, pause_then, after_check, after_poll, wait_for_pod_ready, check_pod,
  after_get_pod, after_create_pod, backend_mismatch, ensure_pod, retry_interval,
}
use voidshell.K8s.Timeout.{IsTimed, make_pod_ok}

module _ {W : Type 0} (api : Api W) (lib : Stdlib) (cfg : Config) (left : W → ℕ)
    (timed : IsTimed api left) (t : ℕ) where
  -- From a state with at most `t` left, the call leaves at most `t`.
  abbrev Keeps : M (Manager W) (Unit {0}) → Type 0
  Keeps call = (m : Manager W) → left m.world ≤ t → left (call m).0.world ≤ t

  pause_then-Keeps :
      (interval : ℕ) (again : M (Manager W) (Unit {0}))
      → Keeps again
      → Keeps (pause_then api lib cfg interval again)
  unfolding pause_then
  pause_then-Keeps interval again h m le =
      let less = timed.pausing interval m.world in
      elim (Bool-cases (api.pause interval m.world).1) [
        | inl e ↦ rw e (omega (arith, le, less))
        | inr e ↦
            rw e (h (record m { world = (api.pause interval m.world).0 }) (omega (arith, le, less)))
      ]

  after_check-Keeps :
      (again : M (Manager W) (Unit {0})) (o : Outcome Bool)
      → Keeps again
      → Keeps (after_check api lib cfg again o)
  unfolding after_check
  after_check-Keeps again (ok true) h m le = le
  after_check-Keeps again (ok false) h m le = pause_then-Keeps (poll_interval cfg) again h m le
  after_check-Keeps again (err e) h m le = le
  after_check-Keeps again out_of_fuel h m le = le

  after_poll-Keeps :
      (again : M (Manager W) (Unit {0})) (r : Reply Pod)
      → Keeps again
      → Keeps (after_poll api lib cfg again r)
  unfolding after_poll
  after_poll-Keeps again (done pod) h m le = after_check-Keeps again (check_pod pod) h m le
  after_poll-Keeps again (refused e) h m le = le

  pub wait_for_pod_ready-Keeps :
      (fuel : ℕ) (name : Text) (m : Manager W)
      → left m.world ≤ t
      → left (wait_for_pod_ready api lib cfg fuel name m).0.world ≤ t
  unfolding wait_for_pod_ready
  wait_for_pod_ready-Keeps zero name m le = le
  wait_for_pod_ready-Keeps (suc fuel) name m le =
      after_poll-Keeps (wait_for_pod_ready api lib cfg fuel name) _
        (wait_for_pod_ready-Keeps fuel name)
        (record m { world = (api.get_pod cfg.namespace name m.world).0 })
        (omega (arith, le, timed.asking cfg.namespace name m.world))

  after_create_pod-Keeps :
      (again : M (Manager W) (Unit {0})) (r : Reply (Unit {0}))
      → Keeps again
      → Keeps (after_create_pod api lib cfg again r)
  unfolding after_create_pod
  after_create_pod-Keeps again (done u) h m le = le
  after_create_pod-Keeps again (refused not_found) h m le = le
  after_create_pod-Keeps again (refused already_exists) h m le = h m le
  after_create_pod-Keeps again (refused other) h m le = le

  create-Keeps :
      (again : M (Manager W) (Unit {0})) (pod : Pod)
      → Keeps again
      → Keeps (lift (api.create_pod pod) >>= after_create_pod api lib cfg again)
  create-Keeps again pod h m le =
      after_create_pod-Keeps again _ h (record m { world = (api.create_pod pod m.world).0 })
        (omega (arith, le, timed.creating pod m.world))

  after_get_pod-Keeps :
      (id : Identity) (mode : StorageMode) (again : M (Manager W) (Unit {0})) (r : Reply Pod)
      → Keeps again
      → Keeps (after_get_pod api lib cfg id mode again r)
  unfolding after_get_pod
  after_get_pod-Keeps id mode again (done pod) h m le = elim (Bool-cases pod.deleting) [
    | inl e ↦ rw e (pause_then-Keeps retry_interval again h m le)
    | inr e ↦ elim (Bool-cases (backend_mismatch api lib cfg pod)) [
      | inl b ↦ rw (b, e) le
      | inr b ↦ rw (b, e) le
    ]
  ]
  after_get_pod-Keeps id mode again (refused not_found) h m le =
      let (w, pod, e, less) = make_pod_ok api lib cfg left timed id mode m in
      subst
        (λ (x : Manager W × Outcome Pod).
          left
            ((◌>>=◌ {A = Pod} (λ s. x)
                (λ p. lift (api.create_pod p) >>= after_create_pod api lib cfg again))
              m).0.world
          ≤ t)
        (sym e) (create-Keeps again pod h (record m { world = w }) (omega (arith, le, less)))
  after_get_pod-Keeps id mode again (refused already_exists) h m le = le
  after_get_pod-Keeps id mode again (refused other) h m le = le

  pub ensure_pod-Keeps :
      (fuel : ℕ) (id : Identity) (mode : StorageMode) (m : Manager W)
      → left m.world ≤ t
      → left (ensure_pod api lib cfg fuel id mode m).0.world ≤ t
  unfolding ensure_pod
  ensure_pod-Keeps zero id mode m le = le
  ensure_pod-Keeps (suc fuel) id mode m le =
      let name = pod_name_for lib id mode in
      after_get_pod-Keeps id mode (ensure_pod api lib cfg fuel id mode) _
        (ensure_pod-Keeps fuel id mode)
        (record m { world = (api.get_pod cfg.namespace name m.world).0 })
        (omega (arith, le, timed.asking cfg.namespace name m.world))
