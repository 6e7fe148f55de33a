-- ===== src/K8s/Timeout.antt =====
-- The loops end with the context: enough fuel is never used up.
use voidshell.Prelude.{
  ℕ, zero, suc, ◌≤◌, ◌<◌, ◌≡◌, ◌≢◌, refl, ◌⊎◌, inl, inr, Bool, true, false, Text, arith, Bool-cases,
  [], subst, sym,
}
use native.Mathlib.Nat.{le_refl}
use voidshell.Workspace.Stdlib.{Stdlib}
use voidshell.Workspace.Selector.{StorageMode}
use voidshell.Workspace.Identity.{Identity, pod_name_for}
use voidshell.K8s.Pods.{Claim, Secret, Pod}
use voidshell.K8s.Build.{Config, direct_ssh_enabled, build_pod, poll_interval}
use voidshell.K8s.Monad.{
  not_found, already_exists, other, Reply, done, refused, Outcome, ok, err, out_of_fuel, M, ◌>>=◌,
}
use voidshell.K8s.Lifecycle.{
  Api, Manager, lift, pause_then, after_gone, wait_gone, after_remove, forget_endpoint, delete_pod,
  after_check, after_poll, wait_for_pod_ready, check_pod, after_get_pod, after_create_pod,
  backend_mismatch, make_pod, ensure_pod, retry_interval,
}

-- The time left to the context in a state of the world: a context with a timeout has at most that
-- much left; a request for a pod that is answered takes time, and one that the context ends fails;
-- and no request, drawn text or key, or pause gives time back.
pub record IsTimed {W : Type 0} (api : Api W) (left : W → ℕ) : Type 0 where
  pub started : (timeout : ℕ) (w : W) → left (api.with_timeout timeout w) ≤ timeout
  pub asking : (namespace name : Text) (w : W) → left (api.get_pod namespace name w).0 ≤ left w
  pub answered :
      (namespace name : Text) (w : W)
      → ((api.get_pod namespace name w).1 ≡ refused other)
        ⊎ (left (api.get_pod namespace name w).0 < left w)
  pub removing : (namespace name : Text) (w : W) → left (api.remove_pod namespace name w).0 ≤ left w
  pub creating : (pod : Pod) (w : W) → left (api.create_pod pod w).0 ≤ left w
  pub claiming : (namespace name : Text) (w : W) → left (api.get_claim namespace name w).0 ≤ left w
  pub new_claims : (claim : Claim) (w : W) → left (api.create_claim claim w).0 ≤ left w
  pub reading : (namespace name : Text) (w : W) → left (api.get_secret namespace name w).0 ≤ left w
  pub storing : (secret : Secret) (w : W) → left (api.create_secret secret w).0 ≤ left w
  pub keys : (w : W) → left (api.random_key w).0 ≤ left w
  pub drawing : (w : W) → left (api.random_text w).0 ≤ left w
  pub pausing : (interval : ℕ) (w : W) → left (api.pause interval w).0 ≤ left w

-- The call does not run out of fuel.
abbrev pub Ends : {S A : Type 0} → S × Outcome A → Type 0
Ends r = r.1 ≢ out_of_fuel

module _ {W : Type 0} (api : Api W) (lib : Stdlib) (cfg : Config) (left : W → ℕ)
    (timed : IsTimed api left) where
  -- The call ends from every state with no more time left than `t`.
  abbrev EndsWithin : ℕ → M (Manager W) (Unit {0}) → Type 0
  EndsWithin t again = (m : Manager W) → left m.world ≤ t → Ends (again m)

  pause_then-Ends :
      (interval : ℕ) (again : M (Manager W) (Unit {0})) (m : Manager W)
      → EndsWithin (left m.world) again
      → Ends (pause_then api lib cfg interval again m)
  unfolding pause_then
  pause_then-Ends interval again m h = elim (Bool-cases (api.pause interval m.world).1) [
    | inl e ↦ rw e (λ q. cc)
    | inr e ↦
        rw e
          (h (record m { world = (api.pause interval m.world).0 }) (timed.pausing interval m.world))
  ]

  after_gone-Ends :
      (again : M (Manager W) (Unit {0})) (r : Reply Pod) (m : Manager W)
      → EndsWithin (left m.world) again
      → Ends (after_gone api lib cfg again r m)
  unfolding after_gone
  after_gone-Ends again (done pod) m h = pause_then-Ends retry_interval again m h
  after_gone-Ends again (refused not_found) m h = λ q. cc
  after_gone-Ends again (refused already_exists) m h = λ q. cc
  after_gone-Ends again (refused other) m h = λ q. cc

  wait_gone-Ends :
      (fuel : ℕ) (name : Text) (m : Manager W)
      → left m.world < fuel
      → Ends (wait_gone api lib cfg fuel name m)
  unfolding wait_gone after_gone
  wait_gone-Ends zero name m h = absurd (omega arith)
  wait_gone-Ends (suc fuel) name m h = elim (timed.answered cfg.namespace name m.world) [
    | inl e ↦ rw e (λ q. cc)
    | inr less ↦
        after_gone-Ends (wait_gone api lib cfg fuel name) _
          (record m { world = (api.get_pod cfg.namespace name m.world).0 })
          (λ m' le. wait_gone-Ends fuel name m' (omega arith))
  ]

  after_remove-Ends :
      (fuel : ℕ) (name : Text) (r : Reply (Unit {0})) (m : Manager W)
      → left m.world < fuel
      → Ends (after_remove api lib cfg fuel name r m)
  unfolding after_remove
  after_remove-Ends fuel name (done u) m h = wait_gone-Ends fuel name m h
  after_remove-Ends fuel name (refused not_found) m h = λ q. cc
  after_remove-Ends fuel name (refused already_exists) m h = λ q. cc
  after_remove-Ends fuel name (refused other) m h = λ q. cc

  -- `DeletePod` comes to an end, where the API is timed and with fuel above the time that the
  -- context has left.
  pub delete_pod-Ends :
      (fuel : ℕ) (id : Identity) (mode : StorageMode) (m : Manager W)
      → left m.world < fuel
      → (delete_pod api lib cfg fuel id mode m).1 ≢ out_of_fuel
  unfolding delete_pod forget_endpoint
  delete_pod-Ends fuel id mode m h =
      let name = pod_name_for lib id mode in
      let answer = api.remove_pod cfg.namespace name m.world in
      after_remove-Ends fuel name answer.1 _
        (omega (arith, timed.removing cfg.namespace name m.world))

  after_check-Ends :
      (again : M (Manager W) (Unit {0})) (pod : Pod) (m : Manager W)
      → EndsWithin (left m.world) again
      → Ends (after_check api lib cfg again (check_pod pod) m)
  unfolding after_check check_pod
  after_check-Ends again pod m h = by_result (check_pod pod) checked
    where
      checked : check_pod pod ≢ out_of_fuel
      checked q = ground arith

      by_result : (o : Outcome Bool) → o ≢ out_of_fuel → Ends (after_check api lib cfg again o m)
      by_result (ok true) k = λ q. cc
      by_result (ok false) k = pause_then-Ends (poll_interval cfg) again m h
      by_result (err e) k = λ q. cc
      by_result out_of_fuel k = absurd (k refl)

  after_poll-Ends :
      (again : M (Manager W) (Unit {0})) (r : Reply Pod) (m : Manager W)
      → EndsWithin (left m.world) again
      → Ends (after_poll api lib cfg again r m)
  unfolding after_poll
  after_poll-Ends again (done pod) m h = after_check-Ends again pod m h
  after_poll-Ends again (refused e) m h = λ q. cc

  -- The wait for a ready pod comes to an end, where the API is timed and with fuel above the time
  -- that the context has left.
  pub wait_for_pod_ready-Ends :
      (fuel : ℕ) (name : Text) (m : Manager W)
      → left m.world < fuel
      → (wait_for_pod_ready api lib cfg fuel name m).1 ≢ out_of_fuel
  unfolding wait_for_pod_ready after_poll
  wait_for_pod_ready-Ends zero name m h = absurd (omega arith)
  wait_for_pod_ready-Ends (suc fuel) name m h = elim (timed.answered cfg.namespace name m.world) [
    | inl e ↦ rw e (λ q. cc)
    | inr less ↦
        after_poll-Ends (wait_for_pod_ready api lib cfg fuel name) _
          (record m { world = (api.get_pod cfg.namespace name m.world).0 })
          (λ m' le. wait_for_pod_ready-Ends fuel name m' (omega arith))
  ]

  after_create_pod-Ends :
      (again : M (Manager W) (Unit {0})) (r : Reply (Unit {0})) (m : Manager W)
      → EndsWithin (left m.world) again
      → Ends (after_create_pod api lib cfg again r m)
  unfolding after_create_pod
  after_create_pod-Ends again (done u) m h = λ q. cc
  after_create_pod-Ends again (refused not_found) m h = λ q. cc
  after_create_pod-Ends again (refused already_exists) m h = h m (le_refl (left m.world))
  after_create_pod-Ends again (refused other) m h = λ q. cc

  create-Ends :
      (again : M (Manager W) (Unit {0})) (pod : Pod) (m : Manager W)
      → EndsWithin (left m.world) again
      → Ends ((lift (api.create_pod pod) >>= after_create_pod api lib cfg again) m)
  create-Ends again pod m h =
      after_create_pod-Ends again _ (record m { world = (api.create_pod pod m.world).0 })
        (λ m' le. h m' (omega (arith, timed.creating pod m.world)))

  -- What `make_pod` yields, and how little time it takes.
  pub make_pod_ok :
      (id : Identity) (mode : StorageMode) (m : Manager W)
      → (w : W) × (pod : Pod) × (make_pod api lib cfg id mode m ≡ (record m { world = w }, ok pod))
        × (left w ≤ left m.world)
  unfolding make_pod
  make_pod_ok id mode m = elim (Bool-cases (direct_ssh_enabled cfg)) [
    | inl e ↦
        let drawn = api.random_text m.world in
        (drawn.0, build_pod lib id mode cfg drawn.1, rw (e, make_pod), timed.drawing m.world)
    | inr e ↦ (m.world, build_pod lib id mode cfg [], rw (e, make_pod), le_refl (left m.world))
  ]

  after_get_pod-Ends :
      (id : Identity) (mode : StorageMode) (again : M (Manager W) (Unit {0})) (r : Reply Pod)
      (m : Manager W)
      → EndsWithin (left m.world) again
      → Ends (after_get_pod api lib cfg id mode again r m)
  unfolding after_get_pod
  after_get_pod-Ends id mode again (done pod) m h = elim (Bool-cases pod.deleting) [
    | inl e ↦ rw e (pause_then-Ends retry_interval again m h)
    | inr e ↦ elim (Bool-cases (backend_mismatch api lib cfg pod)) [
      | inl b ↦ rw (b, e) (λ q. cc)
      | inr b ↦ rw (b, e) (λ q. cc)
    ]
  ]
  after_get_pod-Ends id mode again (refused not_found) m h =
      let (w, pod, e, le) = make_pod_ok id mode m in
      subst
        (λ (x : Manager W × Outcome Pod). Ends (
          (◌>>=◌ {A = Pod} (λ s. x)
              (λ p. lift (api.create_pod p) >>= after_create_pod api lib cfg again))
            m))
        (sym e) (create-Ends again pod (record m { world = w }) (λ m' k. h m' (omega arith)))
  after_get_pod-Ends id mode again (refused already_exists) m h = λ q. cc
  after_get_pod-Ends id mode again (refused other) m h = λ q. cc

  -- The call that gets or creates the pod comes to an end, where the API is timed and with fuel
  -- above the time that the context has left.
  pub ensure_pod-Ends :
      (fuel : ℕ) (id : Identity) (mode : StorageMode) (m : Manager W)
      → left m.world < fuel
      → (ensure_pod api lib cfg fuel id mode m).1 ≢ out_of_fuel
  unfolding ensure_pod after_get_pod
  ensure_pod-Ends zero id mode m h = absurd (omega arith)
  ensure_pod-Ends (suc fuel) id mode m h =
      let name = pod_name_for lib id mode in
      elim (timed.answered cfg.namespace name m.world) [
        | inl e ↦ rw e (λ q. cc)
        | inr less ↦
            after_get_pod-Ends id mode (ensure_pod api lib cfg fuel id mode) _
              (record m { world = (api.get_pod cfg.namespace name m.world).0 })
              (λ m' le. ensure_pod-Ends fuel id mode m' (omega arith))
      ]
