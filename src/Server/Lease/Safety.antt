-- ===== src/Server/Lease/Safety.antt =====
-- What the leases guarantee in every state that the callers can reach.
use voidshell.Prelude.{
  ℕ, ◌≤◌, ◌<◌, ◌≡◌, refl, true, false, none, some, Text, arith, sym, ap, ◌⊎◌, Option-cases, inl,
  inr,
}
use voidshell.Server.Lease.{
  Shared, Outcome, Pod, absent, created, left_over, Pc, idle, cleaning, leaving, leased, releasing,
  deleting, Reach, start, later, init,
}
use voidshell.Server.Lease.Family.{le-total, total_pos, total-eq-zero}
use voidshell.Server.Lease.Invariant.{
  address, in_gate, is_active, refers, holds, counted, keeper, Inv,
}
use voidshell.Server.Lease.Facts.{same_lease, alone}
use voidshell.Server.Lease.Moves.{step-Inv}

pub init-Inv : (n : ℕ) (key : ℕ → Text) → Inv n key init (λ i. idle)
init-Inv n key = record {
  users_total = λ a. sym (total-eq-zero (refers a) n (λ i. idle) (λ i. refl));
  gate_total = λ a. omega (arith, total-eq-zero (holds a) n (λ i. idle) (λ i. refl));
  active_total = λ a. sym (total-eq-zero (counted a) n (λ i. idle) (λ i. refl));
  mapped = λ i a lt q. cc;
  used = λ k a q. cc;
  unused = λ a q. refl;
  own = λ k k' a q r. cc;
  knows = λ i lt. tt;
  live = λ k a q r. cc;
  made = λ k q. cc;
  kept = λ k q. cc;
}

pod_cases : (pod : Pod) → ((pod ≡ absent) ⊎ (pod ≡ left_over)) ⊎ (pod ≡ created)
pod_cases absent = inl (inl refl)
pod_cases left_over = inl (inr refl)
pod_cases created = inr refl

module _ {n : ℕ} {key : ℕ → Text} where
  pub Reach-Inv : {m : Shared} {pc : ℕ → Pc} → Reach n key m pc → Inv n key m pc
  Reach-Inv start = init-Inv n key
  Reach-Inv (later c i r lt e) = step-Inv (Reach-Inv r) i lt c e

  module _ {m : Shared} {pc : ℕ → Pc} (r : Reach n key m pc) where
    -- In every reachable state at most one caller for a key is between taking the token of its
    -- gate and putting it back; so the calls of `EnsureWorkspace` and `DeletePod` for one
    -- workspace never overlap.
    pub serialized :
        (i j : ℕ)
        → i < n
        → j < n
        → key i ≡ key j
        → in_gate (pc i) ≡ true
        → in_gate (pc j) ≡ true
        → i ≡ j
    serialized i j li lj k gi gj = alone (Reach-Inv r) i j li lj gi gj k

    -- In every reachable state the pod of a caller that holds a lease has been set up by an
    -- `EnsureWorkspace` that succeeded, with no call of `DeletePod` for it since.
    pub leased_ready : (i a : ℕ) → i < n → pc i ≡ leased a → m.ready (key i) ≡ true
    leased_ready i a lt h =
        let inv = Reach-Inv r in
        inv.live (key i) a (inv.mapped i a lt (ap address h))
          (ground (arith, inv.active_total a, le-total (counted a) n pc i lt))

    -- In every reachable state, while a caller calls `DeletePod`, no caller for the same key is
    -- counted as active.
    pub delete_unused :
        (i j a : ℕ)
        → i < n
        → j < n
        → (pc i ≡ deleting a) ⊎ (pc i ≡ cleaning a)
        → key i ≡ key j
        → is_active (pc j) ≡ false
    delete_unused i j a li lj h k = elim (Option-cases (address (pc j))) [
      | inl e ↦ ground arith
      | inr (b, e) ↦
          let inv = Reach-Inv r in
          let same = same_lease inv i j a b li lj k (ground arith) e in
          ground (arith, inv.knows i li, inv.active_total a, le-total (counted a) n pc j lj)
    ]

    -- In every reachable state two callers for one key that have registered and not dropped their
    -- lease point to the same lease; the map has it under their key, with a positive number of
    -- users.
    lease_shared :
        (i j a b : ℕ)
        → i < n
        → j < n
        → key i ≡ key j
        → address (pc i) ≡ some a
        → address (pc j) ≡ some b
        → (a ≡ b) × (m.workspaces (key i) ≡ some a) × (0 < (m.leases a).users)
    lease_shared i j a b li lj k ha hb =
        let inv = Reach-Inv r in
        let here = inv.mapped i a li ha in
        (same_lease inv i j a b li lj k ha hb, here, (inv.used (key i) a here).1)

    -- In every reachable state in which no caller is between its registration and its drop, the
    -- map of leases is empty, and for every pod that `EnsureWorkspace` was called for, even if that
    -- failed, `DeletePod` has been called since: no pod is left, except one whose last `DeletePod`
    -- has failed.
    pub all_released :
        ((i : ℕ) → i < n → address (pc i) ≡ none)
        → (k : Text) → (m.workspaces k ≡ none) × ((m.pods k ≡ absent) ⊎ (m.pods k ≡ left_over))
    all_released h k = (
      elim (Option-cases (m.workspaces k)) [
        | inl e ↦ e
        | inr (a, e) ↦
            let users = (inv.used k a e).1 in
            let (i, lt, pos) =
              total_pos (refers a) n pc (omega (arith, users, inv.users_total a)) in
            absurd (ground (arith, h i lt))
      ],
      elim (pod_cases (m.pods k)) [
        | inl e ↦ e
        | inr e ↦
            let (i, lt, pos) = total_pos (keeper key k) n pc (inv.kept k e) in
            absurd (ground (arith, h i lt))
      ],
    )
      where
        inv : Inv n key m pc
        inv = Reach-Inv r

    -- In every reachable state, on every path: a gate never has more than one token, a caller
    -- about to send the token finds the gate empty, and the counters are positive where they are
    -- about to be decremented.
    pub counters_bounds :
        (i a : ℕ)
        → i < n
        → address (pc i) ≡ some a
        → ((m.leases a).gate ≤ 1)
          × ((o : Outcome) → pc i ≡ leaving o a → (m.leases a).gate ≡ 0)
          × (pc i ≡ releasing a → 0 < (m.leases a).active)
          × (0 < (m.leases a).users)
    counters_bounds i a lt h =
        let inv = Reach-Inv r in
        (
          omega (arith, inv.gate_total a),
          λ o e. ground (arith, inv.gate_total a, le-total (holds a) n pc i lt),
          λ e. ground (arith, inv.active_total a, le-total (counted a) n pc i lt),
          (inv.used (key i) a (inv.mapped i a lt h)).1,
        )
