-- ===== src/Server/Lease/Refines.antt =====
-- What the leases promise, without gates and counters: a service that sets up, lends, takes back
-- and deletes pods.
use voidshell.Prelude.{
  update, ℕ, ◌<◌, ◌≡◌, refl, Bool, true, false, some, Text, arith, ap, sym, put, if◌then◌else◌,
  ◌==◌, Option-cases, inl, inr, ◌∙◌, subst,
}
use voidshell.Server.Lease.{
  Shared, Choice, Pc, idle, waiting, entered, ensuring, cleaning, counting, leaving, leased,
  releasing, deleting, dropping, finished, granted, failed, released, step, Reach, register, join,
  allocate, set_lease, set_pod, cleanup, take_gate, put_gate, set_active, drop,
}
use voidshell.Server.Lease.Family.{le-total}
use voidshell.Server.Lease.Invariant.{address, counted, Inv, Knows}
use voidshell.Server.Lease.Facts.{same_lease}
use voidshell.Server.Lease.Safety.{Reach-Inv}

-- Which pods are set up, and which callers have a lease that they have not released.
pub record Service : Type 0 where
  pub is_up : Text → Bool
  pub lent : ℕ → Bool

module _ (n : ℕ) (key : ℕ → Text) where
  -- No caller has a lease for the key.
  abbrev pub Free : Service → Text → Type 0
  Free s k = (j : ℕ) → j < n → key j ≡ k → s.lent j ≡ false

  abbrev pub SamePods : Service → Service → Type 0
  SamePods s s' = (k : Text) → s'.is_up k ≡ s.is_up k

  abbrev pub SameLeases : Service → Service → Type 0
  SameLeases s s' = (j : ℕ) → s'.lent j ≡ s.lent j

  -- The steps of the service. A pod is set up or deleted while nobody has it, and lent while it is
  -- up.
  pub data Serves (s s' : Service) : Type 0 where
    rests : SamePods s s' → SameLeases s s' → Serves s s'
    turns :
        (k : Text) (up : Bool)
        → Free s k
        → ((k' : Text) → s'.is_up k' ≡ put k up s.is_up k')
        → SameLeases s s'
        → Serves s s'
    lends :
        (i : ℕ)
        → s.lent i ≡ false
        → s.is_up (key i) ≡ true
        → SamePods s s'
        → ((j : ℕ) → s'.lent j ≡ (if i == j then true else s.lent j))
        → Serves s s'
    takes_back :
        (i : ℕ)
        → s.lent i ≡ true
        → SamePods s s'
        → ((j : ℕ) → s'.lent j ≡ (if i == j then false else s.lent j))
        → Serves s s'

abbrev pub is_leased : Pc → Bool
is_leased (leased _) = true
is_leased _ = false

abbrev pub view : Shared → (ℕ → Pc) → Service
view m pc = record { is_up = m.ready; lent = λ j. is_leased (pc j) }

updated_lease :
    (pc : ℕ → Pc) (i : ℕ) (p : Pc) (j : ℕ)
    → is_leased (update pc i p j) ≡ (if i == j then is_leased p else is_leased (pc j))
unfolding update
updated_lease pc i p j = ground arith

same_leases :
    (pc : ℕ → Pc) (i : ℕ) (p : Pc)
    → is_leased p ≡ is_leased (pc i)
    → (j : ℕ) → is_leased (update pc i p j) ≡ is_leased (pc j)
unfolding update
same_leases pc i p h j = ground arith

module _ {n : ℕ} {key : ℕ → Text} {m : Shared} {pc : ℕ → Pc} (inv : Inv n key m pc) where
  unlent :
      (i a : ℕ)
      → i < n
      → address (pc i) ≡ some a
      → (m.leases a).active ≡ 0
      → Free n key (view m pc) (key i)
  unlent i a li here zero_active j lj k = elim (Option-cases (address (pc j))) [
    | inl e ↦ ground arith
    | inr (b, e) ↦
        let same = same_lease inv i j a b li lj (sym k) here e in
        ground (arith, inv.active_total a, le-total (counted a) n pc j lj)
  ]

  held : (i a : ℕ) → i < n → pc i ≡ leaving granted a → m.ready (key i) ≡ true
  held i a lt at =
      inv.live (key i) a (inv.mapped i a lt (ap address at))
        (ground (arith, inv.active_total a, le-total (counted a) n pc i lt))

  moves :
      (i : ℕ) (lt : i < n) (c : Choice) (m' : Shared) (p p0 : Pc)
      → pc i ≡ p0
      → step c m (key i) p0 ≡ some (m', p)
      → Serves n key (view m pc) (view m' (update pc i p))
  unfolding step register join allocate set_lease set_pod cleanup take_gate put_gate set_active drop
  moves i lt c m' p idle at h = elim (Option-cases (m.workspaces (key i))) [
    | inl e ↦ rests (λ k. ground arith) (same_leases pc i p (ground arith))
    | inr (a, e) ↦ rests (λ k. ground arith) (same_leases pc i p (ground arith))
  ]
  moves i lt c m' p (waiting a) at h = rests (λ k. ground arith) (same_leases pc i p (ground arith))
  moves i lt c m' p (entered a) at h = rests (λ k. ground arith) (same_leases pc i p (ground arith))
  moves i lt c m' p (ensuring a) at h =
      turns (key i) c.ensured
        (unlent i a lt (ap address at) (subst (Knows m (key i)) at (inv.knows i lt)))
        (λ k. ground arith) (same_leases pc i p (ground arith))
  moves i lt c m' p (cleaning a) at h =
      turns (key i) false
        (unlent i a lt (ap address at) (subst (Knows m (key i)) at (inv.knows i lt)))
        (λ k. ground arith) (same_leases pc i p (ground arith))
  moves i lt c m' p (counting a) at h =
      rests (λ k. ground arith) (same_leases pc i p (ground arith))
  moves i lt c m' p (leaving granted a) at h =
      lends i (ground arith) (held i a lt at) (λ k. ground arith)
        (λ j. updated_lease pc i p j ∙ ground arith)
  moves i lt c m' p (leaving failed a) at h =
      rests (λ k. ground arith) (same_leases pc i p (ground arith))
  moves i lt c m' p (leaving released a) at h =
      rests (λ k. ground arith) (same_leases pc i p (ground arith))
  moves i lt c m' p (leased a) at h =
      takes_back i (ground arith) (λ k. ground arith) (λ j. updated_lease pc i p j ∙ ground arith)
  moves i lt c m' p (releasing a) at h =
      rests (λ k. ground arith) (same_leases pc i p (ground arith))
  moves i lt c m' p (deleting a) at h =
      turns (key i) false
        (unlent i a lt (ap address at) (subst (Knows m (key i)) at (inv.knows i lt)))
        (λ k. ground arith) (same_leases pc i p (ground arith))
  moves i lt c m' p (dropping o a) at h =
      rests (λ k. ground arith) (same_leases pc i p (ground arith))
  moves i lt c m' p (finished o) at h = cc

-- The leases implement the service: every step that a caller takes from a reachable state is, seen
-- from outside, one step of the service or none. So a pod is set up or deleted only while no caller
-- has a lease for it, and a lease is given out only for a pod that is up.
pub step-Serves :
    {n : ℕ} {key : ℕ → Text} {m m' : Shared} {pc : ℕ → Pc} (c : Choice) (i : ℕ) (p : Pc)
    → Reach n key m pc
    → i < n
    → step c m (key i) (pc i) ≡ some (m', p)
    → Serves n key (view m pc) (view m' (update pc i p))
step-Serves {pc} c i p r lt h = moves (Reach-Inv r) i lt c _ p (pc i) refl h
