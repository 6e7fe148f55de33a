-- ===== src/Server/Lease/Progress.antt =====
-- Callers never block one another for good, and each takes a bounded number of steps.
use voidshell.Server.Lease.Facts.{address_of_gate}
use voidshell.Prelude.{
  update, ℕ, zero, suc, ◌≤◌, ◌<◌, ◌≡◌, refl, true, false, none, some, Text, arith, Option-cases,
  inl, inr, Bool-cases, ◌*◌,
}
use voidshell.Server.Lease.{
  Shared, granted, Pc, idle, waiting, entered, ensuring, cleaning, counting, leaving, leased,
  releasing, deleting, dropping, finished, Choice, step, Reach,
}
use voidshell.Server.Lease.Family.{total, le-total, total_pos, total-update}
use voidshell.Server.Lease.Invariant.{address, in_gate, holds}
use voidshell.Server.Lease.Safety.{Reach-Inv}

-- A bound on the steps that a caller has left.
abbrev pub steps_left : Pc → ℕ
steps_left idle = 11
steps_left (waiting _) = 10
steps_left (entered _) = 9
steps_left (ensuring _) = 8
steps_left (counting _) = 7
steps_left (leaving granted _) = 6
steps_left (leased _) = 5
steps_left (releasing _) = 4
steps_left (deleting _) = 3
steps_left (cleaning _) = 3
steps_left (leaving _ _) = 2
steps_left (dropping _ _) = 1
steps_left (finished _) = 0

steps_left-step :
    (c : Choice) (m m' : Shared) (k : Text) (p p' : Pc)
    → step c m k p ≡ some (m', p')
    → steps_left p' < steps_left p
unfolding step
steps_left-step c m m' k idle p' e = elim (Option-cases (m.workspaces k)) [
  | inl n ↦ ground arith
  | inr s ↦ ground arith
]
steps_left-step c m m' k _ p' e = ground arith

abbrev pub all_left : ℕ → (ℕ → Pc) → ℕ
all_left n pc = total (λ i p. steps_left p) n pc

steps_left-le : (p : Pc) → steps_left p ≤ 11
steps_left-le (leaving granted a) = omega arith
steps_left-le p = ground arith

all_left-le : (n : ℕ) (pc : ℕ → Pc) → all_left n pc ≤ 11 * n
unfolding total
all_left-le zero pc = omega arith
all_left-le (suc n) pc = omega (arith, all_left-le n pc, steps_left-le (pc n))

-- Every step lowers the sum over the callers of the steps that they have left.
step-all_left :
    (n i : ℕ) (key : ℕ → Text) (c : Choice) (m m' : Shared) (pc : ℕ → Pc) (p' : Pc)
    → i < n
    → step c m (key i) (pc i) ≡ some (m', p')
    → (all_left n (update pc i p') < all_left n pc) × (all_left n pc ≤ 11 * n)
step-all_left n i key c m m' pc p' lt e = (
  omega (
    arith,
    total-update (λ i p. steps_left p) n pc i p' lt,
    steps_left-step c m m' (key i) (pc i) p' e,
  ),
  all_left-le n pc,
)

module _ {n : ℕ} {key : ℕ → Text} {m : Shared} {pc : ℕ → Pc} (r : Reach n key m pc)
    (c : Choice) where
  abbrev Steps : ℕ → Type 0
  Steps j = (s : Shared × Pc) × (step c m (key j) (pc j) ≡ some s)

  gate_step : (j a : ℕ) → j < n → address (pc j) ≡ some a → in_gate (pc j) ≡ true → Steps j
  unfolding step
  gate_step j a lt h g = elim (Option-cases (step c m (key j) (pc j))) [
    | inl blocked ↦
        absurd (ground (arith, (Reach-Inv r).gate_total a, le-total (holds a) n pc j lt))
    | inr (s, e) ↦ (s, e)
  ]

  -- A caller that cannot go on waits for the token of its gate.
  blocked_at :
      (i : ℕ)
      → 0 < steps_left (pc i)
      → step c m (key i) (pc i) ≡ none
      → in_gate (pc i) ≡ false
      → (a : ℕ) × (address (pc i) ≡ some a) × ((m.leases a).gate ≡ 0)
  unfolding step
  blocked_at i h e g = elim (Option-cases (address (pc i))) [
    | inl missing ↦ absurd (ground arith)
    | inr (a, found) ↦ (a, found, ground arith)
  ]

  holder :
      (i a : ℕ)
      → i < n
      → address (pc i) ≡ some a
      → (m.leases a).gate ≡ 0
      → (j : ℕ) × (j < n) × (key j ≡ key i) × Steps j
  holder i a lt h z =
      let inv = Reach-Inv r in
      let (j, lj, pos) = total_pos (holds a) n pc (omega (arith, inv.gate_total a)) in
      let at : address (pc j) ≡ some a = ground arith in
      let same = inv.own (key j) (key i) a (inv.mapped j a lj at) (inv.mapped i a lt h) in
      (j, lj, same, gate_step j a lj at (ground arith))

  -- Some caller for the same key can take a step.
  no_deadlock :
      (i : ℕ)
      → i < n
      → 0 < steps_left (pc i)
      → (j : ℕ) × (j < n)
        × (key j ≡ key i)
        × ((s : Shared × Pc) × (step c m (key j) (pc j) ≡ some s))
  no_deadlock i lt h = elim (Option-cases (step c m (key i) (pc i))) [
    | inr (s, e) ↦ (i, lt, refl, (s, e))
    | inl e ↦ elim (Bool-cases (in_gate (pc i))) [
      | inl g ↦ let (a, at) = address_of_gate (pc i) g in (i, lt, refl, gate_step i a lt at g)
      | inr g ↦ let (a, at, z) = blocked_at i h e g in holder i a lt at z
    ]
  ]

-- Whatever the context and the cluster decide: where a caller of a reachable state has not
-- finished, some caller for the same key can take a step at once; and every step of a caller lowers
-- the sum over the callers of the steps that they have left, which is at most 11 for each of `n`
-- callers.
pub callers_finish :
    {n : ℕ} {key : ℕ → Text} {m : Shared} {pc : ℕ → Pc}
    → Reach n key m pc
    → (c : Choice)
    → ((i : ℕ)
        → i < n
        → 0 < steps_left (pc i)
        → (j : ℕ) × (j < n)
          × (key j ≡ key i)
          × ((s : Shared × Pc) × (step c m (key j) (pc j) ≡ some s)))
      × ((i : ℕ) (m' : Shared) (p' : Pc)
          → i < n
          → step c m (key i) (pc i) ≡ some (m', p')
          → all_left n (update pc i p') < all_left n pc)
      × (all_left n pc ≤ 11 * n)
callers_finish {n} {key} {m} {pc} r c =
    (no_deadlock r c, λ i m' p' lt e. (step-all_left n i key c m m' pc p' lt e).0, all_left-le n pc)
