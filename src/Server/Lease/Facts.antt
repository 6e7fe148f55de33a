-- ===== src/Server/Lease/Facts.antt =====
-- What the invariant says of two callers for one key.
use voidshell.Prelude.{
  ℕ, ◌≤◌, ◌<◌, ◌≡◌, true, some, Text, arith, text_eq_iff, Option-cases, inl, inr, ap, ◌∙◌, sym,
}
use voidshell.Server.Lease.{Shared, Pc}
use native.Mathlib.Decide.{ℕ_discrete}
use voidshell.Server.Lease.Family.{total, add-le-total, total_mono}
use voidshell.Server.Lease.Invariant.{address, in_gate, holds, counted, keeper, Inv}

pub address_of_gate : (p : Pc) → in_gate p ≡ true → (a : ℕ) × (address p ≡ some a)
address_of_gate p h = elim (Option-cases (address p)) [
  | inl missing ↦ absurd (ground arith)
  | inr found ↦ found
]

module _ {n : ℕ} {key : ℕ → Text} {m : Shared} {pc : ℕ → Pc} (inv : Inv n key m pc) where
  open inv use {gate_total, active_total, mapped, own, live}

  pub same_lease :
      (i j a b : ℕ)
      → i < n
      → j < n
      → key i ≡ key j
      → address (pc i) ≡ some a
      → address (pc j) ≡ some b
      → a ≡ b
  same_lease i j a b li lj k ha hb =
      ground (arith, mapped i a li ha, mapped j b lj hb, ap m.workspaces k)

  pub one_in_gate :
      (i j a : ℕ)
      → i < n
      → j < n
      → in_gate (pc i) ≡ true
      → in_gate (pc j) ≡ true
      → address (pc i) ≡ some a
      → address (pc j) ≡ some a
      → i ≡ j
  one_in_gate i j a li lj gi gj ha hb = elim (ℕ_discrete i j) [
    | yes e ↦ e
    | no d ↦ absurd (ground (arith, gate_total a, add-le-total (holds a) n pc i j li lj d))
  ]

  pub alone :
      (i j : ℕ)
      → i < n
      → j < n
      → in_gate (pc i) ≡ true
      → in_gate (pc j) ≡ true
      → key i ≡ key j
      → i ≡ j
  alone i j li lj gi gj k =
      let (a, ha) = address_of_gate (pc i) gi in
      let (b, hb) = address_of_gate (pc j) gj in
      let e = same_lease i j a b li lj k ha hb in
      one_in_gate i j a li lj gi gj ha (hb ∙ ap some (sym e))

  -- The callers counted at the lease of `k` keep its pod.
  pub counted-le-keeper :
      (k : Text) (a : ℕ)
      → m.workspaces k ≡ some a
      → total (counted a) n pc ≤ total (keeper key k) n pc
  counted-le-keeper k a h =
      total_mono (counted a) (keeper key k) n pc
        (λ i lt. ground (arith, mapped i a lt, own (key i) k a, text_eq_iff (key i) k))
