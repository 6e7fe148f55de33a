-- ===== src/Server/Lease/Invariant.antt =====
-- What holds of the leases and of the callers between any two steps.
use voidshell.Prelude.{
  ℕ, ◌+◌, ◌≤◌, ◌<◌, ◌≡◌, ◌==◌, Bool, true, false, ◌&&◌, if◌then◌else◌, Option, none, some, Text,
  text_eq,
}
use voidshell.Server.Lease.{
  Shared, created, granted, Pc, idle, waiting, entered, ensuring, cleaning, counting, leaving,
  leased, releasing, deleting, dropping, finished, fresh_lease,
}
use voidshell.Server.Lease.Family.{total}

-- The lease that a caller points to, from its registration until `drop()`.
abbrev pub address : Pc → Option ℕ
address idle = none
address (waiting a) = some a
address (entered a) = some a
address (ensuring a) = some a
address (cleaning a) = some a
address (counting a) = some a
address (leaving _ a) = some a
address (leased a) = some a
address (releasing a) = some a
address (deleting a) = some a
address (dropping _ a) = some a
address (finished _) = none

-- The caller has taken the token and not put it back.
abbrev pub in_gate : Pc → Bool
in_gate (entered _) = true
in_gate (ensuring _) = true
in_gate (cleaning _) = true
in_gate (counting _) = true
in_gate (leaving _ _) = true
in_gate (releasing _) = true
in_gate (deleting _) = true
in_gate _ = false

-- The caller is counted in `active`.
abbrev pub is_active : Pc → Bool
is_active (leaving granted _) = true
is_active (leased _) = true
is_active (releasing _) = true
is_active _ = false

-- The caller has found or made the pod, and has not called `DeletePod` for it since.
abbrev pub keeps_pod : Pc → Bool
keeps_pod (counting _) = true
keeps_pod (cleaning _) = true
keeps_pod (leaving granted _) = true
keeps_pod (leased _) = true
keeps_pod (releasing _) = true
keeps_pod (deleting _) = true
keeps_pod _ = false

abbrev pub points : ℕ → Option ℕ → ℕ
points a none = 0
points a (some b) = if a == b then 1 else 0

abbrev pub refers : ℕ → ℕ → Pc → ℕ
refers a i p = points a (address p)

abbrev pub holds : ℕ → ℕ → Pc → ℕ
holds a i p = if in_gate p then points a (address p) else 0

abbrev pub counted : ℕ → ℕ → Pc → ℕ
counted a i p = if is_active p then points a (address p) else 0

abbrev pub keeper : (ℕ → Text) → Text → ℕ → Pc → ℕ
keeper key k i p = if text_eq (key i) k && keeps_pod p then 1 else 0

-- What a caller for key `k` knows at its place.
abbrev pub Knows : Shared → Text → Pc → Type 0
Knows m k (ensuring a) = (m.leases a).active ≡ 0
Knows m k (cleaning a) = (m.leases a).active ≡ 0
Knows m k (deleting a) = (m.leases a).active ≡ 0
Knows m k (counting a) = m.ready k ≡ true
Knows m k _ = Unit

pub record Inv (n : ℕ) (key : ℕ → Text) (m : Shared) (pc : ℕ → Pc) : Type 0 where
  pub users_total : (a : ℕ) → (m.leases a).users ≡ total (refers a) n pc
  pub gate_total : (a : ℕ) → (m.leases a).gate + total (holds a) n pc ≡ 1
  pub active_total : (a : ℕ) → (m.leases a).active ≡ total (counted a) n pc
  pub mapped : (i a : ℕ) → i < n → address (pc i) ≡ some a → m.workspaces (key i) ≡ some a
  pub used : (k : Text) (a : ℕ) → m.workspaces k ≡ some a → (a < m.next) × (0 < (m.leases a).users)
  pub unused : (a : ℕ) → m.next ≤ a → m.leases a ≡ fresh_lease
  pub own : (k k' : Text) (a : ℕ) → m.workspaces k ≡ some a → m.workspaces k' ≡ some a → k ≡ k'
  pub knows : (i : ℕ) → i < n → Knows m (key i) (pc i)
  pub live :
      (k : Text) (a : ℕ) → m.workspaces k ≡ some a → 0 < (m.leases a).active → m.ready k ≡ true
  pub made : (k : Text) → m.ready k ≡ true → m.pods k ≡ created
  pub kept : (k : Text) → m.pods k ≡ created → 0 < total (keeper key k) n pc
