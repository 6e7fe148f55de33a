-- ===== src/Server/Lease/Moves.antt =====
-- A step of caller `i` keeps each field of `Inv`.
use voidshell.Server.Lease.Facts.{one_in_gate, alone, counted-le-keeper}
use voidshell.Prelude.{update, ℕ, ◌+◌, ◌≤◌, ◌<◌, ◌≡◌, refl, true, some, Text, arith, text_eq_iff}
use voidshell.Server.Lease.{
  Shared, Pc, idle, entered, ensuring, cleaning, counting, releasing, deleting, dropping, Choice,
  step, fresh_lease, created,
}
use voidshell.Server.Lease.Family.{total, total-update, add-le-total}
use voidshell.Server.Lease.Invariant.{address, refers, holds, counted, keeper, Knows, Inv}

module _ {n : ℕ} {key : ℕ → Text} {m : Shared} {pc : ℕ → Pc} (inv : Inv n key m pc) (i : ℕ)
    (lt : i < n) (c : Choice) where
  open inv use {
    users_total, gate_total, active_total, mapped, used, unused, own, knows, live, made, kept,
  }

  step-users_total :
      (p p' : Pc) (m' : Shared)
      → pc i ≡ p
      → step c m (key i) p ≡ some (m', p')
      → (a : ℕ) → (m'.leases a).users ≡ total (refers a) n (update pc i p')
  unfolding step
  step-users_total idle p' m' h e a =
      ground (arith, users_total a, total-update (refers a) n pc i p', unused a)
  step-users_total _ p' m' h e a = ground (arith, users_total a, total-update (refers a) n pc i p')

  step-gate_total :
      (p p' : Pc) (m' : Shared)
      → pc i ≡ p
      → step c m (key i) p ≡ some (m', p')
      → (a : ℕ) → (m'.leases a).gate + total (holds a) n (update pc i p') ≡ 1
  unfolding step
  step-gate_total idle p' m' h e a =
      ground (arith, gate_total a, total-update (holds a) n pc i p', unused a)
  step-gate_total _ p' m' h e a = ground (arith, gate_total a, total-update (holds a) n pc i p')

  step-active_total :
      (p p' : Pc) (m' : Shared)
      → pc i ≡ p
      → step c m (key i) p ≡ some (m', p')
      → (a : ℕ) → (m'.leases a).active ≡ total (counted a) n (update pc i p')
  unfolding step
  step-active_total idle p' m' h e a =
      ground (arith, active_total a, total-update (counted a) n pc i p', unused a)
  step-active_total _ p' m' h e a =
      ground (arith, active_total a, total-update (counted a) n pc i p')

  step-mapped :
      (p p' : Pc) (m' : Shared)
      → pc i ≡ p
      → step c m (key i) p ≡ some (m', p')
      → (j a : ℕ) → j < n
      → address (update pc i p' j) ≡ some a
      → m'.workspaces (key j) ≡ some a
  unfolding step update
  step-mapped idle p' m' h e j a jn q = ground (arith, mapped j a, text_eq_iff (key i) (key j))
  step-mapped (dropping o b) p' m' h e j a jn q = ground (
    arith,
    mapped j a,
    mapped i b,
    text_eq_iff (key i) (key j),
    users_total b,
    add-le-total (refers b) n pc i j,
  )
  step-mapped _ p' m' h e j a jn q = ground (arith, mapped j a, mapped i a)

  step-used :
      (p p' : Pc) (m' : Shared)
      → pc i ≡ p
      → step c m (key i) p ≡ some (m', p')
      → (k : Text) (a : ℕ) → m'.workspaces k ≡ some a
      → (a < m'.next) × (0 < (m'.leases a).users)
  unfolding step
  step-used idle p' m' h e k a q = ground (arith, used k a, text_eq_iff (key i) k)
  step-used _ p' m' h e k a q =
      ground (arith, used k a, own (key i) k a, mapped i a, text_eq_iff (key i) k)

  step-unused :
      (p p' : Pc) (m' : Shared)
      → pc i ≡ p
      → step c m (key i) p ≡ some (m', p')
      → (a : ℕ) → m'.next ≤ a
      → m'.leases a ≡ fresh_lease
  unfolding step
  step-unused idle p' m' h e a q = ground (arith, used (key i) a, unused a)
  step-unused _ p' m' h e a q = ground (arith, used (key i) a, mapped i a, unused a)

  step-own :
      (p p' : Pc) (m' : Shared)
      → pc i ≡ p
      → step c m (key i) p ≡ some (m', p')
      → (k k' : Text) (a : ℕ) → m'.workspaces k ≡ some a
      → m'.workspaces k' ≡ some a
      → k ≡ k'
  unfolding step
  step-own idle p' m' h e k k' a q r =
      ground (arith, own k k' a, used k a, used k' a, text_eq_iff (key i) k, text_eq_iff (key i) k')
  step-own _ p' m' h e k k' a q r =
      ground (arith, own k k' a, text_eq_iff (key i) k, text_eq_iff (key i) k')

  step-Knows :
      (p p' : Pc) (m' : Shared)
      → pc i ≡ p
      → step c m (key i) p ≡ some (m', p')
      → (j : ℕ) → j < n
      → Knows m' (key j) (update pc i p' j)
  unfolding step update
  step-Knows idle p' m' h e j jn = ground (arith, knows j)
  step-Knows (entered a) p' m' h e j jn = ground (arith, knows j, mapped i a, live (key i) a)
  step-Knows (counting a) p' m' h e j jn = ground (arith, knows j, one_in_gate inv i j a)
  step-Knows (releasing a) p' m' h e j jn = ground (arith, knows j, one_in_gate inv i j a)
  step-Knows _ p' m' h e j jn = ground (arith, knows j, alone inv i j, text_eq_iff (key i) (key j))

  step-live :
      (p p' : Pc) (m' : Shared)
      → pc i ≡ p
      → step c m (key i) p ≡ some (m', p')
      → (k : Text) (a : ℕ) → m'.workspaces k ≡ some a
      → 0 < (m'.leases a).active
      → m'.ready k ≡ true
  unfolding step
  step-live idle p' m' h e k a q r = ground (arith, live k a, text_eq_iff (key i) k)
  step-live (ensuring b) p' m' h e k a q r =
      ground (arith, live k a, mapped i b, knows i, text_eq_iff (key i) k)
  step-live (cleaning b) p' m' h e k a q r =
      ground (arith, live k a, mapped i b, knows i, text_eq_iff (key i) k)
  step-live (deleting b) p' m' h e k a q r =
      ground (arith, live k a, mapped i b, knows i, text_eq_iff (key i) k)
  step-live (counting b) p' m' h e k a q r =
      ground (arith, live k a, mapped i b, knows i, own (key i) k b)
  step-live _ p' m' h e k a q r = ground (arith, live k a, text_eq_iff (key i) k)

  step-made :
      (p p' : Pc) (m' : Shared)
      → pc i ≡ p
      → step c m (key i) p ≡ some (m', p')
      → (k : Text) → m'.ready k ≡ true
      → m'.pods k ≡ created
  unfolding step
  step-made _ p' m' h e k q = ground (arith, made k, text_eq_iff (key i) k)

  step-kept :
      (p p' : Pc) (m' : Shared)
      → pc i ≡ p
      → step c m (key i) p ≡ some (m', p')
      → (k : Text) → m'.pods k ≡ created
      → 0 < total (keeper key k) n (update pc i p')
  unfolding step
  step-kept idle p' m' h e k q = ground (arith, kept k, total-update (keeper key k) n pc i p')
  step-kept (releasing a) p' m' h e k q = ground (
    arith,
    kept k,
    total-update (keeper key k) n pc i p',
    text_eq_iff (key i) k,
    mapped i a,
    active_total a,
    counted-le-keeper inv (key i) a,
  )
  step-kept _ p' m' h e k q =
      ground (arith, kept k, total-update (keeper key k) n pc i p', text_eq_iff (key i) k)

  pub step-Inv :
      {p' : Pc} {m' : Shared}
      → step c m (key i) (pc i) ≡ some (m', p')
      → Inv n key m' (update pc i p')
  step-Inv {p'} {m'} e = record {
    users_total = step-users_total _ p' m' refl e;
    gate_total = step-gate_total _ p' m' refl e;
    active_total = step-active_total _ p' m' refl e;
    mapped = step-mapped _ p' m' refl e;
    used = step-used _ p' m' refl e;
    unused = step-unused _ p' m' refl e;
    own = step-own _ p' m' refl e;
    knows = step-Knows _ p' m' refl e;
    live = step-live _ p' m' refl e;
    made = step-made _ p' m' refl e;
    kept = step-kept _ p' m' refl e;
  }
