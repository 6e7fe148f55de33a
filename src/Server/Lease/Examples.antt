-- ===== src/Server/Lease/Examples.antt =====
-- Runs of two callers for one workspace, and the guarantees at the states that they reach.
use voidshell.Server.Lease.Safety.{leased_ready, all_released, serialized, delete_unused}
use voidshell.Server.Lease.Refines.{view, Serves, step-Serves}
use voidshell.Server.Lease.Progress.{steps_left, all_left, callers_finish}
use voidshell.Server.Lease.Invariant.{is_active, address}
use voidshell.Prelude.{
  update, ℕ, zero, suc, ◌≤◌, ◌<◌, ◌≡◌, refl, true, false, Option, none, some, Text, text_eq, arith,
  inl, ◌⊎◌, List, [], ◌∷◌, codes, ◌*◌,
}
use native.Mathlib.Decide.{dec_lt}
use voidshell.Server.Lease.{
  Shared, absent, left_over, failed, released, Pc, idle, waiting, leased, releasing, deleting,
  finished, Choice, step, Reach, start, later, init,
}

record Run (n : ℕ) (key : ℕ → Text) : Type 0 where
  last : Shared
  pcs : ℕ → Pc
  reach : Reach n key last pcs

-- The caller's step where it has one, and the same state where it waits.
turn_to :
    {n : ℕ} {key : ℕ → Text} (r : Run n key) (c : Choice) (i : ℕ)
    → i < n
    → (o : Option (Shared × Pc)) → step c r.last (key i) (r.pcs i) ≡ o
    → Run n key
turn_to r c i lt none e = r
turn_to r c i lt (some (m, p)) e = record {
  last = m;
  pcs = update r.pcs i p;
  reach = later c i r.reach lt e;
}

turn : {n : ℕ} {key : ℕ → Text} → Run n key → Choice → ℕ → Run n key
unfolding turn_to dec_lt
turn {n} {key} r c i = elim (dec_lt i n) [
  | yes lt ↦ turn_to r c i lt (step c r.last (key i) (r.pcs i)) refl
  | no _ ↦ r
]

run : {n : ℕ} {key : ℕ → Text} → Run n key → List (Choice × ℕ) → Run n key
unfolding turn
run r [] = r
run r ((c, i) ∷ rest) = run (turn r c i) rest

abbrev fine : Choice
fine = record { cancelled = false; ensured = true; deleted = true }

abbrev broken : Choice
broken = record { cancelled = false; ensured = false; deleted = true }

abbrev gone : Choice
gone = record { cancelled = true; ensured = true; deleted = true }

abbrev shared_key : ℕ → Text
shared_key i = codes "shell-a"

abbrev begin : Run 2 shared_key
begin = record { last = init; pcs = λ i. idle; reach = start }

-- Caller 0 sets the pod up and holds a lease; caller 1 waits to enter.
abbrev one_leased : Run 2 shared_key
one_leased =
    run begin
      ((fine, 0) ∷ (fine, 1) ∷ (fine, 0) ∷ (fine, 0) ∷ (fine, 0) ∷ (fine, 0) ∷ (fine, 0) ∷ [])

-- Caller 0 is the only one, and deletes the pod.
abbrev last_leaves : Run 2 shared_key
last_leaves = run one_leased ((gone, 1) ∷ (gone, 1) ∷ (fine, 0) ∷ (fine, 0) ∷ [])

abbrev all_gone : Run 2 shared_key
all_gone = run last_leaves ((fine, 0) ∷ (fine, 0) ∷ (fine, 0) ∷ [])

one_leased_places : (one_leased.pcs 0 ≡ leased 0) × (one_leased.pcs 1 ≡ waiting 0)
unfolding run step update text_eq
one_leased_places = (refl, refl)

last_leaves_places : (last_leaves.pcs 0 ≡ deleting 0) × (last_leaves.pcs 1 ≡ finished failed)
unfolding run step update text_eq
last_leaves_places = (refl, refl)

all_gone_places : (all_gone.pcs 0 ≡ finished released) × (all_gone.pcs 1 ≡ finished failed)
unfolding run step update text_eq
all_gone_places = (refl, refl)

serialized_example : ◌≡◌ {A = ℕ} 0 0
unfolding run step update text_eq
serialized_example = serialized last_leaves.reach 0 0 (omega arith) (omega arith) refl refl refl

leased_ready_example : one_leased.last.ready (codes "shell-a") ≡ true
unfolding run step update text_eq
leased_ready_example = leased_ready one_leased.reach 0 0 (omega arith) refl

delete_unused_example : is_active (last_leaves.pcs 1) ≡ false
unfolding run step update text_eq
delete_unused_example =
    delete_unused last_leaves.reach 0 1 0 (omega arith) (omega arith) (inl refl) refl

nobody_left : (i : ℕ) → i < 2 → address (all_gone.pcs i) ≡ none
unfolding run step update text_eq
nobody_left zero h = refl
nobody_left (suc zero) h = refl
nobody_left (suc (suc i)) h = absurd (omega arith)

all_released_example :
    (all_gone.last.workspaces (codes "shell-a") ≡ none)
    × ((all_gone.last.pods (codes "shell-a") ≡ absent)
        ⊎ (all_gone.last.pods (codes "shell-a") ≡ left_over))
all_released_example = all_released all_gone.reach nobody_left (codes "shell-a")

callers_finish_example :
    ((i : ℕ)
      → i < 2
      → 0 < steps_left (one_leased.pcs i)
      → (j : ℕ) × (j < 2)
        × (shared_key j ≡ shared_key i)
        × ((s : Shared × Pc) × (step fine one_leased.last (shared_key j) (one_leased.pcs j)
              ≡ some s)))
    × ((i : ℕ) (m : Shared) (p : Pc)
        → i < 2
        → step fine one_leased.last (shared_key i) (one_leased.pcs i) ≡ some (m, p)
        → all_left 2 (update one_leased.pcs i p) < all_left 2 one_leased.pcs)
    × (all_left 2 one_leased.pcs ≤ 11 * 2)
callers_finish_example = callers_finish one_leased.reach fine

step-Serves_example :
    Serves 2 shared_key
      (view one_leased.last one_leased.pcs)
      (view (turn one_leased fine 0).last (update one_leased.pcs 0 (releasing 0)))
unfolding run turn step update text_eq
step-Serves_example = step-Serves fine 0 (releasing 0) one_leased.reach (omega arith) refl
