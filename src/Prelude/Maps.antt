-- ===== src/Prelude/Maps.antt =====
-- Go maps keyed by strings, as functions; an absent key is `none`. And families of goroutines.
use Prim.Native.Nat.{ℕ}
use mathlib.Core.Path.{◌≡◌}
use mathlib.Core.Logic.{◌⊎◌, inl, inr}
use mathlib.Core.Option.{Option}
use voidshell.Prelude.Tests.{if◌then◌else◌, ◌==◌, Bool-cases}
use voidshell.Prelude.Strings.{Text, text_eq, text_eq→eq, text_eq_refl}

-- `m[k] = v`
unfoldable pub put {ℓ} : {A : Type ℓ} → Text → A → (Text → A) → Text → A
put k v w j = if text_eq k j then v else w j

pub put_self {ℓ} : {A : Type ℓ} (k : Text) (v : A) (w : Text → A) → put k v w k ≡ v
unfolding put
put_self k v w = rw (text_eq_refl k)

-- What a key maps to after an assignment.
pub put_inv {ℓ} :
    {A : Type ℓ} (k j : Text) (v x : Option A) (w : Text → Option A)
    → put k v w j ≡ x
    → ((k ≡ j) × (v ≡ x)) ⊎ (w j ≡ x)
unfolding put
put_inv k j v x w h = elim (Bool-cases (text_eq k j)) [
  | inl e ↦ inl (text_eq→eq k j e, rw e at h)
  | inr e ↦ inr (rw e at h)
]

-- A family indexed by numbers, changed at one of them.
unfoldable pub update {ℓ} : {A : Type ℓ} → (ℕ → A) → ℕ → A → ℕ → A
update f i a j = if i == j then a else f j

pub update_all {ℓ ℓ'} :
    {A : Type ℓ} (P : A → Type ℓ') (f : ℕ → A) (i : ℕ) (a : A)
    → P a
    → ((j : ℕ) → P (f j))
    → (j : ℕ) → P (update f i a j)
unfolding update
update_all P f i a h all j = elim (Bool-cases (i == j)) [ inl e ↦ rw e h | inr e ↦ rw e (all j) ]
