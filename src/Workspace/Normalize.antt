-- ===== src/Workspace/Normalize.antt =====
-- `normalizeSegment` yields names that Kubernetes accepts, and leaves such names alone.
use mathlib.Core.List.{map}
use voidshell.Prelude.{
  ℕ, ◌≡◌, refl, ◌⊎◌, inl, inr, Bool, true, false, [], ◌∷◌, arith, Text, length, ◌≤◌, take,
  length-take-le,
}
use voidshell.Workspace.Stdlib.{Stdlib, KeepsLower}
use voidshell.Workspace.Identity.{truncate, or_x, normalize_segment}
use voidshell.Workspace.Clean.{
  collapsed_weaken, clean, replace_unsafe-collapsed, trim_left-collapsed, take-collapsed,
  trim_right-clean, clean→collapsed, length-trim_right-le, trim_right_id, trim_left_id,
  replace_unsafe_id,
}
use voidshell.Workspace.Labels.{IsLabel, clean-IsLabel}

-- Empty, or clean and within the limit.
abbrev Trimmed : ℕ → Text → Type 0
Trimmed n s = (s ≡ []) ⊎ ((clean true s ≡ true) × (length s ≤ n))

truncate-Trimmed : (s : Text) (n : ℕ) → (s ≡ []) ⊎ (clean true s ≡ true) → Trimmed n (truncate s n)
unfolding truncate
truncate-Trimmed s n (inl e) = inl (ground arith)
truncate-Trimmed s n (inr h) = ground (
  arith,
  trim_right-clean true (take n s),
  take-collapsed n true s,
  clean→collapsed true s,
  length-trim_right-le (take n s),
  length-take-le n s,
)

or_x-clean :
    (n : ℕ) (s : Text) → 1 ≤ n → Trimmed n s → (clean true (or_x s) ≡ true) × (length (or_x s) ≤ n)
unfolding clean
or_x-clean n [] h t = (refl, h)
or_x-clean n (c ∷ s) h t = ground arith

module _ (lib : Stdlib) where
  pub normalize_segment-clean :
      (s : Text) (n : ℕ)
      → 1 ≤ n
      → (clean true (normalize_segment lib s n) ≡ true) × (length (normalize_segment lib s n) ≤ n)
  unfolding normalize_segment
  normalize_segment-clean s n h = or_x-clean n _ h (
      truncate-Trimmed _ n (
        trim_right-clean true _
          (trim_left-collapsed _ (replace_unsafe-collapsed false (map lib.lower s)))))

  -- Whatever the input, the segment is a label of at most `n` characters, for a limit of at least
  -- one.
  pub normalize_segment-IsLabel : (s : Text) (n : ℕ) → 1 ≤ n → IsLabel n (normalize_segment lib s n)
  normalize_segment-IsLabel s n h =
      let (c, le) = normalize_segment-clean s n h in clean-IsLabel n _ c le

truncate_id : (s : Text) (n : ℕ) → length s ≤ n → truncate s n ≡ s
unfolding truncate
truncate_id s n h = ground arith

or_x_id : (s : Text) → clean true s ≡ true → or_x s ≡ s
unfolding clean
or_x_id [] h = cc
or_x_id (c ∷ s) h = refl

module _ (lib : Stdlib) (keeps : KeepsLower lib) where
  map_lower_id : (b : Bool) (s : Text) → clean b s ≡ true → map lib.lower s ≡ s
  unfolding clean
  map_lower_id b [] h = refl
  map_lower_id b (c ∷ s) h =
      ground (arith, keeps.lower_id c, map_lower_id true s, map_lower_id false s)

  normalize_segment_id :
      (s : Text) (n : ℕ) → clean true s ≡ true → length s ≤ n → normalize_segment lib s n ≡ s
  unfolding normalize_segment
  normalize_segment_id s n h le =
      rw
        (
          map_lower_id true s h,
          replace_unsafe_id false s (collapsed_weaken s (clean→collapsed true s h)),
          trim_left_id s h,
          trim_right_id true s h,
          truncate_id s n le,
        )
        (or_x_id s h)

  -- Normalising a normalised segment changes nothing, for a limit of at least one.
  pub normalize_segment-normalize_segment :
      (s : Text) (n : ℕ)
      → 1 ≤ n
      → normalize_segment lib (normalize_segment lib s n) n ≡ normalize_segment lib s n
  normalize_segment-normalize_segment s n h =
      let (c, le) = normalize_segment-clean lib s n h in normalize_segment_id _ n c le
