-- ===== src/Workspace/Clean.antt =====
-- Text without runs of hyphens, recognised from left to right.
use voidshell.Prelude.{
  ℕ, zero, suc, ◌≡◌, refl, ◌⊎◌, inl, Bool, true, false, not, ◌&&◌, [], ◌∷◌, ◌++◌, arith, ◌==◌,
  if◌then◌else◌, take, Text, length, ◌≤◌,
}
use voidshell.Workspace.Identity.{is_safe, replace_unsafe, trim_left, trim_right}

-- Safe characters and single hyphens; the flag says that a hyphen has just been read.
unfoldable pub collapsed : Bool → Text → Bool
collapsed after [] = true
collapsed after (c ∷ s) =
    let dash = not after && collapsed true s in
    let plain = is_safe c && collapsed false s in if c == b'-' then dash else plain

-- The same, and the text does not end in a hyphen; nor is it empty where the flag is set.
unfoldable pub clean : Bool → Text → Bool
clean after [] = not after
clean after (c ∷ s) =
    let dash = not after && clean true s in
    let plain = is_safe c && clean false s in if c == b'-' then dash else plain

pub replace_unsafe-collapsed : (b : Bool) (s : Text) → collapsed b (replace_unsafe b s) ≡ true
unfolding replace_unsafe collapsed
replace_unsafe-collapsed b [] = refl
replace_unsafe-collapsed b (c ∷ s) =
    ground (arith, replace_unsafe-collapsed true s, replace_unsafe-collapsed false s)

pub collapsed_weaken : (s : Text) → collapsed true s ≡ true → collapsed false s ≡ true
unfolding collapsed
collapsed_weaken [] h = refl
collapsed_weaken (c ∷ s) h = ground arith

pub trim_left-collapsed :
    (s : Text) → collapsed false s ≡ true → collapsed true (trim_left s) ≡ true
unfolding collapsed trim_left
trim_left-collapsed [] h = refl
trim_left-collapsed (c ∷ s) h = ground (arith, trim_left-collapsed s, collapsed_weaken s)

pub take-collapsed :
    (n : ℕ) (b : Bool) (s : Text) → collapsed b s ≡ true → collapsed b (take n s) ≡ true
unfolding collapsed
take-collapsed zero b s h = refl
take-collapsed (suc n) b [] h = refl
take-collapsed (suc n) b (c ∷ s) h =
    ground (arith, take-collapsed n true s, take-collapsed n false s)

-- What the trimming leaves is empty or clean.
pub trim_right-clean :
    (b : Bool) (s : Text)
    → collapsed b s ≡ true
    → (trim_right s ≡ []) ⊎ (clean b (trim_right s) ≡ true)
unfolding collapsed trim_right clean
trim_right-clean b [] h = inl refl
trim_right-clean b (c ∷ s) h = ground (arith, trim_right-clean true s, trim_right-clean false s)

pub clean→collapsed : (b : Bool) (s : Text) → clean b s ≡ true → collapsed b s ≡ true
unfolding collapsed clean
clean→collapsed b [] h = refl
clean→collapsed b (c ∷ s) h = ground (arith, clean→collapsed true s, clean→collapsed false s)

pub length-trim_right-le : (s : Text) → length (trim_right s) ≤ length s
unfolding trim_right
length-trim_right-le [] = omega arith
length-trim_right-le (c ∷ s) = ground (arith, length-trim_right-le s)

-- Clean text is left alone by each step of the normalisation.
pub trim_right_id : (b : Bool) (s : Text) → clean b s ≡ true → trim_right s ≡ s
unfolding clean trim_right
trim_right_id b [] h = refl
trim_right_id b (c ∷ s) h = ground (arith, trim_right_id true s, trim_right_id false s)

pub trim_left_id : (s : Text) → clean true s ≡ true → trim_left s ≡ s
unfolding clean trim_left
trim_left_id [] h = refl
trim_left_id (c ∷ s) h = ground arith

pub replace_unsafe_id : (b : Bool) (s : Text) → collapsed b s ≡ true → replace_unsafe b s ≡ s
unfolding collapsed replace_unsafe
replace_unsafe_id b [] h = refl
replace_unsafe_id b (c ∷ s) h = ground (arith, replace_unsafe_id true s, replace_unsafe_id false s)

-- Clean parts joined by a hyphen.
pub clean_join :
    (b : Bool) (p q : Text)
    → clean b p ≡ true
    → clean true q ≡ true
    → clean b (p ++ b'-' ∷ q) ≡ true
unfolding clean
clean_join b [] q hp hq = ground arith
clean_join b (c ∷ p) q hp hq = ground (arith, clean_join true p q, clean_join false p q)
