-- ===== src/Workspace/Labels.antt =====
-- What Kubernetes accepts as a name, and that clean text is such a name.
use voidshell.Prelude.{
  ℕ, ◌≡◌, ◌≢◌, refl, Bool, true, false, ◌||◌, [], ◌∷◌, ◌++◌, arith, ◌==◌, Text, All, length, ◌≤◌,
  is_lower, is_digit,
}
use voidshell.Workspace.Clean.{clean}

-- Lower-case letters, digits and single inner hyphens; not empty, and no longer than the limit.
pub record IsLabel (limit : ℕ) (s : Text) : Type 0 where
  pub chars : All (λ c. (is_lower c || is_digit c || c == b'-') ≡ true) s
  pub bounded : length s ≤ limit
  pub nonempty : s ≢ []
  pub first : (q : Text) → s ≢ b'-' ∷ q
  pub last : (p : Text) → s ≢ p ++ b'-' ∷ []
  pub single : (p q : Text) → s ≢ p ++ b'-' ∷ b'-' ∷ q

clean-chars :
    (b : Bool) (s : Text)
    → clean b s ≡ true
    → All (λ c. (is_lower c || is_digit c || c == b'-') ≡ true) s
unfolding clean
clean-chars b [] h = tt
clean-chars b (c ∷ s) h = ground (arith, clean-chars true s, clean-chars false s)

clean-last : (b : Bool) (p : Text) → clean b (p ++ b'-' ∷ []) ≡ false
unfolding clean
clean-last true [] = refl
clean-last false [] = refl
clean-last b (c ∷ p) = ground (arith, clean-last true p, clean-last false p)

clean-single : (b : Bool) (p q : Text) → clean b (p ++ b'-' ∷ b'-' ∷ q) ≡ false
unfolding clean
clean-single true [] q = refl
clean-single false [] q = refl
clean-single b (c ∷ p) q = ground (arith, clean-single true p q, clean-single false p q)

-- A text of which a test says yes is not one of which it says no.
pub ne_of_test : (f : Text → Bool) {s t : Text} → f s ≡ true → f t ≡ false → s ≢ t
ne_of_test f hs ht e = cc

clean-first : (q : Text) → clean true (b'-' ∷ q) ≡ false
unfolding clean
clean-first q = refl

clean-nil : clean true [] ≡ false
unfolding clean
clean-nil = refl

pub clean-IsLabel :
    (limit : ℕ) (s : Text) → clean true s ≡ true → length s ≤ limit → IsLabel limit s
clean-IsLabel limit s h le = record {
  chars = clean-chars true s h;
  bounded = le;
  nonempty = ne_of_test (clean true) h clean-nil;
  first = λ q. ne_of_test (clean true) h (clean-first q);
  last = λ p. ne_of_test (clean true) h (clean-last true p);
  single = λ p q. ne_of_test (clean true) h (clean-single true p q);
}
