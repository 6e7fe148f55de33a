-- ===== src/K8s/Decimal.antt =====
-- internal/k8s/portfwd.go: `strconv.Itoa` of a port.
use voidshell.Prelude.{
  ℕ, zero, suc, ◌+◌, ◌-◌, ◌*◌, ◌/◌, ◌%◌, ◌^◌, ◌<◌, ◌≡◌, refl, Text, [], ◌∷◌, ◌++◌, if◌then◌else◌,
  ltb, arith, ◌∙◌, codes, Bool-cases, inl, inr,
}

-- The last digits of a number, as many as there are at most.
unfoldable pub digits : ℕ → ℕ → Text
digits zero n = []
digits (suc k) n =
    let before = digits k (n / 10) in (if ltb n 10 then [] else before) ++ (48 + n % 10) ∷ []

-- Five digits are enough.
unfoldable pub itoa : ℕ → Text
unfolding digits
itoa n = digits 5 n

-- The number that digits name.
unfoldable pub number : ℕ → Text → ℕ
number n [] = n
number n (c ∷ s) = number (n * 10 + (c - 48)) s

number-append : (n : ℕ) (a b : Text) → number n (a ++ b) ≡ number (number n a) b
unfolding number
number-append n [] b = refl
number-append n (c ∷ a) b = number-append (n * 10 + (c - 48)) a b

number-digits : (k n : ℕ) → n < 10 ^ k → number 0 (digits k n) ≡ n
unfolding number digits
number-digits zero n h = omega arith
number-digits (suc k) n h = elim (Bool-cases (ltb n 10)) [
  | inl e ↦ rw e (ground arith)
  | inr e ↦
      let before = number-digits k (n / 10) (omega arith) in
      rw e (number-append 0 (digits k (n / 10)) ((48 + n % 10) ∷ []) ∙ rw before (omega arith))
]

-- A 16-bit number is read back.
pub number-itoa : (n : ℕ) → n < 2 ^ 16 → number 0 (itoa n) ≡ n
unfolding itoa
number-itoa n h = number-digits 5 n (omega arith)

itoa_test : itoa 8080 ≡ codes "8080"
unfolding itoa
itoa_test = refl
