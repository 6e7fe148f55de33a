-- ===== src/K8s/Ends.antt =====
-- Calls that do not run out of fuel, put together.
use voidshell.Prelude.{◌≢◌, refl, Bool, true, false, Option, none, some}
use voidshell.K8s.Monad.{
  Reply, done, refused, Error, Outcome, ok, err, out_of_fuel, M, ◌>>=◌, wrap, ret,
}
use voidshell.K8s.Ssh.{require, require_some, require_that}

-- From every state with the property, the call does not run out of fuel, and keeps the property.
abbrev pub Ends : {S A : Type 0} → (S → Type 0) → M S A → Type 0
Ends {S} P m = (s : S) → P s → ((m s).1 ≢ out_of_fuel) × P (m s).0

module _ {S : Type 0} (P : S → Type 0) where
  pub bind-Ends :
      {A B : Type 0} (m : M S A) (f : A → M S B)
      → Ends P m
      → ((a : A) → Ends P (f a))
      → Ends P (m >>= f)
  bind-Ends {A} {B} m f h k s p = by_result (m s).0 (m s).1 (h s p).0 (h s p).1
    where
      by_result :
          (s' : S) (r : Outcome A)
          → r ≢ out_of_fuel
          → P s'
          → (let next = elim r as (λ x. S × Outcome B) [
            | ok a ↦ f a s'
            | err e ↦ (s', err e)
            | out_of_fuel ↦ (s', out_of_fuel)
          ] in
              (next.1 ≢ out_of_fuel) × P next.0)
      by_result s' (ok a) q p' = k a s' p'
      by_result s' (err x) q p' = (λ z. cc, p')
      by_result s' out_of_fuel q p' = absurd (q refl)

  pub wrap-Ends : {A : Type 0} (g : Error → Error) (m : M S A) → Ends P m → Ends P (wrap g m)
  wrap-Ends {A} g m h s p = by_result (m s).0 (m s).1 (h s p).0 (h s p).1
    where
      by_result :
          (s' : S) (r : Outcome A)
          → r ≢ out_of_fuel
          → P s'
          → (let next = elim r as (λ x. S × Outcome A) [
            | ok a ↦ (s', ok a)
            | err e ↦ (s', err (g e))
            | out_of_fuel ↦ (s', out_of_fuel)
          ] in
              (next.1 ≢ out_of_fuel) × P next.0)
      by_result s' (ok a) q p' = (λ z. cc, p')
      by_result s' (err x) q p' = (λ z. cc, p')
      by_result s' out_of_fuel q p' = absurd (q refl)

  pub require-Ends : {A : Type 0} (r : Reply A) → Ends P (require r)
  require-Ends (done a) s p = (λ q. cc, p)
  require-Ends (refused e) s p = (λ q. cc, p)

  pub require_some-Ends : {A : Type 0} (e : Error) (o : Option A) → Ends P (require_some e o)
  require_some-Ends e none s p = (λ q. cc, p)
  require_some-Ends e (some a) s p = (λ q. cc, p)

  pub require_that-Ends : (e : Error) (b : Bool) → Ends P (require_that e b)
  require_that-Ends e true s p = (λ q. cc, p)
  require_that-Ends e false s p = (λ q. cc, p)

  pub ret-Ends : {A : Type 0} (a : A) → Ends P (ret a)
  ret-Ends a s p = (λ q. cc, p)
