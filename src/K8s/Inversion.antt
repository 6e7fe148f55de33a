-- ===== src/K8s/Inversion.antt =====
-- What a chain of calls that succeeds says of its parts.
use voidshell.Prelude.{◌≡◌, refl, Option, none, some, Bool, true, false, ◌∙◌, arith}
use voidshell.K8s.Monad.{Error, Reply, done, refused, Outcome, ok, err, out_of_fuel, M, ◌>>=◌, wrap}
use voidshell.K8s.Ssh.{require, require_some, require_that}

pub bind_ok :
    {S A B : Type 0} (m : M S A) (f : A → M S B) (s s'' : S) (b : B)
    → (m >>= f) s ≡ (s'', ok b)
    → (a : A) × (s' : S) × (m s ≡ (s', ok a)) × (f a s' ≡ (s'', ok b))
bind_ok {S} {A} {B} m f s s'' b h = by_result (m s).0 (m s).1 refl h
  where
    next : S → Outcome A → S × Outcome B
    next s' r = elim r [ ok a ↦ f a s' | err e ↦ (s', err e) | out_of_fuel ↦ (s', out_of_fuel) ]

    by_result :
        (s' : S) (r : Outcome A)
        → m s ≡ (s', r)
        → next s' r ≡ (s'', ok b)
        → (a : A) × (s' : S) × (m s ≡ (s', ok a)) × (f a s' ≡ (s'', ok b))
    by_result s' (ok a) e q = (a, s', e, q)
    by_result s' (err x) e q = cc
    by_result s' out_of_fuel e q = cc

pub wrap_ok :
    {S A : Type 0} (g : Error → Error) (m : M S A) (s s' : S) (a : A)
    → wrap g m s ≡ (s', ok a)
    → m s ≡ (s', ok a)
wrap_ok {S} {A} g m s s' a h = by_result (m s).0 (m s).1 refl h
  where
    next : S → Outcome A → S × Outcome A
    next t r = elim r [ ok b ↦ (t, ok b) | err e ↦ (t, err (g e)) | out_of_fuel ↦ (t, out_of_fuel) ]

    by_result : (t : S) (r : Outcome A) → m s ≡ (t, r) → next t r ≡ (s', ok a) → m s ≡ (s', ok a)
    by_result t (ok b) e q = e ∙ q
    by_result t (err x) e q = cc
    by_result t out_of_fuel e q = cc

pub require_ok :
    {S A : Type 0} (r : Reply A) (s s' : S) (a : A)
    → require r s ≡ (s', ok a)
    → (r ≡ done a) × (s ≡ s')
require_ok (done b) s s' a h = ground arith
require_ok (refused e) s s' a h = cc

pub require_some_ok :
    {S A : Type 0} (x : Error) (o : Option A) (s s' : S) (a : A)
    → require_some x o s ≡ (s', ok a)
    → (o ≡ some a) × (s ≡ s')
require_some_ok x none s s' a h = cc
require_some_ok x (some b) s s' a h = ground arith

pub require_that_ok :
    {S : Type 0} (x : Error) (b : Bool) (s s' : S)
    → require_that x b s ≡ (s', ok tt)
    → (b ≡ true) × (s ≡ s')
require_that_ok x true s s' h = ground arith
require_that_ok x false s s' h = cc
