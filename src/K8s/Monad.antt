-- ===== src/K8s/Monad.antt =====
-- Calls that change the state, may fail, and may run out of the model's fuel.
use voidshell.K8s.Pods.{Phase}

-- What a request to the API server answers, if it does not succeed.
pub data ApiError : Type 0 where
  not_found already_exists other : ApiError

pub data Reply {ℓ} (A : Type ℓ) : Type ℓ where
  done : A → Reply A
  refused : ApiError → Reply A

-- The errors of internal/k8s, without their texts.
pub data Error : Type 0 where
  api_error : ApiError → Error
  context_done backend_differs no_credentials not_owned key_generation : Error
  no_pod_ip no_secret bad_client_key bad_host_key not_prepared dialing handshaking opening_channel :
      Error
  terminal_phase : Phase → Error
  ensuring_pvc ensuring_pod ensuring_credentials waiting_ready preparing_ssh : Error → Error

pub data Outcome {ℓ} (A : Type ℓ) : Type ℓ where
  ok : A → Outcome A
  err : Error → Outcome A
  out_of_fuel : Outcome A

abbrev pub M : Type 0 → Type 0 → Type 0
M S A = S → S × Outcome A

infixl 5 ◌>>=◌ ◌>>◌
abbrev pub ◌>>=◌ : {S A B : Type 0} → M S A → (A → M S B) → M S B
◌>>=◌ m f s =
    let (s', r) = m s in
    elim r [ ok a ↦ f a s' | err e ↦ (s', err e) | out_of_fuel ↦ (s', out_of_fuel) ]

abbrev pub ◌>>◌ : {S B : Type 0} → M S (Unit {0}) → M S B → M S B
m >> k = m >>= λ _. k

abbrev pub ret : {S A : Type 0} → A → M S A
ret a s = (s, ok a)

abbrev pub fail : {S A : Type 0} → Error → M S A
fail e s = (s, err e)

-- `fmt.Errorf("...: %w", err)`
abbrev pub wrap : {S A : Type 0} → (Error → Error) → M S A → M S A
wrap f m s =
    let (s', r) = m s in
    elim r [ ok a ↦ (s', ok a) | err e ↦ (s', err (f e)) | out_of_fuel ↦ (s', out_of_fuel) ]
