-- ===== src/Auth/Authenticator.antt =====
-- internal/auth/authenticator.go: the allowed GitHub user that an offered key belongs to.
use voidshell.Prelude.{Bool, true, false, List, [], ◌∷◌, ◌++◌, if◌then◌else◌, Text, text_eq}
use voidshell.Auth.Github.{PublicKey, Net, FetchError, Result, KeyCache, cached_keys}

-- `Authenticator`, without its log.
pub record Authenticator : Type 0 where
  pub allowed_users : List Text
  pub cache : KeyCache

pub data AuthError : Type 0 where
  fetching_keys : Text → FetchError → AuthError
  unknown_key ambiguous_key : AuthError

pub data Verdict : Type 0 where
  accepted : Text → Verdict
  rejected : AuthError → Verdict

-- The loop over the keys of one user: whether one equals the offered key, byte by byte.
unfoldable pub has_key : PublicKey → List PublicKey → Bool
has_key offered [] = false
has_key offered (k ∷ keys) = if text_eq k offered then true else has_key offered keys

-- The `switch` on the number of matched users.
unfoldable pub verdict : List Text → Verdict
verdict [] = rejected unknown_key
verdict (user ∷ []) = accepted user
verdict (user ∷ other ∷ rest) = rejected ambiguous_key

module _ (net : Net) (offered : PublicKey) where
  -- The loop over the allowed users; a fetch that fails ends it.
  unfoldable pub match_users : KeyCache → List Text → List Text → KeyCache × Verdict
  unfolding verdict
  match_users c [] matched = (c, verdict matched)
  match_users c (user ∷ users) matched =
      let (c', r) = cached_keys net c user in
      elim r [
        | Result.err e ↦ (c', rejected (fetching_keys user e))
        | Result.ok keys ↦
            match_users c' users (if has_key offered keys then matched ++ user ∷ [] else matched)
      ]

  unfoldable pub authenticate : Authenticator → Authenticator × Verdict
  unfolding match_users
  authenticate a =
      let (c, v) = match_users a.cache a.allowed_users [] in (record a { cache = c }, v)
