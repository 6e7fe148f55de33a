-- ===== src/Auth/Callers.antt =====
-- internal/auth: any number of calls of `Authenticate` at once, one access of the shared cache at a
-- time. The mutex of the cache is held for one access only, so other calls come between the
-- look-up, the fetch and the store of a call.
pub mod Settled
pub mod Moved
pub mod Recent
pub mod Alone
pub mod Progress
mod Examples
use voidshell.Prelude.{
  ℕ, ◌+◌, Bool, true, false, Option, none, some, List, [], ◌∷◌, ◌++◌, if◌then◌else◌, Text, put,
  update, ◌≡◌,
}
use voidshell.Auth.Github.{
  PublicKey, Net, FetchError, Result, ok, err, CacheEntry, KeyCache, fetch_keys, fresh_keys,
}
use voidshell.Auth.Authenticator.{
  Authenticator, AuthError, fetching_keys, Verdict, accepted, rejected, has_key, verdict,
}

-- `newKeyCache`, at a time.
abbrev pub new_key_cache : ℕ → Text → ℕ → KeyCache
new_key_cache ttl base_url now = record {
  entries = λ user. none;
  ttl = ttl;
  base_url = base_url;
  clock = now;
}

-- `newWithBaseURL`
abbrev pub new_with_base_url : List Text → ℕ → Text → ℕ → Authenticator
new_with_base_url allowed_users ttl base_url now = record {
  allowed_users = allowed_users;
  cache = new_key_cache ttl base_url now;
}

-- A call: the offered key, the users that are left and those that matched. When it began is only
-- there for what is stated of it.
pub record Call : Type 0 where
  pub offered : PublicKey
  pub since : ℕ
  pub todo : List Text
  pub matched : List Text

-- Where a call stands: before it; at the head of the loop over the users; in `keys` for a user,
-- with the entry that it has looked up; fetching, from a time on; with the fetched keys, before
-- they are stored; and after it.
pub data Pc : Type 0 where
  idle : Pc
  asking : Call → Pc
  looked : Call → Text → Option CacheEntry → Pc
  fetching : Call → Text → (begun : ℕ) → Pc
  storing : Call → Text → List PublicKey → Pc
  decided : Call → Verdict → Pc

abbrev pub begin : PublicKey → List Text → ℕ → Call
begin offered users now = record { offered = offered; since = now; todo = users; matched = [] }

-- The loop over the keys of a user, in the call.
unfoldable pub answered : Call → Text → List PublicKey → Call
answered call user keys =
    if has_key call.offered keys then record call { matched = call.matched ++ user ∷ [] } else call

-- `c.entries[user] = cacheEntry{keys: keys, fetchedAt: time.Now()}`
unfoldable pub store : KeyCache → Text → List PublicKey → KeyCache
unfolding put
store c user keys = record c {
  entries = put user (some (record { keys = keys; fetched_at = c.clock })) c.entries;
}

-- The head of the loop: the next user is looked up under the mutex, or the call ends.
unfoldable pub ask : KeyCache → Call → List Text → Pc
unfolding verdict
ask c call [] = decided call (verdict call.matched)
ask c call (user ∷ rest) = looked (record call { todo = rest }) user (c.entries user)

module _ (net : Net) where
  -- After the look-up: a fresh entry serves, or a fetch begins.
  unfoldable pub serve : KeyCache → Call → Text → Option CacheEntry → Pc
  unfolding answered fresh_keys
  serve c call user entry = elim (fresh_keys net c entry) [
    | some keys ↦ asking (answered call user keys)
    | none ↦ fetching call user c.clock
  ]

  unfoldable pub end_fetch : Call → Text → Result (List PublicKey) → Pc
  end_fetch call user (err e) = decided call (rejected (fetching_keys user e))
  end_fetch call user (ok keys) = storing call user keys

  -- One step of a call, which offers a key to an authenticator for some users.
  unfoldable pub step : List Text → PublicKey → KeyCache → Pc → Option (KeyCache × Pc)
  unfolding ask serve end_fetch store answered fetch_keys
  step users offered c idle = some (c, asking (begin offered users c.clock))
  step users offered c (asking call) = some (c, ask c call call.todo)
  step users offered c (looked call user entry) = some (c, serve c call user entry)
  step users offered c (fetching call user begun) =
      some (c, end_fetch call user (fetch_keys net c.base_url user begun))
  step users offered c (storing call user keys) =
      some (store c user keys, asking (answered call user keys))
  step users offered c (decided call v) = none

  abbrev pub tick : KeyCache → KeyCache
  tick c = record c { clock = c.clock + 1 }

  -- The calls on a new authenticator, in any order, while time passes.
  pub data Reach (users : List Text) (ttl : ℕ) (base_url : Text)
      : KeyCache → (ℕ → Pc) → Type 0 where
    start :
        (now : ℕ)
        → Reach users ttl base_url (new_with_base_url users ttl base_url now).cache (λ i. idle)
    passes :
        {c : KeyCache} {pc : ℕ → Pc}
        → Reach users ttl base_url c pc
        → Reach users ttl base_url (tick c) pc
    later :
        {c c' : KeyCache} {pc : ℕ → Pc} {p : Pc} (i : ℕ) (offered : PublicKey)
        → Reach users ttl base_url c pc
        → step users offered c (pc i) ≡ some (c', p)
        → Reach users ttl base_url c' (update pc i p)
