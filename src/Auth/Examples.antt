-- ===== src/Auth/Examples.antt =====
-- Two users on the allow-list, and the authenticator's properties at their keys.
use voidshell.Prelude.{
  ℕ, ◌+◌, ◌≡◌, refl, false, none, some, List, [], ◌∷◌, arith, codes, text_eq, if◌then◌else◌,
  trim_space, ◌↔◌, subst, put,
}
use voidshell.Auth.Github.{
  PublicKey, unreachable, response, Net, IsForward, Result, KeyCache, cached_keys, fetch_keys,
  fresh_keys, refetch,
}
use voidshell.Auth.Authenticator.{
  Authenticator, accepted, rejected, unknown_key, ambiguous_key, has_key, authenticate,
}
use voidshell.Auth.Answers.{Answer, Answers, done, next, IsOwner, authenticate-accepted_iff}
use voidshell.Auth.Freshness.{IsSound, IsRecent}
use voidshell.Auth.Duplicates.{duplicate_ambiguous}

-- A key is its line; `bob` cannot be reached, and a request takes two units of time.
abbrev pub net : Net
net = record {
  reply = λ url now.
      if text_eq url (codes "/alice.keys")
      then response 200 (codes "  key-a " ∷ [] ∷ codes "key-b" ∷ []) false
      else unreachable;
  over = λ url now. now + 2;
  parse_key = λ line. some line;
}

net-IsForward : IsForward net
net-IsForward = record { forward = λ url now. omega arith }

abbrev pub empty_cache : KeyCache
empty_cache = record { entries = λ k. none; ttl = 300; base_url = []; clock = 1000 }

empty-IsSound : IsSound net empty_cache
empty-IsSound = record { fetched = λ u e h. cc; past = λ u e h. cc }

abbrev pub only_alice : Authenticator
only_alice = record { allowed_users = codes "alice" ∷ []; cache = empty_cache }

abbrev with_bob : Authenticator
with_bob = record { allowed_users = codes "alice" ∷ codes "bob" ∷ []; cache = empty_cache }

abbrev alice_twice : Authenticator
alice_twice = record { allowed_users = codes "alice" ∷ codes "alice" ∷ []; cache = empty_cache }

pub accepts_alice : (authenticate net (codes "key-b") only_alice).1 ≡ accepted (codes "alice")
unfolding authenticate cached_keys fresh_keys refetch fetch_keys has_key text_eq trim_space
accepts_alice = refl

rejects_unknown : (authenticate net (codes "key-c") only_alice).1 ≡ rejected unknown_key
unfolding authenticate cached_keys fresh_keys refetch fetch_keys has_key text_eq trim_space
rejects_unknown = refl

alice_keys : List PublicKey
alice_keys = codes "key-a" ∷ codes "key-b" ∷ []

authenticate-accepted_iff_example :
    ((authenticate net (codes "key-b") only_alice).1 ≡ accepted (codes "alice")) ↔ (
      (answers : List Answer) × (c : KeyCache) × Answers net empty_cache
        (codes "alice" ∷ [])
        answers
        c
      × IsOwner (codes "key-b") (codes "alice") answers)
authenticate-accepted_iff_example =
    authenticate-accepted_iff net (codes "key-b") only_alice (codes "alice")

fetched_alice :
    (begun : ℕ) (keys : List PublicKey)
    → fetch_keys net [] (codes "alice") begun ≡ Result.ok keys
    → alice_keys ≡ keys
unfolding fetch_keys text_eq trim_space alice_keys
fetched_alice begun keys h = cc

key_c_missing :
    (keys : List PublicKey)
    → IsRecent net [] 300 1000 (codes "alice", keys)
    → has_key (codes "key-c") keys ≡ false
unfolding has_key text_eq alice_keys
key_c_missing keys r =
    subst (λ ks. has_key (codes "key-c") ks ≡ false)
      (fetched_alice r.fetched.begun keys r.fetched.brought) refl

bob_missing : (keys : List PublicKey) → ¬ IsRecent net [] 300 1000 (codes "bob", keys)
unfolding fetch_keys text_eq
bob_missing keys r = let h = r.fetched.brought in cc

-- The cache after the first fetch.
filled_cache : KeyCache
filled_cache = record {
  entries =
      put (codes "alice") (some (record { keys = alice_keys; fetched_at = 1002 })) (λ k. none);
  ttl = 300;
  base_url = [];
  clock = 1002;
}

first_answer : cached_keys net empty_cache (codes "alice") ≡ (filled_cache, Result.ok alice_keys)
unfolding filled_cache cached_keys fresh_keys refetch fetch_keys text_eq trim_space alice_keys
first_answer = refl

second_answer : cached_keys net filled_cache (codes "alice") ≡ (filled_cache, Result.ok alice_keys)
unfolding filled_cache cached_keys fresh_keys text_eq put
second_answer = refl

twice-Answers :
    Answers net empty_cache
      (codes "alice" ∷ codes "alice" ∷ [])
      ((codes "alice", alice_keys) ∷ (codes "alice", alice_keys) ∷ [])
      filled_cache
twice-Answers = next first_answer (next second_answer (done filled_cache))

duplicate_ambiguous_example :
    (authenticate net (codes "key-a") alice_twice).1 ≡ rejected ambiguous_key
unfolding has_key text_eq alice_keys
duplicate_ambiguous_example =
    duplicate_ambiguous net (codes "key-a") alice_twice [] (codes "alice") alice_keys alice_keys []
      filled_cache (omega arith) twice-Answers refl
