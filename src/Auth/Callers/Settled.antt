-- ===== src/Auth/Callers/Settled.antt =====
-- What a call of `Authenticate` knows between its steps.
use voidshell.Prelude.{
  ℕ, ◌+◌, ◌≤◌, ◌<◌, ◌≡◌, refl, Option, some, List, [], ◌∷◌, ◌++◌, Text, All, All-append, arith, ◌⊎◌,
  inl, inr, Bool-cases, ap, append_assoc, append-nil,
}
use voidshell.Auth.Github.{PublicKey, Net, ok, CacheEntry, fetch_keys}
use voidshell.Auth.Authenticator.{accepted, has_key}
use voidshell.Auth.Answers.{Answer, owners, owners-append, IsOwner}
use voidshell.Auth.Callers.{Call, Pc, idle, asking, looked, fetching, storing, decided, answered}

abbrev pub users_of : List Answer → List Text
users_of [] = []
users_of ((user, keys) ∷ answers) = user ∷ users_of answers

users_of-append : (xs ys : List Answer) → users_of (xs ++ ys) ≡ users_of xs ++ users_of ys
users_of-append [] ys = refl
users_of-append ((u, keys) ∷ xs) ys = ap (λ us. u ∷ us) (users_of-append xs ys)

-- Which keys were stored for a user, and when.
abbrev pub Store : Type 1
Store = Text → List PublicKey → ℕ → Type 0

module _ (net : Net) where
  -- A fetch of the user's keys that began by then brought these keys.
  pub record IsFetched (base_url user : Text) (keys : List PublicKey) (now : ℕ) : Type 0 where
    pub begun : ℕ
    pub brought : fetch_keys net base_url user begun ≡ ok keys
    pub earlier : begun ≤ now

  -- Keys that a fetch has brought, and that were stored for the user less than a lifetime before a
  -- time, or at or after that time.
  pub record IsRecent (S : Store) (base_url : Text) (ttl since : ℕ) (q : Answer) : Type 0 where
    pub stored : ℕ
    pub written : S q.0 q.1 stored
    pub fetched : IsFetched base_url q.0 q.1 stored
    pub recent : (since < stored + ttl) ⊎ (since ≤ stored)

  module _ (S : Store) (users : List Text) (ttl : ℕ) (base_url : Text) where
    -- What a call has been answered, for the users that it has done with.
    pub record Settled (call : Call) : Type 0 where
      pub answers : List Answer
      pub listed : users_of answers ++ call.todo ≡ users
      pub found : call.matched ≡ owners call.offered answers
      pub recent : All (IsRecent S base_url ttl call.since) answers

    abbrev pub pending : Call → Text → Call
    pending call user = record call { todo = user ∷ call.todo }

    -- The cache has answered for every user, with keys stored lately; the offered key is in the
    -- answer for this user, and in no other.
    abbrev pub Owns : Call → Text → Type 0
    Owns call user =
        (answers : List Answer) × (users_of answers ≡ users)
        × All (IsRecent S base_url ttl call.since) answers
        × IsOwner call.offered user answers

    abbrev pub Stored : Text → Option CacheEntry → Type 0
    Stored user entry =
        (e : CacheEntry)
        → entry ≡ some e
        → S user e.keys e.fetched_at × IsFetched base_url user e.keys e.fetched_at

    abbrev pub Knows : ℕ → Pc → Type 0
    Knows now idle = Unit {0}
    Knows now (asking call) = Settled call × (call.since ≤ now)
    Knows now (looked call user entry) =
        Settled (pending call user) × (call.since ≤ now) × Stored user entry
    Knows now (fetching call user begun) =
        Settled (pending call user) × (call.since ≤ now) × (begun ≤ now)
    Knows now (storing call user keys) =
        Settled (pending call user) × (call.since ≤ now) × IsFetched base_url user keys now
    Knows now (decided call v) = (user : Text) → v ≡ accepted user → Owns call user

    pub Knows-later : (now : ℕ) (p : Pc) → Knows now p → Knows (now + 1) p
    Knows-later now idle k = tt
    Knows-later now (asking call) (s, since) = (s, omega arith)
    Knows-later now (looked call user entry) (s, since, e) = (s, omega arith, e)
    Knows-later now (fetching call user begun) (s, since, b) = (s, omega arith, omega arith)
    Knows-later now (storing call user keys) (s, since, f) = (
      s,
      omega arith,
      record { begun = f.begun; brought = f.brought; earlier = omega (arith, f.earlier) },
    )
    Knows-later now (decided call v) k = k

    -- One more answer.
    pub answered-Settled :
        (call : Call) (user : Text) (keys : List PublicKey)
        → Settled (pending call user)
        → IsRecent S base_url ttl call.since (user, keys)
        → Settled (answered call user keys)
    unfolding answered
    answered-Settled call user keys s r = elim (Bool-cases (has_key call.offered keys)) [
      | inl e ↦
          let found : call.matched ++ user ∷ [] ≡ owners call.offered more =
            rw (owners-append call.offered s.answers ((user, keys) ∷ []), e, s.found) refl in
          rw e (record { answers = more; listed = listed; found = found; recent = recent })
      | inr e ↦
          let found : call.matched ≡ owners call.offered more =
            rw (owners-append call.offered s.answers ((user, keys) ∷ []), e, append-nil) s.found in
          rw e (record { answers = more; listed = listed; found = found; recent = recent })
    ]
      where
        more : List Answer
        more = s.answers ++ (user, keys) ∷ []

        listed : users_of more ++ call.todo ≡ users
        listed = rw (users_of-append s.answers ((user, keys) ∷ []), append_assoc) s.listed

        recent : All (IsRecent S base_url ttl call.since) more
        recent =
            All-append (IsRecent S base_url ttl call.since) s.answers ((user, keys) ∷ []) s.recent
              (r, tt)

  module _ (S S' : Store) (users : List Text) (ttl : ℕ) (base_url : Text)
      (more : (user : Text) (keys : List PublicKey) (t : ℕ) → S user keys t → S' user keys t) where
    IsRecent-more :
        (since : ℕ) (answers : List Answer)
        → All (IsRecent S base_url ttl since) answers
        → All (IsRecent S' base_url ttl since) answers
    IsRecent-more since [] h = tt
    IsRecent-more since (q ∷ answers) (h, hs) = (
      record {
        stored = h.stored;
        written = more q.0 q.1 h.stored h.written;
        fetched = h.fetched;
        recent = h.recent;
      },
      IsRecent-more since answers hs,
    )

    to_settled :
        (call : Call) → Settled S users ttl base_url call → Settled S' users ttl base_url call
    to_settled call s = record {
      answers = s.answers;
      listed = s.listed;
      found = s.found;
      recent = IsRecent-more call.since s.answers s.recent;
    }

    pub Stored-more :
        (user : Text) (entry : Option CacheEntry)
        → Stored S users ttl base_url user entry
        → Stored S' users ttl base_url user entry
    Stored-more user entry h e q =
        let (w, fetched) = h e q in (more user e.keys e.fetched_at w, fetched)

    -- What a call knows, it knows after more stores.
    pub Knows-more :
        (now : ℕ) (p : Pc) → Knows S users ttl base_url now p → Knows S' users ttl base_url now p
    Knows-more now idle k = tt
    Knows-more now (asking call) (s, rest) = (to_settled call s, rest)
    Knows-more now (looked call user entry) (s, since, e) =
        (to_settled (pending S users ttl base_url call user) s, since, Stored-more user entry e)
    Knows-more now (fetching call user begun) (s, since, b) =
        (to_settled (pending S users ttl base_url call user) s, since, b)
    Knows-more now (storing call user keys) (s, since, b) =
        (to_settled (pending S users ttl base_url call user) s, since, b)
    Knows-more now (decided call v) k = λ user h.
        let (answers, listed, recent, owner) = k user h in
        (answers, listed, IsRecent-more call.since answers recent, owner)
