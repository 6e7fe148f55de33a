-- ===== src/Auth/Freshness.antt =====
-- Cached keys are no older than the cache's lifetime, and a failed fetch lets nobody in.
use voidshell.Prelude.{
  ℕ, ◌+◌, ◌≤◌, ◌<◌, ◌≡◌, ◌≢◌, refl, false, Option, none, some, List, [], ◌∷◌, ◌++◌, if◌then◌else◌,
  Text, All, arith, ◌⊎◌, inl, inr, Option-cases, subst, put_inv, ◌∙◌, ap, subst₂, All-append_right,
  All-map,
}
use native.Mathlib.Nat.{le_refl}
use voidshell.Auth.Github.{
  PublicKey, Net, IsForward, Result, ok, err, CacheEntry, KeyCache, keys_url, fetch_keys,
  fresh_keys, refetch, cached_keys,
}
use voidshell.Auth.Authenticator.{Authenticator, accepted, has_key, authenticate, match_users}
use voidshell.Auth.Answers.{
  Answer, Answers, done, next, IsOwner, authenticate-accepted_iff, match_users_done, answer_cases,
  match_users_err, match_users_ok,
}

module _ (net : Net) where
  -- A fetch of the user's keys that was over at a time brought these keys.
  pub record IsFetched (base_url user : Text) (keys : List PublicKey) (time : ℕ) : Type 0 where
    pub begun : ℕ
    pub brought : fetch_keys net base_url user begun ≡ ok keys
    pub ended : net.over (keys_url net base_url user) begun ≡ time

  -- Every entry comes from a fetch that is over.
  pub record IsSound (c : KeyCache) : Type 0 where
    pub fetched :
        (user : Text) (e : CacheEntry)
        → c.entries user ≡ some e
        → IsFetched c.base_url user e.keys e.fetched_at
    pub past : (user : Text) (e : CacheEntry) → c.entries user ≡ some e → e.fetched_at ≤ c.clock

  -- Keys of a fetch that was over less than a lifetime before a time, or at or after that time.
  pub record IsRecent (base_url : Text) (ttl now : ℕ) (q : Answer) : Type 0 where
    pub time : ℕ
    pub fetched : IsFetched base_url q.0 q.1 time
    pub recent : (now < time + ttl) ⊎ (now ≤ time)

  module _ (forward : IsForward net) where
    fresh-IsRecent :
        (c : KeyCache) (user : Text) (keys : List PublicKey) (o : Option CacheEntry)
        → IsSound c
        → c.entries user ≡ o
        → fresh_keys net c o ≡ some keys
        → IsRecent c.base_url c.ttl c.clock (user, keys)
    unfolding fresh_keys
    fresh-IsRecent c user keys none s e h = cc
    fresh-IsRecent c user keys (some entry) s e h =
        let young : c.clock < entry.fetched_at + c.ttl = ground (arith, s.past user entry e) in
        let same : entry.keys ≡ keys = ground arith in
        record {
          time = entry.fetched_at;
          fetched =
              subst (λ ks. IsFetched c.base_url user ks entry.fetched_at) same
                (s.fetched user entry e);
          recent = inl young;
        }

    ok-injective : {a b : List PublicKey} → ◌≡◌ {A = Result (List PublicKey)} (ok a) (ok b) → a ≡ b
    ok-injective h = cc

    -- What a call of `keys` leaves and yields.
    record IsAnswered (c : KeyCache) (user : Text) (c' : KeyCache) (r : Result (List PublicKey))
        : Type 0 where
      sound : IsSound c'
      same_url : c'.base_url ≡ c.base_url
      same_ttl : c'.ttl ≡ c.ttl
      later : c.clock ≤ c'.clock
      recent :
          (keys : List PublicKey) → r ≡ ok keys → IsRecent c.base_url c.ttl c.clock (user, keys)

    refetch-IsAnswered :
        (c : KeyCache) (user : Text)
        → IsSound c
        → (r : Result (List PublicKey)) → fetch_keys net c.base_url user c.clock ≡ r
        → IsAnswered c user (refetch net c user).0 (refetch net c user).1
    unfolding refetch
    refetch-IsAnswered c user s (err e) h =
        rw (h, refetch)
          (record {
            sound = record {
              fetched = s.fetched;
              past = λ v e' q.
                  omega
                    (arith, s.past v e' q, forward.forward (keys_url net c.base_url user) c.clock);
            };
            same_url = refl;
            same_ttl = refl;
            later = forward.forward (keys_url net c.base_url user) c.clock;
            recent = λ keys q. cc;
          })
    refetch-IsAnswered c user s (ok keys) h =
        rw (h, refetch)
          (record {
            sound = record {
              fetched = λ v e' q. elim (put_inv user v (some stored) (some e') c.entries q) [
                | inl (k, same) ↦
                    let it : stored ≡ e' = cc in
                    subst (λ (x : CacheEntry). IsFetched c.base_url v x.keys x.fetched_at) it
                      (subst (λ (x : Text). IsFetched c.base_url x keys now) k fetched)
                | inr old ↦ s.fetched v e' old
              ];
              past = λ v e' q. elim (put_inv user v (some stored) (some e') c.entries q) [
                | inl (k, same) ↦ ground arith
                | inr old ↦ omega (arith, s.past v e' old, forwards)
              ];
            };
            same_url = refl;
            same_ttl = refl;
            later = forwards;
            recent = λ keys' q. record {
              time = now;
              fetched = subst (λ ks. IsFetched c.base_url user ks now) (ok-injective q) fetched;
              recent = inr forwards;
            };
          })
      where
        now : ℕ
        now = net.over (keys_url net c.base_url user) c.clock

        forwards : c.clock ≤ now
        forwards = forward.forward (keys_url net c.base_url user) c.clock

        stored : CacheEntry
        stored = record { keys = keys; fetched_at = now }

        fetched : IsFetched c.base_url user keys now
        fetched = record { begun = c.clock; brought = h; ended = refl }

    cached_keys-IsAnswered :
        (c : KeyCache) (user : Text)
        → IsSound c
        → IsAnswered c user (cached_keys net c user).0 (cached_keys net c user).1
    unfolding cached_keys
    cached_keys-IsAnswered c user s = elim (Option-cases (fresh_keys net c (c.entries user))) [
      | inl stale ↦ rw (stale, cached_keys) (refetch-IsAnswered c user s _ refl)
      | inr (keys, fresh) ↦
          rw (fresh, cached_keys)
            (record {
              sound = s;
              same_url = refl;
              same_ttl = refl;
              later = le_refl c.clock;
              recent = λ keys' q.
                  fresh-IsRecent c user keys' (c.entries user) s refl
                    (fresh ∙ ap some (ok-injective q));
            })
    ]

    IsRecent-earlier :
        (base_url : Text) (ttl now now' : ℕ) (q : Answer)
        → now ≤ now'
        → IsRecent base_url ttl now' q
        → IsRecent base_url ttl now q
    IsRecent-earlier base_url ttl now now' q h r = record {
      time = r.time;
      fetched = r.fetched;
      recent = elim r.recent [ inl young ↦ inl (omega arith) | inr later ↦ inr (omega arith) ];
    }

    Answers-IsRecent :
        {c c' : KeyCache} {users : List Text} {answers : List Answer}
        → Answers net c users answers c'
        → IsSound c
        → All (IsRecent c.base_url c.ttl c.clock) answers
    Answers-IsRecent (done c) s = tt
    Answers-IsRecent (next {c = c} {c' = c'} {user = u} {keys = keys} {answers = qs} e rest) s =
        let ans : IsAnswered c u c' (ok keys) =
          subst (λ (p : KeyCache × Result (List PublicKey)). IsAnswered c u p.0 p.1) e
            (cached_keys-IsAnswered c u s) in
        let tail : All (IsRecent c.base_url c.ttl c'.clock) qs =
          subst₂ (λ b t. All (IsRecent b t c'.clock) qs) ans.same_url ans.same_ttl
            (Answers-IsRecent rest ans.sound) in
        (
          ans.recent keys refl,
          All-map _ _ (λ q. IsRecent-earlier c.base_url c.ttl c.clock c'.clock q ans.later) qs tail,
        )

    owner_recent :
        (P : Answer → Type 0) (offered : PublicKey) (user : Text) (answers : List Answer)
        → All P answers
        → (o : IsOwner offered user answers) → P (user, o.keys)
    owner_recent P offered user answers all o =
        (All-append_right P o.before ((user, o.keys) ∷ o.after) (subst (All P) o.split all)).0

    -- If time runs forwards during fetches and every entry of the cache comes from a fetch: a user
    -- is not accepted by a key that is missing from the keys of that user in every fetch that was
    -- over less than a lifetime before the call or later. So a removed key stops working within one
    -- lifetime.
    pub revoked_key :
        (offered : PublicKey) (a : Authenticator) (user : Text)
        → IsSound a.cache
        → ((keys : List PublicKey)
            → IsRecent a.cache.base_url a.cache.ttl a.cache.clock (user, keys)
            → has_key offered keys ≡ false)
        → (authenticate net offered a).1 ≢ accepted user
    revoked_key offered a user s gone h =
        let (answers, c, r, o) = (authenticate-accepted_iff net offered a user).0 h in
        let recent =
          owner_recent (IsRecent a.cache.base_url a.cache.ttl a.cache.clock) offered user answers
            (Answers-IsRecent r s) o in
        let missing = gone o.keys recent in let here = o.has in cc

    -- The cache stays sound through a call.
    match_users-IsSound :
        (offered : PublicKey) (c : KeyCache) (users matched : List Text)
        → IsSound c
        → IsSound (match_users net offered c users matched).0
    match_users-IsSound offered c [] matched s = rw (match_users_done net offered c matched) s
    match_users-IsSound offered c (u ∷ users) matched s =
        elim (answer_cases (cached_keys net c u)) [
          | inl (c', e, q) ↦
              let ans : IsAnswered c u c' (err e) =
                subst (λ (p : KeyCache × Result (List PublicKey)). IsAnswered c u p.0 p.1) q
                  (cached_keys-IsAnswered c u s) in
              rw (match_users_err net offered c c' u e users matched q) ans.sound
          | inr (c', keys, q) ↦
              let ans : IsAnswered c u c' (ok keys) =
                subst (λ (p : KeyCache × Result (List PublicKey)). IsAnswered c u p.0 p.1) q
                  (cached_keys-IsAnswered c u s) in
              rw (match_users_ok net offered c c' u keys users matched q) (
                match_users-IsSound offered c' users
                  (if has_key offered keys then matched ++ u ∷ [] else matched) ans.sound)
        ]

    -- If time runs forwards during fetches, a call leaves every entry of the cache with the keys
    -- of a fetch that is over, and under the time at which it was over, where this was so before.
    pub authenticate-IsSound :
        (offered : PublicKey) (a : Authenticator)
        → IsSound a.cache
        → IsSound (authenticate net offered a).0.cache
    unfolding authenticate
    authenticate-IsSound offered a s = match_users-IsSound offered a.cache a.allowed_users [] s

    Answers-covers :
        (P : Answer → Type 0) (pre post : List Text) (user : Text) {c c' : KeyCache}
        {answers : List Answer}
        → Answers net c (pre ++ user ∷ post) answers c'
        → All P answers
        → (keys : List PublicKey) × P (user, keys)
    Answers-covers P [] post user (next {keys = keys} e r) all = (keys, all.0)
    Answers-covers P (v ∷ pre) post user (next e r) all = Answers-covers P pre post user r all.1

    -- If time runs forwards during fetches and every entry of the cache comes from a fetch: while
    -- some allowed user has no keys from a fetch that was over less than a lifetime before the
    -- call or later, nobody is accepted.
    pub fail_closed :
        (offered : PublicKey) (a : Authenticator) (pre post : List Text) (user : Text)
        → IsSound a.cache
        → a.allowed_users ≡ pre ++ user ∷ post
        → ((keys : List PublicKey)
            → ¬ IsRecent a.cache.base_url a.cache.ttl a.cache.clock (user, keys))
        → (other : Text) → (authenticate net offered a).1 ≢ accepted other
    fail_closed offered a pre post user s listed missing other h =
        let (answers, c, r, o) = (authenticate-accepted_iff net offered a other).0 h in
        let (keys, recent) =
          Answers-covers (IsRecent a.cache.base_url a.cache.ttl a.cache.clock) pre post user
            (subst (λ us. Answers net a.cache us answers c) listed r) (Answers-IsRecent r s) in
        missing keys recent
