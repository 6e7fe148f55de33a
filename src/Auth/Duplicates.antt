-- ===== src/Auth/Duplicates.antt =====
-- An allow-list that names a user twice.
use voidshell.Prelude.{
  ℕ, ◌<◌, ◌≡◌, refl, true, some, List, [], ◌∷◌, ◌++◌, Text, arith, inl, inr, Option-cases, put_self,
  put, ap, subst₂, ◌∙◌, sym,
}
use voidshell.Auth.Github.{
  PublicKey, Net, Result, ok, err, KeyCache, keys_url, fetch_keys, fresh_keys, refetch, cached_keys,
}
use voidshell.Auth.Authenticator.{
  Authenticator, has_key, authenticate, verdict, rejected, ambiguous_key,
}
use voidshell.Auth.Answers.{Answer, Answers, next, owners, owners-append, answered_by}

module _ (net : Net) where
  fresh_just_now :
      (c : KeyCache) (keys : List PublicKey)
      → 0 < c.ttl
      → fresh_keys net c (some (record { keys = keys; fetched_at = c.clock })) ≡ some keys
  unfolding fresh_keys
  fresh_just_now c keys h = ground arith

  served :
      (c : KeyCache) (user : Text) (keys : List PublicKey)
      → fresh_keys net c (c.entries user) ≡ some keys
      → cached_keys net c user ≡ (c, ok keys)
  unfolding cached_keys
  served c user keys h = rw (h, cached_keys)

  -- The cache serves these keys for the user without a fetch.
  abbrev Serves : Text → KeyCache → List PublicKey → Type 0
  Serves user c keys = fresh_keys net c (c.entries user) ≡ some keys

  refetch-Serves :
      (c c' : KeyCache) (user : Text) (keys : List PublicKey) (r : Result (List PublicKey))
      → 0 < c.ttl
      → fetch_keys net c.base_url user c.clock ≡ r
      → refetch net c user ≡ (c', ok keys)
      → Serves user c' keys
  unfolding refetch
  refetch-Serves c c' user keys (err x) h q e = let e' = rw (q, refetch) at e in cc
  refetch-Serves c c' user keys (ok ks) h q e =
      let stored : KeyCache = record c {
        entries = put user (some (record { keys = ks; fetched_at = now })) c.entries;
        clock = now;
      } in
      let e' : ◌≡◌ {A = KeyCache × Result (List PublicKey)} (stored, ok ks) (c', ok keys) =
        rw (q, refetch) at e in
      let same : ks ≡ keys = cc in
      let state : stored ≡ c' = ap (λ (p : KeyCache × Result (List PublicKey)). p.0) e' in
      subst₂ (Serves user) state same (
        ap (fresh_keys net stored)
          (put_self user (some (record { keys = ks; fetched_at = now })) c.entries)
        ∙ fresh_just_now stored ks h)
    where
      now : ℕ
      now = net.over (keys_url net c.base_url user) c.clock

  cached-Serves :
      (c c' : KeyCache) (user : Text) (keys : List PublicKey)
      → 0 < c.ttl
      → cached_keys net c user ≡ (c', ok keys)
      → Serves user c' keys
  unfolding cached_keys
  cached-Serves c c' user keys h e = elim (Option-cases (fresh_keys net c (c.entries user))) [
    | inl stale ↦
        let e' : refetch net c user ≡ (c', ok keys) = rw (stale, cached_keys) at e in
        refetch-Serves c c' user keys _ h refl e'
    | inr (ks, fresh) ↦
        let e' : ◌≡◌ {A = KeyCache × Result (List PublicKey)} (c, ok ks) (c', ok keys) =
          rw (fresh, cached_keys) at e in
        let same : ks ≡ keys = cc in
        let state : c ≡ c' = ap (λ (p : KeyCache × Result (List PublicKey)). p.0) e' in
        subst₂ (Serves user) state same fresh
  ]

  twice :
      (c c' c'' : KeyCache) (user : Text) (keys keys' : List PublicKey)
      → 0 < c.ttl
      → cached_keys net c user ≡ (c', ok keys)
      → cached_keys net c' user ≡ (c'', ok keys')
      → keys ≡ keys'
  twice c c' c'' user keys keys' h e e' =
      let again = served c' user keys (cached-Serves c c' user keys h e) in cc

  refetch-ttl :
      (c : KeyCache) (user : Text) (r : Result (List PublicKey))
      → fetch_keys net c.base_url user c.clock ≡ r
      → (refetch net c user).0.ttl ≡ c.ttl
  unfolding refetch
  refetch-ttl c user (err x) q = rw (q, refetch)
  refetch-ttl c user (ok ks) q = rw (q, refetch)

  cached-ttl : (c : KeyCache) (user : Text) → (cached_keys net c user).0.ttl ≡ c.ttl
  unfolding cached_keys
  cached-ttl c user = elim (Option-cases (fresh_keys net c (c.entries user))) [
    | inl stale ↦ rw (stale, cached_keys) (refetch-ttl c user _ refl)
    | inr (ks, fresh) ↦ rw (fresh, cached_keys)
  ]

  Answers-twice :
      (before : List Answer) (user : Text) (keys keys' : List PublicKey) (after : List Answer)
      {c c' : KeyCache} {users : List Text}
      → 0 < c.ttl
      → Answers net c users (before ++ (user, keys) ∷ (user, keys') ∷ after) c'
      → keys ≡ keys'
  Answers-twice [] user keys keys' after {c = c} h (next e (next e' r)) =
      twice c _ _ user keys keys' h e e'
  Answers-twice (q ∷ before) user keys keys' after {c = c} h (next {c' = d} {user = v} e r) =
      let kept : d.ttl ≡ c.ttl =
        ap (λ (p : KeyCache × Result (List PublicKey)). p.0.ttl) (sym e) ∙ cached-ttl c v in
      Answers-twice before user keys keys' after (rw kept h) r

  verdict_twice :
      (xs ys : List Text) (u v : Text) → verdict (xs ++ u ∷ v ∷ ys) ≡ rejected ambiguous_key
  unfolding verdict
  verdict_twice [] ys u v = refl
  verdict_twice (x ∷ []) ys u v = refl
  verdict_twice (x ∷ y ∷ xs) ys u v = refl

  -- With a positive lifetime, where the allow-list names a user twice in a row and the first
  -- answer for that user has the offered key, the key counts as ambiguous.
  pub duplicate_ambiguous :
      (offered : PublicKey) (a : Authenticator) (before : List Answer) (user : Text)
      (keys keys' : List PublicKey) (after : List Answer) (c : KeyCache)
      → 0 < a.cache.ttl
      → Answers net a.cache a.allowed_users (before ++ (user, keys) ∷ (user, keys') ∷ after) c
      → has_key offered keys ≡ true
      → (authenticate net offered a).1 ≡ rejected ambiguous_key
  unfolding verdict
  duplicate_ambiguous offered a before user keys keys' after c h r has =
      let same = Answers-twice before user keys keys' after h r in
      let has' : has_key offered keys' ≡ true = rw (← same) has in
      answered_by net offered a _ c r
      ∙ ap verdict (owners-append offered before _)
      ∙ rw (has, has') (verdict_twice (owners offered before) (owners offered after) user user)
