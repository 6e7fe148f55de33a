-- ===== src/Auth/Callers/Moved.antt =====
-- Where a step of a call leads, and what it leaves to the others.
use voidshell.Auth.Callers.Settled.{
  Stored, Settled, Knows, pending, IsRecent, users_of, answered-Settled, IsFetched, Store,
}
use voidshell.Prelude.{
  ℕ, ◌+◌, ◌≤◌, ◌<◌, ◌≡◌, refl, Option, none, some, List, [], ◌∷◌, ◌++◌, Text, arith, inl, inr,
  Option-cases, subst, put_inv, ◌∙◌, ap, sym, append-nil,
}
use voidshell.Auth.Github.{
  PublicKey, Net, Result, ok, err, CacheEntry, KeyCache, fetch_keys, fresh_keys,
}
use voidshell.Auth.Answers.{owners-IsOwner, verdict-accepted}
use voidshell.Auth.Callers.{
  Call, Pc, idle, asking, looked, fetching, storing, decided, answered, store, ask, serve,
  end_fetch, step,
}

module _ (net : Net) (S : Store) (users : List Text) (ttl : ℕ) (base_url : Text) where
  since-answered :
      (call : Call) (user : Text) (keys : List PublicKey)
      → (answered call user keys).since ≡ call.since
  unfolding answered
  since-answered call user keys = ground arith

  -- Where the call goes on or ends at the head of the loop.
  ask-Knows :
      (c : KeyCache) (call : Call) (todo : List Text)
      → call.todo ≡ todo
      → ((user : Text) → Stored net S users ttl base_url user (c.entries user))
      → Settled net S users ttl base_url call
      → call.since ≤ c.clock
      → Knows net S users ttl base_url c.clock (ask c call todo)
  unfolding ask
  ask-Knows c call [] q e s since = λ user v.
      let one = verdict-accepted net call.offered call.matched user v in
      (
        s.answers,
        sym (append-nil (users_of s.answers))
            ∙ ap (λ t. users_of s.answers ++ t) (sym q)
            ∙ s.listed,
        s.recent,
        owners-IsOwner call.offered user s.answers (sym s.found ∙ one),
      )
  ask-Knows c call (user ∷ rest) q e s since = (
    record {
      answers = s.answers;
      listed = ap (λ t. users_of s.answers ++ t) (sym q) ∙ s.listed;
      found = s.found;
      recent = s.recent;
    },
    since,
    e user,
  )

  answered-Knows :
      (now : ℕ) (call : Call) (user : Text) (keys : List PublicKey)
      → Settled net S users ttl base_url (pending net S users ttl base_url call user)
      → call.since ≤ now
      → IsRecent net S base_url ttl call.since (user, keys)
      → Knows net S users ttl base_url now (asking (answered call user keys))
  answered-Knows now call user keys s since r = (
    answered-Settled net S users ttl base_url call user keys s r,
    rw (since-answered call user keys) since,
  )

  fresh-IsRecent :
      (c : KeyCache) (since : ℕ) (user : Text) (entry : Option CacheEntry) (keys : List PublicKey)
      → c.ttl ≡ ttl
      → since ≤ c.clock
      → Stored net S users ttl base_url user entry
      → fresh_keys net c entry ≡ some keys
      → IsRecent net S base_url ttl since (user, keys)
  unfolding fresh_keys
  fresh-IsRecent c since user none keys t h e q = cc
  fresh-IsRecent c since user (some x) keys t h e q =
      let young : since < x.fetched_at + ttl = ground arith in
      let same : x.keys ≡ keys = ground arith in
      record {
        stored = x.fetched_at;
        written = subst (λ ks. S user ks x.fetched_at) same (e x refl).0;
        fetched = subst (λ ks. IsFetched net base_url user ks x.fetched_at) same (e x refl).1;
        recent = inl young;
      }

  serve-Knows :
      (c : KeyCache) (call : Call) (user : Text) (entry : Option CacheEntry)
      → c.ttl ≡ ttl
      → Settled net S users ttl base_url (pending net S users ttl base_url call user)
      → call.since ≤ c.clock
      → Stored net S users ttl base_url user entry
      → Knows net S users ttl base_url c.clock (serve net c call user entry)
  unfolding serve
  serve-Knows c call user entry t s since e = elim (Option-cases (fresh_keys net c entry)) [
    | inl q ↦ rw (q, serve) (s, since, omega arith)
    | inr (keys, q) ↦
        rw (q, serve)
          (answered-Knows c.clock call user keys s since
            (fresh-IsRecent c call.since user entry keys t since e q))
  ]

  end_fetch-Knows :
      (now : ℕ) (call : Call) (user : Text) (begun : ℕ) (r : Result (List PublicKey))
      → fetch_keys net base_url user begun ≡ r
      → Settled net S users ttl base_url (pending net S users ttl base_url call user)
      → call.since ≤ now
      → begun ≤ now
      → Knows net S users ttl base_url now (end_fetch net call user r)
  unfolding end_fetch
  end_fetch-Knows now call user begun (err e) q s since b = λ u v. cc
  end_fetch-Knows now call user begun (ok keys) q s since b =
      (s, since, record { begun = begun; brought = q; earlier = b })

  -- What a step leaves for the other calls, and where it takes its own.
  pub record IsMoved (c c' : KeyCache) (p : Pc) : Type 0 where
    pub same_url : c'.base_url ≡ base_url
    pub same_ttl : c'.ttl ≡ ttl
    pub same_clock : c'.clock ≡ c.clock
    pub entries : (user : Text) → Stored net S users ttl base_url user (c'.entries user)
    pub knows : Knows net S users ttl base_url c.clock p

  kept :
      (c : KeyCache) (p : Pc)
      → c.base_url ≡ base_url
      → c.ttl ≡ ttl
      → ((user : Text) → Stored net S users ttl base_url user (c.entries user))
      → Knows net S users ttl base_url c.clock p
      → IsMoved c c p
  kept c p u t e k = record {
    same_url = u;
    same_ttl = t;
    same_clock = refl;
    entries = e;
    knows = k;
  }

  to_result :
      (c c1 c' : KeyCache) (p p' : Pc)
      → ◌≡◌ {A = Option (KeyCache × Pc)} (some (c1, p)) (some (c', p'))
      → IsMoved c c1 p
      → IsMoved c c' p'
  to_result c c1 c' p p' h m =
      subst
        (λ (o : Option (KeyCache × Pc)). elim o [ none ↦ Unit {0} | some (x, y) ↦ IsMoved c x y ]) h
        m

  store-IsMoved :
      (c : KeyCache) (call : Call) (user : Text) (keys : List PublicKey)
      → c.base_url ≡ base_url
      → c.ttl ≡ ttl
      → ((user : Text) → Stored net S users ttl base_url user (c.entries user))
      → Settled net S users ttl base_url (pending net S users ttl base_url call user)
      → call.since ≤ c.clock
      → IsFetched net base_url user keys c.clock
      → S user keys c.clock
      → IsMoved c (store c user keys) (asking (answered call user keys))
  unfolding store
  store-IsMoved c call user keys u t e s since x w = record {
    same_url = u;
    same_ttl = t;
    same_clock = refl;
    entries = λ v e' q. elim (put_inv user v (some stored) (some e') c.entries q) [
      | inl (k, same) ↦
          let it : stored ≡ e' = cc in
          subst
            (λ (y : CacheEntry).
              S v y.keys y.fetched_at × IsFetched net base_url v y.keys y.fetched_at)
            it
            (subst (λ (y : Text). S y keys c.clock × IsFetched net base_url y keys c.clock) k
              (w, x))
      | inr old ↦ e v e' old
    ];
    knows =
        answered-Knows c.clock call user keys s since
          (record { stored = c.clock; written = w; fetched = x; recent = inr since });
  }
    where
      stored : CacheEntry
      stored = record { keys = keys; fetched_at = c.clock }

  pub step-IsMoved :
      (offered : PublicKey) (c c' : KeyCache) (p p' : Pc)
      → c.base_url ≡ base_url
      → c.ttl ≡ ttl
      → ((user : Text) → Stored net S users ttl base_url user (c.entries user))
      → Knows net S users ttl base_url c.clock p
      → ((call : Call) (user : Text) (keys : List PublicKey)
          → p ≡ storing call user keys
          → S user keys c.clock)
      → step net users offered c p ≡ some (c', p')
      → IsMoved c c' p'
  unfolding step
  step-IsMoved offered c c' idle p' u t e k w h = to_result c c c' _ p' h (
      kept c _ u t e
        (record { answers = []; listed = refl; found = refl; recent = tt }, omega arith))
  step-IsMoved offered c c' (asking call) p' u t e (s, since) w h =
      to_result c c c' _ p' h (kept c _ u t e (ask-Knows c call call.todo refl e s since))
  step-IsMoved offered c c' (looked call user entry) p' u t e (s, since, x) w h =
      to_result c c c' _ p' h (kept c _ u t e (serve-Knows c call user entry t s since x))
  step-IsMoved offered c c' (fetching call user begun) p' u t e (s, since, b) w h =
      to_result c c c' _ p' h (
        kept c _ u t e (
          end_fetch-Knows c.clock call user begun (fetch_keys net c.base_url user begun)
            (ap (λ url. fetch_keys net url user begun) (sym u)) s since b))
  step-IsMoved offered c c' (storing call user keys) p' u t e (s, since, x) w h =
      to_result c (store c user keys) c' _ p' h
        (store-IsMoved c call user keys u t e s since x (w call user keys refl))
  step-IsMoved offered c c' (decided call v) p' u t e k w h = cc
