-- ===== src/Auth/Answers.antt =====
-- Whom the authenticator accepts, in terms of the keys that the cache answered for each user.
use voidshell.Prelude.{
  ◌≡◌, refl, true, false, List, [], ◌∷◌, ◌++◌, if◌then◌else◌, Text, All, arith, append_assoc, ◌⊎◌,
  inl, inr, Bool-cases, ◌↔◌, ap, append-nil, ◌≢◌, sym, ◌∙◌,
}
use voidshell.Auth.Github.{PublicKey, Net, FetchError, Result, ok, err, KeyCache, cached_keys}
use voidshell.Auth.Authenticator.{
  Authenticator, AuthError, Verdict, accepted, rejected, unknown_key, has_key, verdict, match_users,
  authenticate,
}

-- A user with the keys that the cache answered.
abbrev pub Answer : Type 0
Answer = Text × List PublicKey

-- The cache answers for each of the users in turn.
pub data Answers (net : Net) : KeyCache → List Text → List Answer → KeyCache → Type 0 where
  done : (c : KeyCache) → Answers net c [] [] c
  next :
      {c c' c'' : KeyCache} {user : Text} {keys : List PublicKey} {users : List Text}
      {answers : List Answer}
      → cached_keys net c user ≡ (c', ok keys)
      → Answers net c' users answers c''
      → Answers net c (user ∷ users) ((user, keys) ∷ answers) c''

-- The users whose answers have the key.
abbrev pub owners : PublicKey → List Answer → List Text
owners offered [] = []
owners offered ((user, keys) ∷ answers) =
    let rest = owners offered answers in if has_key offered keys then user ∷ rest else rest

-- The user's answer has the key, and no other answer has it.
pub record IsOwner (offered : PublicKey) (user : Text) (answers : List Answer) : Type 0 where
  pub before : List Answer
  pub keys : List PublicKey
  pub after : List Answer
  pub split : answers ≡ before ++ (user, keys) ∷ after
  pub has : has_key offered keys ≡ true
  pub none_before : All (λ (q : Answer). has_key offered q.1 ≡ false) before
  pub none_after : All (λ (q : Answer). has_key offered q.1 ≡ false) after

owners-nil :
    (offered : PublicKey) (answers : List Answer)
    → owners offered answers ≡ []
    → All (λ (q : Answer). has_key offered q.1 ≡ false) answers
owners-nil offered [] h = tt
owners-nil offered ((u, keys) ∷ answers) h = ground (arith, owners-nil offered answers)

owners-none :
    (offered : PublicKey) (answers : List Answer)
    → All (λ (q : Answer). has_key offered q.1 ≡ false) answers
    → owners offered answers ≡ []
owners-none offered [] h = refl
owners-none offered ((u, keys) ∷ answers) (hq, h) = rw hq (owners-none offered answers h)

pub owners-IsOwner :
    (offered : PublicKey) (user : Text) (answers : List Answer)
    → owners offered answers ≡ user ∷ []
    → IsOwner offered user answers
owners-IsOwner offered user [] h = cc
owners-IsOwner offered user ((u, keys) ∷ answers) h = elim (Bool-cases (has_key offered keys)) [
  | inl e ↦
      let h' : u ∷ owners offered answers ≡ user ∷ [] = rw e at h in
      record {
        before = [];
        keys = keys;
        after = answers;
        split = ground arith;
        has = e;
        none_before = tt;
        none_after = owners-nil offered answers (cc);
      }
  | inr e ↦
      let ih = owners-IsOwner offered user answers (rw e at h) in
      record {
        before = (u, keys) ∷ ih.before;
        keys = ih.keys;
        after = ih.after;
        split = ap (λ r. (u, keys) ∷ r) ih.split;
        has = ih.has;
        none_before = (e, ih.none_before);
        none_after = ih.none_after;
      }
]

pub owners-append :
    (offered : PublicKey) (xs ys : List Answer)
    → owners offered (xs ++ ys) ≡ owners offered xs ++ owners offered ys
owners-append offered [] ys = refl
owners-append offered ((u, keys) ∷ xs) ys = ground (arith, owners-append offered xs ys)

pub IsOwner-owners :
    (offered : PublicKey) (user : Text) (answers : List Answer)
    → IsOwner offered user answers
    → owners offered answers ≡ user ∷ []
IsOwner-owners offered user answers o = rw (
  o.split,
  owners-append offered o.before ((user, o.keys) ∷ o.after),
  owners-none offered o.before o.none_before,
  o.has,
  owners-none offered o.after o.none_after,
)

pub answer_cases :
    (r : KeyCache × Result (List PublicKey))
    → ((c : KeyCache) × (e : FetchError) × (r ≡ (c, err e)))
      ⊎ ((c : KeyCache) × (keys : List PublicKey) × (r ≡ (c, ok keys)))
answer_cases (c, err e) = inl (c, e, refl)
answer_cases (c, ok keys) = inr (c, keys, refl)

module _ (net : Net) (offered : PublicKey) where
  pub match_users_ok :
      (c c' : KeyCache) (u : Text) (keys : List PublicKey) (users matched : List Text)
      → cached_keys net c u ≡ (c', ok keys)
      → match_users net offered c (u ∷ users) matched
        ≡ match_users net offered c' users
            (if has_key offered keys then matched ++ u ∷ [] else matched)
  unfolding match_users
  match_users_ok c c' u keys users matched h =
      let state : (cached_keys net c u).0 ≡ c' =
        ap (λ (p : KeyCache × Result (List PublicKey)). p.0) h in
      rw (h, match_users) (rw state)

  pub match_users_err :
      (c c' : KeyCache) (u : Text) (e : FetchError) (users matched : List Text)
      → cached_keys net c u ≡ (c', err e)
      → match_users net offered c (u ∷ users) matched ≡ (c', rejected (AuthError.fetching_keys u e))
  unfolding match_users
  match_users_err c c' u e users matched h =
      let state : (cached_keys net c u).0 ≡ c' =
        ap (λ (p : KeyCache × Result (List PublicKey)). p.0) h in
      rw (h, match_users) (rw state)

  pub match_users_done :
      (c : KeyCache) (matched : List Text)
      → match_users net offered c [] matched ≡ (c, verdict (matched ++ []))
  unfolding match_users
  match_users_done c matched = rw (append-nil matched)

  match_users-Answers :
      {c c' : KeyCache} {users : List Text} {answers : List Answer} (matched : List Text)
      → Answers net c users answers c'
      → match_users net offered c users matched ≡ (c', verdict (matched ++ owners offered answers))
  match_users-Answers matched (done c) = match_users_done c matched
  match_users-Answers matched
        (next {c = c} {c' = c'} {user = u} {keys = keys} {users = us} {answers = qs} e rest) =
      elim (Bool-cases (has_key offered keys)) [
        | inl h ↦
            rw (match_users_ok c c' u keys us matched e, h)
              (match_users-Answers (matched ++ u ∷ []) rest
                ∙ rw (append_assoc matched (u ∷ []) (owners offered qs)))
        | inr h ↦ rw (match_users_ok c c' u keys us matched e, h) (match_users-Answers matched rest)
      ]

  pub verdict-accepted : (xs : List Text) (u : Text) → verdict xs ≡ accepted u → xs ≡ u ∷ []
  unfolding verdict
  verdict-accepted [] u h = cc
  verdict-accepted (x ∷ []) u h = ground arith
  verdict-accepted (x ∷ y ∷ xs) u h = cc

  verdict_unknown : (xs : List Text) → verdict xs ≡ rejected unknown_key → xs ≡ []
  unfolding verdict
  verdict_unknown [] h = refl
  verdict_unknown (x ∷ []) h = cc
  verdict_unknown (x ∷ y ∷ xs) h = cc

  -- A verdict that no fetch error gave comes from answers for all users.
  abbrev Settled : Verdict → Type 0
  Settled v = (u : Text) (e : FetchError) → v ≢ rejected (AuthError.fetching_keys u e)

  match_users-Settled :
      (c : KeyCache) (users matched : List Text)
      → Settled (match_users net offered c users matched).1
      → (answers : List Answer) × (c' : KeyCache) × Answers net c users answers c'
  match_users-Settled c [] matched s = ([], c, done c)
  match_users-Settled c (u ∷ users) matched s = elim (answer_cases (cached_keys net c u)) [
    | inl (c', e, q) ↦
        absurd
          (s u e (ap (λ (p : KeyCache × Verdict). p.1) (match_users_err c c' u e users matched q)))
    | inr (c', keys, q) ↦
        let (answers, c'', rest) =
          match_users-Settled c' users (if has_key offered keys then matched ++ u ∷ [] else matched)
            (rw (match_users_ok c c' u keys users matched q) at s) in
        ((u, keys) ∷ answers, c'', next q rest)
  ]

  Settled-by :
      (a : Authenticator)
      → Settled (authenticate net offered a).1
      → (answers : List Answer) × (c : KeyCache) × Answers net a.cache a.allowed_users answers c
        × ((authenticate net offered a).1 ≡ verdict (owners offered answers))
  unfolding authenticate
  Settled-by a s =
      let (answers, c, r) = match_users-Settled a.cache a.allowed_users [] s in
      (answers, c, r, ap (λ (p : KeyCache × Verdict). p.1) (match_users-Answers [] r))

  pub answered_by :
      (a : Authenticator) (answers : List Answer) (c : KeyCache)
      → Answers net a.cache a.allowed_users answers c
      → (authenticate net offered a).1 ≡ verdict (owners offered answers)
  unfolding authenticate
  answered_by a answers c r = ap (λ (p : KeyCache × Verdict). p.1) (match_users-Answers [] r)

  -- The authenticator accepts a user exactly when the cache answers for every allowed user in
  -- turn, the offered key is among the keys of that user, and it is in no other answer.
  pub authenticate-accepted_iff :
      (a : Authenticator) (user : Text)
      → ((authenticate net offered a).1 ≡ accepted user) ↔ (
          (answers : List Answer) × (c : KeyCache) × Answers net a.cache a.allowed_users answers c
          × IsOwner offered user answers)
  unfolding verdict
  authenticate-accepted_iff a user = (sound, complete)
    where
      sound :
          (authenticate net offered a).1 ≡ accepted user
          → (answers : List Answer) × (c : KeyCache) × Answers net a.cache a.allowed_users answers c
            × IsOwner offered user answers
      sound h =
          let (answers, c, r, e) = Settled-by a (λ u x q. cc) in
          let one = verdict-accepted (owners offered answers) user (sym e ∙ h) in
          (answers, c, r, owners-IsOwner offered user answers one)

      complete :
          (answers : List Answer) × (c : KeyCache) × Answers net a.cache a.allowed_users answers c
            × IsOwner offered user answers
          → (authenticate net offered a).1 ≡ accepted user
      complete (answers, c, r, o) =
          answered_by a answers c r ∙ ap verdict (IsOwner-owners offered user answers o)

  -- It answers that the key is unknown exactly when the cache answers for every allowed user and
  -- the offered key is in no answer; so an empty list of users denies everyone.
  pub authenticate-unknown_iff :
      (a : Authenticator)
      → ((authenticate net offered a).1 ≡ rejected unknown_key) ↔ (
          (answers : List Answer) × (c : KeyCache) × Answers net a.cache a.allowed_users answers c
          × All (λ (q : Answer). has_key offered q.1 ≡ false) answers)
  unfolding verdict
  authenticate-unknown_iff a = (
    λ h.
        let (answers, c, r, e) = Settled-by a (λ u x q. cc) in
        let zero_owners = verdict_unknown (owners offered answers) (sym e ∙ h) in
        (answers, c, r, owners-nil offered answers zero_owners),
    λ q. answered_by a q.0 q.1 q.2 ∙ ap verdict (owners-none offered q.0 q.3),
  )
