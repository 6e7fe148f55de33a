-- ===== src/Auth/Callers/Alone.antt =====
-- A call of `Authenticate` that no other call comes between does what the function says.
use voidshell.Prelude.{
  ℕ, zero, suc, ◌+◌, ◌-◌, ◌≡◌, ◌≢◌, refl, some, List, [], ◌∷◌, ◌++◌, if◌then◌else◌, Text, arith,
  put, inl, inr, Option-cases, ap, ◌∙◌, subst, update, append-nil,
}
use voidshell.Auth.Github.{
  PublicKey, Net, IsForward, Result, ok, err, KeyCache, keys_url, fetch_keys, fresh_keys, refetch,
  cached_keys,
}
use voidshell.Auth.Authenticator.{rejected, fetching_keys, has_key, match_users, authenticate}
use voidshell.Auth.Answers.{answer_cases, match_users_ok, match_users_err, match_users_done}
use voidshell.Auth.Callers.{
  Call, Pc, idle, asking, looked, fetching, decided, answered, store, ask, serve, end_fetch, step,
  tick, Reach, passes, later,
}

module _ (net : Net) (users : List Text) (offered : PublicKey) where
  -- A call takes steps, and time passes.
  pub data Runs : KeyCache → Pc → KeyCache → Pc → Type 0 where
    stays : (c : KeyCache) (p : Pc) → Runs c p c p
    waits : {c c' : KeyCache} {p p' : Pc} → Runs (tick net c) p c' p' → Runs c p c' p'
    moves :
        {c c1 c' : KeyCache} {p p1 p' : Pc}
        → step net users offered c p ≡ some (c1, p1)
        → Runs c1 p1 c' p'
        → Runs c p c' p'

  Runs-waits :
      (n : ℕ) (c : KeyCache) (p : Pc) (t : ℕ)
      → c.clock + n ≡ t
      → Runs c p (record c { clock = t }) p
  Runs-waits zero c p t e =
      subst (λ (now : ℕ). Runs c p (record c { clock = now }) p) (omega arith) (stays c p)
  Runs-waits (suc n) c p t e = waits (Runs-waits n (tick net c) p t (omega arith))

  Runs-append :
      {c c1 c' : KeyCache} {p p1 p' : Pc} → Runs c p c1 p1 → Runs c1 p1 c' p' → Runs c p c' p'
  Runs-append (stays c p) s = s
  Runs-append (waits r) s = waits (Runs-append r s)
  Runs-append (moves e r) s = moves e (Runs-append r s)

  -- Where a call stands after `keys`.
  abbrev after_keys : Call → Text → Result (List PublicKey) → Pc
  after_keys call user (err e) = decided call (rejected (fetching_keys user e))
  after_keys call user (ok keys) = asking (answered call user keys)

  module _ (forward : IsForward net) where
    fetch-Runs :
        (c : KeyCache) (call : Call) (user : Text)
        → Runs c
            (fetching call user c.clock)
            (refetch net c user).0
            (after_keys call user (refetch net c user).1)
    unfolding refetch step end_fetch store put
    fetch-Runs c call user = by_fetch (fetch_keys net c.base_url user c.clock) refl
      where
        now : ℕ
        now = net.over (keys_url net c.base_url user) c.clock

        at_end : KeyCache
        at_end = record c { clock = now }

        waited : Runs c (fetching call user c.clock) at_end (fetching call user c.clock)
        waited =
            Runs-waits (now - c.clock) c (fetching call user c.clock) now
              (omega (arith, forward.forward (keys_url net c.base_url user) c.clock))

        by_fetch :
            (r : Result (List PublicKey))
            → fetch_keys net c.base_url user c.clock ≡ r
            → Runs c
                (fetching call user c.clock)
                (refetch net c user).0
                (after_keys call user (refetch net c user).1)
        by_fetch (err e) h =
            rw (h, refetch)
              (Runs-append waited
                (moves (ap (λ r. some (at_end, end_fetch net call user r)) h) (stays at_end _)))
        by_fetch (ok keys) h =
            rw (h, refetch)
              (Runs-append waited (
                moves (ap (λ r. some (at_end, end_fetch net call user r)) h)
                  (moves refl (stays _ _))))

    keys-Runs :
        (c : KeyCache) (call : Call) (user : Text)
        → Runs c
            (looked call user (c.entries user))
            (cached_keys net c user).0
            (after_keys call user (cached_keys net c user).1)
    unfolding cached_keys step
    keys-Runs c call user = elim (Option-cases (fresh_keys net c (c.entries user))) [
      | inl e ↦
          let begins : serve net c call user (c.entries user) ≡ fetching call user c.clock =
            rw (e, serve) refl in
          rw (e, cached_keys) (moves (ap (λ (p : Pc). some (c, p)) begins) (fetch-Runs c call user))
      | inr (keys, e) ↦
          let serves : serve net c call user (c.entries user) ≡ asking (answered call user keys) =
            rw (e, serve) refl in
          rw (e, cached_keys) (moves (ap (λ (p : Pc). some (c, p)) serves) (stays _ _))
    ]

    -- The call's record at the head of the loop.
    abbrev at_head : List Text → List Text → ℕ → Call
    at_head todo matched since = record {
      offered = offered;
      since = since;
      todo = todo;
      matched = matched;
    }

    answered_at :
        (u : Text) (keys : List PublicKey) (todo matched : List Text) (since : ℕ)
        → answered (at_head todo matched since) u keys
          ≡ at_head todo (if has_key offered keys then matched ++ u ∷ [] else matched) since
    unfolding answered
    answered_at u keys todo matched since = ground arith

    -- From the head of the loop, to where the function's loop ends.
    Ends : KeyCache → List Text → List Text → ℕ → Type 0
    Ends c todo matched since =
        (left : List Text) × (found : List Text) × Runs c (asking (at_head todo matched since))
          (match_users net offered c todo matched).0
          (decided (at_head left found since) (match_users net offered c todo matched).1)

    match_users-Runs :
        (c : KeyCache) (todo matched : List Text) (since : ℕ) → Ends c todo matched since
    unfolding Ends step ask
    match_users-Runs c [] matched since = (
      [],
      matched,
      rw (match_users_done net offered c matched, append-nil) (moves refl (stays c _)),
    )
    match_users-Runs c (u ∷ todo) matched since = elim (answer_cases (cached_keys net c u)) [
      | inl (c', e, q) ↦ (
        todo,
        matched,
        rw (match_users_err net offered c c' u e todo matched q) (
            moves refl (
              subst
                (λ (r : KeyCache × Result (List PublicKey)).
                  Runs c (looked (at_head todo matched since) u (c.entries u)) r.0
                    (after_keys (at_head todo matched since) u r.1))
                q (keys-Runs c (at_head todo matched since) u))),
      )
      | inr (c', keys, q) ↦
          let more = if has_key offered keys then matched ++ u ∷ [] else matched in
          let (left, found, rest) = match_users-Runs c' todo more since in
          (
            left,
            found,
            rw (match_users_ok net offered c c' u keys todo matched q) (
                moves refl (
                  Runs-append
                    (subst
                      (λ (r : KeyCache × Result (List PublicKey)).
                        Runs c (looked (at_head todo matched since) u (c.entries u)) r.0
                          (after_keys (at_head todo matched since) u r.1))
                      q (keys-Runs c (at_head todo matched since) u))
                    (rw (answered_at u keys todo matched since) rest))),
          )
    ]

    -- A run of caller `i` among the others.
    Runs-Reach :
        (ttl : ℕ) (base_url : Text) (i : ℕ) {c c' : KeyCache} {p p' : Pc} (pc : ℕ → Pc)
        → Runs c p c' p'
        → Reach net users ttl base_url c pc
        → pc i ≡ p
        → (pc' : ℕ → Pc) × Reach net users ttl base_url c' pc'
          × (pc' i ≡ p')
          × ((j : ℕ) → i ≢ j → pc' j ≡ pc j)
    unfolding update
    Runs-Reach ttl base_url i pc (stays c p) r at = (pc, r, at, λ j d. refl)
    Runs-Reach ttl base_url i pc (waits run) r at = Runs-Reach ttl base_url i pc run (passes r) at
    Runs-Reach ttl base_url i pc (moves {c = c} {c1 = c1} {p1 = p1} e run) r at =
        let (pc', r', at', others) =
          Runs-Reach ttl base_url i (update pc i p1) run
            (later i offered r (ap (λ (p : Pc). step net users offered c p) at ∙ e))
            (ground arith) in
        (pc', r', at', λ j d. others j d ∙ ground arith)

    -- If time runs forwards during fetches: a call on a new authenticator, that begins in any state
    -- that other calls have left, can go by its own steps alone, while time passes, from that
    -- cache to the verdict and the cache of `authenticate` for its key; and where it does so among
    -- the other calls, those stay where they were.
    pub runs_alone :
        (ttl : ℕ) (base_url : Text) (i : ℕ) (c : KeyCache) (pc : ℕ → Pc)
        → Reach net users ttl base_url c pc
        → pc i ≡ idle
        → let (a, v) = authenticate net offered (record { allowed_users = users; cache = c }) in
          (call : Call) × (pc' : ℕ → Pc) × (call.offered ≡ offered)
          × (call.since ≡ c.clock)
          × Runs c idle a.cache (decided call v)
          × Reach net users ttl base_url a.cache pc'
          × (pc' i ≡ decided call v)
          × ((j : ℕ) → i ≢ j → pc' j ≡ pc j)
    unfolding authenticate step Ends
    runs_alone ttl base_url i c pc r at =
        let (left, found, run) = match_users-Runs c users [] c.clock in
        let alone = moves refl run in
        let (pc', r', at', others) = Runs-Reach ttl base_url i pc alone r at in
        (at_head left found c.clock, pc', refl, refl, alone, r', at', others)
