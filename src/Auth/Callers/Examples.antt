-- ===== src/Auth/Callers/Examples.antt =====
-- Calls for one user of whom GitHub removes a key.
use voidshell.Prelude.{
  ℕ, ◌+◌, ◌≡◌, ◌≢◌, refl, none, some, List, [], ◌∷◌, All, arith, codes, text_eq, if◌then◌else◌,
  trim_space, update, put, ltb, Text, ◌==◌,
}
use voidshell.Auth.Github.{response, Net, IsForward, KeyCache, fetch_keys, fresh_keys}
use voidshell.Auth.Authenticator.{accepted, rejected, unknown_key, has_key, authenticate}
use voidshell.Auth.Answers.{Answer, IsOwner}
use voidshell.Auth.Callers.{
  Call, Pc, idle, decided, new_key_cache, answered, store, ask, serve, end_fetch, step, tick, Reach,
  start, passes, later, false, Option,
}
use voidshell.Auth.Callers.Settled.{users_of, IsRecent}
use voidshell.Auth.Callers.Recent.{Stores, accepted-IsRecent}
use voidshell.Auth.Callers.Alone.{Runs, runs_alone}

-- The key is on the page until the time 2.
abbrev net : Net
net = record {
  reply = λ url now. response 200 (if ltb now 2 then codes "key-a" ∷ [] else []) false;
  over = λ url now. now + 2;
  parse_key = λ line. some line;
}

abbrev users : List Text
users = codes "alice" ∷ []

record State : Type 0 where
  cache : KeyCache
  pcs : ℕ → Pc
  reach : Reach net users 5 [] cache pcs

abbrev fresh : State
fresh = record { cache = new_key_cache 5 [] 0; pcs = λ i. idle; reach = start 0 }

move : (i : ℕ) (s : State) → State
move i s = by_step (step net users (codes "key-a") s.cache (s.pcs i)) refl
  where
    by_step :
        (o : Option (KeyCache × Pc)) → step net users (codes "key-a") s.cache (s.pcs i) ≡ o → State
    by_step none e = s
    by_step (some (c, p)) e = record {
      cache = c;
      pcs = update s.pcs i p;
      reach = later i (codes "key-a") s.reach e;
    }

pass : State → State
pass s = record { cache = tick net s.cache; pcs = s.pcs; reach = passes s.reach }

-- Each number is a step of that call, and 9 is time that passes.
run : List ℕ → State → State
unfolding move pass
run [] s = s
run (i ∷ is) s = run is (if i == 9 then pass s else move i s)

-- A call fetches, and accepts.
abbrev first_accepts : State
first_accepts = run (0 ∷ 0 ∷ 0 ∷ 9 ∷ 0 ∷ 0 ∷ 0 ∷ []) fresh

abbrev first_call : Call
first_call = record { offered = codes "key-a"; since = 0; todo = []; matched = codes "alice" ∷ [] }

first_accepted : first_accepts.pcs 0 ≡ decided first_call (accepted (codes "alice"))
unfolding run move step ask serve end_fetch store answered fresh_keys fetch_keys has_key text_eq
    trim_space update put
first_accepted = refl

accepted-IsRecent_example :
    (answers : List Answer) × (users_of answers ≡ users)
    × All (IsRecent net (Stores net users 5 [] first_accepts.reach) [] 5 0) answers
    × IsOwner (codes "key-a") (codes "alice") answers
accepted-IsRecent_example =
    accepted-IsRecent net users 5 [] 0 first_call (codes "alice") first_accepts.reach first_accepted

-- The key is gone at 2, and the second call learns of it; the first, whose fetch began before,
-- stores the key at 3, and a call that begins at 7, a lifetime after the removal, is accepted by
-- it.
abbrev overwritten : State
overwritten =
    run
      (0 ∷ 0 ∷ 0 ∷ 9 ∷ 9 ∷ 1 ∷ 1 ∷ 1 ∷ 1 ∷ 1 ∷ 1 ∷ 9 ∷ 0 ∷ 0 ∷ 0 ∷ 9 ∷ 9 ∷ 9 ∷ 9 ∷ 2 ∷ 2 ∷ 2 ∷ 2
        ∷ [])
      fresh

overwritten_times :
    (overwritten.cache.clock ≡ 7)
    × (overwritten.pcs 1
        ≡ decided
            (record { offered = codes "key-a"; since = 2; todo = []; matched = [] })
            (rejected unknown_key))
unfolding run move pass step ask serve end_fetch store answered fresh_keys fetch_keys has_key
    text_eq trim_space update put
overwritten_times = (refl, refl)

overwritten_accepts :
    overwritten.pcs 2 ≡ decided (record first_call { since = 7 }) (accepted (codes "alice"))
unfolding run move pass step ask serve end_fetch store answered fresh_keys fetch_keys has_key
    text_eq trim_space update put
overwritten_accepts = refl

net-IsForward : IsForward net
net-IsForward = record { forward = λ url now. omega arith }

runs_alone_example :
    let (a, v) =
      authenticate net
        (codes "key-a")
        (record { allowed_users = users; cache = first_accepts.cache }) in
    (call : Call) × (pc : ℕ → Pc) × (call.offered ≡ codes "key-a")
    × (call.since ≡ first_accepts.cache.clock)
    × Runs net users (codes "key-a") first_accepts.cache idle a.cache (decided call v)
    × Reach net users 5 [] a.cache pc
    × (pc 1 ≡ decided call v)
    × ((j : ℕ) → 1 ≢ j → pc j ≡ first_accepts.pcs j)
unfolding run move update step
runs_alone_example =
    runs_alone net users (codes "key-a") net-IsForward 5 [] 1 first_accepts.cache first_accepts.pcs
      first_accepts.reach refl
