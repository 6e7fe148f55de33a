-- ===== src/Auth/Callers/Progress.antt =====
-- A call of `Authenticate` ends, and waits for no other call.
use voidshell.Prelude.{
  ℕ, ◌+◌, ◌*◌, ◌<◌, ◌≡◌, refl, Option, some, List, [], ◌∷◌, Text, length, arith, ◌⊎◌, inl, inr,
  Option-cases,
}
use voidshell.Auth.Github.{
  PublicKey, Net, Result, ok, err, CacheEntry, KeyCache, fetch_keys, fresh_keys,
}
use voidshell.Auth.Authenticator.{Verdict}
use voidshell.Auth.Callers.{
  Call, Pc, idle, asking, looked, fetching, storing, decided, answered, ask, serve, end_fetch, step,
}

-- How many steps a call can still take.
abbrev pub steps_left : List Text → Pc → ℕ
steps_left users idle = 4 * length users + 2
steps_left users (asking call) = 4 * length call.todo + 1
steps_left users (looked call user entry) = 4 * length call.todo + 4
steps_left users (fetching call user begun) = 4 * length call.todo + 3
steps_left users (storing call user keys) = 4 * length call.todo + 2
steps_left users (decided call v) = 0

module _ (net : Net) (users : List Text) where
  todo-answered :
      (call : Call) (user : Text) (keys : List PublicKey)
      → (answered call user keys).todo ≡ call.todo
  unfolding answered
  todo-answered call user keys = ground arith

  ask_lowers :
      (c : KeyCache) (call : Call) (todo : List Text)
      → steps_left users (ask c call todo) < 4 * length todo + 1
  unfolding ask
  ask_lowers c call [] = omega arith
  ask_lowers c call (u ∷ todo) = omega arith

  serve_lowers :
      (c : KeyCache) (call : Call) (user : Text) (entry : Option CacheEntry)
      → steps_left users (serve net c call user entry) < 4 * length call.todo + 4
  unfolding serve
  serve_lowers c call user entry = elim (Option-cases (fresh_keys net c entry)) [
    | inl e ↦ rw (e, serve) (omega arith)
    | inr (keys, e) ↦ rw (e, serve, todo-answered call user keys) (omega arith)
  ]

  end_fetch_lowers :
      (call : Call) (user : Text) (r : Result (List PublicKey))
      → steps_left users (end_fetch net call user r) < 4 * length call.todo + 3
  unfolding end_fetch
  end_fetch_lowers call user (err e) = omega arith
  end_fetch_lowers call user (ok keys) = omega arith

  -- From any cache, a call that has not decided can take a step, whatever other calls do; and each
  -- of its steps lowers the number of steps that it has left, which is four for each allowed user
  -- and two more at first.
  pub step_lowers :
      (offered : PublicKey) (c : KeyCache) (p : Pc)
      → ((call : Call) × (v : Verdict) × (p ≡ decided call v))
        ⊎ ((c' : KeyCache) × (p' : Pc) × (step net users offered c p ≡ some (c', p'))
            × steps_left users p' < steps_left users p)
  unfolding step
  step_lowers offered c idle = inr (_, _, refl, omega arith)
  step_lowers offered c (asking call) = inr (_, _, refl, ask_lowers c call call.todo)
  step_lowers offered c (looked call user entry) = inr (_, _, refl, serve_lowers c call user entry)
  step_lowers offered c (fetching call user begun) =
      inr (_, _, refl, end_fetch_lowers call user (fetch_keys net c.base_url user begun))
  step_lowers offered c (storing call user keys) =
      inr (_, _, refl, rw (todo-answered call user keys) (omega arith))
  step_lowers offered c (decided call v) = inl (call, v, refl)
