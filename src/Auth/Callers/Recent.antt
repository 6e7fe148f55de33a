-- ===== src/Auth/Callers/Recent.antt =====
-- However the calls of `Authenticate` interleave: whom they accept has offered a key that was
-- fetched lately.
use voidshell.Auth.Callers.Moved.{step-IsMoved}
use voidshell.Auth.Callers.Settled.{
  Store, Stored, Stored-more, Knows-later, Knows-more, users_of, Knows, IsRecent,
}
use voidshell.Prelude.{ℕ, ◌≡◌, refl, List, Text, All, subst, update_all, ◌⊎◌, inl, inr}
use voidshell.Auth.Github.{PublicKey, Net, KeyCache}
use voidshell.Auth.Authenticator.{accepted}
use voidshell.Auth.Answers.{Answer, IsOwner}
use voidshell.Auth.Callers.{Call, Pc, storing, decided, Reach, start, passes, later}

module _ (net : Net) (users : List Text) (ttl : ℕ) (base_url : Text) where
  -- On the way to the state, a call stored these keys for the user, when it was this time.
  pub Stores :
      {c : KeyCache} {pc : ℕ → Pc}
      → Reach net users ttl base_url c pc
      → Text
      → List PublicKey
      → ℕ
      → Type 0
  Stores (start now) user keys t = ⊥
  Stores (passes r) user keys t = Stores r user keys t
  Stores (later {c = c} {pc = pc} i offered r h) user keys t =
      Stores r user keys t ⊎ (call : Call) × (pc i ≡ storing call user keys) × (c.clock ≡ t)

  record Inv (S : Store) (c : KeyCache) (pc : ℕ → Pc) : Type 0 where
    same_url : c.base_url ≡ base_url
    same_ttl : c.ttl ≡ ttl
    entries : (user : Text) → Stored net S users ttl base_url user (c.entries user)
    knows : (i : ℕ) → Knows net S users ttl base_url c.clock (pc i)

  Reach-Inv :
      {c : KeyCache} {pc : ℕ → Pc} (r : Reach net users ttl base_url c pc) → Inv (Stores r) c pc
  unfolding Stores
  Reach-Inv (start now) = record {
    same_url = refl;
    same_ttl = refl;
    entries = λ u e q. cc;
    knows = λ i. tt;
  }
  Reach-Inv (passes {c = c} {pc = pc} r) =
      let inv = Reach-Inv r in
      record {
        same_url = inv.same_url;
        same_ttl = inv.same_ttl;
        entries = inv.entries;
        knows = λ i. Knows-later net (Stores r) users ttl base_url c.clock (pc i) (inv.knows i);
      }
  Reach-Inv (later {c = c} {c' = c'} {pc = pc} {p = p} i offered r h) =
      let inv = Reach-Inv r in
      let now = Stores (later i offered r h) in
      let more =
        λ (user : Text) (keys : List PublicKey) (t : ℕ) (s : Stores r user keys t). inl s in
      let entries = λ (user : Text).
        Stored-more net (Stores r) now users ttl base_url more user (c.entries user)
          (inv.entries user) in
      let knows = λ (j : ℕ).
        Knows-more net (Stores r) now users ttl base_url more c.clock (pc j) (inv.knows j) in
      let m =
        step-IsMoved net now users ttl base_url offered c c' (pc i) p inv.same_url inv.same_ttl
          entries (knows i) (λ call user keys q. inr (call, q, refl)) h in
      record {
        same_url = m.same_url;
        same_ttl = m.same_ttl;
        entries = m.entries;
        knows =
            update_all (Knows net now users ttl base_url c'.clock) pc i p (rw m.same_clock m.knows)
              (rw m.same_clock knows);
      }

  -- Any number of calls on a new authenticator, interleaved at their accesses of the cache, while
  -- time passes between any two of them: where a call has accepted a user, the cache has answered
  -- it for every allowed user in turn, each time with keys of a fetch that one of the calls has
  -- stored for this user, less than a lifetime before the call began, or at or after that time;
  -- and the offered key is in the answer for the accepted user, and in no other.
  pub accepted-IsRecent :
      {c : KeyCache} {pc : ℕ → Pc} (i : ℕ) (call : Call) (user : Text)
      (r : Reach net users ttl base_url c pc)
      → pc i ≡ decided call (accepted user)
      → (answers : List Answer) × (users_of answers ≡ users)
        × All (IsRecent net (Stores r) base_url ttl call.since) answers
        × IsOwner call.offered user answers
  accepted-IsRecent {c} i call user r h =
      subst (Knows net (Stores r) users ttl base_url c.clock) h ((Reach-Inv r).knows i) user refl
