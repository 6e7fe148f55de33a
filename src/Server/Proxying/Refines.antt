-- ===== src/Server/Proxying/Refines.antt =====
-- However the goroutines of `proxySession` interleave, it does what the sequential account says.
use voidshell.Prelude.{
  ◌<◌, ◌-◌, ◌&&◌, ◌≡◌, refl, Bool, true, false, Option, none, some, List, [], ◌∷◌, ◌++◌,
  if◌then◌else◌, arith, sym, ◌∙◌, ℕ, ltb, ◌==◌, subst, inl, inr, Bool-cases, Option-cases,
}
use voidshell.Server.Wire.{Request}
use voidshell.Server.Effects.{
  Trace, accept, acquire, open_ssh, open_remote, relay, then_do, release_once,
}
use voidshell.Server.Relay
use voidshell.Server.Relay.{proxy_session, take_exit, tell_exit, told_exit, is_exit}
use voidshell.Server.Proxying.{
  Main, acquiring, opening, opening_remote, listening, joining, reporting, returned, Reader,
  Proxying, Move, on_main, on_reader, output_ends, outputs_joined, takes, send_fails, context_ends,
  return_with, Choice, main_step, reader_step, take_pending, step, Reach, start, later, reading,
  ended, holding,
}

last_exit : List Request → Option Request → Option Request
last_exit [] e = e
last_exit (r ∷ rs) e = last_exit rs (if is_exit r then some r else e)

take_exit-last : (rs : List Request) (e : Option Request) → (take_exit e rs).0 ≡ last_exit rs e
unfolding take_exit last_exit
take_exit-last [] e = refl
take_exit-last (r ∷ rs) e = take_exit-last rs (if is_exit r then some r else e)

last_exit-append :
    (rs : List Request) (r : Request) (e : Option Request)
    → last_exit (rs ++ r ∷ []) e ≡ (if is_exit r then some r else last_exit rs e)
unfolding last_exit
last_exit-append [] r e = refl
last_exit-append (x ∷ rs) r e = last_exit-append rs r (if is_exit x then some x else e)

abbrev through : Trace
through = accept ∷ acquire true ∷ open_ssh ∷ open_remote ∷ []

abbrev Stands : Main → Trace → List Request → ℕ → Bool → Type 0
Stands acquiring trace heard n opened = (trace ≡ accept ∷ []) × (opened ≡ false) × (heard ≡ [])
Stands opening trace heard n opened =
    (trace ≡ accept ∷ acquire true ∷ []) × (opened ≡ false) × (heard ≡ [])
Stands opening_remote trace heard n opened =
    (trace ≡ accept ∷ acquire true ∷ open_ssh ∷ []) × (opened ≡ false) × (heard ≡ [])
Stands (listening exit) trace heard n opened = (trace ≡ through) × (exit ≡ last_exit heard none)
Stands (joining exit) trace heard n opened = (trace ≡ through) × (exit ≡ last_exit heard none)
Stands (reporting exit) trace heard n opened =
    (trace ≡ release_once (then_do relay through)) × (exit ≡ last_exit heard none) × (n ≡ 0)
Stands returned trace heard n opened =
    (a : Relay.Answers) × (trace ≡ proxy_session a)
    × (a.remote_requests ≡ heard)
    × (a.acquires ≡ true → a.opens_ssh ≡ true → a.opens_remote ≡ true → n ≡ 0)

record Inv (s : Proxying) : Type 0 where
  pub stands : Stands s.main s.trace s.heard s.outputs s.opened
  pub joined : s.output_done ≡ true → (s.outputs ≡ 0) × (s.opened ≡ true)

-- The trace where `proxySession` returns.
abbrev answers : Bool → Bool → Bool → List Request → Bool → Relay.Answers
answers a b c heard cancelled = record {
  acquires = a;
  opens_ssh = b;
  opens_remote = c;
  remote_requests = heard;
  cancelled = cancelled;
}

some-Inv : (x s' : Proxying) → some x ≡ some s' → Inv x → Inv s'
some-Inv x s' h = subst Inv (some_injective h)
  where
    some_injective : some x ≡ some s' → x ≡ s'
    some_injective h = cc

-- `proxySession` has returned with a trace.
returned-Inv :
    (trace : Trace) (s : Proxying) (a : Relay.Answers)
    → (s.output_done ≡ true → (s.outputs ≡ 0) × (s.opened ≡ true))
    → trace ≡ proxy_session a
    → a.remote_requests ≡ s.heard
    → (a.acquires ≡ true → a.opens_ssh ≡ true → a.opens_remote ≡ true → s.outputs ≡ 0)
    → Inv (return_with trace s)
unfolding return_with
returned-Inv trace s a j t r o = record { stands = (a, t, r, o); joined = j }

main_step-Inv :
    (c : Choice) (s s' : Proxying) (main : Main)
    → Stands main s.trace s.heard s.outputs s.opened
    → (s.output_done ≡ true → (s.outputs ≡ 0) × (s.opened ≡ true))
    → main_step c s main ≡ some s'
    → Inv s'
unfolding main_step proxy_session tell_exit last_exit
main_step-Inv c s s' acquiring (t, d, n) j h = elim (Bool-cases c.succeeds) [
  | inl e ↦ some-Inv _ s' (rw e at h) (record { stands = (rw t refl, d, n); joined = j })
  | inr e ↦
      some-Inv _ s' (rw e at h) (
        returned-Inv _ s (answers false false false s.heard false) j (rw t refl) refl (λ x y z. cc))
]
main_step-Inv c s s' opening (t, d, n) j h = elim (Bool-cases c.succeeds) [
  | inl e ↦ some-Inv _ s' (rw e at h) (record { stands = (rw t refl, d, n); joined = j })
  | inr e ↦
      some-Inv _ s' (rw e at h)
        (returned-Inv _ s (answers true false false s.heard false) j (rw t refl) refl (λ x y z. cc))
]
main_step-Inv c s s' opening_remote (t, d, n) j h = elim (Bool-cases c.succeeds) [
  | inl e ↦ some-Inv _ s' (rw e at h) (record {
    stands = (rw t refl, rw n refl);
    joined = λ q. let (zero_outputs, was) = j q in cc;
  })
  | inr e ↦
      some-Inv _ s' (rw e at h)
        (returned-Inv _ s (answers true true false s.heard false) j (rw t refl) refl (λ x y z. cc))
]
main_step-Inv c s s' (listening exit) (t, e) j h = elim (Option-cases c.request) [
  | inl q ↦ some-Inv _ s' (rw q at h) (record { stands = (t, e); joined = j })
  | inr (req, q) ↦
      some-Inv _ s' (rw q at h)
        (record { stands = (t, rw (last_exit-append s.heard req none, e) refl); joined = j })
]
main_step-Inv c s s' (joining exit) (t, e) j h = elim (Bool-cases s.output_done) [
  | inl q ↦
      some-Inv _ s' (rw q at h) (record { stands = (rw t refl, e, (j q).0); joined = λ z. j q })
  | inr q ↦ let h' = rw q at h in cc
]
main_step-Inv c s s' (reporting exit) (t, e, n) j h =
    let told : exit ≡ (take_exit none s.heard).0 = e ∙ sym (take_exit-last s.heard none) in
    some-Inv _ s' h (
      returned-Inv _ s (answers true true true s.heard s.cancelled) j (rw (t, told) refl) refl
        (λ x y z. n))
main_step-Inv c s s' returned st j h = cc

-- The other goroutines leave what `proxySession` itself has done.
around-Inv :
    (s s' : Proxying)
    → Inv s
    → s'.main ≡ s.main
    → s'.trace ≡ s.trace
    → s'.heard ≡ s.heard
    → s'.outputs ≡ s.outputs
    → s'.output_done ≡ s.output_done
    → s'.opened ≡ s.opened
    → Inv s'
around-Inv s s' inv m t r o d c = record {
  stands = rw (m, t, r, o, c) inv.stands;
  joined = rw (o, d, c) inv.joined;
}

reader_step-Inv :
    (c : Choice) (s s' : Proxying) (r : Reader) → Inv s → reader_step c s r ≡ some s' → Inv s'
unfolding reader_step
reader_step-Inv c s s' reading inv h =
    around-Inv s s' inv (ground arith) (ground arith) (ground arith) (ground arith) (ground arith)
      (ground arith)
reader_step-Inv c s s' (holding req) inv h =
    around-Inv s s' inv (ground arith) (ground arith) (ground arith) (ground arith) (ground arith)
      (ground arith)
reader_step-Inv c s s' ended inv h = cc

take_pending-Inv :
    (s s' : Proxying) (reqs : List Request) → Inv s → take_pending s reqs ≡ some s' → Inv s'
unfolding take_pending
take_pending-Inv s s' [] inv h = cc
take_pending-Inv s s' (req ∷ reqs) inv h =
    around-Inv s s' inv (ground arith) (ground arith) (ground arith) (ground arith) (ground arith)
      (ground arith)

-- The copies of the outputs end, and then nothing waits for them.
outputs-Stands :
    (main : Main) (trace : Trace) (heard : List Request) (n n' : ℕ) (opened : Bool)
    → n' < n
    → Stands main trace heard n opened
    → Stands main trace heard n' opened
outputs-Stands acquiring trace heard n n' done l st = st
outputs-Stands opening trace heard n n' done l st = st
outputs-Stands opening_remote trace heard n n' done l st = st
outputs-Stands (listening exit) trace heard n n' done l st = st
outputs-Stands (joining exit) trace heard n n' done l st = st
outputs-Stands (reporting exit) trace heard n n' done l (t, e, q) = (t, e, omega arith)
outputs-Stands returned trace heard n n' done l (a, t, r, o) =
    (a, t, r, λ x y z. let q = o x y z in omega arith)

step-Inv : (m : Move) (s s' : Proxying) → Inv s → step m s ≡ some s' → Inv s'
unfolding step
step-Inv (on_main c) s s' inv h = main_step-Inv c s s' s.main inv.stands inv.joined h
step-Inv (on_reader c) s s' inv h = reader_step-Inv c s s' s.reader inv h
step-Inv output_ends s s' inv h = elim (Bool-cases (ltb 0 s.outputs)) [
  | inl e ↦ some-Inv _ s' (rw e at h) (record {
    stands =
        outputs-Stands s.main s.trace s.heard s.outputs (s.outputs - 1) s.opened (ground arith)
          inv.stands;
    joined = λ q. let (zero_outputs, was) = inv.joined q in (omega arith, was);
  })
  | inr e ↦ let h' = rw e at h in cc
]
step-Inv outputs_joined s s' inv h = elim (Bool-cases (s.opened && s.outputs == 0)) [
  | inl e ↦
      some-Inv _ s' (rw e at h)
        (record { stands = inv.stands; joined = λ q. (ground arith, ground arith) })
  | inr e ↦ let h' = rw e at h in cc
]
step-Inv takes s s' inv h = take_pending-Inv s s' s.pending inv h
step-Inv send_fails s s' inv h =
    around-Inv s s' inv (ground arith) (ground arith) (ground arith) (ground arith) (ground arith)
      (ground arith)
step-Inv context_ends s s' inv h =
    around-Inv s s' inv (ground arith) (ground arith) (ground arith) (ground arith) (ground arith)
      (ground arith)

Reach-Inv : {s : Proxying} → Reach s → Inv s
Reach-Inv start = record { stands = (refl, refl, refl); joined = λ q. cc }
Reach-Inv (later m r h) = step-Inv m _ _ (Reach-Inv r) h

-- However the goroutines of `proxySession` interleave with the client, the workspace's server and
-- the end of the context: where it has returned, its effects are those of the sequential account,
-- for some answers of its calls and the requests that the workspace's server has sent; and where
-- all three calls have succeeded, both copies of the output streams have ended.
pub returned-proxy_session :
    {s : Proxying}
    → Reach s
    → s.main ≡ returned
    → (a : Relay.Answers) × (s.trace ≡ proxy_session a)
      × (a.remote_requests ≡ s.heard)
      × (a.acquires ≡ true → a.opens_ssh ≡ true → a.opens_remote ≡ true → s.outputs ≡ 0)
returned-proxy_session {s} r h =
    subst (λ main. Stands main s.trace s.heard s.outputs s.opened) h (Reach-Inv r).stands
