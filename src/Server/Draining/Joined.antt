-- ===== src/Server/Draining/Joined.antt =====
-- A session's queue of terminal sizes outlives the goroutine that pushes to it.
use mathlib.Core.List.{Sublist}
use voidshell.Server.Draining.Ordered.{Reach-Ordered}
use voidshell.Prelude.{
  ◌≤◌, ◌≡◌, refl, true, false, Option, none, some, arith, length, ◌∙◌, ap, ◌≢◌, ◌⊎◌, inl,
  Bool-cases, inr, sym, ◌++◌,
}
use voidshell.Server.Wire.{Request, Wire}
use voidshell.Server.Session.{Terminal}
use voidshell.Server.Draining.{
  Main, pushing, launching, running, closing, joining, stopping, cancelling, closing_again,
  returned, Drainer, unborn, waiting, cancels, closes, ended, handling, Draining, main_step,
  drainer_step, step, on_main, on_drainer, Reach, is_some,
}
use voidshell.Server.Draining.Invariant.{
  Inv, Reach-Inv, is_before, has_joined, has_stopped, is_unborn, is_ended, has_cancelled,
  has_closed,
}

main_moves :
    (t : Terminal) (s : Draining) (main : Main)
    → main ≢ returned
    → (is_some (main_step t s main) ≡ true) ⊎ (main ≡ joining) × (s.drained ≡ false)
unfolding main_step
main_moves t s pushing n = inl refl
main_moves t s launching n = inl refl
main_moves t s running n = inl refl
main_moves t s closing n = inl refl
main_moves t s joining n = elim (Bool-cases s.drained) [
  | inl e ↦ inl (rw e refl)
  | inr e ↦ inr (refl, e)
]
main_moves t s stopping n = inl (ground arith)
main_moves t s cancelling n = inl refl
main_moves t s closing_again n = inl refl
main_moves t s returned n = absurd (n refl)

drainer_moves :
    (wire : Wire) (req : Option Request) (s : Draining) (d : Drainer)
    → is_unborn d ≡ false
    → is_ended d ≡ false
    → is_some (drainer_step wire req s d) ≡ true
unfolding drainer_step
drainer_moves wire req s unborn u e = cc
drainer_moves wire none s waiting u e = refl
drainer_moves wire (some r) s waiting u e = refl
drainer_moves wire req s (handling r) u e = ground arith
drainer_moves wire req s cancels u e = refl
drainer_moves wire req s closes u e = ground arith
drainer_moves wire req s ended u e = cc

either_moves :
    (wire : Wire) (t : Terminal) (req : Option Request) (s : Draining)
    → Inv s
    → s.main ≢ returned
    → (is_some (step wire t on_main s) ≡ true) ⊎ (is_some (step wire t (on_drainer req) s) ≡ true)
unfolding step
either_moves wire t req s inv n = elim (main_moves t s s.main n) [
  | inl e ↦ inl e
  | inr (e, dr) ↦
      inr (drainer_moves wire req s s.drainer (inv.born ∙ ap is_before e) (sym inv.ends ∙ dr))
]

drainer_ended : (d : Drainer) → is_ended d ≡ true → d ≡ ended
drainer_ended unborn h = cc
drainer_ended waiting h = cc
drainer_ended cancels h = cc
drainer_ended closes h = cc
drainer_ended ended h = refl
drainer_ended (handling req) h = cc

returned_ended :
    (s : Draining)
    → Inv s
    → s.main ≡ returned
    → (s.drainer ≡ ended) × (s.cancelled ≡ true) × (s.sizes.closed ≡ true) × (s.closed ≡ true)
returned_ended s inv e =
    let done = drainer_ended s.drainer (sym inv.ends ∙ inv.joined (ap has_joined e)) in
    (
      done,
      inv.over (ap has_cancelled done),
      inv.stopped ∙ ap has_stopped e,
      inv.hung_up (ap has_closed e),
    )

-- Between any two steps, in any order in which the session, the goroutine that drains the requests
-- and the executor take them: nothing was sent on a closed channel, and no queue was closed twice.
-- What the executor has received, and at most 16 sizes that wait, are sizes for which `push` was
-- called, in their order; if those are at most 16, none is lost. Where `handleSession` has
-- returned, the goroutine has ended, the context is cancelled, and the queue and the SSH channel
-- are closed. Where it has not, and the program's run and the client's requests come to their ends,
-- it can take a step or the goroutine can.
pub handle_session-drains :
    {wire : Wire} {t : Terminal} {s : Draining}
    → Reach wire t s
    → (s.panicked ≡ false)
      × Sublist (s.resized ++ s.sizes.queued) s.asked
      × (length s.sizes.queued ≤ 16)
      × (length s.asked ≤ 16 → s.resized ++ s.sizes.queued ≡ s.asked)
      × (s.main ≡ returned
          → (s.drainer ≡ ended)
            × (s.cancelled ≡ true)
            × (s.sizes.closed ≡ true)
            × (s.closed ≡ true))
      × (s.main ≢ returned
          → (req : Option Request)
          → (is_some (step wire t on_main s) ≡ true)
            ⊎ (is_some (step wire t (on_drainer req) s) ≡ true))
handle_session-drains {wire} {t} {s} r =
    let inv = Reach-Inv r in
    let sizes = Reach-Ordered r in
    (
      inv.safe,
      sizes.order,
      inv.bounded,
      sizes.kept,
      λ e. returned_ended s inv e,
      λ n req. either_moves wire t req s inv n,
    )
