-- ===== src/K8s/ForwardSsh/Results.antt =====
-- What `forwardSSH` returns, and that it returns.
use voidshell.K8s.ForwardSsh.{
  Copy, copying, taken, ended, Timer, unset, running, expired, Outcome, Forwarding, begun, goes_on,
  Move, input_ends, output_ends, output_marked, remote_closes, context_ends, timer_fires,
  take_input, take_output, take_remote, see_context, see_timer, leave, step, around, in_loop,
  select, receive, returns, Reach, is_around,
}
use voidshell.K8s.ForwardSsh.Invariant.{IsDue, Inv, Reach-Inv}
use voidshell.Prelude.{
  ℕ, ◌+◌, ◌<◌, ◌≡◌, ◌≢◌, refl, true, false, none, some, arith, ◌⊎◌, inl, inr, if◌then◌else◌,
  Option-cases, Bool-cases,
}

-- A result that the loop has come to is due.
pub result-IsDue : {f : Forwarding} → Reach f → (o : Outcome) → f.result ≡ some o → IsDue f o
result-IsDue r o h = (Reach-Inv r).due o h

timer_cases : (t : Timer) → (t ≡ unset) ⊎ (t ≡ running) ⊎ (t ≡ expired)
timer_cases unset = inl refl
timer_cases running = inr (inl refl)
timer_cases expired = inr (inr refl)

moved : (m : Move) (f : Forwarding) → step m f ≢ none → (g : Forwarding) × (step m f ≡ some g)
moved m f h = elim (Option-cases (step m f)) [ inl e ↦ absurd (h e) | inr found ↦ found ]

cancelled_moves :
    {f : Forwarding}
    → Reach f
    → f.context_done ≡ true
    → f.result ≡ none
    → ((m : Move) × (g : Forwarding) × (is_around m ≡ false) × (step m f ≡ some g))
      ⊎ (f.timer ≡ running) × ((g : Forwarding) × (step timer_fires f ≡ some g))
unfolding step around in_loop select receive returns
cancelled_moves {f} r c h =
    let inv = Reach-Inv r in
    elim (Bool-cases (goes_on f)) [
      | inr e ↦ let (g, q) = moved leave f (λ z. ground arith) in inl (leave, g, refl, q)
      | inl e ↦ elim (Bool-cases f.watching) [
        | inl w ↦
            let (g, q) = moved see_context f (λ z. ground arith) in inl (see_context, g, refl, q)
        | inr w ↦ elim (timer_cases f.timer) [
          | inl t ↦ absurd (inv.timed w t)
          | inr (inl t) ↦ inr (t, moved timer_fires f (λ z. ground arith))
          | inr (inr t) ↦
              let (g, q) = moved see_timer f (λ z. ground arith) in inl (see_timer, g, refl, q)
        ]
      ]
    ]

abbrev of_copy : Copy → ℕ
of_copy copying = 2
of_copy (ended e) = 1
of_copy taken = 0

abbrev of_timer : Timer → ℕ
of_timer unset = 2
of_timer running = 1
of_timer expired = 0

-- How many steps a call can still take.
abbrev pub steps_left : Forwarding → ℕ
steps_left f =
    of_copy f.input
    + of_copy f.output
    + of_copy f.remote
    + of_timer f.timer
    + (if f.output_eof then 0 else 1)
    + (if f.context_done then 0 else 1)
    + elim f.result [ none ↦ 1 | some o ↦ 0 ]

step_lowers :
    (m : Move) (f g : Forwarding) → Inv f → step m f ≡ some g → steps_left g < steps_left f
unfolding step around in_loop select receive returns
step_lowers (input_ends e) f g inv h = ground arith
step_lowers (output_ends none) f g inv h = ground arith
step_lowers (output_ends (some e)) f g inv h = ground arith
step_lowers output_marked f g inv h = ground arith
step_lowers remote_closes f g inv h = ground arith
step_lowers context_ends f g inv h = ground arith
step_lowers timer_fires f g inv h = ground arith
step_lowers take_input f g inv h = ground arith
step_lowers take_output f g inv h = ground arith
step_lowers take_remote f g inv h = ground arith
step_lowers see_context f g inv h = ground arith
step_lowers see_timer f g inv h = ground arith
step_lowers leave f g inv h = ground arith

-- Every step lowers the number of steps that are left, which is 11 at first; and once the context
-- has ended, a call that has not returned can take a step of its loop, or the drain timer is
-- running and can fire. So a cancelled call returns, and waits for no copy and not for the backend.
pub cancelled_returns :
    {f : Forwarding}
    → Reach f
    → ((m : Move) (g : Forwarding) → step m f ≡ some g → steps_left g < steps_left f)
      × (f.context_done ≡ true
          → f.result ≡ none
          → ((m : Move) × (g : Forwarding) × (is_around m ≡ false) × (step m f ≡ some g))
            ⊎ (f.timer ≡ running) × ((g : Forwarding) × (step timer_fires f ≡ some g)))
cancelled_returns {f} r = ((λ m g. step_lowers m f g (Reach-Inv r)), cancelled_moves r)

first_steps : steps_left begun ≡ 11
first_steps = refl
