-- ===== src/K8s/DirectForward/Invariant.antt =====
-- What holds of `forwardSSH` around its loop between any two steps.
use voidshell.Prelude.{
  sym, if◌then◌else◌, Option-cases, ◌≡◌, refl, ◌⊎◌, inl, inr, Bool, true, false, none, some, arith,
  ◌≢◌, subst,
}
use voidshell.K8s.ForwardSsh
use voidshell.K8s.ForwardSsh.{Forwarding, begun}
use voidshell.K8s.DirectForward.{
  Phase, dialling, arming, opening, disarming, checking, looping, closing_conn, stopping,
  closing_client, returned, AfterFunc, unset, armed, started, ran, no_client, no_channel, cancelled,
  looped, Direct, leave_loop, main_step, is_looping, ends_context, Move, on_main, in_loop,
  context_ends, func_starts, func_closes, step, Reach, start, later,
}

-- Before the function is registered, while it may run, and after the first `stop()`.
abbrev pub is_early : Phase → Bool
is_early dialling = true
is_early arming = true
is_early _ = false

abbrev pub is_late : Phase → Bool
is_late looping = true
is_late checking = true
is_late closing_conn = true
is_late closing_client = true
is_late returned = true
is_late _ = false

abbrev pub is_leaving : Phase → Bool
is_leaving closing_conn = true
is_leaving stopping = true
is_leaving closing_client = true
is_leaving returned = true
is_leaving _ = false

abbrev pub is_closed : Phase → Bool
is_closed stopping = true
is_closed closing_client = true
is_closed returned = true
is_closed _ = false

-- The function was started only by the end of the context.
abbrev pub is_started : AfterFunc → Bool
is_started started = true
is_started ran = true
is_started _ = false

abbrev pub is_ready : Phase → Bool
is_ready opening = true
is_ready disarming = true
is_ready _ = false

abbrev pub ran_only : AfterFunc → Bool
ran_only ran = true
ran_only _ = false

abbrev pub is_dialling : Phase → Bool
is_dialling dialling = true
is_dialling _ = false

abbrev pub is_unopened : Phase → Bool
is_unopened dialling = true
is_unopened arming = true
is_unopened opening = true
is_unopened _ = false

-- Where the channel is open, and where the client is connected.
abbrev pub is_opened : Phase → Bool
is_opened disarming = true
is_opened checking = true
is_opened looping = true
is_opened closing_conn = true
is_opened _ = false

abbrev pub is_dialled : Phase → Bool
is_dialled dialling = false
is_dialled returned = false
is_dialled _ = true

pub record Inv (s : Direct) : Type 0 where
  pub early : is_early s.phase ≡ true → s.after ≡ unset
  pub disarmed : is_late s.phase ≡ true → s.after ≢ armed
  pub ended : is_started s.after ≡ true → s.context_done ≡ true
  pub in_time : s.phase ≡ looping → is_started s.after ≡ false
  pub open_client : is_leaving s.phase ≡ false → s.client_closed ≡ ran_only s.after
  pub open_conn : is_closed s.phase ≡ false → s.conn_closed ≡ false
  pub closed_conn : is_closed s.phase ≡ true → s.conn_closed ≡ s.has_conn
  pub closed_client : s.phase ≡ returned → s.client_closed ≡ s.has_client
  pub dialled : is_dialling s.phase ≡ true → s.has_client ≡ false
  pub unopened : is_unopened s.phase ≡ true → s.has_conn ≡ false
  pub opened : is_opened s.phase ≡ true → s.has_conn ≡ true
  pub connected : is_dialled s.phase ≡ true → s.has_client ≡ true
  pub unarmed : s.has_client ≡ false → s.after ≡ unset
  pub armed_now : is_ready s.phase ≡ true → (s.after ≡ armed) ⊎ (is_started s.after ≡ true)
  pub answered : is_leaving s.phase ≡ true → s.answer ≢ none
  pub watched : is_looping s.phase ≡ true → s.context_done ≡ s.forwarding.context_done
  pub unanswered : is_leaving s.phase ≡ false → s.answer ≡ none
  pub lost_client : s.answer ≡ some no_client → s.has_client ≡ false
  pub lost_channel : s.answer ≡ some no_channel → s.has_conn ≡ false
  pub was_cancelled : s.answer ≡ some cancelled → s.context_done ≡ true
  pub has_looped :
      (o : ForwardSsh.Outcome) → s.answer ≡ some (looped o) → s.forwarding.result ≡ some o

main_step-Inv :
    (ok : Bool) (s s' : Direct) (p : Phase)
    → s.phase ≡ p
    → Inv s
    → main_step ok s p ≡ some s'
    → Inv s'
unfolding main_step leave_loop
main_step-Inv true s s' dialling m inv h = ground arith
main_step-Inv false s s' dialling m inv h = ground arith
main_step-Inv ok s s' arming m inv h = ground arith
main_step-Inv true s s' opening m inv h = ground arith
main_step-Inv false s s' opening m inv h = ground arith
main_step-Inv ok s s' disarming m inv h = ground arith
main_step-Inv ok s s' checking m inv h = ground arith
main_step-Inv ok s s' looping m inv h = ground arith
main_step-Inv ok s s' closing_conn m inv h = ground arith
main_step-Inv ok s s' stopping m inv h = ground arith
main_step-Inv ok s s' closing_client m inv h = ground arith
main_step-Inv ok s s' returned m inv h = cc

-- A step of the loop ends the context or leaves it.
loop_context :
    (m : ForwardSsh.Move) (f g : Forwarding)
    → ForwardSsh.step m f ≡ some g
    → g.context_done ≡ (if ends_context m then true else f.context_done)
unfolding ForwardSsh.step ForwardSsh.around ForwardSsh.in_loop ForwardSsh.select ForwardSsh.receive
    ForwardSsh.returns
loop_context (ForwardSsh.input_ends e) f g h = ground arith
loop_context (ForwardSsh.output_ends none) f g h = ground arith
loop_context (ForwardSsh.output_ends (some e)) f g h = ground arith
loop_context ForwardSsh.output_marked f g h = ground arith
loop_context ForwardSsh.remote_closes f g h = ground arith
loop_context ForwardSsh.context_ends f g h = ground arith
loop_context ForwardSsh.timer_fires f g h = ground arith
loop_context ForwardSsh.take_input f g h = ground arith
loop_context ForwardSsh.take_output f g h = ground arith
loop_context ForwardSsh.take_remote f g h = ground arith
loop_context ForwardSsh.see_context f g h = ground arith
loop_context ForwardSsh.see_timer f g h = ground arith
loop_context ForwardSsh.leave f g h = ground arith

in_loop-Inv : (m : ForwardSsh.Move) (s s' : Direct) → Inv s → step (in_loop m) s ≡ some s' → Inv s'
unfolding step
in_loop-Inv m s s' inv h = elim (Option-cases (ForwardSsh.step m s.forwarding)) [
  | inl q ↦ absurd (ground arith)
  | inr (g, q) ↦ let seen = loop_context m s.forwarding g q in ground arith
]

step-Inv : (m : Move) (s s' : Direct) → Inv s → step m s ≡ some s' → Inv s'
unfolding step
step-Inv (on_main ok) s s' inv h = main_step-Inv ok s s' s.phase refl inv h
step-Inv (in_loop m) s s' inv h = in_loop-Inv m s s' inv h
step-Inv context_ends s s' inv h = ground arith
step-Inv func_starts s s' inv h = ground arith
step-Inv func_closes s s' inv h = ground arith

pub Reach-Inv : {s : Direct} → Reach s → Inv s
Reach-Inv start = ground arith
Reach-Inv (later m r h) = step-Inv m _ _ (Reach-Inv r) h

-- The loop begins at its first state, and takes its own steps.
main_step-forwarding :
    (ok : Bool) (s s' : Direct) (p : Phase)
    → main_step ok s p ≡ some s'
    → (s'.forwarding ≡ s.forwarding) ⊎ (s'.forwarding ≡ begun)
unfolding main_step leave_loop
main_step-forwarding true s s' dialling h = ground arith
main_step-forwarding false s s' dialling h = ground arith
main_step-forwarding ok s s' arming h = ground arith
main_step-forwarding true s s' opening h = ground arith
main_step-forwarding false s s' opening h = ground arith
main_step-forwarding ok s s' disarming h = ground arith
main_step-forwarding ok s s' checking h = ground arith
main_step-forwarding ok s s' looping h = ground arith
main_step-forwarding ok s s' closing_conn h = ground arith
main_step-forwarding ok s s' stopping h = ground arith
main_step-forwarding ok s s' closing_client h = ground arith
main_step-forwarding ok s s' returned h = cc

pub loop_reached : {s : Direct} → Reach s → ForwardSsh.Reach s.forwarding
unfolding step
loop_reached start = ForwardSsh.start
loop_reached (later {s} {s'} (on_main ok) r h) = elim (main_step-forwarding ok s s' s.phase h) [
  | inl e ↦ subst ForwardSsh.Reach (sym e) (loop_reached r)
  | inr e ↦ subst ForwardSsh.Reach (sym e) ForwardSsh.start
]
loop_reached (later {s} {s'} (in_loop m) r h) =
    elim (Option-cases (ForwardSsh.step m s.forwarding)) [
      | inl q ↦ absurd (ground arith)
      | inr (g, q) ↦
          let same : g ≡ s'.forwarding = ground arith in
          subst ForwardSsh.Reach same (ForwardSsh.later m (loop_reached r) q)
    ]
loop_reached (later {s} {s'} context_ends r h) =
    let same : s.forwarding ≡ s'.forwarding = ground arith in
    subst ForwardSsh.Reach same (loop_reached r)
loop_reached (later {s} {s'} func_starts r h) =
    let same : s.forwarding ≡ s'.forwarding = ground arith in
    subst ForwardSsh.Reach same (loop_reached r)
loop_reached (later {s} {s'} func_closes r h) =
    let same : s.forwarding ≡ s'.forwarding = ground arith in
    subst ForwardSsh.Reach same (loop_reached r)
