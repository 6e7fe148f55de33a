-- ===== src/K8s/ForwardSsh/Invariant.antt =====
-- What holds of `forwardSSH` between any two steps.
use voidshell.K8s.ForwardSsh.{
  Copy, taken, ended, unset, expired, Outcome, completed, context_ended, copy_failed, Forwarding,
  begun, Move, input_ends, output_ends, output_marked, remote_closes, context_ends, timer_fires,
  take_input, take_output, take_remote, see_context, see_timer, leave, step, around, in_loop,
  select, receive, returns, Reach, start, later,
}
use voidshell.Prelude.{◌≡◌, ◌≢◌, Bool, true, false, none, some, arith, ◌⊎◌}

-- The result is justified by the copies, the context and the timer.
abbrev pub IsDue : Forwarding → Outcome → Type 0
IsDue f completed = (f.input ≡ taken) × (f.output ≡ taken) × (f.remote ≡ taken)
IsDue f context_ended = (f.context_done ≡ true) × ((f.output_eof ≡ false) ⊎ (f.timer ≡ expired))
IsDue f (copy_failed e) = (f.input ≡ ended (some e)) ⊎ (f.output ≡ ended (some e))

abbrev pub has_failed : Copy → Bool
has_failed (ended (some e)) = true
has_failed _ = false

pub record Inv (f : Forwarding) : Type 0 where
  pub marked : f.output ≡ taken → f.output_eof ≡ true
  pub marked_end : f.output ≡ ended none → f.output_eof ≡ true
  pub closes : has_failed f.remote ≡ false
  pub unwatched : f.timer ≢ unset → (f.context_done ≡ true) × (f.output_eof ≡ true)
  pub watched : f.watching ≡ true → f.timer ≡ unset
  pub timed : f.watching ≡ false → f.timer ≢ unset
  pub due : (o : Outcome) → f.result ≡ some o → IsDue f o

begun-Inv : Inv begun
begun-Inv = ground arith

step-Inv : (m : Move) (f g : Forwarding) → Inv f → step m f ≡ some g → Inv g
unfolding step around in_loop select receive returns
step-Inv (input_ends e) f g inv h = ground arith
step-Inv (output_ends none) f g inv h = ground arith
step-Inv (output_ends (some e)) f g inv h = ground arith
step-Inv output_marked f g inv h = ground arith
step-Inv remote_closes f g inv h = ground arith
step-Inv context_ends f g inv h = ground arith
step-Inv timer_fires f g inv h = ground arith
step-Inv take_input f g inv h = ground arith
step-Inv take_output f g inv h = ground arith
step-Inv take_remote f g inv h = ground arith
step-Inv see_context f g inv h = ground arith
step-Inv see_timer f g inv h = ground arith
step-Inv leave f g inv h = ground arith

pub Reach-Inv : {f : Forwarding} → Reach f → Inv f
Reach-Inv start = begun-Inv
Reach-Inv (later m r e) = step-Inv m _ _ (Reach-Inv r) e
