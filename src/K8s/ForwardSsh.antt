-- ===== src/K8s/ForwardSsh.antt =====
-- internal/k8s/ssh.go: the loop of `forwardSSH` with its goroutines, one step at a time.
use voidshell.Prelude.{Bool, true, false, not, ◌&&◌, Option, none, some, Text, if◌then◌else◌, ◌≡◌}
pub mod Invariant
pub mod Results
mod Examples

-- A goroutine and the channel on which it sends its one result: it works, it has sent, or the loop
-- has received an end without an error.
pub data Copy : Type 0 where
  copying taken : Copy
  ended : Option Text → Copy

-- `drainTimer`
pub data Timer : Type 0 where
  unset running expired : Timer

pub data Outcome : Type 0 where
  completed context_ended : Outcome
  copy_failed : Text → Outcome

-- The copies of the input and the output, and the wait for the backend to close the channel;
-- `outputEOF`; whether the context has ended, and whether the loop still watches it
-- (`cancelled != nil`); the timer; and what the call has returned.
pub record Forwarding : Type 0 where
  pub input : Copy
  pub output : Copy
  pub remote : Copy
  pub output_eof : Bool
  pub context_done : Bool
  pub watching : Bool
  pub timer : Timer
  pub result : Option Outcome

abbrev pub begun : Forwarding
begun = record {
  input = copying;
  output = copying;
  remote = copying;
  output_eof = false;
  context_done = false;
  watching = true;
  timer = unset;
  result = none;
}

abbrev pub is_taken : Copy → Bool
is_taken taken = true
is_taken _ = false

-- `inputDone != nil || outputDone != nil || remoteClosed != nil`
abbrev pub goes_on : Forwarding → Bool
goes_on f = not (is_taken f.input && is_taken f.output && is_taken f.remote)

-- What happens next: something around the loop, or a case of its `select`, or its end.
pub data Move : Type 0 where
  input_ends output_ends : Option Text → Move
  output_marked remote_closes context_ends timer_fires : Move
  take_input take_output take_remote see_context see_timer leave : Move

unfoldable pub returns : Outcome → Forwarding → Forwarding
returns o f = record f { result = some o }

-- The goroutines, the context and the timer. The copy of the output stores the flag before it sends
-- an end without an error, and sends an error without storing it.
unfoldable pub around : Move → Forwarding → Option Forwarding
around (input_ends e) f = elim f.input [ copying ↦ some (record f { input = ended e }) | _ ↦ none ]
around output_marked f = elim f.output [
  | copying ↦ if f.output_eof then none else some (record f { output_eof = true })
  | _ ↦ none
]
around (output_ends none) f = elim f.output [
  | copying ↦ if f.output_eof then some (record f { output = ended none }) else none
  | _ ↦ none
]
around (output_ends (some e)) f = elim f.output [
  | copying ↦ if f.output_eof then none else some (record f { output = ended (some e) })
  | _ ↦ none
]
around remote_closes f = elim f.remote [
  | copying ↦ some (record f { remote = ended none })
  | _ ↦ none
]
around context_ends f = if f.context_done then none else some (record f { context_done = true })
around timer_fires f = elim f.timer [ running ↦ some (record f { timer = expired }) | _ ↦ none ]
around _ f = none

-- A case that receives the end of a copy.
unfoldable pub receive : Copy → Forwarding → Forwarding → Option Forwarding
unfolding returns
receive copying f g = none
receive taken f g = none
receive (ended none) f g = some g
receive (ended (some e)) f g = some (returns (copy_failed e) f)

-- The cases of the `select`.
unfoldable pub select : Move → Forwarding → Option Forwarding
unfolding receive returns
select take_input f = receive f.input f (record f { input = taken })
select take_output f = receive f.output f (record f { output = taken })
select take_remote f = receive f.remote f (record f { remote = taken })
select see_context f =
    if f.watching && f.context_done
    then (if f.output_eof
        then some (record f { watching = false; timer = running })
        else some (returns context_ended f))
    else none
select see_timer f = elim f.timer [ expired ↦ some (returns context_ended f) | _ ↦ none ]
select _ f = none

abbrev pub is_around : Move → Bool
is_around (input_ends e) = true
is_around (output_ends e) = true
is_around output_marked = true
is_around remote_closes = true
is_around context_ends = true
is_around timer_fires = true
is_around _ = false

unfoldable pub in_loop : Move → Forwarding → Option Forwarding
unfolding select returns
in_loop leave f = if goes_on f then none else some (returns completed f)
in_loop m f = if goes_on f then select m f else none

-- A step, until the call has returned.
unfoldable pub step : Move → Forwarding → Option Forwarding
unfolding around in_loop
step m f = elim f.result [ some o ↦ none | none ↦ if is_around m then around m f else in_loop m f ]

pub data Reach : Forwarding → Type 0 where
  start : Reach begun
  later : {f g : Forwarding} (m : Move) → Reach f → step m f ≡ some g → Reach g
