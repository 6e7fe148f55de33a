-- ===== src/K8s/DirectForward.antt =====
-- internal/k8s/ssh.go: `forwardSSH` from its first call to its deferred calls, with the function
-- that `context.AfterFunc` registers, one step at a time. The loop in it is the one of
-- K8s.ForwardSsh.
pub mod Invariant
pub mod Closes
mod Examples
use voidshell.Prelude.{Bool, true, false, ◌&&◌, Option, none, some, if◌then◌else◌, ◌≡◌}
use voidshell.K8s.ForwardSsh
use voidshell.K8s.ForwardSsh.{Forwarding, begun}

-- At `OpenWorkspaceSSH`; at `AfterFunc`; at `OpenChannel`; at `stop()`, and the look at `ctx.Err()`
-- after it; in the loop; at the deferred calls, `conn.Close()`, `stop()` and `client.Close()`; and
-- returned.
pub data Phase : Type 0 where
  dialling arming opening disarming checking : Phase
  looping closing_conn stopping closing_client returned : Phase

-- The registered function: not yet registered; waiting for the context; started, in a goroutine of
-- its own; it has closed the client; or `stop()` has come first.
pub data AfterFunc : Type 0 where
  unset armed started ran stopped : AfterFunc

-- What the call returns: the error of `OpenWorkspaceSSH` or `OpenChannel`, the context's error
-- before the loop, or what the loop has come to.
pub data Answer : Type 0 where
  no_client no_channel cancelled : Answer
  looped : ForwardSsh.Outcome → Answer

pub record Direct : Type 0 where
  pub phase : Phase
  pub after : AfterFunc
  pub context_done : Bool
  pub has_client : Bool
  pub has_conn : Bool
  pub client_closed : Bool
  pub conn_closed : Bool
  pub forwarding : Forwarding
  pub answer : Option Answer

abbrev pub called : Direct
called = record {
  phase = dialling;
  after = unset;
  context_done = false;
  has_client = false;
  has_conn = false;
  client_closed = false;
  conn_closed = false;
  forwarding = begun;
  answer = none;
}

-- `stop()` keeps a function from running that has not been started.
abbrev pub stop : AfterFunc → AfterFunc
stop armed = stopped
stop unset = unset
stop started = started
stop ran = ran
stop stopped = stopped

-- The loop has returned.
unfoldable pub leave_loop : Direct → Option ForwardSsh.Outcome → Option Direct
leave_loop s none = none
leave_loop s (some o) = some (record s { phase = closing_conn; answer = some (looped o) })

-- `ok` is whether the call at hand succeeds, where one is.
unfoldable pub main_step : Bool → Direct → Phase → Option Direct
unfolding leave_loop
main_step ok s dialling = some (
    if ok
    then record s { phase = arming; has_client = true }
    else record s { phase = returned; answer = some no_client })
main_step ok s arming = some (record s { phase = opening; after = armed })
main_step ok s opening = some (
    if ok
    then record s { phase = disarming; has_conn = true }
    else record s { phase = stopping; answer = some no_channel })
main_step ok s disarming = some (record s { phase = checking; after = stop s.after })
main_step ok s checking = some (
    if s.context_done
    then record s { phase = closing_conn; answer = some cancelled }
    else record s { phase = looping; forwarding = begun })
main_step ok s looping = leave_loop s s.forwarding.result
main_step ok s closing_conn = some (record s { phase = stopping; conn_closed = true })
main_step ok s stopping = some (record s { phase = closing_client; after = stop s.after })
main_step ok s closing_client = some (record s { phase = returned; client_closed = true })
main_step ok s returned = none

abbrev pub is_looping : Phase → Bool
is_looping looping = true
is_looping _ = false

abbrev pub ends_context : ForwardSsh.Move → Bool
ends_context ForwardSsh.context_ends = true
ends_context _ = false

abbrev pub forwarded : Direct → Bool → Option Forwarding → Option Direct
forwarded s ended none = none
forwarded s ended (some f) =
    some (record s { forwarding = f; context_done = if ended then true else s.context_done })

pub data Move : Type 0 where
  on_main : (ok : Bool) → Move
  in_loop : ForwardSsh.Move → Move
  context_ends func_starts func_closes : Move

-- One step of `forwardSSH`, of its loop with the goroutines of it, or of the registered function;
-- or the end of the context, which the loop sees if it runs.
unfoldable pub step : Move → Direct → Option Direct
unfolding main_step
step (on_main ok) s = main_step ok s s.phase
step (in_loop m) s =
    if is_looping s.phase
    then forwarded s (ends_context m) (ForwardSsh.step m s.forwarding)
    else none
step context_ends s = if is_looping s.phase then none else some (record s { context_done = true })
step func_starts s = elim s.after [
  | armed ↦ if s.context_done then some (record s { after = started }) else none
  | _ ↦ none
]
step func_closes s = elim s.after [
  | started ↦ some (record s { after = ran; client_closed = true })
  | _ ↦ none
]

pub data Reach : Direct → Type 0 where
  start : Reach called
  later : {s s' : Direct} (m : Move) → Reach s → step m s ≡ some s' → Reach s'
