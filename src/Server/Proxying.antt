-- ===== src/Server/Proxying.antt =====
-- internal/server/sshproxy.go: `proxySession` with its goroutines, one step at a time. The client,
-- the workspace's SSH server and the SSH library decide which step comes.
pub mod Refines
pub mod Pending
mod Examples
use voidshell.Prelude.{
  ℕ, ◌-◌, Bool, true, false, ◌&&◌, Option, none, some, List, [], ◌∷◌, ◌++◌, if◌then◌else◌, ltb,
  ◌==◌, length, ◌≡◌,
}
use voidshell.Server.Wire.{Request}
use voidshell.Server.Effects.{
  Trace, accept, acquire, open_ssh, open_remote, relay, report, exit_status, close_remote,
  close_ssh, close_channel, then_do, release_once,
}
use voidshell.Server.Relay.{is_exit, told_exit}

-- Where `proxySession` itself stands: at `acquireWorkspace`, `OpenWorkspaceSSH` and `OpenChannel`;
-- in the loop over the requests of the workspace's server, with the last exit request; at
-- `<-outputDone`; after the release; and returned.
pub data Main : Type 0 where
  acquiring opening opening_remote returned : Main
  listening joining reporting : (exit : Option Request) → Main

-- The goroutine that reads the client's requests: at the head of its loop, at its `select` with a
-- request, or returned.
pub data Reader : Type 0 where
  reading ended : Reader
  holding : Request → Reader

-- `opened` says whether the channel to the workspace's server was opened, `outputs` are the copies
-- of the two output streams that run, and `passing` says whether the loop over the pending requests
-- runs. `trace` has what was done so far. What was heard of the workspace's server, queued by the
-- reader and taken by the loop are only there for what is stated of them.
pub record Proxying : Type 0 where
  pub main : Main
  pub trace : Trace
  pub heard : List Request
  pub opened : Bool
  pub outputs : ℕ
  pub output_done : Bool
  pub cancelled : Bool
  pub reader : Reader
  pub pending : List Request
  pub passing : Bool
  pub queued : List Request
  pub taken : List Request

abbrev pub accepted : Proxying
accepted = record {
  main = acquiring;
  trace = accept ∷ [];
  heard = [];
  opened = false;
  outputs = 0;
  output_done = false;
  cancelled = false;
  reader = reading;
  pending = [];
  passing = false;
  queued = [];
  taken = [];
}

-- `make(chan *ssh.Request, 16)`
abbrev pub pending_capacity : ℕ
pending_capacity = 16

-- What is decided from outside at a step: whether a call succeeds, and the request that comes,
-- which is none where the channel of requests is closed.
pub record Choice : Type 0 where
  pub succeeds : Bool
  pub request : Option Request

-- The deferred calls come to these effects, and `cancel()`.
unfoldable pub return_with : Trace → Proxying → Proxying
return_with tr s = record s { main = returned; trace = tr; cancelled = true }

abbrev pub later_exit : Option Request → Request → Option Request
later_exit exit req = if is_exit req then some req else exit

-- The calls of `proxySession` itself.
unfoldable pub main_step : Choice → Proxying → Main → Option Proxying
unfolding return_with release_once told_exit
main_step c s acquiring =
    if c.succeeds
    then some (record s { main = opening; trace = then_do (acquire true) s.trace })
    else some (
        return_with
          (then_do close_channel
            (then_do (exit_status 1) (then_do report (then_do (acquire false) s.trace))))
          s)
main_step c s opening =
    if c.succeeds
    then some (record s { main = opening_remote; trace = then_do open_ssh s.trace })
    else some (
        return_with
          (then_do close_channel (
            release_once
              (then_do (exit_status 1) (release_once (then_do report (then_do open_ssh s.trace))))))
          s)
main_step c s opening_remote =
    if c.succeeds
    then some (record s {
      main = listening none;
      trace = then_do open_remote s.trace;
      opened = true;
      outputs = 2;
      passing = true;
    })
    else some (
        return_with
          (then_do close_channel (
            release_once (
              then_do close_ssh (
                then_do (exit_status 1)
                  (release_once (then_do report (then_do open_remote s.trace)))))))
          s)
main_step c s (listening exit) = elim c.request [
  | some req ↦
      some (record s { main = listening (later_exit exit req); heard = s.heard ++ req ∷ [] })
  | none ↦ some (record s { main = joining exit })
]
main_step c s (joining exit) =
    if s.output_done
    then some (record s { main = reporting exit; trace = release_once (then_do relay s.trace) })
    else none
main_step c s (reporting exit) = some (
    return_with
      (then_do close_channel (
        release_once
          (then_do close_ssh (then_do close_remote (told_exit exit s.cancelled s.trace)))))
      s)
main_step c s returned = none

-- The goroutine that reads: its deferred calls cancel the context when it returns. At the `select`
-- it queues its request, where there is room, or sees the end of the context.
unfoldable pub reader_step : Choice → Proxying → Reader → Option Proxying
reader_step c s reading = elim c.request [
  | some req ↦ some (record s { reader = holding req })
  | none ↦ some (record s { reader = ended; cancelled = true })
]
reader_step c s (holding req) =
    if c.succeeds
    then (if ltb (length s.pending) pending_capacity
        then some (record s {
          reader = reading;
          pending = s.pending ++ req ∷ [];
          queued = s.queued ++ req ∷ [];
        })
        else none)
    else if s.cancelled
    then some (record s { reader = ended })
    else none
reader_step c s ended = none

-- The loop over the pending requests takes the next one.
unfoldable pub take_pending : Proxying → List Request → Option Proxying
take_pending s [] = none
take_pending s (req ∷ rest) =
    if s.passing then some (record s { pending = rest; taken = s.taken ++ req ∷ [] }) else none

pub data Move : Type 0 where
  on_main on_reader : Choice → Move
  output_ends outputs_joined takes send_fails context_ends : Move

-- One step of some goroutine, or the end of the context.
unfoldable pub step : Move → Proxying → Option Proxying
unfolding main_step reader_step take_pending
step (on_main c) s = main_step c s s.main
step (on_reader c) s = reader_step c s s.reader
step output_ends s = if ltb 0 s.outputs then some (record s { outputs = s.outputs - 1 }) else none
step outputs_joined s =
    if s.opened && s.outputs == 0 then some (record s { output_done = true }) else none
step takes s = take_pending s s.pending
step send_fails s =
    if s.passing then some (record s { passing = false; cancelled = true }) else none
step context_ends s = some (record s { cancelled = true })

pub data Reach : Proxying → Type 0 where
  start : Reach accepted
  later : {s s' : Proxying} (m : Move) → Reach s → step m s ≡ some s' → Reach s'
