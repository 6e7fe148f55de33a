-- ===== src/Server/Connection.antt =====
-- internal/server/server.go: `handleConn` with its goroutines and the deadline of its connection,
-- one step at a time. The network, the SSH library and the handlers of channels decide which step
-- comes.
pub mod Guarded
pub mod Refines
mod Examples
use voidshell.Prelude.{
  ℕ, ◌+◌, ◌-◌, ◌==◌, Bool, true, false, ◌&&◌, Option, none, some, Text, if◌then◌else◌, ◌≡◌,
}
use voidshell.Server.Listen.{is_supported}

-- Where `handleConn` stands: at `conn.SetDeadline` with 15 seconds, at `NewServerConn`, at
-- `conn.SetDeadline` with no time, at the `go` statement with `sshConn.Wait()`, in the loop over
-- the channels, at `cancel()` after it, at `channels.Wait()`, at its deferred calls
-- `sshConn.Close()`, `cancel()` and `conn.Close()`, and returned.
pub data Phase : Type 0 where
  starting handshaking clearing launching serving : Phase
  cancelling joining closing_ssh leaving closing_conn returned : Phase

-- `watching` is the goroutine that closes the connection when the context has ended, `waiting` the
-- one that ends the context when the SSH connection has ended. `authenticated` says whether
-- `NewServerConn` has succeeded, and `handlers` how many goroutines of channels run.
pub record Handling : Type 0 where
  pub phase : Phase
  pub deadline : Bool
  pub authenticated : Bool
  pub handlers : ℕ
  pub cancelled : Bool
  pub watching : Bool
  pub waiting : Bool
  pub conn_closed : Bool
  pub ssh_closed : Bool

-- The first goroutine has been started.
abbrev pub connected : Handling
connected = record {
  phase = starting;
  deadline = false;
  authenticated = false;
  handlers = 0;
  cancelled = false;
  watching = true;
  waiting = false;
  conn_closed = false;
  ssh_closed = false;
}

-- The steps of `handleConn` that need nothing from outside.
unfoldable pub go_on : Handling → Phase → Option Handling
go_on s starting = some (record s { phase = handshaking; deadline = true })
go_on s clearing = some (record s { phase = launching; deadline = false })
go_on s launching = some (record s { phase = serving; waiting = true })
go_on s cancelling = some (record s { phase = joining; cancelled = true })
go_on s joining = if s.handlers == 0 then some (record s { phase = closing_ssh }) else none
go_on s closing_ssh = some (record s { phase = leaving; ssh_closed = true })
go_on s leaving = some (record s { phase = closing_conn; cancelled = true })
go_on s closing_conn = some (record s { phase = returned; conn_closed = true })
go_on s _ = none

-- `ssh.NewServerConn`: it fails where the client does not authenticate, the deadline passes or the
-- connection is closed.
unfoldable pub end_handshake : Bool → Handling → Phase → Option Handling
end_handshake ok s handshaking = some (
    if ok
    then record s { phase = clearing; authenticated = true }
    else record s { phase = leaving })
end_handshake ok s _ = none

-- The loop over the channels: a channel of another type is rejected.
unfoldable pub taken : Option Text → Handling → Handling
taken none s = record s { phase = cancelling }
taken (some kind) s = if is_supported kind then record s { handlers = s.handlers + 1 } else s

unfoldable pub take_channel : Option Text → Handling → Phase → Option Handling
unfolding taken
take_channel kind s serving = some (taken kind s)
take_channel kind s _ = none

pub data Move : Type 0 where
  goes_on handler_returns watcher_closes waiter_cancels context_ends : Move
  handshake_ends : (ok : Bool) → Move
  channel_comes : (kind : Option Text) → Move

unfoldable pub step : Move → Handling → Option Handling
unfolding go_on end_handshake take_channel
step goes_on s = go_on s s.phase
step (handshake_ends ok) s = end_handshake ok s s.phase
step (channel_comes kind) s = take_channel kind s s.phase
step handler_returns s =
    if s.handlers == 0 then none else some (record s { handlers = s.handlers - 1 })
step watcher_closes s =
    if s.watching && s.cancelled
    then some (record s { watching = false; conn_closed = true })
    else none
step waiter_cancels s =
    if s.waiting then some (record s { waiting = false; cancelled = true }) else none
step context_ends s = some (record s { cancelled = true })

pub data Reach : Handling → Type 0 where
  start : Reach connected
  later : {s s' : Handling} (m : Move) → Reach s → step m s ≡ some s' → Reach s'
