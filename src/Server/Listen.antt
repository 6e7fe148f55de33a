-- ===== src/Server/Listen.antt =====
-- internal/server/server.go: `Serve`, with a goroutine of `handleConn` for each connection and one
-- for each of its channels, one step at a time. The network and the SSH library decide which step
-- comes.
pub mod Returned
mod Examples
use voidshell.Prelude.{
  ℕ, zero, suc, ◌+◌, ◌-◌, Bool, true, false, not, ◌&&◌, ◌||◌, Option, none, some, List, [], ◌∷◌,
  Text, codes, text_eq, ◌==◌, if◌then◌else◌, ◌≡◌,
}

-- A call of `handleConn`: it waits for the handshake; it takes channels, with its handlers that
-- run; no channel comes any more, and it waits for its handlers; or it has returned, with
-- its handlers that still run.
pub data Conn : Type 0 where
  handshaking : Conn
  serving waiting closed : (handlers : ℕ) → Conn

pub data ConnMove : Type 0 where
  handshake_fails handshake_ends channels_end handler_returns conn_returns : ConnMove
  offers : (channel_type : Text) → ConnMove

abbrev pub is_supported : Text → Bool
is_supported kind = text_eq kind (codes "session") || text_eq kind (codes "direct-tcpip")

-- `handleConn`: a channel of another type is rejected, and starts no handler.
unfoldable pub conn_step : ConnMove → Conn → Option Conn
conn_step handshake_fails handshaking = some (closed 0)
conn_step handshake_ends handshaking = some (serving 0)
conn_step (offers kind) (serving n) = some (serving (if is_supported kind then n + 1 else n))
conn_step handler_returns (serving n) = if n == 0 then none else some (serving (n - 1))
conn_step handler_returns (waiting n) = if n == 0 then none else some (waiting (n - 1))
conn_step handler_returns (closed n) = if n == 0 then none else some (closed (n - 1))
conn_step channels_end (serving n) = some (waiting n)
conn_step conn_returns (waiting n) = if n == 0 then some (closed n) else none
conn_step _ _ = none

-- `Serve`: it accepts, waits for its connections, or has returned.
pub data Loop : Type 0 where
  accepting joining returned : Loop

pub record Listening : Type 0 where
  pub context_done : Bool
  pub listener_closed : Bool
  pub loop : Loop
  pub conns : List Conn

abbrev pub listening : Listening
listening = record { context_done = false; listener_closed = false; loop = accepting; conns = [] }

pub data Move : Type 0 where
  context_ends listener_closes accepts accept_fails serve_returns : Move
  on_conn : (index : ℕ) → ConnMove → Move

abbrev pub is_closed : Conn → Bool
is_closed (closed n) = true
is_closed _ = false

-- The handlers of channels that run.
abbrev pub handlers : Conn → ℕ
handlers handshaking = 0
handlers (serving n) = n
handlers (waiting n) = n
handlers (closed n) = n

abbrev pub all_handlers : List Conn → ℕ
all_handlers [] = 0
all_handlers (c ∷ conns) = handlers c + all_handlers conns

-- What `connections.Wait()` waits for.
unfoldable pub all_closed : List Conn → Bool
all_closed [] = true
all_closed (c ∷ conns) = is_closed c && all_closed conns

unfoldable pub move_conn : ConnMove → ℕ → List Conn → Option (List Conn)
unfolding conn_step
move_conn e i [] = none
move_conn e zero (c ∷ conns) = elim (conn_step e c) [ none ↦ none | some c' ↦ some (c' ∷ conns) ]
move_conn e (suc i) (c ∷ conns) = elim (move_conn e i conns) [
  | none ↦ none
  | some conns' ↦ some (c ∷ conns')
]

-- `Serve`: where `Accept` fails, it goes on unless the context has ended.
unfoldable pub step : Move → Listening → Option Listening
unfolding move_conn all_closed
step context_ends s = if s.context_done then none else some (record s { context_done = true })
step listener_closes s =
    if s.context_done && not s.listener_closed
    then some (record s { listener_closed = true })
    else none
step accepts s = elim s.loop [
  | accepting ↦
      if s.listener_closed then none else some (record s { conns = handshaking ∷ s.conns })
  | _ ↦ none
]
step accept_fails s = elim s.loop [
  | accepting ↦ some (if s.context_done then record s { loop = joining } else s)
  | _ ↦ none
]
step serve_returns s = elim s.loop [
  | joining ↦ if all_closed s.conns then some (record s { loop = returned }) else none
  | _ ↦ none
]
step (on_conn i e) s = elim (move_conn e i s.conns) [
  | none ↦ none
  | some conns ↦ some (record s { conns = conns })
]

pub data Reach : Listening → Type 0 where
  start : Reach listening
  later : {s s' : Listening} (m : Move) → Reach s → step m s ≡ some s' → Reach s'
