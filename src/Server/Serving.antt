-- ===== src/Server/Serving.antt =====
-- internal/server/server.go: `Serve` with its connections in detail, each a call of `handleConn`
-- with its goroutines, one step at a time.
pub mod Refines
mod Examples
use voidshell.Prelude.{
  ℕ, zero, suc, Bool, true, false, not, ◌&&◌, Option, none, some, List, [], ◌∷◌, if◌then◌else◌, ◌≡◌,
}
use voidshell.Server.Listen.{Loop, accepting, joining, returned}
use voidshell.Server.Connection
use voidshell.Server.Connection.{Phase, Handling, connected}

pub record Serving : Type 0 where
  pub context_done : Bool
  pub listener_closed : Bool
  pub loop : Loop
  pub conns : List Handling

abbrev pub serving : Serving
serving = record { context_done = false; listener_closed = false; loop = accepting; conns = [] }

abbrev pub is_returned : Phase → Bool
is_returned Connection.returned = true
is_returned _ = false

-- What `connections.Wait()` waits for.
unfoldable pub all_returned : List Handling → Bool
all_returned [] = true
all_returned (h ∷ conns) = is_returned h.phase && all_returned conns

-- A connection's context is one of `Serve`'s: it ends where that has ended, or by the connection
-- itself.
abbrev pub allowed : Bool → Connection.Move → Bool
allowed ended Connection.context_ends = ended
allowed ended _ = true

unfoldable pub move_conn : Connection.Move → ℕ → List Handling → Option (List Handling)
move_conn e i [] = none
move_conn e zero (h ∷ conns) = elim (Connection.step e h) [
  | none ↦ none
  | some h' ↦ some (h' ∷ conns)
]
move_conn e (suc i) (h ∷ conns) = elim (move_conn e i conns) [
  | none ↦ none
  | some conns' ↦ some (h ∷ conns')
]

pub data Move : Type 0 where
  context_ends listener_closes accepts accept_fails serve_returns : Move
  on_conn : (index : ℕ) → Connection.Move → Move

abbrev pub with_conns : Serving → Option (List Handling) → Option Serving
with_conns s none = none
with_conns s (some conns) = some (record s { conns = conns })

unfoldable pub step : Move → Serving → Option Serving
unfolding move_conn all_returned
step context_ends s = if s.context_done then none else some (record s { context_done = true })
step listener_closes s =
    if s.context_done && not s.listener_closed
    then some (record s { listener_closed = true })
    else none
step accepts s = elim s.loop [
  | accepting ↦ if s.listener_closed then none else some (record s { conns = connected ∷ s.conns })
  | _ ↦ none
]
step accept_fails s = elim s.loop [
  | accepting ↦ some (if s.context_done then record s { loop = joining } else s)
  | _ ↦ none
]
step serve_returns s = elim s.loop [
  | joining ↦ if all_returned s.conns then some (record s { loop = returned }) else none
  | _ ↦ none
]
step (on_conn i e) s =
    if allowed s.context_done e then with_conns s (move_conn e i s.conns) else none

pub data Reach : Serving → Type 0 where
  start : Reach serving
  later : {s s' : Serving} (m : Move) → Reach s → step m s ≡ some s' → Reach s'
