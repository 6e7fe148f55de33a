-- ===== src/Server/Connection/Refines.antt =====
-- `handleConn` in detail, and as a connection of `Serve`.
use voidshell.Prelude.{
  refl, ◌≡◌, ◌⊎◌, inl, inr, none, some, Option, Text, true, false, Bool, arith, Bool-cases,
  if◌then◌else◌, subst,
}
use voidshell.Server.Listen
use voidshell.Server.Listen.{
  Conn, ConnMove, conn_step, handshake_fails, handshake_ends, offers, channels_end, handler_returns,
  conn_returns,
}
use voidshell.Server.Connection
use voidshell.Server.Connection.{
  taken, Phase, starting, handshaking, clearing, launching, serving, cancelling, joining,
  closing_ssh, leaving, closing_conn, returned, Handling, go_on, end_handshake, take_channel, Move,
  goes_on, watcher_closes, waiter_cancels, context_ends, channel_comes, step, Reach,
}
use voidshell.Server.Connection.Guarded.{Inv, Reach-Inv}

-- How `Serve` sees it.
abbrev seen_left : Handling → Conn
seen_left s = if s.authenticated then Listen.waiting s.handlers else Listen.handshaking

abbrev seen_at : Handling → Phase → Conn
seen_at s starting = Listen.handshaking
seen_at s handshaking = Listen.handshaking
seen_at s clearing = Listen.serving s.handlers
seen_at s launching = Listen.serving s.handlers
seen_at s serving = Listen.serving s.handlers
seen_at s leaving = seen_left s
seen_at s closing_conn = seen_left s
seen_at s returned = Listen.closed s.handlers
seen_at s _ = Listen.waiting s.handlers

abbrev pub seen : Handling → Conn
seen s = seen_at s s.phase

-- Nothing changes for `Serve`, or it is one step of the connection.
abbrev Moves : Conn → Conn → Type 0
Moves c c' = (c' ≡ c) ⊎ (e : ConnMove) × (conn_step e c ≡ some c')

go_on-Moves :
    (s s' : Handling) (p : Phase)
    → s.phase ≡ p
    → Inv s
    → go_on s p ≡ some s'
    → Moves (seen_at s p) (seen s')
unfolding go_on conn_step
go_on-Moves s s' starting m inv h = ground arith
go_on-Moves s s' handshaking m inv h = cc
go_on-Moves s s' clearing m inv h = ground arith
go_on-Moves s s' launching m inv h = ground arith
go_on-Moves s s' serving m inv h = cc
go_on-Moves s s' cancelling m inv h = ground arith
go_on-Moves s s' joining m inv h = ground arith
go_on-Moves s s' closing_ssh m inv h = ground arith
go_on-Moves s s' leaving m inv h = ground arith
go_on-Moves s s' closing_conn m inv h = elim (Bool-cases s.authenticated) [
  | inl e ↦ inr (conn_returns, rw e (ground arith))
  | inr e ↦ inr (handshake_fails, rw e (ground arith))
]
go_on-Moves s s' returned m inv h = cc

end_handshake-Moves :
    (ok : Bool) (s s' : Handling) (p : Phase)
    → s.phase ≡ p
    → Inv s
    → end_handshake ok s p ≡ some s'
    → Moves (seen_at s p) (seen s')
unfolding end_handshake conn_step
end_handshake-Moves true s s' handshaking m inv h = inr (handshake_ends, ground arith)
end_handshake-Moves false s s' handshaking m inv h = inl (ground arith)
end_handshake-Moves ok s s' _ m inv h = cc

taken-Moves :
    (kind : Option Text) (s : Handling)
    → s.phase ≡ serving
    → Moves (seen_at s serving) (seen (taken kind s))
unfolding taken conn_step
taken-Moves none s m = inr (channels_end, refl)
taken-Moves (some kind) s m = inr (offers kind, ground arith)

take_channel-Moves :
    (kind : Option Text) (s s' : Handling) (p : Phase)
    → s.phase ≡ p
    → take_channel kind s p ≡ some s'
    → Moves (seen_at s p) (seen s')
unfolding take_channel
take_channel-Moves kind s s' serving m h =
    let same : taken kind s ≡ s' = cc in
    subst (λ x. Moves (seen_at s serving) (seen x)) same (taken-Moves kind s m)
take_channel-Moves kind s s' _ m h = cc

returned-Moves :
    (s s' : Handling) (p : Phase)
    → s.phase ≡ p
    → Inv s
    → step Connection.handler_returns s ≡ some s'
    → Moves (seen_at s p) (seen s')
unfolding step conn_step
returned-Moves s s' serving m inv h = inr (Listen.handler_returns, ground arith)
returned-Moves s s' cancelling m inv h = inr (Listen.handler_returns, ground arith)
returned-Moves s s' joining m inv h = inr (Listen.handler_returns, ground arith)
returned-Moves s s' _ m inv h = ground arith

step-Moves : (m : Move) (s s' : Handling) → Inv s → step m s ≡ some s' → Moves (seen s) (seen s')
unfolding step
step-Moves goes_on s s' inv h = go_on-Moves s s' s.phase refl inv h
step-Moves (Connection.handshake_ends ok) s s' inv h =
    end_handshake-Moves ok s s' s.phase refl inv h
step-Moves (channel_comes kind) s s' inv h = take_channel-Moves kind s s' s.phase refl h
step-Moves Connection.handler_returns s s' inv h = returned-Moves s s' s.phase refl inv h
step-Moves watcher_closes s s' inv h = inl (ground arith)
step-Moves waiter_cancels s s' inv h = inl (ground arith)
step-Moves context_ends s s' inv h = inl (ground arith)

-- A step of a call of `handleConn`, its goroutines and its handlers is, for `Serve`, one step of
-- the connection or none.
pub handle_conn-Refines :
    (m : Move) {s s' : Handling}
    → Reach s
    → step m s ≡ some s'
    → (seen s' ≡ seen s) ⊎ (e : ConnMove) × (conn_step e (seen s) ≡ some (seen s'))
handle_conn-Refines m {s} {s'} r h = step-Moves m s s' (Reach-Inv r) h
