-- ===== src/Server/Connection/Guarded.antt =====
-- What `handleConn` keeps of its connection, its context and its handlers.
use voidshell.Prelude.{
  refl, ◌≡◌, none, some, Option, Text, true, false, Bool, arith, subst, ◌⊎◌, Bool-cases, inl, inr,
}
use voidshell.Server.Connection.{
  taken, Phase, starting, handshaking, clearing, launching, serving, cancelling, joining,
  closing_ssh, leaving, closing_conn, returned, Handling, go_on, end_handshake, take_channel, Move,
  goes_on, handler_returns, watcher_closes, waiter_cancels, context_ends, handshake_ends,
  channel_comes, step, Reach, start, later,
}

-- Where the deadline of the handshake is set.
abbrev is_guarded : Phase → Bool
is_guarded handshaking = true
is_guarded clearing = true
is_guarded _ = false

-- Where it is cleared, or the handler has ended.
abbrev is_past : Phase → Bool
is_past launching = true
is_past serving = true
is_past cancelling = true
is_past joining = true
is_past closing_ssh = true
is_past _ = false

-- Before and after the handshake.
abbrev is_early : Phase → Bool
is_early starting = true
is_early handshaking = true
is_early _ = false

abbrev is_inside : Phase → Bool
is_inside clearing = true
is_inside launching = true
is_inside serving = true
is_inside cancelling = true
is_inside joining = true
is_inside closing_ssh = true
is_inside _ = false

-- Where handlers of channels may run.
abbrev may_handle : Phase → Bool
may_handle serving = true
may_handle cancelling = true
may_handle joining = true
may_handle _ = false

-- Where the context has been cancelled by `handleConn`.
abbrev has_cancelled : Phase → Bool
has_cancelled joining = true
has_cancelled closing_ssh = true
has_cancelled closing_conn = true
has_cancelled returned = true
has_cancelled _ = false

abbrev has_left : Phase → Bool
has_left leaving = true
has_left closing_conn = true
has_left returned = true
has_left _ = false

pub record Inv (s : Handling) : Type 0 where
  pub guarded : is_guarded s.phase ≡ true → s.deadline ≡ true
  pub cleared : is_past s.phase ≡ true → s.deadline ≡ false
  pub early : is_early s.phase ≡ true → s.authenticated ≡ false
  pub inside : is_inside s.phase ≡ true → s.authenticated ≡ true
  pub idle : may_handle s.phase ≡ false → s.handlers ≡ 0
  pub over : has_cancelled s.phase ≡ true → s.cancelled ≡ true
  pub shut : has_left s.phase ≡ true → s.ssh_closed ≡ s.authenticated
  pub unshut : has_left s.phase ≡ false → s.ssh_closed ≡ false
  pub watched : s.conn_closed ≡ false → s.watching ≡ true
  pub hung_up : s.phase ≡ returned → s.conn_closed ≡ true

go_on-Inv : (s s' : Handling) (p : Phase) → s.phase ≡ p → Inv s → go_on s p ≡ some s' → Inv s'
unfolding go_on
go_on-Inv s s' starting m inv h = ground arith
go_on-Inv s s' handshaking m inv h = cc
go_on-Inv s s' clearing m inv h = ground arith
go_on-Inv s s' launching m inv h = ground arith
go_on-Inv s s' serving m inv h = cc
go_on-Inv s s' cancelling m inv h = ground arith
go_on-Inv s s' joining m inv h = ground arith
go_on-Inv s s' closing_ssh m inv h = ground arith
go_on-Inv s s' leaving m inv h = ground arith
go_on-Inv s s' closing_conn m inv h = ground arith
go_on-Inv s s' returned m inv h = cc

end_handshake-Inv :
    (ok : Bool) (s s' : Handling) (p : Phase)
    → s.phase ≡ p
    → Inv s
    → end_handshake ok s p ≡ some s'
    → Inv s'
unfolding end_handshake
end_handshake-Inv true s s' handshaking m inv h = ground arith
end_handshake-Inv false s s' handshaking m inv h = ground arith
end_handshake-Inv ok s s' _ m inv h = cc

taken-Inv : (kind : Option Text) (s : Handling) → s.phase ≡ serving → Inv s → Inv (taken kind s)
unfolding taken
taken-Inv none s m inv = ground arith
taken-Inv (some kind) s m inv = ground arith

take_channel-Inv :
    (kind : Option Text) (s s' : Handling) (p : Phase)
    → s.phase ≡ p
    → Inv s
    → take_channel kind s p ≡ some s'
    → Inv s'
unfolding take_channel
take_channel-Inv kind s s' serving m inv h =
    let same : taken kind s ≡ s' = cc in subst Inv same (taken-Inv kind s m inv)
take_channel-Inv kind s s' _ m inv h = cc

step-Inv : (m : Move) (s s' : Handling) → Inv s → step m s ≡ some s' → Inv s'
unfolding step
step-Inv goes_on s s' inv h = go_on-Inv s s' s.phase refl inv h
step-Inv (handshake_ends ok) s s' inv h = end_handshake-Inv ok s s' s.phase refl inv h
step-Inv (channel_comes kind) s s' inv h = take_channel-Inv kind s s' s.phase refl inv h
step-Inv handler_returns s s' inv h = ground arith
step-Inv watcher_closes s s' inv h = ground arith
step-Inv waiter_cancels s s' inv h = ground arith
step-Inv context_ends s s' inv h = ground arith

pub Reach-Inv : {s : Handling} → Reach s → Inv s
Reach-Inv start = ground arith
Reach-Inv (later m r e) = step-Inv m _ _ (Reach-Inv r) e

-- Between any two steps of a call of `handleConn`, its goroutines and its handlers: while a client
-- is being authenticated, its connection has a deadline, and no handler runs; while channels are
-- taken, the client has been authenticated and there is none. When the handlers are waited for,
-- their context has ended. Once it has ended, the connection is closed, or the goroutine that
-- watches it can close it. When the call has returned, no handler runs, the context has ended, the
-- connection is closed, and the SSH connection too if there is one.
pub handle_conn-guarded :
    {s : Handling}
    → Reach s
    → (s.phase ≡ handshaking → (s.deadline ≡ true) × (s.handlers ≡ 0))
      × (s.phase ≡ serving → (s.authenticated ≡ true) × (s.deadline ≡ false))
      × (s.phase ≡ joining → s.cancelled ≡ true)
      × (s.cancelled ≡ true
          → (s.conn_closed ≡ true)
            ⊎ (s' : Handling) × (step watcher_closes s ≡ some s') × (s'.conn_closed ≡ true))
      × (s.phase ≡ returned
          → (s.handlers ≡ 0)
            × (s.cancelled ≡ true)
            × (s.conn_closed ≡ true)
            × (s.ssh_closed ≡ s.authenticated))
unfolding step
handle_conn-guarded {s} r =
    let inv = Reach-Inv r in
    (
      λ p. ground arith,
      λ p. ground arith,
      λ p. ground arith,
      λ c. elim (Bool-cases s.conn_closed) [
        | inl e ↦ inl e
        | inr e ↦
            let watched = inv.watched e in
            inr (record s { watching = false; conn_closed = true }, rw (watched, c) refl, refl)
      ],
      λ p. ground arith,
    )
