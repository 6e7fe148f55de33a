-- ===== src/Server/Direct.antt =====
-- internal/server/portfwd.go: a channel that forwards a connection to a port of the workspace.
use voidshell.Server.Wire.{DirectTcpIp, Wire}
use voidshell.Server.Session.{u16}
use voidshell.Server.Effects.{accept, reject, acquire, forward, release, close_channel, Trace}
use voidshell.Prelude.{
  ℕ, ◌≤◌, ◌<◌, ◌≡◌, ◌⊎◌, inl, inr, refl, Bool, true, false, not, ◌||◌, Option, none, some, [], ◌∷◌,
  Text, codes, text_eq, text_eq→eq, ◌==◌, ltb, if◌then◌else◌, arith, Bool-cases,
}

-- What the calls answer: whether the backend can forward, the channel is accepted, and the
-- workspace acquired.
pub record Answers : Type 0 where
  pub can_forward : Bool
  pub accepts : Bool
  pub acquires : Bool

abbrev pub is_loopback : Text → Bool
is_loopback host =
    text_eq host (codes "localhost")
    || text_eq host (codes "127.0.0.1")
    || text_eq host (codes "::1")

-- After the checks; the lease is released, and the channel closed, when `Forward` has returned.
unfoldable pub forward_channel : Answers → ℕ → Trace
forward_channel a port =
    if not a.can_forward
    then reject ∷ []
    else if not a.accepts
    then []
    else if not a.acquires
    then accept ∷ acquire false ∷ close_channel ∷ []
    else accept ∷ acquire true ∷ forward port ∷ release ∷ close_channel ∷ []

unfoldable pub check_direct : Answers → Option DirectTcpIp → Trace
unfolding forward_channel
check_direct a none = reject ∷ []
check_direct a (some msg) =
    if msg.port == 0 || ltb 65535 msg.port
    then reject ∷ []
    else if not (is_loopback msg.host)
    then reject ∷ []
    else forward_channel a (u16 msg.port)

-- `handleDirectTCPIP`
unfoldable pub handle_direct_tcpip : Wire → Answers → Text → Trace
unfolding check_direct
handle_direct_tcpip wire a extra = check_direct a (wire.read_direct extra)

-- The request names a port of the workspace's own loopback interface.
pub record IsLocal (msg : DirectTcpIp) : Type 0 where
  pub host :
      (msg.host ≡ codes "localhost") ⊎ (msg.host ≡ codes "127.0.0.1") ⊎ (msg.host ≡ codes "::1")
  pub positive : 0 < msg.port
  pub bounded : msg.port ≤ 65535

-- The effects of a channel that is not accepted.
abbrev pub Untouched : Trace → Type 0
Untouched tr = (tr ≡ []) ⊎ (tr ≡ reject ∷ [])

-- The effects of a channel that is accepted, for a port.
abbrev pub Forwarded : ℕ → Trace → Type 0
Forwarded port tr =
    (tr ≡ accept ∷ acquire false ∷ close_channel ∷ [])
    ⊎ (tr ≡ accept ∷ acquire true ∷ forward port ∷ release ∷ close_channel ∷ [])

loopback_hosts :
    (host : Text)
    → is_loopback host ≡ true
    → (host ≡ codes "localhost") ⊎ (host ≡ codes "127.0.0.1") ⊎ (host ≡ codes "::1")
loopback_hosts host h = elim (Bool-cases (text_eq host (codes "localhost"))) [
  | inl e ↦ inl (text_eq→eq host _ e)
  | inr e ↦ elim (Bool-cases (text_eq host (codes "127.0.0.1"))) [
    | inl f ↦ inr (inl (text_eq→eq host _ f))
    | inr f ↦ inr (inr (text_eq→eq host _ (ground arith)))
  ]
]

forward_channel_cases :
    (a : Answers) (port : ℕ)
    → Untouched (forward_channel a port) ⊎ Forwarded port (forward_channel a port)
unfolding forward_channel
forward_channel_cases a port = ground arith

checked_direct :
    (a : Answers) (msg : DirectTcpIp)
    → Untouched (check_direct a (some msg))
      ⊎ IsLocal msg × Forwarded msg.port (check_direct a (some msg))
unfolding check_direct
checked_direct a msg = elim (Bool-cases (msg.port == 0 || ltb 65535 msg.port)) [
  | inl e ↦ rw e (inl (inr refl))
  | inr e ↦ elim (Bool-cases (is_loopback msg.host)) [
    | inr f ↦ rw (e, f) (inl (inr refl))
    | inl f ↦
        let same : u16 msg.port ≡ msg.port = ground arith in
        rw (e, f, same)
          (elim (forward_channel_cases a msg.port) [
            | inl untouched ↦ inl untouched
            | inr forwarded ↦ inr (
              record {
                host = loopback_hosts msg.host f;
                positive = ground arith;
                bounded = ground arith;
              },
              forwarded,
            )
          ])
  ]
]

-- A channel for a forwarded connection is not accepted, or its request can be read and names
-- `localhost`, `127.0.0.1` or `::1` with a port from 1 to 65535. Then the workspace is acquired,
-- and the connection is forwarded to that very port, if the workspace was acquired; the lease is
-- released before the channel is closed.
pub handle_direct_tcpip-IsLocal :
    (wire : Wire) (a : Answers) (extra : Text)
    → Untouched (handle_direct_tcpip wire a extra)
      ⊎ (msg : DirectTcpIp) × (wire.read_direct extra ≡ some msg)
        × IsLocal msg
        × Forwarded msg.port (handle_direct_tcpip wire a extra)
unfolding handle_direct_tcpip
handle_direct_tcpip-IsLocal wire a extra = by_message (wire.read_direct extra)
  where
    by_message :
        (o : Option DirectTcpIp)
        → Untouched (check_direct a o)
          ⊎ (msg : DirectTcpIp) × (o ≡ some msg)
            × IsLocal msg
            × Forwarded msg.port (check_direct a o)
    by_message none = inl (inr refl)
    by_message (some msg) = elim (checked_direct a msg) [
      | inl untouched ↦ inl untouched
      | inr (local, forwarded) ↦ inr (msg, refl, local, forwarded)
    ]
