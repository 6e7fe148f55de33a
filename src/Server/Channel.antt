-- ===== src/Server/Channel.antt =====
-- internal/server/server.go: what `handleConn` does with a channel, and `handleGlobalRequests`.
mod Examples
use voidshell.Server.Wire.{Request, Wire, reply}
use voidshell.Server.Session.{serve_requests, no_terminal}
use voidshell.Server.Effects.{
  Effect, accept, reject, acquire, forward, release, close_channel, Trace, Phase, fresh, freed,
  told, phases, advance,
}
use voidshell.Server.Run
use voidshell.Server.Run.{handle_session}
use voidshell.Server.Relay
use voidshell.Server.Relay.{proxy_session}
use voidshell.Server.Direct
use voidshell.Server.Direct.{handle_direct_tcpip, handle_direct_tcpip-IsLocal, Untouched, Forwarded}
use voidshell.Server.Exit.{sessions_in_order, phase_of}
use voidshell.Prelude.{
  ◌≡◌, ◌≢◌, refl, Bool, true, false, Option, none, some, List, [], ◌∷◌, Text, codes, text_eq,
  if◌then◌else◌, inl, inr, ◌⊎◌, sym, ◌∙◌, ap, Bool-cases,
}

-- A channel that a client opens: its type, its extra data, and its requests until it is closed.
pub record NewChannel : Type 0 where
  pub channel_type : Text
  pub extra_data : Text
  pub requests : List Request

-- What the calls made for a channel answer, for each kind of channel; whether a session's channel
-- is accepted, and whether the backend has direct SSH.
pub record Answers : Type 0 where
  pub accepts : Bool
  pub direct_ssh : Bool
  pub run : Run.Answers
  pub relay : Relay.Answers
  pub direct : Direct.Answers

-- The beginning of `handleSession`.
unfoldable pub open_session : Wire → Answers → List Request → Trace
open_session wire a reqs = elim a.accepts [
  | false ↦ []
  | true ↦ elim a.direct_ssh [
    | true ↦ proxy_session a.relay
    | false ↦ handle_session wire a.run reqs
  ]
]

-- The body of the loop over the channels in `handleConn`.
unfoldable pub handle_channel : Wire → Answers → NewChannel → Trace
handle_channel wire a ch =
    if text_eq ch.channel_type (codes "direct-tcpip")
    then handle_direct_tcpip wire a.direct ch.extra_data
    else if text_eq ch.channel_type (codes "session")
    then open_session wire a ch.requests
    else reject ∷ []

-- `handleGlobalRequests`: the replies.
unfoldable pub handle_global_requests : List Request → List Bool
unfolding reply
handle_global_requests [] = []
handle_global_requests (req ∷ reqs) =
    reply req (text_eq req.kind (codes "keepalive@openssh.com")) (handle_global_requests reqs)

-- The effects come in an order that the phases allow.
abbrev pub IsOrderly : Trace → Type 0
IsOrderly tr = (ph : Phase) × (phases fresh tr ≡ some ph) × (ph ≢ Phase.held)

not_held {ℓ} : {A : Type ℓ} (o : Option A) → phase_of o ≢ Phase.held
not_held none q = cc
not_held (some a) q = cc

session-IsOrderly :
    (wire : Wire) (a : Answers) (reqs : List Request) → IsOrderly (open_session wire a reqs)
unfolding open_session phases
session-IsOrderly wire a reqs = by_backend a.accepts a.direct_ssh
  where
    by_backend :
        (accepts direct_ssh : Bool)
        → IsOrderly (elim accepts [
          | false ↦ []
          | true ↦ elim direct_ssh [
            | true ↦ proxy_session a.relay
            | false ↦ handle_session wire a.run reqs
          ]
        ])
    by_backend false _ = (fresh, refl, λ q. cc)
    by_backend true true = elim (sessions_in_order.1 a.relay) [
      | inl e ↦ (told, e, λ q. cc)
      | inr (e, c, x) ↦ (freed, e, λ q. cc)
    ]
    by_backend true false = (
      phase_of (serve_requests wire reqs no_terminal).started,
      sessions_in_order.0 wire a.run reqs,
      not_held (serve_requests wire reqs no_terminal).started,
    )

direct-IsOrderly :
    (wire : Wire) (a : Direct.Answers) (extra : Text) → IsOrderly (handle_direct_tcpip wire a extra)
unfolding phases advance
direct-IsOrderly wire a extra = elim (handle_direct_tcpip-IsLocal wire a extra) [
  | inl (inl e) ↦ (fresh, rw e refl, λ q. cc)
  | inl (inr e) ↦ (freed, rw e refl, λ q. cc)
  | inr (msg, m, local, inl e) ↦ (freed, rw e refl, λ q. cc)
  | inr (msg, m, local, inr e) ↦ (freed, rw e refl, λ q. cc)
]

-- Whatever channel a client opens, and whatever the calls made for it answer: the workspace is used
-- only between its acquisition and its one release; it is released before the channel is done with;
-- and the client is told how a program ended at most once, after the release.
pub handle_channel-IsOrderly :
    (wire : Wire) (a : Answers) (ch : NewChannel) → IsOrderly (handle_channel wire a ch)
unfolding handle_channel phases advance
handle_channel-IsOrderly wire a ch =
    elim (Bool-cases (text_eq ch.channel_type (codes "direct-tcpip"))) [
      | inl e ↦ rw e (direct-IsOrderly wire a.direct ch.extra_data)
      | inr e ↦ elim (Bool-cases (text_eq ch.channel_type (codes "session"))) [
        | inl f ↦ rw (e, f) (session-IsOrderly wire a ch.requests)
        | inr f ↦ rw (e, f) (freed, refl, λ q. cc)
      ]
    ]
