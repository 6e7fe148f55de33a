-- ===== src/Server/Relay.antt =====
-- internal/server/sshproxy.go: how a session that the workspace's SSH server runs begins and ends.
use voidshell.Server.Wire.{Request, reply}
use voidshell.Server.Effects.{
  accept, acquire, open_ssh, open_remote, relay, report, exit_status, exit_request, close_remote,
  close_ssh, close_channel, Trace, then_do, release_once,
}
use voidshell.Prelude.{
  Bool, true, false, ◌||◌, Option, none, some, List, [], ◌∷◌, codes, text_eq, if◌then◌else◌,
}

-- What the calls of a proxied session answer: whether the workspace is acquired, the SSH connection
-- and its channel are opened; the requests of the workspace's server; and whether the context has
-- ended after them.
pub record Answers : Type 0 where
  pub acquires : Bool
  pub opens_ssh : Bool
  pub opens_remote : Bool
  pub remote_requests : List Request
  pub cancelled : Bool

abbrev pub is_exit : Request → Bool
is_exit req = text_eq req.kind (codes "exit-status") || text_eq req.kind (codes "exit-signal")

-- The loop over the requests of the workspace's server: the last exit request, and the replies.
unfoldable pub take_exit : Option Request → List Request → Option Request × List Bool
unfolding reply
take_exit exit [] = (exit, [])
take_exit exit (req ∷ reqs) =
    let (last, replies) = take_exit (if is_exit req then some req else exit) reqs in
    (last, reply req false replies)

-- What the client is told at the end.
unfoldable pub told_exit : Option Request → Bool → Trace → Trace
told_exit (some req) cancelled tr = then_do (exit_request req) tr
told_exit none true tr = tr
told_exit none false tr = then_do (exit_status 1) tr

unfoldable pub tell_exit : Answers → Trace → Trace
unfolding take_exit told_exit
tell_exit a tr = told_exit (take_exit none a.remote_requests).0 a.cancelled tr

-- `proxySession`, in the accepted channel. The deferred calls close the SSH channel and connection,
-- and release again.
unfoldable pub proxy_session : Answers → Trace
unfolding tell_exit release_once
proxy_session a = elim a.acquires [
  | false ↦ accept ∷ acquire false ∷ report ∷ exit_status 1 ∷ close_channel ∷ []
  | true ↦ elim a.opens_ssh [
    | false ↦ then_do close_channel (
        release_once
          (then_do (exit_status 1) (release_once (accept ∷ acquire true ∷ open_ssh ∷ report ∷ []))))
    | true ↦ elim a.opens_remote [
      | false ↦ then_do close_channel (
          release_once (
            then_do close_ssh (
              then_do (exit_status 1)
                (release_once (accept ∷ acquire true ∷ open_ssh ∷ open_remote ∷ report ∷ [])))))
      | true ↦ then_do close_channel (
          release_once (
            then_do close_ssh (
              then_do close_remote (
                tell_exit a
                  (release_once (accept ∷ acquire true ∷ open_ssh ∷ open_remote ∷ relay ∷ []))))))
    ]
  ]
]
