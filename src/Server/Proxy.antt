-- ===== src/Server/Proxy.antt =====
-- internal/server/sshproxy.go: which requests of a session are passed to the workspace's SSH
-- server.
use voidshell.Server.Wire.{Request, Wire, clean_text, clean_pty, can_read, is_sftp, reply}
use voidshell.Prelude.{
  ℕ, ◌+◌, Bool, true, false, not, ◌&&◌, ◌||◌, Option, none, some, List, [], ◌∷◌, codes, text_eq,
  if◌then◌else◌, is_empty,
}

-- `case "shell", "exec", "subsystem"`
unfoldable pub starts_program : Request → Bool
starts_program req =
    text_eq req.kind (codes "shell")
    || text_eq req.kind (codes "exec")
    || text_eq req.kind (codes "subsystem")

unfoldable pub is_pty : Request → Bool
is_pty req = text_eq req.kind (codes "pty-req")

unfoldable pub valid_proxy_request : Wire → Request → Bool → Bool → Bool
valid_proxy_request wire req started pty =
    if text_eq req.kind (codes "pty-req")
    then not started && not pty && clean_pty (wire.read_pty req.payload)
    else if text_eq req.kind (codes "shell")
    then not started && is_empty req.payload
    else if text_eq req.kind (codes "exec")
    then not started && clean_text (wire.read_text req.payload)
    else if text_eq req.kind (codes "subsystem")
    then not started && not pty && is_sftp (wire.read_text req.payload)
    else if text_eq req.kind (codes "window-change")
    then pty && can_read (wire.read_window req.payload)
    else if text_eq req.kind (codes "signal")
    then started && clean_text (wire.read_text req.payload)
    else false

-- `!req.WantReply || ok`: the request counts.
unfoldable pub counts : Request → Bool → Bool
counts req answer = not req.want_reply || answer

-- The loop over the pending requests. The workspace's server answers by what it was sent before and
-- the request; `none` is an error of `SendRequest`, which ends the loop. The result is what was
-- sent, each request with whether it counts, and what the client was replied.
pub record Run : Type 0 where
  pub sent : List (Request × Bool)
  pub replies : List Bool

unfoldable pub add_sent : Request → Bool → Run → Run
add_sent req b run = record run { sent = (req, b) ∷ run.sent }

unfoldable pub add_reply : Request → Bool → Run → Run
unfolding reply
add_reply req ok run = record run { replies = reply req ok run.replies }

-- The two flags after an answer.
unfoldable pub now_started : Bool → Request → Bool → Bool
now_started started req b = started || (b && starts_program req)

unfoldable pub now_pty : Bool → Request → Bool → Bool
now_pty pty req b = pty || (b && is_pty req)

module _ (wire : Wire) (send : List Request → Request → Option Bool) where
  unfoldable pub pass_requests : List Request → Bool → Bool → List Request → Run
  pass_requests before started pty [] = record { sent = []; replies = [] }
  pass_requests before started pty (req ∷ rest) =
      let skipped = pass_requests before started pty rest in
      elim (valid_proxy_request wire req started pty) [
        | false ↦ add_reply req false skipped
        | true ↦ elim (send before req) [
          | none ↦ record { sent = []; replies = [] }
          | some answer ↦ add_sent req (counts req answer) (
              add_reply req answer (
                pass_requests (req ∷ before) (now_started started req (counts req answer))
                  (now_pty pty req (counts req answer)) rest))
        ]
      ]

-- Of the requests that were sent and count, how many start a program, and how many ask for a
-- terminal.
unfoldable pub count_starts : List (Request × Bool) → ℕ
count_starts [] = 0
count_starts ((req, b) ∷ rest) =
    let n = count_starts rest in if b && starts_program req then n + 1 else n

unfoldable pub count_ptys : List (Request × Bool) → ℕ
count_ptys [] = 0
count_ptys ((req, b) ∷ rest) = let n = count_ptys rest in if b && is_pty req then n + 1 else n
