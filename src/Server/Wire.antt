-- ===== src/Server/Wire.antt =====
-- internal/server/session.go and portfwd.go: the messages of SSH channel requests. `ssh.Unmarshal`
-- is a parameter.
use voidshell.Prelude.{
  ℕ, Bool, true, false, not, ◌||◌, Option, none, some, List, [], ◌∷◌, Text, codes, text_eq, ◌==◌,
  if◌then◌else◌,
}

-- `ssh.Request`
pub record Request : Type 0 where
  pub kind : Text
  pub want_reply : Bool
  pub payload : Text

-- `ptyRequestMsg`
pub record PtyRequest : Type 0 where
  pub term : Text
  pub columns : ℕ
  pub rows : ℕ
  pub width : ℕ
  pub height : ℕ
  pub modelist : Text

-- `windowChangeMsg`
pub record WindowChange : Type 0 where
  pub columns : ℕ
  pub rows : ℕ
  pub width : ℕ
  pub height : ℕ

-- `directTCPIPMsg`
pub record DirectTcpIp : Type 0 where
  pub host : Text
  pub port : ℕ
  pub origin_host : Text
  pub origin_port : ℕ

-- `ssh.Unmarshal` for each message; `read_text` is for the messages of one string.
pub record Wire : Type 0 where
  pub read_pty : Text → Option PtyRequest
  pub read_text : Text → Option Text
  pub read_window : Text → Option WindowChange
  pub read_direct : Text → Option DirectTcpIp

-- `strings.ContainsRune(text, 0)`
unfoldable pub contains_nul : Text → Bool
contains_nul [] = false
contains_nul (c ∷ s) = c == 0 || contains_nul s

-- A text that can be read and has no zero rune.
unfoldable pub clean_text : Option Text → Bool
clean_text none = false
clean_text (some t) = not (contains_nul t)

unfoldable pub clean_pty : Option PtyRequest → Bool
clean_pty none = false
clean_pty (some msg) = not (contains_nul msg.term)

abbrev pub can_read {ℓ} : {A : Type ℓ} → Option A → Bool
can_read none = false
can_read (some a) = true

unfoldable pub is_sftp : Option Text → Bool
is_sftp none = false
is_sftp (some name) = text_eq name (codes "sftp")

-- `if req.WantReply { req.Reply(ok, nil) }`, where the replies that follow are at hand.
unfoldable pub reply : Request → Bool → List Bool → List Bool
reply req ok replies = if req.want_reply then ok ∷ replies else replies
