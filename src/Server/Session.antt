-- ===== src/Server/Session.antt =====
-- internal/server/session.go: a session that the server runs itself. The requests before the
-- program, and the queue of terminal sizes.
pub mod Sizes
pub mod Asks
pub mod First
mod Examples
use voidshell.Server.Wire.{
  Request, Wire, PtyRequest, WindowChange, contains_nul, clean_text, clean_pty, is_sftp, reply,
}
use voidshell.Prelude.{
  ℕ, ◌%◌, ◌^◌, Bool, true, false, not, ◌&&◌, ◌||◌, Option, none, some, List, [], ◌∷◌, ◌++◌, Text,
  codes, text_eq, if◌then◌else◌, is_empty, ltb, length,
}

-- `remotecommand.TerminalSize`, of 16-bit numbers.
pub record TerminalSize : Type 0 where
  pub width : ℕ
  pub height : ℕ

abbrev pub u16 : ℕ → ℕ
u16 n = n % 2 ^ 16

-- `terminalSizeQueue`: the channel of capacity 16.
pub record TerminalSizeQueue : Type 0 where
  pub queued : List TerminalSize
  pub closed : Bool

abbrev pub queue_capacity : ℕ
queue_capacity = 16

abbrev pub new_terminal_size_queue : TerminalSizeQueue
new_terminal_size_queue = record { queued = []; closed = false }

-- `push` drops the size where the queue is full.
unfoldable pub push : ℕ → ℕ → TerminalSizeQueue → TerminalSizeQueue
push cols rows q =
    if ltb (length q.queued) queue_capacity
    then record q { queued = q.queued ++ record { width = u16 cols; height = u16 rows } ∷ [] }
    else q

-- What a receive of `Next` finds: it waits while the channel is empty and open.
pub data Received : Type 0 where
  size : TerminalSize → Received
  ended waits : Received

unfoldable pub next : TerminalSizeQueue → TerminalSizeQueue × Received
next q = elim q.queued [
  | [] ↦ (q, if q.closed then ended else waits)
  | s ∷ rest ↦ (record q { queued = rest }, size s)
]

unfoldable pub stop : TerminalSizeQueue → TerminalSizeQueue
stop q = record q { closed = true }

-- `tty`, `term`, `cols` and `rows` of `handleSession`.
pub record Terminal : Type 0 where
  pub tty : Bool
  pub term : Text
  pub cols : ℕ
  pub rows : ℕ

abbrev pub no_terminal : Terminal
no_terminal = record { tty = false; term = []; cols = 80; rows = 24 }

-- What to run: `shell` is the nil command, for which the server calls `Attach`.
pub data Program : Type 0 where
  shell : Program
  command : List Text → Program

abbrev pub sftp_script : Text
sftp_script =
    codes
      "for p in /usr/lib/openssh/sftp-server /usr/libexec/openssh/sftp-server /usr/libexec/sftp-server; do if [ -x \"$p\" ]; then exec \"$p\"; fi; done; echo 'voidshell: sftp-server not installed' >&2; exit 127"

abbrev pub in_shell : Text → Program
in_shell script = command (codes "/bin/sh" ∷ codes "-c" ∷ script ∷ [])

-- The `case` of `pty-req`.
unfoldable pub take_pty : PtyRequest → Terminal → Terminal
take_pty msg t =
    let sized = ltb 0 msg.columns && ltb 0 msg.rows in
    record {
      tty = true;
      term = msg.term;
      cols = if sized then msg.columns else t.cols;
      rows = if sized then msg.rows else t.rows;
    }

unfoldable pub read_exec : Option Text → Option Program
read_exec none = none
read_exec (some script) = if contains_nul script then none else some (in_shell script)

-- What becomes of a request before a program runs: a terminal is taken, a program is to be run, the
-- request is refused with a reply, or it is ignored with a reply where one is wanted.
pub data Handled : Type 0 where
  with_terminal : Terminal → Handled
  run_program : Program → Handled
  refused ignored : Handled

unfoldable pub handle_pty : Option PtyRequest → Terminal → Handled
unfolding take_pty
handle_pty none t = refused
handle_pty (some msg) t =
    if t.tty || contains_nul msg.term then refused else with_terminal (take_pty msg t)

abbrev pub or_refused : Option Program → Handled
or_refused none = refused
or_refused (some p) = run_program p

-- What the loop of `handleSession` comes to: the program that is run with its terminal, the
-- requests that come after it, and the calls of `Reply`.
pub record Served : Type 0 where
  pub replies : List Bool
  pub started : Option (Program × Terminal × List Request)

abbrev pub replied : Bool → Served → Served
replied ok s = record s { replies = ok ∷ s.replies }

module _ (wire : Wire) where
  -- The `switch` of `handleSession`.
  unfoldable pub handle_request : Request → Terminal → Handled
  unfolding handle_pty read_exec is_sftp
  handle_request req t =
      if text_eq req.kind (codes "pty-req")
      then handle_pty (wire.read_pty req.payload) t
      else if text_eq req.kind (codes "shell")
      then (if is_empty req.payload then run_program shell else refused)
      else if text_eq req.kind (codes "exec")
      then or_refused (read_exec (wire.read_text req.payload))
      else if text_eq req.kind (codes "subsystem")
      then (if is_sftp (wire.read_text req.payload) && not t.tty
          then run_program (in_shell sftp_script)
          else refused)
      else ignored

  -- The loop of `handleSession`.
  unfoldable pub serve_requests : List Request → Terminal → Served
  serve_requests [] t = record { replies = []; started = none }
  serve_requests (req ∷ rest) t = elim (handle_request req t) [
    | with_terminal t' ↦ replied true (serve_requests rest t')
    | run_program p ↦ record { replies = true ∷ []; started = some (p, t, rest) }
    | refused ↦ replied false (serve_requests rest t)
    | ignored ↦ let s = serve_requests rest t in record s { replies = reply req false s.replies }
  ]

  -- One round of `drainRequests`, and its reply.
  unfoldable pub resize : Option WindowChange → TerminalSizeQueue → TerminalSizeQueue
  unfolding push
  resize none q = q
  resize (some msg) q = push msg.columns msg.rows q

  unfoldable pub drain_request : Request → TerminalSizeQueue → TerminalSizeQueue × List Bool
  unfolding resize reply
  drain_request req q = (
    if text_eq req.kind (codes "window-change") then resize (wire.read_window req.payload) q else q,
    reply req false [],
  )
