-- ===== src/Server/Draining.antt =====
-- internal/server/session.go: the end of `handleSession`, from the request that starts the program,
-- with the goroutine that drains the requests that follow, one step at a time.
pub mod Ordered
pub mod Invariant
pub mod Joined
mod Examples
use voidshell.Prelude.{
  ℕ, Bool, true, false, ◌&&◌, Option, none, some, List, [], ◌∷◌, ◌++◌, if◌then◌else◌, codes,
  text_eq, ◌≡◌,
}
use voidshell.Server.Wire.{Request, Wire, WindowChange}
use voidshell.Server.Session.{
  Terminal, TerminalSize, TerminalSizeQueue, new_terminal_size_queue, push, next, u16, stop,
  Received, size, drain_request,
}
use voidshell.Server.Session

-- Where `handleSession` stands: at `sizes.push`, at the `go` statement, in `runSession`, at
-- `ch.Close()`, at `<-drained`, at the three deferred calls in the order in which they run, and
-- returned.
pub data Main : Type 0 where
  pushing launching running closing joining stopping cancelling closing_again returned : Main

-- The goroutine: not yet started; at the head of the loop of `drainRequests`; with a request; at
-- its two deferred calls, `cancel()` and `close(drained)`; and ended.
pub data Drainer : Type 0 where
  unborn waiting cancels closes ended : Drainer
  handling : Request → Drainer

-- `drained` and `closed` say whether the channel of that name and the SSH channel are closed, and
-- `panicked` whether there was a send on a closed channel, or a second close of one. What the
-- executor received of the queue, and the sizes for which `push` was called, are only there for
-- what is stated of them.
pub record Draining : Type 0 where
  pub main : Main
  pub drainer : Drainer
  pub sizes : TerminalSizeQueue
  pub drained : Bool
  pub cancelled : Bool
  pub closed : Bool
  pub panicked : Bool
  pub replies : List Bool
  pub resized : List TerminalSize
  pub asked : List TerminalSize

abbrev pub served : Draining
served = record {
  main = pushing;
  drainer = unborn;
  sizes = new_terminal_size_queue;
  drained = false;
  cancelled = false;
  closed = false;
  panicked = false;
  replies = [];
  resized = [];
  asked = [];
}

abbrev pub size_of : ℕ → ℕ → TerminalSize
size_of cols rows = record { width = u16 cols; height = u16 rows }

-- The steps of `handleSession`; `close` of a closed channel panics.
unfoldable pub main_step : Terminal → Draining → Main → Option Draining
main_step t s pushing = some (record s {
  main = launching;
  sizes = push t.cols t.rows s.sizes;
  asked = s.asked ++ size_of t.cols t.rows ∷ [];
})
main_step t s launching = some (record s { main = running; drainer = waiting })
main_step t s running = some (record s { main = closing })
main_step t s closing = some (record s { main = joining; closed = true })
main_step t s joining = if s.drained then some (record s { main = stopping }) else none
main_step t s stopping =
    if s.sizes.closed
    then some (record s { panicked = true })
    else some (record s { main = cancelling; sizes = stop s.sizes })
main_step t s cancelling = some (record s { main = closing_again; cancelled = true })
main_step t s closing_again = some (record s { main = returned; closed = true })
main_step t s returned = none

abbrev pub is_some : {A : Type 0} → Option A → Bool
is_some none = false
is_some (some x) = true

abbrev pub size_in : Option WindowChange → List TerminalSize
size_in none = []
size_in (some msg) = size_of msg.columns msg.rows ∷ []

module _ (wire : Wire) where
  -- Whether `drainRequests` calls `push` for a request.
  unfoldable pub resizes : Request → Bool
  resizes req = text_eq req.kind (codes "window-change") && is_some (wire.read_window req.payload)

  -- The size that it pushes.
  unfoldable pub asks : Request → List TerminalSize
  asks req =
      if text_eq req.kind (codes "window-change")
      then size_in (wire.read_window req.payload)
      else []

  -- The steps of the goroutine. The request that comes is none where the channel of requests is
  -- closed; a send on a closed channel panics.
  unfoldable pub drainer_step : Option Request → Draining → Drainer → Option Draining
  unfolding resizes asks
  drainer_step next s unborn = none
  drainer_step next s waiting = elim next [
    | some req ↦ some (record s { drainer = handling req })
    | none ↦ some (record s { drainer = cancels })
  ]
  drainer_step next s (handling req) =
      if resizes req && s.sizes.closed
      then some (record s { panicked = true })
      else some (record s {
        drainer = waiting;
        sizes = (drain_request wire req s.sizes).0;
        replies = s.replies ++ (drain_request wire req s.sizes).1;
        asked = s.asked ++ asks req;
      })
  drainer_step next s cancels = some (record s { drainer = closes; cancelled = true })
  drainer_step next s closes =
      if s.drained
      then some (record s { panicked = true })
      else some (record s { drainer = ended; drained = true })
  drainer_step next s ended = none

-- What the executor receives of the queue.
abbrev pub read_size : Draining → TerminalSizeQueue × Received → Option Draining
read_size s (q, size z) = some (record s { sizes = q; resized = s.resized ++ z ∷ [] })
read_size s (q, Session.ended) = some (record s { sizes = q })
read_size s (q, Session.waits) = none

pub data Move : Type 0 where
  on_main reads context_ends : Move
  on_drainer : Option Request → Move

-- One step of `handleSession`, of the goroutine or of the executor, or the end of the context.
unfoldable pub step : Wire → Terminal → Move → Draining → Option Draining
unfolding main_step drainer_step next
step wire t on_main s = main_step t s s.main
step wire t (on_drainer req) s = drainer_step wire req s s.drainer
step wire t reads s = read_size s (next s.sizes)
step wire t context_ends s = some (record s { cancelled = true })

pub data Reach (wire : Wire) (t : Terminal) : Draining → Type 0 where
  start : Reach wire t served
  later :
      {s s' : Draining} (m : Move) → Reach wire t s → step wire t m s ≡ some s' → Reach wire t s'
