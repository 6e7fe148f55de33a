-- ===== src/Server/Effects.antt =====
-- What the handlers of internal/server do to the workspace and to the client's channel, in the
-- order in which they do it.
use voidshell.Server.Wire.{Request}
use voidshell.Prelude.{ℕ, Bool, true, false, Option, none, some, List, [], ◌∷◌, ◌++◌, if◌then◌else◌}
use voidshell.Server.Session.{Program, Terminal}

pub data Effect : Type 0 where
  accept reject : Effect
  -- `acquireWorkspace`, and whether it succeeds
  acquire : (succeeds : Bool) → Effect
  -- `Attach` or `Exec` in a terminal
  attach : Program → Terminal → Effect
  -- `OpenWorkspaceSSH`, its `OpenChannel`, and the copying until both outputs have ended
  open_ssh open_remote relay : Effect
  -- `Forward` to a port
  forward : ℕ → Effect
  release : Effect
  -- a message on the channel's stderr
  report : Effect
  -- `exit-status` with a code, and a backend's exit request passed on
  exit_status : ℕ → Effect
  exit_request : Request → Effect
  close_remote close_ssh stop_sizes close_channel join_requests : Effect

-- The effects up to here.
abbrev pub Trace : Type 0
Trace = List Effect

abbrev pub then_do : Effect → Trace → Trace
then_do e tr = tr ++ e ∷ []

abbrev pub is_release : Effect → Bool
is_release release = true
is_release _ = false

unfoldable pub has_release : Trace → Bool
has_release [] = false
has_release (e ∷ tr) = let rest = has_release tr in if is_release e then true else rest

-- The release that `acquireWorkspace` returns: a `sync.Once`.
unfoldable pub release_once : Trace → Trace
unfolding has_release
release_once tr = if has_release tr then tr else then_do release tr

-- Where a channel stands.
pub data Phase : Type 0 where
  fresh : Phase  -- nothing is held
  held : Phase  -- the workspace is leased
  freed : Phase  -- the lease was released, or was not got
  told : Phase  -- the client has been told how the program ended

-- The effects that may come in a phase: the workspace is used while it is leased only, and the
-- client is told once, when the lease is gone.
unfoldable pub advance : Phase → Effect → Option Phase
advance fresh accept = some fresh
advance fresh reject = some freed
advance fresh stop_sizes = some fresh
advance fresh close_channel = some fresh
advance fresh (acquire true) = some held
advance fresh (acquire false) = some freed
advance held (attach p t) = some held
advance held open_ssh = some held
advance held open_remote = some held
advance held relay = some held
advance held (forward port) = some held
advance held report = some held
advance held release = some freed
advance freed report = some freed
advance freed (exit_status code) = some told
advance freed (exit_request req) = some told
advance freed close_remote = some freed
advance freed close_ssh = some freed
advance freed close_channel = some freed
advance freed stop_sizes = some freed
advance told close_remote = some told
advance told close_ssh = some told
advance told close_channel = some told
advance told stop_sizes = some told
advance told join_requests = some told
advance _ _ = none

unfoldable pub phases : Phase → Trace → Option Phase
unfolding advance
phases ph [] = some ph
phases ph (e ∷ tr) = elim (advance ph e) [ none ↦ none | some ph' ↦ phases ph' tr ]
