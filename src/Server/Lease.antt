-- ===== src/Server/Lease.antt =====
-- internal/server/lifecycle.go: `acquireWorkspace` and the release that it returns, one shared
-- access at a time. Each caller is a goroutine that acquires one workspace and releases it once;
-- its key is the pod name of the workspace, `id.PodNameFor(mode)`.
pub mod Family
pub mod Invariant
pub mod Facts
pub mod Moves
pub mod Safety
pub mod Progress
pub mod Refines
mod Examples
use voidshell.Prelude.{
  ℕ, zero, suc, ◌+◌, ◌-◌, ◌<◌, ◌≡◌, Bool, true, false, Option, none, some, ltb, ◌==◌, if◌then◌else◌,
  Text, text_eq, put, update,
}

-- `workspaceLease`: the tokens in the channel `gate`, of capacity 1, and the two counters.
pub record Lease : Type 0 where
  pub gate : ℕ
  pub users : ℕ
  pub active : ℕ

-- A pod of the cluster: there is none, or the last `DeletePod` for it has succeeded;
-- `EnsureWorkspace` has been called for it, with any answer, and `DeletePod` not since; or the last
-- `DeletePod` for it has failed.
pub data Pod : Type 0 where
  absent created left_over : Pod

-- The part of `Server` that the callers share. A lease is reached through a pointer, here an index
-- into `leases`; those from `next` on are not allocated. The cluster is `pods`, and `ready`: those
-- that `EnsureWorkspace` has set up, and `DeletePod` has not been called for since.
pub record Shared : Type 0 where
  pub workspaces : Text → Option ℕ
  pub leases : ℕ → Lease
  pub next : ℕ
  pub ready : Text → Bool
  pub pods : Text → Pod

-- How the call ends.
pub data Outcome : Type 0 where
  granted failed released : Outcome

-- Where a caller stands, with the lease that it points to.
pub data Pc : Type 0 where
  idle : Pc  -- before the call
  waiting : ℕ → Pc  -- at the `select`
  entered : ℕ → Pc  -- has the token, before `ctx.Err()`
  ensuring : ℕ → Pc  -- calls `EnsureWorkspace`
  cleaning : ℕ → Pc  -- calls `cleanup` after a failed set-up
  counting : ℕ → Pc  -- before `l.active++`
  leaving : Outcome → ℕ → Pc  -- before `l.gate <- struct{}{}`
  leased : ℕ → Pc  -- has returned the release
  releasing : ℕ → Pc  -- has the token again, before `l.active--`
  deleting : ℕ → Pc  -- calls `cleanup` as the last user
  dropping : Outcome → ℕ → Pc  -- before `drop()`
  finished : Outcome → Pc

-- What the environment decides at a step: whether the context is done, and whether
-- `EnsureWorkspace` or `DeletePod` succeeds.
pub record Choice : Type 0 where
  pub cancelled : Bool
  pub ensured : Bool
  pub deleted : Bool

unfoldable pub write : ℕ → Lease → (ℕ → Lease) → ℕ → Lease
write a l h b = if a == b then l else h b

abbrev pub fresh_lease : Lease
fresh_lease = record { gate = 1; users = 0; active = 0 }

unfoldable pub set_lease : Shared → ℕ → Lease → Shared
unfolding write
set_lease m a l = record m { leases = write a l m.leases }

unfoldable pub set_pod : Shared → Text → Bool → Pod → Shared
unfolding put
set_pod m k b pod = record m { ready = put k b m.ready; pods = put k pod m.pods }

-- `cleanup`: an error of `DeletePod` is only logged.
unfoldable pub cleanup : Shared → Text → Bool → Shared
unfolding set_pod
cleanup m k deleted = set_pod m k false (if deleted then absent else left_over)

-- `l.users++`
unfoldable pub join : Shared → ℕ → Shared
unfolding set_lease
join m a = set_lease m a (record (m.leases a) { users = (m.leases a).users + 1 })

-- `<-l.gate`, where a token is there
unfoldable pub take_gate : Shared → ℕ → Shared
unfolding set_lease
take_gate m a = set_lease m a (record (m.leases a) { gate = (m.leases a).gate - 1 })

unfoldable pub put_gate : Shared → ℕ → Shared
unfolding set_lease
put_gate m a = set_lease m a (record (m.leases a) { gate = (m.leases a).gate + 1 })

unfoldable pub set_active : Shared → ℕ → ℕ → Shared
unfolding set_lease
set_active m a x = set_lease m a (record (m.leases a) { active = x })

-- A new lease with its token in the gate, entered in the map.
unfoldable pub allocate : Shared → Text → Shared
unfolding write put
allocate m k = record m {
  workspaces = put k (some m.next) m.workspaces;
  leases = write m.next fresh_lease m.leases;
  next = m.next + 1;
}

-- The section of `acquireWorkspace` under `s.mu`, with `s.workspaces[key]` looked up.
unfoldable pub register : Shared → Text → Option ℕ → Shared × Pc
unfolding join allocate
register m k (some a) = (join m a, waiting a)
register m k none = (join (allocate m k) m.next, waiting m.next)

-- `drop()`, under `s.mu`
unfoldable pub drop : Shared → Text → ℕ → Shared
unfolding put set_lease
drop m k a =
    let users = (m.leases a).users - 1 in
    let left = set_lease m a (record (m.leases a) { users = users }) in
    if users == 0 then record left { workspaces = put k none m.workspaces } else left

-- One step of a caller for key `k`; `none` where it has to wait or has finished.
unfoldable pub step : Choice → Shared → Text → Pc → Option (Shared × Pc)
unfolding register drop take_gate put_gate set_active set_pod cleanup
step c m k idle = some (register m k (m.workspaces k))
step c m k (waiting a) =
    if c.cancelled
    then some (m, dropping failed a)
    else if ltb 0 (m.leases a).gate
    then some (take_gate m a, entered a)
    else none
step c m k (entered a) =
    if c.cancelled
    then some (m, leaving failed a)
    else if (m.leases a).active == 0
    then some (m, ensuring a)
    else some (m, counting a)
step c m k (ensuring a) =
    if c.ensured
    then some (set_pod m k true created, counting a)
    else some (set_pod m k false created, cleaning a)
step c m k (cleaning a) = some (cleanup m k c.deleted, leaving failed a)
step c m k (counting a) = some (set_active m a ((m.leases a).active + 1), leaving granted a)
step c m k (leaving granted a) =
    if ltb (m.leases a).gate 1 then some (put_gate m a, leased a) else none
step c m k (leaving failed a) =
    if ltb (m.leases a).gate 1 then some (put_gate m a, dropping failed a) else none
step c m k (leaving released a) =
    if ltb (m.leases a).gate 1 then some (put_gate m a, dropping released a) else none
step c m k (leased a) = if ltb 0 (m.leases a).gate then some (take_gate m a, releasing a) else none
step c m k (releasing a) =
    let active = (m.leases a).active - 1 in
    if active == 0
    then some (set_active m a active, deleting a)
    else some (set_active m a active, leaving released a)
step c m k (deleting a) = some (cleanup m k c.deleted, leaving released a)
step c m k (dropping o a) = some (drop m k a, finished o)
step c m k (finished o) = none

-- `workspaces: make(map[string]*workspaceLease)`
abbrev pub init : Shared
init = record {
  workspaces = λ k. none;
  leases = λ a. fresh_lease;
  next = 0;
  ready = λ k. false;
  pods = λ k. absent;
}

-- Callers below `n`, caller `i` for the key `key i`, interleaved in any order.
module _ (n : ℕ) (key : ℕ → Text) where
  pub data Reach : Shared → (ℕ → Pc) → Type 0 where
    start : Reach init (λ i. idle)
    later :
        {m m' : Shared} {pc : ℕ → Pc} {p : Pc} (c : Choice) (i : ℕ)
        → Reach m pc
        → i < n
        → step c m (key i) (pc i) ≡ some (m', p)
        → Reach m' (update pc i p)
