-- ===== src/Server/Draining/Invariant.antt =====
-- What holds of a session that drains its requests.
use voidshell.Prelude.{
  ◌≤◌, ◌≡◌, refl, Bool, true, false, Option, none, some, [], ◌∷◌, arith, length, ℕ, length-append,
  ◌∙◌, ap,
}
use voidshell.Server.Wire.{Request, Wire}
use voidshell.Server.Session.{
  Terminal, TerminalSizeQueue, push, next, stop, queue_capacity, resize, drain_request, u16,
}
use voidshell.Server.Draining.{
  Main, pushing, launching, running, closing, joining, stopping, cancelling, closing_again,
  returned, Drainer, unborn, waiting, cancels, closes, ended, handling, Draining, main_step,
  drainer_step, read_size, step, Move, on_main, reads, context_ends, on_drainer, Reach, start,
  later, WindowChange,
}

-- Where `handleSession` has yet to start the goroutine, and where it has joined it, and closed the
-- queue and the channel.
abbrev pub is_before : Main → Bool
is_before pushing = true
is_before launching = true
is_before _ = false

abbrev pub has_joined : Main → Bool
has_joined stopping = true
has_joined cancelling = true
has_joined closing_again = true
has_joined returned = true
has_joined _ = false

abbrev pub has_stopped : Main → Bool
has_stopped cancelling = true
has_stopped closing_again = true
has_stopped returned = true
has_stopped _ = false

abbrev pub is_unborn : Drainer → Bool
is_unborn unborn = true
is_unborn _ = false

abbrev pub is_ended : Drainer → Bool
is_ended ended = true
is_ended _ = false

abbrev pub has_cancelled : Drainer → Bool
has_cancelled closes = true
has_cancelled ended = true
has_cancelled _ = false

abbrev pub has_closed : Main → Bool
has_closed joining = true
has_closed stopping = true
has_closed cancelling = true
has_closed closing_again = true
has_closed returned = true
has_closed _ = false

pub record Inv (s : Draining) : Type 0 where
  pub safe : s.panicked ≡ false
  pub stopped : s.sizes.closed ≡ has_stopped s.main
  pub ends : s.drained ≡ is_ended s.drainer
  pub joined : has_joined s.main ≡ true → s.drained ≡ true
  pub born : is_unborn s.drainer ≡ is_before s.main
  pub over : has_cancelled s.drainer ≡ true → s.cancelled ≡ true
  pub hung_up : has_closed s.main ≡ true → s.closed ≡ true
  pub bounded : length s.sizes.queued ≤ queue_capacity

push-bounded :
    (cols rows : ℕ) (q : TerminalSizeQueue)
    → length q.queued ≤ queue_capacity
    → length (push cols rows q).queued ≤ queue_capacity
unfolding push
push-bounded cols rows q h =
    let grown = length-append q.queued (record { width = u16 cols; height = u16 rows } ∷ []) in
    ground arith

push-closed : (cols rows : ℕ) (q : TerminalSizeQueue) → (push cols rows q).closed ≡ q.closed
unfolding push
push-closed cols rows q = ground arith

main_step-Inv :
    (t : Terminal) (s s' : Draining) (main : Main)
    → s.main ≡ main
    → Inv s
    → main_step t s main ≡ some s'
    → Inv s'
unfolding main_step stop
main_step-Inv t s s' pushing m inv h =
    let room = push-bounded t.cols t.rows s.sizes inv.bounded in
    let same = push-closed t.cols t.rows s.sizes in ground arith
main_step-Inv t s s' launching m inv h = ground arith
main_step-Inv t s s' running m inv h = ground arith
main_step-Inv t s s' closing m inv h = ground arith
main_step-Inv t s s' joining m inv h = ground arith
main_step-Inv t s s' stopping m inv h = ground arith
main_step-Inv t s s' cancelling m inv h = ground arith
main_step-Inv t s s' closing_again m inv h = ground arith
main_step-Inv t s s' returned m inv h = cc

resize-kept :
    (wire : Wire) (msg : Option WindowChange) (q : TerminalSizeQueue)
    → length q.queued ≤ queue_capacity
    → (length (resize wire msg q).queued ≤ queue_capacity) × ((resize wire msg q).closed ≡ q.closed)
unfolding resize
resize-kept wire none q h = (h, refl)
resize-kept wire (some msg) q h =
    (push-bounded msg.columns msg.rows q h, push-closed msg.columns msg.rows q)

drain_request-kept :
    (wire : Wire) (req : Request) (q : TerminalSizeQueue)
    → length q.queued ≤ queue_capacity
    → (length (drain_request wire req q).0.queued ≤ queue_capacity)
      × ((drain_request wire req q).0.closed ≡ q.closed)
unfolding drain_request
drain_request-kept wire req q h =
    let kept = resize-kept wire (wire.read_window req.payload) q h in ground arith

-- While the goroutine is not at its end, the queue is open.
open_queue :
    (s : Draining) (d : Drainer)
    → s.drainer ≡ d
    → is_ended d ≡ false
    → Inv s
    → s.sizes.closed ≡ false
open_queue s d m e inv =
    let drained : s.drained ≡ false = inv.ends ∙ ap is_ended m ∙ e in
    by_main s.main drained inv.stopped inv.joined
  where
    by_main :
        (main : Main)
        → s.drained ≡ false
        → s.sizes.closed ≡ has_stopped main
        → (has_joined main ≡ true → s.drained ≡ true)
        → s.sizes.closed ≡ false
    by_main pushing dr st jo = st
    by_main launching dr st jo = st
    by_main running dr st jo = st
    by_main closing dr st jo = st
    by_main joining dr st jo = st
    by_main stopping dr st jo = st
    by_main cancelling dr st jo = let late = jo refl in cc
    by_main closing_again dr st jo = let late = jo refl in cc
    by_main returned dr st jo = let late = jo refl in cc

drainer_step-Inv :
    (wire : Wire) (req : Option Request) (s s' : Draining) (d : Drainer)
    → s.drainer ≡ d
    → Inv s
    → drainer_step wire req s d ≡ some s'
    → Inv s'
unfolding drainer_step
drainer_step-Inv wire req s s' unborn m inv h = cc
drainer_step-Inv wire req s s' waiting m inv h = ground arith
drainer_step-Inv wire req s s' (handling r) m inv h =
    let kept = drain_request-kept wire r s.sizes inv.bounded in
    let still = open_queue s _ m refl inv in ground arith
drainer_step-Inv wire req s s' cancels m inv h = ground arith
drainer_step-Inv wire req s s' closes m inv h = ground arith
drainer_step-Inv wire req s s' ended m inv h = cc

read_size-Inv : (s s' : Draining) → Inv s → read_size s (next s.sizes) ≡ some s' → Inv s'
unfolding next
read_size-Inv s s' inv h = ground arith

step-Inv :
    (wire : Wire) (t : Terminal) (m : Move) (s s' : Draining)
    → Inv s
    → step wire t m s ≡ some s'
    → Inv s'
unfolding step
step-Inv wire t on_main s s' inv h = main_step-Inv t s s' s.main refl inv h
step-Inv wire t (on_drainer req) s s' inv h = drainer_step-Inv wire req s s' s.drainer refl inv h
step-Inv wire t reads s s' inv h = read_size-Inv s s' inv h
step-Inv wire t context_ends s s' inv h = ground arith

pub Reach-Inv : {wire : Wire} {t : Terminal} {s : Draining} → Reach wire t s → Inv s
Reach-Inv start = record {
  safe = refl;
  stopped = refl;
  ends = refl;
  joined = λ q. cc;
  born = refl;
  over = λ q. cc;
  hung_up = λ q. cc;
  bounded = omega arith;
}
Reach-Inv (later m r h) = step-Inv _ _ m _ _ (Reach-Inv r) h
