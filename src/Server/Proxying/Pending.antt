-- ===== src/Server/Proxying/Pending.antt =====
-- The queue of a client's requests in `proxySession`.
use voidshell.Prelude.{
  ◌≤◌, ◌≡◌, refl, true, false, none, some, List, [], ◌∷◌, ◌++◌, arith, length, append_assoc, ap,
  sym, length-append, Option, Bool,
}
use voidshell.Server.Wire.{Request, Wire}
use voidshell.Server.Proxy.{pass_requests, count_starts, count_ptys}
use voidshell.Server.Once.{pass_requests-once}
use voidshell.Server.Proxying.{
  Main, acquiring, opening, opening_remote, listening, joining, reporting, returned, Reader,
  Proxying, Move, on_main, on_reader, output_ends, outputs_joined, takes, send_fails, context_ends,
  return_with, Choice, main_step, reader_step, take_pending, step, Reach, start, later, reading,
  ended, holding, pending_capacity,
}

record Inv (s : Proxying) : Type 0 where
  pub in_order : s.taken ++ s.pending ≡ s.queued
  pub bounded : length s.pending ≤ pending_capacity
  pub told : s.reader ≡ ended → s.cancelled ≡ true
  pub over : s.main ≡ returned → s.cancelled ≡ true

main_step-Inv :
    (c : Choice) (s s' : Proxying) (main : Main)
    → s.main ≡ main
    → Inv s
    → main_step c s main ≡ some s'
    → Inv s'
unfolding main_step return_with
main_step-Inv c s s' acquiring m inv h = ground arith
main_step-Inv c s s' opening m inv h = ground arith
main_step-Inv c s s' opening_remote m inv h = ground arith
main_step-Inv c s s' (listening exit) m inv h = ground arith
main_step-Inv c s s' (joining exit) m inv h = ground arith
main_step-Inv c s s' (reporting exit) m inv h = ground arith
main_step-Inv c s s' returned m inv h = cc

reader_step-Inv :
    (c : Choice) (s s' : Proxying) (r : Reader)
    → s.reader ≡ r
    → Inv s
    → reader_step c s r ≡ some s'
    → Inv s'
unfolding reader_step
reader_step-Inv c s s' reading m inv h = ground arith
reader_step-Inv c s s' (holding req) m inv h =
    let grown = length-append s.pending (req ∷ []) in
    let moved : s.taken ++ (s.pending ++ req ∷ []) ≡ (s.taken ++ s.pending) ++ req ∷ [] =
      sym (append_assoc s.taken s.pending (req ∷ [])) in
    ground arith
reader_step-Inv c s s' ended m inv h = cc

take_pending-Inv :
    (s s' : Proxying) (reqs : List Request)
    → s.pending ≡ reqs
    → Inv s
    → take_pending s reqs ≡ some s'
    → Inv s'
unfolding take_pending
take_pending-Inv s s' [] m inv h = cc
take_pending-Inv s s' (req ∷ reqs) m inv h =
    let moved : (s.taken ++ req ∷ []) ++ reqs ≡ s.taken ++ req ∷ reqs =
      append_assoc s.taken (req ∷ []) reqs in
    let same : s.taken ++ s.pending ≡ s.taken ++ req ∷ reqs = ap (λ l. s.taken ++ l) m in
    ground arith

step-Inv : (m : Move) (s s' : Proxying) → Inv s → step m s ≡ some s' → Inv s'
unfolding step
step-Inv (on_main c) s s' inv h = main_step-Inv c s s' s.main refl inv h
step-Inv (on_reader c) s s' inv h = reader_step-Inv c s s' s.reader refl inv h
step-Inv output_ends s s' inv h = ground arith
step-Inv outputs_joined s s' inv h = ground arith
step-Inv takes s s' inv h = take_pending-Inv s s' s.pending refl inv h
step-Inv send_fails s s' inv h = ground arith
step-Inv context_ends s s' inv h = ground arith

Reach-Inv : {s : Proxying} → Reach s → Inv s
Reach-Inv start = record { in_order = refl; bounded = omega arith; told = λ q. cc; over = λ q. cc }
Reach-Inv (later m r h) = step-Inv m _ _ (Reach-Inv r) h

abbrev pub gives_up : Choice
gives_up = record { succeeds = false; request = none }

-- What the loop has sent to the workspace's server, each request with whether it counts.
abbrev pub sent_of :
    Wire → (List Request → Request → Option Bool) → Proxying → List (Request × Bool)
sent_of wire send s = (pass_requests wire send [] false false s.taken).sent

-- Between any two steps, whatever the workspace's server answers: the loop over the client's
-- requests has taken them in the order in which they were queued, and at most 16 wait; of what it
-- has sent, one request at most has started a program, and one at most has got a terminal; where
-- the client has closed its channel, or `proxySession` has returned, the context has ended; and the
-- reader of the requests, where it holds one and the context has ended, can return without room in
-- the queue.
pub pending_requests :
    (wire : Wire) (send : List Request → Request → Option Bool) {s : Proxying}
    → Reach s
    → (s.taken ++ s.pending ≡ s.queued)
      × (length s.pending ≤ 16)
      × (count_starts (sent_of wire send s) ≤ 1)
      × (count_ptys (sent_of wire send s) ≤ 1)
      × (s.reader ≡ ended → s.cancelled ≡ true)
      × (s.main ≡ returned → s.cancelled ≡ true)
      × ((req : Request)
          → s.reader ≡ holding req
          → s.cancelled ≡ true
          → (s' : Proxying) × (step (on_reader gives_up) s ≡ some s') × (s'.reader ≡ ended))
unfolding step reader_step
pending_requests wire send {s} r =
    let inv = Reach-Inv r in
    let (starts, ptys) = pass_requests-once wire send [] false false s.taken in
    (
      inv.in_order,
      inv.bounded,
      starts,
      ptys,
      inv.told,
      inv.over,
      λ req h c. (record s { reader = ended }, ground arith, refl),
    )
