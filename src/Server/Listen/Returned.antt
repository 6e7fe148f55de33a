-- ===== src/Server/Listen/Returned.antt =====
-- When `Serve` returns, and that nothing runs afterwards.
use voidshell.Prelude.{
  ℕ, zero, suc, true, none, some, List, [], ◌∷◌, ◌≡◌, ◌≢◌, refl, arith, ◌<◌, false, ◌+◌, ◌⊎◌,
  Bool-cases, inl, inr, All, All, All, All, Option-cases, subst, sym,
}
use voidshell.Server.Listen.{
  Conn, handshaking, closed, serving, waiting, ConnMove, handshake_fails, handshake_ends,
  channels_end, handler_returns, conn_returns, offers, conn_step, accepting, returned, Listening,
  Move, context_ends, listener_closes, accepts, accept_fails, serve_returns, on_conn, all_closed,
  move_conn, step, Reach, start, later, Loop, joining, is_closed, all_handlers, handlers,
}

closed_stays : (e : ConnMove) → conn_step e (closed 0) ≡ none
unfolding conn_step
closed_stays handshake_fails = refl
closed_stays handshake_ends = refl
closed_stays channels_end = refl
closed_stays handler_returns = refl
closed_stays conn_returns = refl
closed_stays (offers kind) = refl

-- A connection that has returned runs no handler.
IsLeft : Conn → Type 0
IsLeft c = is_closed c ≡ true → handlers c ≡ 0

handshaking-IsLeft : IsLeft handshaking
unfolding IsLeft
handshaking-IsLeft = ground arith

conn_step-IsLeft : (e : ConnMove) (c c' : Conn) → IsLeft c → conn_step e c ≡ some c' → IsLeft c'
unfolding IsLeft conn_step
conn_step-IsLeft handshake_fails c c' h q = ground arith
conn_step-IsLeft handshake_ends c c' h q = ground arith
conn_step-IsLeft channels_end c c' h q = ground arith
conn_step-IsLeft handler_returns c c' h q = ground arith
conn_step-IsLeft conn_returns c c' h q = ground arith
conn_step-IsLeft (offers kind) c c' h q = ground arith

move_conn-IsLeft :
    (e : ConnMove) (i : ℕ) (conns conns' : List Conn)
    → All IsLeft conns
    → move_conn e i conns ≡ some conns'
    → All IsLeft conns'
unfolding move_conn
move_conn-IsLeft e i [] conns' h q = cc
move_conn-IsLeft e zero (c ∷ conns) conns' (h, hs) q = elim (Option-cases (conn_step e c)) [
  | inl n ↦ cc
  | inr (c', s) ↦
      let moved : c' ∷ conns ≡ conns' = ground arith in
      subst (All IsLeft) moved (conn_step-IsLeft e c c' h s, hs)
]
move_conn-IsLeft e (suc i) (c ∷ conns) conns' (h, hs) q =
    elim (Option-cases (move_conn e i conns)) [
      | inl n ↦ cc
      | inr (rest, s) ↦
          let moved : c ∷ rest ≡ conns' = ground arith in
          subst (All IsLeft) moved (h, move_conn-IsLeft e i conns rest hs s)
    ]

left_none :
    (conns : List Conn) → All IsLeft conns → all_closed conns ≡ true → all_handlers conns ≡ 0
unfolding all_closed IsLeft
left_none [] h q = refl
left_none (closed n ∷ conns) (h, hs) q =
    let idle : n ≡ 0 = h refl in
    let rest : all_handlers conns ≡ 0 = left_none conns hs q in omega (arith, idle, rest)
left_none (handshaking ∷ conns) h q = cc
left_none (serving n ∷ conns) h q = cc
left_none (waiting n ∷ conns) h q = cc

all_closed_stay :
    (e : ConnMove) (i : ℕ) (conns : List Conn)
    → All IsLeft conns
    → all_closed conns ≡ true
    → move_conn e i conns ≡ none
unfolding all_closed move_conn IsLeft
all_closed_stay e i [] left h = refl
all_closed_stay e zero (closed n ∷ conns) (l, ls) h = rw (l refl, closed_stays e, move_conn) refl
all_closed_stay e (suc i) (closed n ∷ conns) (l, ls) h =
    rw (all_closed_stay e i conns ls h, move_conn) refl
all_closed_stay e i (handshaking ∷ conns) left h = cc
all_closed_stay e i (serving n ∷ conns) left h = cc
all_closed_stay e i (waiting n ∷ conns) left h = cc

record Inv (s : Listening) : Type 0 where
  pub ended : s.loop ≢ accepting → s.context_done ≡ true
  pub joined : s.loop ≡ returned → all_closed s.conns ≡ true
  pub left : All IsLeft s.conns

step-Inv : (m : Move) (s s' : Listening) → Inv s → step m s ≡ some s' → Inv s'
unfolding step
step-Inv context_ends s s' inv h = ground arith
step-Inv listener_closes s s' inv h = ground arith
step-Inv accepts s s' inv h =
    let after : s'.conns ≡ handshaking ∷ s.conns = ground arith in
    record {
      ended = ground arith;
      joined = ground arith;
      left = subst (All IsLeft) (sym after) (handshaking-IsLeft, inv.left);
    }
step-Inv accept_fails s s' inv h = ground arith
step-Inv serve_returns s s' inv h = ground arith
step-Inv (on_conn i e) s s' inv h =
    let stay = all_closed_stay e i s.conns inv.left in
    let moved : move_conn e i s.conns ≡ some s'.conns = ground arith in
    record {
      ended = ground arith;
      joined = ground arith;
      left = move_conn-IsLeft e i s.conns s'.conns inv.left moved;
    }

Reach-Inv : {s : Listening} → Reach s → Inv s
Reach-Inv start = ground arith
Reach-Inv (later m r e) = step-Inv m _ _ (Reach-Inv r) e

returned_stays :
    (m : Move) (s s' : Listening)
    → Inv s
    → s.loop ≡ returned
    → step m s ≡ some s'
    → (s'.loop ≡ returned) × (s'.conns ≡ s.conns)
unfolding step
returned_stays context_ends s s' inv l h = ground arith
returned_stays listener_closes s s' inv l h = ground arith
returned_stays accepts s s' inv l h = ground arith
returned_stays accept_fails s s' inv l h = ground arith
returned_stays serve_returns s s' inv l h = ground arith
returned_stays (on_conn i e) s s' inv l h =
    let stay = all_closed_stay e i s.conns inv.left (inv.joined l) in ground arith

abbrev of_conn : Conn → ℕ
of_conn handshaking = 1
of_conn (serving n) = n + 2
of_conn (waiting n) = n + 1
of_conn (closed n) = n

abbrev of_conns : List Conn → ℕ
of_conns [] = 0
of_conns (c ∷ conns) = of_conn c + of_conns conns

abbrev of_loop : Loop → ℕ
of_loop accepting = 2
of_loop joining = 1
of_loop returned = 0

-- What is left to be ended.
abbrev pub left_open : Listening → ℕ
left_open s = of_conns s.conns + of_loop s.loop

-- A step of a connection that ends something.
abbrev Closing : List Conn → Type 0
Closing conns =
    (i : ℕ) × (e : ConnMove) × (conns' : List Conn) × (move_conn e i conns ≡ some conns')
    × of_conns conns' < of_conns conns

conn_closes : (conns : List Conn) → all_closed conns ≡ false → Closing conns
unfolding all_closed move_conn conn_step
conn_closes [] h = cc
conn_closes (closed n ∷ conns) h =
    let (i, e, conns', q, less) = conn_closes conns h in
    (suc i, e, closed n ∷ conns', rw (q, move_conn) refl, ground arith)
conn_closes (handshaking ∷ conns) h = (0, handshake_fails, closed 0 ∷ conns, refl, ground arith)
conn_closes (serving n ∷ conns) h = (0, channels_end, waiting n ∷ conns, refl, ground arith)
conn_closes (waiting zero ∷ conns) h = (0, conn_returns, closed 0 ∷ conns, refl, ground arith)
conn_closes (waiting (suc n) ∷ conns) h =
    (0, handler_returns, waiting n ∷ conns, ground arith, ground arith)

loop_cases : (l : Loop) → (l ≡ accepting) ⊎ (l ≡ joining) ⊎ (l ≡ returned)
loop_cases accepting = inl refl
loop_cases joining = inr (inl refl)
loop_cases returned = inr (inr refl)

joins :
    (s : Listening)
    → s.loop ≡ joining
    → (m : Move) × (s' : Listening) × (step m s ≡ some s') × left_open s' < left_open s
unfolding step
joins s l = elim (Bool-cases (all_closed s.conns)) [
  | inl e ↦ (serve_returns, record s { loop = returned }, rw (l, e) refl, rw l (ground arith))
  | inr e ↦
      let (i, x, conns', q, less) = conn_closes s.conns e in
      (on_conn i x, record s { conns = conns' }, rw (q, step) refl, ground arith)
]

goes_towards_end :
    (s : Listening)
    → s.context_done ≡ true
    → s.loop ≢ returned
    → (m : Move) × (s' : Listening) × (step m s ≡ some s') × left_open s' < left_open s
unfolding step
goes_towards_end s ended unreturned = elim (loop_cases s.loop) [
  | inl l ↦ (accept_fails, record s { loop = joining }, rw (l, ended) refl, rw l (ground arith))
  | inr (inl l) ↦ joins s l
  | inr (inr l) ↦ absurd (unreturned l)
]

pub serve_returned :
    {s : Listening}
    → Reach s
    → (s.loop ≡ returned
        → (s.context_done ≡ true)
          × (all_closed s.conns ≡ true)
          × (all_handlers s.conns ≡ 0)
          × ((m : Move) (s' : Listening)
              → step m s ≡ some s'
              → (s'.loop ≡ returned) × (s'.conns ≡ s.conns)))
      × (s.context_done ≡ true
          → s.loop ≢ returned
          → (m : Move) × (s' : Listening) × (step m s ≡ some s') × left_open s' < left_open s)
serve_returned {s} r = (at_end, goes_towards_end s)
  where
    at_end :
        s.loop ≡ returned
        → (s.context_done ≡ true)
          × (all_closed s.conns ≡ true)
          × (all_handlers s.conns ≡ 0)
          × ((m : Move) (s' : Listening)
              → step m s ≡ some s'
              → (s'.loop ≡ returned) × (s'.conns ≡ s.conns))
    at_end l =
        let inv = Reach-Inv r in
        (
          ground arith,
          inv.joined l,
          left_none s.conns inv.left (inv.joined l),
          λ m s' h. returned_stays m s s' inv l h,
        )
