-- ===== src/Server/Serving/Refines.antt =====
-- `Serve` with its connections in detail is `Serve` as Server.Listen has it.
use voidshell.Prelude.{
  ℕ, zero, suc, true, some, List, [], ◌∷◌, ◌≡◌, refl, ◌⊎◌, inl, inr, arith, ap, subst, sym, ◌∙◌,
  Option-cases,
}
use voidshell.Server.Listen
use voidshell.Server.Listen.{Conn, ConnMove, Listening}
use voidshell.Server.Listen.Returned.{serve_returned}
use voidshell.Server.Connection
use voidshell.Server.Connection.{Handling, connected}
use voidshell.Server.Connection.Guarded.{handle_conn-guarded}
use voidshell.Server.Connection.Refines.{seen, handle_conn-Refines}
use voidshell.Server.Serving.{
  Serving, is_returned, all_returned, move_conn, Move, context_ends, listener_closes, accepts,
  accept_fails, serve_returns, on_conn, step, Reach, start, later,
}

abbrev pub seen_all : List Handling → List Conn
seen_all [] = []
seen_all (h ∷ conns) = seen h ∷ seen_all conns

abbrev pub view : Serving → Listening
view s = record {
  context_done = s.context_done;
  listener_closed = s.listener_closed;
  loop = s.loop;
  conns = seen_all s.conns;
}

abbrev AllReach : List Handling → Type 0
AllReach [] = Unit
AllReach (h ∷ conns) = Connection.Reach h × AllReach conns

seen_closed : (h : Handling) → Listen.is_closed (seen h) ≡ is_returned h.phase
seen_closed h = ground arith

seen_all_closed : (conns : List Handling) → Listen.all_closed (seen_all conns) ≡ all_returned conns
unfolding all_returned Listen.all_closed
seen_all_closed [] = refl
seen_all_closed (h ∷ conns) = rw (seen_closed h, seen_all_closed conns) refl

-- A step of one connection.
MovesAll : List Handling → List Handling → Type 0
MovesAll conns conns' =
    (seen_all conns' ≡ seen_all conns)
    ⊎ (i : ℕ) × (e : ConnMove) × (Listen.move_conn e i (seen_all conns) ≡ some (seen_all conns'))

move_conn-MovesAll :
    (e : Connection.Move) (i : ℕ) (conns conns' : List Handling)
    → AllReach conns
    → move_conn e i conns ≡ some conns'
    → AllReach conns' × MovesAll conns conns'
unfolding move_conn Listen.move_conn MovesAll
move_conn-MovesAll e i [] conns' r h = cc
move_conn-MovesAll e zero (c ∷ conns) conns' (rc, rs) h =
    elim (Option-cases (Connection.step e c)) [
      | inl q ↦ absurd (ground arith)
      | inr (c', q) ↦
          let moved : c' ∷ conns ≡ conns' = ground arith in
          subst (λ l. AllReach l × MovesAll (c ∷ conns) l) moved
            ((Connection.later e rc q, rs), first c' (handle_conn-Refines e rc q))
    ]
  where
    first :
        (x : Handling)
        → (seen x ≡ seen c) ⊎ (k : ConnMove) × (Listen.conn_step k (seen c) ≡ some (seen x))
        → MovesAll (c ∷ conns) (x ∷ conns)
    first x (inl same) = inl (ap (λ y. y ∷ seen_all conns) same)
    first x (inr (k, q)) = inr (0, k, rw (q, Listen.move_conn) refl)
move_conn-MovesAll e (suc i) (c ∷ conns) conns' (rc, rs) h =
    elim (Option-cases (move_conn e i conns)) [
      | inl q ↦ absurd (ground arith)
      | inr (rest, q) ↦
          let moved : c ∷ rest ≡ conns' = ground arith in
          let (rs', m) = move_conn-MovesAll e i conns rest rs q in
          subst (λ l. AllReach l × MovesAll (c ∷ conns) l) moved ((rc, rs'), after rest m)
    ]
  where
    after : (l : List Handling) → MovesAll conns l → MovesAll (c ∷ conns) (c ∷ l)
    after l (inl same) = inl (ap (λ y. seen c ∷ y) same)
    after l (inr (j, k, q)) = inr (suc j, k, rw (q, Listen.move_conn) refl)

-- What is kept: each connection is one that `handleConn` reaches, and `Serve` is where
-- Server.Listen has it.
pub record Inv (s : Serving) : Type 0 where
  pub each : AllReach s.conns
  pub whole : Listen.Reach (view s)

by_step :
    (e : Listen.Move) {s s' : Serving}
    → Inv s
    → s'.conns ≡ s.conns
    → Listen.step e (view s) ≡ some (view s')
    → Inv s'
by_step e inv same q = record {
  each = subst AllReach (sym same) inv.each;
  whole = Listen.later e inv.whole q;
}

by_conns :
    (s : Serving) {conns : List Handling}
    → Listen.Reach (view s)
    → AllReach conns
    → MovesAll s.conns conns
    → Inv (record s { conns = conns })
unfolding MovesAll Listen.step
by_conns s r each (inl same) = record {
  each = each;
  whole = subst (λ l. Listen.Reach (record (view s) { conns = l })) (sym same) r;
}
by_conns s r each (inr (i, e, q)) = record {
  each = each;
  whole = Listen.later (Listen.on_conn i e) r (rw (q, Listen.step) refl);
}

step-Inv : (m : Move) (s s' : Serving) → Inv s → step m s ≡ some s' → Inv s'
unfolding step Listen.step
step-Inv context_ends s s' inv h = by_step Listen.context_ends inv (ground arith) (ground arith)
step-Inv listener_closes s s' inv h =
    by_step Listen.listener_closes inv (ground arith) (ground arith)
step-Inv accepts s s' inv h =
    let conns : s'.conns ≡ connected ∷ s.conns = ground arith in
    record {
      each = subst AllReach (sym conns) (Connection.start, inv.each);
      whole = Listen.later Listen.accepts inv.whole (ground arith);
    }
step-Inv accept_fails s s' inv h = by_step Listen.accept_fails inv (ground arith) (ground arith)
step-Inv serve_returns s s' inv h =
    let closed = seen_all_closed s.conns in
    by_step Listen.serve_returns inv (ground arith) (ground arith)
step-Inv (on_conn i e) s s' inv h = elim (Option-cases (move_conn e i s.conns)) [
  | inl q ↦ absurd (ground arith)
  | inr (conns, q) ↦
      let moved : record s { conns = conns } ≡ s' = ground arith in
      let (each, m) = move_conn-MovesAll e i s.conns conns inv.each q in
      subst Inv moved (by_conns s inv.whole each m)
]

Reach-Inv : {s : Serving} → Reach s → Inv s
Reach-Inv start = record { each = tt; whole = Listen.start }
Reach-Inv (later m r h) = step-Inv m _ _ (Reach-Inv r) h

-- A call of `handleConn` that has left nothing behind.
abbrev pub IsOver : Handling → Type 0
IsOver h =
    (h.handlers ≡ 0)
    × (h.cancelled ≡ true)
    × (h.conn_closed ≡ true)
    × (h.ssh_closed ≡ h.authenticated)

abbrev pub AllOver : List Handling → Type 0
AllOver [] = Unit
AllOver (h ∷ conns) = IsOver h × AllOver conns

returned_phase : (p : Connection.Phase) → is_returned p ≡ true → p ≡ Connection.returned
returned_phase Connection.returned e = refl
returned_phase _ e = cc

all_returned-AllOver :
    (conns : List Handling) → AllReach conns → all_returned conns ≡ true → AllOver conns
unfolding all_returned
all_returned-AllOver [] r e = tt
all_returned-AllOver (h ∷ conns) (rh, rs) e =
    let (guarded, served, joined, watched, ended) = handle_conn-guarded rh in
    (ended (returned_phase h.phase (ground arith)), all_returned-AllOver conns rs (ground arith))

-- However the connections interleave, `Serve` with its connections in detail is in a state that
-- Server.Listen reaches, so what holds of all its states holds here. When `Serve` has returned, the
-- context has ended, and of every connection that was accepted no handler runs, its context has
-- ended, and it is closed, and its SSH connection too if there was one.
pub serve-Refines :
    {s : Serving}
    → Reach s
    → Listen.Reach (view s) × (s.loop ≡ Listen.returned → (s.context_done ≡ true) × AllOver s.conns)
serve-Refines {s} r =
    let inv = Reach-Inv r in
    (
      inv.whole,
      λ l.
          let (ended, closed, idle, still) = (serve_returned inv.whole).0 l in
          (ended, all_returned-AllOver s.conns inv.each (sym (seen_all_closed s.conns) ∙ closed)),
    )
