-- ===== src/Server/Connection/Examples.antt =====
-- A connection with one session that the client drops.
use voidshell.Prelude.{
  ◌≡◌, ◌⊎◌, refl, true, false, Option, none, some, List, [], ◌∷◌, codes, text_eq,
}
use voidshell.Server.Connection.{
  Handling, handshaking, serving, joining, returned, connected, go_on, end_handshake, taken,
  take_channel, Move, goes_on, handler_returns, watcher_closes, waiter_cancels, handshake_ends,
  channel_comes, step, Reach, start, later,
}
use voidshell.Server.Connection.Guarded.{handle_conn-guarded}

record Run : Type 0 where
  last : Handling
  reach : Reach last

take_step : (r : Run) (m : Move) (o : Option Handling) → step m r.last ≡ o → Run
take_step r m none e = r
take_step r m (some s) e = record { last = s; reach = later m r.reach e }

run : List Move → Run → Run
unfolding take_step
run [] r = r
run (m ∷ ms) r = run ms (take_step r m (step m r.last) refl)

abbrev at_start : Run
at_start = record { last = connected; reach = start }

-- The handler still runs.
abbrev dropped : Run
dropped =
    run
      (goes_on
        ∷ handshake_ends true
        ∷ goes_on
        ∷ goes_on
        ∷ channel_comes (some (codes "session"))
        ∷ channel_comes (some (codes "x11"))
        ∷ waiter_cancels
        ∷ watcher_closes
        ∷ channel_comes none
        ∷ goes_on
        ∷ [])
      at_start

abbrev over : Run
over = run (handler_returns ∷ goes_on ∷ goes_on ∷ goes_on ∷ goes_on ∷ []) dropped

over_returned : (dropped.last.handlers ≡ 1) × (over.last.phase ≡ returned)
unfolding run step go_on end_handshake taken take_channel text_eq
over_returned = (refl, refl)

-- A client that does not authenticate in time.
refused_returned :
    (run (goes_on ∷ handshake_ends false ∷ goes_on ∷ goes_on ∷ []) at_start).last.phase ≡ returned
unfolding run step go_on end_handshake
refused_returned = refl

handle_conn-guarded_example :
    (over.last.phase ≡ handshaking → (over.last.deadline ≡ true) × (over.last.handlers ≡ 0))
    × (over.last.phase ≡ serving → (over.last.authenticated ≡ true) × (over.last.deadline ≡ false))
    × (over.last.phase ≡ joining → over.last.cancelled ≡ true)
    × (over.last.cancelled ≡ true
        → (over.last.conn_closed ≡ true)
          ⊎ (s : Handling) × (step watcher_closes over.last ≡ some s) × (s.conn_closed ≡ true))
    × (over.last.phase ≡ returned
        → (over.last.handlers ≡ 0)
          × (over.last.cancelled ≡ true)
          × (over.last.conn_closed ≡ true)
          × (over.last.ssh_closed ≡ over.last.authenticated))
handle_conn-guarded_example = handle_conn-guarded over.reach
