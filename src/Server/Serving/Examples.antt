-- ===== src/Server/Serving/Examples.antt =====
-- A server that is told to stop while one client has a session and another has not authenticated.
use voidshell.Prelude.{◌≡◌, refl, true, false, Option, none, some, List, [], ◌∷◌, codes, text_eq}
use voidshell.Server.Listen
use voidshell.Server.Connection
use voidshell.Server.Connection.{go_on, end_handshake, taken, take_channel}
use voidshell.Server.Serving.{
  Serving, serving, all_returned, move_conn, Move, context_ends, listener_closes, accepts,
  accept_fails, serve_returns, on_conn, step, Reach, start, later,
}
use voidshell.Server.Serving.Refines.{view, AllOver, serve-Refines}

record Run : Type 0 where
  last : Serving
  reach : Reach last

take_step : (r : Run) (m : Move) (o : Option Serving) → step m r.last ≡ o → Run
take_step r m none e = r
take_step r m (some s) e = record { last = s; reach = later m r.reach e }

run : List Move → Run → Run
unfolding take_step
run [] r = r
run (m ∷ ms) r = run ms (take_step r m (step m r.last) refl)

-- The client with the session came first.
abbrev stopped : Run
stopped =
    run
      (accepts
        ∷ on_conn 0 Connection.goes_on
        ∷ on_conn 0 (Connection.handshake_ends true)
        ∷ on_conn 0 Connection.goes_on
        ∷ on_conn 0 Connection.goes_on
        ∷ on_conn 0 (Connection.channel_comes (some (codes "session")))
        ∷ on_conn 0 Connection.context_ends
        ∷ accepts
        ∷ on_conn 0 Connection.goes_on
        ∷ context_ends
        ∷ listener_closes
        ∷ accept_fails
        ∷ on_conn 0 Connection.context_ends
        ∷ on_conn 0 Connection.watcher_closes
        ∷ on_conn 0 (Connection.handshake_ends false)
        ∷ on_conn 0 Connection.goes_on
        ∷ on_conn 0 Connection.goes_on
        ∷ serve_returns
        ∷ on_conn 1 Connection.context_ends
        ∷ on_conn 1 (Connection.channel_comes none)
        ∷ on_conn 1 Connection.goes_on
        ∷ on_conn 1 Connection.handler_returns
        ∷ on_conn 1 Connection.goes_on
        ∷ on_conn 1 Connection.goes_on
        ∷ on_conn 1 Connection.goes_on
        ∷ on_conn 1 Connection.goes_on
        ∷ serve_returns
        ∷ [])
      (record { last = serving; reach = start })

stopped_returned : stopped.last.loop ≡ Listen.returned
unfolding run step move_conn all_returned Connection.step go_on end_handshake taken take_channel
    text_eq
stopped_returned = refl

serve-Refines_example :
    Listen.Reach (view stopped.last)
    × (stopped.last.loop ≡ Listen.returned
        → (stopped.last.context_done ≡ true) × AllOver stopped.last.conns)
serve-Refines_example = serve-Refines stopped.reach
