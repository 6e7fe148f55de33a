-- ===== src/Server/Listen/Examples.antt =====
-- A server that is told to stop while a session runs.
use voidshell.Prelude.{true, [], ◌∷◌, false}
use voidshell.Server.Listen.{Listening, joining, returned, waiting, closed}

abbrev session_runs : Listening
session_runs = record {
  context_done = true;
  listener_closed = false;
  loop = joining;
  conns = waiting 1 ∷ [];
}

abbrev all_ended : Listening
all_ended = record session_runs { loop = returned; conns = closed 0 ∷ [] }
