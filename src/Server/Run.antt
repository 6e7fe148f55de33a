-- ===== src/Server/Run.antt =====
-- internal/server/session.go: how a session runs its program and ends.
use voidshell.Server.Wire.{Request, Wire}
use voidshell.Server.Session.{Program, shell, command, Terminal, no_terminal, serve_requests}
use voidshell.Server.Effects.{
  accept, acquire, attach, report, exit_status, stop_sizes, close_channel, join_requests, Trace,
  then_do, release_once,
}
use voidshell.Prelude.{
  ℕ, Bool, true, false, Option, none, some, List, [], ◌∷◌, ◌++◌, codes, if◌then◌else◌,
}

-- What the calls of a session answer: whether the workspace is acquired, and the exit code of
-- `Attach` and `Exec`, where these do not fail.
pub record Answers : Type 0 where
  pub acquires : Bool
  pub runs : Program → Terminal → Option ℕ

-- The command in a terminal: `append([]string{"env", "TERM=" + term}, command...)`
unfoldable pub with_term : Program → Terminal → Program
with_term shell t = shell
with_term (command args) t =
    command (if t.tty then codes "env" ∷ (codes "TERM=" ++ t.term) ∷ args else args)

-- `if err != nil { code = 1; ... }`
unfoldable pub exit_code : Option ℕ → Trace → Trace × ℕ
exit_code (some code) tr = (tr, code)
exit_code none tr = (then_do report tr, 1)

-- After the workspace is acquired: the effects up to the return of `runSession`, and the code.
unfoldable pub run_program : Answers → Program → Terminal → Trace → Trace × ℕ
unfolding with_term exit_code
run_program a p t tr =
    let program = with_term p t in exit_code (a.runs program t) (then_do (attach program t) tr)

-- `runSession`: its deferred calls release the workspace, and then send the exit status.
unfoldable pub run_session : Answers → Program → Terminal → Trace → Trace
unfolding run_program release_once
run_session a p t tr = elim a.acquires [
  | true ↦
      let (ran, code) = run_program a p t (then_do (acquire true) tr) in
      then_do (exit_status code) (release_once ran)
  | false ↦ then_do (exit_status 1) (then_do report (then_do (acquire false) tr))
]

-- `handleSession` for a backend without direct SSH, after the channel is accepted; its deferred
-- calls come last.
unfoldable pub handle_session : Wire → Answers → List Request → Trace
unfolding run_session
handle_session wire a reqs = elim (serve_requests wire reqs no_terminal).started [
  | none ↦ accept ∷ stop_sizes ∷ close_channel ∷ []
  | some (p, t, rest) ↦
      run_session a p t (accept ∷ [])
      ++ close_channel ∷ join_requests ∷ stop_sizes ∷ close_channel ∷ []
]
