-- ===== src/Server/Execute.antt =====
-- The exit status that a client gets from a process in the pod: session.go over attacher.go.
use voidshell.Prelude.{
  ℕ, ◌≡◌, refl, Bool, true, false, not, Option, none, some, List, [], ◌∷◌, ◌++◌, Text, codes,
  if◌then◌else◌, ap, ◌∙◌,
}
use voidshell.Workspace.Stdlib.{Stdlib}
use voidshell.Workspace.Selector.{StorageMode}
use voidshell.Workspace.Identity.{Identity, pod_name_for}
use voidshell.K8s.Build.{Config}
use voidshell.K8s.Exec.{
  ExecOptions, StreamEnd, finished, exited, broken, ExecResult, Streams, exec, attach,
  execution_result, u32, shell_args,
}
use voidshell.Server.Session.{Program, shell, command, Terminal}
use voidshell.Server.Effects.{
  Effect, accept, acquire, release, report, exit_status, Trace, then_do, release_once, has_release,
}
use voidshell.Server.Effects
use voidshell.Server.Run.{Answers, with_term, exit_code, run_program, run_session}

abbrev pub code_of : ExecResult → Option ℕ
code_of r = elim r.error [ none ↦ some r.code | some e ↦ none ]

module _ (streams : Streams) (lib : Stdlib) (cfg : Config) (id : Identity)
    (mode : StorageMode) where
  -- What `runSession` calls: `Attach` for the nil command, and else `Exec`; stderr is given where
  -- there is no terminal.
  unfoldable pub pod_runs : Program → Terminal → Option ℕ
  unfolding exec attach
  pod_runs shell t = code_of (attach streams lib cfg id mode t.term t.tty (not t.tty))
  pod_runs (command args) t = code_of (exec streams lib cfg id mode args t.tty (not t.tty))

  abbrev pub in_pod : Answers
  in_pod = record { acquires = true; runs = pod_runs }

  -- The process that a program is: the arguments, in the terminal's environment.
  unfoldable pub process_args : Program → Terminal → List Text
  process_args shell t =
      if t.tty
      then codes "env" ∷ (codes "TERM=" ++ t.term) ∷ shell_args streams lib cfg
      else shell_args streams lib cfg
  process_args (command args) t =
      if t.tty then codes "env" ∷ (codes "TERM=" ++ t.term) ∷ args else args

  -- What the API server is asked to run.
  abbrev pub process : Program → Terminal → ExecOptions
  process p t = record {
    pod = pod_name_for lib id mode;
    namespace = cfg.namespace;
    container = codes "workspace";
    args = process_args p t;
    stdin = true;
    stdout = true;
    stderr = not t.tty;
    tty = t.tty;
  }

  -- The code that the client is told.
  abbrev pub told_code : StreamEnd → ℕ
  told_code finished = 0
  told_code (exited status) = u32 status
  told_code broken = 1

  -- The effects of a session that runs a process in a pod.
  abbrev pub messages : StreamEnd → Trace
  messages broken = report ∷ []
  messages _ = []

  asks_exec :
      (args : List Text) (tty : Bool)
      → streams.has_rest_config ≡ true
      → streams.creates_executor ≡ true
      → exec streams lib cfg id mode args tty (not tty)
        ≡ execution_result (
            streams.stream (record {
              pod = pod_name_for lib id mode;
              namespace = cfg.namespace;
              container = codes "workspace";
              args = args;
              stdin = true;
              stdout = true;
              stderr = not tty;
              tty = tty;
            }))
  unfolding exec
  asks_exec args true h h' = rw (exec, h, h') refl
  asks_exec args false h h' = rw (exec, h, h') refl

  runs_process :
      (p : Program) (t : Terminal)
      → streams.has_rest_config ≡ true
      → streams.creates_executor ≡ true
      → pod_runs (with_term p t) t ≡ code_of (execution_result (streams.stream (process p t)))
  unfolding process_args with_term pod_runs attach
  runs_process shell t h h' = ap code_of (asks_exec (process_args shell t) t.tty h h')
  runs_process (command args) t h h' =
      ap code_of (asks_exec (process_args (command args) t) t.tty h h')

  told_of_end :
      (p : Program) (t : Terminal) (end : StreamEnd)
      → (let (ran, code) =
            exit_code
              (code_of (execution_result end))
              (accept ∷ acquire true ∷ Effects.attach (with_term p t) t ∷ []) in
          then_do (exit_status code) (release_once ran))
        ≡ accept
          ∷ acquire true
          ∷ Effects.attach (with_term p t) t
          ∷ (messages end ++ release ∷ exit_status (told_code end) ∷ [])
  unfolding exit_code execution_result release_once has_release
  told_of_end p t finished = refl
  told_of_end p t (exited status) = refl
  told_of_end p t broken = refl

  -- In a session whose workspace is acquired and for which the API server can be asked, the program
  -- runs in the container `workspace` of the workspace's pod, as the process that its arguments and
  -- terminal make. The client is told the exit status of that process, as an unsigned 32-bit
  -- number, and 1 with a message where the stream breaks; and it is told after the release.
  pub run_session-exit_status :
      (p : Program) (t : Terminal)
      → streams.has_rest_config ≡ true
      → streams.creates_executor ≡ true
      → run_session in_pod p t (accept ∷ [])
        ≡ accept
          ∷ acquire true
          ∷ Effects.attach (with_term p t) t
          ∷ (messages (streams.stream (process p t))
              ++ release ∷ exit_status (told_code (streams.stream (process p t))) ∷ [])
  unfolding run_session run_program
  run_session-exit_status p t h h' =
      ap
        (λ o.
          let (ran, code) =
            exit_code o (accept ∷ acquire true ∷ Effects.attach (with_term p t) t ∷ []) in
          then_do (exit_status code) (release_once ran))
        (runs_process p t h h')
      ∙ told_of_end p t (streams.stream (process p t))
