-- ===== src/K8s/Exec.antt =====
-- internal/k8s/attacher.go: processes in a pod, and how they end. The client library's stream is a
-- parameter.
use voidshell.Prelude.{
  ℕ, ◌-◌, ◌%◌, ◌^◌, Bool, true, not, ◌&&◌, Option, none, some, List, [], ◌∷◌, ◌++◌, Text, codes,
  is_empty, if◌then◌else◌,
}
use voidshell.Config.{ℤ, pos, negsuc}
use voidshell.Workspace.Stdlib.{Stdlib}
use voidshell.Workspace.Selector.{StorageMode}
use voidshell.Workspace.Identity.{Identity, pod_name_for}
use voidshell.K8s.Build.{Config}

-- `corev1.PodExecOptions`, with the pod and its namespace.
pub record ExecOptions : Type 0 where
  pub pod : Text
  pub namespace : Text
  pub container : Text
  pub args : List Text
  pub stdin : Bool
  pub stdout : Bool
  pub stderr : Bool
  pub tty : Bool

-- The error of `StreamWithContext`, seen through `errors.As` and `Exited`: none, the exit status of
-- a process, or another error.
pub data StreamEnd : Type 0 where
  finished broken : StreamEnd
  exited : ℤ → StreamEnd

pub data ExecError : Type 0 where
  no_rest_config creating_stream stream_broken : ExecError

-- `(uint32, error)`
pub record ExecResult : Type 0 where
  pub code : ℕ
  pub error : Option ExecError

-- Whether there is a REST configuration and the executor can be made, and how the stream ends.
pub record Streams : Type 0 where
  pub has_rest_config : Bool
  pub creates_executor : Bool
  pub stream : ExecOptions → StreamEnd

-- `uint32(n)` of an `int`
unfoldable pub u32 : ℤ → ℕ
u32 (pos n) = n % 2 ^ 32
u32 (negsuc n) = 2 ^ 32 - 1 - n % 2 ^ 32

unfoldable pub execution_result : StreamEnd → ExecResult
unfolding u32
execution_result finished = record { code = 0; error = none }
execution_result (exited status) = record { code = u32 status; error = none }
execution_result broken = record { code = 1; error = some stream_broken }

module _ (streams : Streams) (lib : Stdlib) (cfg : Config) where
  -- `Exec`; `has_stderr` says whether the caller gives a writer. The session gives the other two.
  unfoldable pub exec : Identity → StorageMode → List Text → Bool → Bool → ExecResult
  unfolding execution_result
  exec id mode args tty has_stderr =
      if not streams.has_rest_config
      then record { code = 1; error = some no_rest_config }
      else if not streams.creates_executor
      then record { code = 1; error = some creating_stream }
      else execution_result (
          streams.stream (record {
            pod = pod_name_for lib id mode;
            namespace = cfg.namespace;
            container = codes "workspace";
            args = args;
            stdin = true;
            stdout = true;
            stderr = not tty && has_stderr;
            tty = tty;
          }))

  abbrev pub shell_args : List Text
  shell_args =
      if is_empty cfg.shell_command then codes "/bin/bash" ∷ codes "-l" ∷ [] else cfg.shell_command

  -- `Attach`
  unfoldable pub attach : Identity → StorageMode → Text → Bool → Bool → ExecResult
  unfolding exec
  attach id mode term tty has_stderr =
      exec id mode (if tty then codes "env" ∷ (codes "TERM=" ++ term) ∷ shell_args else shell_args)
        tty has_stderr
