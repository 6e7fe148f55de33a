-- ===== src/Server/Channel/Examples.antt =====
-- Channels with concrete answers.
use voidshell.Prelude.{◌≡◌, refl, some, true, false, [], ◌∷◌, ◌++◌, codes, ◌⊎◌}
use voidshell.Config.{pos}
use voidshell.Workspace.Selector.{ephemeral}
use voidshell.Workspace.Examples.{ascii, alice}
use voidshell.K8s.Build.{Config}
use voidshell.K8s.Exec.{Streams, exited}
use voidshell.Server.Wire.{DirectTcpIp}
use voidshell.Server.Session.{in_shell, no_terminal}
use voidshell.Server.Effects.{accept, acquire, attach, release, exit_status}
use voidshell.Server.Examples.{wire}
use voidshell.Server.Run.{run_session, with_term}
use voidshell.Server.Direct
use voidshell.Server.Direct.{
  Untouched, Forwarded, IsLocal, handle_direct_tcpip, handle_direct_tcpip-IsLocal,
}
use voidshell.Server.Execute.{in_pod, messages, told_code, run_session-exit_status}
use voidshell.Server.Channel.{
  Answers, NewChannel, IsOrderly, handle_channel, handle_channel-IsOrderly,
}

abbrev forwarding : Direct.Answers
forwarding = record { can_forward = true; accepts = true; acquires = true }

handle_direct_tcpip-IsLocal_example :
    Untouched (handle_direct_tcpip wire forwarding (codes "localhost"))
    ⊎ (msg : DirectTcpIp) × (wire.read_direct (codes "localhost") ≡ some msg)
      × IsLocal msg
      × Forwarded msg.port (handle_direct_tcpip wire forwarding (codes "localhost"))
handle_direct_tcpip-IsLocal_example =
    handle_direct_tcpip-IsLocal wire forwarding (codes "localhost")

-- The process ends with status 3.
abbrev three : Streams
three = record {
  has_rest_config = true;
  creates_executor = true;
  stream = λ options. exited (pos 3);
}

abbrev cfg : Config
cfg = record {
  backend = codes "kubernetes";
  namespace = codes "guests";
  storage_class = [];
  storage_size = codes "5Gi";
  image = codes "workspace:main";
  shell_command = codes "/bin/bash" ∷ [];
  pod_ready_timeout = 0;
  pod_poll_interval = 0;
}

run_session-exit_status_example :
    run_session
      (in_pod three ascii cfg alice ephemeral)
      (in_shell (codes "exit 3"))
      no_terminal
      (accept ∷ [])
    ≡ accept
      ∷ acquire true
      ∷ attach (with_term (in_shell (codes "exit 3")) no_terminal) no_terminal
      ∷ (messages three ascii cfg alice ephemeral (exited (pos 3))
          ++ release
            ∷ exit_status (told_code three ascii cfg alice ephemeral (exited (pos 3)))
            ∷ [])
run_session-exit_status_example =
    run_session-exit_status three ascii cfg alice ephemeral (in_shell (codes "exit 3")) no_terminal
      refl refl

abbrev answers : Answers
answers = record {
  accepts = true;
  direct_ssh = false;
  run = record { acquires = true; runs = λ p t. some 3 };
  relay = record {
    acquires = true;
    opens_ssh = false;
    opens_remote = false;
    remote_requests = [];
    cancelled = false;
  };
  direct = forwarding;
}

abbrev shell_channel : NewChannel
shell_channel = record {
  channel_type = codes "session";
  extra_data = [];
  requests = record { kind = codes "shell"; want_reply = true; payload = [] } ∷ [];
}

handle_channel-IsOrderly_example : IsOrderly (handle_channel wire answers shell_channel)
handle_channel-IsOrderly_example = handle_channel-IsOrderly wire answers shell_channel
