-- ===== src/K8s/Credentials/Examples.antt =====
-- Credentials that are created for a pod.
use voidshell.Prelude.{◌≡◌, refl, codes}
use voidshell.Workspace.Examples.{ascii, alice}
use voidshell.K8s.Pods.{value_of}
use voidshell.K8s.Build.{workspace_ssh_port}
use voidshell.K8s.Monad.{ok}
use voidshell.K8s.Lifecycle.{Manager}
use voidshell.K8s.Ssh.{generate_ssh_key, create_credentials, pin_keys, store_endpoint}
use voidshell.K8s.Credentials.{IsCodec, IsCreated, create_credentials-prepared, ℕ}
use voidshell.K8s.Tunnel.Examples.{steady, ssh_cfg, ssh_pod, unprepared}

steady-IsCodec : IsCodec steady
steady-IsCodec = record { parses = λ key block public m s. cc }

abbrev after : Manager ℕ
after =
    (create_credentials steady ascii ssh_cfg alice ssh_pod (codes "workspace-ssh-abc") unprepared).0

creates :
    create_credentials steady ascii ssh_cfg alice ssh_pod (codes "workspace-ssh-abc") unprepared
    ≡ (after, ok tt)
unfolding create_credentials generate_ssh_key
creates = refl

create_credentials-prepared_example :
    (c : IsCreated steady ascii ssh_cfg steady-IsCodec ssh_pod (codes "workspace-ssh-abc"))
    × (pin_keys steady ascii ssh_cfg (codes "shell-alice") ssh_pod c.secret unprepared
        ≡ store_endpoint steady ascii ssh_cfg
            (codes "shell-alice")
            (record {
              address = ssh_pod.pod_ip;
              port = workspace_ssh_port;
              client_key = value_of (codes "client-key") c.secret.contents;
              host_key = c.keys.host;
            })
            unprepared)
create_credentials-prepared_example =
    create_credentials-prepared steady ascii ssh_cfg steady-IsCodec alice ssh_pod
      (codes "workspace-ssh-abc") (codes "shell-alice") unprepared after unprepared creates
