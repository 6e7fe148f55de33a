-- ===== src/K8s/Build.antt =====
-- internal/k8s/lifecycle.go and ssh.go: `buildPod` and what it calls.
use voidshell.Prelude.{
  ℕ, ◌==◌, Bool, true, false, none, some, List, [], ◌∷◌, ◌++◌, Text, codes, text_eq, if◌then◌else◌,
}
use voidshell.Workspace.Stdlib.{Stdlib}
use voidshell.Workspace.Selector.{StorageMode, ephemeral, persistent}
use voidshell.Workspace.Identity.{Identity, pod_name_for, pvc_name, workspace_id}
use voidshell.K8s.Pods.{pending, VolumeSource, claim, empty_dir, secret_items, Pod}

-- `Config` of internal/k8s; a duration is a number of nanoseconds, which is not negative.
pub record Config : Type 0 where
  pub backend : Text
  pub namespace : Text
  pub storage_class : Text
  pub storage_size : Text
  pub image : Text
  pub shell_command : List Text
  pub pod_ready_timeout : ℕ
  pub pod_poll_interval : ℕ

abbrev pub workspace_mount_path : Text
workspace_mount_path = codes "/home/workspace"

abbrev pub workspace_label : Text
workspace_label = codes "voidshell.io/workspace-id"

abbrev pub backend_label : Text
backend_label = codes "voidshell.io/backend"

abbrev pub secret_annotation : Text
secret_annotation = codes "voidshell.io/ssh-secret"

abbrev pub workspace_ssh_port : ℕ
workspace_ssh_port = 2222

abbrev pub default_poll_interval : ℕ
default_poll_interval = 2000000000

abbrev pub default_ready_timeout : ℕ
default_ready_timeout = 120000000000

-- `if timeout == 0 { timeout = defaultReadyTimeout }`, and the same for the interval.
abbrev pub or_default : ℕ → ℕ → ℕ
or_default default n = if n == 0 then default else n

abbrev pub poll_interval : Config → ℕ
poll_interval cfg = or_default default_poll_interval cfg.pod_poll_interval

abbrev pub ready_timeout : Config → ℕ
ready_timeout cfg = or_default default_ready_timeout cfg.pod_ready_timeout

-- `m.cfg.Backend == "ssh"`
unfoldable pub direct_ssh_enabled : Config → Bool
direct_ssh_enabled cfg = text_eq cfg.backend (codes "ssh")

-- `configureSSHPod`; `random` is the lower-case text of `rand.Text()`.
unfoldable pub configure_ssh_pod : Text → Pod → Pod
configure_ssh_pod random pod = record pod {
  annotations = record { key = secret_annotation; value = name } ∷ [];
  labels = pod.labels ++ record { key = backend_label; value = codes "ssh" } ∷ [];
  spec = record (pod.spec) {
    container = record (pod.spec.container) {
      command = codes "/usr/local/bin/voidshell-sshd" ∷ [];
      ports = workspace_ssh_port ∷ [];
      probe_port = some workspace_ssh_port;
      mounts =
          pod.spec.container.mounts
          ++ record {
            name = codes "ssh";
            mount_path = codes "/run/voidshell-ssh";
            read_only = true;
          }
            ∷ [];
    };
    volumes =
        pod.spec.volumes
        ++ record {
          name = codes "ssh";
          source = secret_items name 0o440 (
              record { key = codes "host-key"; path = codes "host-key" }
              ∷ record { key = codes "authorized_keys"; path = codes "authorized_keys" }
              ∷ []);
        }
          ∷ [];
  };
}
  where
    name : Text
    name = codes "workspace-ssh-" ++ random

module _ (lib : Stdlib) where
  unfoldable pub workspace_volume_source : Identity → StorageMode → VolumeSource
  workspace_volume_source id persistent = claim (pvc_name lib id)
  workspace_volume_source id ephemeral = empty_dir

  -- The pod before the backend is looked at.
  unfoldable pub base_pod : Identity → StorageMode → Config → Pod
  unfolding workspace_volume_source
  base_pod id mode cfg = record {
    name = pod_name_for lib id mode;
    namespace = cfg.namespace;
    uid = 0;
    labels = record { key = workspace_label; value = workspace_id lib id } ∷ [];
    annotations = [];
    deleting = false;
    spec = record {
      automount_token = false;
      grace_seconds = 1;
      fs_group = 1000;
      container = record {
        name = codes "workspace";
        image = cfg.image;
        command =
            codes "/bin/sh"
            ∷ codes "-c"
            ∷ codes "trap 'exit 0' TERM INT; while :; do sleep 3600 & wait $!; done"
            ∷ [];
        working_dir = workspace_mount_path;
        env =
            record { key = codes "HOME"; value = workspace_mount_path }
            ∷ record { key = codes "VOIDSHELL_USER"; value = id.ssh_user }
            ∷ record { key = codes "USER"; value = codes "voidshell" }
            ∷ record { key = codes "LOGNAME"; value = codes "voidshell" }
            ∷ [];
        run_as_user = 1000;
        run_as_non_root = true;
        allow_privilege_escalation = false;
        dropped = codes "ALL" ∷ [];
        mounts =
            record { name = codes "home"; mount_path = workspace_mount_path; read_only = false }
            ∷ [];
        ports = [];
        probe_port = none;
      };
      volumes = record { name = codes "home"; source = workspace_volume_source id mode } ∷ [];
    };
    phase = pending;
    statuses = [];
    pod_ip = [];
  }

  unfoldable pub build_pod : Identity → StorageMode → Config → Text → Pod
  unfolding base_pod configure_ssh_pod direct_ssh_enabled
  build_pod id mode cfg random =
      let pod = base_pod id mode cfg in
      if direct_ssh_enabled cfg then configure_ssh_pod random pod else pod
