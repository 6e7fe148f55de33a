-- ===== src/K8s/Pods.antt =====
-- The Kubernetes objects that internal/k8s reads and writes, with the fields that it uses.
use voidshell.Prelude.{ℕ, Bool, Option, List, [], ◌∷◌, Text, text_eq, if◌then◌else◌}

pub data Phase : Type 0 where
  pending running succeeded failed unknown : Phase

pub record ContainerStatus : Type 0 where
  pub name : Text
  pub ready : Bool

-- `corev1.EnvVar`, and entries of label and annotation maps.
pub record Entry : Type 0 where
  pub key : Text
  pub value : Text

-- `corev1.VolumeMount`
pub record Mount : Type 0 where
  pub name : Text
  pub mount_path : Text
  pub read_only : Bool

-- `corev1.KeyToPath`
pub record KeyToPath : Type 0 where
  pub key : Text
  pub path : Text

-- `corev1.VolumeSource`
pub data VolumeSource : Type 0 where
  claim : (claim_name : Text) → VolumeSource
  empty_dir : VolumeSource
  secret_items : (secret_name : Text) → (default_mode : ℕ) → List KeyToPath → VolumeSource

pub record Volume : Type 0 where
  pub name : Text
  pub source : VolumeSource

-- `corev1.Container`; `ports` holds the container ports and `probe_port` the port of the readiness
-- probe.
pub record Container : Type 0 where
  pub name : Text
  pub image : Text
  pub command : List Text
  pub working_dir : Text
  pub env : List Entry
  pub run_as_user : ℕ
  pub run_as_non_root : Bool
  pub allow_privilege_escalation : Bool
  pub dropped : List Text
  pub mounts : List Mount
  pub ports : List ℕ
  pub probe_port : Option ℕ

-- The restart policy is always Never.
pub record PodSpec : Type 0 where
  pub automount_token : Bool
  pub grace_seconds : ℕ
  pub fs_group : ℕ
  pub container : Container
  pub volumes : List Volume

-- `deleting` says that the deletion timestamp is set; `uid` tells pods of one name apart.
pub record Pod : Type 0 where
  pub name : Text
  pub namespace : Text
  pub uid : ℕ
  pub labels : List Entry
  pub annotations : List Entry
  pub deleting : Bool
  pub spec : PodSpec
  pub phase : Phase
  pub statuses : List ContainerStatus
  pub pod_ip : Text

-- The owner is the uid of the controller.
pub record Secret : Type 0 where
  pub name : Text
  pub namespace : Text
  pub labels : List Entry
  pub owner : Option ℕ
  pub immutable : Bool
  pub contents : List Entry

-- The access mode is always ReadWriteOnce.
pub record Claim : Type 0 where
  pub name : Text
  pub namespace : Text
  pub labels : List Entry
  pub size : Text
  pub storage_class : Option Text

-- A read of a Go map of strings: the empty string where the key is absent.
unfoldable pub value_of : Text → List Entry → Text
value_of k [] = []
value_of k (e ∷ entries) = if text_eq e.key k then e.value else value_of k entries
