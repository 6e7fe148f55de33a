-- ===== src/K8s/Accepted.antt =====
-- The pod that `ensurePod` creates is one that the later calls accept.
use voidshell.Prelude.{
  ◌≡◌, refl, Bool, true, false, Option, none, some, List, [], ◌∷◌, Text, text_eq, Bool-cases, inl,
  inr, if◌then◌else◌, is_empty, subst, sym, ◌||◌, codes,
}
use voidshell.Workspace.Stdlib.{Stdlib}
use voidshell.Workspace.Selector.{StorageMode, ephemeral, persistent}
use voidshell.Workspace.Identity.{Identity, pod_name_for}
use voidshell.K8s.Pods.{Pod, Mount, Volume, claim, empty_dir, secret_items, value_of, KeyToPath}
use voidshell.K8s.Build.{
  Config, build_pod, base_pod, configure_ssh_pod, direct_ssh_enabled, secret_annotation,
  workspace_volume_source,
}
use voidshell.K8s.Lifecycle.{Api, backend_mismatch, new_claim}

-- A volume of a name is among some volumes.
unfoldable pub has_volume : Text → List Volume → Bool
has_volume name [] = false
has_volume name (v ∷ volumes) = if text_eq v.name name then true else has_volume name volumes

unfoldable pub all_mounted : List Mount → List Volume → Bool
all_mounted [] volumes = true
all_mounted (m ∷ mounts) volumes =
    if has_volume m.name volumes then all_mounted mounts volumes else false

-- The secret of the SSH volume, if a pod has one.
unfoldable pub ssh_secret : List Volume → Option Text
ssh_secret [] = none
ssh_secret (v ∷ volumes) = elim v.source [
  | claim c ↦ ssh_secret volumes
  | empty_dir ↦ ssh_secret volumes
  | secret_items name default_mode items ↦ some name
]

-- Whether a volume of a secret has a file for an entry: Kubernetes projects the entries that are
-- listed, and every entry where none is listed.
unfoldable pub has_item : Text → List KeyToPath → Bool
has_item key [] = false
has_item key (item ∷ items) = if text_eq item.key key then true else has_item key items

unfoldable pub exposes_item : Text → List KeyToPath → Bool
unfolding has_item
exposes_item key [] = true
exposes_item key (item ∷ items) = has_item key (item ∷ items)

unfoldable pub exposes : Text → List Volume → Bool
unfolding exposes_item
exposes key [] = false
exposes key (v ∷ volumes) = elim v.source [
  | claim c ↦ exposes key volumes
  | empty_dir ↦ exposes key volumes
  | secret_items name default_mode items ↦ exposes_item key items || exposes key volumes
]

-- The claim of the home volume, if it has one.
unfoldable pub home_claim : List Volume → Option Text
home_claim [] = none
home_claim (v ∷ volumes) = elim v.source [
  | claim c ↦ some c
  | empty_dir ↦ home_claim volumes
  | secret_items name default_mode items ↦ home_claim volumes
]

module _ {W : Type 0} (api : Api W) (lib : Stdlib) (cfg : Config) where
  -- What the later calls look for in a pod that is created.
  pub record IsAccepted (id : Identity) (mode : StorageMode) (pod : Pod) : Type 0 where
    pub named : pod.name ≡ pod_name_for lib id mode
    pub same_backend : backend_mismatch api lib cfg pod ≡ false
    pub mounted : all_mounted pod.spec.container.mounts pod.spec.volumes ≡ true
    pub home :
        home_claim pod.spec.volumes
        ≡ elim mode [ ephemeral ↦ none | persistent ↦ some (new_claim api lib cfg id).name ]
    pub reference :
        direct_ssh_enabled cfg ≡ true
        → (is_empty (value_of secret_annotation pod.annotations) ≡ false)
          × (ssh_secret pod.spec.volumes ≡ some (value_of secret_annotation pod.annotations))
    pub hidden : exposes (codes "client-key") pod.spec.volumes ≡ false

  plain-IsAccepted :
      (id : Identity) (mode : StorageMode)
      → direct_ssh_enabled cfg ≡ false
      → IsAccepted id mode (base_pod lib id mode cfg)
  unfolding base_pod backend_mismatch all_mounted has_volume home_claim workspace_volume_source
      new_claim value_of text_eq exposes exposes_item has_item
  plain-IsAccepted id ephemeral e = record {
    named = refl;
    same_backend = e;
    mounted = refl;
    home = refl;
    reference = λ d. cc;
    hidden = refl;
  }
  plain-IsAccepted id persistent e = record {
    named = refl;
    same_backend = e;
    mounted = refl;
    home = refl;
    reference = λ d. cc;
    hidden = refl;
  }

  ssh-IsAccepted :
      (id : Identity) (mode : StorageMode) (random : Text)
      → direct_ssh_enabled cfg ≡ true
      → IsAccepted id mode (configure_ssh_pod random (base_pod lib id mode cfg))
  unfolding base_pod configure_ssh_pod backend_mismatch all_mounted has_volume home_claim
      workspace_volume_source new_claim value_of text_eq exposes exposes_item has_item ssh_secret
  ssh-IsAccepted id ephemeral random e = record {
    named = refl;
    same_backend = rw e refl;
    mounted = refl;
    home = refl;
    reference = λ d. (refl, refl);
    hidden = refl;
  }
  ssh-IsAccepted id persistent random e = record {
    named = refl;
    same_backend = rw e refl;
    mounted = refl;
    home = refl;
    reference = λ d. (refl, refl);
    hidden = refl;
  }

  -- The pod that is created, with any random text for its secret, has the workspace's name and the
  -- label of the configured backend; each mount has its volume; a persistent workspace's home is
  -- the claim that `ensurePVC` creates, and an ephemeral one's is no claim; and with direct SSH the
  -- pod names a secret, which is the one that its SSH volume takes. No volume gives the pod the
  -- client key, as one of the entries that it lists or because it lists none.
  pub build_pod-IsAccepted :
      (id : Identity) (mode : StorageMode) (random : Text)
      → IsAccepted id mode (build_pod lib id mode cfg random)
  unfolding build_pod
  build_pod-IsAccepted id mode random = elim (Bool-cases (direct_ssh_enabled cfg)) [
    | inl e ↦
        subst
          (λ b. IsAccepted id mode (
            if b
            then configure_ssh_pod random (base_pod lib id mode cfg)
            else base_pod lib id mode cfg))
          (sym e) (ssh-IsAccepted id mode random e)
    | inr e ↦
        subst
          (λ b. IsAccepted id mode (
            if b
            then configure_ssh_pod random (base_pod lib id mode cfg)
            else base_pod lib id mode cfg))
          (sym e) (plain-IsAccepted id mode e)
  ]
