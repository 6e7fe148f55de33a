-- ===== src/Config.antt =====
-- internal/config/config.go: the configuration, its defaults, and what the environment overrides.
-- The YAML library with the file system is a parameter, and so is `strconv.Atoi`.
use voidshell.Prelude.{
  ℕ, true, false, Option, none, some, List, [], ◌∷◌, Text, codes, text_eq, ◌||◌, ◌==◌,
  if◌then◌else◌, trim_space, is_empty, ◌++◌,
}
pub mod Split
pub mod Backend
mod Examples

-- Go's `int`.
pub data ℤ : Type 0 where
  pos : ℕ → ℤ
  negsuc : ℕ → ℤ

pub record SshConfig : Type 0 where
  pub port : ℤ
  pub host_key_path : Text
  pub host_key_secret : Text

pub record AuthConfig : Type 0 where
  pub allowed_github_users : List Text
  pub key_cache_ttl : Text

pub record KubernetesConfig : Type 0 where
  pub guest_namespace : Text
  pub storage_class : Text
  pub storage_size : Text

pub record WorkspaceConfig : Type 0 where
  pub backend : Text
  pub image : Text
  pub shell_command : List Text

pub record Config : Type 0 where
  pub ssh : SshConfig
  pub auth : AuthConfig
  pub kubernetes : KubernetesConfig
  pub workspace : WorkspaceConfig

-- What `Load` uses: the bytes of a file, the configuration that the YAML of the file makes of
-- another one, `os.Getenv` with the empty text for an unset variable, and `strconv.Atoi`.
pub record Env : Type 0 where
  pub read_file : Text → Option Text
  pub unmarshal : Text → Config → Option Config
  pub getenv : Text → Text
  pub atoi : Text → Option ℤ

pub data LoadError : Type 0 where
  reading parsing wrong_backend : LoadError

pub data Loaded : Type 0 where
  loaded : Config → Loaded
  load_failed : LoadError → Loaded

abbrev pub defaults : Config
defaults = record {
  ssh = record { port = pos 2222; host_key_path = []; host_key_secret = [] };
  auth = record { allowed_github_users = []; key_cache_ttl = codes "5m" };
  kubernetes = record {
    guest_namespace = codes "voidshell-workspaces";
    storage_class = [];
    storage_size = codes "5Gi";
  };
  workspace = record {
    backend = codes "kubernetes";
    image = codes "ghcr.io/stearz/voidshell-workspace:main";
    shell_command = codes "/bin/bash" ∷ codes "-l" ∷ [];
  };
}

-- `strings.Split(s, ",")`: the field that begins with the first text, and the ones after it.
unfoldable pub split_go : List ℕ → Text → List Text
split_go field [] = field ∷ []
split_go field (c ∷ s) = elim (c == b',') [
  | true ↦ field ∷ split_go [] s
  | false ↦ split_go (field ++ c ∷ []) s
]

unfoldable pub keep_trimmed : List Text → List Text
keep_trimmed [] = []
keep_trimmed (p ∷ parts) =
    let t = trim_space p in let rest = keep_trimmed parts in if is_empty t then rest else t ∷ rest

unfoldable pub split_trimmed : Text → List Text
split_trimmed s = keep_trimmed (split_go [] s)

-- `if v := os.Getenv(...); v != "" { field = v }`
abbrev pub or_else : Text → Text → Text
or_else v old = if is_empty v then old else v

abbrev pub list_or_else : Text → List Text → List Text
list_or_else v old = if is_empty v then old else split_trimmed v

module _ (env : Env) where
  abbrev pub port_or_else : Text → ℤ → ℤ
  port_or_else v old = if is_empty v then old else elim (env.atoi v) [ none ↦ old | some p ↦ p ]

  unfoldable pub apply_env : Config → Config
  apply_env c = record {
    ssh = record {
      port = port_or_else (env.getenv (codes "VOIDSHELL_SSH_PORT")) c.ssh.port;
      host_key_path =
          or_else (env.getenv (codes "VOIDSHELL_SSH_HOST_KEY_PATH")) c.ssh.host_key_path;
      host_key_secret =
          or_else (env.getenv (codes "VOIDSHELL_SSH_HOST_KEY_SECRET")) c.ssh.host_key_secret;
    };
    auth = record {
      allowed_github_users =
          list_or_else (env.getenv (codes "VOIDSHELL_AUTH_ALLOWED_USERS"))
            c.auth.allowed_github_users;
      key_cache_ttl =
          or_else (env.getenv (codes "VOIDSHELL_AUTH_KEY_CACHE_TTL")) c.auth.key_cache_ttl;
    };
    kubernetes = record {
      guest_namespace =
          or_else (env.getenv (codes "VOIDSHELL_K8S_GUEST_NAMESPACE")) c.kubernetes.guest_namespace;
      storage_class =
          or_else (env.getenv (codes "VOIDSHELL_K8S_STORAGE_CLASS")) c.kubernetes.storage_class;
      storage_size =
          or_else (env.getenv (codes "VOIDSHELL_K8S_STORAGE_SIZE")) c.kubernetes.storage_size;
    };
    workspace = record {
      backend = or_else (env.getenv (codes "VOIDSHELL_WORKSPACE_BACKEND")) c.workspace.backend;
      image = or_else (env.getenv (codes "VOIDSHELL_WORKSPACE_IMAGE")) c.workspace.image;
      shell_command =
          list_or_else (env.getenv (codes "VOIDSHELL_WORKSPACE_SHELL_COMMAND"))
            c.workspace.shell_command;
    };
  }

  -- The end of `Load`.
  unfoldable pub checked : Config → Loaded
  checked c =
      if text_eq c.workspace.backend (codes "kubernetes")
        || text_eq c.workspace.backend (codes "ssh")
      then loaded c
      else load_failed wrong_backend

  unfoldable pub parsed : Option Config → Loaded
  parsed none = load_failed parsing
  parsed (some c) = checked (apply_env c)

  unfoldable pub contents_read : Option Text → Loaded
  contents_read none = load_failed reading
  contents_read (some text) = parsed (env.unmarshal text defaults)

  unfoldable pub load : Text → Loaded
  load path =
      if is_empty path then checked (apply_env defaults) else contents_read (env.read_file path)
