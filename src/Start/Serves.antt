-- ===== src/Start/Serves.antt =====
-- What the program has checked when it begins to serve.
use voidshell.Prelude.{
  ◌≡◌, ◌⊎◌, refl, Option, none, some, Text, codes, ◌↔◌, true, text_eq_iff, [], subst, arith,
}
use voidshell.Config
use voidshell.Config.{ℤ, Env, Loaded, loaded, load_failed, load}
use voidshell.Config.Backend.{IsChosen, load-IsChosen}
use voidshell.K8s.Build.{direct_ssh_enabled}
use voidshell.Server.HostKey.{HostKey, failed, load_host_key, InFile, InSecret, load_host_key_iff}
use voidshell.Start.{
  Machine, Service, serves, start, with_config, with_ttl, with_manager, with_key,
  new_from_kubeconfig, pod_namespace, manager_config, sources, address, listen_and_serve, service,
  Secrets,
}

module _ (machine : Machine) where
  -- The service is set up from a configuration that was loaded.
  pub record IsSetUp (path : Text) (s : Service) : Type 0 where
    pub cfg : Config.Config
    pub configured : load machine.env path ≡ loaded cfg
    pub chosen : IsChosen machine.env cfg
    pub ttl : machine.parse_duration cfg.auth.key_cache_ttl ≡ some s.ttl
    pub listening : machine.listens (address machine cfg.ssh.port) ≡ true
    pub users : s.allowed_users ≡ cfg.auth.allowed_github_users
    pub backend : (direct_ssh_enabled s.manager ≡ true) ↔ (cfg.workspace.backend ≡ codes "ssh")
    pub secrets : Secrets machine
    pub connected : new_from_kubeconfig machine [] ≡ some secrets
    pub host_key :
        InFile (sources machine secrets) cfg.ssh s.host_key
        ⊎ InSecret
            (sources machine secrets)
            cfg.ssh
            (pod_namespace machine cfg.kubernetes.guest_namespace)
            s.host_key

  serves_of :
      (a b : Service) (addr : Text)
      → listen_and_serve machine a addr ≡ serves b
      → (machine.listens addr ≡ true) × (a ≡ b)
  unfolding listen_and_serve
  serves_of a b addr h = (ground arith, same (ground arith))
    where
      same : serves a ≡ serves b → a ≡ b
      same q = cc

  key_of :
      (cfg : Config.Config) (ttl : ℤ) (k : HostKey) (s : Service)
      → with_key machine cfg ttl k ≡ serves s
      → (key : Text) × (k ≡ HostKey.loaded key)
        × (machine.listens (address machine cfg.ssh.port) ≡ true)
        × (service machine cfg ttl key ≡ s)
  key_of cfg ttl (failed e) s h = cc
  key_of cfg ttl (HostKey.loaded key) s h =
      let (listens, same) = serves_of (service machine cfg ttl key) s _ h in
      (key, refl, listens, same)

  manager_of :
      (cfg : Config.Config) (ttl : ℤ) (o : Option (Secrets machine)) (s : Service)
      → with_manager machine cfg ttl o ≡ serves s
      → (secrets : Secrets machine) × (o ≡ some secrets)
        × (with_manager machine cfg ttl (some secrets) ≡ serves s)
  manager_of cfg ttl none s h = cc
  manager_of cfg ttl (some secrets) s h = (secrets, refl, h)

  ttl_of :
      (cfg : Config.Config) (o : Option ℤ) (s : Service)
      → with_ttl machine cfg o ≡ serves s
      → (ttl : ℤ) × (o ≡ some ttl)
        × (with_manager machine cfg ttl (new_from_kubeconfig machine []) ≡ serves s)
  ttl_of cfg none s h = cc
  ttl_of cfg (some ttl) s h = (ttl, refl, h)

  config_of :
      (o : Loaded) (s : Service)
      → with_config machine o ≡ serves s
      → (cfg : Config.Config) × (o ≡ loaded cfg)
        × (with_ttl machine cfg (machine.parse_duration cfg.auth.key_cache_ttl) ≡ serves s)
  config_of (load_failed e) s h = cc
  config_of (loaded cfg) s h = (cfg, refl, h)

  set_up :
      (path : Text) (cfg : Config.Config) (ttl : ℤ) (secrets : Secrets machine) (key : Text)
      → load machine.env path ≡ loaded cfg
      → machine.parse_duration cfg.auth.key_cache_ttl ≡ some ttl
      → new_from_kubeconfig machine [] ≡ some secrets
      → load_host_key
          (sources machine secrets)
          cfg.ssh
          (pod_namespace machine cfg.kubernetes.guest_namespace)
        ≡ HostKey.loaded key
      → machine.listens (address machine cfg.ssh.port) ≡ true
      → IsSetUp path (service machine cfg ttl key)
  unfolding service manager_config direct_ssh_enabled
  set_up path cfg ttl secrets key l t n k on = record {
    cfg = cfg;
    configured = l;
    chosen = load-IsChosen machine.env path cfg l;
    ttl = t;
    listening = on;
    users = refl;
    backend = text_eq_iff cfg.workspace.backend (codes "ssh");
    secrets = secrets;
    connected = n;
    host_key =
        (load_host_key_iff (sources machine secrets) cfg.ssh
            (pod_namespace machine cfg.kubernetes.guest_namespace) key).0
          k;
  }

  -- The program serves only with a configuration that it has loaded, whose backend is `kubernetes`
  -- or `ssh`, and the one that the environment names if any; with a lifetime of the key cache that
  -- could be parsed, and the users of the configuration; with direct SSH exactly where the backend
  -- is `ssh`; after it could listen at the port of the configuration; and with a host key from the
  -- file of the configuration, or else from the secret that it names, in the namespace of the
  -- program's pod.
  pub start-IsSetUp : (path : Text) (s : Service) → start machine path ≡ serves s → IsSetUp path s
  unfolding start
  start-IsSetUp path s h =
      let (cfg, l, h1) = config_of (load machine.env path) s h in
      let (ttl, t, h2) = ttl_of cfg (machine.parse_duration cfg.auth.key_cache_ttl) s h1 in
      let (secrets, n, h3) = manager_of cfg ttl (new_from_kubeconfig machine []) s h2 in
      let (key, k, on, same) =
        key_of cfg ttl
          (load_host_key (sources machine secrets) cfg.ssh
            (pod_namespace machine cfg.kubernetes.guest_namespace))
          s h3 in
      subst (IsSetUp path) same (set_up path cfg ttl secrets key l t n k on)
