-- ===== src/Server/HostKey.antt =====
-- internal/server/hostkey.go: where the server's host key comes from. The file system, the API
-- server and the parser of private keys are a parameter.
mod Examples
use voidshell.Prelude.{
  ℕ, ◌≡◌, ◌≢◌, ◌↔◌, ◌⊎◌, inl, inr, refl, Bool, true, false, Option, none, some, List, [], ◌∷◌, ◌++◌,
  Text, codes, All, is_empty, if◌then◌else◌, Bool-cases, Option-cases, arith, not, subst, sym,
}
use voidshell.Config.{SshConfig}

-- `os.ReadFile`; the data of a secret, by namespace and name, with the value of each key; and
-- `ssh.ParsePrivateKey`, with a signer as a text.
pub record Sources : Type 0 where
  pub read_file : Text → Option Text
  pub get_secret : Text → Text → Option (Text → Option Text)
  pub parse : Text → Option Text

pub data HostKeyError : Type 0 where
  not_configured reading parsing getting_secret no_key_field : HostKeyError

pub data HostKey : Type 0 where
  loaded : Text → HostKey
  failed : HostKeyError → HostKey

abbrev pub key_names : List Text
key_names =
    codes "host-key"
    ∷ codes "ssh_host_ed25519_key"
    ∷ codes "ssh_host_rsa_key"
    ∷ codes "hostkey"
    ∷ codes "key"
    ∷ []

abbrev pub signer : Option Text → HostKey
signer none = failed parsing
signer (some key) = loaded key

module _ (src : Sources) where
  abbrev pub parse_file : Option Text → HostKey
  parse_file none = failed reading
  parse_file (some contents) = signer (src.parse contents)

  unfoldable pub load_host_key_from_file : Text → HostKey
  load_host_key_from_file path = parse_file (src.read_file path)

  -- The loop over the names: the first that the secret has decides.
  unfoldable pub find_key : (Text → Option Text) → List Text → HostKey
  find_key entries [] = failed no_key_field
  find_key entries (name ∷ names) = elim (entries name) [
    | none ↦ find_key entries names
    | some contents ↦ signer (src.parse contents)
  ]

  abbrev pub find_in : Option (Text → Option Text) → HostKey
  find_in none = failed getting_secret
  find_in (some entries) = find_key entries key_names

  unfoldable pub load_host_key_from_secret : Text → Text → HostKey
  load_host_key_from_secret namespace name = find_in (src.get_secret namespace name)

  -- `LoadHostKey`
  unfoldable pub load_host_key : SshConfig → Text → HostKey
  load_host_key cfg namespace =
      if not (is_empty cfg.host_key_path)
      then load_host_key_from_file cfg.host_key_path
      else if not (is_empty cfg.host_key_secret)
      then load_host_key_from_secret namespace cfg.host_key_secret
      else failed not_configured

  -- A key in the file of the configuration.
  pub record InFile (cfg : SshConfig) (key : Text) : Type 0 where
    pub configured : is_empty cfg.host_key_path ≡ false
    pub contents : Text
    pub read : src.read_file cfg.host_key_path ≡ some contents
    pub parsed : src.parse contents ≡ some key

  -- A key in an entry of a secret, with no entry under the names before.
  pub record InEntry (entries : Text → Option Text) (names : List Text) (key : Text) : Type 0 where
    pub before : List Text
    pub name : Text
    pub after : List Text
    pub split : names ≡ before ++ name ∷ after
    pub absent : All (λ n. entries n ≡ none) before
    pub contents : Text
    pub present : entries name ≡ some contents
    pub parsed : src.parse contents ≡ some key

  -- A key in the secret of the configuration, where that names no file.
  pub record InSecret (cfg : SshConfig) (namespace key : Text) : Type 0 where
    pub no_file : is_empty cfg.host_key_path ≡ true
    pub configured : is_empty cfg.host_key_secret ≡ false
    pub entries : Text → Option Text
    pub given : src.get_secret namespace cfg.host_key_secret ≡ some entries
    pub entry : InEntry entries key_names key

  signed : (o : Option Text) (key : Text) → signer o ≡ loaded key → o ≡ some key
  signed none key h = cc
  signed (some k) key h = cc

  found_entry :
      (entries : Text → Option Text) (names : List Text) (key : Text)
      → find_key entries names ≡ loaded key
      → InEntry entries names key
  unfolding find_key
  found_entry entries [] key h = cc
  found_entry entries (name ∷ names) key h = elim (Option-cases (entries name)) [
    | inl e ↦
        let more = found_entry entries names key (rw (find_key, e) at h) in
        record {
          before = name ∷ more.before;
          name = more.name;
          after = more.after;
          split = λ i. name ∷ more.split i;
          absent = (e, more.absent);
          contents = more.contents;
          present = more.present;
          parsed = more.parsed;
        }
    | inr (contents, e) ↦ record {
      before = [];
      name = name;
      after = names;
      split = refl;
      absent = tt;
      contents = contents;
      present = e;
      parsed = signed (src.parse contents) key (rw (find_key, e) at h);
    }
  ]

  entry_found :
      (entries : Text → Option Text) (before after : List Text) (name contents key : Text)
      → All (λ n. entries n ≡ none) before
      → entries name ≡ some contents
      → src.parse contents ≡ some key
      → find_key entries (before ++ name ∷ after) ≡ loaded key
  unfolding find_key
  entry_found entries [] after name contents key absent e p = rw (e, p) refl
  entry_found entries (n ∷ before) after name contents key (missing, absent) e p =
      rw missing (entry_found entries before after name contents key absent e p)

  file_key :
      (o : Option Text) (key : Text)
      → parse_file o ≡ loaded key
      → (contents : Text) × (o ≡ some contents) × (src.parse contents ≡ some key)
  file_key none key h = cc
  file_key (some contents) key h = (contents, refl, signed (src.parse contents) key h)

  secret_key :
      (o : Option (Text → Option Text)) (key : Text)
      → find_in o ≡ loaded key
      → (entries : Text → Option Text) × (o ≡ some entries) × InEntry entries key_names key
  secret_key none key h = cc
  secret_key (some entries) key h = (entries, refl, found_entry entries key_names key h)

  load_host_key_sound :
      (cfg : SshConfig) (namespace key : Text)
      → load_host_key cfg namespace ≡ loaded key
      → InFile cfg key ⊎ InSecret cfg namespace key
  unfolding load_host_key load_host_key_from_file load_host_key_from_secret
  load_host_key_sound cfg namespace key h = elim (Bool-cases (is_empty cfg.host_key_path)) [
    | inr e ↦
        let (contents, r, p) = file_key (src.read_file cfg.host_key_path) key (rw e at h) in
        inl (record { configured = e; contents = contents; read = r; parsed = p })
    | inl e ↦ elim (Bool-cases (is_empty cfg.host_key_secret)) [
      | inr f ↦
          let (entries, g, entry) =
            secret_key (src.get_secret namespace cfg.host_key_secret) key (rw (e, f) at h) in
          inr (record { no_file = e; configured = f; entries = entries; given = g; entry = entry })
      | inl f ↦ absurd (let z = rw (e, f) at h in cc)
    ]
  ]

  load_host_key_complete :
      (cfg : SshConfig) (namespace key : Text)
      → InFile cfg key ⊎ InSecret cfg namespace key
      → load_host_key cfg namespace ≡ loaded key
  unfolding load_host_key load_host_key_from_file load_host_key_from_secret
  load_host_key_complete cfg namespace key (inl f) = rw (f.configured, f.read, f.parsed) refl
  load_host_key_complete cfg namespace key (inr s) =
      let entry = s.entry in
      rw (s.no_file, s.configured, s.given)
        (subst (λ l. find_key s.entries l ≡ loaded key) (sym entry.split)
          (entry_found s.entries entry.before entry.after entry.name entry.contents key entry.absent
            entry.present entry.parsed))

  -- The server's host key is a key exactly when it is the one in the file of the configuration; or
  -- the configuration names no file but a secret, and it is the one in the first entry that the
  -- secret has under the names `host-key`, `ssh_host_ed25519_key`, `ssh_host_rsa_key`, `hostkey`
  -- and `key`, in this order.
  pub load_host_key_iff :
      (cfg : SshConfig) (namespace key : Text)
      → (load_host_key cfg namespace ≡ loaded key) ↔ (InFile cfg key ⊎ InSecret cfg namespace key)
  load_host_key_iff cfg namespace key =
      (load_host_key_sound cfg namespace key, load_host_key_complete cfg namespace key)
