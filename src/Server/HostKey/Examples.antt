-- ===== src/Server/HostKey/Examples.antt =====
-- A secret with two keys under recognized names.
use voidshell.Prelude.{◌≡◌, refl, some, none, [], codes, text_eq, if◌then◌else◌, ◌↔◌, ◌⊎◌}
use voidshell.Config.{SshConfig, pos}
use voidshell.Server.HostKey.{
  Sources, loaded, load_host_key, load_host_key_from_secret, find_key, InFile, InSecret,
  load_host_key_iff,
}

abbrev two_keys : Sources
two_keys = record {
  read_file = λ path. none;
  get_secret = λ namespace name. some (λ entry.
      if text_eq entry (codes "key")
      then some (codes "OLD")
      else if text_eq entry (codes "ssh_host_rsa_key")
      then some (codes "RSA")
      else none);
  parse = λ contents. some contents;
}

abbrev in_secret : SshConfig
in_secret = record { port = pos 2222; host_key_path = []; host_key_secret = codes "voidshell" }

rsa_first : load_host_key two_keys in_secret (codes "guests") ≡ loaded (codes "RSA")
unfolding load_host_key load_host_key_from_secret find_key text_eq
rsa_first = refl

load_host_key_iff_example :
    (load_host_key two_keys in_secret (codes "guests") ≡ loaded (codes "RSA")) ↔ (
      InFile two_keys in_secret (codes "RSA")
      ⊎ InSecret two_keys in_secret (codes "guests") (codes "RSA"))
load_host_key_iff_example = load_host_key_iff two_keys in_secret (codes "guests") (codes "RSA")
