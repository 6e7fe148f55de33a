-- ===== src/Start/Examples.antt =====
-- A machine with a host key in a file.
use voidshell.K8s.Decimal.{itoa}
use voidshell.Prelude.{◌++◌, ◌+◌, Text, ◌≡◌, refl, some, none, [], codes, text_eq, if◌then◌else◌}
use voidshell.Config.{Env, load, checked, apply_env, defaults, pos, negsuc, ℤ}
use voidshell.Server.HostKey.{load_host_key, load_host_key_from_file}
use voidshell.Start.{
  Machine, Service, serves, start, new_from_kubeconfig, pod_namespace, manager_config, service,
  listen_and_serve,
}
use voidshell.Start.Serves.{IsSetUp, start-IsSetUp}

abbrev env : Env
env = record {
  read_file = λ path. if text_eq path (codes "/key") then some (codes "HOST") else none;
  unmarshal = λ text c. none;
  getenv = λ name. if text_eq name (codes "VOIDSHELL_SSH_HOST_KEY_PATH") then codes "/key" else [];
  atoi = λ s. none;
}

abbrev printed : ℤ → Text
printed (pos n) = itoa n
printed (negsuc n) = codes "-" ++ itoa (n + 1)

abbrev machine : Machine
machine = record {
  env = env;
  parse_duration = λ s. some (pos 300000000000);
  in_cluster = some (codes "cluster");
  kubeconfig = λ path. none;
  new_client = λ cfg. some (λ namespace name. none);
  parse_key = λ contents. some contents;
  print_int = printed;
  listens = λ addr. text_eq addr (codes ":2222");
}

abbrev expected : Service
expected = record {
  allowed_users = [];
  ttl = pos 300000000000;
  manager = manager_config machine defaults;
  host_key = codes "HOST";
  port = pos 2222;
}

starts : start machine [] ≡ serves expected
unfolding start load checked apply_env text_eq new_from_kubeconfig pod_namespace load_host_key
    load_host_key_from_file manager_config service listen_and_serve itoa
starts = refl

start-IsSetUp_example : IsSetUp machine [] expected
start-IsSetUp_example = start-IsSetUp machine [] expected starts
