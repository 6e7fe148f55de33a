-- ===== src/K8s/Examples.antt =====
-- A cluster whose answers depend on the time only, and the properties of internal/k8s in it.
use voidshell.Prelude.{
  ℕ, ◌≡◌, ◌≢◌, refl, true, none, [], ◌∷◌, codes, ltb, ◌==◌, if◌then◌else◌, arith, text_eq, ◌-◌, ◌+◌,
}
use voidshell.Workspace.Selector.{ephemeral, persistent}
use voidshell.Workspace.Identity.{pod_name_for}
use voidshell.Workspace.Examples.{ascii, alice}
use voidshell.K8s.Pods.{Pod, running}
use voidshell.K8s.Build.{Config, base_pod, direct_ssh_enabled, build_pod}
use voidshell.K8s.Monad.{not_found, other, Reply, done, refused, ok, out_of_fuel}
use voidshell.K8s.Lifecycle.{
  Api, Manager, delete_pod, pause_then, wait_for_pod_ready, wait_gone, after_gone, after_remove,
  forget_endpoint, ensure_pod, after_get_pod, after_create_pod, make_pod, after_check, after_poll,
  check_pod, workspace_ready,
}
use voidshell.K8s.Ssh.{ensure_workspace, ensure_storage, when_direct, provision, within}
use voidshell.K8s.Finishes.{ensure_workspace-Ends}
use voidshell.K8s.Accepted.{IsAccepted, build_pod-IsAccepted}
use voidshell.K8s.Deleting.{IsGone, delete_pod-IsGone}
use voidshell.K8s.Ready.{SawReady}
use voidshell.K8s.Ensured.{preparing, ensure_workspace-SawReady}
use voidshell.K8s.Timeout.{IsTimed, delete_pod-Ends}

abbrev cfg : Config
cfg = record {
  backend = codes "kubernetes";
  namespace = codes "guests";
  storage_class = [];
  storage_size = codes "5Gi";
  image = codes "workspace:main";
  shell_command = codes "/bin/bash" ∷ [];
  pod_ready_timeout = 0;
  pod_poll_interval = 0;
}

abbrev ready_pod : Pod
ready_pod = record (base_pod ascii alice ephemeral cfg) {
  phase = running;
  statuses = record { name = codes "workspace"; ready = true } ∷ [];
}

-- There is no pod at time 0, and from time 6 on; from time 10 on the context has ended.
abbrev pod_at : ℕ → Reply Pod
pod_at now =
    if now == 0
    then refused not_found
    else if ltb now 6
    then done ready_pod
    else if ltb now 10
    then refused not_found
    else refused other

abbrev timely : Api ℕ
timely = record {
  get_pod = λ namespace name now. (now + 1, pod_at now);
  create_pod = λ pod now. (now + 1, done tt);
  remove_pod = λ namespace name now. (now, done tt);
  get_claim = λ namespace name now. (now, refused other);
  create_claim = λ c now. (now, refused other);
  get_secret = λ namespace name now. (now, refused other);
  create_secret = λ s now. (now, refused other);
  pause = λ interval now. (now, ltb 9 now);
  with_timeout = λ timeout now. now;
  cancel = λ now. now;
  random_text = λ now. (now, codes "abc");
  random_key = λ now. (now, none);
  marshal_key = λ k. none;
  signer_of = λ k. none;
  to_pem = λ b. b;
  authorized_line = λ k. k;
  is_ip = λ t. true;
  public_of = λ t. none;
}

abbrev at : ℕ → Manager ℕ
at now = record { world = now; endpoints = λ name. none }

deletes :
    delete_pod timely ascii cfg 11 alice ephemeral (at 4)
    ≡ (forget_endpoint timely ascii cfg (pod_name_for ascii alice ephemeral) (at 7), ok tt)
unfolding delete_pod forget_endpoint after_remove wait_gone after_gone pause_then
deletes = refl

delete_pod-IsGone_example :
    IsGone timely cfg (pod_name_for ascii alice ephemeral) 7
    × ((forget_endpoint timely ascii cfg (pod_name_for ascii alice ephemeral) (at 7)).endpoints
          (pod_name_for ascii alice ephemeral)
        ≡ none)
unfolding forget_endpoint
delete_pod-IsGone_example =
    delete_pod-IsGone timely cfg ascii 11 alice ephemeral (at 4)
      (forget_endpoint timely ascii cfg (pod_name_for ascii alice ephemeral) (at 7)) deletes

ensures : ensure_workspace timely ascii cfg 11 alice ephemeral (at 0) ≡ (at 3, ok tt)
unfolding ensure_workspace provision within ensure_storage when_direct ensure_pod after_get_pod
    make_pod after_create_pod wait_for_pod_ready after_poll after_check check_pod workspace_ready
    direct_ssh_enabled text_eq
ensures = refl

ensure_workspace-SawReady_example :
    (seen : Manager ℕ) × (prepared : Manager ℕ) × SawReady timely cfg
      (pod_name_for ascii alice ephemeral)
      seen.world
    × (preparing timely ascii cfg 11 alice ephemeral seen ≡ (prepared, ok tt))
    × (record prepared { world = prepared.world } ≡ at 3)
ensure_workspace-SawReady_example =
    ensure_workspace-SawReady timely ascii cfg 11 alice ephemeral (at 0) (at 3) ensures

-- A pod of which the container never becomes ready; the world is the time that the context has left.
abbrev never_ready : Api ℕ
never_ready = record timely {
  get_pod = λ namespace name left.
      if left == 0
      then (left, refused other)
      else (left - 1, done (base_pod ascii alice ephemeral cfg));
  create_pod = λ pod left. (left, done tt);
  pause = λ interval left. (left, left == 0);
  with_timeout = λ timeout left. if ltb timeout left then timeout else left;
}

never_ready-IsTimed : IsTimed never_ready (λ left. left)
never_ready-IsTimed = record {
  started = λ timeout left. ground arith;
  asking = λ namespace name left. ground arith;
  answered = λ namespace name left. ground arith;
  removing = λ namespace name left. omega arith;
  creating = λ pod left. omega arith;
  claiming = λ namespace name left. omega arith;
  new_claims = λ claim left. omega arith;
  reading = λ namespace name left. omega arith;
  storing = λ secret left. omega arith;
  keys = λ left. omega arith;
  drawing = λ left. omega arith;
  pausing = λ interval left. omega arith;
}

delete_pod-Ends_example :
    (delete_pod never_ready ascii cfg 5 alice ephemeral (at 4)).1 ≢ out_of_fuel
delete_pod-Ends_example =
    delete_pod-Ends never_ready ascii cfg (λ left. left) never_ready-IsTimed 5 alice ephemeral
      (at 4) (omega arith)

abbrev short_cfg : Config
short_cfg = record cfg { pod_ready_timeout = 10 }

-- The caller's context has more time left than the fuel.
ensure_workspace-Ends_example :
    (ensure_workspace never_ready ascii short_cfg 11 alice ephemeral (at 1000)).1 ≢ out_of_fuel
ensure_workspace-Ends_example =
    ensure_workspace-Ends never_ready ascii short_cfg (λ left. left) never_ready-IsTimed 11 alice
      ephemeral (at 1000) (omega arith)

build_pod-IsAccepted_example :
    IsAccepted timely ascii cfg alice persistent
      (build_pod ascii alice persistent cfg (codes "abc"))
build_pod-IsAccepted_example = build_pod-IsAccepted timely ascii cfg alice persistent (codes "abc")
