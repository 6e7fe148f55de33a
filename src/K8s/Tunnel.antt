-- ===== src/K8s/Tunnel.antt =====
-- A connection to the SSH server of a workspace reaches the pod that was provisioned for it.
pub mod Examples
use voidshell.Prelude.{
  ℕ, ◌≡◌, refl, Bool, true, false, some, Text, ap, sym, ◌∙◌, subst, codes, arith, if◌then◌else◌,
}
use voidshell.Workspace.Stdlib.{Stdlib}
use voidshell.Workspace.Selector.{StorageMode}
use voidshell.Workspace.Identity.{Identity, pod_name_for}
use voidshell.K8s.Pods.{Pod, Secret, value_of}
use voidshell.K8s.Build.{Config, direct_ssh_enabled, secret_annotation, workspace_ssh_port}
use voidshell.K8s.Monad.{Error, Outcome, ok, err, out_of_fuel, M, done, wrap}
use voidshell.K8s.Lifecycle.{Api, Manager, Endpoint, is_controlled_by}
use voidshell.K8s.Ssh.{ensure_workspace, prepare_ssh, when_direct}
use voidshell.K8s.Inversion.{wrap_ok}
use voidshell.K8s.Pinned.{IsPrepared, prepare_ssh-IsPrepared}
use voidshell.K8s.Ensured.{preparing, ensure_workspace-SawReady}
use voidshell.K8s.Dial.{
  Network, IsVerifying, Client, connected, open_workspace_ssh, open_workspace_ssh_ok,
}

module _ {W : Type 0} (api : Api W) (net : Network W) (lib : Stdlib) (cfg : Config) where
  -- The client is connected to a pod that the API server gave under the name, which was not being
  -- deleted, and the server has shown the host key of a secret that the pod owns and names.
  pub record Reaches (name : Text) (client : Client) : Type 0 where
    pub pod : Pod
    pub secret : Secret
    pub pod_given : (w : W) × ((api.get_pod cfg.namespace name w).1 ≡ done pod)
    pub secret_given :
        (w : W) × ((api.get_secret cfg.namespace (value_of secret_annotation pod.annotations) w).1
          ≡ done secret)
    pub alive : pod.deleting ≡ false
    pub owned : is_controlled_by secret pod ≡ true
    pub address : client.address ≡ pod.pod_ip
    pub port : client.port ≡ workspace_ssh_port
    pub shown : api.public_of (value_of (codes "host-key") secret.contents) ≡ some client.shown_key

  IsPrepared-of :
      (fuel : ℕ) (id : Identity) (mode : StorageMode) (m m' : Manager W)
      → direct_ssh_enabled cfg ≡ true
      → preparing api lib cfg fuel id mode m ≡ (m', ok tt)
      → IsPrepared api cfg (pod_name_for lib id mode) m'
  unfolding when_direct
  IsPrepared-of fuel id mode m m' direct h =
      prepare_ssh-IsPrepared api cfg lib id mode m m'
        (wrap_ok Error.preparing_ssh (prepare_ssh api lib cfg id mode) m m' tt (rw direct at h))

  -- With direct SSH: where `EnsureWorkspace` has succeeded, and `OpenWorkspaceSSH` succeeds while
  -- the endpoint stored for the pod is still the same, the connection goes to the IP address of a
  -- pod that the API server gave under the workspace's name and that was not being deleted, to the
  -- port 2222; and the server there has shown the host key of the secret that this pod names and
  -- owns. The SSH library is taken to refuse a server whose key the callback rejects.
  pub open_workspace_ssh-Reaches :
      (verifying : IsVerifying net) (fuel : ℕ) (id : Identity) (mode : StorageMode)
      (m m1 m2 m3 : Manager W) (client : Client)
      → direct_ssh_enabled cfg ≡ true
      → ensure_workspace api lib cfg fuel id mode m ≡ (m1, ok tt)
      → m2.endpoints (pod_name_for lib id mode) ≡ m1.endpoints (pod_name_for lib id mode)
      → open_workspace_ssh net lib id mode m2 ≡ (m3, ok client)
      → Reaches (pod_name_for lib id mode) client
  unfolding connected
  open_workspace_ssh-Reaches verifying fuel id mode m m1 m2 m3 client direct h kept opened =
      let name = pod_name_for lib id mode in
      let (seen, prepared, saw, prep, same) =
        ensure_workspace-SawReady api lib cfg fuel id mode m m1 h in
      let p = IsPrepared-of fuel id mode seen prepared direct prep in
      let made = p.made in
      let pinned = made.pinned in
      let (endpoint, stored, at) =
        open_workspace_ssh_ok net lib verifying id mode m2 m3 client opened in
      let one : endpoint ≡ made.endpoint =
        some_inv
          (sym stored ∙ kept ∙ ap (λ (x : Manager W). x.endpoints name) (sym same) ∙ made.stored) in
      record {
        pod = p.pod;
        secret = made.secret;
        pod_given = (p.before, p.answered);
        secret_given = (made.before, made.answered);
        alive = p.alive;
        owned = pinned.owned;
        address =
            ap (λ (c : Client). c.address) (sym at)
            ∙ ap (λ (e : Endpoint). e.address) one
            ∙ pinned.address;
        port =
            ap (λ (c : Client). c.port) (sym at) ∙ ap (λ (e : Endpoint). e.port) one ∙ pinned.port;
        shown =
            pinned.host_key
            ∙ ap some
                (ap (λ (e : Endpoint). e.host_key) (sym one) ∙ ap (λ (c : Client). c.shown_key) at);
      }
    where
      some_inv : {a b : Endpoint} → some a ≡ some b → a ≡ b
      some_inv q = cc
