-- ===== src/Server/Connect.antt =====
-- internal/server/server.go: the public-key callback, and the workspace of a connection.
use voidshell.Prelude.{
  true, Text, if◌then◌else◌, ◌≡◌, ◌≢◌, refl, ◌⊎◌, ◌↔◌, take, List, Bool-cases, inl, inr,
}
use voidshell.Workspace.Stdlib.{Stdlib, IsDigest}
use voidshell.Workspace.Selector.{StorageMode, parse_selector}
use voidshell.Workspace.Identity.{Identity, pod_name_for, hash_input}
use voidshell.Workspace.Distinct.{pod_name_for-collision}
use voidshell.Auth.Github.{Net, PublicKey, KeyCache}
use voidshell.Auth.Authenticator.{
  Authenticator, AuthError, Verdict, accepted, rejected, authenticate,
}
use voidshell.Auth.Answers.{Answer, Answers, IsOwner, authenticate-accepted_iff}
use voidshell.Server.Validate.{
  valid_ssh_username, IsUsername, valid_ssh_username_iff, selected-NoSlash,
}

-- The permissions hold the GitHub user.
pub data Permission : Type 0 where
  granted : Text → Permission
  invalid_username : Permission
  denied : AuthError → Permission

abbrev pub permission : Verdict → Permission
permission (accepted gh_user) = granted gh_user
permission (rejected e) = denied e

-- `PublicKeyCallback`
unfoldable pub public_key_callback :
    Net → PublicKey → Text → Authenticator → Authenticator × Permission
public_key_callback net key user a =
    if valid_ssh_username user
    then (let (a', v) = authenticate net key a in (a', permission v))
    else (a, invalid_username)

pub record Workspace : Type 0 where
  pub id : Identity
  pub mode : StorageMode

-- What `handleConn` selects for the user of the permissions and the SSH username.
unfoldable pub selected_workspace : Text → Text → Workspace
selected_workspace gh_user ssh_user =
    let selector = parse_selector ssh_user in
    record { id = record { github_user = gh_user; ssh_user = selector.name }; mode = selector.mode }

abbrev pub pod_of : Stdlib → Workspace → Text
pod_of lib w = pod_name_for lib w.id w.mode

module _ (net : Net) where
  granted_parts :
      (key : PublicKey) (user gh_user : Text) (a : Authenticator)
      → (public_key_callback net key user a).1 ≡ granted gh_user
      → (valid_ssh_username user ≡ true) × ((authenticate net key a).1 ≡ accepted gh_user)
  unfolding public_key_callback
  granted_parts key user gh_user a h = elim (Bool-cases (valid_ssh_username user)) [
    | inl e ↦ (e, by_verdict (authenticate net key a).1 (rw e at h))
    | inr e ↦ absurd (let h' = rw e at h in cc)
  ]
    where
      by_verdict : (v : Verdict) → permission v ≡ granted gh_user → v ≡ accepted gh_user
      by_verdict (accepted g) q = cc
      by_verdict (rejected e) q = cc

  granted_whole :
      (key : PublicKey) (user gh_user : Text) (a : Authenticator)
      → valid_ssh_username user ≡ true
      → (authenticate net key a).1 ≡ accepted gh_user
      → (public_key_callback net key user a).1 ≡ granted gh_user
  unfolding public_key_callback
  granted_whole key user gh_user a e q = rw (e, q) refl

  -- The server lets a connection in as a GitHub user exactly when the SSH username has the accepted
  -- form, the cache answers for every allowed user in turn, the offered key is among the keys of
  -- that user, and it is in no other answer.
  pub public_key_callback-granted_iff :
      (key : PublicKey) (user gh_user : Text) (a : Authenticator)
      → ((public_key_callback net key user a).1 ≡ granted gh_user) ↔ (
          IsUsername user
          × (answers : List Answer) × (c : KeyCache) × Answers net a.cache a.allowed_users answers c
          × IsOwner key gh_user answers)
  public_key_callback-granted_iff key user gh_user a = (
    (λ h.
        let (e, q) = granted_parts key user gh_user a h in
        let (answers, c, r, owner) = (authenticate-accepted_iff net key a gh_user).0 q in
        ((valid_ssh_username_iff user).0 e, answers, c, r, owner)),
    (λ p.
        let (username, answers, c, r, owner) = p in
        granted_whole key user gh_user a ((valid_ssh_username_iff user).1 username)
          ((authenticate-accepted_iff net key a gh_user).1 (answers, c, r, owner))),
  )

  -- Two connections that the server lets in, with any keys and at any states of the authenticator:
  -- if their workspaces have one pod name, then the storage modes agree, and either they are the
  -- same workspace of the same GitHub user, or the digests of two different texts agree in their
  -- first three bytes.
  pub selected_workspace-separate :
      (lib : Stdlib) (digest : IsDigest lib) (key key' : PublicKey)
      (user user' gh_user gh_user' : Text) (a a' : Authenticator)
      → (public_key_callback net key user a).1 ≡ granted gh_user
      → (public_key_callback net key' user' a').1 ≡ granted gh_user'
      → pod_of lib (selected_workspace gh_user user)
        ≡ pod_of lib (selected_workspace gh_user' user')
      → ((parse_selector user).mode ≡ (parse_selector user').mode)
        × ((selected_workspace gh_user user).id ≡ (selected_workspace gh_user' user').id
            ⊎ (hash_input lib gh_user (parse_selector user).name
                ≢ hash_input lib gh_user' (parse_selector user').name)
              × (take 3 (lib.sha256 (hash_input lib gh_user (parse_selector user).name))
                  ≡ take 3 (lib.sha256 (hash_input lib gh_user' (parse_selector user').name))))
  unfolding selected_workspace
  selected_workspace-separate lib digest key key' user user' gh_user gh_user' a a' h h' e =
      let (valid, q) = granted_parts key user gh_user a h in
      let (valid', q') = granted_parts key' user' gh_user' a' h' in
      pod_name_for-collision lib digest (selected_workspace gh_user user).id
        (selected_workspace gh_user' user').id (parse_selector user).mode
        (parse_selector user').mode (selected-NoSlash user valid) (selected-NoSlash user' valid') e
