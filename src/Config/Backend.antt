-- ===== src/Config/Backend.antt =====
-- The backend of a configuration that is loaded.
use voidshell.Prelude.{
  ◌≡◌, refl, false, Option, none, some, Text, codes, text_eq, text_eq→eq, ◌⊎◌, inl, inr, is_empty,
  Bool-cases, ap, sym, ◌∙◌,
}
use voidshell.Config.{
  Config, Env, loaded, checked, parsed, contents_read, load, apply_env, defaults,
}

module _ (env : Env) where
  -- The backend is one of the two that exist, and the one that the environment names, if any.
  pub record IsChosen (c : Config) : Type 0 where
    pub known : (c.workspace.backend ≡ codes "kubernetes") ⊎ (c.workspace.backend ≡ codes "ssh")
    pub overridden :
        is_empty (env.getenv (codes "VOIDSHELL_WORKSPACE_BACKEND")) ≡ false
        → c.workspace.backend ≡ env.getenv (codes "VOIDSHELL_WORKSPACE_BACKEND")

  -- What the check says of the backend that it looks at.
  checked_ok :
      (c c' : Config)
      → checked env c ≡ loaded c'
      → ((c'.workspace.backend ≡ codes "kubernetes") ⊎ (c'.workspace.backend ≡ codes "ssh"))
        × (c ≡ c')
  unfolding checked
  checked_ok c c' h = elim (Bool-cases (text_eq c.workspace.backend (codes "kubernetes"))) [
    | inl e ↦
        let same : c ≡ c' = loaded_inv (rw e at h) in
        (inl (ap (λ (x : Config). x.workspace.backend) (sym same) ∙ text_eq→eq _ _ e), same)
    | inr e ↦ elim (Bool-cases (text_eq c.workspace.backend (codes "ssh"))) [
      | inl f ↦
          let same : c ≡ c' = loaded_inv (rw (e, f) at h) in
          (inr (ap (λ (x : Config). x.workspace.backend) (sym same) ∙ text_eq→eq _ _ f), same)
      | inr f ↦ absurd (let h' = rw (e, f) at h in cc)
    ]
  ]
    where
      loaded_inv : {a b : Config} → loaded a ≡ loaded b → a ≡ b
      loaded_inv q = cc

  checked-IsChosen : (c c' : Config) → checked env (apply_env env c) ≡ loaded c' → IsChosen c'
  unfolding apply_env
  checked-IsChosen c c' h =
      let (known, same) = checked_ok (apply_env env c) c' h in
      record {
        known = known;
        overridden = λ e. ap (λ (x : Config). x.workspace.backend) (sym same) ∙ rw e refl;
      }

  -- A configuration that is loaded has the backend `kubernetes` or `ssh`, and where the environment
  -- names a backend, it is that one.
  pub load-IsChosen : (path : Text) (c : Config) → load env path ≡ loaded c → IsChosen c
  unfolding load parsed contents_read
  load-IsChosen path c h = elim (Bool-cases (is_empty path)) [
    | inl e ↦ checked-IsChosen defaults c (rw e at h)
    | inr e ↦ by_text (env.read_file path) (rw e at h)
  ]
    where
      by_config : (o : Option Config) → parsed env o ≡ loaded c → IsChosen c
      by_config none q = cc
      by_config (some d) q = checked-IsChosen d c q

      by_text : (o : Option Text) → contents_read env o ≡ loaded c → IsChosen c
      by_text none q = cc
      by_text (some text) q = by_config (env.unmarshal text defaults) q
