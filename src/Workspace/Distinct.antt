-- ===== src/Workspace/Distinct.antt =====
-- When two workspaces have one pod name.
use voidshell.Prelude.{
  ℕ, ◌≡◌, ◌≢◌, refl, ◌⊎◌, inl, inr, List, [], ◌∷◌, ◌++◌, arith, ◌/◌, ◌%◌, if◌then◌else◌, Text, ap,
  All, length, ◌≤◌, ◌<◌, sym, ◌∙◌, take, length-append, codes, append_assoc, All-take,
  append-cancel_left, text_eq, text_eq→eq, text_eq→ne, Bool-cases, is_empty,
}
use voidshell.Workspace.Stdlib.{Stdlib, IsDigest}
use voidshell.Workspace.Selector.{StorageMode, ephemeral, persistent}
use voidshell.Workspace.Identity.{
  Identity, max_segment_len, hex_digit, hex, normalize_segment, hash_input, compute_hash,
  workspace_id, pod_name_for,
}
use voidshell.Workspace.Names.{length-compute_hash}

-- No slash, as in every username that the server accepts.
abbrev pub NoSlash : Text → Type 0
NoSlash = All (λ c. c ≢ b'/')

slash_after : (p q : Text) → ¬ NoSlash (p ++ b'/' ∷ q)
slash_after [] q h = h.0 refl
slash_after (c ∷ p) q h = slash_after p q h.1

-- A text splits at its last slash in one way.
split_at_slash :
    (g g' s s' : Text)
    → NoSlash s
    → NoSlash s'
    → g ++ b'/' ∷ s ≡ g' ++ b'/' ∷ s'
    → (g ≡ g') × (s ≡ s')
split_at_slash [] [] s s' h h' e = (refl, cc)
split_at_slash [] (c ∷ g') s s' h h' e =
    absurd (slash_after g' s' (let e' : s ≡ g' ++ b'/' ∷ s' = cc in rw e' at h))
split_at_slash (c ∷ g) [] s s' h h' e =
    absurd (slash_after g s (let e' : s' ≡ g ++ b'/' ∷ s = cc in rw e' at h'))
split_at_slash (c ∷ g) (c' ∷ g') s s' h h' e =
    let ih = split_at_slash g g' s s' h h' (cc) in ground (arith, ih)

append-cancel_suffix : (p q a b : Text) → length a ≡ length b → p ++ a ≡ q ++ b → a ≡ b
append-cancel_suffix [] [] a b h e = e
append-cancel_suffix [] (c ∷ q) a b h e = absurd (omega (arith, ap length e, length-append q b))
append-cancel_suffix (c ∷ p) [] a b h e = absurd (omega (arith, ap length e, length-append p a))
append-cancel_suffix (c ∷ p) (d ∷ q) a b h e = append-cancel_suffix p q a b h (cc)

append-cancel_right : (p q a : Text) → p ++ a ≡ q ++ a → p ≡ q
append-cancel_right [] [] a e = refl
append-cancel_right [] (c ∷ q) a e = absurd (omega (arith, ap length e, length-append q a))
append-cancel_right (c ∷ p) [] a e = absurd (omega (arith, ap length e, length-append p a))
append-cancel_right (c ∷ p) (d ∷ q) a e =
    let ih = append-cancel_right p q a (cc) in ground (arith, ih)

hex_digit-injective : (a b : ℕ) → a < 16 → b < 16 → hex_digit a ≡ hex_digit b → a ≡ b
unfolding hex_digit
hex_digit-injective a b ha hb e = ground arith

hex-injective :
    (xs ys : List ℕ) → All (λ b. b < 256) xs → All (λ b. b < 256) ys → hex xs ≡ hex ys → xs ≡ ys
unfolding hex
hex-injective [] [] hx hy e = refl
hex-injective [] (y ∷ ys) hx hy e = cc
hex-injective (x ∷ xs) [] hx hy e = cc
hex-injective (x ∷ xs) (y ∷ ys) (hx, hxs) (hy, hys) e = ground (
  arith,
  hex_digit-injective (x / 16) (y / 16) (omega arith) (omega arith),
  hex_digit-injective (x % 16) (y % 16) (omega arith) (omega arith),
  hex-injective xs ys hxs hys,
)

-- The last character; 0 where there is none.
last_char : Text → ℕ
last_char [] = 0
last_char (c ∷ s) = let rest = last_char s in if is_empty s then c else rest

last_char-append : (p : Text) (c : ℕ) (q : Text) → last_char (p ++ c ∷ q) ≡ last_char (c ∷ q)
unfolding last_char
last_char-append [] c q = refl
last_char-append (d ∷ []) c q = refl
last_char-append (d ∷ e ∷ p) c q = last_char-append (e ∷ p) c q

last_char-hex : (bs : List ℕ) → All (λ b. b < 256) bs → last_char (hex bs) ≤ b'f'
unfolding last_char hex hex_digit
last_char-hex [] h = omega arith
last_char-hex (b ∷ []) (hb, h) = ground arith
last_char-hex (b ∷ c ∷ bs) (hb, h) = last_char-hex (c ∷ bs) h

last_char-dash_hex : (bs : List ℕ) → All (λ b. b < 256) bs → last_char (b'-' ∷ hex bs) ≤ b'f'
unfolding last_char hex
last_char-dash_hex [] h = omega arith
last_char-dash_hex (b ∷ bs) h = last_char-hex (b ∷ bs) h

module _ (lib : Stdlib) (digest : IsDigest lib) where
  -- Everything before the digest.
  abbrev stem : Identity → Text
  stem id =
      codes "vs-"
      ++ normalize_segment lib id.github_user max_segment_len
      ++ b'-' ∷ normalize_segment lib id.ssh_user max_segment_len

  abbrev tail : Identity → Text
  tail id = b'-' ∷ compute_hash lib id.github_user id.ssh_user

  workspace_id_lem : (id : Identity) → workspace_id lib id ≡ stem id ++ tail id
  unfolding workspace_id
  workspace_id_lem id = simp append_assoc

  -- The end of a pod's name tells the storage mode.
  persistent_end : (id : Identity) → last_char (pod_name_for lib id persistent) ≤ b'f'
  unfolding pod_name_for compute_hash
  persistent_end id =
      let t = hash_input lib id.github_user id.ssh_user in
      rw (workspace_id_lem id, last_char-append (codes "shell-" ++ stem id))
        (last_char-dash_hex (take 3 (lib.sha256 t)) (All-take _ 3 (lib.sha256 t) (digest.bytes t)))

  ephemeral_end : (id : Identity) → last_char (pod_name_for lib id ephemeral) ≡ b'l'
  unfolding pod_name_for last_char
  ephemeral_end id =
      last_char-append (codes "shell-" ++ workspace_id lib id) b'-' (codes "ephemeral")

  same_mode :
      (id id' : Identity) (m m' : StorageMode)
      → pod_name_for lib id m ≡ pod_name_for lib id' m'
      → m ≡ m'
  same_mode id id' ephemeral ephemeral e = refl
  same_mode id id' persistent persistent e = refl
  same_mode id id' ephemeral persistent e =
      absurd (omega (arith, persistent_end id', ephemeral_end id, ap last_char e))
  same_mode id id' persistent ephemeral e =
      absurd (omega (arith, persistent_end id, ephemeral_end id', ap last_char e))

  same_workspace_id :
      (id id' : Identity) (m : StorageMode)
      → pod_name_for lib id m ≡ pod_name_for lib id' m
      → workspace_id lib id ≡ workspace_id lib id'
  unfolding pod_name_for
  same_workspace_id id id' ephemeral e =
      append-cancel_right _ _ (codes "-ephemeral") (append-cancel_left (codes "shell-") _ _ e)
  same_workspace_id id id' persistent e = append-cancel_left (codes "shell-") _ _ e

  same_hash :
      (id id' : Identity) (m : StorageMode)
      → pod_name_for lib id m ≡ pod_name_for lib id' m
      → compute_hash lib id.github_user id.ssh_user ≡ compute_hash lib id'.github_user id'.ssh_user
  same_hash id id' m e =
      let joined : stem id ++ tail id ≡ stem id' ++ tail id' =
        sym (workspace_id_lem id) ∙ same_workspace_id id id' m e ∙ workspace_id_lem id' in
      let tails : tail id ≡ tail id' =
        append-cancel_suffix (stem id) (stem id') (tail id) (tail id')
          (omega (
            arith,
            length-compute_hash lib digest id.github_user id.ssh_user,
            length-compute_hash lib digest id'.github_user id'.ssh_user,
          ))
          joined in
      cc

  same_sum :
      (x y : Text)
      → hex (take 3 (lib.sha256 x)) ≡ hex (take 3 (lib.sha256 y))
      → take 3 (lib.sha256 x) ≡ take 3 (lib.sha256 y)
  same_sum x y e =
      hex-injective _ _ (All-take _ 3 _ (digest.bytes x)) (All-take _ 3 _ (digest.bytes y)) e

  -- Two workspaces of which the SSH users have no slash, and whose pods have one name, have the
  -- same storage mode; and either they are the same workspace or the digests of two different texts
  -- agree in their first three bytes.
  pub pod_name_for-collision :
      (id id' : Identity) (m m' : StorageMode)
      → NoSlash id.ssh_user
      → NoSlash id'.ssh_user
      → pod_name_for lib id m ≡ pod_name_for lib id' m'
      → (m ≡ m')
        × ((id ≡ id')
            ⊎ (hash_input lib id.github_user id.ssh_user
                ≢ hash_input lib id'.github_user id'.ssh_user)
              × (take 3 (lib.sha256 (hash_input lib id.github_user id.ssh_user))
                  ≡ take 3 (lib.sha256 (hash_input lib id'.github_user id'.ssh_user))))
  unfolding compute_hash
  pod_name_for-collision id id' m m' h h' e = (
    same_mode id id' m m' e,
    elim (Bool-cases (text_eq x y)) [
      | inl same ↦
          let (g, s) = split_at_slash _ _ _ _ h h' (text_eq→eq x y same) in
          inl (λ i. record { github_user = g i; ssh_user = s i })
      | inr differ ↦ inr (text_eq→ne x y differ, same_sum x y sums)
    ],
  )
    where
      x : Text
      x = hash_input lib id.github_user id.ssh_user

      y : Text
      y = hash_input lib id'.github_user id'.ssh_user

      sums : hex (take 3 (lib.sha256 x)) ≡ hex (take 3 (lib.sha256 y))
      sums =
          same_hash id id' m (e ∙ ap (λ k. pod_name_for lib id' k) (sym (same_mode id id' m m' e)))
