-- ===== src/Workspace/Names.antt =====
-- The names of pods and volume claims: their form, their length, and what two of them share.
use voidshell.Prelude.{
  ℕ, ◌≡◌, refl, true, false, List, [], ◌∷◌, ◌++◌, arith, ◌+◌, ◌/◌, ◌%◌, Text, All, length, ◌≤◌, ◌<◌,
  take, length-append, codes, All-take,
}
use voidshell.Workspace.Stdlib.{Stdlib, IsDigest}
use voidshell.Workspace.Selector.{StorageMode, ephemeral, persistent}
use voidshell.Workspace.Identity.{
  Identity, is_safe, max_segment_len, hex_digit, hex, normalize_segment, hash_input, compute_hash,
  workspace_id, pod_name_for, pvc_name,
}
use voidshell.Workspace.Clean.{clean, clean_join}
use voidshell.Workspace.Labels.{IsLabel, clean-IsLabel}
use voidshell.Workspace.Normalize.{normalize_segment-clean}

length-hex : (bs : List ℕ) → length (hex bs) ≡ length bs + length bs
unfolding hex
length-hex [] = omega arith
length-hex (b ∷ bs) = omega (arith, length-hex bs)

hex_digit-is_safe : (d : ℕ) → d < 16 → is_safe (hex_digit d) ≡ true
unfolding hex_digit
hex_digit-is_safe d h = ground arith

hex-clean : (bs : List ℕ) → All (λ b. b < 256) bs → clean false (hex bs) ≡ true
unfolding hex clean
hex-clean [] h = refl
hex-clean (b ∷ bs) (hb, h) = ground (
  arith,
  hex-clean bs h,
  hex_digit-is_safe (b / 16) (omega arith),
  hex_digit-is_safe (b % 16) (omega arith),
)

length-take_three : (bs : List ℕ) → length bs ≡ 32 → length (take 3 bs) ≡ 3
length-take_three [] h = absurd (omega arith)
length-take_three (a ∷ []) h = absurd (omega arith)
length-take_three (a ∷ b ∷ []) h = absurd (omega arith)
length-take_three (a ∷ b ∷ c ∷ bs) h = refl

take_three-clean :
    (bs : List ℕ) → length bs ≡ 32 → All (λ b. b < 256) bs → clean true (hex (take 3 bs)) ≡ true
unfolding hex clean
take_three-clean [] h all = absurd (omega arith)
take_three-clean (b ∷ bs) h (hb, all) = ground (
  arith,
  hex-clean (take 2 bs) (All-take _ 2 bs all),
  hex_digit-is_safe (b / 16) (omega arith),
  hex_digit-is_safe (b % 16) (omega arith),
)

module _ (lib : Stdlib) (digest : IsDigest lib) where
  pub length-compute_hash : (g s : Text) → length (compute_hash lib g s) ≡ 6
  unfolding compute_hash
  length-compute_hash g s =
      let sum = lib.sha256 (hash_input lib g s) in
      omega
        (arith, length-hex (take 3 sum), length-take_three sum (digest.size (hash_input lib g s)))

  compute_hash-clean : (g s : Text) → clean true (compute_hash lib g s) ≡ true
  unfolding compute_hash
  compute_hash-clean g s =
      let t = hash_input lib g s in take_three-clean (lib.sha256 t) (digest.size t) (digest.bytes t)

  abbrev segment : Text → Text
  segment s = normalize_segment lib s max_segment_len

  segment-clean : (s : Text) → (clean true (segment s) ≡ true) × (length (segment s) ≤ 26)
  segment-clean s = normalize_segment-clean lib s 26 (omega arith)

  workspace_id-clean : (id : Identity) → clean true (workspace_id lib id) ≡ true
  unfolding workspace_id clean
  workspace_id-clean id =
      clean_join true (codes "vs-" ++ segment id.github_user) _
        (clean_join true (codes "vs") (segment id.github_user) refl
          (segment-clean id.github_user).0)
        (clean_join true (segment id.ssh_user) _ (segment-clean id.ssh_user).0
          (compute_hash-clean id.github_user id.ssh_user))

  length-workspace_id :
      (id : Identity)
      → length (workspace_id lib id)
        ≡ 11 + length (segment id.github_user) + length (segment id.ssh_user)
  unfolding workspace_id
  length-workspace_id id =
      let hash = compute_hash lib id.github_user id.ssh_user in
      omega (
        arith,
        length-append (segment id.github_user) (b'-' ∷ (segment id.ssh_user ++ b'-' ∷ hash)),
        length-append (segment id.ssh_user) (b'-' ∷ hash),
        length-compute_hash id.github_user id.ssh_user,
      )

  pod_name_for-clean :
      (id : Identity) (mode : StorageMode) → clean true (pod_name_for lib id mode) ≡ true
  unfolding pod_name_for clean
  pod_name_for-clean id ephemeral =
      clean_join true (codes "shell") (workspace_id lib id ++ codes "-ephemeral") refl
        (clean_join true (workspace_id lib id) (codes "ephemeral") (workspace_id-clean id) refl)
  pod_name_for-clean id persistent =
      clean_join true (codes "shell") (workspace_id lib id) refl (workspace_id-clean id)

  pub length-pod_name_for :
      (id : Identity) (mode : StorageMode)
      → length (pod_name_for lib id mode)
        ≡ 6 + length (workspace_id lib id) + elim mode [ ephemeral ↦ 10 | persistent ↦ 0 ]
  unfolding pod_name_for
  length-pod_name_for id ephemeral = omega (arith, length-append {0})
  length-pod_name_for id persistent = omega (arith, length-append {0})

  pvc_name-clean : (id : Identity) → clean true (pvc_name lib id) ≡ true
  unfolding pvc_name clean
  pvc_name-clean id =
      clean_join true (codes "home") (workspace_id lib id) refl (workspace_id-clean id)

  length-pvc_name : (id : Identity) → length (pvc_name lib id) ≡ 5 + length (workspace_id lib id)
  unfolding pvc_name
  length-pvc_name id = omega (arith, length-append {0})

  length-workspace_id-le : (id : Identity) → length (workspace_id lib id) ≤ 63
  length-workspace_id-le id = omega (
    arith,
    length-workspace_id id,
    (segment-clean id.github_user).1,
    (segment-clean id.ssh_user).1,
  )

  -- Whatever the two users are called, and if the digest has 32 bytes: the workspace label, the
  -- pod's name in either storage mode and the claim's name consist of lower-case letters, digits
  -- and single inner hyphens, and have at most 63, 79 and 68 characters.
  pub names-IsLabel :
      (id : Identity) (mode : StorageMode)
      → IsLabel 63 (workspace_id lib id)
        × IsLabel 79 (pod_name_for lib id mode)
        × IsLabel 68 (pvc_name lib id)
  names-IsLabel id mode = (
    clean-IsLabel 63 _ (workspace_id-clean id) (length-workspace_id-le id),
    clean-IsLabel 79 _ (pod_name_for-clean id mode)
        (ground (arith, length-pod_name_for id mode, length-workspace_id-le id)),
    clean-IsLabel 68 _ (pvc_name-clean id)
        (omega (arith, length-pvc_name id, length-workspace_id-le id)),
  )

  -- Where both users fill their segments, the names of the pod and of the claim are longer than
  -- 63 characters, and the label is not.
  pub names_exceed_label :
      (id : Identity) (mode : StorageMode)
      → length (normalize_segment lib id.github_user max_segment_len) ≡ 26
      → length (normalize_segment lib id.ssh_user max_segment_len) ≡ 26
      → (63 < length (pod_name_for lib id mode))
        × (63 < length (pvc_name lib id))
        × (length (workspace_id lib id) ≡ 63)
  names_exceed_label id mode g s =
      ground (arith, length-pod_name_for id mode, length-pvc_name id, length-workspace_id id)
