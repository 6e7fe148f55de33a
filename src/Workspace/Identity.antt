-- ===== src/Workspace/Identity.antt =====
-- internal/workspace/identity.go: the names of a workspace's Kubernetes objects.
use mathlib.Core.List.{map}
use voidshell.Prelude.{
  ℕ, ◌+◌, ◌-◌, ◌/◌, ◌%◌, Bool, false, not, ◌&&◌, ◌||◌, List, [], ◌∷◌, ◌++◌, ltb, ◌==◌,
  if◌then◌else◌, length, take, Text, codes, is_lower, is_digit, is_empty,
}
use voidshell.Workspace.Stdlib.{Stdlib}
use voidshell.Workspace.Selector.{StorageMode, ephemeral, persistent}

pub record Identity : Type 0 where
  pub github_user : Text
  pub ssh_user : Text

-- Outside `unsafeChars`.
abbrev pub is_safe : ℕ → Bool
is_safe c = is_lower c || is_digit c

abbrev pub max_segment_len : ℕ
max_segment_len = 26

-- `unsafeChars.ReplaceAllString(s, "-")`; the flag says that the run's hyphen is written.
unfoldable pub replace_unsafe : Bool → Text → Text
replace_unsafe in_run [] = []
replace_unsafe in_run (c ∷ s) =
    let rest = replace_unsafe (not (is_safe c)) s in
    if is_safe c then c ∷ rest else if in_run then rest else b'-' ∷ rest

-- `strings.TrimLeft(s, "-")`
unfoldable pub trim_left : Text → Text
trim_left [] = []
trim_left (c ∷ s) = let rest = trim_left s in if c == b'-' then rest else c ∷ s

-- `strings.TrimRight(s, "-")`
unfoldable pub trim_right : Text → Text
trim_right [] = []
trim_right (c ∷ s) = let rest = trim_right s in if c == b'-' && is_empty rest then [] else c ∷ rest

-- `if len(s) > maxLen { s = strings.TrimRight(s[:maxLen], "-") }`
unfoldable pub truncate : Text → ℕ → Text
unfolding trim_right
truncate s max_len = if ltb max_len (length s) then trim_right (take max_len s) else s

abbrev pub or_x : Text → Text
or_x [] = codes "x"
or_x (c ∷ s) = c ∷ s

unfoldable pub hex_digit : ℕ → ℕ
hex_digit d = if ltb d 10 then d + b'0' else d + b'a' - 10

-- `%x`
unfoldable pub hex : List ℕ → Text
unfolding hex_digit
hex [] = []
hex (b ∷ bs) = hex_digit (b / 16) ∷ hex_digit (b % 16) ∷ hex bs

module _ (lib : Stdlib) where
  unfoldable pub normalize_segment : Text → ℕ → Text
  unfolding replace_unsafe trim_left trim_right truncate
  normalize_segment s max_len =
      or_x (truncate (trim_right (trim_left (replace_unsafe false (map lib.lower s)))) max_len)

  -- What `computeHash` digests.
  abbrev pub hash_input : Text → Text → Text
  hash_input github ssh = github ++ b'/' ∷ ssh

  unfoldable pub compute_hash : Text → Text → Text
  unfolding hex
  compute_hash github ssh = hex (take 3 (lib.sha256 (hash_input github ssh)))

  unfoldable pub workspace_id : Identity → Text
  workspace_id id =
      codes "vs-"
      ++ normalize_segment id.github_user max_segment_len
      ++ b'-'
        ∷ (normalize_segment id.ssh_user max_segment_len
            ++ b'-' ∷ compute_hash id.github_user id.ssh_user)

  unfoldable pub pod_name_for : Identity → StorageMode → Text
  pod_name_for id ephemeral = codes "shell-" ++ (workspace_id id ++ codes "-ephemeral")
  pod_name_for id persistent = codes "shell-" ++ workspace_id id

  unfoldable pub pod_name : Identity → Text
  pod_name id = pod_name_for id persistent

  unfoldable pub pvc_name : Identity → Text
  pvc_name id = codes "home-" ++ workspace_id id
