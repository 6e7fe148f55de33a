-- ===== src/Workspace/Examples.antt =====
-- Two workspaces with concrete names, and the properties at them.
use voidshell.Prelude.{
  ◌+◌, ◌≡◌, ◌≢◌, refl, ◌<◌, ◌⊎◌, codes, replicate, length, arith, if◌then◌else◌, is_upper, take,
}
use voidshell.Workspace.Stdlib.{Stdlib, IsDigest, KeepsLower}
use voidshell.Workspace.Selector.{
  ephemeral, persistent, Selector, parse_selector, cut_prefix, select,
}
use voidshell.Workspace.Identity.{
  Identity, normalize_segment, compute_hash, workspace_id, pod_name_for, pvc_name, hash_input,
}
use voidshell.Workspace.Labels.{IsLabel}
use voidshell.Workspace.Normalize.{normalize_segment-IsLabel}
use voidshell.Workspace.Names.{names-IsLabel, names_exceed_label}
use voidshell.Workspace.Distinct.{pod_name_for-collision}

-- ASCII letters only, and a digest that is the same for all texts.
abbrev pub ascii : Stdlib
ascii = record { lower = λ c. if is_upper c then c + 32 else c; sha256 = λ s. replicate 32 0xa7 }

pub ascii-IsDigest : IsDigest ascii
ascii-IsDigest = record { size = λ s. refl; bytes = λ s. omega arith }

ascii-KeepsLower : KeepsLower ascii
ascii-KeepsLower = record { lower_id = λ c h. ground arith }

abbrev pub alice : Identity
alice = record { github_user = codes "Alice"; ssh_user = codes "My_.Project" }

abbrev alice_lower : Identity
alice_lower = record { github_user = codes "alice"; ssh_user = codes "my-project" }

abbrev long_name : Identity
long_name = record { github_user = replicate 30 b'a'; ssh_user = replicate 40 b'b' }

workspace_id_test : workspace_id ascii alice ≡ codes "vs-alice-my-project-a7a7a7"
unfolding workspace_id normalize_segment compute_hash
workspace_id_test = refl

pod_name_for_test :
    pod_name_for ascii alice ephemeral ≡ codes "shell-vs-alice-my-project-a7a7a7-ephemeral"
unfolding pod_name_for workspace_id normalize_segment compute_hash
pod_name_for_test = refl

parse_selector_test :
    parse_selector (codes "persist.web") ≡ record { mode = persistent; name = codes "web" }
unfolding parse_selector cut_prefix select
parse_selector_test = refl

parse_selector_bare :
    parse_selector (codes "persist.") ≡ record { mode = ephemeral; name = codes "persist." }
unfolding parse_selector cut_prefix select
parse_selector_bare = refl

web : Selector
web = record { mode = persistent; name = codes "web" }

normalize_segment-IsLabel_example : IsLabel 26 (normalize_segment ascii (codes "-Été--x") 26)
normalize_segment-IsLabel_example =
    normalize_segment-IsLabel ascii (codes "-Été--x") 26 (omega arith)

names-IsLabel_example :
    IsLabel 63 (workspace_id ascii long_name)
    × IsLabel 79 (pod_name_for ascii long_name ephemeral)
    × IsLabel 68 (pvc_name ascii long_name)
names-IsLabel_example = names-IsLabel ascii ascii-IsDigest long_name ephemeral

names_exceed_label_example :
    (63 < length (pod_name_for ascii long_name persistent))
    × (63 < length (pvc_name ascii long_name))
    × (length (workspace_id ascii long_name) ≡ 63)
unfolding normalize_segment
names_exceed_label_example = names_exceed_label ascii ascii-IsDigest long_name persistent refl refl

-- Two users with one pod name, where the digests agree.
pod_name_for-collision_example :
    (persistent ≡ persistent)
    × ((alice ≡ alice_lower)
        ⊎ (hash_input ascii (codes "Alice") (codes "My_.Project")
            ≢ hash_input ascii (codes "alice") (codes "my-project"))
          × (take 3 (ascii.sha256 (hash_input ascii (codes "Alice") (codes "My_.Project")))
              ≡ take 3 (ascii.sha256 (hash_input ascii (codes "alice") (codes "my-project")))))
unfolding pod_name_for workspace_id normalize_segment compute_hash
pod_name_for-collision_example =
    pod_name_for-collision ascii ascii-IsDigest alice alice_lower persistent persistent
      (omega arith) (omega arith) refl
