-- ===== src/Server/Examples.antt =====
-- Tests of the server's functions, and its properties at concrete inputs.
use voidshell.Server.Wire.{clean_pty}
use voidshell.Prelude.{
  ◌≡◌, refl, true, false, codes, ap, ◌⊎◌, List, ◌≢◌, ◌∷◌, take, [], some, Option, text_eq, Bool,
}
use voidshell.Workspace.Selector.{parse_selector}
use voidshell.Auth.Examples.{net, only_alice, accepts_alice}
use voidshell.Workspace.Examples.{ascii, ascii-IsDigest}
use voidshell.Workspace.Identity.{hash_input}
use voidshell.Server.Connect.{
  public_key_callback, granted, invalid_username, permission, selected_workspace,
  selected_workspace-separate,
}
use voidshell.Server.Wire.{Wire, Request, reply, clean_text, clean_pty, contains_nul}
use voidshell.Server.Proxy.{
  pass_requests, valid_proxy_request, add_sent, add_reply, counts, now_started, now_pty,
  starts_program, is_pty,
}
use voidshell.Server.Validate.{valid_ssh_username, IsUsername, valid_ssh_username_iff}

valid_ssh_username_test :
    (valid_ssh_username (codes "persist.my_app") ≡ true)
    × (valid_ssh_username (codes ".hidden") ≡ false)
    × (valid_ssh_username (codes "a/b") ≡ false)
unfolding valid_ssh_username
valid_ssh_username_test = (refl, refl, refl)

valid_ssh_username_iff_example :
    (valid_ssh_username (codes "a/b") ≡ true → IsUsername (codes "a/b"))
    × (IsUsername (codes "a/b") → valid_ssh_username (codes "a/b") ≡ true)
valid_ssh_username_iff_example = valid_ssh_username_iff (codes "a/b")

lets_alice_in :
    (public_key_callback net (codes "key-b") (codes "persist.web") only_alice).1
    ≡ granted (codes "alice")
unfolding public_key_callback valid_ssh_username
lets_alice_in = ap permission accepts_alice

refuses_dot :
    public_key_callback net (codes "key-b") (codes ".web") only_alice
    ≡ (only_alice, invalid_username)
unfolding public_key_callback valid_ssh_username
refuses_dot = refl

selected_workspace-separate_example :
    ((parse_selector (codes "persist.web")).mode ≡ (parse_selector (codes "persist.web")).mode)
    × ((selected_workspace (codes "alice") (codes "persist.web")).id
          ≡ (selected_workspace (codes "alice") (codes "persist.web")).id
        ⊎ (hash_input ascii (codes "alice") (parse_selector (codes "persist.web")).name
            ≢ hash_input ascii (codes "alice") (parse_selector (codes "persist.web")).name)
          × (take 3 (
                ascii.sha256
                  (hash_input ascii (codes "alice") (parse_selector (codes "persist.web")).name))
              ≡ take 3 (
                  ascii.sha256 (
                    hash_input ascii (codes "alice") (parse_selector (codes "persist.web")).name))))
selected_workspace-separate_example =
    selected_workspace-separate net ascii ascii-IsDigest (codes "key-b") (codes "key-b")
      (codes "persist.web") (codes "persist.web") (codes "alice") (codes "alice") only_alice
      only_alice lets_alice_in lets_alice_in refl

-- A payload is its text, and a terminal has 100 columns and 40 rows.
abbrev pub wire : Wire
wire = record {
  read_pty = λ payload.
      some
        (record { term = payload; columns = 100; rows = 40; width = 0; height = 0; modelist = [] });
  read_text = λ payload. some payload;
  read_window = λ payload. some (record { columns = 120; rows = 50; width = 0; height = 0 });
  read_direct =
      λ payload. some (record { host = payload; port = 8080; origin_host = []; origin_port = 0 });
}

abbrev willing : List Request → Request → Option Bool
willing before req = some true

abbrev pty_then_two_programs : List Request
pty_then_two_programs =
    record { kind = codes "pty-req"; want_reply = true; payload = codes "xterm" }
    ∷ record { kind = codes "shell"; want_reply = true; payload = [] }
    ∷ record { kind = codes "exec"; want_reply = true; payload = codes "ls" }
    ∷ []

second_program_refused :
    (pass_requests wire willing [] false false pty_then_two_programs).replies
    ≡ true ∷ true ∷ false ∷ []
unfolding pass_requests valid_proxy_request add_sent add_reply reply counts now_started now_pty
    starts_program is_pty text_eq clean_text clean_pty contains_nul
second_program_refused = refl
