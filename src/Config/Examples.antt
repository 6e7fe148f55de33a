-- ===== src/Config/Examples.antt =====
-- An environment with two variables, and the properties of the configuration in it.
use voidshell.Prelude.{
  ◌≡◌, refl, none, some, List, [], ◌∷◌, Text, codes, text_eq, if◌then◌else◌, trim_space,
  trim_space_left, trim_space_right, is_space, All,
}
use voidshell.Config.{
  Env, loaded, load, apply_env, defaults, checked, split_trimmed, keep_trimmed, split_go,
}
use voidshell.Config.Split.{Padded, IsItem, join_items, split_trimmed-join_items}

abbrev env : Env
env = record {
  read_file = λ path. none;
  unmarshal = λ text c. some c;
  getenv = λ name.
      if text_eq name (codes "VOIDSHELL_WORKSPACE_BACKEND")
      then codes "ssh"
      else if text_eq name (codes "VOIDSHELL_AUTH_ALLOWED_USERS")
      then codes "alice, bob,"
      else [];
  atoi = λ s. none;
}

abbrev users : List Text
users = codes "alice" ∷ codes "bob" ∷ []

users_test : split_trimmed (codes "alice, bob,") ≡ users
unfolding split_trimmed split_go keep_trimmed trim_space
users_test = refl

loads : load env [] ≡ loaded (apply_env env defaults)
unfolding load checked apply_env text_eq
loads = refl

abbrev listed_users : List Padded
listed_users =
    record { before = []; text = codes "alice"; after = codes " " }
    ∷ record { before = codes " "; text = []; after = [] }
    ∷ record { before = codes " "; text = codes "bob"; after = [] }
    ∷ []

listed_users-IsItem : All IsItem listed_users
unfolding trim_space trim_space_left trim_space_right is_space
listed_users-IsItem = (
  record {
    padded = tt;
    comma_free = (refl, (refl, (refl, (refl, (refl, tt)))));
    trimmed = refl;
    filled_up = (refl, tt);
  },
  (
    record { padded = (refl, tt); comma_free = tt; trimmed = refl; filled_up = tt },
    (
      record {
        padded = (refl, tt);
        comma_free = (refl, (refl, (refl, tt)));
        trimmed = refl;
        filled_up = tt;
      },
      tt,
    ),
  ),
)

split_trimmed-join_items_example : split_trimmed (join_items listed_users) ≡ users
split_trimmed-join_items_example = split_trimmed-join_items listed_users listed_users-IsItem
