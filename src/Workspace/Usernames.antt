-- ===== src/Workspace/Usernames.antt =====
-- SSH usernames are the same as the selectors that they ask for.
use std.Equiv.{Iso, IsEquiv, iso_to_equiv}
use mathlib.Core.HLevel.{Σ_prop_path}
use voidshell.Prelude.{Text}
use voidshell.Workspace.Selector.{
  StorageMode, ephemeral, persistent, Selector, IsSelector, parse_selector, selector_username,
  parse_selector-IsSelector, parse_selector-selector_username,
}

-- A selector with a proof that some username asks for it.
abbrev pub Asked : Type 0
Asked = (s : Selector) × IsSelector s

unfoldable pub asked : Text → Asked
asked u = (parse_selector u, (parse_selector-IsSelector u).0)

IsSelector-prop : (s : Selector) → IsProp (IsSelector s)
IsSelector-prop s = by_mode s.mode s.name
  where
    by_mode :
        (mode : StorageMode) (name : Text)
        → IsProp (IsSelector (record { mode = mode; name = name }))
    by_mode ephemeral name = hlevel
    by_mode persistent name = hlevel

asked-Iso : Iso Text Asked
unfolding asked
asked-Iso = record {
  fun = asked;
  inv = λ s. selector_username s.0;
  rinv = λ s. Σ_prop_path IsSelector-prop (parse_selector-selector_username s.0 s.1);
  linv = λ u. (parse_selector-IsSelector u).1;
}

-- Reading a username is an equivalence between the usernames and the selectors that are ephemeral
-- without the prefix, or persistent with a name: for each of these there is one username, and only
-- one, that asks for it.
pub asked-IsEquiv : IsEquiv asked
unfolding asked-Iso
asked-IsEquiv = (iso_to_equiv asked-Iso).1
