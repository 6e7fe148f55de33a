-- ===== src/Workspace/Selector.antt =====
-- internal/workspace/selector.go: an SSH username as a storage mode and a workspace name.
use voidshell.Prelude.{
  ℕ, ◌≡◌, refl, ◌≢◌, Option, none, some, [], ◌∷◌, ◌++◌, arith, ap, sym, ◌∙◌, ◌==◌, if◌then◌else◌,
  Text, codes,
}

pub data StorageMode : Type 0 where
  ephemeral persistent : StorageMode

pub record Selector : Type 0 where
  pub mode : StorageMode
  pub name : Text

-- `strings.CutPrefix`, with the found flag as an option.
unfoldable pub cut_prefix : Text → Text → Option Text
cut_prefix [] s = some s
cut_prefix (p ∷ ps) [] = none
cut_prefix (p ∷ ps) (c ∷ s) = if p == c then cut_prefix ps s else none

abbrev pub persistent_prefix : Text
persistent_prefix = codes "persist."

-- `name, ok := strings.CutPrefix(...); ok && name != ""`
unfoldable pub select : Text → Option Text → Selector
select username none = record { mode = ephemeral; name = username }
select username (some []) = record { mode = ephemeral; name = username }
select username (some (c ∷ s)) = record { mode = persistent; name = c ∷ s }

unfoldable pub parse_selector : Text → Selector
parse_selector username = select username (cut_prefix persistent_prefix username)

-- The username that asks for a selector.
unfoldable pub selector_username : Selector → Text
selector_username s = elim s.mode [ ephemeral ↦ s.name | persistent ↦ persistent_prefix ++ s.name ]

cut_prefix-some : (p s r : Text) → cut_prefix p s ≡ some r → s ≡ p ++ r
unfolding cut_prefix
cut_prefix-some [] s r h = ground arith
cut_prefix-some (p ∷ ps) [] r h = cc
cut_prefix-some (p ∷ ps) (c ∷ s) r h = ground (arith, cut_prefix-some ps s r)

cut_prefix-append : (p r : Text) → cut_prefix p (p ++ r) ≡ some r
unfolding cut_prefix
cut_prefix-append [] r = refl
cut_prefix-append (p ∷ ps) r = ground (arith, cut_prefix-append ps r)

select-username :
    (username : Text) (o : Option Text)
    → cut_prefix persistent_prefix username ≡ o
    → selector_username (select username o) ≡ username
unfolding select selector_username
select-username u none h = refl
select-username u (some []) h = refl
select-username u (some (c ∷ s)) h = ground (arith, cut_prefix-some persistent_prefix u (c ∷ s) h)

-- The selectors that some username asks for: only a persistent one may have had the prefix cut.
abbrev pub IsSelector : Selector → Type 0
IsSelector s = elim s.mode [
  | ephemeral ↦ (c : ℕ) (r : Text) → s.name ≢ persistent_prefix ++ c ∷ r
  | persistent ↦ s.name ≢ []
]

not_prefixed :
    (u : Text) (o : Option Text) (c : ℕ) (r : Text)
    → cut_prefix persistent_prefix u ≡ o
    → o ≢ some (c ∷ r)
    → u ≢ persistent_prefix ++ c ∷ r
not_prefixed u o c r h n e =
    n (sym h ∙ ap (cut_prefix persistent_prefix) e ∙ cut_prefix-append persistent_prefix (c ∷ r))

select-IsSelector :
    (u : Text) (o : Option Text) → cut_prefix persistent_prefix u ≡ o → IsSelector (select u o)
unfolding select
select-IsSelector u none h = λ c r. not_prefixed u none c r h (cc)
select-IsSelector u (some []) h = λ c r. not_prefixed u (some []) c r h (cc)
select-IsSelector u (some (c ∷ s)) h = λ e. cc

select_ephemeral :
    (n : Text) (o : Option Text)
    → cut_prefix persistent_prefix n ≡ o
    → ((c : ℕ) (r : Text) → n ≢ persistent_prefix ++ c ∷ r)
    → select n o ≡ record { mode = ephemeral; name = n }
unfolding select
select_ephemeral n none h plain = refl
select_ephemeral n (some []) h plain = refl
select_ephemeral n (some (c ∷ r)) h plain =
    absurd (plain c r (cut_prefix-some persistent_prefix n (c ∷ r) h))

select_persistent :
    (n : Text)
    → n ≢ []
    → select (persistent_prefix ++ n) (some n) ≡ record { mode = persistent; name = n }
unfolding select
select_persistent [] h = absurd (h refl)
select_persistent (c ∷ s) h = refl

parse_record :
    (mode : StorageMode) (n : Text)
    → IsSelector (record { mode = mode; name = n })
    → parse_selector (selector_username (record { mode = mode; name = n }))
      ≡ record { mode = mode; name = n }
unfolding parse_selector selector_username
parse_record ephemeral n h = select_ephemeral n _ refl h
parse_record persistent n h = rw (cut_prefix-append persistent_prefix n) (select_persistent n h)

-- Every username yields such a selector, and is the username that asks for it.
pub parse_selector-IsSelector :
    (u : Text) → IsSelector (parse_selector u) × (selector_username (parse_selector u) ≡ u)
unfolding parse_selector
parse_selector-IsSelector u = (
  select-IsSelector u (cut_prefix persistent_prefix u) refl,
  select-username u (cut_prefix persistent_prefix u) refl,
)

-- Every such selector is read back from the username that asks for it.
pub parse_selector-selector_username :
    (s : Selector) → IsSelector s → parse_selector (selector_username s) ≡ s
parse_selector-selector_username s h = parse_record s.mode s.name h
