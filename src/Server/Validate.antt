-- ===== src/Server/Validate.antt =====
-- internal/server/validate.go: the usernames that the server accepts.
use voidshell.Workspace.Selector.{
  selector_username, ephemeral, persistent, StorageMode, parse_selector, persistent_prefix,
  parse_selector-IsSelector,
}
use voidshell.Workspace.Distinct.{NoSlash}
use voidshell.Prelude.{
  ℕ, zero, suc, ◌≡◌, refl, ◌↔◌, Bool, true, false, ◌&&◌, ◌||◌, [], ◌∷◌, arith, ◌==◌, Text, All,
  length, ◌≤◌, is_lower, is_upper, is_digit, All-append_right,
}

-- `[a-zA-Z0-9]` and `[a-zA-Z0-9._-]`
abbrev pub is_alnum : ℕ → Bool
is_alnum c = is_lower c || is_upper c || is_digit c

abbrev pub is_name_char : ℕ → Bool
is_name_char c = is_alnum c || c == b'.' || c == b'_' || c == b'-'

-- `[a-zA-Z0-9._-]{0,n}$`
unfoldable pub match_rest : ℕ → Text → Bool
match_rest n [] = true
match_rest zero (c ∷ s) = false
match_rest (suc n) (c ∷ s) = is_name_char c && match_rest n s

-- `validSSHUsername.MatchString(user)`; `validateSSHUsername` fails where this is false.
unfoldable pub valid_ssh_username : Text → Bool
unfolding match_rest
valid_ssh_username [] = false
valid_ssh_username (c ∷ s) = is_alnum c && match_rest 62 s

-- A letter or digit, then at most 62 letters, digits, dots, underscores and hyphens.
pub record IsUsername (u : Text) : Type 0 where
  pub first : ℕ
  pub rest : Text
  pub shape : u ≡ first ∷ rest
  pub starts : is_alnum first ≡ true
  pub chars : All (λ c. is_name_char c ≡ true) u
  pub bounded : length u ≤ 63

match_rest_sound :
    (n : ℕ) (s : Text) → match_rest n s ≡ true → All (λ c. is_name_char c ≡ true) s × (length s ≤ n)
unfolding match_rest
match_rest_sound zero [] h = (tt, omega arith)
match_rest_sound zero (c ∷ s) h = cc
match_rest_sound (suc n) [] h = (tt, omega arith)
match_rest_sound (suc n) (c ∷ s) h = ground (arith, match_rest_sound n s)

match_rest_complete :
    (n : ℕ) (s : Text) → All (λ c. is_name_char c ≡ true) s → length s ≤ n → match_rest n s ≡ true
unfolding match_rest
match_rest_complete zero [] h le = refl
match_rest_complete zero (c ∷ s) h le = absurd (omega arith)
match_rest_complete (suc n) [] h le = refl
match_rest_complete (suc n) (c ∷ s) (hc, h) le = ground (arith, match_rest_complete n s h)

IsUsername-sound : (u : Text) → valid_ssh_username u ≡ true → IsUsername u
unfolding valid_ssh_username
IsUsername-sound [] h = cc
IsUsername-sound (c ∷ s) h = record {
  first = c;
  rest = s;
  shape = refl;
  starts = ground arith;
  chars = ground (arith, match_rest_sound 62 s);
  bounded = ground (arith, match_rest_sound 62 s);
}

IsUsername-complete : (u : Text) → IsUsername u → valid_ssh_username u ≡ true
unfolding valid_ssh_username
IsUsername-complete [] h = let e = h.shape in cc
IsUsername-complete (c ∷ s) h =
    let e = h.shape in
    let a = h.starts in
    let b = h.bounded in ground (arith, match_rest_complete 62 s h.chars.1 (omega arith))

-- The server accepts exactly the usernames of 1 to 63 letters, digits, dots, underscores and
-- hyphens that begin with a letter or digit.
pub valid_ssh_username_iff : (u : Text) → (valid_ssh_username u ≡ true) ↔ IsUsername u
valid_ssh_username_iff u = (IsUsername-sound u, IsUsername-complete u)

NoSlash-of_chars : (s : Text) → All (λ c. is_name_char c ≡ true) s → NoSlash s
NoSlash-of_chars [] h = tt
NoSlash-of_chars (c ∷ s) (hc, h) = (ground arith, NoSlash-of_chars s h)

selected_chars :
    (mode : StorageMode) (n : Text)
    → All (λ c. is_name_char c ≡ true) (selector_username (record { mode = mode; name = n }))
    → All (λ c. is_name_char c ≡ true) n
unfolding selector_username
selected_chars ephemeral n h = h
selected_chars persistent n h = All-append_right _ persistent_prefix n h

-- The workspace that an accepted username selects has no slash in its name.
pub selected-NoSlash : (u : Text) → valid_ssh_username u ≡ true → NoSlash (parse_selector u).name
selected-NoSlash u h =
    let s = parse_selector u in
    let spelled = (parse_selector-IsSelector u).1 in
    NoSlash-of_chars s.name (selected_chars s.mode s.name (rw spelled (IsUsername-sound u h).chars))
