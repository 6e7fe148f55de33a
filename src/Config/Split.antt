-- ===== src/Config/Split.antt =====
-- The comma-separated lists in the environment.
use voidshell.Prelude.{
  All-append, Bool-cases, inl, inr, is_space, trim_space_left, trim_space_right, if◌then◌else◌,
  true, ℕ, ◌≡◌, refl, false, List, [], ◌∷◌, ◌++◌, Text, All, ◌==◌, trim_space, is_empty, ap, ◌∙◌,
  sym, append-nil, append_assoc, arith,
}
use voidshell.Config.{split_go, keep_trimmed, split_trimmed}

-- A text between two commas of a list in the environment, with the white space around it.
pub record Padded : Type 0 where
  pub before : Text
  pub text : Text
  pub after : Text

-- The text has no comma, and no white space at its own ends.
pub record IsItem (p : Padded) : Type 0 where
  pub padded : All (λ c. is_space c ≡ true) p.before
  pub comma_free : All (λ c. (c == b',') ≡ false) p.text
  pub trimmed : trim_space p.text ≡ p.text
  pub filled_up : All (λ c. is_space c ≡ true) p.after

abbrev written : Padded → Text
written p = p.before ++ (p.text ++ p.after)

-- The items with a comma between any two.
unfoldable pub join_items : List Padded → Text
join_items [] = []
join_items (p ∷ []) = written p
join_items (p ∷ q ∷ rest) = written p ++ b',' ∷ join_items (q ∷ rest)

-- The texts that are not empty.
abbrev pub texts : List Padded → List Text
texts [] = []
texts (p ∷ rest) = let more = texts rest in if is_empty p.text then more else p.text ∷ more

split_other :
    (field : Text) (c : ℕ) (s : Text)
    → (c == b',') ≡ false
    → split_go field (c ∷ s) ≡ split_go (field ++ c ∷ []) s
unfolding split_go
split_other field c s h = rw (split_go, h) refl

split_go-comma_free :
    (field t s : Text)
    → All (λ c. (c == b',') ≡ false) t
    → split_go field (t ++ s) ≡ split_go (field ++ t) s
unfolding split_go
split_go-comma_free field [] s h = ap (λ f. split_go f s) (sym (append-nil field))
split_go-comma_free field (c ∷ t) s (h, hs) =
    split_other field c (t ++ s) h
    ∙ split_go-comma_free (field ++ c ∷ []) t s hs
    ∙ ap (λ f. split_go f s) (append_assoc field (c ∷ []) t)

spaces-comma_free : (s : Text) → All (λ c. is_space c ≡ true) s → All (λ c. (c == b',') ≡ false) s
unfolding is_space
spaces-comma_free [] h = tt
spaces-comma_free (c ∷ s) (h, hs) = (ground arith, spaces-comma_free s hs)

trim_left-before :
    (s t : Text) → All (λ c. is_space c ≡ true) s → trim_space_left (s ++ t) ≡ trim_space_left t
unfolding trim_space_left
trim_left-before [] t h = refl
trim_left-before (c ∷ s) t (h, hs) = rw (trim_space_left, h) (trim_left-before s t hs)

trim_right-spaces : (s : Text) → All (λ c. is_space c ≡ true) s → trim_space_right s ≡ []
unfolding trim_space_right
trim_right-spaces [] h = refl
trim_right-spaces (c ∷ s) (h, hs) = rw (trim_space_right, h, trim_right-spaces s hs) refl

trim_right-after :
    (t s : Text) → All (λ c. is_space c ≡ true) s → trim_space_right (t ++ s) ≡ trim_space_right t
unfolding trim_space_right
trim_right-after [] s h = trim_right-spaces s h
trim_right-after (c ∷ t) s h = rw (trim_space_right, trim_right-after t s h) refl

trim_space-after :
    (t s : Text) → All (λ c. is_space c ≡ true) s → trim_space (t ++ s) ≡ trim_space t
unfolding trim_space trim_space_left
trim_space-after [] s h =
    ap trim_space_right (ap trim_space_left (sym (append-nil s)) ∙ trim_left-before s [] h)
trim_space-after (c ∷ t) s h = elim (Bool-cases (is_space c)) [
  | inl e ↦ rw (trim_space_left, e) (trim_space-after t s h)
  | inr e ↦ rw (trim_space_left, e) (trim_right-after (c ∷ t) s h)
]

trim_space-written : (p : Padded) → IsItem p → trim_space (written p) ≡ p.text
unfolding trim_space
trim_space-written p h =
    ap trim_space_right (trim_left-before p.before (p.text ++ p.after) h.padded)
    ∙ trim_space-after p.text p.after h.filled_up
    ∙ h.trimmed

written-comma_free : (p : Padded) → IsItem p → All (λ c. (c == b',') ≡ false) (written p)
written-comma_free p h =
    All-append (λ c. (c == b',') ≡ false) p.before (p.text ++ p.after)
      (spaces-comma_free p.before h.padded)
      (All-append (λ c. (c == b',') ≡ false) p.text p.after h.comma_free
        (spaces-comma_free p.after h.filled_up))

keep_item :
    (p : Padded) (parts : List Text) (rest : List Padded)
    → IsItem p
    → keep_trimmed parts ≡ texts rest
    → keep_trimmed (written p ∷ parts) ≡ texts (p ∷ rest)
unfolding keep_trimmed
keep_item p parts rest h e = rw (keep_trimmed, trim_space-written p h, e) refl

-- A list in the environment, of items with any white space around them and a comma between any two,
-- is read as the texts of its items, in their order, without the white space and without the empty
-- ones.
pub split_trimmed-join_items :
    (items : List Padded) → All IsItem items → split_trimmed (join_items items) ≡ texts items
unfolding split_trimmed join_items keep_trimmed split_go trim_space trim_space_left trim_space_right
split_trimmed-join_items [] h = refl
split_trimmed-join_items (p ∷ []) (h, hs) =
    ap keep_trimmed (
      ap (split_go []) (sym (append-nil (written p)))
      ∙ split_go-comma_free [] (written p) [] (written-comma_free p h))
    ∙ keep_item p [] [] h refl
split_trimmed-join_items (p ∷ q ∷ rest) (h, hs) =
    ap keep_trimmed
      (split_go-comma_free [] (written p) (b',' ∷ join_items (q ∷ rest)) (written-comma_free p h))
    ∙ keep_item p (split_go [] (join_items (q ∷ rest))) (q ∷ rest) h
        (split_trimmed-join_items (q ∷ rest) hs)
