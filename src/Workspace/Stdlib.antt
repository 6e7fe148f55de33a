-- ===== src/Workspace/Stdlib.antt =====
-- What internal/workspace uses of Go's standard library and does not implement itself.
use voidshell.Prelude.{ℕ, ◌<◌, ◌≡◌, true, List, length, All, Text}
use voidshell.Prelude.{is_lower, is_digit, ◌||◌, ◌==◌}

-- `unicode.ToLower`, which `strings.ToLower` applies to each code point, and the 32 bytes of
-- `sha256.Sum256` of a text's UTF-8 encoding.
pub record Stdlib : Type 0 where
  pub lower : ℕ → ℕ
  pub sha256 : Text → List ℕ

-- Documented of the digest: it has 32 bytes.
pub record IsDigest (lib : Stdlib) : Type 0 where
  pub size : (s : Text) → length (lib.sha256 s) ≡ 32
  pub bytes : (s : Text) → All (λ b. b < 256) (lib.sha256 s)

-- Documented of the case mapping: the lower-case ASCII letters, the digits and the hyphen stay.
pub record KeepsLower (lib : Stdlib) : Type 0 where
  pub lower_id : (c : ℕ) → (is_lower c || is_digit c || c == b'-') ≡ true → lib.lower c ≡ c
