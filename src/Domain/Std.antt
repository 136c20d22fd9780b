-- ===== src/Domain/Std.antt =====
-- What the program takes from Go's standard library, github.com/google/uuid and JSONB, as operations.
-- A text is a native string; a UUID is the number of its 128 bits; an instant and a duration are
-- integers.
use outboxexpress.Common.{ℕ, String, Option, ◌≡◌}

pub record Std : Type 0 where
  -- what PostgreSQL gives back of a text that a JSONB column has stored: the same value, not the same
  -- bytes
  pub jsonb : String → String
  -- strings.TrimSpace and strings.ToLower
  pub trim_space : String → String
  pub to_lower : String → String
  -- the field Address that mail.ParseAddress returns, or its error
  pub parse_address : String → Option String
  -- uuid.UUID.String
  pub uuid_string : ℕ → String
  -- strconv.Itoa, and fmt's %d
  pub itoa : ℕ → String
  -- fmt's %q
  pub quote : String → String

-- uuid.Nil
abbrev pub uuid_nil : ℕ
uuid_nil = 0

-- strings.TrimSpace removes nothing from a text that it has trimmed, and strings.ToLower of a trimmed
-- text is a trimmed text that it does not change again.
pub record Normalises (std : Std) : Type 0 where
  pub trim_trim : (s : String) → std.trim_space (std.trim_space s) ≡ std.trim_space s
  pub trim_lower :
      (s : String)
      → std.trim_space (std.to_lower (std.trim_space s)) ≡ std.to_lower (std.trim_space s)
  pub lower_lower : (s : String) → std.to_lower (std.to_lower s) ≡ std.to_lower s
