-- ===== src/Domain/Email.antt =====
-- domain/email.go. `Email` holds the normalised text; `new_email` is `NewEmail`.
pub mod Laws
use Prim.Native.String.{len, slice}
use text.Mathlib.Text.{find?}
use mathlib.Core.Option
use outboxexpress.Common.{
  ℕ, ◌+◌, String, Bool, true, false, not, ◌||◌, ◌&&◌, Option, none, some, ltb, str_eq,
  if◌then◌else◌,
}
use outboxexpress.Errors.{Result, ok, err, sentinel, invalid_email}
use outboxexpress.Domain.Std.{Std}

pub record Email : Type 0 where
  pub value : String

abbrev pub max_email_length : ℕ
max_email_length = 320

-- strings.Contains(s, sub)
unfoldable pub contains : String → String → Bool
contains s sub = elim (find? s sub) [ none ↦ false | some _ ↦ true ]

-- the text after the first "@", if strings.Cut finds one
unfoldable pub domain_part : String → Option String
domain_part s = Option.map (λ at. slice s (at + 1) (len s)) (find? s "@")

-- `!ok || !strings.Contains(domainPart, ".")`
unfoldable pub has_dotted_domain : String → Bool
unfolding contains domain_part
has_dotted_domain s = elim (domain_part s) [ none ↦ false | some d ↦ contains d "." ]

abbrev refuse : Result Email
refuse = err (sentinel invalid_email)

-- NewEmail after mail.ParseAddress, whose result is the second argument.
accept_parsed : String → Option String → Result Email
accept_parsed s none = refuse
accept_parsed s (some address) =
    if not (str_eq address s)
    then refuse
    else if not (has_dotted_domain s)
    then refuse
    else ok (record { value = s })

-- The checks of NewEmail on the normalised text.
unfoldable pub accept_email : Std → String → Result Email
unfolding accept_parsed
accept_email std s =
    if str_eq s "" || ltb max_email_length (len s)
    then refuse
    else accept_parsed s (std.parse_address s)

-- `strings.ToLower(strings.TrimSpace(raw))`
unfoldable pub normal_email : Std → String → String
normal_email std raw = std.to_lower (std.trim_space raw)

unfoldable pub new_email : Std → String → Result Email
unfolding accept_email normal_email
new_email std raw = accept_email std (normal_email std raw)
