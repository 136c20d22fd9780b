-- ===== src/Http.antt =====
-- internal/accounts/presentation/http/handler.go and dto.go. net/http and encoding/json are parameters
-- of a request: what Decode returns, and what the two headers hold. A response is its status, its
-- headers and its body; `written` is the error of encoding it, which is only logged.
pub mod Contract
pub mod Router
use Prim.Native.String.{◌++◌}
use outboxexpress.Common.{
  ℕ, String, Bool, true, false, Option, none, some, List, [], ◌∷◌, ◌++◌ as ◌++ᴸ◌, str_eq,
  if◌then◌else◌,
}
use outboxexpress.Domain.Std.{Std}
use outboxexpress.Envelope.{Metadata}
use outboxexpress.Errors.{
  Error, Result, ok, err, is, invalid_email, invalid_display_name, email_taken,
}
use outboxexpress.Register.{RegisterUserCommand}

pub record RegisterRequest : Type 0 where
  pub email : String
  pub display_name : String

-- registerResponse and errorResponse
pub data Body : Type 0 where
  registered : (user_id : String) → Body
  failure : (code message : String) → Body

pub record Response : Type 0 where
  pub status : ℕ
  pub correlation_id : String
  pub location : Option String
  pub body : Body

pub data LogLine : Type 0 where
  no_correlation_id : Error → LogLine
  register_failed : (correlation_id : String) → Error → LogLine

pub record Request : Type 0 where
  pub correlation_header : String
  pub traceparent_header : String
  -- what the strict decoder makes of the limited body
  pub decoded : Result RegisterRequest

abbrev pub correlation_unavailable : String
correlation_unavailable = "correlation-id-unavailable"

-- Handler.correlationID; `minted` is what IDGen.New returns if it is asked.
unfoldable pub correlation_id_of : Std → Request → Result ℕ → String × List LogLine
correlation_id_of std r minted =
    if str_eq r.correlation_header ""
    then elim minted [
      | ok id ↦ (std.uuid_string id, [])
      | err e ↦ (correlation_unavailable, no_correlation_id e ∷ [])
    ]
    else (r.correlation_header, [])

unfoldable pub metadata : Std → Request → Result ℕ → Metadata
unfolding correlation_id_of
metadata std r minted = record {
  correlation_id = (correlation_id_of std r minted).0;
  traceparent = r.traceparent_header;
}

-- Handler.fail
abbrev pub fail : Metadata → ℕ → String → String → Response
fail meta status code message = record {
  status = status;
  correlation_id = meta.correlation_id;
  location = none;
  body = failure code message;
}

-- Handler.failFor
unfoldable pub fail_for : Metadata → Error → Response × List LogLine
fail_for meta e =
    if is e invalid_email
    then (fail meta 400 "invalid_email" "email is not a valid address", [])
    else if is e invalid_display_name
    then (fail meta 400 "invalid_display_name" "display name is empty or too long", [])
    else if is e email_taken
    then (fail meta 409 "email_taken" "that email is already registered", [])
    else (
      fail meta 500 "internal_error" "the request could not be completed",
      register_failed meta.correlation_id e ∷ [],
    )

-- What follows the call of Execute.
unfoldable pub respond : Std → Metadata → Result ℕ → Response × List LogLine
unfolding fail_for
respond std meta (err e) = fail_for meta e
respond std meta (ok user_id) = (
  record {
    status = 201;
    correlation_id = meta.correlation_id;
    location = some ("/users/" ++ std.uuid_string user_id);
    body = registered (std.uuid_string user_id);
  },
  [],
)

-- Handler.RegisterUser over a registrar that acts on a world `W`, with the lines that it logs.
unfoldable pub register_user :
    {W : Type 0}
    → Std
    → (RegisterUserCommand → W → Result ℕ × W)
    → Result ℕ
    → Request
    → W
    → Response × List LogLine × W
unfolding metadata respond
register_user std execute minted r world =
    let meta = metadata std r minted in
    let marked = (correlation_id_of std r minted).1 in
    elim r.decoded [
      | err e ↦ (
        fail meta 400 "malformed_body"
            "request body must be a JSON object with the fields email and display_name",
        marked,
        world,
      )
      | ok body ↦
          let (out, world') =
            execute (record { email = body.email; display_name = body.display_name; meta = meta })
              world in
          let (response, lines) = respond std meta out in (response, marked ++ᴸ lines, world')
    ]
