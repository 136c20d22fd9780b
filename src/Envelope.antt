-- ===== src/Envelope.antt =====
-- internal/accounts/application/envelope.go: domain events become outbox rows' contents.
-- Identifiers come from a supply, `ids n` being what the n-th call of IDGen.New returns.
pub mod Laws
use Prim.Native.String.{◌++◌ as ◌++ˢ◌}
use outboxexpress.Common.{
  ℕ, zero, suc, ◌+◌, String, List, [], ◌∷◌, ◌++◌, Option, none, some, str_eq, if◌then◌else◌, length,
}
use outboxexpress.Common.Int.{ℤ}
use outboxexpress.Common.Dict.{insert}
use outboxexpress.Errors.{
  Error, Result, ok, err, ◌>>=◌, ◌>>◌, sentinel, unmapped_event, wrap, annotate,
}
use outboxexpress.Domain.Std.{Std}
use outboxexpress.Domain.User.{
  Event, user_registered, foreign, event_type, aggregate_type, aggregate_id, occurred_at,
}
use outboxexpress.Messaging.{
  Headers, Attributes, Codec, encode_cloud_event, header_correlation_id, header_traceparent,
}

-- unit_of_work.go's Metadata
pub record Metadata : Type 0 where
  pub correlation_id : String
  pub traceparent : String

pub record Envelope : Type 0 where
  pub event_id : ℕ
  pub aggregate_type : String
  pub aggregate_id : String
  pub event_type : String
  pub schema_version : ℕ
  pub payload : String
  pub headers : Headers
  pub occurred_at : ℤ

pub record UserRegisteredData : Type 0 where
  pub user_id : String
  pub email : String
  pub display_name : String
  pub version : ℕ
  pub registered_at : String

pub record MessageSchema : Type 0 where
  pub name : String
  pub version : ℕ

abbrev pub source : String
source = "/services/accounts"

abbrev pub schema_base : String
schema_base = "https://schemas.outboxexpress.dev"

unfoldable pub set_if_present : String → String → Headers → Headers
set_if_present key value h = if str_eq value "" then h else insert key value h

unfoldable pub headers : Metadata → Headers
unfolding set_if_present
headers meta =
    set_if_present header_traceparent meta.traceparent
      (set_if_present header_correlation_id meta.correlation_id [])

-- The calls of IDGen.New: the n-th one returns `ids n`.
abbrev pub IdGen : Type 0
IdGen = ℕ → Result ℕ

module _ (std : Std) (codec : Codec UserRegisteredData) where
  unfoldable pub map_data : Event → Result (UserRegisteredData × MessageSchema)
  map_data (user_registered e) = ok (
    record {
      user_id = std.uuid_string e.user_id;
      email = e.email.value;
      display_name = e.display_name.value;
      version = e.version;
      registered_at = codec.format_time e.registered_at;
    },
    record { name = "accounts/user.registered"; version = 1 },
  )
  map_data (foreign e) =
      err (annotate (sentinel unmapped_event) (e.event_type ++ˢ (" (" ++ˢ (e.go_type ++ˢ ")"))))

  unfoldable pub attributes : ℕ → MessageSchema → Metadata → Event → Attributes
  attributes event_id schema meta event = record {
    id = std.uuid_string event_id;
    type = event_type event;
    source = source;
    subject = aggregate_id std event;
    time = occurred_at event;
    schema_name = schema.name;
    schema_base = schema_base;
    version = schema.version;
    traceparent = meta.traceparent;
  }

  -- `fmt.Errorf("application: event id: %w", err)`
  unfoldable pub mint_event_id : Result ℕ → Result ℕ
  mint_event_id (ok id) = ok id
  mint_event_id (err e) = err (wrap "application: event id" e)

  -- The body of the loop of From; `n` counts the calls of IDGen.New before it.
  unfoldable pub envelope_of : IdGen → Metadata → ℕ → Event → Result Envelope
  unfolding map_data attributes mint_event_id
  envelope_of ids meta n event = do
    mapped ← map_data event
    event_id ← mint_event_id (ids n)
    payload ← encode_cloud_event std codec (attributes event_id mapped.1 meta event) mapped.0
    ok (record {
      event_id = event_id;
      aggregate_type = aggregate_type event;
      aggregate_id = aggregate_id std event;
      event_type = event_type event;
      schema_version = (mapped.1).version;
      payload = payload;
      headers = headers meta;
      occurred_at = occurred_at event;
    })

  -- The loop of From.
  unfoldable pub envelopes_from : IdGen → Metadata → ℕ → List Event → Result (List Envelope)
  unfolding envelope_of
  envelopes_from ids meta n [] = ok []
  envelopes_from ids meta n (event ∷ events) =
      let rest = envelopes_from ids meta (suc n) events in
      do envelope ← envelope_of ids meta n event; following ← rest; ok (envelope ∷ following)
