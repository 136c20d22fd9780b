-- ===== src/Messaging.antt =====
-- internal/platform/messaging: the header names, the transport Message and the CloudEvents envelope.
-- encoding/json is the parameter `marshal`; a payload is the text that it returns.
use Prim.Native.String.{◌++◌}
use outboxexpress.Common.{ℕ, String, List}
use outboxexpress.Common.Int.{ℤ}
use outboxexpress.Domain.Std.{Std}
use outboxexpress.Errors.{Result, ok, err, wrap}

abbrev pub header_event_id : String
header_event_id = "ce_id"

abbrev pub header_event_type : String
header_event_type = "ce_type"

abbrev pub header_spec_version : String
header_spec_version = "ce_specversion"

abbrev pub header_schema_version : String
header_schema_version = "schema_version"

abbrev pub header_content_type : String
header_content_type = "content-type"

abbrev pub header_correlation_id : String
header_correlation_id = "correlation_id"

abbrev pub header_traceparent : String
header_traceparent = "traceparent"

abbrev pub spec_version : String
spec_version = "1.0"

abbrev pub data_content_type : String
data_content_type = "application/json"

abbrev pub Headers : Type 0
Headers = List (String × String)

pub record Message : Type 0 where
  pub event_id : String
  pub event_type : String
  pub schema_version : ℕ
  pub key : String
  pub payload : String
  pub headers : Headers
  pub topic : String

pub record Attributes : Type 0 where
  pub id : String
  pub type : String
  pub source : String
  pub subject : String
  pub time : ℤ
  pub schema_name : String
  pub schema_base : String
  pub version : ℕ
  pub traceparent : String

-- `A` is the type of the field Data.
pub record CloudEvent {ℓ} (A : Type ℓ) : Type ℓ where
  pub specversion : String
  pub id : String
  pub type : String
  pub source : String
  pub subject : String
  pub time : String
  pub dataschema : String
  pub datacontenttype : String
  pub traceparent : String
  pub content : A

-- time.Time.UTC().Format(TimeFormat) and json.Marshal of an envelope.
pub record Codec (A : Type 0) : Type 0 where
  pub format_time : ℤ → String
  pub marshal : CloudEvent A → Result String

module _ {A : Type 0} (std : Std) (codec : Codec A) where
  -- `fmt.Sprintf("%s/%s/%d.json", base, name, version)`
  unfoldable pub data_schema : String → String → ℕ → String
  data_schema base name version = base ++ ("/" ++ (name ++ ("/" ++ (std.itoa version ++ ".json"))))

  -- The struct that EncodeCloudEvent hands to json.Marshal.
  unfoldable pub cloud_event : Attributes → A → CloudEvent A
  unfolding data_schema
  cloud_event attrs content = record {
    specversion = spec_version;
    id = attrs.id;
    type = attrs.type;
    source = attrs.source;
    subject = attrs.subject;
    time = codec.format_time attrs.time;
    dataschema = data_schema attrs.schema_base attrs.schema_name attrs.version;
    datacontenttype = data_content_type;
    traceparent = attrs.traceparent;
    content = content;
  }

  unfoldable pub encode_cloud_event : Attributes → A → Result String
  unfolding cloud_event
  encode_cloud_event attrs content = elim (codec.marshal (cloud_event attrs content)) [
    | ok payload ↦ ok payload
    | err e ↦ err (wrap ("messaging: marshal " ++ attrs.type) e)
  ]
