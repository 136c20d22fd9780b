-- ===== src/Tests/Serving.antt =====
-- The Kafka publisher, the HTTP endpoint and the configuration at concrete inputs.
use outboxexpress.Common.{
  ◌≡◌, ◌⊎◌, refl, true, not, Option, none, some, List, [], ◌∷◌, arith, String, str_eq,
  if◌then◌else◌,
}
use outboxexpress.Common.Int.{pos}
use outboxexpress.Common.Dict.{lookup}
use outboxexpress.Domain.User.{User, register}
use outboxexpress.Domain.User.Laws.{IsRegistered}
use outboxexpress.Domain.Email.{new_email, has_dotted_domain}
use outboxexpress.Domain.DisplayName.{new_display_name}
use outboxexpress.Errors.{Error, ok, err, is, as_kafka, kafka, opaque, permanent, transient}
use outboxexpress.Messaging.{encode_cloud_event}
use outboxexpress.Envelope.{envelopes_from}
use outboxexpress.Outbox.{PendingMessage, scan}
use outboxexpress.Outbox.Table.{affected}
use outboxexpress.Kafka.{KafkaRecord, KerrCodes, classify, record_headers, kafka_publish}
use outboxexpress.Kafka.Headers.{Ascending, record_headers-sorted}
use outboxexpress.Messaging.{Headers}
use mathlib.Core.List.{Permᴰ}
use outboxexpress.Kafka.Classes.{is_hopeless, classify_iff, fates-AllClassified}
use outboxexpress.Postgres.Db.{Db, add_user, add_outbox}
use outboxexpress.Postgres.Tx.{with_tx}
use outboxexpress.Postgres.Tracker.{drain}
use outboxexpress.Postgres.Uow.{do_work, save, append}
use outboxexpress.Postgres.RelayOutbox.{relay_outbox}
use outboxexpress.Postgres.RelayOutbox.Marks.{HasRow, relay_outbox-MarksSucceed}
use outboxexpress.Publish.{PublishPendingBatch, new_result, publish_batch, publish_headers}
use outboxexpress.Publish.Derived.{derived_header, lookup-publish_headers}
use outboxexpress.Publish.Fates.{fates, AllClassified}
use outboxexpress.Publish.Progress.{MarksSucceed, publish_batch_ends}
use outboxexpress.Register.{execute}
use outboxexpress.Register.Atomic.{SameTables, StoredUnheard}
use outboxexpress.Register.Adding.{Adds}
use outboxexpress.Http.{RegisterRequest, Request, metadata, register_user}
use outboxexpress.Http.Contract.{endpoint, created_means_stored, refused_means_unchanged}
use outboxexpress.Config.{Parsers, RelayConfig, read_relay, load_relay}
use outboxexpress.Config.Usable.{IsUsable, load_relay-IsUsable}
use outboxexpress.Tests.Data.{
  small_std, calm_tx, calm_server, small_row, three_rows, small_uow, small_machine, small_world,
}

abbrev small_codes : KerrCodes
small_codes = record { unknown_topic_or_partition = 3; unknown_topic_id = 100 }

abbrev unknown_topic : Error
unknown_topic = kafka (record { code = 3; retriable = true; message = "unknown topic" })

-- A broker that knows no topic.
abbrev no_topics : KafkaRecord → List KafkaRecord → Option Error
no_topics r taken = some unknown_topic

abbrev kafka_pass : PublishPendingBatch Db
kafka_pass = record {
  uow = calm_tx;
  outbox = relay_outbox small_std calm_server;
  broker = kafka_publish small_codes no_topics;
  stats = λ _ _. err (opaque "no statistics");
  topics = ("User", "accounts.user") ∷ [];
  clock = pos;
  policy = record { batch_size = 10; after = pos; max_attempts = 5 };
}

abbrev two_messages : List PendingMessage
two_messages = scan (small_row 1 11 "User") ∷ scan (small_row 2 12 "Order") ∷ []

classify_iff_example :
    (is (classify small_codes unknown_topic) permanent
      ≡ is_hopeless small_codes (as_kafka unknown_topic))
    × (is (classify small_codes unknown_topic) transient
        ≡ not (is_hopeless small_codes (as_kafka unknown_topic)))
unfolding is
classify_iff_example = classify_iff small_codes unknown_topic refl refl

fates-AllClassified_example : AllClassified (fates small_std kafka_pass two_messages [])
fates-AllClassified_example =
    fates-AllClassified small_std kafka_pass small_codes no_topics refl two_messages []

small_marks : MarksSucceed kafka_pass.outbox HasRow
small_marks = relay_outbox-MarksSucceed small_std calm_server (λ statement db. refl)

small_classes : AllClassified (fates small_std kafka_pass two_messages [])
small_classes = fates-AllClassified small_std kafka_pass small_codes no_topics refl two_messages []

publish_batch_ends_example :
    (publish_batch small_std kafka_pass two_messages three_rows
      (record { acked = []; readings = 1; result = new_result small_std kafka_pass })).0
    ≡ none
unfolding affected
publish_batch_ends_example =
    publish_batch_ends small_std kafka_pass HasRow small_marks two_messages
      (record { acked = []; readings = 1; result = new_result small_std kafka_pass }) three_rows
      small_classes (refl, (refl, tt))

abbrev two_headers : Headers
two_headers = ("b", "2") ∷ ("a", "1") ∷ []

record_headers-sorted_example :
    Permᴰ (record_headers two_headers) two_headers
    × Ascending (record_headers two_headers)
    × ((wanted : String) → lookup wanted (record_headers two_headers) ≡ lookup wanted two_headers)
unfolding lookup
record_headers-sorted_example = record_headers-sorted two_headers (refl, (refl, tt))

lookup-publish_headers_example :
    lookup "ce_id" (publish_headers small_std (scan (small_row 1 11 "User")) "id")
    ≡ derived_header small_std (scan (small_row 1 11 "User")) "id" "ce_id"
lookup-publish_headers_example =
    lookup-publish_headers small_std (scan (small_row 1 11 "User")) "id" "ce_id" tt

abbrev small_request : Request
small_request = record {
  correlation_header = "c";
  traceparent_header = "";
  decoded = ok (record { email = "a@b.c"; display_name = "Ann" });
}

created :
    (endpoint small_std small_uow small_machine (ok 5) small_request small_world).0.status ≡ 201
unfolding register_user execute register new_email has_dotted_domain new_display_name do_work
    with_tx save add_user drain envelopes_from encode_cloud_event append add_outbox
created = refl

created_means_stored_example :
    (u : User) × IsRegistered small_std u.id "a@b.c" "Ann" (pos 9) u
    × Adds small_std small_uow
        (metadata small_std small_request (ok 5))
        u
        three_rows
        (endpoint small_std small_uow small_machine (ok 5) small_request small_world).2.db
    × ((endpoint small_std small_uow small_machine
          (ok 5)
          small_request
          small_world).0.correlation_id
        ≡ (metadata small_std small_request (ok 5)).correlation_id)
created_means_stored_example =
    created_means_stored small_std small_uow small_machine (ok 5) small_request
      (record { email = "a@b.c"; display_name = "Ann" }) small_world refl created

-- A name that is too short.
abbrev nameless : Request
nameless = record small_request { decoded = ok (record { email = "a@b.c"; display_name = "" }) }

nameless-refused :
    (endpoint small_std small_uow small_machine (ok 5) nameless small_world).0.status ≡ 400
unfolding register_user execute register new_email has_dotted_domain new_display_name is
nameless-refused = refl

refused_means_unchanged_example :
    let t = (endpoint small_std small_uow small_machine (ok 5) nameless small_world).2.db in
    SameTables small_std small_uow small_world.db t
    ⊎ ((body : RegisterRequest) × (nameless.decoded ≡ ok body)
        × StoredUnheard small_std small_uow small_machine
            (record {
              email = body.email;
              display_name = body.display_name;
              meta = metadata small_std nameless (ok 5);
            })
            small_world.db
            t)
refused_means_unchanged_example =
    refused_means_unchanged small_std small_uow small_machine (ok 5) nameless small_world
      (λ e. omega (arith, e, nameless-refused)) (λ s t. refl)

-- An environment with nothing but the database.
abbrev small_parsers : Parsers
small_parsers = record {
  atoi = λ s. ok (pos 1);
  parse_duration = λ s. ok (pos 1);
  parse_bool = λ s. ok true;
  parse_level = λ s. ok (pos 0);
  split = λ s. s ∷ [];
  show_int = λ n. "n";
  show_duration = λ n. "n";
}

abbrev small_env : String → String
small_env key = if str_eq key "ACCOUNTS_DATABASE_URL" then "postgres:" else ""

abbrev loaded : RelayConfig
loaded = (read_relay small_std small_parsers small_env).0

loaded-ok : load_relay small_std small_parsers small_env ≡ ok loaded
unfolding load_relay
loaded-ok = refl

load_relay-IsUsable_example : IsUsable loaded
load_relay-IsUsable_example = load_relay-IsUsable small_std small_parsers small_env loaded loaded-ok
