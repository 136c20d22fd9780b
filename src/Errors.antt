-- ===== src/Errors.antt =====
-- Go's error values: the sentinels of the repository (domain/errors.go, application/publishing.go,
-- topics.go, envelope.go, config.go, migrations/embed.go), the error types of the drivers that the
-- code looks for, and `fmt.Errorf` with `%w`. `is` is `errors.Is`, `as_pg` and `as_kafka` are
-- `errors.As`, and `text` is the method `Error()`.
use Prim.Native.String.{◌++◌}
use outboxexpress.Common.{
  ℕ, ◌≡◌, Bool, false, ◌||◌, String, Option, none, some, ◌==◌, ◌⊎◌, inl, inr,
}

pub data Sentinel : Type 0 where
  invalid_email invalid_display_name invalid_id email_taken : Sentinel
  transient permanent unmapped_aggregate_type unmapped_event : Sentinel
  missing invalid no_brokers unknown_context schema_behind : Sentinel
  deadline_exceeded canceled : Sentinel

abbrev rank : Sentinel → ℕ
rank invalid_email = 0
rank invalid_display_name = 1
rank invalid_id = 2
rank email_taken = 3
rank transient = 4
rank permanent = 5
rank unmapped_aggregate_type = 6
rank unmapped_event = 7
rank missing = 8
rank invalid = 9
rank no_brokers = 10
rank unknown_context = 11
rank schema_behind = 12
rank deadline_exceeded = 13
rank canceled = 14

abbrev pub same : Sentinel → Sentinel → Bool
same a b = rank a == rank b

-- *pgconn.PgError: the SQLSTATE, the constraint's name and the message.
pub record PgError : Type 0 where
  pub code : String
  pub constraint_name : String
  pub message : String

-- *kerr.Error: the protocol's code, as the number that stands for it, and `Retriable`.
pub record KafkaError : Type 0 where
  pub code : ℕ
  pub retriable : Bool
  pub message : String

pub data Error : Type 0 where
  sentinel : Sentinel → Error
  -- errors.New, and an error of code that is not in the repository
  opaque : String → Error
  pg : PgError → Error
  kafka : KafkaError → Error
  -- fmt.Errorf("text: %w", err)
  wrap : String → Error → Error
  -- fmt.Errorf("%w: text", err)
  annotate : Error → String → Error
  -- fmt.Errorf("%w: %w", first, second)
  both : Error → Error → Error
  -- errors.Join(first, rest), which puts each text on a line of its own
  joined : Error → Error → Error

-- errors.Is(err, target)
unfoldable pub is : Error → Sentinel → Bool
is (sentinel s) t = same s t
is (opaque m) t = false
is (pg e) t = false
is (kafka e) t = false
is (wrap m e) t = is e t
is (annotate e m) t = is e t
is (both d e) t = is d t || is e t
is (joined d e) t = is d t || is e t

abbrev or_else {ℓ} : {A : Type ℓ} → Option A → Option A → Option A
or_else (some a) b = some a
or_else none b = b

-- errors.As(err, &pgErr)
unfoldable pub as_pg : Error → Option PgError
as_pg (sentinel s) = none
as_pg (opaque m) = none
as_pg (pg e) = some e
as_pg (kafka e) = none
as_pg (wrap m e) = as_pg e
as_pg (annotate e m) = as_pg e
as_pg (both d e) = or_else (as_pg d) (as_pg e)
as_pg (joined d e) = or_else (as_pg d) (as_pg e)

-- errors.As(err, &kafkaErr)
unfoldable pub as_kafka : Error → Option KafkaError
as_kafka (sentinel s) = none
as_kafka (opaque m) = none
as_kafka (pg e) = none
as_kafka (kafka e) = some e
as_kafka (wrap m e) = as_kafka e
as_kafka (annotate e m) = as_kafka e
as_kafka (both d e) = or_else (as_kafka d) (as_kafka e)
as_kafka (joined d e) = or_else (as_kafka d) (as_kafka e)

sentinel_text : Sentinel → String
sentinel_text invalid_email = "accounts: email is not a valid address"
sentinel_text invalid_display_name = "accounts: display name is empty or too long"
sentinel_text invalid_id = "accounts: user id must not be the nil UUID"
sentinel_text email_taken = "accounts: email is already registered"
sentinel_text transient = "application: transient publish failure"
sentinel_text permanent = "application: permanent publish failure"
sentinel_text unmapped_aggregate_type = "application: no topic for aggregate type"
sentinel_text unmapped_event = "application: no message mapping for event type"
sentinel_text missing = "config: required variable is empty"
sentinel_text invalid = "config: invalid value"
sentinel_text no_brokers = "kafka: no brokers configured"
sentinel_text unknown_context = "migrations: unknown context"
sentinel_text schema_behind = "migrations: schema is behind the expected version"
sentinel_text deadline_exceeded = "context deadline exceeded"
sentinel_text canceled = "context canceled"

-- err.Error()
unfoldable pub text : Error → String
unfolding sentinel_text
text (sentinel s) = sentinel_text s
text (opaque m) = m
text (pg e) = e.message
text (kafka e) = e.message
text (wrap m e) = m ++ (": " ++ text e)
text (annotate e m) = text e ++ (": " ++ m)
text (both d e) = text d ++ (": " ++ text e)
text (joined d e) = text d ++ ("\n" ++ text e)

-- A call that returns a value and an error.
pub data Result {ℓ} (A : Type ℓ) : Type ℓ where
  ok : A → Result A
  err : Error → Result A

-- `if err != nil { return ..., err }` after a call, in do blocks.
infixl 5 ◌>>=◌ ◌>>◌
abbrev pub ◌>>=◌ {ℓ κ} :
    {Value : Type ℓ} {Next : Type κ} → Result Value → (Value → Result Next) → Result Next
err failure >>= next = err failure
ok value >>= next = next value

abbrev pub ◌>>◌ {ℓ} : {Next : Type ℓ} → Result (Unit {0}) → Result Next → Result Next
first >> next = first >>= λ _. next

pub Result-cases {ℓ} :
    {Value : Type ℓ} (r : Result Value)
    → ((value : Value) × (r ≡ ok value)) ⊎ ((e : Error) × (r ≡ err e))
Result-cases (err e) = inr (e, λ i. err e)
Result-cases (ok value) = inl (value, λ i. ok value)

-- Inversion of a successful bind.
pub >>=-eq-ok {ℓ κ} :
    {Value : Type ℓ} {Next : Type κ} (r : Result Value) (next : Value → Result Next) {result : Next}
    → (r >>= next) ≡ ok result
    → (value : Value) × (r ≡ ok value) × (next value ≡ ok result)
>>=-eq-ok (err e) next h = cc
>>=-eq-ok (ok value) next h = (value, λ i. ok value, h)
