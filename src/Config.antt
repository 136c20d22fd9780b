-- ===== src/Config.antt =====
-- internal/platform/config/config.go: the configuration of the relay. The environment is a function;
-- the parsers and printers of strconv, time, slog and strings are the record Parsers.
pub mod Usable
pub mod Load
use Prim.Native.String.{◌++◌}
use outboxexpress.Common.{
  ℕ, String, Bool, true, false, not, ◌&&◌, Option, none, some, List, [], ◌∷◌, ◌++◌ as ◌++ᴸ◌, map,
  filter, str_eq, if◌then◌else◌,
}
use outboxexpress.Common.Int.{ℤ, pos, ltb_ℤ, leb_ℤ}
use outboxexpress.Domain.Std.{Std}
use outboxexpress.Errors.{
  Error, Result, ok, err, sentinel, missing, invalid, annotate, both, joined,
}

pub record Parsers : Type 0 where
  pub atoi : String → Result ℤ
  pub parse_duration : String → Result ℤ
  pub parse_bool : String → Result Bool
  pub parse_level : String → Result ℤ
  -- strings.Split(s, ",")
  pub split : String → List String
  -- %v of an int and of a duration
  pub show_int : ℤ → String
  pub show_duration : ℤ → String

-- config.Relay
pub record RelayConfig : Type 0 where
  pub accounts_database_url : String
  pub kafka_brokers : List String
  pub kafka_topic : String
  pub admin_addr : String
  pub log_level : ℤ
  pub batch_size : ℤ
  pub idle_min : ℤ
  pub idle_max : ℤ
  pub backoff_base : ℤ
  pub backoff_cap : ℤ
  pub max_attempts : ℤ
  pub use_notify : Bool
  pub drain_grace : ℤ
  pub purge_interval : ℤ
  pub outbox_retention : ℤ
  pub purge_batch : ℤ

unfoldable pub is_positive : ℤ → Bool
is_positive v = ltb_ℤ (pos 0) v

unfoldable pub required : String → String → Option Error
required key v = if str_eq v "" then some (annotate (sentinel missing) key) else none

unfoldable pub positive : (ℤ → String) → String → ℤ → Option Error
unfolding is_positive
positive show key v =
    if is_positive v
    then none
    else some (annotate (sentinel invalid) (key ++ ("=" ++ (show v ++ " must be positive"))))

unfoldable pub some_broker : List String → Option Error
some_broker [] = some (annotate (sentinel missing) "KAFKA_BROKERS")
some_broker (b ∷ bs) = none

-- The checks of a maximum against its minimum.
unfoldable pub not_below : (ℤ → String) → String → ℤ → String → ℤ → Option Error
unfolding is_positive
not_below show top_key top low_key low =
    if is_positive low && is_positive top && ltb_ℤ top low
    then some (
        annotate (sentinel invalid)
          (top_key ++ ("=" ++ (show top ++ (" is below " ++ (low_key ++ ("=" ++ show low)))))))
    else none

-- errors.Join of the problems that are not nil.
unfoldable pub join : List (Option Error) → Option Error
join [] = none
join (none ∷ rest) = join rest
join (some e ∷ rest) = elim (join rest) [ none ↦ some e | some more ↦ some (joined e more) ]

module _ (std : Std) (parsers : Parsers) (getenv : String → String) where
  unfoldable pub value : String → String → String
  value key fallback = let v = std.trim_space (getenv key) in if str_eq v "" then fallback else v

  unfoldable pub list : String → String → List String
  unfolding value
  list key fallback =
      filter (λ s. not (str_eq s "")) (map std.trim_space (parsers.split (value key fallback)))

  -- parsed, with the zero value of the type.
  unfoldable pub parsed : {A : Type 0} → String → A → A → (String → Result A) → A × Option Error
  unfolding value
  parsed key zero fallback parse =
      let raw = value key "" in
      if str_eq raw "" then (fallback, none) else elim (parse raw) [
        | ok v ↦ (v, none)
        | err e ↦
            (zero, some (both (annotate (sentinel invalid) (key ++ ("=" ++ std.quote raw))) e))
      ]

  unfoldable pub log_level : ℤ × Option Error
  unfolding value
  log_level =
      let raw = value "LOG_LEVEL" "info" in
      elim (parsers.parse_level raw) [
        | ok level ↦ (level, none)
        | err e ↦
            (pos 0, some (both (annotate (sentinel invalid) ("LOG_LEVEL=" ++ std.quote raw)) e))
      ]

  -- What LoadRelay demands of the values that it has read.
  unfoldable pub relay_problems : RelayConfig → List (Option Error)
  unfolding required positive some_broker not_below
  relay_problems cfg =
      required "ACCOUNTS_DATABASE_URL" cfg.accounts_database_url
      ∷ some_broker cfg.kafka_brokers
      ∷ required "KAFKA_TOPIC" cfg.kafka_topic
      ∷ positive parsers.show_int "RELAY_BATCH_SIZE" cfg.batch_size
      ∷ positive parsers.show_int "RELAY_MAX_ATTEMPTS" cfg.max_attempts
      ∷ positive parsers.show_int "PURGE_BATCH" cfg.purge_batch
      ∷ positive parsers.show_duration "RELAY_IDLE_MIN" cfg.idle_min
      ∷ positive parsers.show_duration "RELAY_BACKOFF_BASE" cfg.backoff_base
      ∷ positive parsers.show_duration "RELAY_DRAIN_GRACE" cfg.drain_grace
      ∷ positive parsers.show_duration "PURGE_INTERVAL" cfg.purge_interval
      ∷ positive parsers.show_duration "OUTBOX_RETENTION" cfg.outbox_retention
      ∷ not_below parsers.show_duration "RELAY_IDLE_MAX" cfg.idle_max "RELAY_IDLE_MIN" cfg.idle_min
      ∷ not_below parsers.show_duration "RELAY_BACKOFF_CAP" cfg.backoff_cap "RELAY_BACKOFF_BASE"
          cfg.backoff_base
      ∷ []

  -- The values that LoadRelay reads, and the problems of reading them.
  unfoldable pub read_relay : RelayConfig × List (Option Error)
  unfolding parsed list log_level
  read_relay =
      let duration =
        λ (key : String) (fallback : ℤ). parsed key (pos 0) fallback parsers.parse_duration in
      let number = λ (key : String) (fallback : ℤ). parsed key (pos 0) fallback parsers.atoi in
      let level = log_level in
      let batch_size = number "RELAY_BATCH_SIZE" (pos 100) in
      let idle_min = duration "RELAY_IDLE_MIN" (pos 50000000) in
      let idle_max = duration "RELAY_IDLE_MAX" (pos 2000000000) in
      let backoff_base = duration "RELAY_BACKOFF_BASE" (pos 1000000000) in
      let backoff_cap = duration "RELAY_BACKOFF_CAP" (pos 300000000000) in
      let max_attempts = number "RELAY_MAX_ATTEMPTS" (pos 10) in
      let use_notify = parsed "RELAY_USE_NOTIFY" false true parsers.parse_bool in
      let drain_grace = duration "RELAY_DRAIN_GRACE" (pos 15000000000) in
      let purge_interval = duration "PURGE_INTERVAL" (pos 60000000000) in
      let outbox_retention = duration "OUTBOX_RETENTION" (pos 86400000000000) in
      let purge_batch = number "PURGE_BATCH" (pos 1000) in
      let cfg : RelayConfig = record {
        accounts_database_url = value "ACCOUNTS_DATABASE_URL" "";
        kafka_brokers = list "KAFKA_BROKERS" "localhost:9092";
        kafka_topic = value "KAFKA_TOPIC" "accounts.user.v1";
        admin_addr = value "ADMIN_ADDR" "127.0.0.1:8082";
        log_level = level.0;
        batch_size = batch_size.0;
        idle_min = idle_min.0;
        idle_max = idle_max.0;
        backoff_base = backoff_base.0;
        backoff_cap = backoff_cap.0;
        max_attempts = max_attempts.0;
        use_notify = use_notify.0;
        drain_grace = drain_grace.0;
        purge_interval = purge_interval.0;
        outbox_retention = outbox_retention.0;
        purge_batch = purge_batch.0;
      } in
      let parse_problems =
        level.1 ∷ batch_size.1 ∷ idle_min.1 ∷ idle_max.1 ∷ backoff_base.1 ∷ backoff_cap.1
        ∷ max_attempts.1 ∷ use_notify.1 ∷ drain_grace.1 ∷ purge_interval.1 ∷ outbox_retention.1
        ∷ purge_batch.1 ∷ [] in
      (cfg, parse_problems)

  unfoldable pub load_relay : Result RelayConfig
  unfolding read_relay relay_problems join
  load_relay = elim (join (read_relay.1 ++ᴸ relay_problems read_relay.0)) [
    | none ↦ ok read_relay.0
    | some e ↦ err e
  ]
