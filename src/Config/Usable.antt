-- ===== src/Config/Usable.antt =====
-- What a loaded configuration of the relay promises.
use outboxexpress.Common.{
  String, ◌≡◌, ◌≢◌, refl, subst, ◌⊎◌, Option, none, some, List, [], ◌∷◌, ◌++◌, All, arith, eq_iff,
}
use outboxexpress.Common.Int.{ℤ, pos, ◌<ℤ◌, ◌≤ℤ◌}
use outboxexpress.Domain.Std.{Std}
use outboxexpress.Errors.{Error, Result, ok, err}
use outboxexpress.Config.{
  Parsers, RelayConfig, required, positive, some_broker, not_below, join, relay_problems,
  read_relay, load_relay,
}

pub join-none :
    (problems : List (Option Error)) → join problems ≡ none → All (λ o. o ≡ none) problems
unfolding join
join-none [] h = tt
join-none (none ∷ rest) h = (refl, join-none rest h)
join-none (some e ∷ rest) h = ground arith

All-append-right :
    {A : Type 0} (P : A → Type 0) (front back : List A) → All P (front ++ back) → All P back
All-append-right P [] back h = h
All-append-right P (x ∷ front) back h = All-append-right P front back h.1

required-none : (key v : String) → required key v ≡ none → v ≢ ""
unfolding required
required-none key v h = ground (arith, eq_iff v "")

positive-none : (show : ℤ → String) (key : String) (v : ℤ) → positive show key v ≡ none → pos 0 <ℤ v
unfolding positive
positive-none show key v h = ground arith

not_below-none :
    (show : ℤ → String) (top_key : String) (top : ℤ) (low_key : String) (low : ℤ)
    → pos 0 <ℤ low
    → not_below show top_key top low_key low ≡ none
    → (top ≤ℤ pos 0) ⊎ (low ≤ℤ top)
unfolding not_below
not_below-none show top_key top low_key low h k = ground arith

-- A configuration that the relay can run with; a maximum of 0 or below is let through.
pub record IsUsable (cfg : RelayConfig) : Type 0 where
  pub url : cfg.accounts_database_url ≢ ""
  pub brokers : cfg.kafka_brokers ≢ []
  pub topic : cfg.kafka_topic ≢ ""
  pub batch_size : pos 0 <ℤ cfg.batch_size
  pub max_attempts : pos 0 <ℤ cfg.max_attempts
  pub purge_batch : pos 0 <ℤ cfg.purge_batch
  pub idle_min : pos 0 <ℤ cfg.idle_min
  pub backoff_base : pos 0 <ℤ cfg.backoff_base
  pub drain_grace : pos 0 <ℤ cfg.drain_grace
  pub purge_interval : pos 0 <ℤ cfg.purge_interval
  pub outbox_retention : pos 0 <ℤ cfg.outbox_retention
  pub idle_max : (cfg.idle_max ≤ℤ pos 0) ⊎ (cfg.idle_min ≤ℤ cfg.idle_max)
  pub backoff_cap : (cfg.backoff_cap ≤ℤ pos 0) ⊎ (cfg.backoff_base ≤ℤ cfg.backoff_cap)

some_broker-none : (bs : List String) → some_broker bs ≡ none → bs ≢ []
unfolding some_broker
some_broker-none [] h = cc
some_broker-none (b ∷ bs) h = λ e. cc

module _ (std : Std) (parsers : Parsers) (getenv : String → String) where
  relay_problems-IsUsable :
      (cfg : RelayConfig)
      → All (λ o. o ≡ none) (relay_problems std parsers getenv cfg)
      → IsUsable cfg
  unfolding relay_problems
  relay_problems-IsUsable cfg
        (
          url,
          (
            brokers,
            (
              topic,
              (
                batch,
                (
                  attempts,
                  (purge, (low, (base, (grace, (interval, (retention, (top, (limit, _)))))))),
                ),
              ),
            ),
          ),
        ) =
      record {
        url = required-none "ACCOUNTS_DATABASE_URL" cfg.accounts_database_url url;
        brokers = some_broker-none cfg.kafka_brokers brokers;
        topic = required-none "KAFKA_TOPIC" cfg.kafka_topic topic;
        batch_size = positive-none parsers.show_int "RELAY_BATCH_SIZE" cfg.batch_size batch;
        max_attempts =
            positive-none parsers.show_int "RELAY_MAX_ATTEMPTS" cfg.max_attempts attempts;
        purge_batch = positive-none parsers.show_int "PURGE_BATCH" cfg.purge_batch purge;
        idle_min = positive-none parsers.show_duration "RELAY_IDLE_MIN" cfg.idle_min low;
        backoff_base =
            positive-none parsers.show_duration "RELAY_BACKOFF_BASE" cfg.backoff_base base;
        drain_grace = positive-none parsers.show_duration "RELAY_DRAIN_GRACE" cfg.drain_grace grace;
        purge_interval =
            positive-none parsers.show_duration "PURGE_INTERVAL" cfg.purge_interval interval;
        outbox_retention =
            positive-none parsers.show_duration "OUTBOX_RETENTION" cfg.outbox_retention retention;
        idle_max =
            not_below-none parsers.show_duration "RELAY_IDLE_MAX" cfg.idle_max "RELAY_IDLE_MIN"
              cfg.idle_min (positive-none parsers.show_duration "RELAY_IDLE_MIN" cfg.idle_min low)
              top;
        backoff_cap =
            not_below-none parsers.show_duration "RELAY_BACKOFF_CAP" cfg.backoff_cap
              "RELAY_BACKOFF_BASE" cfg.backoff_base
              (positive-none parsers.show_duration "RELAY_BACKOFF_BASE" cfg.backoff_base base)
              limit;
      }

  chosen :
      (cfg c : RelayConfig) (front : List (Option Error)) (problem : Option Error)
      → join (front ++ relay_problems std parsers getenv cfg) ≡ problem
      → ◌≡◌ {A = Result RelayConfig} (elim problem [ none ↦ ok cfg | some e ↦ err e ]) (ok c)
      → IsUsable c
  chosen cfg c front none j h =
      subst IsUsable (cc)
        (relay_problems-IsUsable cfg (All-append-right (λ o. o ≡ none) front _ (join-none _ j)))
  chosen cfg c front (some e) j h = cc

  -- A configuration that LoadRelay returns names a database, a broker and a topic, has positive sizes,
  -- periods and minima, and has no maximum that is positive and below its minimum.
  pub load_relay-IsUsable :
      (cfg : RelayConfig) → load_relay std parsers getenv ≡ ok cfg → IsUsable cfg
  unfolding load_relay
  load_relay-IsUsable cfg h =
      chosen (read_relay std parsers getenv).0 cfg (read_relay std parsers getenv).1 _ refl h
