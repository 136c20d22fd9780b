-- ===== src/Startup.antt =====
-- cmd/relay/main.go and cmd/api/main.go: what each process opens, wires, serves and closes. The deferred
-- calls are the events after `served`; `group` is what the errgroup returns for the wired parts.
pub mod Laws
use outboxexpress.Common.{
  ℕ, String, Bool, true, false, Option, none, some, List, [], ◌∷◌, ◌++◌, if◌then◌else◌,
}
use outboxexpress.Common.Int.{ℤ, pos}
use outboxexpress.Domain.Std.{Std}
use outboxexpress.Domain.User.{aggregate_type_user}
use outboxexpress.Errors.{Error, Result, ok, err, is, canceled, wrap}
use outboxexpress.Config.{Parsers, RelayConfig, load_relay}
use outboxexpress.Config.Load.{ApiConfig, load_api}
use outboxexpress.Backoff.{Exponential}
use outboxexpress.Migrations.{accounts, Goose, latest}
use outboxexpress.Platform.Pool.{PoolConfig, PgxPool, default_pool_config, new_pool}
use outboxexpress.Platform.Producer.{ClientOption, default_producer_config, new_producer}
use outboxexpress.Publish.{Topics}
use outboxexpress.Worker.Relay.{RelayPolicy}

pub data Resource : Type 0 where
  pool producer listener : Resource

pub data Stage : Type 0 where
  opened closed : Resource → Stage
  served : Stage

-- A resource is open for as long as the rest runs, and a deferred call closes it.
unfoldable pub holding : Resource → Option Error × List Stage → Option Error × List Stage
holding r (e, events) = (e, opened r ∷ (events ++ closed r ∷ []))

-- A constructor's error ends the process with it.
unfoldable pub or_fail :
    {A : Type 0} → Result A → (A → Option Error × List Stage) → Option Error × List Stage
or_fail (err e) next = (some e, [])
or_fail (ok a) next = next a

-- The end of run: a context that ended is an ordinary stop.
unfoldable pub stopped : Option Error → Option Error
stopped none = none
stopped (some e) = if is e canceled then none else some e

-- What the relay's run builds.
pub record RelayWiring : Type 0 where
  pub topics : Topics
  pub batch_size : ℤ
  pub schedule : Exponential
  pub max_attempts : ℤ
  pub outbox_retention : ℤ
  pub purge_batch : ℤ
  pub has_waiter : Bool
  pub policy : RelayPolicy
  pub purge_interval : ℤ
  pub admin_addr : String
  pub expected_schema : ℤ

module _ (std : Std) (parsers : Parsers) (getenv : String → String) (pgx : PgxPool) {Dir W : Type 0}
    (goose : Goose Dir W) where
  module _ (jittered : ℤ → ℤ) (new_client : List ClientOption → Option Error)
      (group : RelayWiring → Option Error) where
    unfoldable pub relay_wiring : RelayConfig → ℤ → RelayWiring
    relay_wiring cfg expected_schema = record {
      topics = (aggregate_type_user, cfg.kafka_topic) ∷ [];
      batch_size = cfg.batch_size;
      schedule = record { base = cfg.backoff_base; cap = cfg.backoff_cap; jittered = jittered };
      max_attempts = cfg.max_attempts;
      outbox_retention = cfg.outbox_retention;
      purge_batch = cfg.purge_batch;
      has_waiter = cfg.use_notify;
      policy = record {
        idle_min = cfg.idle_min;
        idle_max = cfg.idle_max;
        drain_grace = cfg.drain_grace;
      };
      purge_interval = cfg.purge_interval;
      admin_addr = cfg.admin_addr;
      expected_schema = expected_schema;
    }

    -- The loops and the admin listener, until the group ends.
    unfoldable pub relay_serves : RelayConfig → ℤ → Option Error × List Stage
    unfolding relay_wiring stopped
    relay_serves cfg expected_schema =
        (stopped (group (relay_wiring cfg expected_schema)), served ∷ [])

    -- wakeupFor: the listener connects in its first wait; it is there only when the flag is set.
    unfoldable pub relay_with_wakeup : RelayConfig → ℤ → Option Error × List Stage
    unfolding relay_serves holding
    relay_with_wakeup cfg expected_schema =
        if cfg.use_notify
        then holding listener (relay_serves cfg expected_schema)
        else relay_serves cfg expected_schema

    unfoldable pub relay_with_pool : RelayConfig → Option Error × List Stage
    unfolding relay_with_wakeup or_fail
    relay_with_pool cfg = or_fail (latest std goose accounts) λ expected_schema.
        or_fail (new_producer std parsers new_client (default_producer_config cfg.kafka_brokers))
          λ options. holding producer (relay_with_wakeup cfg expected_schema)

    -- cmd/relay's run.
    unfoldable pub run_relay : Option Error × List Stage
    unfolding relay_with_pool
    run_relay = or_fail (load_relay std parsers getenv) λ cfg.
        or_fail (new_pool parsers pgx (default_pool_config cfg.accounts_database_url (pos 5)) 0).0
          λ settings. holding pool (relay_with_pool cfg)

  module _ (group : ApiConfig → ℤ → Option Error) where
    -- cmd/api's run.
    unfoldable pub run_api : Option Error × List Stage
    unfolding stopped or_fail holding
    run_api = or_fail (load_api std parsers getenv) λ cfg.
        or_fail (new_pool parsers pgx (default_pool_config cfg.accounts_database_url (pos 10)) 0).0
          λ settings. holding pool (
            or_fail (latest std goose accounts)
              λ expected_schema. (stopped (group cfg expected_schema), served ∷ []))
