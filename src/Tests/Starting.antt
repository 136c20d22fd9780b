-- ===== src/Tests/Starting.antt =====
-- The migration command, the listener and the start of a relay at concrete inputs.
use outboxexpress.Common.{
  ◌+◌, ℕ, ◌≡◌, ◌≢◌, ◌↔◌, ◌≤◌, ◌⊎◌, refl, String, true, false, Option, none, some, List, [], ◌∷◌,
  suc,
}
use outboxexpress.Common.Int.{ℤ, pos, ◌≤ℤ◌}
use outboxexpress.Errors.{wrap, Error, Result, ok, err, opaque, is, schema_behind}
use outboxexpress.Config.{
  Parsers, RelayConfig, value, log_level, required, read_relay, load_relay, relay_problems, join,
  positive, some_broker, not_below,
}
use outboxexpress.Config.Load.{MigrateConfig, load_migrate}
use outboxexpress.Migrations.{Goose, Context, contexts, parse, contains, fs, apply, version, ready}
use outboxexpress.Migrations.Command.{
  Entry, Sql, selected, dsn_for, act, act_up, migrate_one, run_target, run_targets, run_migrate,
  settled,
}
use outboxexpress.Migrations.Closing.{InTurn, run_migrate-InTurn}
use outboxexpress.Migrations.Applied.{IsSelection, GooseRan, run_migrate-GooseRan}
use outboxexpress.Platform.Admin.{Response, route, healthz, status_ok}
use outboxexpress.Platform.Pool.{PgxPool, default_pool_config, new_pool, new_pool-cases, IsUsable}
use outboxexpress.Startup.{run_relay}
use outboxexpress.Startup.Laws.{InOrder, RelayNeeds, run_relay-InOrder, ready_probe}
use outboxexpress.Wakeup.Waiting.{wait-recovers}
use outboxexpress.Wakeup.{
  Listener, wait, listen, connect_and_listen, subscribe, woken_by, after_wait,
}
use outboxexpress.Wakeup.{Conn, new_listener, Meets, is_live}
use outboxexpress.Wakeup.Laws.{Call, waits, reads_usage, called_all, called_all-connections}
use outboxexpress.Tests.Data.{small_std}

abbrev start_parsers : Parsers
start_parsers = record {
  atoi = λ s. ok (pos 10);
  parse_duration = λ s. ok (pos 10);
  parse_bool = λ s. ok true;
  parse_level = λ s. ok (pos 0);
  split = λ s. s ∷ [];
  show_int = λ n. "n";
  show_duration = λ n. "d";
}

abbrev start_env : String → String
start_env key = "set"

-- A database's version is the number of times that it was migrated.
abbrev small_goose : Goose String ℕ
small_goose = record {
  sub = ok;
  glob = λ dir. ok ("00001_init.sql" ∷ []);
  sorted = λ names. names;
  numeric_component = λ name. ok (pos 1);
  set_dialect = none;
  up = λ dir dsn w. (none, suc w);
  get_db_version = λ dsn w. ok (pos w);
  show = λ n. "n";
}

abbrev small_sql : Sql
small_sql = record { open_db = λ dsn. none; close_db = λ dsn. none }

migrated : Option Error × ℕ × List Entry
migrated = run_migrate small_std small_goose start_parsers start_env small_sql "all" "up" 0

migrated-none : migrated ≡ (none, 2, migrated.2)
unfolding migrated run_migrate run_targets run_target migrate_one dsn_for act act_up apply fs parse
    contexts contains version settled load_migrate log_level value required selected
migrated-none = refl

run_migrate-GooseRan_example :
    (cfg : MigrateConfig) × (cs : List Context) × (load_migrate small_std start_parsers start_env
      ≡ ok cfg)
    × (cfg.accounts_database_url ≢ "")
    × (cfg.notifications_database_url ≢ "")
    × IsSelection small_std small_goose "all" cs
    × GooseRan small_std small_goose cfg cs 0 2 migrated.2
unfolding migrated
run_migrate-GooseRan_example =
    run_migrate-GooseRan small_std small_goose start_parsers start_env small_sql "all" 0 2
      migrated.2 migrated-none

run_migrate-InTurn_example : InTurn none migrated.2
unfolding migrated
run_migrate-InTurn_example =
    run_migrate-InTurn small_std small_goose start_parsers start_env small_sql "all" "up" 0

-- The connection breaks in a wait, is made again in the next, and is closed.
abbrev broken_wait : Meets
broken_wait = record {
  connect = none;
  listen = none;
  notification = some (opaque "conn closed");
  ended = false;
  broken = true;
}

abbrev small_calls : List Call
small_calls =
    waits broken_wait
    ∷ reads_usage (ok 5) false
    ∷ waits (record broken_wait { notification = none; broken = false })
    ∷ reads_usage (err (opaque "usage")) true
    ∷ []

called_all-connections_example :
    let l = called_all small_calls new_listener in
    (l.connections ≤ 1)
    × ((is_live l ≡ true) ↔ (l.connections ≡ 1))
    × ((c : Conn) → l.conn ≡ some c → c.closed ≡ false → c.listening ≡ true)
called_all-connections_example = called_all-connections small_calls

broke :
    (wait broken_wait new_listener).0.1
    ≡ some (wrap "wakeup: wait on outbox_new" (opaque "conn closed"))
unfolding wait listen is_live connect_and_listen subscribe woken_by after_wait is
broke = refl

-- A wait that breaks, and the next one, which is notified.
abbrev after_break : Listener
after_break = (wait broken_wait new_listener).1

wait-recovers_example :
    let out = wait (record broken_wait { notification = none; broken = false }) after_break in
    (out.0 ≡ (true, none))
    × (out.1.conn ≡ some (record { closed = false; listening = true }))
    × (out.1.connections ≡ after_break.connections + 1)
wait-recovers_example =
    wait-recovers broken_wait (record broken_wait { notification = none; broken = false })
      new_listener (wrap "wakeup: wait on outbox_new" (opaque "conn closed")) broke refl refl refl
      refl

-- A pool whose ping fails, and one whose ping is answered.
abbrev small_pgx : Option Error → PgxPool
small_pgx answer = record { parse_config = λ dsn. none; new_with_config = λ c. none; ping = answer }

new_pool-cases_example :
    ((new_pool start_parsers (small_pgx none) (default_pool_config "a" (pos 5)) 3
        ≡ (ok (default_pool_config "a" (pos 5)), suc 3))
      × IsUsable (default_pool_config "a" (pos 5))
      × (◌≡◌ {A = Option Error} none none))
    ⊎ ((e : Error) × (new_pool start_parsers (small_pgx none) (default_pool_config "a" (pos 5)) 3
          ≡ (err e, 3)))
new_pool-cases_example =
    new_pool-cases start_parsers (small_pgx none) (default_pool_config "a" (pos 5)) 3

run_relay-InOrder_example :
    InOrder RelayNeeds []
      (run_relay small_std start_parsers start_env
        (small_pgx none)
        small_goose
        (λ d. d)
        (λ options. none)
        (λ wiring. some (opaque "a loop failed"))).1
run_relay-InOrder_example =
    run_relay-InOrder small_std start_parsers start_env (small_pgx none) small_goose (λ d. d)
      (λ options. none) (λ wiring. some (opaque "a loop failed"))

not_behind : (e : Error) → ◌≡◌ {A = Result ℤ} (ok (pos 1)) (err e) → is e schema_behind ≡ false
not_behind e h = cc

ready_probe_example :
    let answer =
      λ (path : String). route (ready small_std small_goose (ok (pos 1)) (pos 2)) "GET" path in
    (((r : Response) × (answer "/readyz" ≡ some r) × (r.status ≡ status_ok))
      ↔ ((applied : ℤ) × (◌≡◌ {A = Result ℤ} (ok (pos 1)) (ok applied)) × (pos 2 ≤ℤ applied)))
    × (answer "/healthz" ≡ some healthz)
    × (healthz.status ≡ status_ok)
ready_probe_example = ready_probe small_std small_goose (ok (pos 1)) (pos 2) not_behind

abbrev start_cfg : RelayConfig
start_cfg = (read_relay small_std start_parsers start_env).0

start_loaded : load_relay small_std start_parsers start_env ≡ ok start_cfg
unfolding load_relay read_relay join value required positive some_broker not_below relay_problems
start_loaded = refl
