-- ===== src/Config/Load.antt =====
-- internal/platform/config/config.go: the configurations of the API and of the migrations, which stop
-- at the first problem.
use outboxexpress.Common.{String, ◌≡◌, ◌≢◌, Option, none, some, eq_iff, arith}
use outboxexpress.Common.Int.{ℤ}
use outboxexpress.Domain.Std.{Std}
use outboxexpress.Errors.{Error, Result, ok, err}
use outboxexpress.Config.{Parsers, value, log_level, required}

-- config.API
pub record ApiConfig : Type 0 where
  pub accounts_database_url : String
  pub http_addr : String
  pub admin_addr : String
  pub log_level : ℤ

-- config.Migrate
pub record MigrateConfig : Type 0 where
  pub accounts_database_url : String
  pub notifications_database_url : String
  pub log_level : ℤ

-- `if err != nil { return ..., err }` after a call that returns an error only.
abbrev pub ok_unless {ℓ} : {A : Type ℓ} → Option Error → Result A → Result A
ok_unless (some e) next = err e
ok_unless none next = next

module _ (std : Std) (parsers : Parsers) (getenv : String → String) where
  unfoldable pub read_api : ApiConfig
  unfolding value log_level
  read_api = record {
    accounts_database_url = value std parsers getenv "ACCOUNTS_DATABASE_URL" "";
    http_addr = value std parsers getenv "HTTP_ADDR" ":8080";
    admin_addr = value std parsers getenv "ADMIN_ADDR" "127.0.0.1:8081";
    log_level = (log_level std parsers getenv).0;
  }

  unfoldable pub load_api : Result ApiConfig
  unfolding read_api required log_level
  load_api =
      let cfg = read_api in
      ok_unless (log_level std parsers getenv).1
        (ok_unless (required "ACCOUNTS_DATABASE_URL" cfg.accounts_database_url) (ok cfg))

  unfoldable pub read_migrate : MigrateConfig
  unfolding value log_level
  read_migrate = record {
    accounts_database_url = value std parsers getenv "ACCOUNTS_DATABASE_URL" "";
    notifications_database_url = value std parsers getenv "NOTIFICATIONS_DATABASE_URL" "";
    log_level = (log_level std parsers getenv).0;
  }

  unfoldable pub load_migrate : Result MigrateConfig
  unfolding read_migrate required log_level
  load_migrate =
      let cfg = read_migrate in
      ok_unless (log_level std parsers getenv).1 (
        ok_unless (required "ACCOUNTS_DATABASE_URL" cfg.accounts_database_url) (
          ok_unless (required "NOTIFICATIONS_DATABASE_URL" cfg.notifications_database_url)
            (ok cfg)))

  required-eq-none : (key v : String) → required key v ≡ none → v ≢ ""
  unfolding required
  required-eq-none key v h e = ground (arith, eq_iff v "")

  -- A configuration that LoadMigrate returns is the one that was read, and names both databases.
  pub load_migrate-eq-ok :
      (cfg : MigrateConfig)
      → load_migrate ≡ ok cfg
      → (cfg ≡ read_migrate)
        × (cfg.accounts_database_url ≢ "")
        × (cfg.notifications_database_url ≢ "")
  unfolding load_migrate
  load_migrate-eq-ok cfg h =
      let urls = read_migrate in
      ground (
        arith,
        required-eq-none "ACCOUNTS_DATABASE_URL" urls.accounts_database_url,
        required-eq-none "NOTIFICATIONS_DATABASE_URL" urls.notifications_database_url,
      )
