-- ===== src/Migrations/Command.antt =====
-- cmd/migrate/main.go, after its flags and its configuration have been read: what it opens, closes and
-- logs is a list of entries.
use Prim.Native.String.{◌++◌ as ◌++ˢ◌}
use outboxexpress.Common.{String, Option, none, some, List, [], ◌∷◌, ◌++◌, str_eq, if◌then◌else◌}
use outboxexpress.Common.Int.{ℤ}
use outboxexpress.Domain.Std.{Std}
use outboxexpress.Errors.{
  Error, Result, ok, err, ◌>>=◌, sentinel, unknown_context, annotate, wrap, opaque,
}
use outboxexpress.Config.{Parsers}
use outboxexpress.Config.Load.{MigrateConfig, load_migrate}
use outboxexpress.Migrations.{
  Context, accounts, notifications, contexts, Goose, parse, latest, apply, version,
}

pub data Entry : Type 0 where
  opened closed : String → Entry
  logged_migrated : Context → ℤ → Entry
  logged_version : Context → (applied newest : ℤ) → Entry

unfoldable pub selected : Std → String → Result (List Context)
unfolding parse contexts
selected std name = if str_eq name "all" then ok contexts else (parse std name >>= λ c. ok (c ∷ []))

unfoldable pub dsn_for : Std → MigrateConfig → Context → Result String
dsn_for std cfg c =
    if str_eq c accounts
    then ok cfg.accounts_database_url
    else if str_eq c notifications
    then ok cfg.notifications_database_url
    else err (annotate (sentinel unknown_context) (std.quote c))

-- What sql.Open and Close answer for a DSN.
pub record Sql : Type 0 where
  pub open_db : String → Option Error
  pub close_db : String → Option Error

module _ (std : Std) {Dir W : Type 0} (goose : Goose Dir W) where
  -- The log line of a version that was read, or the error.
  abbrev pub report : Result ℤ → (ℤ → Entry) → W → Option Error × W × List Entry
  report (err e) line w = (some e, w, [])
  report (ok v) line w = (none, w, line v ∷ [])

  unfoldable pub act_up : Context → String → W → Option Error × W × List Entry
  unfolding apply version
  act_up c db w =
      let (failed, w') = apply std goose c db w in
      elim failed [
        | some e ↦ (some e, w', [])
        | none ↦ report (version std goose db w') (logged_migrated c) w'
      ]

  unfoldable pub act_version : Context → String → W → Option Error × W × List Entry
  unfolding version latest
  act_version c db w = elim (version std goose db w) [
    | err e ↦ (some e, w, [])
    | ok v ↦ report (latest std goose c) (logged_version c v) w
  ]

  unfoldable pub act : Context → String → String → W → Option Error × W × List Entry
  unfolding act_up act_version
  act c action db w =
      if str_eq action "up"
      then act_up c db w
      else if str_eq action "version"
      then act_version c db w
      else (
        some (opaque ("unknown action " ++ˢ (std.quote action ++ˢ " (want up or version)"))),
        w,
        [],
      )

  -- `err = act(...); closeErr := db.Close()` and the checks of both.
  unfoldable pub settled : Context → Option Error → Option Error → Option Error
  settled c (some e) close = some e
  settled c none (some e) = some (wrap ("close " ++ˢ c) e)
  settled c none none = none

  -- One turn of the loop, with the DSN known.
  unfoldable pub migrate_one : Sql → String → Context → String → W → Option Error × W × List Entry
  unfolding act settled
  migrate_one sql action c dsn w = elim (sql.open_db dsn) [
    | some e ↦ (some (wrap ("open " ++ˢ c) e), w, [])
    | none ↦
        let (failed, w', acts) = act c action dsn w in
        (settled c failed (sql.close_db dsn), w', opened dsn ∷ (acts ++ closed dsn ∷ []))
  ]

  unfoldable pub run_target :
      Sql → MigrateConfig → String → Context → W → Option Error × W × List Entry
  unfolding dsn_for migrate_one
  run_target sql cfg action c w = elim (dsn_for std cfg c) [
    | err e ↦ (some e, w, [])
    | ok dsn ↦ migrate_one sql action c dsn w
  ]

  -- The loop of run.
  unfoldable pub run_targets :
      Sql → MigrateConfig → String → List Context → W → Option Error × W × List Entry
  unfolding run_target
  run_targets sql cfg action [] w = (none, w, [])
  run_targets sql cfg action (c ∷ cs) w =
      let (failed, w', acts) = run_target sql cfg action c w in
      let (failed', w'', acts') = run_targets sql cfg action cs w' in
      elim failed [ some e ↦ (some e, w', acts) | none ↦ (failed', w'', acts ++ acts') ]

  -- run, with the values of its two flags.
  unfoldable pub run_migrate :
      Parsers
      → (String → String)
      → Sql
      → (context action : String) → W
      → Option Error × W × List Entry
  unfolding load_migrate selected run_targets
  run_migrate parsers getenv sql context action w = elim (load_migrate std parsers getenv) [
    | err e ↦ (some e, w, [])
    | ok cfg ↦ elim (selected std context) [
      | err e ↦ (some e, w, [])
      | ok targets ↦ run_targets sql cfg action targets w
    ]
  ]
