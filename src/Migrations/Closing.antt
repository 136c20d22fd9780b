-- ===== src/Migrations/Closing.antt =====
-- The migration command closes what it opens.
use outboxexpress.Common.{
  String, ◌≡◌, inl, inr, refl, Option, none, some, List, [], ◌∷◌, ◌++◌, str_eq, Option-cases,
  Bool-cases,
}
use outboxexpress.Common.Int.{ℤ}
use outboxexpress.Domain.Std.{Std}
use outboxexpress.Errors.{Result, ok, err, is, Result-cases}
use outboxexpress.Config.{Parsers}
use outboxexpress.Config.Load.{MigrateConfig, load_migrate}
use outboxexpress.Migrations.{Context, Goose, apply, version}
use outboxexpress.Migrations.Command.{
  Entry, opened, closed, logged_migrated, logged_version, selected, dsn_for, Sql, report, act_up,
  act_version, act, migrate_one, run_target, run_targets, run_migrate,
}

-- A database is opened only when none is, logged about only while it is open, and closed.
abbrev pub InTurn : Option String → List Entry → Type 0
InTurn none [] = Unit
InTurn (some db) [] = ⊥
InTurn none (opened db ∷ acts) = InTurn (some db) acts
InTurn (some d) (opened db ∷ acts) = ⊥
InTurn none (closed db ∷ acts) = ⊥
InTurn (some d) (closed db ∷ acts) = (d ≡ db) × InTurn none acts
InTurn none (logged_migrated c v ∷ acts) = ⊥
InTurn (some d) (logged_migrated c v ∷ acts) = InTurn (some d) acts
InTurn none (logged_version c v n ∷ acts) = ⊥
InTurn (some d) (logged_version c v n ∷ acts) = InTurn (some d) acts

InTurn-append :
    (acts acts' : List Entry)
    → (d : Option String) → InTurn d acts
    → InTurn none acts'
    → InTurn d (acts ++ acts')
InTurn-append [] acts' none h k = k
InTurn-append [] acts' (some d) h k = absurd h
InTurn-append (opened db ∷ acts) acts' none h k = InTurn-append acts acts' (some db) h k
InTurn-append (opened db ∷ acts) acts' (some d) h k = absurd h
InTurn-append (closed db ∷ acts) acts' none h k = absurd h
InTurn-append (closed db ∷ acts) acts' (some d) h k = (h.0, InTurn-append acts acts' none h.1 k)
InTurn-append (logged_migrated c v ∷ acts) acts' none h k = absurd h
InTurn-append (logged_migrated c v ∷ acts) acts' (some d) h k =
    InTurn-append acts acts' (some d) h k
InTurn-append (logged_version c v n ∷ acts) acts' none h k = absurd h
InTurn-append (logged_version c v n ∷ acts) acts' (some d) h k =
    InTurn-append acts acts' (some d) h k

module _ (std : Std) {Dir W : Type 0} (goose : Goose Dir W) where
  -- Only log lines, at most one.
  abbrev IsLog : List Entry → Type 0
  IsLog acts = (db : String) → InTurn (some db) (acts ++ closed db ∷ [])

  report-IsLog :
      (r : Result ℤ) (line : ℤ → Entry) (w : W)
      → ((v : ℤ) → IsLog (line v ∷ []))
      → IsLog (report std goose r line w).2
  report-IsLog (err e) line w h db = (refl, tt)
  report-IsLog (ok v) line w h db = h v db

  act_up-IsLog : (c : Context) (dsn : String) (w : W) → IsLog (act_up std goose c dsn w).2
  unfolding act_up
  act_up-IsLog c dsn w = elim (Option-cases (apply std goose c dsn w).0) [
    | inl done ↦ rw (act_up, done) (report-IsLog _ (logged_migrated c) _ (λ v db. (refl, tt)))
    | inr (e, failed) ↦ rw (act_up, failed) (λ db. (refl, tt))
  ]

  act_version-IsLog : (c : Context) (dsn : String) (w : W) → IsLog (act_version std goose c dsn w).2
  unfolding act_version
  act_version-IsLog c dsn w = elim (Result-cases (version std goose dsn w)) [
    | inl (v, got) ↦
        rw (act_version, got) (report-IsLog _ (logged_version c v) _ (λ n db. (refl, tt)))
    | inr (e, failed) ↦ rw (act_version, failed) (λ db. (refl, tt))
  ]

  act-IsLog : (c : Context) (action dsn : String) (w : W) → IsLog (act std goose c action dsn w).2
  unfolding act
  act-IsLog c action dsn w = elim (Bool-cases (str_eq action "up")) [
    | inl up ↦ rw (act, up) (act_up-IsLog c dsn w)
    | inr other ↦ elim (Bool-cases (str_eq action "version")) [
      | inl is ↦ rw (act, other, is) (act_version-IsLog c dsn w)
      | inr none_of_them ↦ rw (act, other, none_of_them) (λ db. (refl, tt))
    ]
  ]

  run_target-InTurn :
      (sql : Sql) (cfg : MigrateConfig) (action : String) (c : Context) (w : W)
      → InTurn none (run_target std goose sql cfg action c w).2
  unfolding run_target migrate_one
  run_target-InTurn sql cfg action c w = elim (Result-cases (dsn_for std cfg c)) [
    | inr (e, refused) ↦ rw (run_target, refused) tt
    | inl (dsn, known) ↦ elim (Option-cases (sql.open_db dsn)) [
      | inr (e, failed) ↦ rw (run_target, known, migrate_one, failed) tt
      | inl done ↦ rw (run_target, known, migrate_one, done) (act-IsLog c action dsn w dsn)
    ]
  ]

  -- The command never has two databases open, and has closed each one that it opened when it returns,
  -- whatever it returns.
  pub run_targets-InTurn :
      (sql : Sql) (cfg : MigrateConfig) (action : String) (cs : List Context) (w : W)
      → InTurn none (run_targets std goose sql cfg action cs w).2
  unfolding run_targets
  run_targets-InTurn sql cfg action [] w = tt
  run_targets-InTurn sql cfg action (c ∷ cs) w =
      elim (Option-cases (run_target std goose sql cfg action c w).0) [
        | inr (e, failed) ↦ rw (run_targets, failed) (run_target-InTurn sql cfg action c w)
        | inl done ↦
            rw (run_targets, done)
              (let (_, w', acts) = run_target std goose sql cfg action c w in
                InTurn-append acts (run_targets std goose sql cfg action cs w').2 none
                  (run_target-InTurn sql cfg action c w) (run_targets-InTurn sql cfg action cs w'))
      ]

  -- The command never has two databases open, and has closed each one that it opened when it returns,
  -- whatever it returns and whatever its flags and its environment are.
  pub run_migrate-InTurn :
      (parsers : Parsers) (getenv : String → String) (sql : Sql) (context action : String) (w : W)
      → InTurn none (run_migrate std goose parsers getenv sql context action w).2
  unfolding run_migrate
  run_migrate-InTurn parsers getenv sql context action w =
      elim (Result-cases (load_migrate std parsers getenv)) [
        | inr (e, refused) ↦ rw (run_migrate, refused) tt
        | inl (cfg, loaded) ↦ elim (Result-cases (selected std context)) [
          | inr (e, unknown) ↦ rw (run_migrate, loaded, unknown) tt
          | inl (cs, chosen) ↦
              rw (run_migrate, loaded, chosen) (run_targets-InTurn sql cfg action cs w)
        ]
      ]
