-- ===== src/Migrations/Applied.antt =====
-- What a run of the migration command that succeeds has done.
use outboxexpress.Common.{
  String, ◌≡◌, ◌≢◌, ◌⊎◌, Bool-cases, str_eq, eq_iff, inl, inr, refl, sym, ap, ◌∙◌, Option, none,
  some, List, [], ◌∷◌, ◌++◌, arith, Option-cases, subst,
}
use outboxexpress.Common.Int.{ℤ}
use outboxexpress.Domain.Std.{Std}
use outboxexpress.Errors.{Error, Result, ok, err, Result-cases, >>=-eq-ok}
use outboxexpress.Config.{Parsers}
use outboxexpress.Config.Load.{MigrateConfig, load_migrate, load_migrate-eq-ok}
use outboxexpress.Migrations.{Context, Goose, contexts, parse, fs, upped, apply, version}
use outboxexpress.Migrations.Command.{
  Entry, opened, closed, logged_migrated, selected, dsn_for, Sql, report, act_up, act, settled,
  migrate_one, run_target, run_targets, run_migrate,
}
use outboxexpress.Migrations.Laws.{parse_iff}

module _ (std : Std) {Dir W : Type 0} (goose : Goose Dir W) where
  -- What `migrate -action up` has done to the databases of the targets, one after the other.
  abbrev pub Migrated : MigrateConfig → List Context → W → W → List Entry → Type 0
  Migrated cfg [] w w' acts = (w ≡ w') × (acts ≡ [])
  Migrated cfg (c ∷ cs) w w'' acts =
      (dsn : String) × (v : ℤ) × (w' : W) × (rest : List Entry) × (dsn_for std cfg c ≡ ok dsn)
      × (apply std goose c dsn w ≡ (none, w'))
      × (version std goose dsn w' ≡ ok v)
      × (acts ≡ opened dsn ∷ logged_migrated c v ∷ closed dsn ∷ rest)
      × Migrated cfg cs w' w'' rest

  upped-eq-none :
      (c : Context) (dsn : String) (w w' : W) (acts : List Entry)
      → act std goose c "up" dsn w ≡ (none, w', acts)
      → (v : ℤ) × (apply std goose c dsn w ≡ (none, w'))
        × (version std goose dsn w' ≡ ok v)
        × (acts ≡ logged_migrated c v ∷ [])
  unfolding act act_up
  upped-eq-none c dsn w w' acts h = applied (apply std goose c dsn w) refl h
    where
      reported :
          (r : Result ℤ) (u : W)
          → version std goose dsn u ≡ r
          → report std goose r (logged_migrated c) u ≡ (none, w', acts)
          → (v : ℤ) × (u ≡ w')
            × (version std goose dsn w' ≡ ok v)
            × (acts ≡ logged_migrated c v ∷ [])
      reported (err e) u eq k = cc
      reported (ok v) u eq k = (v, cc, cc, cc)

      applied :
          (out : Option Error × W)
          → apply std goose c dsn w ≡ out
          → ◌≡◌ {A = Option Error × W × List Entry}
              (elim out.0 [
                | some e ↦ (some e, out.1, [])
                | none ↦ report std goose (version std goose dsn out.1) (logged_migrated c) out.1
              ])
              (none, w', acts)
          → (v : ℤ) × (apply std goose c dsn w ≡ (none, w'))
            × (version std goose dsn w' ≡ ok v)
            × (acts ≡ logged_migrated c v ∷ [])
      applied (some e, u) eq k = cc
      applied (none, u) eq k =
          let (v, same, read, said) = reported (version std goose dsn u) u refl k in
          (v, eq ∙ (λ i. (none, same i)), read, said)

  run_target-eq-none :
      (sql : Sql) (cfg : MigrateConfig) (c : Context) (w w' : W) (acts : List Entry)
      → run_target std goose sql cfg "up" c w ≡ (none, w', acts)
      → (dsn : String) × (v : ℤ) × (dsn_for std cfg c ≡ ok dsn)
        × (apply std goose c dsn w ≡ (none, w'))
        × (version std goose dsn w' ≡ ok v)
        × (acts ≡ opened dsn ∷ logged_migrated c v ∷ closed dsn ∷ [])
  unfolding run_target migrate_one settled
  run_target-eq-none sql cfg c w w' acts h = elim (Result-cases (dsn_for std cfg c)) [
    | inr (e, refused) ↦ absurd (cc (rw (run_target, refused) at h))
    | inl (dsn, known) ↦ elim (Option-cases (sql.open_db dsn)) [
      | inr (e, failed) ↦ ground (arith, known)
      | inl done ↦
          let out = act std goose c "up" dsn w in
          let fine : out ≡ (none, w', out.2) = ground arith in
          let (v, one, two, three) = upped-eq-none c dsn w w' out.2 fine in
          (dsn, v, known, one, two, ground arith)
    ]
  ]

  -- `migrate -action up` that returns no error has applied every target's migrations in order, each to
  -- the database of its own DSN, and logged the version that the database has then.
  pub run_targets-Migrated :
      (sql : Sql) (cfg : MigrateConfig) (cs : List Context) (w w' : W) (acts : List Entry)
      → run_targets std goose sql cfg "up" cs w ≡ (none, w', acts)
      → Migrated cfg cs w w' acts
  unfolding run_targets
  run_targets-Migrated sql cfg [] w w' acts h = (cc, cc)
  run_targets-Migrated sql cfg (c ∷ cs) w w' acts h =
      go (λ u acts'. run_targets-Migrated sql cfg cs u w' acts')
        (run_target std goose sql cfg "up" c w) refl h
    where
      go :
          ((u : W) (acts' : List Entry)
            → run_targets std goose sql cfg "up" cs u ≡ (none, w', acts')
            → Migrated cfg cs u w' acts')
          → (out : Option Error × W × List Entry) → run_target std goose sql cfg "up" c w ≡ out
          → ◌≡◌ {A = Option Error × W × List Entry}
              (elim out.0 [
                | some e ↦ (some e, out.1, out.2)
                | none ↦ (
                  (run_targets std goose sql cfg "up" cs out.1).0,
                  (run_targets std goose sql cfg "up" cs out.1).1,
                  out.2 ++ (run_targets std goose sql cfg "up" cs out.1).2,
                )
              ])
              (none, w', acts)
          → Migrated cfg (c ∷ cs) w w' acts
      go ih (some e, u, said) eq k = cc
      go ih (none, u, said) eq k =
          let (dsn, v, known, one, two, three) = run_target-eq-none sql cfg c w u said eq in
          let rest = (run_targets std goose sql cfg "up" cs u).2 in
          (
            dsn,
            v,
            u,
            rest,
            known,
            one,
            two,
            sym (ap (λ (x : Option Error × W × List Entry). x.2) k) ∙ ap (λ xs. xs ++ rest) three,
            ih u rest (λ i. ((k i).0, (k i).1, rest)),
          )

  -- The database that a context's migrations belong to.
  abbrev pub IsDsn : MigrateConfig → String → String → Type 0
  IsDsn cfg c dsn =
      ((c ≡ "accounts") × (dsn ≡ cfg.accounts_database_url))
      ⊎ ((c ≡ "notifications") × (dsn ≡ cfg.notifications_database_url))

  -- The contexts that the flag names.
  abbrev pub IsSelection : String → List String → Type 0
  IsSelection context cs =
      ((context ≡ "all") × (cs ≡ "accounts" ∷ "notifications" ∷ []))
      ⊎ (((context ≡ "accounts") ⊎ (context ≡ "notifications")) × (cs ≡ context ∷ []))

  -- What goose has done to the databases of the targets, one after the other, and what was opened,
  -- logged and closed: each target's directory was applied to the target's own database, and the
  -- version in the log is what that database answers then.
  abbrev pub GooseRan : MigrateConfig → List Context → W → W → List Entry → Type 0
  GooseRan cfg [] w w' acts = (w ≡ w') × (acts ≡ [])
  GooseRan cfg (c ∷ cs) w w'' acts =
      (dsn : String) × (dir : Dir) × (v : ℤ) × (w' : W) × (rest : List Entry) × IsDsn cfg c dsn
      × (goose.sub c ≡ ok dir)
      × (goose.up dir dsn w ≡ (none, w'))
      × (goose.get_db_version dsn w' ≡ ok v)
      × (acts ≡ opened dsn ∷ logged_migrated c v ∷ closed dsn ∷ rest)
      × GooseRan cfg cs w' w'' rest

  dsn_for-IsDsn :
      (cfg : MigrateConfig) (c dsn : String) → dsn_for std cfg c ≡ ok dsn → IsDsn cfg c dsn
  unfolding dsn_for
  dsn_for-IsDsn cfg c dsn h = ground (arith, eq_iff c "accounts", eq_iff c "notifications")

  selected-IsSelection :
      (context : String) (cs : List Context) → selected std context ≡ ok cs → IsSelection context cs
  unfolding selected contexts
  selected-IsSelection context cs h = elim (Bool-cases (str_eq context "all")) [
    | inl every ↦ inl ((eq_iff context "all").0 every, cc (rw every at h))
    | inr one ↦
        let (c, parsed, made) = >>=-eq-ok (parse std context) (λ c. ok (c ∷ [])) (rw one at h) in
        let (same, named) = (parse_iff std context c).0 parsed in inr (named, cc)
  ]

  apply-eq-none :
      (c dsn : String) (w w' : W)
      → apply std goose c dsn w ≡ (none, w')
      → (dir : Dir) × (goose.sub c ≡ ok dir) × (goose.up dir dsn w ≡ (none, w'))
  unfolding apply fs
  apply-eq-none c dsn w w' h = elim (Result-cases (fs std goose c)) [
    | inr (e, bad) ↦ absurd (cc (rw (apply, bad) at h))
    | inl (dir, found) ↦ elim (Option-cases goose.set_dialect) [
      | inr (e, bad) ↦ absurd (cc (rw (apply, found, bad) at h))
      | inl fine ↦
          let (p, parsed, sub) = >>=-eq-ok (parse std c) goose.sub found in
          let (same, _) = (parse_iff std c p).0 parsed in
          (
            dir,
            subst (λ d. goose.sub d ≡ ok dir) same sub,
            ran (goose.up dir dsn w) (rw (apply, found, fine) at h),
          )
    ]
  ]
    where
      ran : (out : Option Error × W) → upped std goose c out ≡ (none, w') → out ≡ (none, w')
      ran (none, u) k = k
      ran (some e, u) k = cc

  version-eq-ok :
      (dsn : String) (w : W) (v : ℤ)
      → version std goose dsn w ≡ ok v
      → goose.get_db_version dsn w ≡ ok v
  unfolding version
  version-eq-ok dsn w v h = elim (Option-cases goose.set_dialect) [
    | inr (e, bad) ↦ absurd (cc (rw (version, bad) at h))
    | inl fine ↦ ground (arith, fine)
  ]

  Migrated-GooseRan :
      (cfg : MigrateConfig) (cs : List Context) (w w' : W) (acts : List Entry)
      → Migrated cfg cs w w' acts
      → GooseRan cfg cs w w' acts
  Migrated-GooseRan cfg [] w w' acts h = h
  Migrated-GooseRan cfg (c ∷ cs) w w'' acts (dsn, v, w', rest, known, applied, read, said, more) =
      let (dir, found, ran) = apply-eq-none c dsn w w' applied in
      (
        dsn,
        dir,
        v,
        w',
        rest,
        dsn_for-IsDsn cfg c dsn known,
        found,
        ran,
        version-eq-ok dsn w' v read,
        said,
        Migrated-GooseRan cfg cs w' w'' rest more,
      )

  run_migrate-applied :
      (parsers : Parsers) (getenv : String → String) (sql : Sql) (context : String) (w w' : W)
      (acts : List Entry)
      → run_migrate std goose parsers getenv sql context "up" w ≡ (none, w', acts)
      → (cfg : MigrateConfig) × (cs : List Context) × (load_migrate std parsers getenv ≡ ok cfg)
        × (selected std context ≡ ok cs)
        × Migrated cfg cs w w' acts
  unfolding run_migrate
  run_migrate-applied parsers getenv sql context w w' acts h =
      elim (Result-cases (load_migrate std parsers getenv)) [
        | inr (e, refused) ↦ absurd (failing e w w' acts (rw (run_migrate, refused) at h))
        | inl (cfg, loaded) ↦ elim (Result-cases (selected std context)) [
          | inr (e, unknown) ↦ absurd (failing e w w' acts (rw (run_migrate, loaded, unknown) at h))
          | inl (cs, chosen) ↦ (
            cfg,
            cs,
            loaded,
            chosen,
            run_targets-Migrated sql cfg cs w w' acts (rw (run_migrate, loaded, chosen) at h),
          )
        ]
      ]
    where
      failing :
          (e : Error) (w w' : W) (acts : List Entry)
          → ¬ (◌≡◌ {A = Option Error × W × List Entry} (some e, w, []) (none, w', acts))
      failing e w w' acts k = cc

  -- `migrate -action up` that returns no error has loaded a configuration with both DSNs, and has run
  -- goose for every context that the flag names, in order, each on its own directory and its own
  -- database, and logged the version that the database answers then.
  pub run_migrate-GooseRan :
      (parsers : Parsers) (getenv : String → String) (sql : Sql) (context : String) (w w' : W)
      (acts : List Entry)
      → run_migrate std goose parsers getenv sql context "up" w ≡ (none, w', acts)
      → (cfg : MigrateConfig) × (cs : List Context) × (load_migrate std parsers getenv ≡ ok cfg)
        × (cfg.accounts_database_url ≢ "")
        × (cfg.notifications_database_url ≢ "")
        × IsSelection context cs
        × GooseRan cfg cs w w' acts
  run_migrate-GooseRan parsers getenv sql context w w' acts h =
      let (cfg, cs, loaded, chosen, done) =
        run_migrate-applied parsers getenv sql context w w' acts h in
      let (_, one, two) = load_migrate-eq-ok std parsers getenv cfg loaded in
      (
        cfg,
        cs,
        loaded,
        one,
        two,
        selected-IsSelection context cs chosen,
        Migrated-GooseRan cfg cs w w' acts done,
      )
