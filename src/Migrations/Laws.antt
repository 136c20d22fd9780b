-- ===== src/Migrations/Laws.antt =====
-- Which contexts there are, and when a schema is new enough.
use outboxexpress.Common.{
  String, All-imp, ◌≡◌, ◌≢◌, ◌↔◌, ◌⊎◌, inl, inr, refl, sym, subst, true, false, none, some, List,
  [], ◌∷◌, str_eq, eq_iff, arith, All, Bool-cases,
}
use outboxexpress.Common.Int.{ℤ, ◌≤ℤ◌, ltb_ℤ}
use outboxexpress.Domain.Std.{Std}
use outboxexpress.Errors.{Error, Result, ok, err, >>=-eq-ok, is, schema_behind}
use outboxexpress.Config.{Parsers}
use outboxexpress.Config.Load.{MigrateConfig, load_migrate, load_migrate-eq-ok}
use outboxexpress.Migrations.{
  Context, accounts, notifications, contexts, Goose, contains, parse, ready,
}
use outboxexpress.Migrations.Command.{selected, dsn_for}

abbrev pub IsContext : Context → Type 0
IsContext c = (c ≡ accounts) ⊎ (c ≡ notifications)

-- Parse accepts exactly the two contexts, each by its own name.
pub parse_iff :
    (std : Std) (name : String) (c : Context)
    → (parse std name ≡ ok c) ↔ ((c ≡ name) × IsContext name)
unfolding parse contexts contains
parse_iff std name c = ground (arith, eq_iff accounts name, eq_iff notifications name)

-- The command's targets are contexts.
selected-IsContext :
    (std : Std) (name : String) (cs : List Context) → selected std name ≡ ok cs → All IsContext cs
unfolding selected contexts
selected-IsContext std name cs h = elim (Bool-cases (str_eq name "all")) [
  | inl every ↦
      let same : contexts ≡ cs = cc (rw every at h) in
      subst (All IsContext) same (inl refl, (inr refl, tt))
  | inr one ↦
      let (c, parsed, made) = >>=-eq-ok (parse std name) (λ c. ok (c ∷ [])) (rw one at h) in
      let (same, named) = (parse_iff std name c).0 parsed in
      let same' : c ∷ [] ≡ cs = cc in
      subst (All IsContext) same' (subst IsContext (sym same) named, tt)
]

-- With a configuration that LoadMigrate returned, every target that the flag selects has a DSN, which
-- is not empty: dsnFor never refuses one.
pub selected-dsn_for :
    (std : Std) (parsers : Parsers) (getenv : String → String) (cfg : MigrateConfig) (name : String)
    (cs : List Context)
    → load_migrate std parsers getenv ≡ ok cfg
    → selected std name ≡ ok cs
    → All (λ c. (dsn : String) × (dsn_for std cfg c ≡ ok dsn) × (dsn ≢ "")) cs
unfolding dsn_for
selected-dsn_for std parsers getenv cfg name cs loaded chosen =
    let (_, one, two) = load_migrate-eq-ok std parsers getenv cfg loaded in
    All-imp IsContext (λ c. (dsn : String) × (dsn_for std cfg c ≡ ok dsn) × (dsn ≢ ""))
      (λ c named. elim named [
        | inl is ↦ (cfg.accounts_database_url, ground (arith, eq_iff c accounts), one)
        | inr is ↦ (
          cfg.notifications_database_url,
          ground (arith, eq_iff c accounts, eq_iff c notifications, eq_iff notifications accounts),
          two,
        )
      ])
      cs (selected-IsContext std name cs chosen)

lower :
    (applied a expected : ℤ)
    → ltb_ℤ applied expected ≡ true
    → ◌≡◌ {A = Result ℤ} (ok applied) (ok a)
    → ¬ (expected ≤ℤ a)
lower applied a expected behind same reached = ground arith

not_lower :
    (applied a expected : ℤ)
    → ltb_ℤ applied expected ≡ false
    → ◌≡◌ {A = Result ℤ} (ok applied) (ok a)
    → expected ≤ℤ a
not_lower applied a expected reached same = ground arith

-- Ready returns no error exactly when a version was read that is at least the expected one, and
-- ErrSchemaBehind, where reading does not fail with it, exactly when one was read that is lower.
pub ready_iff :
    (std : Std) {Dir W : Type 0} (goose : Goose Dir W) (read : Result ℤ) (expected : ℤ)
    → ((e : Error) → read ≡ err e → is e schema_behind ≡ false)
    → ((ready std goose read expected ≡ none)
        ↔ ((applied : ℤ) × (read ≡ ok applied) × (expected ≤ℤ applied)))
      × (((e : Error) × (ready std goose read expected ≡ some e) × (is e schema_behind ≡ true))
          ↔ ((applied : ℤ) × (read ≡ ok applied) × ¬ (expected ≤ℤ applied)))
unfolding ready is
ready_iff std goose (err x) expected other = ground (arith, other x refl)
ready_iff std goose (ok applied) expected other = elim (Bool-cases (ltb_ℤ applied expected)) [
  | inl behind ↦
      rw (ready, behind)
        (
          (
            (λ wrong. cc),
            λ (a, same, reached). absurd (lower applied a expected behind same reached),
          ),
          (
            (λ (e, _, _).
                (applied, refl, λ reached. lower applied applied expected behind refl reached)),
            λ _. (_, refl, refl),
          ),
        )
  | inr reached ↦
      rw (ready, reached)
        (
          ((λ _. (applied, refl, ground arith)), λ _. refl),
          (
            (λ (e, wrong, _). cc),
            λ (a, same, not_reached).
                absurd (not_reached (not_lower applied a expected reached same)),
          ),
        )
]
