-- ===== src/Migrations.antt =====
-- migrations/embed.go. A Context is the string that it is in Go. The embedded files, path and sort of
-- the standard library and goose are the record Goose; a database is addressed by its DSN, and `W` is
-- the state of all of them.
pub mod Command
pub mod Laws
pub mod Closing
pub mod Applied
use Prim.Native.String.{◌++◌}
use outboxexpress.Common.{
  String, Bool, true, false, ◌||◌, Option, none, some, List, [], ◌∷◌, str_eq, if◌then◌else◌,
}
use outboxexpress.Common.Int.{ℤ, ltb_ℤ}
use outboxexpress.Domain.Std.{Std}
use outboxexpress.Errors.{
  Error, Result, ok, err, ◌>>=◌, ◌>>◌, sentinel, unknown_context, schema_behind, annotate, wrap,
  opaque,
}

abbrev pub Context : Type 0
Context = String

abbrev pub accounts : Context
accounts = "accounts"

abbrev pub notifications : Context
notifications = "notifications"

unfoldable pub contexts : List Context
contexts = accounts ∷ notifications ∷ []

-- slices.Contains
unfoldable pub contains : List String → String → Bool
contains [] c = false
contains (d ∷ ds) c = str_eq d c || contains ds c

pub record Goose (Dir W : Type 0) : Type 0 where
  -- fs.Sub of the embedded files
  pub sub : String → Result Dir
  -- fs.Glob(f, "*.sql")
  pub glob : Dir → Result (List String)
  -- slices.Sort
  pub sorted : List String → List String
  pub numeric_component : String → Result ℤ
  pub set_dialect : Option Error
  pub up : Dir → String → W → Option Error × W
  pub get_db_version : String → W → Result ℤ
  -- %d
  pub show : ℤ → String

-- The last element, if there is one.
unfoldable pub last : List String → Option String
last [] = none
last (x ∷ []) = some x
last (x ∷ y ∷ ys) = last (y ∷ ys)

unfoldable pub parse : Std → String → Result Context
unfolding contexts contains
parse std name =
    if contains contexts name
    then ok name
    else err (annotate (sentinel unknown_context) (std.quote name))

-- An error gets a prefix.
abbrev pub or_wrap {ℓ} : {A : Type ℓ} → String → Result A → Result A
or_wrap what (ok a) = ok a
or_wrap what (err e) = err (wrap what e)

module _ (std : Std) {Dir W : Type 0} (goose : Goose Dir W) where
  unfoldable pub fs : Context → Result Dir
  unfolding parse
  fs c = parse std c >>= λ parsed. goose.sub parsed

  -- `names[len(names)-1]` of the sorted names, and its version.
  unfoldable pub version_of : Context → Option String → Result ℤ
  version_of c none = err (opaque ("migrations: no .sql files embedded for " ++ c))
  version_of c (some newest) = or_wrap ("migrations: " ++ newest) (goose.numeric_component newest)

  unfoldable pub latest : Context → Result ℤ
  unfolding fs version_of last
  latest c = fs c >>= λ f. goose.glob f >>= λ names. version_of c (last (goose.sorted names))

  -- `if err := goose.Up(db, "."); err != nil`
  abbrev pub upped : Context → Option Error × W → Option Error × W
  upped c (none, w) = (none, w)
  upped c (some e, w) = (some (wrap ("migrations: up " ++ c) e), w)

  unfoldable pub apply : Context → String → W → Option Error × W
  unfolding fs
  apply c db w = elim (fs c) [
    | err e ↦ (some e, w)
    | ok f ↦ elim goose.set_dialect [
      | some e ↦ (some (wrap "migrations: dialect" e), w)
      | none ↦ upped c (goose.up f db w)
    ]
  ]

  unfoldable pub version : String → W → Result ℤ
  version db w = elim goose.set_dialect [
    | some e ↦ err (wrap "migrations: dialect" e)
    | none ↦ or_wrap "migrations: version" (goose.get_db_version db w)
  ]

  -- Ready, of what the query for the highest applied version returns.
  unfoldable pub ready : Result ℤ → ℤ → Option Error
  ready (err e) expected = some (wrap "migrations: read schema version" e)
  ready (ok applied) expected =
      if ltb_ℤ applied expected
      then some (
          annotate (sentinel schema_behind)
            ("applied " ++ (goose.show applied ++ (", expected " ++ goose.show expected))))
      else none
