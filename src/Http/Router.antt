-- ===== src/Http/Router.antt =====
-- internal/accounts/presentation/http/router.go: the public routes. A request has its method and path
-- beside the rest of it; `none` is the mux's own answer to any other.
use outboxexpress.Common.{
  ℕ, ◌⊎◌, ◌≡◌, ◌≢◌, refl, String, ◌&&◌, ◌||◌, Option, none, some, List, [], str_eq, inl, inr,
  if◌then◌else◌, Bool-cases,
}
use outboxexpress.Domain.Std.{Std}
use outboxexpress.Errors.{Result, ok}
use outboxexpress.Register.Atomic.{SameTables, StoredUnheard}
use outboxexpress.Http.{RegisterRequest, metadata, Request, Response, LogLine, register_user}
use outboxexpress.Http.Contract.{refused_means_unchanged}
use outboxexpress.Platform.Admin.{healthz}
use outboxexpress.Platform.Admin.{Response as HealthResponse}
use outboxexpress.Postgres.Db.{Db, rollback}
use outboxexpress.Postgres.Uow.{UnitOfWork}
use outboxexpress.Register.{Machine, World, RegisterUserCommand, execute}

pub data Answer : Type 0 where
  registration : Response → Answer
  health : HealthResponse → Answer

abbrev answered : {W : Type 0} → Response × List LogLine × W → Option Answer × List LogLine × W
answered (response, lines, world) = (some (registration response), lines, world)

-- NewRouter, with admin.Healthz as the health handler.
unfoldable pub serve_public :
    {W : Type 0}
    → Std
    → (RegisterUserCommand → W → Result ℕ × W)
    → Result ℕ
    → (method path : String) → Request
    → W
    → Option Answer × List LogLine × W
unfolding register_user
serve_public std execute minted method path r world =
    if str_eq method "POST" && str_eq path "/users"
    then answered (register_user std execute minted r world)
    else if (str_eq method "GET" || str_eq method "HEAD") && str_eq path "/healthz"
    then (some (health healthz), [], world)
    else (none, [], world)

-- A public request changes the users or the outbox only if it is one that the registration endpoint has
-- answered with 201; any other route, method or answer leaves both as they were, where a rollback
-- restores the tables and no answer to a COMMIT is lost.
pub serve_public-unchanged :
    (std : Std) (uow : UnitOfWork) (machine : Machine) (minted : Result ℕ) (method path : String)
    (r : Request) (world : World)
    → ((s t : Db) → uow.tx.rollback s t ≡ rollback s t)
    → let out = serve_public std (execute std uow machine) minted method path r world in
      ((response : Response) → out.0 ≡ some (registration response) → response.status ≢ 201)
      → SameTables std uow world.db out.2.db
        ⊎ ((body : RegisterRequest) × (r.decoded ≡ ok body)
            × StoredUnheard std uow machine
                (record {
                  email = body.email;
                  display_name = body.display_name;
                  meta = metadata std r minted;
                })
                world.db
                out.2.db)
unfolding serve_public
serve_public-unchanged std uow machine minted method path r world restores =
    elim (Bool-cases (str_eq method "POST" && str_eq path "/users")) [
      | inl posts ↦
          rw (serve_public, posts)
            (λ refused.
              refused_means_unchanged std uow machine minted r world (refused _ refl) restores)
      | inr other ↦
          elim (Bool-cases
            ((str_eq method "GET" || str_eq method "HEAD") && str_eq path "/healthz")) [
              | inl asks ↦ rw (serve_public, other, asks) (λ _. inl (refl, refl))
              | inr nothing ↦ rw (serve_public, other, nothing) (λ _. inl (refl, refl))
            ]
    ]
