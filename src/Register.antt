-- ===== src/Register.antt =====
-- internal/accounts/application/register_user.go: the producing use case.
pub mod Adding
pub mod Atomic
pub mod Taken
pub mod Valid
use outboxexpress.Common.{ℕ, zero, suc, ◌+◌, String, Option, none, some, List, [], ◌∷◌}
use outboxexpress.Common.Int.{ℤ}
use outboxexpress.Domain.Std.{Std}
use outboxexpress.Domain.User.{User, register}
use outboxexpress.Errors.{Error, Result, ok, err}
use outboxexpress.Envelope.{Metadata}
use outboxexpress.Postgres.Db.{Db}
use outboxexpress.Postgres.Uow.{UnitOfWork, Session, save, do_work}

pub record RegisterUserCommand : Type 0 where
  pub email : String
  pub display_name : String
  pub meta : Metadata

-- What the use case asks the machine for: IDGen.New and Clock.Now.
pub record Machine : Type 0 where
  pub new_id : Result ℕ
  pub now : ℤ

-- The database, and how often Wakeup.Notify was called.
pub record World : Type 0 where
  pub db : Db
  pub notified : ℕ

module _ (std : Std) (uow : UnitOfWork) where
  -- `uow.Do` with the closure that saves the user, and what follows it.
  unfoldable pub saved_user : ℕ → Option Error × Db × Session → World → Result ℕ × World
  saved_user id (some e, db, w) world = (err e, record world { db = db })
  saved_user id (none, db, w) world = (ok id, record { db = db; notified = world.notified + 1 })

  unfoldable pub commit_user : Metadata → User → World → Result ℕ × World
  unfolding saved_user
  commit_user meta u world =
      saved_user u.id
        (do_work std uow meta (save std uow.server 0) world.db
          (record { heap = λ _. u; tracked = [] }))
        world

  unfoldable pub execute : Machine → RegisterUserCommand → World → Result ℕ × World
  unfolding commit_user
  execute machine cmd world = elim machine.new_id [
    | err e ↦ (err e, world)
    | ok id ↦ elim (register std id cmd.email cmd.display_name machine.now) [
      | err e ↦ (err e, world)
      | ok u ↦ commit_user cmd.meta u world
    ]
  ]
