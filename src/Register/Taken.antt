-- ===== src/Register/Taken.antt =====
-- register_user.go over user_repo.go: what registering an address twice answers.
use outboxexpress.Common.{ℕ, ◌≡◌, refl, ap, Option, none, some, [], true, false, arith}
use outboxexpress.Domain.Std.{Std}
use outboxexpress.Domain.User.{User, register}
use outboxexpress.Errors.{Error, ok, err, is, sentinel, annotate, email_taken, as_pg}
use outboxexpress.Postgres.Tx.{with_tx-eq-failed}
use outboxexpress.Postgres.Db.{Db, insert_user, add_user, has_user_id, has_email, violation}
use outboxexpress.Postgres.Uow.{
  UnitOfWork, Session, user_row, email_unique_constraint, exec, save_error, saved, save,
  drain_events, do_work,
}
use outboxexpress.Register.{RegisterUserCommand, Machine, World, saved_user, commit_user, execute}
use outboxexpress.Envelope.{Metadata}

abbrev fresh_session : User → Session
fresh_session u = record { heap = λ _. u; tracked = [] }

module _ (std : Std) (uow : UnitOfWork) where
  open uow use {server}

  insert-eq-taken :
      (u : User) (db : Db)
      → server.fault (insert_user (user_row u)) db ≡ none
      → has_user_id u.id db.users ≡ false
      → has_email u.email.value db.users ≡ true
      → exec std server (insert_user (user_row u)) (add_user (user_row u)) db
        ≡ (some (violation email_unique_constraint), db)
  unfolding exec add_user
  insert-eq-taken u db served fresh taken = ground arith

  saved-eq-taken :
      (u : User) (out : Option Error × Db) (db : Db) (w : Session)
      → out ≡ (some (violation email_unique_constraint), db)
      → saved std server 0 u out w ≡ (some (annotate (sentinel email_taken) u.email.value), db, w)
  unfolding saved save_error violation as_pg
  saved-eq-taken u out db w h = rw h refl

  save-eq-taken :
      (u : User) (db : Db)
      → server.fault (insert_user (user_row u)) db ≡ none
      → has_user_id u.id db.users ≡ false
      → has_email u.email.value db.users ≡ true
      → save std server 0 db (fresh_session u)
        ≡ (some (annotate (sentinel email_taken) u.email.value), db, fresh_session u)
  unfolding save
  save-eq-taken u db served fresh taken =
      saved-eq-taken u _ db (fresh_session u) (insert-eq-taken u db served fresh taken)

  drain_events-eq-failed :
      (meta : Metadata) (e : Error) (out : Option Error × Db × Session) (db : Db) (w : Session)
      → out ≡ (some e, db, w)
      → drain_events std uow meta out ≡ (some e, db, w)
  unfolding drain_events
  drain_events-eq-failed meta e out db w h = rw h refl

  commit_user-eq-taken :
      (meta : Metadata) (u : User) (world : World)
      → uow.tx.begin ≡ none
      → server.fault (insert_user (user_row u)) world.db ≡ none
      → has_user_id u.id world.db.users ≡ false
      → has_email u.email.value world.db.users ≡ true
      → (commit_user std uow meta u world).0 ≡ err (annotate (sentinel email_taken) u.email.value)
  unfolding commit_user do_work saved_user
  commit_user-eq-taken meta u world begun served fresh taken =
      ap (λ out. (saved_user std uow u.id out world).0)
        (with_tx-eq-failed uow.tx _ world.db world.db (fresh_session u) (fresh_session u) _ begun (
          drain_events-eq-failed meta _ _ world.db (fresh_session u)
            (save-eq-taken u world.db served fresh taken)))

  -- Registering a valid address that a row of users has, with a new identifier, is refused with an
  -- error that is ErrEmailTaken, when the transaction is opened and the server runs the insert.
  pub register_email_taken :
      (machine : Machine) (cmd : RegisterUserCommand) (world : World) (id : ℕ) (u : User)
      → machine.new_id ≡ ok id
      → register std id cmd.email cmd.display_name machine.now ≡ ok u
      → uow.tx.begin ≡ none
      → server.fault (insert_user (user_row u)) world.db ≡ none
      → has_user_id u.id world.db.users ≡ false
      → has_email u.email.value world.db.users ≡ true
      → (e : Error) × ((execute std uow machine cmd world).0 ≡ err e) × (is e email_taken ≡ true)
  unfolding execute is
  register_email_taken machine cmd world id u minted made begun served fresh taken = (
    annotate (sentinel email_taken) u.email.value,
    rw (minted, made, execute) (commit_user-eq-taken cmd.meta u world begun served fresh taken),
    refl,
  )
