-- ===== src/Postgres/Uow.antt =====
-- infrastructure/postgres/user_repo.go, outbox_repo.go and uow.go: the producing transaction.
use Prim.Native.String.{◌++◌}
use outboxexpress.Common.{
  ℕ, suc, String, Bool, false, ◌&&◌, Option, none, some, List, [], ◌∷◌, str_eq, if◌then◌else◌,
}
use outboxexpress.Domain.Std.{Std}
use outboxexpress.Domain.User.{User, Event}
use outboxexpress.Errors.{Error, ok, err, PgError, as_pg, wrap, annotate, sentinel, email_taken}
use outboxexpress.Messaging.{Codec}
use outboxexpress.Envelope.{Metadata, Envelope, UserRegisteredData, IdGen, envelopes_from}
use outboxexpress.Postgres.Tx.{TxServer, with_tx}
use outboxexpress.Postgres.Db.{
  Db, UserRow, Server, Statement, insert_user, insert_outbox, add_user, add_outbox, as_stored,
}
use outboxexpress.Postgres.Tracker.{Heap, track, drain}

-- The arguments of insertUser.
abbrev pub user_row : User → UserRow
user_row u = record {
  id = u.id;
  email = u.email.value;
  display_name = u.display_name.value;
  version = u.version;
  created_at = u.created_at;
}

-- uniqueViolation and emailUniqueConstraint
abbrev pub unique_violation : String
unique_violation = "23505"

abbrev pub email_unique_constraint : String
email_unique_constraint = "users_email_key"

-- What the producing transaction changes in memory.
pub record Session : Type 0 where
  pub heap : Heap
  pub tracked : List ℕ

abbrev pub is_email_violation : Option PgError → Bool
is_email_violation none = false
is_email_violation (some e) =
    str_eq e.code unique_violation && str_eq e.constraint_name email_unique_constraint

module _ (std : Std) (server : Server) where
  -- An Exec of a statement: the server fails it, or the tables do what they do.
  unfoldable pub exec : Statement → (Db → Option Error × Db) → Db → Option Error × Db
  exec statement run db = elim (server.fault statement db) [ some e ↦ (some e, db) | none ↦ run db ]

  -- The error branch of Save.
  unfoldable pub save_error : User → Error → Error
  save_error u e =
      if is_email_violation (as_pg e)
      then annotate (sentinel email_taken) u.email.value
      else wrap ("postgres: save user " ++ std.uuid_string u.id) e

  unfoldable pub saved : ℕ → User → Option Error × Db → Session → Option Error × Db × Session
  unfolding save_error track
  saved a u (some e, db) w = (some (save_error u e), db, w)
  saved a u (none, db) w = (none, db, record w { tracked = track w.tracked a })

  -- userRepository.Save of the aggregate at an address.
  unfoldable pub save : ℕ → Db → Session → Option Error × Db × Session
  unfolding saved exec
  save a db w =
      let u = w.heap a in saved a u (exec (insert_user (user_row u)) (add_user (user_row u)) db) w

  -- The results of the batch, from the i-th on.
  unfoldable pub append_rows : ℕ → List Envelope → Db → Option Error × Db
  unfolding exec
  append_rows i [] db = (none, db)
  append_rows i (e ∷ es) db =
      let (failed, db') = exec (insert_outbox e) (add_outbox server.now (as_stored std e)) db in
      elim failed [
        | some x ↦ (
          some (
              wrap
                ("postgres: append outbox row "
                  ++ (std.itoa i ++ (" (event_id " ++ (std.uuid_string e.event_id ++ ")"))))
                x),
          db',
        )
        | none ↦ append_rows (suc i) es db'
      ]

  -- BatchResults.Close is the server's answer `close`.
  unfoldable pub closed : Option Error → Option Error × Db → Option Error × Db
  closed close (some e, db) = (some e, db)
  closed none (none, db) = (none, db)
  closed (some e) (none, db) = (some (wrap "postgres: close outbox batch" e), db)

  unfoldable pub append : Option Error → List Envelope → Db → Option Error × Db
  unfolding append_rows closed
  append close [] db = (none, db)
  append close (e ∷ es) db = closed close (append_rows 0 (e ∷ es) db)

-- UnitOfWork: the factory's parts and the answers of the server.
pub record UnitOfWork : Type 0 where
  pub tx : TxServer Db
  pub server : Server
  pub close : Option Error
  pub codec : Codec UserRegisteredData
  -- the n-th identifier that the factory asks for in this transaction
  pub ids : IdGen

module _ (std : Std) (uow : UnitOfWork) (meta : Metadata) where
  unfoldable pub append_events : List Event → Db → Session → Option Error × Db × Session
  append_events [] db w = (none, db, w)
  append_events (event ∷ events) db w =
      elim (envelopes_from std uow.codec uow.ids meta 0 (event ∷ events)) [
        | err e ↦ (some e, db, w)
        | ok envelopes ↦
            let (failed, db') = append std uow.server uow.close envelopes db in (failed, db', w)
      ]

  -- After `fn` has returned: its error, or the events of what it tracked.
  unfoldable pub drain_events : Option Error × Db × Session → Option Error × Db × Session
  unfolding append_events
  drain_events (some e, db, w) = (some e, db, w)
  drain_events (none, db, w) =
      let (events, heap) = drain w.tracked w.heap in
      append_events events db (record w { heap = heap; tracked = [] })

  unfoldable pub do_work :
      (Db → Session → Option Error × Db × Session) → Db → Session → Option Error × Db × Session
  unfolding drain_events
  do_work fn = with_tx uow.tx (λ db w. drain_events (fn db (record w { tracked = [] })))
