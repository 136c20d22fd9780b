-- ===== src/System.antt =====
-- The service as a whole: registrations, relay passes and pages of the purge on one database, in any
-- order, each in a transaction of its own, with what the broker has acknowledged.
pub mod Sound
pub mod Midway
pub mod Relaying
pub mod Registering
pub mod Purging
pub mod Runs
pub mod Draining
pub mod Process
pub mod Batches
use mathlib.Core.List.{Memᴰ}
use outboxexpress.Common.{ℕ, ◌≡◌, ◌⊎◌, Option, String, List, All, map}
use outboxexpress.Common.Int.{ℤ}
use outboxexpress.Domain.Std.{Std}
use outboxexpress.Domain.User.{User}
use outboxexpress.Domain.User.Laws.{announcement}
use outboxexpress.Errors.{Error}
use outboxexpress.Messaging.{Message, Codec}
use outboxexpress.Envelope.{Envelope, Metadata, UserRegisteredData, IdGen}
use outboxexpress.Envelope.Laws.{Carries}
use outboxexpress.Outbox.{OutboxRow, published}
use outboxexpress.Postgres.Tx.{TxServer}
use outboxexpress.Postgres.Db.{Db, UserRow, Server, Grabs, IsValid, rollback}
use outboxexpress.Postgres.Uow.{UnitOfWork}
use outboxexpress.Postgres.RelayOutbox.{relay_outbox}
use outboxexpress.Postgres.Purge.{purge_published}
use outboxexpress.Publish.{PublishPendingBatch}
use outboxexpress.Publish.{execute as execute_pass}
use outboxexpress.Register.{RegisterUserCommand, Machine, execute}

pub record System : Type 0 where
  pub db : Db
  -- what the broker has acknowledged, the oldest first
  pub acked : List Message

-- The parts of a unit of work that differ from one registration to the next.
pub record Producing : Type 0 where
  pub tx : TxServer Db
  pub server : Server
  pub close : Option Error
  pub ids : IdGen

abbrev pub envelopes : List OutboxRow → List Envelope
envelopes = map (λ r. r.envelope)

module _ (std : Std) (codec : Codec UserRegisteredData) where
  abbrev pub unit_of_work : Producing → UnitOfWork
  unit_of_work p = record {
    tx = p.tx;
    server = p.server;
    close = p.close;
    codec = codec;
    ids = p.ids;
  }

  -- POST /users, whatever it answers.
  unfoldable pub registered : Producing → Machine → RegisterUserCommand → System → System
  registered p machine cmd s = record s {
    db = ((execute std (unit_of_work p) machine cmd (record { db = s.db; notified = 0 })).1).db;
  }

  -- A pass over the relay's repository on a server, from the given reading of the clock on.
  abbrev pub relay_on : Server → PublishPendingBatch Db → PublishPendingBatch Db
  relay_on server uc = record uc { outbox = relay_outbox std server }

  unfoldable pub relayed : Server → PublishPendingBatch Db → ℕ → System → System
  relayed server uc readings s =
      let out = execute_pass std (relay_on server uc) s.acked readings s.db in
      record { db = out.1; acked = (out.2).acked }

  -- One page of the purge.
  unfoldable pub purged : Server → ℤ → ℕ → System → System
  purged server retention limit s = record s {
    db = (purge_published server retention limit s.db).1;
  }

  -- Documented of PostgreSQL: a rollback restores the tables, and not the sequence.
  abbrev pub Restores : TxServer Db → Type 0
  Restores tx = (s t : Db) → tx.rollback s t ≡ rollback s t

  -- One transaction of the service.
  pub data Step : System → System → Type 0 where
    register :
        (s : System) (p : Producing) (machine : Machine) (cmd : RegisterUserCommand)
        → Restores p.tx
        → Step s (registered p machine cmd s)
    relay :
        (s : System) (server : Server) (uc : PublishPendingBatch Db) (readings : ℕ)
        → Restores uc.uow
        → Grabs server
        → Step s (relayed server uc readings s)
    purge :
        (s : System) (server : Server) (retention : ℤ) (limit : ℕ)
        → Step s (purged server retention limit s)

  pub data Reach (start : System) : System → Type 0 where
    here : Reach start start
    next : {s t : System} → Reach start s → Step s t → Reach start t

  -- The envelope is what the columns give back of one that carries the registration of the user that
  -- a row of users holds.
  pub record Announces (row : UserRow) (e : Envelope) : Type 0 where
    pub user : User
    pub stored : row ≡ record {
      id = user.id;
      email = user.email.value;
      display_name = user.display_name.value;
      version = user.version;
      created_at = user.created_at;
    }
    pub ids : IdGen
    pub meta : Metadata
    pub made : Envelope
    pub carries : Carries std codec ids meta 0 (announcement user) made
    pub kept : e ≡ record made { payload = std.jsonb made.payload }

  -- The message that the broker holds is the envelope's.
  pub record Sends (e : Envelope) (m : Message) : Type 0 where
    pub same_event : m.event_id ≡ std.uuid_string e.event_id
    pub same_type : m.event_type ≡ e.event_type
    pub same_version : m.schema_version ≡ e.schema_version
    pub same_key : m.key ≡ e.aggregate_id
    pub same_payload : m.payload ≡ e.payload

  abbrev pub IsSent : List Message → Envelope → Type 0
  IsSent acked e = (m : Message) × Memᴰ m acked × Sends e m

  -- Where the event of a user is: in the outbox, or acknowledged by the broker.
  abbrev pub IsCovered : System → UserRow → Type 0
  IsCovered s u =
      (e : Envelope) × Announces u e × (Memᴰ e (envelopes s.db.outbox) ⊎ IsSent s.acked e)

  abbrev pub HasUser : List UserRow → Envelope → Type 0
  HasUser users e = (u : UserRow) × Memᴰ u users × Announces u e

  pub record IsSound (s : System) : Type 0 where
    pub valid : IsValid s.db
    -- a published row has been acknowledged
    pub published_sent : All (λ r. r.status ≡ published → IsSent s.acked r.envelope) s.db.outbox
    -- no event is lost
    pub covered : All (IsCovered s) s.db.users
    -- no event is made up
    pub rows_real : All (HasUser s.db.users) (envelopes s.db.outbox)
    pub acked_real : All (λ m. (e : Envelope) × Sends e m × HasUser s.db.users e) s.acked
