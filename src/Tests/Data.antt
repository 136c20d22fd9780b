-- ===== src/Tests/Data.antt =====
-- A small standard library, a server that fails nothing, and tables of three rows.
use Prim.Native.String.{◌++◌}
use mathlib.Core.List.{Sublistᴰ}
use outboxexpress.Common.{
  ℕ, zero, suc, ◌+◌, refl, String, none, some, List, [], ◌∷◌, take, length-take-le, arith,
}
use outboxexpress.Common.Int.{pos}
use outboxexpress.Errors.{ok}
use outboxexpress.Domain.Std.{Std}
use outboxexpress.Domain.User.{User, user_registered}
use outboxexpress.Messaging.{Codec}
use outboxexpress.Envelope.{Envelope, Metadata, IdGen, UserRegisteredData}
use outboxexpress.Outbox.{OutboxRow, pending}
use outboxexpress.Postgres.Tx.{TxServer, committed}
use outboxexpress.Postgres.Uow.{UnitOfWork}
use outboxexpress.Register.{RegisterUserCommand, Machine, World}
use outboxexpress.Postgres.Db.{Db, Server, Grabs, IsValid, rollback}

abbrev pub small_std : Std
small_std = record {
  jsonb = λ s. s ++ " ";
  trim_space = λ s. s;
  to_lower = λ s. s;
  parse_address = λ s. some s;
  uuid_string = λ n. "id";
  itoa = λ n. "n";
  quote = λ s. s;
}

abbrev pub calm_tx : TxServer Db
calm_tx = record { begin = none; commit = λ _. committed; rollback = rollback }

abbrev pub calm_server : Server
calm_server = record { now = pos 100; fault = λ _ _. none; grab = take }

take-Sublist : (n : ℕ) (rows : List OutboxRow) → Sublistᴰ (take n rows) rows
take-Sublist zero [] = Sublistᴰ.slnil
take-Sublist zero (r ∷ rs) = Sublistᴰ.cons (take-Sublist zero rs)
take-Sublist (suc n) [] = Sublistᴰ.slnil
take-Sublist (suc n) (r ∷ rs) = Sublistᴰ.cons-cons refl (take-Sublist n rs)

pub calm_server-Grabs : Grabs calm_server
calm_server-Grabs = record { grab_sublist = take-Sublist; grab_limit = length-take-le }

abbrev pub small_envelope : ℕ → String → Envelope
small_envelope event_id aggregate_type = record {
  event_id = event_id;
  aggregate_type = aggregate_type;
  aggregate_id = "key";
  event_type = "registered";
  schema_version = 1;
  payload = "{}";
  headers = [];
  occurred_at = pos 1;
}

abbrev pub small_row : ℕ → ℕ → String → OutboxRow
small_row id event_id aggregate_type = record {
  id = id;
  envelope = small_envelope event_id aggregate_type;
  status = pending;
  attempts = 0;
  available_at = pos 50;
  last_error = none;
  published_at = none;
}

abbrev pub three_rows : Db
three_rows = record {
  users = [];
  outbox = small_row 1 11 "User" ∷ small_row 2 12 "Order" ∷ small_row 3 13 "User" ∷ [];
  next_id = 4;
}

pub three_rows-IsValid : IsValid three_rows
three_rows-IsValid = record {
  fresh = (omega arith, (omega arith, (omega arith, tt)));
  ordered = ((omega arith, (omega arith, tt)), ((omega arith, tt), (tt, tt)));
  event_ids = ((omega arith, (omega arith, tt)), ((omega arith, tt), (tt, tt)));
  user_ids = tt;
  emails = tt;
}

abbrev pub small_codec : Codec UserRegisteredData
small_codec = record { format_time = λ t. "now"; marshal = λ event. ok "{}" }

abbrev pub small_ids : IdGen
small_ids n = ok (n + 100)

abbrev pub small_meta : Metadata
small_meta = record { correlation_id = "c"; traceparent = "" }

abbrev pub small_user : User
small_user = record {
  id = 7;
  email = record { value = "a@b.c" };
  display_name = record { value = "Ann" };
  version = 1;
  created_at = pos 9;
  events =
      user_registered (record {
        user_id = 7;
        email = record { value = "a@b.c" };
        display_name = record { value = "Ann" };
        version = 1;
        registered_at = pos 9;
      })
      ∷ [];
}

abbrev pub small_uow : UnitOfWork
small_uow = record {
  tx = calm_tx;
  server = calm_server;
  close = none;
  codec = small_codec;
  ids = small_ids;
}

abbrev pub small_machine : Machine
small_machine = record { new_id = ok 7; now = pos 9 }

abbrev pub small_command : RegisterUserCommand
small_command = record { email = "a@b.c"; display_name = "Ann"; meta = small_meta }

abbrev pub small_world : World
small_world = record { db = three_rows; notified = 0 }
