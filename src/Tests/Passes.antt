-- ===== src/Tests/Passes.antt =====
-- One pass over three rows: the first is acknowledged, the second has no topic, and the broker
-- refuses the third for the time being.
use outboxexpress.Common.{◌≡◌, refl, Option, none, some, List, [], ◌∷◌}
use outboxexpress.Common.Int.{pos}
use outboxexpress.Errors.{Error, err, is, text, opaque, sentinel, transient}
use outboxexpress.Messaging.{Message}
use outboxexpress.Outbox.{OutboxRow, PendingMessage, scan, RepositoryLaws, as_published, as_failed}
use outboxexpress.Postgres.Db.{Db}
use outboxexpress.Postgres.RelayOutbox.{relay_outbox}
use outboxexpress.Postgres.RelayOutbox.Laws.{row, HasKeys, relay_outbox-RepositoryLaws}
use outboxexpress.Publish.{PublishPendingBatch, Pass, execute, unmapped, new_result}
use outboxexpress.Publish.Fates.{fates}
use outboxexpress.Publish.Refines.{Does, publish_batch-Does}
use outboxexpress.Publish.Outcome.{Passed, execute-Passed}
use outboxexpress.Publish.Safety.{RowFate, execute-RowFate}
use outboxexpress.Common.Lists.{sort_by}
use outboxexpress.Common.Dict.{lookup}
use outboxexpress.Postgres.Tx.{with_tx, reply_lost}
use outboxexpress.Postgres.RelayOutbox.{claim_pending, mark_one}
use outboxexpress.Outbox.Table.{Pairs-ne, find, affected, update_where}
use outboxexpress.Outbox.{as_rescheduled}
use outboxexpress.Publish.{publish_batch, settle_row, publish}
use outboxexpress.Tests.Data.{
  small_std, calm_tx, calm_server, calm_server-Grabs, small_row, three_rows, three_rows-IsValid,
}

abbrev one_ack : Message → List Message → Option Error
one_ack m [] = none
one_ack m (n ∷ ns) = some (sentinel transient)

abbrev small_pass : PublishPendingBatch Db
small_pass = record {
  uow = calm_tx;
  outbox = relay_outbox small_std calm_server;
  broker = one_ack;
  stats = λ _ _. err (opaque "no statistics");
  topics = ("User", "accounts.user") ∷ [];
  clock = pos;
  policy = record { batch_size = 10; after = pos; max_attempts = 5 };
}

abbrev small_laws : RepositoryLaws small_pass.outbox row HasKeys (pos 100)
small_laws = relay_outbox-RepositoryLaws small_std calm_server calm_server-Grabs

three_rows-HasKeys : HasKeys three_rows
three_rows-HasKeys = Pairs-ne three_rows.outbox three_rows-IsValid.ordered

outcome : Option Error × Db × Pass
outcome = execute small_std small_pass [] 0 three_rows

outcome-none : outcome ≡ (none, outcome.1, outcome.2)
unfolding outcome execute with_tx relay_outbox claim_pending publish_batch sort_by settle_row
    publish lookup mark_one affected is update_where as_published as_failed as_rescheduled
outcome-none = refl

execute-Passed_example :
    Passed small_std small_pass row HasKeys (pos 100) small_laws [] 0 three_rows outcome.1 outcome.2
unfolding outcome
execute-Passed_example =
    execute-Passed small_std small_pass row HasKeys (pos 100) small_laws [] 0 three_rows outcome.1
      outcome.2 three_rows-HasKeys outcome-none

acked_row : OutboxRow
acked_row = as_published (pos 100) (small_row 1 11 "User")

parked_row : OutboxRow
parked_row = as_failed (text (unmapped small_std "Order")) (small_row 2 12 "Order")

first_stored : row outcome.1 1 ≡ some acked_row
unfolding outcome acked_row execute with_tx relay_outbox claim_pending publish_batch sort_by
    settle_row publish lookup mark_one affected is update_where as_published as_failed
    as_rescheduled find
first_stored = refl

second_stored : row outcome.1 2 ≡ some parked_row
unfolding outcome parked_row execute with_tx relay_outbox claim_pending publish_batch sort_by
    settle_row publish lookup mark_one affected is update_where as_published as_failed
    as_rescheduled find
second_stored = refl

execute-RowFate_example :
    RowFate small_std small_pass row HasKeys
      (pos 100)
      small_laws
      0
      outcome.1
      outcome.2
      (small_row 1 11 "User")
unfolding find outcome
execute-RowFate_example =
    execute-RowFate small_std small_pass row HasKeys (pos 100) small_laws [] 0 three_rows outcome.1
      outcome.2 three_rows-HasKeys outcome-none (small_row 1 11 "User") refl

relay_outbox-RepositoryLaws_example :
    RepositoryLaws (relay_outbox small_std calm_server) row HasKeys (pos 100)
relay_outbox-RepositoryLaws_example =
    relay_outbox-RepositoryLaws small_std calm_server calm_server-Grabs

-- The same pass, when the answer to the commit is lost.
abbrev lost_pass : PublishPendingBatch Db
lost_pass = record small_pass {
  uow = record calm_tx { commit = λ _. reply_lost (opaque "connection lost") };
}

lost_outcome : Option Error × Db × Pass
lost_outcome = execute small_std lost_pass [] 0 three_rows

-- The loop over the first row alone.
abbrev fresh_work : Pass
fresh_work = record { acked = []; readings = 1; result = new_result small_std small_pass }

abbrev one_message : List PendingMessage
one_message = scan (small_row 1 11 "User") ∷ []

batch_outcome : Option Error × Db × Pass
batch_outcome = publish_batch small_std small_pass one_message three_rows fresh_work

batch-none : batch_outcome ≡ (none, batch_outcome.1, batch_outcome.2)
unfolding batch_outcome publish_batch relay_outbox settle_row publish lookup mark_one affected
    update_where as_published
batch-none = refl

publish_batch-Does_example :
    Does small_std small_pass row
      (pos 100)
      (fates small_std small_pass one_message [])
      three_rows
      batch_outcome.1
      fresh_work
      batch_outcome.2
unfolding batch_outcome
publish_batch-Does_example =
    publish_batch-Does small_std small_pass row (pos 100) HasKeys small_laws one_message three_rows
      batch_outcome.1 fresh_work batch_outcome.2 batch-none
