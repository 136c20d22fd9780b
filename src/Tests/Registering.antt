-- ===== src/Tests/Registering.antt =====
-- A registration that succeeds, one of a taken address, and a purge, at concrete inputs.
use outboxexpress.Common.{ℕ, ◌≡◌, refl, Option, none, some, true, [], ◌∷◌, arith, length, ◌⊎◌}
use outboxexpress.Common.Int.{pos}
use outboxexpress.Errors.{Error, Result, ok, err, is, opaque, wrap, email_taken}
use outboxexpress.Domain.Email.{new_email, has_dotted_domain}
use outboxexpress.Domain.DisplayName.{new_display_name}
use outboxexpress.Messaging.{encode_cloud_event}
use outboxexpress.Envelope.{envelopes_from}
use outboxexpress.Postgres.Tx.{with_tx, reply_lost}
use outboxexpress.Postgres.Tracker.{drain}
use outboxexpress.Domain.User.{User, register}
use outboxexpress.Domain.User.Laws.{IsRegistered}
use outboxexpress.Postgres.Db.{Db, IsValid, add_user, add_outbox, has_user_id, has_email}
use outboxexpress.Postgres.Uow.{UnitOfWork, do_work, save, append}
use outboxexpress.Postgres.RelayOutbox.Laws.{row}
use outboxexpress.Postgres.Purge.{is_expired, outbox_purger}
use outboxexpress.Postgres.Purge.Laws.{outbox_purger-PurgerLaws}
use outboxexpress.Purge.{PurgePublished, PurgeResult, no_pages, pages}
use outboxexpress.Purge.Loop.{Purged, pages-Purged}
use outboxexpress.Register.{World, execute}
use outboxexpress.Register.Adding.{Adds}
use outboxexpress.Register.Atomic.{register_atomic, register_failed, SameTables, StoredUnheard}
use outboxexpress.Register.Taken.{register_email_taken}
use outboxexpress.Postgres.Stats.{stats_of, read}
use outboxexpress.Tests.Data.{
  small_std, small_meta, small_user, calm_tx, calm_server, three_rows, three_rows-IsValid,
  small_uow, small_machine, small_command, small_world,
}

registered : Result ℕ × World
registered = execute small_std small_uow small_machine small_command small_world

registered-ok : registered ≡ (ok 7, registered.1)
unfolding registered execute register new_email has_dotted_domain new_display_name do_work with_tx
    save add_user drain envelopes_from encode_cloud_event append add_outbox
registered-ok = refl

register_atomic_example :
    (u : User) × IsRegistered small_std 7 "a@b.c" "Ann" (pos 9) u
    × Adds small_std small_uow small_meta u three_rows registered.1.db
    × (registered.1.notified ≡ 1)
unfolding registered
register_atomic_example =
    register_atomic small_std small_uow small_machine small_command small_world registered.1 7
      registered-ok

-- The same address a second time, with another identifier.
abbrev taken_world : World
taken_world = record {
  db = record three_rows {
    users =
        record { id = 5; email = "a@b.c"; display_name = "A"; version = 1; created_at = pos 1 }
        ∷ [];
  };
  notified = 0;
}

register_email_taken_example :
    (e : Error) × ((execute small_std small_uow small_machine small_command taken_world).0 ≡ err e)
    × (is e email_taken ≡ true)
unfolding register new_email has_dotted_domain new_display_name has_user_id has_email
register_email_taken_example =
    register_email_taken small_std small_uow small_machine small_command taken_world 7 small_user
      refl refl refl refl refl refl

-- The commit is carried out, and its answer is lost.
abbrev lost_uow : UnitOfWork
lost_uow = record small_uow { tx = record calm_tx { commit = λ _. reply_lost (opaque "lost") } }

refused : Result ℕ × World
refused = execute small_std lost_uow small_machine small_command small_world

refused-err : refused ≡ (err (wrap "postgres: commit" (opaque "lost")), refused.1)
unfolding refused execute register new_email has_dotted_domain new_display_name do_work with_tx save
    add_user drain envelopes_from encode_cloud_event append add_outbox
refused-err = refl

register_failed_example :
    (refused.1.notified ≡ 0)
    × (SameTables small_std lost_uow small_world.db refused.1.db
        ⊎ StoredUnheard small_std lost_uow small_machine small_command small_world.db refused.1.db)
unfolding refused
register_failed_example =
    register_failed small_std lost_uow small_machine small_command small_world refused.1
      (wrap "postgres: commit" (opaque "lost")) (λ s t. refl) refused-err

abbrev small_purge : PurgePublished
small_purge = record { retention = pos 5; batch = 1 }

pages-Purged_example :
    (out : Option Error × PurgeResult × Db) × (pages
        (outbox_purger calm_server)
        small_purge
        (λ n. none)
        4
        0
        no_pages
        three_rows
      ≡ some out)
    × Purged
        (outbox_purger calm_server)
        small_purge
        (λ n. none)
        IsValid
        (λ db. length db.outbox)
        row
        (λ r. is_expired (pos 100) (pos 5) r ≡ true)
        (outbox_purger-PurgerLaws calm_server (pos 5))
        three_rows
        no_pages
        out
pages-Purged_example =
    pages-Purged (outbox_purger calm_server) small_purge (λ n. none) IsValid
      (λ db. length db.outbox) row (λ r. is_expired (pos 100) (pos 5) r ≡ true)
      (outbox_purger-PurgerLaws calm_server (pos 5)) 4 0 no_pages three_rows three_rows-IsValid
      (omega arith) (omega arith)

small_stats : read calm_server 5 three_rows ≡ ok (stats_of (pos 100) 5 three_rows.outbox)
unfolding read
small_stats = refl
