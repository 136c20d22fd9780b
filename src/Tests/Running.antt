-- ===== src/Tests/Running.antt =====
-- A registration, a pass of the relay and a page of the purge, one after the other.
use outboxexpress.System.Process.{Turn}
use outboxexpress.Worker.Relay.{Relay, timed_out}
use outboxexpress.Common.{
  Bool, true, false, List, [], ◌∷◌, none, All, refl, ◌+◌, ◌≡◌, ◌≢◌, take_all, arith,
}
use outboxexpress.Common.Dict.{lookup}
use outboxexpress.Domain.User.{aggregate_type_user, register as register_user_domain}
use outboxexpress.Domain.Email.{new_email, has_dotted_domain}
use outboxexpress.Domain.DisplayName.{new_display_name}
use outboxexpress.Messaging.{encode_cloud_event}
use outboxexpress.Envelope.{envelopes_from}
use outboxexpress.Postgres.Tx.{with_tx}
use outboxexpress.Postgres.Tracker.{drain}
use outboxexpress.Postgres.Uow.{do_work, save, append}
use outboxexpress.Register.{execute}
use outboxexpress.Outbox.{pending}
use outboxexpress.System.Draining.{relayed-IsDelivered, IsDelivered}
use outboxexpress.Common.Int.{pos}
use outboxexpress.Errors.{ok, err, opaque}
use outboxexpress.Postgres.Db.{Db, add_user, add_outbox}
use outboxexpress.Publish.{PublishPendingBatch, topic_for}
use outboxexpress.Postgres.RelayOutbox.{relay_outbox}
use outboxexpress.System.{
  System, Producing, register, relay, purge, Reach, here, next, registered, relayed, purged,
  IsSound,
}
use outboxexpress.System.Runs.{
  empty_system, empty-IsSound, Reach-IsSound, no_event_lost, IsAccounted,
}
use outboxexpress.Tests.Data.{
  small_std, small_codec, small_ids, calm_tx, calm_server, calm_server-Grabs, small_machine,
  small_command,
}

abbrev small_producing : Producing
small_producing = record { tx = calm_tx; server = calm_server; close = none; ids = small_ids }

abbrev system_uc : PublishPendingBatch Db
system_uc = record {
  uow = calm_tx;
  outbox = relay_outbox small_std calm_server;
  broker = λ m acked. none;
  stats = λ n s. err (opaque "no statistics");
  topics = ("User", "users") ∷ [];
  clock = λ n. pos (200 + n);
  policy = record { batch_size = 10; after = λ n. pos 5; max_attempts = 3 };
}

abbrev after_registration : System
after_registration =
    registered small_std small_codec small_producing small_machine small_command empty_system

abbrev after_relay : System
after_relay = relayed small_std small_codec calm_server system_uc 0 after_registration

abbrev after_page : System
after_page = purged small_std small_codec calm_server (pos 0) 10 after_relay

-- Registered, published, and deleted.
small_run : Reach small_std small_codec empty_system after_page
small_run =
    next
      (next
        (next here (register empty_system small_producing small_machine small_command λ s t. refl))
        (relay after_registration calm_server system_uc 0 (λ s t. refl) calm_server-Grabs))
      (purge after_relay calm_server (pos 0) 10)

Reach-IsSound_example : IsSound small_std small_codec after_page
Reach-IsSound_example =
    Reach-IsSound small_std small_codec empty_system after_page
      (empty-IsSound small_std small_codec) small_run

no_event_lost_example : All (IsAccounted small_std small_codec after_page) after_page.db.users
no_event_lost_example = no_event_lost small_std small_codec after_page small_run

small_routed : topic_for small_std system_uc.topics aggregate_type_user ≡ ok "users"
unfolding topic_for lookup
small_routed = refl

after_registration-IsSound : IsSound small_std small_codec after_registration
after_registration-IsSound =
    Reach-IsSound small_std small_codec empty_system after_registration
      (empty-IsSound small_std small_codec)
      (next here (register empty_system small_producing small_machine small_command λ s t. refl))

relayed-IsDelivered_example :
    All (λ r. r.status ≢ pending) after_relay.db.outbox
    × All (IsDelivered small_std small_codec after_relay) after_relay.db.users
unfolding registered execute register_user_domain new_email has_dotted_domain new_display_name
    do_work with_tx save add_user drain envelopes_from encode_cloud_event append add_outbox
relayed-IsDelivered_example =
    relayed-IsDelivered small_std small_codec after_registration calm_server system_uc "users" 0
      after_registration-IsSound (λ s t. refl) calm_server-Grabs refl (λ t. refl)
      (λ statement db. refl) take_all (λ m acked. refl) small_routed (omega arith)
      ((λ waiting. omega arith), tt)

abbrev system_relay : Relay
system_relay = record {
  policy = record { idle_min = pos 1; idle_max = pos 8; drain_grace = pos 3 };
  has_waiter = false;
  jittered = λ d. d;
  idle = pos 1;
}

-- A round that runs its pass, and one that finds its context ended.
abbrev system_turn : Bool → Turn
system_turn ended = record {
  server = calm_server;
  uc = system_uc;
  readings = 0;
  ended_before = ended;
  ended_after = false;
  grace_expired = false;
  waking = timed_out;
  usage = none;
}

abbrev system_turns : List Turn
system_turns = system_turn false ∷ system_turn true ∷ []
