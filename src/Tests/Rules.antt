-- ===== src/Tests/Rules.antt =====
-- The domain's checks, the backoff, the waits, the transaction and the events, at concrete inputs.

use Prim.Native.String.{len}
use outboxexpress.Common.{
  ◌≤◌, ℕ, ◌+◌, ◌≡◌, ◌≢◌, ◌↔◌, ◌⊎◌, refl, String, true, false, Option, none, some, List, [], ◌∷◌,
  arith,
}
use outboxexpress.Common.Int.{pos, ◌≤ℤ◌}
use outboxexpress.Errors.{
  Error, ok, err, opaque, sentinel, invalid_id, invalid_email, invalid_display_name,
}
use outboxexpress.Domain.Std.{Normalises}
use outboxexpress.Domain.Email.{Email, accept_email, new_email, has_dotted_domain}
use outboxexpress.Domain.Email.Laws.{IsDotted, new_email-eq-ok}
use outboxexpress.Domain.DisplayName.{new_display_name}
use outboxexpress.Domain.User.{
  Event, register, aggregate_type, aggregate_id, event_type, occurred_at,
}
use outboxexpress.Domain.User.Laws.{IsRegistered, register_iff, register-eq-err}
use outboxexpress.Messaging.{encode_cloud_event}
use outboxexpress.Envelope.{Envelope, headers, envelope_of, envelopes_from}
use outboxexpress.Envelope.Laws.{CarriesAll, envelopes_from-CarriesAll}
use outboxexpress.Postgres.Tx.{TxServer, committed}
use outboxexpress.Postgres.Tracker.{drain, events_once, drain-events_once}
use outboxexpress.Backoff.{Exponential, delay_after}
use outboxexpress.Backoff.Laws.{Follows, delay_after-Follows}
use outboxexpress.Publish.{PublishResult, is_full}
use outboxexpress.Worker.Relay.{Relay, Round, woken, next_wait, run}
use outboxexpress.Worker.Relay.Idle.{
  IsSane, InRange, next_wait-InRange, IsIdle, ladder, next_waits, next_waits-ladder,
}
use outboxexpress.Worker.Relay.Loop.{passes, republished, run-met}
use outboxexpress.Worker.Purger.{Tick, deleted_logged, deleted_by, deleted-run}
use outboxexpress.Worker.Purger
use outboxexpress.Tests.Data.{small_std, small_codec, small_ids, small_meta, small_user}

abbrev odd_schedule : Exponential
odd_schedule = record { base = pos 3; cap = pos 13; jittered = λ d. d }

delay_after-Follows_example : (r : ℕ) × (delay_after odd_schedule 2 ≡ pos r) × Follows 13 3 2 r
delay_after-Follows_example =
    delay_after-Follows odd_schedule 3 13 2 refl refl (omega arith) (omega arith) (omega arith)

abbrev small_relay : Relay
small_relay = record {
  policy = record { idle_min = pos 10; idle_max = pos 100; drain_grace = pos 5 };
  has_waiter = true;
  jittered = λ d. d;
  idle = pos 20;
}

abbrev empty_result : PublishResult
empty_result = record {
  claimed = 0;
  published = 0;
  transient = [];
  permanent = [];
  duration = pos 1;
  stats = record { backlog = 0; oldest_pending_age = pos 0; failed_rows = 0; stuck_rows = 0 };
  stats_err = none;
  batch_size = 50;
}

small_relay-IsSane : IsSane small_relay.policy
small_relay-IsSane = record { positive = omega arith; ordered = omega arith; fits = omega arith }

next_wait-InRange_example :
    InRange (next_wait small_relay empty_result).0
    × (pos 0 ≤ℤ (next_wait small_relay empty_result).1)
    × ((next_wait small_relay empty_result).1 ≤ℤ pos 100)
    × (((next_wait small_relay empty_result).1 ≡ pos 0) ↔ (is_full empty_result ≡ true))
next_wait-InRange_example =
    next_wait-InRange small_relay empty_result small_relay-IsSane (omega arith, omega arith)

empty_result-IsIdle : IsIdle empty_result
unfolding is_full
empty_result-IsIdle = record { not_full = refl; none_transient = refl; none_claimed = refl }

next_waits-ladder_example :
    (next_waits small_relay (empty_result ∷ empty_result ∷ empty_result ∷ [])).idle
    ≡ pos (ladder 100 20 3)
next_waits-ladder_example =
    next_waits-ladder small_relay (empty_result ∷ empty_result ∷ empty_result ∷ []) 100 20 refl
      (omega arith) refl (omega arith) (omega arith)
      (empty_result-IsIdle, (empty_result-IsIdle, (empty_result-IsIdle, tt)))

abbrev failed_round : Round
failed_round = record {
  ended_before = false;
  ended_after = false;
  grace_expired = false;
  res = record empty_result { claimed = 4; published = 2 };
  err = some (opaque "commit lost");
  waking = woken;
  usage = none;
}

abbrev last_round : Round
last_round = record failed_round { ended_before = true }

run-met_example :
    (passes (run small_relay (failed_round ∷ last_round ∷ [])).0 ≡ 1)
    × (republished (run small_relay (failed_round ∷ last_round ∷ [])).0 ≡ 2)
    × ((run small_relay (failed_round ∷ last_round ∷ [])).1 ≡ true)
run-met_example = run-met small_relay (failed_round ∷ last_round ∷ [])

abbrev two_ticks : List Tick
two_ticks =
    record {
      result = record { deleted = 7; passes = 1 };
      failure = none;
      ended = false;
      done = false;
    }
    ∷ record {
      result = record { deleted = 3; passes = 1 };
      failure = some (opaque "timeout");
      ended = false;
      done = true;
    }
    ∷ []

deleted-run_example : deleted_logged (Purger.run two_ticks) ≡ 10
deleted-run_example = deleted-run two_ticks

small_email-ok : new_email small_std "a@b.c" ≡ ok (record { value = "a@b.c" })
unfolding new_email accept_email has_dotted_domain
small_email-ok = refl

new_email-eq-ok_example :
    (◌≡◌ {A = String} "a@b.c" "a@b.c")
    × (◌≢◌ {A = String} "a@b.c" "")
    × (len "a@b.c" ≤ 320)
    × (◌≡◌ {A = Option String} (some "a@b.c") (some "a@b.c"))
    × IsDotted "a@b.c"
unfolding new_email has_dotted_domain
new_email-eq-ok_example = new_email-eq-ok small_std "a@b.c" (record { value = "a@b.c" }) refl

small_std-Normalises : Normalises small_std
small_std-Normalises = record {
  trim_trim = λ s. refl;
  trim_lower = λ s. refl;
  lower_lower = λ s. refl;
}

register_iff_example :
    (register small_std 7 "a@b.c" "Ann" (pos 9) ≡ ok small_user)
    ↔ IsRegistered small_std 7 "a@b.c" "Ann" (pos 9) small_user
register_iff_example = register_iff small_std 7 "a@b.c" "Ann" (pos 9) small_user

register-eq-err_example :
    ((◌≡◌ {A = ℕ} 0 0) × (sentinel invalid_id ≡ sentinel invalid_id))
    ⊎ ((◌≢◌ {A = ℕ} 0 0)
        × (new_email small_std "a@b.c" ≡ err (sentinel invalid_id))
        × (sentinel invalid_id ≡ sentinel invalid_email))
    ⊎ ((◌≢◌ {A = ℕ} 0 0)
        × ((e : Email) × (new_email small_std "a@b.c" ≡ ok e))
        × (new_display_name small_std "Ann" ≡ err (sentinel invalid_id))
        × (sentinel invalid_id ≡ sentinel invalid_display_name))
unfolding register
register-eq-err_example =
    register-eq-err small_std 0 "a@b.c" "Ann" (pos 9) (sentinel invalid_id) refl

abbrev counting_tx : TxServer ℕ
counting_tx = record { begin = none; commit = λ _. committed; rollback = λ old new. old }

abbrev adding : ℕ → ℕ → Option Error × ℕ × ℕ
adding s w = (none, s + 1, w + 2)

abbrev failing : ℕ → ℕ → Option Error × ℕ × ℕ
failing s w = (some (opaque "no"), s + 1, w + 2)

drain-events_once_example :
    (drain (3 ∷ 3 ∷ []) (λ a. small_user)).0 ≡ events_once (λ a. small_user) [] (3 ∷ 3 ∷ [])
drain-events_once_example = drain-events_once (λ a. small_user) (3 ∷ 3 ∷ [])

abbrev one_event : List Event
one_event = small_user.events

abbrev one_envelope : List Envelope
one_envelope =
    record {
      event_id = 100;
      aggregate_type = "User";
      aggregate_id = "id";
      event_type = "com.outboxexpress.accounts.user.registered";
      schema_version = 1;
      payload = "{}";
      headers = headers small_meta;
      occurred_at = pos 9;
    }
    ∷ []

envelopes_from-CarriesAll_example :
    CarriesAll small_std small_codec small_ids small_meta 0 one_event one_envelope
unfolding envelopes_from envelope_of encode_cloud_event aggregate_type aggregate_id event_type
    occurred_at
envelopes_from-CarriesAll_example =
    envelopes_from-CarriesAll small_std small_codec small_ids small_meta 0 one_event one_envelope
      refl
