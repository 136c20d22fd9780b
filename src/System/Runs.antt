-- ===== src/System/Runs.antt =====
-- What holds of the service after any number of registrations, passes and pages, in any order.
use mathlib.Core.List.{Memᴰ}
use mathlib.Core.List.Memᴰ.{of_map}
use outboxexpress.Common.{◌≡◌, refl, ◌⊎◌, inl, inr, [], All, All-imp, subst}
use outboxexpress.Domain.Std.{Std}
use outboxexpress.Messaging.{Codec}
use outboxexpress.Envelope.{Envelope, UserRegisteredData}
use outboxexpress.Outbox.{OutboxRow, Status, pending, published, failed}
use outboxexpress.Postgres.Db.{UserRow}
use outboxexpress.System.{
  System, registered, purged, Step, register, relay, purge, Reach, here, next, Announces, IsSent,
  IsCovered, IsSound,
}
use outboxexpress.System.Relaying.{relayed-IsSound, relayed-Extends}
use outboxexpress.System.Registering.{registered-IsSound}
use outboxexpress.System.Purging.{purged-IsSound}
use outboxexpress.System.Sound.{Extends, All-mem}

-- The service before its first registration.
abbrev pub empty_system : System
empty_system = record { db = record { users = []; outbox = []; next_id = 1 }; acked = [] }

module _ (std : Std) (codec : Codec UserRegisteredData) where
  pub empty-IsSound : IsSound std codec empty_system
  empty-IsSound = record {
    valid = record { fresh = tt; ordered = tt; event_ids = tt; user_ids = tt; emails = tt };
    published_sent = tt;
    covered = tt;
    rows_real = tt;
    acked_real = tt;
  }

  Step-IsSound : (s t : System) → IsSound std codec s → Step std codec s t → IsSound std codec t
  Step-IsSound s t h (register _ p machine cmd restores) =
      registered-IsSound std codec s h p machine cmd restores
  Step-IsSound s t h (relay _ server uc readings restores grabs) =
      relayed-IsSound std codec s h server uc readings restores grabs
  Step-IsSound s t h (purge _ server retention limit) =
      purged-IsSound std codec s h server retention limit

  -- From a sound state every sequence of registrations, relay passes and pages of the purge, each
  -- successful or not, leads to sound states: the tables are valid, every published row has been
  -- acknowledged, the event of every user is in the outbox or has been acknowledged, and every row
  -- and every acknowledged message announces a user of the table.
  pub Reach-IsSound :
      (s t : System) → IsSound std codec s → Reach std codec s t → IsSound std codec t
  Reach-IsSound s t h here = h
  Reach-IsSound s t h (next {s = u} run step) = Step-IsSound u t (Reach-IsSound s u h run) step

  Step-Extends : (s t : System) → IsSound std codec s → Step std codec s t → Extends s.acked t.acked
  unfolding registered purged
  Step-Extends s t h (register _ p machine cmd restores) = λ m k. k
  Step-Extends s t h (relay _ server uc readings restores grabs) =
      relayed-Extends std codec s h server uc readings restores grabs
  Step-Extends s t h (purge _ server retention limit) = λ m k. k

  -- No message that the broker has acknowledged is taken back by a later step.
  pub Reach-Extends :
      (s t : System) → IsSound std codec s → Reach std codec s t → Extends s.acked t.acked
  Reach-Extends s t h here = λ m k. k
  Reach-Extends s t h (next {s = u} run step) =
      λ m k. Step-Extends u t (Reach-IsSound s u h run) step m (Reach-Extends s u h run m k)

  -- Where the event of a user is: with the broker, or in a row that a pass or an operator has to
  -- deal with.
  abbrev pub IsAccounted : System → UserRow → Type 0
  IsAccounted s u =
      (e : Envelope) × Announces std codec u e
      × (IsSent std codec s.acked e
          ⊎ ((r : OutboxRow) × Memᴰ r s.db.outbox
              × (r.envelope ≡ e)
              × ((r.status ≡ pending) ⊎ (r.status ≡ failed))))

  pub IsCovered-IsAccounted :
      (s : System) → IsSound std codec s → (u : UserRow) → IsCovered std codec s u → IsAccounted s u
  IsCovered-IsAccounted s h u (e, announces, inr sent) = (e, announces, inl sent)
  IsCovered-IsAccounted s h u (e, announces, inl row) =
      let (r, mem, same) = of_map (λ r. r.envelope) s.db.outbox row in
      let as_published =
        All-mem (λ r. r.status ≡ published → IsSent std codec s.acked r.envelope) mem
          h.published_sent in
      (e, announces, go r mem same as_published r.status refl)
    where
      go :
          (r : OutboxRow)
          → Memᴰ r s.db.outbox
          → r.envelope ≡ e
          → (r.status ≡ published → IsSent std codec s.acked r.envelope)
          → (status : Status) → r.status ≡ status
          → IsSent std codec s.acked e
            ⊎ ((r : OutboxRow) × Memᴰ r s.db.outbox
                × (r.envelope ≡ e)
                × ((r.status ≡ pending) ⊎ (r.status ≡ failed)))
      go r mem same sent pending is = inr (r, mem, same, inl is)
      go r mem same sent failed is = inr (r, mem, same, inr is)
      go r mem same sent published is = inl (subst (IsSent std codec s.acked) same (sent is))

  -- No event is lost: from the empty service on, whatever fails on the way, each user that is in the
  -- table has an envelope that carries its registration and that the broker has acknowledged as a
  -- message or a pending or failed row of the outbox still holds.
  pub no_event_lost : (s : System) → Reach std codec empty_system s → All (IsAccounted s) s.db.users
  no_event_lost s run =
      let sound = Reach-IsSound empty_system s empty-IsSound run in
      All-imp (IsCovered std codec s) (IsAccounted s) (IsCovered-IsAccounted s sound) s.db.users
        sound.covered
