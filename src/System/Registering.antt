-- ===== src/System/Registering.antt =====
-- A registration, whether it succeeds or fails, keeps the service sound.
use mathlib.Core.List.{Memᴰ}
use mathlib.Core.List.Memᴰ.{append_left, append_right}
use outboxexpress.Common.{
  ℕ, suc, ◌≡◌, refl, sym, ap, inl, inr, List, [], ◌∷◌, ◌++◌, All, All-imp, All-append, subst, false,
}
use outboxexpress.Common.Int.{ℤ}
use outboxexpress.Domain.Std.{Std}
use outboxexpress.Domain.User.{User}
use outboxexpress.Register.Adding.{Adds}
use outboxexpress.Errors.{Result, Result-cases}
use outboxexpress.Messaging.{Codec}
use outboxexpress.Envelope.{Envelope, UserRegisteredData}
use outboxexpress.Outbox.{OutboxRow, published}
use outboxexpress.Postgres.Db.{
  Db, UserRow, IsValid, as_stored, new_row, has_user_id, has_email, has_event_id,
}
use outboxexpress.Postgres.Uow.{UnitOfWork, user_row}
use outboxexpress.Postgres.Valid.{appended_user, appended_row}
use outboxexpress.Register.{RegisterUserCommand, Machine, World, execute}
use outboxexpress.Register.Atomic.{register_atomic, register_failed}
use outboxexpress.Register.Valid.{execute-Grown}
use outboxexpress.System.{
  System, Producing, unit_of_work, registered, Restores, IsSent, IsCovered, HasUser, Announces,
  Sends, IsSound, envelopes,
}

envelopes-append :
    (rows : List OutboxRow) (r : OutboxRow)
    → envelopes (rows ++ r ∷ []) ≡ envelopes rows ++ r.envelope ∷ []
envelopes-append [] r = refl
envelopes-append (q ∷ qs) r = ap (◌∷◌ q.envelope) (envelopes-append qs r)

module _ (std : Std) (codec : Codec UserRegisteredData) (s : System)
    (sound : IsSound std codec s) where
  HasUser-append :
      (us : List UserRow) (u : UserRow) (e : Envelope)
      → HasUser std codec us e
      → HasUser std codec (us ++ u ∷ []) e
  HasUser-append us u e (v, mem, announces) = (v, append_left (u ∷ []) mem, announces)

  -- The service after a user and the row that announces it have been added.
  with_user : UserRow → ℤ → Envelope → System
  with_user u now e = record s {
    db = record {
      users = s.db.users ++ u ∷ [];
      outbox = s.db.outbox ++ new_row s.db.next_id now e ∷ [];
      next_id = suc s.db.next_id;
    };
  }

  with_user-IsSound :
      (u : UserRow) (now : ℤ) (e : Envelope)
      → has_user_id u.id s.db.users ≡ false
      → has_email u.email s.db.users ≡ false
      → has_event_id e.event_id s.db.outbox ≡ false
      → Announces std codec u e
      → IsSound std codec (with_user u now e)
  unfolding with_user new_row
  with_user-IsSound u now e id email event announces = record {
    valid =
        appended_row now e (record s.db { users = s.db.users ++ u ∷ [] }) event
          (appended_user u s.db id email sound.valid);
    published_sent =
        All-append (λ r. r.status ≡ published → IsSent std codec s.acked r.envelope) s.db.outbox _
          ((λ wrong. cc), tt) sound.published_sent;
    covered =
        All-append (IsCovered std codec (with_user u now e)) s.db.users _
          (
            (
              e,
              announces,
              inl (
                  subst (Memᴰ e) (sym more)
                    (append_right (envelopes s.db.outbox) (Memᴰ.head refl))),
            ),
            tt,
          )
          (All-imp (IsCovered std codec s) (IsCovered std codec (with_user u now e))
            (λ v c. still v c) s.db.users sound.covered);
    rows_real = subst (All (HasUser std codec (s.db.users ++ u ∷ []))) (sym more) (
        All-append (HasUser std codec (s.db.users ++ u ∷ [])) (envelopes s.db.outbox) _
          ((u, append_right s.db.users (Memᴰ.head refl), announces), tt)
          (All-imp (HasUser std codec s.db.users) (HasUser std codec (s.db.users ++ u ∷ []))
            (λ f. HasUser-append s.db.users u f) (envelopes s.db.outbox) sound.rows_real));
    acked_real =
        All-imp (λ m. (f : Envelope) × Sends std codec f m × HasUser std codec s.db.users f)
          (λ m. (f : Envelope) × Sends std codec f m × HasUser std codec (s.db.users ++ u ∷ []) f)
          (λ m (f, sends, has). (f, sends, HasUser-append s.db.users u f has)) s.acked
          sound.acked_real;
  }
    where
      more :
          envelopes (s.db.outbox ++ new_row s.db.next_id now e ∷ [])
          ≡ envelopes s.db.outbox ++ e ∷ []
      more = envelopes-append s.db.outbox (new_row s.db.next_id now e)

      still : (v : UserRow) → IsCovered std codec s v → IsCovered std codec (with_user u now e) v
      still v (f, k, inl row) = (f, k, inl (subst (Memᴰ f) (sym more) (append_left (e ∷ []) row)))
      still v (f, k, inr sent) = (f, k, inr sent)

  -- Nothing but the sequence has moved.
  unchanged-IsSound :
      (t : Db)
      → t.users ≡ s.db.users
      → t.outbox ≡ s.db.outbox
      → IsValid t
      → IsSound std codec (record s { db = t })
  unchanged-IsSound t users outbox v =
      subst
        (λ (p : List UserRow × List OutboxRow).
          IsValid (record { users = p.0; outbox = p.1; next_id = t.next_id })
          → IsSound std codec
              (record s { db = record { users = p.0; outbox = p.1; next_id = t.next_id } }))
        (λ i. (sym users i, sym outbox i)) same v
    where
      same :
          IsValid (record s.db { next_id = t.next_id })
          → IsSound std codec (record s { db = record s.db { next_id = t.next_id } })
      same k = record {
        valid = k;
        published_sent = sound.published_sent;
        covered = sound.covered;
        rows_real = sound.rows_real;
        acked_real = sound.acked_real;
      }

  -- A registration keeps the service sound, whatever it answers.
  pub registered-IsSound :
      (p : Producing) (machine : Machine) (cmd : RegisterUserCommand)
      → Restores std codec p.tx
      → IsSound std codec (registered std codec p machine cmd s)
  unfolding registered with_user new_row
  registered-IsSound p machine cmd restores = elim (Result-cases out.0) [
    | inr (e, failed) ↦
        elim (register_failed std uow machine cmd world (out.1) e restores
          (λ i. (failed i, out.1))).1 [
            | inl (users, outbox) ↦
                unchanged-IsSound (out.1).db users outbox
                  (execute-Grown std uow machine cmd world restores sound.valid).valid
            | inr (_, (_, u, _, _, adds)) ↦ added u adds
          ]
    | inl (id, done) ↦
        let (u, registered, adds, _) =
          register_atomic std uow machine cmd world (out.1) id (λ i. (done i, out.1)) in
        added u adds
  ]
    where
      uow : UnitOfWork
      uow = unit_of_work std codec p

      world : World
      world = record { db = s.db; notified = 0 }

      out : Result ℕ × World
      out = execute std uow machine cmd world

      added :
          (u : User)
          → Adds std uow cmd.meta u s.db (out.1).db
          → IsSound std codec (record s { db = (out.1).db })
      added u adds =
          subst (λ t. IsSound std codec (record s { db = t }))
            (λ i. record {
              users = sym adds.users i;
              outbox = sym adds.outbox i;
              next_id = sym adds.next_id i;
            })
            (with_user-IsSound (user_row u) p.server.now (as_stored std adds.envelope) adds.new_user
              adds.new_email adds.new_event
              (record {
                user = u;
                stored = refl;
                ids = p.ids;
                meta = cmd.meta;
                made = adds.envelope;
                carries = adds.carries;
                kept = refl;
              }))
