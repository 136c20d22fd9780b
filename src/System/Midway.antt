-- ===== src/System/Midway.antt =====
-- What holds of the service between two marks of a pass.
use outboxexpress.Common.{
  ℕ, ◌≡◌, refl, sym, ◌∙◌, ◌⊎◌, inl, inr, List, [], ◌∷◌, ◌++◌, All, All-imp, All-append,
  Option-cases, Bool-cases, ◌==◌, String,
}
use outboxexpress.Domain.Std.{Std}
use outboxexpress.Messaging.{Message, Codec}
use outboxexpress.Envelope.{Envelope, UserRegisteredData}
use outboxexpress.Outbox.{
  OutboxRow, PendingMessage, published, as_published, as_rescheduled, as_failed,
}
use outboxexpress.Outbox.Table.{update_where, affected}
use outboxexpress.Postgres.Db.{Db, Server, Statement, rollback}
use outboxexpress.Postgres.RelayOutbox.{mark_one, claim_pending}
use outboxexpress.Postgres.Valid.{
  Grown, Grown-refl, Grown-trans, rollback-Grown, Keeps, update_where-Grown,
}
use outboxexpress.Publish.{message}
use outboxexpress.System.{System, IsSent, HasUser, Sends, IsSound, envelopes}
use outboxexpress.System.Sound.{
  Extends, Extends-append, All-update_where_at, envelopes-update_where,
}

pub as_published-Keeps : (now : _) → Keeps (as_published now)
unfolding as_published
as_published-Keeps now = record { same_id = λ r. refl; same_envelope = λ r. refl }

pub as_rescheduled-Keeps : (at : _) (reason : String) → Keeps (as_rescheduled at reason)
unfolding as_rescheduled
as_rescheduled-Keeps at reason = record { same_id = λ r. refl; same_envelope = λ r. refl }

pub as_failed-Keeps : (reason : String) → Keeps (as_failed reason)
unfolding as_failed
as_failed-Keeps reason = record { same_id = λ r. refl; same_envelope = λ r. refl }

-- A mark has written its rows or nothing, whatever it reports.
pub mark_one-cases :
    (std : Std) (server : Server) (statement : Statement) (what : String) (id : ℕ)
    (write : OutboxRow → OutboxRow) (s : Db)
    → let t = (mark_one std server statement what id write s).1 in
      (t ≡ s) ⊎ (t ≡ record s { outbox = update_where id write s.outbox })
unfolding mark_one
mark_one-cases std server statement what id write s =
    elim (Option-cases (server.fault statement s)) [
      | inr (e, broken) ↦ inl (rw (mark_one, broken) refl)
      | inl runs ↦ elim (Bool-cases (affected id s.outbox == 1)) [
        | inl one ↦ inr (rw (mark_one, runs, one) refl)
        | inr other ↦ inr (rw (mark_one, runs, other) refl)
      ]
    ]

pub claim_pending-state :
    (std : Std) (server : Server) (limit : ℕ) (s : Db) → (claim_pending std server limit s).1 ≡ s
unfolding claim_pending
claim_pending-state std server limit s =
    elim (Option-cases (server.fault (Statement.claim limit) s)) [
      | inr (e, broken) ↦ rw (claim_pending, broken) refl
      | inl runs ↦ rw (claim_pending, runs) refl
    ]

module _ (std : Std) (codec : Codec UserRegisteredData) (s : System)
    (sound : IsSound std codec s) where
  -- A claimed row: the tables hold its envelope under its id, and it announces a user.
  pub record Own (p : PendingMessage) : Type 0 where
    pub named : All (λ r. r.id ≡ p.id → r.envelope ≡ p.envelope) s.db.outbox
    pub user : HasUser std codec s.db.users p.envelope

  -- The tables and the acknowledged messages at some point of the pass.
  pub record Mid (t : Db) (a : List Message) : Type 0 where
    pub grown : Grown s.db t
    pub users : t.users ≡ s.db.users
    pub kept : envelopes t.outbox ≡ envelopes s.db.outbox
    pub extends : Extends s.acked a
    pub sent : All (λ r. r.status ≡ published → IsSent std codec a r.envelope) t.outbox
    pub real : All (λ m. (e : Envelope) × Sends std codec e m × HasUser std codec s.db.users e) a
    pub named :
        (p : PendingMessage) → Own p → All (λ r. r.id ≡ p.id → r.envelope ≡ p.envelope) t.outbox

  pub IsSent-Extends :
      (a b : List Message) (e : Envelope)
      → Extends a b
      → IsSent std codec a e
      → IsSent std codec b e
  IsSent-Extends a b e more (m, mem, sends) = (m, more m mem, sends)

  pub Mid-start : Mid s.db s.acked
  Mid-start = record {
    grown = Grown-refl s.db sound.valid;
    users = refl;
    kept = refl;
    extends = λ m h. h;
    sent = sound.published_sent;
    real = sound.acked_real;
    named = λ p own. own.named;
  }

  pub Mid-rollback : (t : Db) (a : List Message) → Mid t a → Mid (rollback s.db t) a
  Mid-rollback t a h = record {
    grown = rollback-Grown s.db t sound.valid (h.grown).ahead;
    users = refl;
    kept = refl;
    extends = h.extends;
    sent =
        All-imp (λ r. r.status ≡ published → IsSent std codec s.acked r.envelope)
          (λ r. r.status ≡ published → IsSent std codec a r.envelope)
          (λ r k is. IsSent-Extends s.acked a r.envelope h.extends (k is)) s.db.outbox
          sound.published_sent;
    real = h.real;
    named = λ p own. own.named;
  }

  -- What a write needs: a row that it publishes has been acknowledged.
  pub Mid-write :
      (id : ℕ) (f : OutboxRow → OutboxRow) (t : Db) (a : List Message)
      → Keeps f
      → All (λ r. r.id ≡ id → (f r).status ≡ published → IsSent std codec a (f r).envelope) t.outbox
      → Mid t a
      → Mid (record t { outbox = update_where id f t.outbox }) a
  Mid-write id f t a k written h = record {
    grown = Grown-trans s.db t _ h.grown (update_where-Grown id f t k (h.grown).valid);
    users = h.users;
    kept = envelopes-update_where id f t.outbox k ∙ h.kept;
    extends = h.extends;
    sent =
        All-update_where_at (λ r. r.status ≡ published → IsSent std codec a r.envelope) id f
          t.outbox written h.sent;
    real = h.real;
    named = λ p own.
        All-update_where_at (λ r. r.id ≡ p.id → r.envelope ≡ p.envelope) id f t.outbox
          (All-imp (λ r. r.id ≡ p.id → r.envelope ≡ p.envelope)
            (λ r. r.id ≡ id → (f r).id ≡ p.id → (f r).envelope ≡ p.envelope)
            (λ r n _ e. k.same_envelope r ∙ n (sym (k.same_id r) ∙ e)) t.outbox (h.named p own))
          (h.named p own);
  }

  pub Mid-send :
      (p : PendingMessage) (topic : String) (t : Db) (a : List Message)
      → Own p
      → Mid t a
      → Mid t (a ++ message std topic p ∷ [])
  unfolding message
  Mid-send p topic t a own h =
      let more = Extends-append a (message std topic p ∷ []) in
      record {
        grown = h.grown;
        users = h.users;
        kept = h.kept;
        extends = λ m k. more m (h.extends m k);
        sent =
            All-imp (λ r. r.status ≡ published → IsSent std codec a r.envelope)
              (λ r.
                r.status ≡ published → IsSent std codec (a ++ message std topic p ∷ []) r.envelope)
              (λ r k is. IsSent-Extends a _ r.envelope more (k is)) t.outbox h.sent;
        real =
            All-append (λ m. (e : Envelope) × Sends std codec e m × HasUser std codec s.db.users e)
              a _
              (
                (
                  p.envelope,
                  record {
                    same_event = refl;
                    same_type = refl;
                    same_version = refl;
                    same_key = refl;
                    same_payload = refl;
                  },
                  own.user,
                ),
                tt,
              )
              h.real;
        named = h.named;
      }
