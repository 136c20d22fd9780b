-- ===== src/System/Relaying.antt =====
-- A pass of the relay, whether it succeeds or fails, keeps the service sound.
use mathlib.Core.List.{Memᴰ}
use mathlib.Core.List.Memᴰ.{append_right}
use outboxexpress.Common.{
  ℕ, ◌≡◌, refl, sym, ap, ◌∙◌, inl, inr, some, List, [], ◌∷◌, ◌++◌, All, All-imp, subst, String,
}
use outboxexpress.Domain.Std.{Std}
use outboxexpress.Messaging.{Message, Codec}
use outboxexpress.Envelope.{Envelope, UserRegisteredData}
use outboxexpress.Outbox.{
  OutboxRow, PendingMessage, Status, IsDue, published, as_published, as_rescheduled, as_failed,
}
use outboxexpress.Outbox.Table.{Pairs-ne, find, find_self, update_where}
use outboxexpress.Errors.{ok}
use outboxexpress.Postgres.Db.{Db, Server, Grabs, Statement}
use outboxexpress.Postgres.RelayOutbox.{mark_one, claim_pending, relay_outbox}
use outboxexpress.Postgres.RelayOutbox.Laws.{relay_outbox-RepositoryLaws}
use outboxexpress.Publish.{PublishPendingBatch, message}
use outboxexpress.Publish.Keeps.{IsKept, execute-keeps}
use outboxexpress.System.{
  System, relayed, relay_on, Restores, IsSent, IsCovered, HasUser, Sends, IsSound, envelopes,
}
use outboxexpress.System.Sound.{Extends, All-envelopes, find-All}
use outboxexpress.System.Midway.{
  as_published-Keeps, as_rescheduled-Keeps, as_failed-Keeps, mark_one-cases, claim_pending-state,
  Own, Mid, IsSent-Extends, Mid-start, Mid-rollback, Mid-write, Mid-send,
}

module _ (std : Std) (codec : Codec UserRegisteredData) (s : System)
    (sound : IsSound std codec s) where
  module _ (server : Server) where
    Mid-mark :
        (statement : Statement) (what : String) (id : ℕ) (f : OutboxRow → OutboxRow) (t : Db)
        (a a' : List Message)
        → (Mid std codec s sound) t a'
        → (Mid std codec s sound) (record t { outbox = update_where id f t.outbox }) a'
        → (Mid std codec s sound) (mark_one std server statement what id f t).1 a'
    Mid-mark statement what id f t a a' as_it_was written =
        elim (mark_one-cases std server statement what id f t) [
          | inl same ↦ subst (λ u. (Mid std codec s sound) u a') (sym same) as_it_was
          | inr changed ↦ subst (λ u. (Mid std codec s sound) u a') (sym changed) written
        ]

    module _ (uc : PublishPendingBatch Db) where
      marks-IsKept :
          IsKept std (relay_on std codec server uc) (Mid std codec s sound) (Own std codec s sound)
      unfolding relay_outbox as_failed as_rescheduled as_published message
      marks-IsKept = record {
        published = λ p topic t a own h.
            let b = a ++ message std topic p ∷ [] in
            let sent = (Mid-send std codec s sound) p topic t a own h in
            Mid-mark _ _ p.id (as_published server.now) t a b sent (
              (Mid-write std codec s sound) p.id (as_published server.now) t b
                (as_published-Keeps server.now)
                (All-imp (λ r. r.id ≡ p.id → r.envelope ≡ p.envelope)
                  (λ r. r.id ≡ p.id → published ≡ published → IsSent std codec b r.envelope)
                  (λ r n e _. subst (IsSent std codec b) (sym (n e)) (
                    message std topic p,
                    append_right a (Memᴰ.head refl),
                    record {
                      same_event = refl;
                      same_type = refl;
                      same_version = refl;
                      same_key = refl;
                      same_payload = refl;
                    },
                  ))
                  t.outbox (h.named p own))
                sent);
        rescheduled = λ id at reason t a h. Mid-mark _ _ id (as_rescheduled at reason) t a a h (
            (Mid-write std codec s sound) id (as_rescheduled at reason) t a
              (as_rescheduled-Keeps at reason)
              (All-imp (λ r. r.status ≡ published → IsSent std codec a r.envelope)
                (λ r. r.id ≡ id → r.status ≡ published → IsSent std codec a r.envelope) (λ r k _. k)
                t.outbox h.sent)
              h);
        failed = λ id reason t a h. Mid-mark _ _ id (as_failed reason) t a a h (
            (Mid-write std codec s sound) id (as_failed reason) t a (as_failed-Keeps reason)
              (All-imp (λ r. r.status ≡ published → IsSent std codec a r.envelope)
                (λ r. r.id ≡ id → Status.failed ≡ published → IsSent std codec a r.envelope)
                (λ r k _ wrong. cc) t.outbox h.sent)
              h);
      }

      claimed-Own :
          Grabs server
          → (limit : ℕ) (batch : List PendingMessage)
          → (claim_pending std server limit s.db).0 ≡ ok batch
          → All (Own std codec s sound) batch
      unfolding relay_outbox
      claimed-Own grabs limit batch h =
          let (_, _, _, due) =
            (relay_outbox-RepositoryLaws std server grabs).claim_reads limit s.db _ batch
              (Pairs-ne s.db.outbox sound.valid.ordered)
              (λ i. (h i, (claim_pending std server limit s.db).1)) in
          All-imp (IsDue (find s.db.outbox) server.now) (Own std codec s sound) owned batch due
        where
          owned :
              (p : PendingMessage)
              → IsDue (find s.db.outbox) server.now p
              → (Own std codec s sound) p
          owned p d = record {
            named =
                All-imp (λ r. find s.db.outbox r.id ≡ some r)
                  (λ r. r.id ≡ p.id → r.envelope ≡ p.envelope)
                  (λ r self e.
                    let same : some r ≡ some d.source =
                      sym self ∙ ap (find s.db.outbox) e ∙ d.stored in
                    let same' : r ≡ d.source = cc in
                    ap (λ (q : OutboxRow). q.envelope) same'
                    ∙ sym (ap (λ (q : PendingMessage). q.envelope) d.scanned))
                  s.db.outbox (find_self s.db.outbox (sound.valid).ordered);
            user =
                subst (HasUser std codec s.db.users)
                  (sym (ap (λ (q : PendingMessage). q.envelope) d.scanned))
                  (find-All (λ r. HasUser std codec s.db.users r.envelope) s.db.outbox p.id d.source
                    (All-envelopes (HasUser std codec s.db.users) s.db.outbox sound.rows_real)
                    d.stored);
          }

      relayed-Mid :
          (readings : ℕ)
          → Restores std codec uc.uow
          → Grabs server
          → let t = relayed std codec server uc readings s in (Mid std codec s sound) t.db t.acked
      unfolding relayed relay_outbox claim_pending
      relayed-Mid readings restores grabs =
          execute-keeps std (relay_on std codec server uc) (Mid std codec s sound)
            (Own std codec s sound) marks-IsKept s.acked readings s.db
            (claimed-Own grabs uc.policy.batch_size)
            (subst (λ t. (Mid std codec s sound) t s.acked)
              (sym (claim_pending-state std server uc.policy.batch_size s.db))
              (Mid-start std codec s sound))
            (Mid-start std codec s sound)
            (λ t a h.
              subst (λ u. (Mid std codec s sound) u a) (sym (restores s.db t))
                ((Mid-rollback std codec s sound) t a h))

  Mid-IsSound : (t : System) → (Mid std codec s sound) t.db t.acked → IsSound std codec t
  Mid-IsSound t h = record {
    valid = (h.grown).valid;
    published_sent = h.sent;
    covered = subst (All (IsCovered std codec t)) (sym h.users) (
        All-imp (IsCovered std codec s) (IsCovered std codec t) (λ u c. still u c) s.db.users
          sound.covered);
    rows_real =
        subst (λ us. All (HasUser std codec us) (envelopes t.db.outbox)) (sym h.users)
          (subst (All (HasUser std codec s.db.users)) (sym h.kept) sound.rows_real);
    acked_real =
        subst
          (λ us. All (λ m. (e : Envelope) × Sends std codec e m × HasUser std codec us e) t.acked)
          (sym h.users) h.real;
  }
    where
      still : (u : _) → IsCovered std codec s u → IsCovered std codec t u
      still u (e, announces, inl row) = (e, announces, inl (subst (Memᴰ e) (sym h.kept) row))
      still u (e, announces, inr sent) =
          (e, announces, inr ((IsSent-Extends std codec s sound) s.acked t.acked e h.extends sent))

  -- A pass keeps the service sound, whatever it returns.
  pub relayed-IsSound :
      (server : Server) (uc : PublishPendingBatch Db) (readings : ℕ)
      → Restores std codec uc.uow
      → Grabs server
      → IsSound std codec (relayed std codec server uc readings s)
  relayed-IsSound server uc readings restores grabs =
      Mid-IsSound _ (relayed-Mid server uc readings restores grabs)

  -- A pass forgets no acknowledged message.
  pub relayed-Extends :
      (server : Server) (uc : PublishPendingBatch Db) (readings : ℕ)
      → Restores std codec uc.uow
      → Grabs server
      → Extends s.acked (relayed std codec server uc readings s).acked
  relayed-Extends server uc readings restores grabs =
      (relayed-Mid server uc readings restores grabs).extends
