-- ===== src/System/Purging.antt =====
-- A page of the purge keeps the service sound: only events that the broker has are deleted.
use mathlib.Core.List.{Memᴰ}
use mathlib.Core.List.Memᴰ.{of_map}
use mathlib.Core.List.Memᴰ.{map as map_mem}
use outboxexpress.Common.{
  ℕ, ◌≡◌, sym, ap, ◌⊎◌, inl, inr, All, All-imp, All-map, subst, true, some, arith, Pairs, ◌<◌,
}
use outboxexpress.Common.Int.{ℤ}
use outboxexpress.Domain.Std.{Std}
use outboxexpress.Errors.{Result, ok, Result-cases}
use outboxexpress.Messaging.{Codec}
use outboxexpress.Envelope.{Envelope, UserRegisteredData}
use outboxexpress.Outbox.{OutboxRow, published}
use outboxexpress.Outbox.Table.{find, find_self}
use outboxexpress.Postgres.Db.{Db, UserRow, Server}
use outboxexpress.Postgres.Purge.{is_expired, purge_published}
use outboxexpress.Postgres.Purge.Laws.{purge_published-eq-ok, outbox_purger-PurgerLaws}
use outboxexpress.System.{System, purged, IsSent, IsCovered, HasUser, Sends, IsSound, envelopes}
use outboxexpress.System.Sound.{All-mem, All-envelopes, find-All, find-Memᴰ}

is_expired-published :
    (now retention : ℤ) (r : OutboxRow) → is_expired now retention r ≡ true → r.status ≡ published
unfolding is_expired
is_expired-published now retention r h = ground arith

module _ (std : Std) (codec : Codec UserRegisteredData) (s : System) (sound : IsSound std codec s)
    (server : Server) (retention : ℤ) where
  page-IsSound :
      (limit k : ℕ) (t : Db)
      → purge_published server retention limit s.db ≡ (ok k, t)
      → IsSound std codec (record s { db = t })
  page-IsSound limit k t h =
      let (v, _, only, lost) =
        (outbox_purger-PurgerLaws server retention).page_deletes limit s.db t k sound.valid h in
      let (same, _) = purge_published-eq-ok server retention limit s.db t k h in
      let users : s.db.users ≡ t.users = sym (ap (λ (d : Db). d.users) same) in
      let Old : OutboxRow → Type 0 =
        λ r. (r.status ≡ published → IsSent std codec s.acked r.envelope) in
      record {
        valid = v;
        published_sent = from_old t only Old sound.published_sent v.ordered;
        covered = subst (All (IsCovered std codec (record s { db = t }))) users (
            All-imp (IsCovered std codec s) (IsCovered std codec (record s { db = t }))
              (still t lost) s.db.users sound.covered);
        rows_real =
            All-map (HasUser std codec t.users) (λ r. r.envelope) t.outbox
              (subst (λ us. All (λ r. HasUser std codec us r.envelope) t.outbox) users
                (from_old t only (λ r. HasUser std codec s.db.users r.envelope)
                  (All-envelopes (HasUser std codec s.db.users) s.db.outbox sound.rows_real)
                  v.ordered));
        acked_real =
            subst
              (λ us.
                All (λ m. (e : Envelope) × Sends std codec e m × HasUser std codec us e) s.acked)
              users sound.acked_real;
      }
    where
      from_old :
          (t : Db)
          → ((id : ℕ) (r : OutboxRow) → find t.outbox id ≡ some r → find s.db.outbox id ≡ some r)
          → (P : OutboxRow → Type 0) → All P s.db.outbox
          → Pairs (λ r q. r.id < q.id) t.outbox
          → All P t.outbox
      from_old t only P h ordered =
          All-imp (λ r. find t.outbox r.id ≡ some r) P
            (λ r self. find-All P s.db.outbox r.id r h (only r.id r self)) t.outbox
            (find_self t.outbox ordered)

      still :
          (t : Db)
          → ((id : ℕ) (r : OutboxRow)
              → find s.db.outbox id ≡ some r
              → (find t.outbox id ≡ some r) ⊎ (is_expired server.now retention r ≡ true))
          → (u : UserRow) → IsCovered std codec s u
          → IsCovered std codec (record s { db = t }) u
      still t lost u (e, announces, inr sent) = (e, announces, inr sent)
      still t lost u (e, announces, inl row) =
          let (r, mem, same) = of_map (λ r. r.envelope) s.db.outbox row in
          (
            e,
            announces,
            elim (lost r.id r (
                All-mem (λ r. find s.db.outbox r.id ≡ some r) mem
                  (find_self s.db.outbox (sound.valid).ordered))) [
                    | inl left ↦ inl (
                        subst (λ f. Memᴰ f (envelopes t.outbox)) same
                          (map_mem (λ r. r.envelope) (find-Memᴰ t.outbox r.id r left)))
                    | inr old ↦ inr (
                        subst (IsSent std codec s.acked) same (
                          All-mem (λ r. r.status ≡ published → IsSent std codec s.acked r.envelope)
                            mem sound.published_sent
                            (is_expired-published server.now retention r old)))
                  ],
          )

  -- A page of the purge keeps the service sound, whatever it answers.
  pub purged-IsSound : (limit : ℕ) → IsSound std codec (purged std codec server retention limit s)
  unfolding purged
  purged-IsSound limit = elim (Result-cases out.0) [
    | inl (k, deleted) ↦ page-IsSound limit k (out.1) (λ i. (deleted i, out.1))
    | inr (e, failed) ↦
        subst (λ t. IsSound std codec (record s { db = t }))
          (sym (
            (outbox_purger-PurgerLaws server retention).page_refused limit s.db (out.1) e
              (λ i. (failed i, out.1))))
          sound
  ]
    where
      out : Result ℕ × Db
      out = purge_published server retention limit s.db
