-- ===== src/Postgres/Purge/Laws.antt =====
-- OutboxPurger keeps the contract of the purge loop's port.
use outboxexpress.Common.{
  ℕ, zero, suc, ◌+◌, ◌≡◌, ◌≢◌, refl, sym, ap, ◌∙◌, ◌<◌, ◌≤◌, ◌-◌, ◌⊎◌, inl, inr, Bool, true, false,
  not, none, some, List, [], ◌∷◌, filter, count_if, length, sort_by_sorted, filter-Pairs,
  filter-keeps, Pairs, arith, if◌then◌else◌, Bool-cases, take, map, subst,
}
use outboxexpress.Common.Int.{ℤ}
use outboxexpress.Errors.{Error, ok, err}
use outboxexpress.Outbox.{OutboxRow}
use outboxexpress.Outbox.Table.{find}
use outboxexpress.Purge.Loop.{PurgerLaws}
use outboxexpress.Postgres.Db.{Db, Server, IsValid}
use outboxexpress.Postgres.RelayOutbox.Laws.{row}
use outboxexpress.Postgres.Purge.{is_expired, is_in, page_ids, purge_published, outbox_purger}
use outboxexpress.Postgres.Purge.Delete.{without_first, delete-without_first, delete_in, ids_of}

length-delete :
    (p : OutboxRow → Bool) (rows : List OutboxRow)
    → length rows ≡ length (filter (λ r. not (p r)) rows) + count_if p rows
length-delete p [] = refl
length-delete p (r ∷ rs) = ground (arith, length-delete p rs)

module _ (expired : OutboxRow → Bool) where
  find-without_first :
      (n : ℕ) (rows : List OutboxRow) (id : ℕ) (r : OutboxRow)
      → find rows id ≡ some r
      → (find (without_first expired n rows) id ≡ some r) ⊎ (expired r ≡ true)
  unfolding find without_first
  find-without_first zero rows id r h = inl h
  find-without_first (suc n) [] id r h = cc
  find-without_first (suc n) (q ∷ qs) id r h =
      ground (arith, find-without_first n qs id r, find-without_first (suc n) qs id r)

  length-without_first-le :
      (n : ℕ) (rows : List OutboxRow) → length (without_first expired n rows) ≤ length rows
  unfolding without_first
  length-without_first-le zero rows = omega arith
  length-without_first-le (suc n) [] = omega arith
  length-without_first-le (suc n) (q ∷ qs) =
      ground (arith, length-without_first-le n qs, length-without_first-le (suc n) qs)

  without_first_exhausts :
      (n : ℕ) (rows : List OutboxRow) (k id : ℕ) (r : OutboxRow)
      → length rows ≡ length (without_first expired n rows) + k
      → k < n
      → find (without_first expired n rows) id ≡ some r
      → expired r ≡ false
  unfolding find without_first
  without_first_exhausts zero rows k id r counted short h = absurd (omega arith)
  without_first_exhausts (suc n) [] k id r counted short h = cc
  without_first_exhausts (suc n) (q ∷ qs) k id r counted short h = elim (Bool-cases (expired q)) [
    | inl e ↦ ground (arith, length-without_first-le n qs, without_first_exhausts n qs (k - 1) id r)
    | inr e ↦ ground (arith, without_first_exhausts (suc n) qs k id r)
  ]

find-delete_in :
    (ids : List ℕ) (rows : List OutboxRow) (id : ℕ)
    → find (delete_in ids rows) id ≡ (if is_in id ids then none else find rows id)
unfolding find
find-delete_in ids [] id = ground arith
find-delete_in ids (q ∷ qs) id = ground (arith, find-delete_in ids qs id)

module _ (server : Server) (retention : ℤ) where
  abbrev pub expired : OutboxRow → Bool
  expired = is_expired server.now retention

  pub purge_published-eq-ok :
      (limit : ℕ) (s t : Db) (k : ℕ)
      → purge_published server retention limit s ≡ (ok k, t)
      → (t ≡ record s { outbox = delete_in (page_ids expired limit s.outbox) s.outbox })
        × (k ≡ count_if (λ r. is_in r.id (page_ids expired limit s.outbox)) s.outbox)
  unfolding purge_published
  purge_published-eq-ok limit s t k h = ground arith

  page_ids-ordered :
      (limit : ℕ) (rows : List OutboxRow)
      → Pairs (λ r q. r.id < q.id) rows
      → page_ids expired limit rows ≡ ids_of expired limit rows
  unfolding page_ids
  page_ids-ordered limit rows h =
      ap (λ (rows : List OutboxRow). map (λ r. r.id) (take limit rows))
        (sort_by_sorted (λ r. r.id) (filter expired rows)
          (filter-Pairs (λ r q. r.id < q.id) expired rows h))

  left-without_first :
      (limit : ℕ) (s t : Db) (k : ℕ)
      → Pairs (λ r q. r.id < q.id) s.outbox
      → t ≡ record s { outbox = delete_in (page_ids expired limit s.outbox) s.outbox }
      → t.outbox ≡ without_first expired limit s.outbox
  left-without_first limit s t k ordered same =
      ap (λ d. d.outbox) same
      ∙ ap (λ ids. delete_in ids s.outbox) (page_ids-ordered limit s.outbox ordered)
      ∙ delete-without_first expired limit s.outbox ordered

  purge-counts :
      (limit : ℕ) (s t : Db) (k : ℕ)
      → purge_published server retention limit s ≡ (ok k, t)
      → length s.outbox ≡ length t.outbox + k
  purge-counts limit s t k h =
      let (same, count) = purge_published-eq-ok limit s t k h in
      length-delete (λ r. is_in r.id (page_ids expired limit s.outbox)) s.outbox
      ∙ sym (
          ap (λ (d : Db). length d.outbox + k) same
          ∙ ap (λ n. length (delete_in (page_ids expired limit s.outbox) s.outbox) + n) count)

  purge-only :
      (limit : ℕ) (s t : Db) (k id : ℕ) (r : OutboxRow)
      → purge_published server retention limit s ≡ (ok k, t)
      → row t id ≡ some r
      → row s id ≡ some r
  purge-only limit s t k id r h f =
      let (same, count) = purge_published-eq-ok limit s t k h in
      let deleted = find-delete_in (page_ids expired limit s.outbox) s.outbox id in
      ground (arith, deleted, sym (ap (λ (d : Db). find d.outbox id) same) ∙ f)

  purge-exhausts :
      (limit : ℕ) (s t : Db) (k id : ℕ) (r : OutboxRow)
      → Pairs (λ r q. r.id < q.id) s.outbox
      → purge_published server retention limit s ≡ (ok k, t)
      → k < limit
      → row t id ≡ some r
      → expired r ≡ false
  purge-exhausts limit s t k id r ordered h short f =
      let (same, count) = purge_published-eq-ok limit s t k h in
      let left = left-without_first limit s t k ordered same in
      without_first_exhausts expired limit s.outbox k id r
        (subst (λ rows. length s.outbox ≡ length rows + k) left (purge-counts limit s t k h)) short
        (subst (λ rows. find rows id ≡ some r) left f)

  purge-refused :
      (limit : ℕ) (s t : Db) (e : Error)
      → purge_published server retention limit s ≡ (err e, t)
      → t ≡ s
  unfolding purge_published
  purge-refused limit s t e h = ground arith

  delete-IsValid :
      (ids : List ℕ) (s : Db) → IsValid s → IsValid (record s { outbox = delete_in ids s.outbox })
  delete-IsValid ids s v = record {
    fresh = filter-keeps (λ r. r.id < s.next_id) _ s.outbox v.fresh;
    ordered = filter-Pairs (λ r q. r.id < q.id) _ s.outbox v.ordered;
    event_ids =
        filter-Pairs (λ r q. r.envelope.event_id ≢ q.envelope.event_id) _ s.outbox v.event_ids;
    user_ids = v.user_ids;
    emails = v.emails;
  }

  pub outbox_purger-PurgerLaws :
      PurgerLaws
        (outbox_purger server)
        retention
        IsValid
        (λ db. length db.outbox)
        row
        (λ r. is_expired server.now retention r ≡ true)
  outbox_purger-PurgerLaws = record {
    page_deletes = λ limit s t k v h.
        let (same, count) = purge_published-eq-ok limit s t k h in
        (
          subst IsValid (sym same) (delete-IsValid (page_ids expired limit s.outbox) s v),
          purge-counts limit s t k h,
          (λ id r f. purge-only limit s t k id r h f),
          λ id r f.
              subst (λ rows. (find rows id ≡ some r) ⊎ (expired r ≡ true))
                (sym (left-without_first limit s t k v.ordered same))
                (find-without_first expired limit s.outbox id r f),
        );
    page_exhausts = λ limit s t k v h short id r f old.
        cc (purge-exhausts limit s t k id r v.ordered h short f);
    page_refused = purge-refused;
  }
