-- ===== src/Purge/Loop.antt =====
-- The purge loop ends, counts what it deletes, and stops only when nothing is left or it is told to.
use outboxexpress.Common.{
  ℕ, zero, suc, ◌+◌, ◌≡◌, refl, ◌<◌, ◌⊎◌, inl, inr, true, false, Option, none, some, ltb, arith,
  Bool-cases, Option-cases, sym, subst,
}
use outboxexpress.Common.Int.{ℤ}
use outboxexpress.Errors.{Error, Result, ok, err}
use outboxexpress.Purge.{OutboxPurger, PurgePublished, PurgeResult, add_page, pages}

-- The contract of the port. `size` counts the rows, `found s id` looks one up as a value of `R`, and
-- `Expired` is what a row must be to be deleted.
pub record PurgerLaws {S R : Type 0} (purger : OutboxPurger S) (retention : ℤ) (valid : S → Type 0)
    (size : S → ℕ) (found : S → ℕ → Option R) (Expired : R → Type 0) : Type 0 where
  pub page_deletes :
      (limit : ℕ) (s t : S) (k : ℕ)
      → valid s
      → purger.purge_published retention limit s ≡ (ok k, t)
      → valid t
        × (size s ≡ size t + k)
        × ((id : ℕ) (r : R) → found t id ≡ some r → found s id ≡ some r)
        × ((id : ℕ) (r : R) → found s id ≡ some r → (found t id ≡ some r) ⊎ Expired r)
  -- a page that comes back short has left nothing to delete
  pub page_exhausts :
      (limit : ℕ) (s t : S) (k : ℕ)
      → valid s
      → purger.purge_published retention limit s ≡ (ok k, t)
      → k < limit
      → (id : ℕ) (r : R) → found t id ≡ some r
      → ¬ Expired r
  pub page_refused :
      (limit : ℕ) (s t : S) (e : Error)
      → purger.purge_published retention limit s ≡ (err e, t)
      → t ≡ s

module _ {S R : Type 0} (purger : OutboxPurger S) (uc : PurgePublished) (ctx : ℕ → Option Error)
    (valid : S → Type 0) (size : S → ℕ) (found : S → ℕ → Option R) (Expired : R → Type 0)
    (laws : PurgerLaws purger uc.retention valid size found Expired) where
  -- What a run of the loop that started at `s` with the counters `res` has done.
  pub record Purged (s : S) (res : PurgeResult) (out : Option Error × PurgeResult × S)
      : Type 0 where
    pub counted : size s + res.deleted ≡ size out.2 + out.1.deleted
    pub only : (id : ℕ) (r : R) → found out.2 id ≡ some r → found s id ≡ some r
    pub lost : (id : ℕ) (r : R) → found s id ≡ some r → (found out.2 id ≡ some r) ⊎ Expired r
    pub emptied : out.0 ≡ none → (id : ℕ) (r : R) → found out.2 id ≡ some r → ¬ Expired r

  open laws use {page_deletes, page_exhausts, page_refused}

  page : S → Result ℕ × S
  page s = purger.purge_published uc.retention uc.batch s

  page-Purged :
      (s t : S) (k : ℕ) (res : PurgeResult) (out : Option Error × PurgeResult × S)
      → valid s
      → page s ≡ (ok k, t)
      → Purged t (add_page k res) out
      → Purged s res out
  unfolding page add_page
  page-Purged s t k res out v h done =
      let (_, counted, only, lost) = page_deletes uc.batch s t k v h in
      record {
        counted = omega (arith, counted, done.counted);
        only = λ id r found_later. only id r (done.only id r found_later);
        lost = λ id r found_first. elim (lost id r found_first) [
          | inl here ↦ done.lost id r here
          | inr old ↦ inr old
        ];
        emptied = done.emptied;
      }

  unchanged : (s : S) (e : Error) (res : PurgeResult) → Purged s res (some e, res, s)
  unchanged s e res = record {
    counted = refl;
    only = λ id r h. h;
    lost = λ id r h. inl h;
    emptied = λ h. cc;
  }

  last_page :
      (s t : S) (k : ℕ) (res : PurgeResult)
      → valid s
      → page s ≡ (ok k, t)
      → k < uc.batch
      → Purged s res (none, add_page k res, t)
  unfolding page
  last_page s t k res v h short =
      page-Purged s t k res (none, add_page k res, t) v h
        (record {
          counted = refl;
          only = λ id r h. h;
          lost = λ id r h. inl h;
          emptied = λ done. page_exhausts uc.batch s t k v h short;
        })

  -- The purge ends with fuel for more pages than the table has rows, when the page size is positive.
  -- Its counter is the number of rows that are gone, every row that is gone was expired, no other row
  -- changed, and when it returns no error, no expired row is left.
  pub pages-Purged :
      (fuel n : ℕ) (res : PurgeResult) (s : S)
      → valid s
      → 0 < uc.batch
      → size s < fuel
      → (out : Option Error × PurgeResult × S) × (pages purger uc ctx fuel n res s ≡ some out)
        × Purged s res out
  unfolding pages page
  pages-Purged zero n res s v some_batch enough = absurd (omega arith)
  pages-Purged (suc fuel) n res s v some_batch enough = elim (Option-cases (ctx n)) [
    | inr (e, ended) ↦ ((some e, res, s), rw (ended, pages) refl, unchanged s e res)
    | inl going ↦
        rw (going, pages)
          (turn (λ k t v' left. pages-Purged fuel (suc n) (add_page k res) t v' some_batch left)
            (page s) refl)
  ]
    where
      turn :
          ((k : ℕ) (t : S)
            → valid t
            → size t < fuel
            → (out : Option Error × PurgeResult × S) × (pages purger uc ctx fuel
                  (suc n)
                  (add_page k res)
                  t
                ≡ some out)
              × Purged t (add_page k res) out)
          → (p : Result ℕ × S) → page s ≡ p
          → (out : Option Error × PurgeResult × S) × ◌≡◌
              {A = Option (Option Error × PurgeResult × S)}
              (elim p.0 [
                | err e ↦ some (some e, res, p.1)
                | ok deleted ↦ elim (ltb deleted uc.batch) [
                  | true ↦ some (none, add_page deleted res, p.1)
                  | false ↦ pages purger uc ctx fuel (suc n) (add_page deleted res) p.1
                ]
              ])
              (some out)
            × Purged s res out
      turn next (err e, t) h = (
        (some e, res, t),
        refl,
        subst (λ t. Purged s res (some e, res, t)) (sym (page_refused uc.batch s t e h))
            (unchanged s e res),
      )
      turn next (ok k, t) h = elim (Bool-cases (ltb k uc.batch)) [
        | inl short ↦
            ((none, add_page k res, t), rw short refl, last_page s t k res v h (ground arith))
        | inr full ↦
            let (v', counted, _, _) = page_deletes uc.batch s t k v h in
            let (out, ran, done) = next k t v' (ground (arith, counted)) in
            (out, rw full ran, page-Purged s t k res out v h done)
      ]
