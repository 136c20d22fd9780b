-- ===== src/Purge.antt =====
-- internal/accounts/application/purge_published.go: the purge loop over the port OutboxPurger. The
-- loop takes fuel, one for each page. The context is a function: what its n-th check answers. The
-- counters are an `int` that counts rows of a table and stays far below 2^63.
pub mod Loop
use outboxexpress.Common.{ℕ, zero, suc, ◌+◌, Bool, true, false, Option, none, some, ltb}
use outboxexpress.Common.Int.{ℤ}
use outboxexpress.Errors.{Error, Result, ok, err}

pub record OutboxPurger (S : Type 0) : Type 0 where
  pub purge_published : ℤ → ℕ → S → Result ℕ × S

pub record PurgePublished : Type 0 where
  pub retention : ℤ
  pub batch : ℕ

pub record PurgeResult : Type 0 where
  pub deleted : ℕ
  pub passes : ℕ

abbrev pub no_pages : PurgeResult
no_pages = record { deleted = 0; passes = 0 }

unfoldable pub add_page : ℕ → PurgeResult → PurgeResult
add_page k res = record { deleted = res.deleted + k; passes = res.passes + 1 }

module _ {S : Type 0} (purger : OutboxPurger S) (uc : PurgePublished) (ctx : ℕ → Option Error) where
  -- The loop from its n-th page on; `none` is that the fuel is used up.
  unfoldable pub pages : ℕ → ℕ → PurgeResult → S → Option (Option Error × PurgeResult × S)
  unfolding add_page
  pages zero n res s = none
  pages (suc fuel) n res s = elim (ctx n) [
    | some e ↦ some (some e, res, s)
    | none ↦
        let (out, t) = purger.purge_published uc.retention uc.batch s in
        elim out [
          | err e ↦ some (some e, res, t)
          | ok deleted ↦ elim (ltb deleted uc.batch) [
            | true ↦ some (none, add_page deleted res, t)
            | false ↦ pages fuel (suc n) (add_page deleted res) t
          ]
        ]
  ]

  unfoldable pub execute : ℕ → S → Option (Option Error × PurgeResult × S)
  unfolding pages
  execute fuel s = pages fuel 0 no_pages s
