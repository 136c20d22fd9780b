-- ===== src/Outbox/Table.antt =====
-- A table of outbox rows: lookup by id, update by id, and the rows that an update leaves.
use outboxexpress.Common.{
  ℕ, suc, ◌≡◌, refl, ◌≢◌, ◌<◌, Option, none, some, List, [], ◌∷◌, arith, ◌==◌, if◌then◌else◌, All,
  All-imp, Pairs, Bool-cases, inl, inr,
}
use outboxexpress.Outbox.{OutboxRow}

-- The row with an id: the first one, and by the primary key the only one.
unfoldable pub find : List OutboxRow → ℕ → Option OutboxRow
find [] id = none
find (r ∷ rs) id = if r.id == id then some r else find rs id

-- UPDATE ... SET ... WHERE id = $1
unfoldable pub update_where : ℕ → (OutboxRow → OutboxRow) → List OutboxRow → List OutboxRow
update_where id f [] = []
update_where id f (r ∷ rs) =
    let rest = update_where id f rs in if r.id == id then f r ∷ rest else r ∷ rest

-- The command tag's RowsAffected of that update.
unfoldable pub affected : ℕ → List OutboxRow → ℕ
affected id [] = 0
affected id (r ∷ rs) = if r.id == id then suc (affected id rs) else affected id rs

module _ (id : ℕ) (f : OutboxRow → OutboxRow) (keeps : (r : OutboxRow) → (f r).id ≡ r.id) where
  pub find-update_where_ne :
      (j : ℕ) (rows : List OutboxRow) → j ≢ id → find (update_where id f rows) j ≡ find rows j
  unfolding find update_where
  find-update_where_ne j [] h = refl
  find-update_where_ne j (r ∷ rs) h = ground (arith, keeps r, find-update_where_ne j rs h)

  -- An update of exactly one row finds it, and writes it.
  pub find-update_where :
      (rows : List OutboxRow)
      → affected id rows ≡ 1
      → (r : OutboxRow) × (find rows id ≡ some r) × (find (update_where id f rows) id ≡ some (f r))
  unfolding find update_where affected
  find-update_where [] h = absurd (omega arith)
  find-update_where (r ∷ rs) h = elim (Bool-cases (r.id == id)) [
    | inl e ↦ (r, rw e refl, ground (arith, keeps r))
    | inr e ↦
        let (t, before, after) = find-update_where rs (ground arith) in
        (t, rw e before, ground arith)
  ]

-- By the primary key each row is the one that its id finds, in whatever order the rows are.
pub find_by_key :
    (rows : List OutboxRow)
    → Pairs (λ r q. r.id ≢ q.id) rows
    → All (λ r. find rows r.id ≡ some r) rows
unfolding find
find_by_key [] h = tt
find_by_key (r ∷ rs) h = (ground arith, later rs h.0 (find_by_key rs h.1))
  where
    later :
        (qs : List OutboxRow)
        → All (λ q. r.id ≢ q.id) qs
        → All (λ q. find rs q.id ≡ some q) qs
        → All (λ q. find (r ∷ rs) q.id ≡ some q) qs
    later [] above found = tt
    later (q ∷ qs) above found = (ground (arith, above.0, found.0), later qs above.1 found.1)

pub Pairs-ne :
    (rows : List OutboxRow) → Pairs (λ r q. r.id < q.id) rows → Pairs (λ r q. r.id ≢ q.id) rows
Pairs-ne [] h = tt
Pairs-ne (r ∷ rs) h = (
  All-imp (λ q. r.id < q.id) (λ q. r.id ≢ q.id) (λ q lt same. absurd (omega (arith, lt, same))) rs
      h.0,
  Pairs-ne rs h.1,
)

pub find_self :
    (rows : List OutboxRow)
    → Pairs (λ r q. r.id < q.id) rows
    → All (λ r. find rows r.id ≡ some r) rows
find_self rows h = find_by_key rows (Pairs-ne rows h)
