-- ===== src/Postgres/Purge/Delete.antt =====
-- The DELETE over the ids of a subquery is the removal of the first expired rows.
use outboxexpress.Common.{
  ℕ, zero, suc, ◌≡◌, refl, ◌<◌, inl, inr, Bool, true, false, not, List, [], ◌∷◌, map, take, filter,
  if◌then◌else◌, All, Pairs, All-map, ap, sym, ◌∙◌, arith, Bool-cases, filter-keeps,
}
use outboxexpress.Outbox.{OutboxRow}
use outboxexpress.Postgres.Purge.{is_in}

-- The rows that `DELETE ... WHERE id IN ids` leaves.
abbrev pub delete_in : List ℕ → List OutboxRow → List OutboxRow
delete_in ids rows = filter (λ r. not (is_in r.id ids)) rows

module _ (expired : OutboxRow → Bool) where
  -- The rows without the first n that are expired.
  unfoldable pub without_first : ℕ → List OutboxRow → List OutboxRow
  without_first zero rows = rows
  without_first (suc n) [] = []
  without_first (suc n) (r ∷ rs) =
      let less = without_first n rs in
      let same = without_first (suc n) rs in if expired r then less else r ∷ same

  above_is_in : (id : ℕ) (ids : List ℕ) → All (λ j. id < j) ids → is_in id ids ≡ false
  unfolding is_in
  above_is_in id [] h = refl
  above_is_in id (j ∷ js) h = ground (arith, above_is_in id js h.1)

  take-All :
      (P : OutboxRow → Type 0) (n : ℕ) (rows : List OutboxRow) → All P rows → All P (take n rows)
  take-All P zero rows h = tt
  take-All P (suc n) [] h = tt
  take-All P (suc n) (r ∷ rs) h = (h.0, take-All P n rs h.1)

  abbrev pub ids_of : ℕ → List OutboxRow → List ℕ
  ids_of n rows = map (λ r. r.id) (take n (filter expired rows))

  ids_of-above :
      (id n : ℕ) (rows : List OutboxRow)
      → All (λ r. id < r.id) rows
      → is_in id (ids_of n rows) ≡ false
  ids_of-above id n rows h = above_is_in id (ids_of n rows) (
      All-map (λ j. id < j) (λ r. r.id) (take n (filter expired rows))
        (take-All (λ r. id < r.id) n (filter expired rows)
          (filter-keeps (λ r. id < r.id) expired rows h)))

  delete_in_skip :
      (id : ℕ) (ids : List ℕ) (rows : List OutboxRow)
      → All (λ r. id < r.id) rows
      → delete_in (id ∷ ids) rows ≡ delete_in ids rows
  unfolding is_in
  delete_in_skip id ids [] h = refl
  delete_in_skip id ids (r ∷ rs) h = ground (arith, delete_in_skip id ids rs h.1, h.0)

  delete_in_none : (rows : List OutboxRow) → delete_in [] rows ≡ rows
  unfolding is_in
  delete_in_none [] = refl
  delete_in_none (r ∷ rs) = ap (◌∷◌ r) (delete_in_none rs)

  delete_in_head :
      (r : OutboxRow) (ids : List ℕ) (rs : List OutboxRow)
      → delete_in (r.id ∷ ids) (r ∷ rs) ≡ delete_in (r.id ∷ ids) rs
  unfolding is_in
  delete_in_head r ids rs = ground arith

  delete_in_keep :
      (r : OutboxRow) (ids : List ℕ) (rs : List OutboxRow)
      → is_in r.id ids ≡ false
      → delete_in ids (r ∷ rs) ≡ r ∷ delete_in ids rs
  delete_in_keep r ids rs h = rw h refl

  ids_of_head :
      (r : OutboxRow) (n : ℕ) (rs : List OutboxRow)
      → expired r ≡ true
      → ids_of (suc n) (r ∷ rs) ≡ r.id ∷ ids_of n rs
  ids_of_head r n rs e = rw e refl

  ids_of_tail :
      (r : OutboxRow) (n : ℕ) (rs : List OutboxRow)
      → expired r ≡ false
      → ids_of (suc n) (r ∷ rs) ≡ ids_of (suc n) rs
  ids_of_tail r n rs e = rw e refl

  -- On rows in the order of their ids, deleting by the subquery's ids deletes the first n expired.
  pub delete-without_first :
      (n : ℕ) (rows : List OutboxRow)
      → Pairs (λ r q. r.id < q.id) rows
      → delete_in (ids_of n rows) rows ≡ without_first n rows
  unfolding without_first
  delete-without_first zero rows h = delete_in_none rows
  delete-without_first (suc n) [] h = refl
  delete-without_first (suc n) (r ∷ rs) h = elim (Bool-cases (expired r)) [
    | inl e ↦
        ap (λ ids. delete_in ids (r ∷ rs)) (ids_of_head r n rs e)
        ∙ delete_in_head r (ids_of n rs) rs
        ∙ delete_in_skip r.id (ids_of n rs) rs h.0
        ∙ delete-without_first n rs h.1
        ∙ sym (rw e refl)
    | inr e ↦
        ap (λ ids. delete_in ids (r ∷ rs)) (ids_of_tail r n rs e)
        ∙ delete_in_keep r (ids_of (suc n) rs) rs (ids_of-above r.id (suc n) rs h.0)
        ∙ ap (◌∷◌ r) (delete-without_first (suc n) rs h.1)
        ∙ sym (rw e refl)
  ]
