-- ===== src/Publish/Rows.antt =====
-- What the fates leave of each row, when the ids of the batch ascend: a row with a fate is written by
-- it, and any other row is as it was.
use mathlib.Core.Option
use outboxexpress.Common.{
  ℕ, ◌≡◌, refl, ap, ◌∙◌, ◌≢◌, inl, inr, true, false, Option, none, some, List, [], ◌∷◌, map, ◌==◌,
  if◌then◌else◌, arith, All, Pairs, Bool-cases,
}
use outboxexpress.Common.Int.{ℤ}
use outboxexpress.Errors.{is}
use outboxexpress.Outbox.{OutboxRow, PendingMessage}
use outboxexpress.Publish.Fates.{Fate, RowMap, write_of, write_at, rows_after}

abbrev pub ids : List (PendingMessage × Fate) → List ℕ
ids = map (λ x. (x.0).id)

-- The fate of the row with an id, if the pass came to it.
unfoldable pub fate_at : List (PendingMessage × Fate) → ℕ → Option (PendingMessage × Fate)
fate_at [] j = none
fate_at ((p, f) ∷ fs) j = if p.id == j then some (p, f) else fate_at fs j

module _ (now : ℤ) (after : ℕ → ℤ) (clock : ℤ) where
  -- What a fate, or none, makes of a row.
  unfoldable pub row_by : Option (PendingMessage × Fate) → Option OutboxRow → Option OutboxRow
  unfolding write_of
  row_by none r = r
  row_by (some (p, f)) r = Option.map (write_of now after clock p f) r

  rows_after-untouched :
      (fs : List (PendingMessage × Fate)) (rows : RowMap) (j : ℕ)
      → All (λ i. i ≢ j) (ids fs)
      → rows_after now after clock fs rows j ≡ rows j
  unfolding rows_after
  rows_after-untouched [] rows j h = refl
  rows_after-untouched ((p, f) ∷ fs) rows j h =
      rows_after-untouched fs (write_at p.id (write_of now after clock p f) rows) j h.1
      ∙ skip (ground (arith, h.0))
    where
      skip : (j == p.id) ≡ false → write_at p.id (write_of now after clock p f) rows j ≡ rows j
      skip e = rw e refl

  fate_at-none :
      (fs : List (PendingMessage × Fate)) (j : ℕ) → All (λ i. i ≢ j) (ids fs) → fate_at fs j ≡ none
  unfolding fate_at
  fate_at-none [] j h = refl
  fate_at-none ((p, f) ∷ fs) j h = ground (arith, h.0, fate_at-none fs j h.1)

  -- Each row is written by its own fate, and by no other.
  pub rows_after-fate_at :
      (fs : List (PendingMessage × Fate)) (rows : RowMap) (j : ℕ)
      → Pairs (λ a b. a ≢ b) (ids fs)
      → rows_after now after clock fs rows j ≡ row_by (fate_at fs j) (rows j)
  unfolding rows_after fate_at row_by
  rows_after-fate_at [] rows j h = refl
  rows_after-fate_at ((p, f) ∷ fs) rows j h = elim (Bool-cases (p.id == j)) [
    | inl e ↦ rw e (hit e)
    | inr e ↦ rw e (
        rows_after-fate_at fs (write_at p.id (write_of now after clock p f) rows) j h.1
        ∙ ap (row_by (fate_at fs j)) (miss (ground arith)))
  ]
    where
      miss : (j == p.id) ≡ false → write_at p.id (write_of now after clock p f) rows j ≡ rows j
      miss e = rw e refl

      same :
          (j == p.id) ≡ true
          → write_at p.id (write_of now after clock p f) rows j
            ≡ Option.map (write_of now after clock p f) (rows j)
      same e = rw e refl

      others : (is : List ℕ) → (p.id == j) ≡ true → All (λ i. p.id ≢ i) is → All (λ i. i ≢ j) is
      others [] e k = tt
      others (i ∷ is) e k = (ground (arith, k.0), others is e k.1)

      hit :
          (p.id == j) ≡ true
          → rows_after now after clock fs (write_at p.id (write_of now after clock p f) rows) j
            ≡ Option.map (write_of now after clock p f) (rows j)
      hit e =
          rows_after-untouched fs (write_at p.id (write_of now after clock p f) rows) j
            (others (ids fs) e h.0)
          ∙ same (ground arith)
