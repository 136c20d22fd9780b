-- ===== src/Postgres/Tx.antt =====
-- platform/postgres/pool.go, WithTx. The transaction's state is `S`; `W` is what the function also
-- changes outside of the database, which no rollback takes back.
use outboxexpress.Common.{
  ◌≡◌, refl, sym, ap, ◌∙◌, ◌⊎◌, inl, inr, Option, none, some, Option-cases, arith,
}
use outboxexpress.Errors.{Error, wrap}

-- What comes of a COMMIT. One that returns an error may have been carried out all the same: the
-- connection can break, and the request's context can end, before the answer arrives.
pub data Commit : Type 0 where
  committed : Commit
  commit_failed : Error → Commit
  reply_lost : Error → Commit

-- How the database answers BEGIN and COMMIT, and what a rollback leaves of the state at the start
-- and the state that is given up.
pub record TxServer (S : Type 0) : Type 0 where
  pub begin : Option Error
  pub commit : S → Commit
  pub rollback : S → S → S

module _ {S W : Type 0} (server : TxServer S) where
  -- `fn` has returned.
  settle : S → Option Error × S × W → Option Error × S × W
  settle s (some e, t, w) = (some e, server.rollback s t, w)
  settle s (none, t, w) = elim (server.commit t) [
    | committed ↦ (none, t, w)
    | commit_failed e ↦ (some (wrap "postgres: commit" e), server.rollback s t, w)
    | reply_lost e ↦ (some (wrap "postgres: commit" e), t, w)
  ]

  unfoldable pub with_tx : (S → W → Option Error × S × W) → S → W → Option Error × S × W
  unfolding settle
  with_tx fn s w = elim server.begin [
    | some e ↦ (some (wrap "postgres: begin" e), s, w)
    | none ↦ settle s (fn s w)
  ]

  settle-eq-none :
      (s : S) (out : Option Error × S × W) (t : S) (w : W)
      → settle s out ≡ (none, t, w)
      → (out ≡ (none, t, w)) × (server.commit t ≡ committed)
  unfolding settle
  settle-eq-none s (some e, t', w') t w h = cc
  settle-eq-none s (none, t', w') t w h = go (server.commit t') refl h
    where
      go :
          (c : Commit)
          → server.commit t' ≡ c
          → ◌≡◌ {A = Option Error × S × W}
              (elim c [
                | committed ↦ (none, t', w')
                | commit_failed e ↦ (some (wrap "postgres: commit" e), server.rollback s t', w')
                | reply_lost e ↦ (some (wrap "postgres: commit" e), t', w')
              ])
              (none, t, w)
          → (◌≡◌ {A = Option Error × S × W} (none, t', w') (none, t, w))
            × (server.commit t ≡ committed)
      go committed c k = (k, ap (λ (o : Option Error × S × W). server.commit (o.1)) (sym k) ∙ c)
      go (commit_failed e) c k = cc
      go (reply_lost e) c k = cc

  -- WithTx returns no error exactly when the function did not and the transaction was opened and
  -- committed; the state is then the function's.
  pub with_tx-eq-none :
      (fn : S → W → Option Error × S × W) (s t : S) (w w' : W)
      → with_tx fn s w ≡ (none, t, w')
      → (fn s w ≡ (none, t, w')) × (server.begin ≡ none) × (server.commit t ≡ committed)
  unfolding with_tx
  with_tx-eq-none fn s t w w' h = ground (arith, settle-eq-none s (fn s w) t w')

  -- The state after an error: rolled back, or committed without an answer that says so.
  abbrev pub Ended : S → Option Error × S × W → S → Type 0
  Ended s out t =
      (t ≡ server.rollback s (out.1))
      ⊎ ((t ≡ out.1) × (out.0 ≡ none) × ((e : Error) × (server.commit (out.1) ≡ reply_lost e)))

  settle-eq-some :
      (s : S) (out : Option Error × S × W) (e : Error) (t : S) (w : W)
      → settle s out ≡ (some e, t, w)
      → Ended s out t × (w ≡ out.2)
  unfolding settle
  settle-eq-some s (some e', t', w') e t w h = (
    inl (sym (ap (λ (o : Option Error × S × W). o.1) h)),
    sym (ap (λ (o : Option Error × S × W). o.2) h),
  )
  settle-eq-some s (none, t', w') e t w h = go (server.commit t') refl h
    where
      go :
          (c : Commit)
          → server.commit t' ≡ c
          → ◌≡◌ {A = Option Error × S × W}
              (elim c [
                | committed ↦ (none, t', w')
                | commit_failed e ↦ (some (wrap "postgres: commit" e), server.rollback s t', w')
                | reply_lost e ↦ (some (wrap "postgres: commit" e), t', w')
              ])
              (some e, t, w)
          → Ended s (none, t', w') t × (w ≡ w')
      go committed c k = cc
      go (commit_failed x) c k = (
        inl (sym (ap (λ (o : Option Error × S × W). o.1) k)),
        sym (ap (λ (o : Option Error × S × W). o.2) k),
      )
      go (reply_lost x) c k = (
        inr (sym (ap (λ (o : Option Error × S × W). o.1) k), refl, (x, c)),
        sym (ap (λ (o : Option Error × S × W). o.2) k),
      )

  -- With an error the database is where it was, or rolled back, or where the function left it when
  -- only the answer to its COMMIT was lost; what was done outside of it is what the function did, or
  -- nothing.
  pub with_tx-eq-some :
      (fn : S → W → Option Error × S × W) (s t : S) (w w' : W) (e : Error)
      → with_tx fn s w ≡ (some e, t, w')
      → ((t ≡ s) × (w' ≡ w)) ⊎ (Ended s (fn s w) t × (w' ≡ (fn s w).2))
  unfolding with_tx
  with_tx-eq-some fn s t w w' e h = elim (Option-cases server.begin) [
    | inl begun ↦ inr (settle-eq-some s (fn s w) e t w' (rw begun at h))
    | inr (x, down) ↦
        let stays : (some (wrap "postgres: begin" x), s, w) ≡ (some e, t, w') = rw down at h in
        inl (
          sym (ap (λ (o : Option Error × S × W). o.1) stays),
          sym (ap (λ (o : Option Error × S × W). o.2) stays),
        )
  ]

  -- A function that fails is rolled back, and its error is WithTx's.
  pub with_tx-eq-failed :
      (fn : S → W → Option Error × S × W) (s t : S) (w w' : W) (e : Error)
      → server.begin ≡ none
      → fn s w ≡ (some e, t, w')
      → with_tx fn s w ≡ (some e, server.rollback s t, w')
  unfolding with_tx
  with_tx-eq-failed fn s t w w' e begun h = rw (begun, h) refl

  -- With a transaction that is opened and committed, a function that succeeds has its way.
  pub with_tx-eq-done :
      (fn : S → W → Option Error × S × W) (s t : S) (w w' : W)
      → server.begin ≡ none
      → fn s w ≡ (none, t, w')
      → server.commit t ≡ committed
      → with_tx fn s w ≡ (none, t, w')
  unfolding with_tx settle
  with_tx-eq-done fn s t w w' begun h done = rw (begun, h, settle, done) refl

  settle-cases :
      (s : S) (out : Option Error × S × W)
      → (((settle s out).1 ≡ out.1) ⊎ ((settle s out).1 ≡ server.rollback s (out.1)))
        × ((settle s out).2 ≡ out.2)
  unfolding settle
  settle-cases s (some e, t, w) = (inr refl, refl)
  settle-cases s (none, t, w) = go (server.commit t)
    where
      go :
          (c : Commit)
          → let out = elim c as (λ _. Option Error × S × W) [
            | committed ↦ (none, t, w)
            | commit_failed e ↦ (some (wrap "postgres: commit" e), server.rollback s t, w)
            | reply_lost e ↦ (some (wrap "postgres: commit" e), t, w)
          ] in
            ((out.1 ≡ t) ⊎ (out.1 ≡ server.rollback s t)) × (out.2 ≡ w)
      go committed = (inl refl, refl)
      go (commit_failed e) = (inr refl, refl)
      go (reply_lost e) = (inl refl, refl)

  -- The three ways in which WithTx ends: with what the function did, with a rollback of it, or with
  -- nothing.
  pub with_tx-cases :
      (fn : S → W → Option Error × S × W) (s : S) (w : W)
      → let out = with_tx fn s w in
        ((out.1 ≡ s) × (out.2 ≡ w))
        ⊎ (((out.1 ≡ (fn s w).1) ⊎ (out.1 ≡ server.rollback s (fn s w).1)) × (out.2 ≡ (fn s w).2))
  unfolding with_tx
  with_tx-cases fn s w = elim (Option-cases server.begin) [
    | inl begun ↦ rw (begun, with_tx) (inr (settle-cases s (fn s w)))
    | inr (e, refused) ↦ rw (refused, with_tx) (inl (refl, refl))
  ]
