-- ===== src/Register/Atomic.antt =====
-- Registration is atomic: a registration that succeeds has added one user and the one outbox row of
-- its event, and one that fails has added nothing, or all of it when only the answer to its COMMIT was lost.
use outboxexpress.Common.{
  ℕ, suc, ◌≡◌, refl, sym, ap, ◌∙◌, subst, ◌⊎◌, inl, inr, Option, none, some, [], ◌∷◌, arith,
}
use outboxexpress.Domain.Std.{Std}
use outboxexpress.Domain.User.{User, register}
use outboxexpress.Domain.User.Laws.{announcement, IsRegistered, register_iff}
use outboxexpress.Errors.{Error, ok, err, Result-cases}
use outboxexpress.Envelope.{Metadata}
use outboxexpress.Postgres.Tx.{reply_lost, with_tx-eq-none, with_tx-eq-some}
use outboxexpress.Postgres.Db.{Db, rollback}
use outboxexpress.Postgres.Uow.{UnitOfWork, Session, save, drain_events, do_work}
use outboxexpress.Register.{RegisterUserCommand, Machine, World, saved_user, commit_user, execute}
use outboxexpress.Register.Adding.{Adds, fresh_session, after_save}

module _ (std : Std) (uow : UnitOfWork) where
  saved_user-eq-ok :
      (id i : ℕ) (out : Option Error × Db × Session) (world world' : World)
      → saved_user std uow id out world ≡ (ok i, world')
      → (w : Session) × (out ≡ (none, world'.db, w))
        × (i ≡ id)
        × (world'.notified ≡ suc world.notified)
  unfolding saved_user
  saved_user-eq-ok id i (some e, db, w) world world' h = cc
  saved_user-eq-ok id i (none, db, w) world world' h = (w, ground arith, ground arith, ground arith)

  commit_user-eq-ok :
      (meta : Metadata) (u : User) (i : ℕ) (world world' : World)
      → u.events ≡ announcement u ∷ []
      → commit_user std uow meta u world ≡ (ok i, world')
      → (i ≡ u.id) × Adds std uow meta u world.db world'.db × (world'.notified ≡ suc world.notified)
  unfolding commit_user do_work fresh_session
  commit_user-eq-ok meta u i world world' one h =
      let (w, done, same, notified) = saved_user-eq-ok u.id i _ world world' h in
      let (drained, _, _) =
        with_tx-eq-none uow.tx _ world.db world'.db (fresh_session std uow u) w done in
      (same, after_save std uow meta u world.db world'.db _ w one refl drained, notified)

  execute-eq-ok :
      (machine : Machine) (cmd : RegisterUserCommand) (world world' : World) (id : ℕ)
      → execute std uow machine cmd world ≡ (ok id, world')
      → (i : ℕ) × (u : User) × (register std i cmd.email cmd.display_name machine.now ≡ ok u)
        × (commit_user std uow cmd.meta u world ≡ (ok id, world'))
  unfolding execute
  execute-eq-ok machine cmd world world' id h = elim (Result-cases machine.new_id) [
    | inl (i, minted) ↦
        elim (Result-cases (register std i cmd.email cmd.display_name machine.now)) [
          | inl (u, made) ↦ (i, u, made, ground arith)
          | inr (e, refused) ↦ ground arith
        ]
    | inr (e, failed) ↦ ground arith
  ]

  -- A registration that returns an identifier has made one valid user and added to the tables that
  -- user and one pending outbox row, whose envelope carries the registration; it has notified once.
  pub register_atomic :
      (machine : Machine) (cmd : RegisterUserCommand) (world world' : World) (id : ℕ)
      → execute std uow machine cmd world ≡ (ok id, world')
      → (u : User) × IsRegistered std id cmd.email cmd.display_name machine.now u
        × Adds std uow cmd.meta u world.db world'.db
        × (world'.notified ≡ suc world.notified)
  register_atomic machine cmd world world' id h =
      let (i, u, made, committed) = execute-eq-ok machine cmd world world' id h in
      let registered = (register_iff std i cmd.email cmd.display_name machine.now u).0 made in
      let (same, adds, notified) =
        commit_user-eq-ok cmd.meta u id world world' registered.announced committed in
      (
        u,
        subst (λ k. IsRegistered std k cmd.email cmd.display_name machine.now u)
            (sym (same ∙ registered.id_kept)) registered,
        adds,
        notified,
      )

  saved_user-eq-err :
      (id : ℕ) (e : Error) (out : Option Error × Db × Session) (world world' : World)
      → saved_user std uow id out world ≡ (err e, world')
      → (out ≡ (some e, world'.db, out.2)) × (world'.notified ≡ world.notified)
  unfolding saved_user
  saved_user-eq-err id e (some x, db, w) world world' h = ground arith
  saved_user-eq-err id e (none, db, w) world world' h = cc

  -- The tables are what they were.
  abbrev pub SameTables : Db → Db → Type 0
  SameTables s t = (t.users ≡ s.users) × (t.outbox ≡ s.outbox)

  commit_user-eq-err :
      (meta : Metadata) (u : User) (e : Error) (world world' : World)
      → ((s t : Db) → uow.tx.rollback s t ≡ rollback s t)
      → u.events ≡ announcement u ∷ []
      → commit_user std uow meta u world ≡ (err e, world')
      → (world'.notified ≡ world.notified)
        × (SameTables world.db world'.db
            ⊎ (((x : Error) × (uow.tx.commit world'.db ≡ reply_lost x))
                × Adds std uow meta u world.db world'.db))
  unfolding commit_user do_work fresh_session
  commit_user-eq-err meta u e world world' restores one h =
      let (done, notified) = saved_user-eq-err u.id e _ world world' h in
      (
        notified,
        elim (with_tx-eq-some uow.tx _ world.db world'.db (fresh_session std uow u) _ e done) [
          | inl (same, _) ↦ inl (ap (λ d. d.users) same, ap (λ d. d.outbox) same)
          | inr (inl undone, _) ↦
              let back = undone ∙ restores world.db _ in
              inl (ap (λ d. d.users) back, ap (λ d. d.outbox) back)
          | inr (inr (same, fine, (x, lost)), _) ↦ inr (
            (x, ap uow.tx.commit same ∙ lost),
            after_save std uow meta u world.db world'.db _ _ one refl
                (λ i. (fine i, sym same i, work.2)),
          )
        ],
      )
    where
      work : Option Error × Db × Session
      work = drain_events std uow meta (save std uow.server 0 world.db (fresh_session std uow u))

  -- What a registration has done whose COMMIT was carried out and not answered: all of it.
  abbrev pub StoredUnheard : Machine → RegisterUserCommand → Db → Db → Type 0
  StoredUnheard machine cmd s t =
      ((x : Error) × (uow.tx.commit t ≡ reply_lost x))
      × ((id : ℕ) × (u : User) × (machine.new_id ≡ ok id)
          × IsRegistered std id cmd.email cmd.display_name machine.now u
          × Adds std uow cmd.meta u s t)

  -- A registration that fails notifies nobody and leaves the users and the outbox as they were, where a
  -- rollback restores both tables; the one exception is a COMMIT that was carried out and whose answer
  -- was lost, after which the user and the row of its event are both there.
  pub register_failed :
      (machine : Machine) (cmd : RegisterUserCommand) (world world' : World) (e : Error)
      → ((s t : Db) → uow.tx.rollback s t ≡ rollback s t)
      → execute std uow machine cmd world ≡ (err e, world')
      → (world'.notified ≡ world.notified)
        × (SameTables world.db world'.db ⊎ StoredUnheard machine cmd world.db world'.db)
  unfolding execute
  register_failed machine cmd world world' e restores h = elim (Result-cases machine.new_id) [
    | inl (i, minted) ↦
        elim (Result-cases (register std i cmd.email cmd.display_name machine.now)) [
          | inl (u, made) ↦
              let registered =
                (register_iff std i cmd.email cmd.display_name machine.now u).0 made in
              let (notified, ended) =
                commit_user-eq-err cmd.meta u e world world' restores registered.announced
                  (ground arith) in
              (
                notified,
                elim ended [
                  | inl same ↦ inl same
                  | inr (lost, adds) ↦ inr (lost, (i, u, minted, registered, adds))
                ],
              )
          | inr (_, refused) ↦ let same : world ≡ world' = ground arith in stayed world world' same
        ]
    | inr (_, failed) ↦ let same : world ≡ world' = ground arith in stayed world world' same
  ]
    where
      stayed :
          (v v' : World)
          → v ≡ v'
          → (v'.notified ≡ v.notified)
            × (SameTables v.db v'.db ⊎ StoredUnheard machine cmd v.db v'.db)
      stayed v v' same = (
        sym (ap (λ w. w.notified) same),
        inl (sym (ap (λ w. w.db.users) same), sym (ap (λ w. w.db.outbox) same)),
      )
