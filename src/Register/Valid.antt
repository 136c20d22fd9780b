-- ===== src/Register/Valid.antt =====
-- A registration keeps the tables valid, whatever it answers.
use outboxexpress.Common.{
  ℕ, suc, ◌≡◌, refl, sym, ◌⊎◌, inl, inr, Option, none, some, List, [], ◌∷◌, subst, Option-cases,
  ◌∙◌,
}
use outboxexpress.Domain.Std.{Std}
use outboxexpress.Domain.User.{User, Event, register}
use outboxexpress.Errors.{Error, Result-cases}
use outboxexpress.Envelope.{Metadata, Envelope, envelopes_from}
use outboxexpress.Postgres.Db.{
  Db, Server, Statement, IsValid, rollback, insert_user, insert_outbox, add_user, add_outbox,
  as_stored,
}
use outboxexpress.Postgres.Tx.{with_tx-cases}
use outboxexpress.Postgres.Uow.{
  UnitOfWork, Session, user_row, exec, saved, save, append_rows, closed, append, append_events,
  drain_events, do_work,
}
use outboxexpress.Postgres.Valid.{
  Grown, Grown-refl, Grown-trans, rollback-Grown, add_user-Grown, add_outbox-Grown,
}
use outboxexpress.Register.{RegisterUserCommand, Machine, World, saved_user, commit_user, execute}

module _ (std : Std) (server : Server) where
  exec-Grown :
      (statement : Statement) (run : Db → Option Error × Db) (s : Db)
      → IsValid s
      → Grown s (run s).1
      → Grown s (exec std server statement run s).1
  unfolding exec
  exec-Grown statement run s v g = elim (Option-cases (server.fault statement s)) [
    | inl runs ↦ rw (exec, runs) g
    | inr (e, broken) ↦ rw (exec, broken) (Grown-refl s v)
  ]

  saved-state :
      (a : ℕ) (u : User) (out : Option Error × Db) (w : Session)
      → (saved std server a u out w).1 ≡ out.1
  unfolding saved
  saved-state a u (some e, t) w = refl
  saved-state a u (none, t) w = refl

  save-Grown : (a : ℕ) (s : Db) (w : Session) → IsValid s → Grown s (save std server a s w).1
  unfolding save
  save-Grown a s w v =
      let u = w.heap a in
      subst (Grown s) (sym (saved-state a u _ w)) (
        exec-Grown (insert_user (user_row u)) (add_user (user_row u)) s v
          (add_user-Grown (user_row u) s v))

  append_rows-Grown :
      (i : ℕ) (es : List Envelope) (s : Db) → IsValid s → Grown s (append_rows std server i es s).1
  unfolding append_rows
  append_rows-Grown i [] s v = Grown-refl s v
  append_rows-Grown i (e ∷ es) s v =
      let one =
        exec-Grown (insert_outbox e) (add_outbox server.now (as_stored std e)) s v
          (add_outbox-Grown server.now (as_stored std e) s v) in
      elim (Option-cases
        (exec std server (insert_outbox e) (add_outbox server.now (as_stored std e)) s).0) [
          | inl runs ↦
              rw (append_rows, runs)
                (Grown-trans s _ _ one (append_rows-Grown (suc i) es _ one.valid))
          | inr (x, refused) ↦ rw (append_rows, refused) one
        ]

  closed-state :
      (close : Option Error) (out : Option Error × Db) → (closed std server close out).1 ≡ out.1
  unfolding closed
  closed-state close (some e, t) = refl
  closed-state none (none, t) = refl
  closed-state (some e) (none, t) = refl

  append-Grown :
      (close : Option Error) (es : List Envelope) (s : Db)
      → IsValid s
      → Grown s (append std server close es s).1
  unfolding append
  append-Grown close [] s v = Grown-refl s v
  append-Grown close (e ∷ es) s v =
      subst (Grown s) (sym (closed-state close _)) (append_rows-Grown 0 (e ∷ es) s v)

module _ (std : Std) (uow : UnitOfWork) where
  append_events-Grown :
      (meta : Metadata) (es : List Event) (s : Db) (w : Session)
      → IsValid s
      → Grown s (append_events std uow meta es s w).1
  unfolding append_events
  append_events-Grown meta [] s w v = Grown-refl s v
  append_events-Grown meta (event ∷ es) s w v =
      elim (Result-cases (envelopes_from std uow.codec uow.ids meta 0 (event ∷ es))) [
        | inl (made, e) ↦ rw (append_events, e) (append-Grown std uow.server uow.close made s v)
        | inr (x, e) ↦ rw (append_events, e) (Grown-refl s v)
      ]

  drain_events-Grown :
      (meta : Metadata) (s : Db) (out : Option Error × Db × Session)
      → Grown s out.1
      → Grown s (drain_events std uow meta out).1
  unfolding drain_events
  drain_events-Grown meta s (some e, t, w) g = g
  drain_events-Grown meta s (none, t, w) g =
      Grown-trans s t _ g (append_events-Grown meta _ t _ g.valid)

  -- Save and its events in one transaction, however it ends.
  saving-Grown :
      (meta : Metadata) (s : Db) (w : Session)
      → ((s t : Db) → uow.tx.rollback s t ≡ rollback s t)
      → IsValid s
      → Grown s (do_work std uow meta (save std uow.server 0) s w).1
  unfolding do_work
  saving-Grown meta s w restores v = ended (
      with_tx-cases uow.tx
        (λ db w. drain_events std uow meta (save std uow.server 0 db (record w { tracked = [] }))) s
        w)
    where
      out : Option Error × Db × Session
      out = drain_events std uow meta (save std uow.server 0 s (record w { tracked = [] }))

      worked : Grown s out.1
      worked = drain_events-Grown meta s _ (save-Grown std uow.server 0 s _ v)

      ended :
          {t : Db} {w' : Session}
          → ((t ≡ s) × (w' ≡ w)) ⊎ (((t ≡ out.1) ⊎ (t ≡ uow.tx.rollback s (out.1))) × (w' ≡ out.2))
          → Grown s t
      ended (inl (same, _)) = subst (Grown s) (sym same) (Grown-refl s v)
      ended (inr (inl done, _)) = subst (Grown s) (sym done) worked
      ended (inr (inr undone, _)) =
          subst (Grown s) (sym (restores s (out.1)) ∙ sym undone)
            (rollback-Grown s (out.1) v worked.ahead)

  saved_user-state :
      (id : ℕ) (out : Option Error × Db × Session) (world : World)
      → ((saved_user std uow id out world).1).db ≡ out.1
  unfolding saved_user
  saved_user-state id (some e, t, w) world = refl
  saved_user-state id (none, t, w) world = refl

  -- A registration keeps the tables valid and the sequence ahead, whatever it answers.
  pub execute-Grown :
      (machine : Machine) (cmd : RegisterUserCommand) (world : World)
      → ((s t : Db) → uow.tx.rollback s t ≡ rollback s t)
      → IsValid world.db
      → Grown world.db ((execute std uow machine cmd world).1).db
  unfolding execute commit_user
  execute-Grown machine cmd world restores v = elim (Result-cases machine.new_id) [
    | inr (e, failed) ↦ rw (execute, failed) (Grown-refl world.db v)
    | inl (id, minted) ↦
        elim (Result-cases (register std id cmd.email cmd.display_name machine.now)) [
          | inr (e, refused) ↦ rw (execute, minted, refused) (Grown-refl world.db v)
          | inl (u, made) ↦
              rw (execute, minted, made)
                (subst (Grown world.db) (sym (saved_user-state u.id _ world))
                  (saving-Grown cmd.meta world.db _ restores v))
        ]
  ]
