-- ===== src/Http/Contract.antt =====
-- The contract of the endpoint over the registration use case.
use outboxexpress.Common.{
  ℕ, ◌≡◌, ◌≢◌, refl, ap, ◌∙◌, sym, subst, ◌⊎◌, inl, inr, List, Bool-cases, arith, str_eq, eq_iff,
}
use outboxexpress.Domain.Std.{Std}
use outboxexpress.Domain.User.{User}
use outboxexpress.Domain.User.Laws.{IsRegistered}
use outboxexpress.Envelope.{Metadata}
use outboxexpress.Errors.{Error, Result, ok, err, Result-cases}
use outboxexpress.Postgres.Uow.{UnitOfWork}
use outboxexpress.Postgres.Db.{Db, rollback}
use outboxexpress.Register.{RegisterUserCommand, Machine, World, execute}
use outboxexpress.Register.Adding.{Adds}
use outboxexpress.Register.Atomic.{register_atomic, register_failed, SameTables, StoredUnheard}
use outboxexpress.Http.{
  Request, RegisterRequest, Response, LogLine, correlation_id_of, metadata, fail_for, respond,
  register_user,
}

respond-created :
    (std : Std) (meta : Metadata) (out : Result ℕ)
    → (respond std meta out).0.status ≡ 201
    → (id : ℕ) × (out ≡ ok id)
unfolding respond fail_for
respond-created std meta (ok id) h = (id, refl)
respond-created std meta (err e) h = ground arith

respond-refused :
    (std : Std) (meta : Metadata) (out : Result ℕ)
    → (respond std meta out).0.status ≢ 201
    → (e : Error) × (out ≡ err e)
unfolding respond
respond-refused std meta (ok id) h = absurd (h refl)
respond-refused std meta (err e) h = (e, refl)

respond-correlation_id :
    (std : Std) (meta : Metadata) (out : Result ℕ)
    → (respond std meta out).0.correlation_id ≡ meta.correlation_id
unfolding respond fail_for
respond-correlation_id std meta (ok id) = refl
respond-correlation_id std meta (err e) = ground arith

module _ (std : Std) (uow : UnitOfWork) (machine : Machine) (minted : Result ℕ) where
  -- The endpoint over the use case.
  abbrev pub endpoint : Request → World → Response × List LogLine × World
  endpoint = register_user std (execute std uow machine) minted

  command : Request → RegisterRequest → RegisterUserCommand
  command r body = record {
    email = body.email;
    display_name = body.display_name;
    meta = metadata std r minted;
  }

  endpoint-decoded :
      (r : Request) (body : RegisterRequest) (world : World)
      → r.decoded ≡ ok body
      → let out = execute std uow machine (command r body) world in
        ((endpoint r world).0 ≡ (respond std (metadata std r minted) out.0).0)
        × ((endpoint r world).2 ≡ out.1)
  unfolding register_user command
  endpoint-decoded r body world decoded = rw (decoded, register_user) (refl, refl)

  -- A response 201 means that one valid user with the decoded texts and the one outbox row of its
  -- registration, with the correlation id of the response, are in the tables.
  pub created_means_stored :
      (r : Request) (body : RegisterRequest) (world : World)
      → r.decoded ≡ ok body
      → (endpoint r world).0.status ≡ 201
      → (u : User) × IsRegistered std u.id body.email body.display_name machine.now u
        × Adds std uow (metadata std r minted) u world.db (endpoint r world).2.db
        × ((endpoint r world).0.correlation_id ≡ (metadata std r minted).correlation_id)
  unfolding command
  created_means_stored r body world decoded h =
      let meta = metadata std r minted in
      let out = execute std uow machine (command r body) world in
      let (response, left) = endpoint-decoded r body world decoded in
      let (id, done) =
        respond-created std meta out.0 (sym (ap (λ (x : Response). x.status) response) ∙ h) in
      let (u, registered, adds, _) =
        register_atomic std uow machine (command r body) world out.1 id (λ i. (done i, out.1)) in
      (
        u,
        subst (λ k. IsRegistered std k body.email body.display_name machine.now u)
            (sym registered.id_kept) registered,
        subst (λ (w : World). Adds std uow meta u world.db w.db) (sym left) adds,
        ap (λ (x : Response). x.correlation_id) response ∙ respond-correlation_id std meta out.0,
      )

  -- Any other response means that the users and the outbox are as they were, where a rollback restores
  -- both tables, unless the request was decoded and its COMMIT was carried out without an answer that
  -- says so: then the whole registration is stored.
  pub refused_means_unchanged :
      (r : Request) (world : World)
      → (endpoint r world).0.status ≢ 201
      → ((s t : Db) → uow.tx.rollback s t ≡ rollback s t)
      → SameTables std uow world.db (endpoint r world).2.db
        ⊎ ((body : RegisterRequest) × (r.decoded ≡ ok body)
            × StoredUnheard std uow machine
                (record {
                  email = body.email;
                  display_name = body.display_name;
                  meta = metadata std r minted;
                })
                world.db
                (endpoint r world).2.db)
  unfolding register_user command
  refused_means_unchanged r world h restores = elim (Result-cases r.decoded) [
    | inl (body, decoded) ↦
        let meta = metadata std r minted in
        let out = execute std uow machine (command r body) world in
        let (response, left) = endpoint-decoded r body world decoded in
        let (e, refused) =
          respond-refused std meta out.0 (λ k. h (ap (λ (x : Response). x.status) response ∙ k)) in
        let (_, ended) =
          register_failed std uow machine (command r body) world out.1 e restores
            (λ i. (refused i, out.1)) in
        subst
          (λ (w : World).
            SameTables std uow world.db w.db
            ⊎ ((body' : RegisterRequest) × (r.decoded ≡ ok body')
                × StoredUnheard std uow machine (command r body') world.db w.db))
          (sym left) (elim ended [ inl same ↦ inl same | inr stored ↦ inr (body, decoded, stored) ])
    | inr (e, malformed) ↦ rw (malformed, register_user) (inl (refl, refl))
  ]

-- The correlation id is never empty, when no identifier's text is.
pub correlation_id_of_ne :
    (std : Std) (r : Request) (minted : Result ℕ)
    → ((id : ℕ) → std.uuid_string id ≢ "")
    → (correlation_id_of std r minted).0 ≢ ""
unfolding correlation_id_of
correlation_id_of_ne std r (ok id) texts = ground (arith, eq_iff r.correlation_header "", texts id)
correlation_id_of_ne std r (err e) texts = elim (Bool-cases (str_eq r.correlation_header "")) [
  | inl empty ↦ rw empty (λ k. cc)
  | inr given ↦ rw given (λ k. ground (arith, eq_iff r.correlation_header ""))
]
