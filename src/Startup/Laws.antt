-- ===== src/Startup/Laws.antt =====
-- What a process holds while it serves and leaves behind, and what its configuration promises its parts.
use outboxexpress.Common.{
  ◌≡◌, ◌↔◌, ◌⊎◌, inl, inr, refl, String, false, Option, none, some, List, [], ◌∷◌, ◌++◌, ◌^◌,
  Bool-cases, Option-cases, arith, subst, sym, ap,
}
use outboxexpress.Common.Int.{ℤ, pos, ◌≤ℤ◌, ◌<ℤ◌}
use outboxexpress.Domain.Std.{Std}
use outboxexpress.Errors.{Error, Result, ok, err, is, schema_behind}
use outboxexpress.Config.{Parsers, RelayConfig, load_relay}
use outboxexpress.Config.Load.{ApiConfig, load_api}
use outboxexpress.Config.Usable.{load_relay-IsUsable}
use outboxexpress.Migrations.{accounts, Goose, latest, ready}
use outboxexpress.Migrations.Laws.{ready_iff}
use outboxexpress.Platform.Admin.{Response, readyz, healthz, route, status_ok}
use outboxexpress.Platform.Pool.{
  PgxPool, default_pool_config, new_pool, validate, validate_iff, default_pool_config-IsUsable,
}
use outboxexpress.Platform.Producer.{ClientOption, default_producer_config, new_producer}
use outboxexpress.Startup.{
  Resource, pool, producer, listener, Stage, opened, closed, served, holding, or_fail, RelayWiring,
  relay_wiring, relay_serves, relay_with_wakeup, relay_with_pool, run_relay, run_api, stopped,
}
use outboxexpress.Worker.Relay.Idle.{IsSane}

-- The resources that are open, the last one first: each is closed once, in the reverse order, and
-- `Needs` holds of the open ones whenever the process serves.
abbrev pub InOrder : (List Resource → Type 0) → List Resource → List Stage → Type 0
InOrder Needs [] [] = Unit
InOrder Needs (r ∷ rs) [] = ⊥
InOrder Needs rs (opened r ∷ events) = InOrder Needs (r ∷ rs) events
InOrder Needs [] (closed r ∷ events) = ⊥
InOrder Needs (q ∷ rs) (closed r ∷ events) = (q ≡ r) × InOrder Needs rs events
InOrder Needs rs (served ∷ events) = Needs rs × InOrder Needs rs events

append_assoc : (xs ys zs : List Stage) → (xs ++ ys) ++ zs ≡ xs ++ (ys ++ zs)
append_assoc [] ys zs = refl
append_assoc (x ∷ xs) ys zs = ap (◌∷◌ x) (append_assoc xs ys zs)

append_nil : (xs : List Stage) → xs ++ [] ≡ xs
append_nil [] = refl
append_nil (x ∷ xs) = ap (◌∷◌ x) (append_nil xs)

module _ (Needs : List Resource → Type 0) where
  -- Events that keep the order on top of the resources `rs`, and leave these open.
  InOrderOn : List Resource → Option Error × List Stage → Type 0
  InOrderOn rs out = (rest : List Stage) → InOrder Needs rs rest → InOrder Needs rs (out.1 ++ rest)

  holding-InOrderOn :
      (r : Resource) (rs : List Resource) (out : Option Error × List Stage)
      → InOrderOn (r ∷ rs) out
      → InOrderOn rs (holding r out)
  unfolding InOrderOn holding
  holding-InOrderOn r rs out h rest k =
      subst (InOrder Needs (r ∷ rs)) (sym (append_assoc out.1 (closed r ∷ []) rest))
        (h (closed r ∷ rest) (refl, k))

  or_fail-InOrderOn :
      {A : Type 0} (rs : List Resource) (made : Result A) (next : A → Option Error × List Stage)
      → ((a : A) → InOrderOn rs (next a))
      → InOrderOn rs (or_fail made next)
  unfolding InOrderOn or_fail
  or_fail-InOrderOn rs (err e) next h = λ rest k. k
  or_fail-InOrderOn rs (ok a) next h = h a

  served-InOrderOn :
      (rs : List Resource) (e : Option Error) → Needs rs → InOrderOn rs (e, served ∷ [])
  unfolding InOrderOn
  served-InOrderOn rs e n rest k = (n, k)

  InOrderOn-InOrder : (out : Option Error × List Stage) → InOrderOn [] out → InOrder Needs [] out.1
  unfolding InOrderOn
  InOrderOn-InOrder out h = subst (InOrder Needs []) (append_nil out.1) (h [] tt)

unavailable : (e : Error) (r : Response) → some (readyz (some e)) ≡ some r → r.status ≡ 503
unfolding readyz
unavailable e r h = ground arith

not_both : (o : Option Error) (e : Error) → o ≡ none → o ≡ some e → ⊥
not_both o e h k = ground arith

-- The relay serves with its pool and its producer open, and on top of them the listener or nothing.
abbrev pub RelayNeeds : List Resource → Type 0
RelayNeeds rs = (rs ≡ producer ∷ pool ∷ []) ⊎ (rs ≡ listener ∷ producer ∷ pool ∷ [])

module _ (std : Std) (parsers : Parsers) (getenv : String → String) (pgx : PgxPool) {Dir W : Type 0}
    (goose : Goose Dir W) where
  module _ (jittered : ℤ → ℤ) (new_client : List ClientOption → Option Error)
      (group : RelayWiring → Option Error) where
    relay_with_wakeup-InOrderOn :
        (cfg : RelayConfig) (v : ℤ)
        → InOrderOn RelayNeeds
            (producer ∷ pool ∷ [])
            (relay_with_wakeup std parsers getenv pgx goose jittered new_client group cfg v)
    unfolding relay_with_wakeup relay_serves
    relay_with_wakeup-InOrderOn cfg v = elim (Bool-cases cfg.use_notify) [
      | inl wakes ↦
          rw (relay_with_wakeup, wakes)
            (holding-InOrderOn RelayNeeds listener (producer ∷ pool ∷ []) _
              (served-InOrderOn RelayNeeds (listener ∷ producer ∷ pool ∷ []) _ (inr refl)))
      | inr polls ↦
          rw (relay_with_wakeup, polls)
            (served-InOrderOn RelayNeeds (producer ∷ pool ∷ []) _ (inl refl))
    ]

    -- Whatever fails, the relay closes each of the pool, the producer and the listener that it has
    -- opened exactly once and in the reverse order; and it serves only with the pool and the producer
    -- open.
    pub run_relay-InOrder :
        InOrder RelayNeeds [] (run_relay std parsers getenv pgx goose jittered new_client group).1
    unfolding run_relay relay_with_pool
    run_relay-InOrder =
        InOrderOn-InOrder RelayNeeds
          (run_relay std parsers getenv pgx goose jittered new_client group)
          (or_fail-InOrderOn RelayNeeds [] (load_relay std parsers getenv) _ λ cfg.
            or_fail-InOrderOn RelayNeeds []
              (new_pool parsers pgx (default_pool_config cfg.accounts_database_url (pos 5)) 0).0 _
              λ settings. holding-InOrderOn RelayNeeds pool [] _ (
                or_fail-InOrderOn RelayNeeds (pool ∷ []) (latest std goose accounts) _ λ v.
                  or_fail-InOrderOn RelayNeeds (pool ∷ [])
                    (new_producer std parsers new_client
                      (default_producer_config cfg.kafka_brokers))
                    _
                    λ options.
                      holding-InOrderOn RelayNeeds producer (pool ∷ []) _
                        (relay_with_wakeup-InOrderOn cfg v)))

    -- What a configuration that LoadRelay returns promises the parts that the relay wires with it: the
    -- pool accepts it; and with a maximum of the idle wait that is positive and below 2^62 nanoseconds,
    -- the policy of the loop is sane, and so is the schedule's base.
    pub load_relay-wiring :
        (cfg : RelayConfig) (v : ℤ)
        → load_relay std parsers getenv ≡ ok cfg
        → pos 0 <ℤ cfg.idle_max
        → cfg.idle_max <ℤ pos (2 ^ 62)
        → let w = relay_wiring std parsers getenv pgx goose jittered new_client group cfg v in
          (validate parsers (default_pool_config cfg.accounts_database_url (pos 5)) ≡ none)
          × IsSane w.policy
          × (pos 0 <ℤ w.schedule.base)
          × (pos 0 <ℤ w.batch_size)
          × (pos 0 <ℤ w.purge_batch)
    unfolding relay_wiring
    load_relay-wiring cfg v loaded top fits =
        let u = load_relay-IsUsable std parsers getenv cfg loaded in
        (
          (validate_iff parsers _).1
              ((default_pool_config-IsUsable _ (pos 5)).1 (u.url, omega arith)),
          record { positive = u.idle_min; ordered = ground (arith, u.idle_max, top); fits = fits },
          u.backoff_base,
          u.batch_size,
          u.purge_batch,
        )

  module _ (group : ApiConfig → ℤ → Option Error) where
    -- Whatever fails, the API closes the pool that it has opened, and serves only with it open.
    pub run_api-InOrder :
        InOrder (λ rs. rs ≡ pool ∷ []) [] (run_api std parsers getenv pgx goose group).1
    unfolding run_api
    run_api-InOrder =
        InOrderOn-InOrder (λ rs. rs ≡ pool ∷ []) (run_api std parsers getenv pgx goose group)
          (or_fail-InOrderOn (λ rs. rs ≡ pool ∷ []) [] (load_api std parsers getenv) _
            λ cfg.
              or_fail-InOrderOn (λ rs. rs ≡ pool ∷ []) []
                (new_pool parsers pgx (default_pool_config cfg.accounts_database_url (pos 10)) 0).0
                _
                λ settings.
                  holding-InOrderOn (λ rs. rs ≡ pool ∷ []) pool [] _
                    (or_fail-InOrderOn (λ rs. rs ≡ pool ∷ []) (pool ∷ [])
                      (latest std goose accounts) _
                      λ v.
                        served-InOrderOn (λ rs. rs ≡ pool ∷ []) (pool ∷ []) (stopped (group cfg v))
                          refl))

-- GET /readyz answers 200 exactly when the version of the schema was read and is at least the one that
-- the process expects, and GET /healthz answers 200 in any case.
pub ready_probe :
    (std : Std) {Dir W : Type 0} (goose : Goose Dir W) (read : Result ℤ) (expected : ℤ)
    → ((e : Error) → read ≡ err e → is e schema_behind ≡ false)
    → let answer = λ (path : String). route (ready std goose read expected) "GET" path in
      (((r : Response) × (answer "/readyz" ≡ some r) × (r.status ≡ status_ok))
        ↔ ((applied : ℤ) × (read ≡ ok applied) × (expected ≤ℤ applied)))
      × (answer "/healthz" ≡ some healthz)
      × (healthz.status ≡ status_ok)
unfolding route readyz healthz
ready_probe std goose read expected other =
    let (one, _) = ready_iff std goose read expected other in
    (
      elim (Option-cases (ready std goose read expected)) [
        | inl fine ↦ rw fine ((λ _. one.0 fine), λ _. (_, refl, refl))
        | inr (e, failed) ↦ rw failed (
          (λ (r, answered, good). absurd (omega (arith, good, unavailable e r answered))),
          λ reached. absurd (not_both _ e (one.1 reached) failed),
        )
      ],
      refl,
      refl,
    )
