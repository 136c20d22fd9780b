-- ===== src/Platform/Pool.antt =====
-- internal/platform/postgres/config.go and pool.go: the settings of a pool, and opening one. pgxpool is
-- what a call meets.
use Prim.Native.String.{◌++◌}
use outboxexpress.Common.{
  ℕ, suc, ◌≡◌, ◌≢◌, ◌↔◌, ◌⊎◌, inl, inr, refl, String, Bool, true, false, ◌&&◌, Option, none, some,
  List, [], ◌∷◌, All, arith, str_eq, eq_iff, Option-cases,
}
use outboxexpress.Common.Int.{ℤ, pos, ◌≤ℤ◌, ◌<ℤ◌, leb_ℤ, ltb_ℤ}
use outboxexpress.Errors.{Error, Result, ok, err, wrap, opaque}
use outboxexpress.Config.{Parsers, join}
use outboxexpress.Config.Usable.{join-none}

pub record PoolConfig : Type 0 where
  pub dsn : String
  pub max_conns : ℤ
  pub min_conns : ℤ
  pub max_conn_lifetime : ℤ
  pub max_conn_idle_time : ℤ
  pub health_check_period : ℤ

-- DefaultPoolConfig, in nanoseconds.
unfoldable pub default_pool_config : String → ℤ → PoolConfig
default_pool_config dsn max_conns = record {
  dsn = dsn;
  max_conns = max_conns;
  min_conns = pos 2;
  max_conn_lifetime = pos 3600000000000;
  max_conn_idle_time = pos 300000000000;
  health_check_period = pos 30000000000;
}

-- `if wrong { errs = append(errs, ...) }`
unfoldable pub problem : Bool → String → Option Error
problem true message = some (opaque message)
problem false message = none

-- The errors that validate collects.
unfoldable pub pool_problems : Parsers → PoolConfig → List (Option Error)
unfolding problem
pool_problems parsers c =
    let int = parsers.show_int in
    let duration = parsers.show_duration in
    problem (str_eq c.dsn "") "DSN is empty"
    ∷ problem (leb_ℤ c.max_conns (pos 0)) ("MaxConns must be positive, got " ++ int c.max_conns)
    ∷ problem (ltb_ℤ c.min_conns (pos 0)) ("MinConns must not be negative, got " ++ int c.min_conns)
    ∷ problem (ltb_ℤ (pos 0) c.max_conns && ltb_ℤ c.max_conns c.min_conns)
        ("MinConns " ++ (int c.min_conns ++ (" exceeds MaxConns " ++ int c.max_conns)))
    ∷ problem (leb_ℤ c.max_conn_lifetime (pos 0))
        ("MaxConnLifetime must be positive, got " ++ duration c.max_conn_lifetime)
    ∷ problem (leb_ℤ c.max_conn_idle_time (pos 0))
        ("MaxConnIdleTime must be positive, got " ++ duration c.max_conn_idle_time)
    ∷ problem (ltb_ℤ (pos 0) c.max_conn_lifetime && ltb_ℤ c.max_conn_lifetime c.max_conn_idle_time)
        ("MaxConnIdleTime "
          ++ (duration c.max_conn_idle_time
              ++ (" exceeds MaxConnLifetime " ++ duration c.max_conn_lifetime)))
    ∷ problem (leb_ℤ c.health_check_period (pos 0))
        ("HealthCheckPeriod must be positive, got " ++ duration c.health_check_period)
    ∷ []

-- errors.Join of the problems under a prefix, or nil.
unfoldable pub refusal : String → List (Option Error) → Option Error
unfolding join
refusal what problems = elim (join problems) [ none ↦ none | some e ↦ some (wrap what e) ]

unfoldable pub validate : Parsers → PoolConfig → Option Error
unfolding pool_problems refusal
validate parsers c = refusal "postgres: pool config" (pool_problems parsers c)

-- What pgxpool answers: ParseConfig, NewWithConfig and Ping.
pub record PgxPool : Type 0 where
  pub parse_config : String → Option Error
  pub new_with_config : PoolConfig → Option Error
  pub ping : Option Error

-- NewPool: the settings that the pool runs with, and how many pools are open when it returns, of `open`
-- ones before.
unfoldable pub new_pool : Parsers → PgxPool → PoolConfig → ℕ → Result PoolConfig × ℕ
unfolding validate
new_pool parsers pgx c open_pools = elim (validate parsers c) [
  | some e ↦ (err e, open_pools)
  | none ↦ elim (pgx.parse_config c.dsn) [
    | some e ↦ (err (wrap "postgres: parse dsn" e), open_pools)
    | none ↦ elim (pgx.new_with_config c) [
      | some e ↦ (err (wrap "postgres: pool" e), open_pools)
      | none ↦ elim pgx.ping [
        | some e ↦ (err (wrap "postgres: ping" e), open_pools)
        | none ↦ (ok c, suc open_pools)
      ]
    ]
  ]
]

pub refusal-none :
    (what : String) (problems : List (Option Error))
    → refusal what problems ≡ none
    → All (λ o. o ≡ none) problems
unfolding refusal
refusal-none what problems h = join-none problems (ground arith)

pub none-refusal :
    (what : String) (problems : List (Option Error))
    → All (λ o. o ≡ none) problems
    → refusal what problems ≡ none
unfolding refusal join
none-refusal what [] h = refl
none-refusal what (o ∷ os) h = rw h.0 (none-refusal what os h.1)

-- Settings that a pool can run with.
pub record IsUsable (c : PoolConfig) : Type 0 where
  pub named : c.dsn ≢ ""
  pub floor : pos 0 ≤ℤ c.min_conns
  pub room : pos 0 <ℤ c.max_conns
  pub below : c.min_conns ≤ℤ c.max_conns
  pub lifetime : pos 0 <ℤ c.max_conn_lifetime
  pub idle : pos 0 <ℤ c.max_conn_idle_time
  pub idle_first : c.max_conn_idle_time ≤ℤ c.max_conn_lifetime
  pub checked : pos 0 <ℤ c.health_check_period

pub problem-none :
    (wrong : Bool) (message : String) → (problem wrong message ≡ none) ↔ (wrong ≡ false)
unfolding problem
problem-none wrong message = ground arith

-- The validation of a pool's settings refuses exactly the ones that are not usable: no DSN, a size that
-- is not positive or below the floor, a negative floor, a period that is not positive, or an idle time
-- above the lifetime.
pub validate_iff : (parsers : Parsers) (c : PoolConfig) → (validate parsers c ≡ none) ↔ IsUsable c
unfolding validate pool_problems
validate_iff parsers c = (to, from)
  where
    to : validate parsers c ≡ none → IsUsable c
    to h =
        let (dsn, (conns, (floor, (below, (life, (idle, (first, (period, _)))))))) =
          refusal-none "postgres: pool config" (pool_problems parsers c) h in
        record {
          named = λ e. ground (arith, (problem-none _ _).0 dsn, eq_iff c.dsn "");
          floor = ground (arith, (problem-none _ _).0 floor);
          room = ground (arith, (problem-none _ _).0 conns);
          below = ground (arith, (problem-none _ _).0 below, (problem-none _ _).0 conns);
          lifetime = ground (arith, (problem-none _ _).0 life);
          idle = ground (arith, (problem-none _ _).0 idle);
          idle_first = ground (arith, (problem-none _ _).0 first, (problem-none _ _).0 life);
          checked = ground (arith, (problem-none _ _).0 period);
        }

    from : IsUsable c → validate parsers c ≡ none
    from u = none-refusal "postgres: pool config" (pool_problems parsers c) (
      (problem-none _ _).1 (ground (arith, u.named, eq_iff c.dsn "")),
      (
        (problem-none _ _).1 (ground (arith, u.room)),
        (
          (problem-none _ _).1 (ground (arith, u.floor)),
          (
            (problem-none _ _).1 (ground (arith, u.below)),
            (
              (problem-none _ _).1 (ground (arith, u.lifetime)),
              (
                (problem-none _ _).1 (ground (arith, u.idle)),
                (
                  (problem-none _ _).1 (ground (arith, u.idle_first)),
                  ((problem-none _ _).1 (ground (arith, u.checked)), tt),
                ),
              ),
            ),
          ),
        ),
      ),
    )

-- The project's defaults are usable for a DSN and at least two connections.
pub default_pool_config-IsUsable :
    (dsn : String) (n : ℤ) → (IsUsable (default_pool_config dsn n)) ↔ ((dsn ≢ "") × (pos 2 ≤ℤ n))
unfolding default_pool_config
default_pool_config-IsUsable dsn n = (
  (λ u. (u.named, u.below)),
  λ (named, room). record {
    named = named;
    floor = omega arith;
    room = ground (arith, room);
    below = room;
    lifetime = omega arith;
    idle = omega arith;
    idle_first = omega arith;
    checked = omega arith;
  },
)

-- NewPool returns an open pool with exactly the given settings, which are usable and whose server has
-- answered a ping, or an error and no pool left open.
pub new_pool-cases :
    (parsers : Parsers) (pgx : PgxPool) (c : PoolConfig) (n : ℕ)
    → ((new_pool parsers pgx c n ≡ (ok c, suc n)) × IsUsable c × (pgx.ping ≡ none))
      ⊎ ((e : Error) × (new_pool parsers pgx c n ≡ (err e, n)))
unfolding new_pool
new_pool-cases parsers pgx c n = elim (Option-cases (validate parsers c)) [
  | inr (e, refused) ↦ inr (e, rw (new_pool, refused) refl)
  | inl usable ↦ elim (Option-cases (pgx.parse_config c.dsn)) [
    | inr (e, p) ↦ inr (wrap "postgres: parse dsn" e, rw (new_pool, usable, p) refl)
    | inl parsed ↦ elim (Option-cases (pgx.new_with_config c)) [
      | inr (e, p) ↦ inr (wrap "postgres: pool" e, rw (new_pool, usable, parsed, p) refl)
      | inl made ↦ elim (Option-cases pgx.ping) [
        | inr (e, p) ↦ inr (wrap "postgres: ping" e, rw (new_pool, usable, parsed, made, p) refl)
        | inl answered ↦ inl (
          rw (new_pool, usable, parsed, made, answered) refl,
          (validate_iff parsers c).0 usable,
          answered,
        )
      ]
    ]
  ]
]
