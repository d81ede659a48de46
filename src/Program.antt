-- ===== src/Program.antt =====
-- src/main.rs: the commands of the binary.
mod Examples
use Prim.Native.String.{◌++◌}
use fire_ctrl.Prelude.{
  ℕ, suc, ◌+◌, String, ◌≡◌, ◌↔◌, refl, Bool, true, false, Option, none, some, List, [], ◌∷◌,
  ◌++◌ as list_append, arith, length, tally, Result, ok, err, ◌>>=◌, ◌>>◌, map_err, if◌then◌else◌,
}
use fire_ctrl.Prelude.Lines.{joined}
use fire_ctrl.Models.{AppError, to_string}
use fire_ctrl.Config.Load.{Config, DatabaseConfig, ServerConfig, addr}
use fire_ctrl.Llm.Chat.{is_configured}

-- `source()` after `source()`: the texts of the causes.
pub error_chain : List String → String
unfolding joined
error_chain [] = "(no further cause)"
error_chain (c ∷ cs) = joined " -> " (c ∷ cs)

-- What the commands meet outside: the pool, the database's ping, the scraper with its browsers, the
-- reading of a header, the socket and the server, and the worker pool.
pub record Machine (F S : Type 0) : Type 0 where
  pub config : Result String (Config F)
  pub number : ℕ → String
  pub socket : String → Result String S
  pub build_pool : DatabaseConfig → Result String (Unit {0})
  pub ping : Result AppError (Unit {0})
  pub causes : AppError → List String
  pub scraper : Result AppError (Unit {0})
  pub header : String → Result String (Unit {0})
  pub bind : S → Result String (Unit {0})
  pub serve : Result String (Unit {0})
  pub run : Result String (Unit {0})
  pub redis_primary : Result String (Unit {0})
  pub redis_rate : Result String (Unit {0})
  pub llm_check : Result String (Unit {0})

abbrev hint : String
hint =
    "Hint: verify POSTGRES_* env vars are correct, postgresql@17 is running, and shared_preload_libraries = 'timescaledb' is set in postgresql.conf (run `just install` to configure this automatically)."

unreachable : (AppError → List String) → AppError → String
unfolding to_string error_chain
unreachable causes e =
    "Database connectivity check failed: "
    ++ (to_string e ++ ("\n" ++ (hint ++ ("\nCause chain: " ++ error_chain (causes e)))))

module _ {F S : Type 0} (m : Machine F S) where
  -- The pool, the ping, and the scraper, which both long-running commands begin with.
  unfoldable pub connect : Config F → Result String (Unit {0})
  unfolding unreachable
  connect cfg = do
    m.build_pool cfg.database
    map_err (unreachable m.causes) m.ping
    map_err to_string m.scraper

  -- The loop over the origins, left at the first that is no header.
  pub allow_origins : List String → Result String (Unit {0})
  allow_origins [] = ok tt
  allow_origins (o ∷ os) = do
    map_err (λ e. "Invalid CORS_ALLOW_ORIGINS entry `" ++ (o ++ ("`: " ++ e))) (m.header o)
    allow_origins os

  pub run_server : Config F → Result String (Unit {0})
  unfolding connect allow_origins
  run_server cfg = do
    at ← addr m.number m.socket cfg.server
    connect cfg
    allow_origins cfg.server.cors_allow_origins
    m.bind at
    m.serve

  -- The result, and whether the browsers were shut down.
  pub run_worker : Config F → Result String (Unit {0}) × Bool
  unfolding connect
  run_worker cfg = elim (connect cfg) [ ok done ↦ (m.run, true) | err e ↦ (err e, false) ]

-- What a command logs.
pub data Line : Type 0 where
  info warn : String → Line

abbrev pub is_warn : Line → Bool
is_warn (Line.info s) = false
is_warn (Line.warn s) = true

abbrev pub database_lines : Result AppError (Unit {0}) → List Line
database_lines (ok done) = Line.info "Database: ok" ∷ []
database_lines (err e) = Line.warn ("Database: " ++ to_string e) ∷ []

abbrev pub redis_lines : Result String (Unit {0}) → Result String (Unit {0}) → List Line
redis_lines (ok a) (ok b) = Line.info "Redis: ok (primary + rate-limit)" ∷ []
redis_lines (err e) (ok b) = Line.warn ("Redis primary: " ++ e) ∷ []
redis_lines (ok a) (err e) = Line.warn ("Redis rate-limit: " ++ e) ∷ []
redis_lines (err e) (err f) =
    Line.warn ("Redis primary: " ++ e) ∷ Line.warn ("Redis rate-limit: " ++ f) ∷ []

abbrev pub llm_lines : Bool → Result String (Unit {0}) → List Line
llm_lines false r = Line.info "LLM: not configured (skipped)" ∷ []
llm_lines true (ok done) = Line.info "LLM: ok" ∷ []
llm_lines true (err e) = Line.warn ("LLM: " ++ e) ∷ []

-- The two pings of Redis have no timeout here.
abbrev pub checks : {F S : Type 0} → Machine F S → Config F → List Line
checks m cfg = list_append (database_lines m.ping) (
    list_append (redis_lines m.redis_primary m.redis_rate) (
      list_append (llm_lines (is_configured cfg.llm) m.llm_check)
        (Line.info "Health check complete" ∷ [])))

-- The result, and what is logged on the way.
pub run_healthcheck : {F S : Type 0} → Machine F S → Config F → Result String (Unit {0}) × List Line
run_healthcheck m cfg = elim (m.build_pool cfg.database) [
  | err e ↦ (err e, Line.info "Running health check…" ∷ [])
  | ok done ↦ (ok tt, Line.info "Running health check…" ∷ checks m cfg)
]

pub data Command : Type 0 where
  server worker all healthcheck : Command

-- `try_join!`: the first error ends both; `server_first` tells which of two errors comes first.
abbrev try_join :
    Bool → Result String (Unit {0}) → Result String (Unit {0}) → Result String (Unit {0})
try_join server_first (ok a) r = r
try_join server_first (err e) (ok b) = err e
try_join true (err e) (err f) = err e
try_join false (err e) (err f) = err f

pub dispatch : {F S : Type 0} → Machine F S → Bool → Command → Config F → Result String (Unit {0})
unfolding run_server run_worker run_healthcheck
dispatch m server_first Command.server cfg = run_server m cfg
dispatch m server_first Command.worker cfg = (run_worker m cfg).0
dispatch m server_first Command.all cfg =
    try_join server_first (run_server m cfg) (run_worker m cfg).0
dispatch m server_first Command.healthcheck cfg = (run_healthcheck m cfg).0

-- The configuration is read before the command line.
pub main : {F S : Type 0} → Machine F S → Bool → Command → Result String (Unit {0})
unfolding dispatch
main m server_first command = do
  cfg ← map_err (λ e. "Cannot start without a valid configuration: " ++ e) m.config
  dispatch m server_first command cfg

-- How many services do not answer.
abbrev failing : {E : Type 0} → Result E (Unit {0}) → ℕ
failing (ok a) = 0
failing (err e) = 1

abbrev pub down : {F S : Type 0} → Machine F S → Config F → ℕ
down m cfg =
    failing m.ping
    + failing m.redis_primary
    + failing m.redis_rate
    + (if is_configured cfg.llm then failing m.llm_check else 0)

run_healthcheck_run :
    {F S : Type 0} (m : Machine F S) (cfg : Config F)
    → m.build_pool cfg.database ≡ ok tt
    → run_healthcheck m cfg ≡ (ok tt, Line.info "Running health check…" ∷ checks m cfg)
unfolding run_healthcheck
run_healthcheck_run m cfg built = rw (run_healthcheck, built) refl

-- Once the pool is built, the health check of the command line succeeds whatever the services answer:
-- it only logs, with one warning for each service that does not answer.
run_healthcheck-warns :
    {F S : Type 0} (m : Machine F S) (cfg : Config F)
    → m.build_pool cfg.database ≡ ok tt
    → ((run_healthcheck m cfg).0 ≡ ok tt) × (tally is_warn (run_healthcheck m cfg).1 ≡ down m cfg)
run_healthcheck-warns m cfg built =
    rw (run_healthcheck_run m cfg built)
      (refl, count m.ping m.redis_primary m.redis_rate (is_configured cfg.llm) m.llm_check)
  where
    count :
        (p : Result AppError (Unit {0})) (a b : Result String (Unit {0})) (k : Bool)
        (l : Result String (Unit {0}))
        → tally is_warn (
            list_append (database_lines p) (
              list_append
                (redis_lines a b)
                (list_append (llm_lines k l) (Line.info "Health check complete" ∷ []))))
          ≡ failing p + failing a + failing b + (if k then failing l else 0)
    count p a b k l = ground arith
