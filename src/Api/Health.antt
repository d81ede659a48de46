-- ===== src/Api/Health.antt =====
-- `health_handler` and `ping_redis` of src/api.rs, and `ping` of src/database.rs.
mod Examples
use Prim.Native.String.{◌++◌}
use fire_ctrl.Prelude.{
  ℕ, String, ◌≡◌, ◌↔◌, refl, Bool, true, false, ◌&&◌, Option, none, some, arith, Result, ok, err,
  ◌>>◌, map_err, if◌then◌else◌,
}
use fire_ctrl.Models.{AppError, Json, to_string}
use fire_ctrl.Llm.Retry.{Reply}
use fire_ctrl.Llm.Chat.{LlmConfig, is_configured, health_check}
use fire_ctrl.Queue.{Db, Call, run}

pub record ComponentStatus : Type 0 where
  pub healthy : Bool
  pub error : Option String

pub record ServiceHealth : Type 0 where
  pub database : ComponentStatus
  pub redis : ComponentStatus
  pub llm : ComponentStatus

pub record HealthResponse : Type 0 where
  pub status : String
  pub services : ServiceHealth

-- `DbClient::ping`.
unfoldable pub ping : Call → Db → Result AppError Unit × Db
unfolding run
ping c = run c (λ db. (ok tt, db))

-- What the redis client answers: the opening of the URL, the connection and the PING, each of the
-- last two under a timeout of two seconds.
pub record Redis : Type 0 where
  pub opened : Result String (Unit {0})
  pub connected : Option (Result String (Unit {0}))
  pub ponged : Option (Result String (Unit {0}))

abbrev timed : String → Option (Result String (Unit {0})) → Result String (Unit {0})
timed late none = err late
timed late (some r) = r

unfoldable pub ping_redis : Redis → Result String (Unit {0})
ping_redis r = do
  r.opened
  timed "connection timed out" r.connected
  timed "PING timed out" r.ponged

abbrev pub is_ok : {E A : Type 0} → Result E A → Bool
is_ok (ok a) = true
is_ok (err e) = false

abbrev error_of : Result String (Unit {0}) → Option String
error_of (ok a) = none
error_of (err e) = some e

abbrev pub both_redis :
    Result String (Unit {0}) → Result String (Unit {0}) → Result String (Unit {0})
both_redis (ok a) (ok b) = ok tt
both_redis (err e) (ok b) = err ("primary redis: " ++ e)
both_redis (ok a) (err e) = err ("rate-limit redis: " ++ e)
both_redis (err a) (err b) = err ("primary redis: " ++ (a ++ ("; rate-limit redis: " ++ b)))

-- A model that is not configured is not checked.
abbrev pub llm_health : Bool → Result String (Unit {0}) → Bool
llm_health true llm = is_ok llm
llm_health false llm = true

-- The answer that is made of the three checks.
abbrev pub report : Result AppError Unit → Result String (Unit {0}) → Bool → ℕ × HealthResponse
report database redis llm_ok =
    let fine = is_ok database && is_ok redis && llm_ok in
    (
      if fine then 200 else 503,
      record {
        status = if fine then "ok" else "degraded";
        services = record {
          database = record {
            healthy = is_ok database;
            error = error_of (map_err to_string database);
          };
          redis = record { healthy = is_ok redis; error = error_of redis };
          llm = record { healthy = llm_ok; error = none };
        };
      },
    )

unfoldable pub health_handler :
    (String → Result String Json)
    → (ℕ → String → Reply)
    → LlmConfig
    → Call
    → Redis
    → Redis
    → Db
    → (ℕ × HealthResponse) × Db
unfolding ping_redis
health_handler parse chat cfg c primary rate db =
    let (database, db') = ping c db in
    (
      report database (both_redis (ping_redis primary) (ping_redis rate))
          (llm_health (is_configured cfg) (health_check parse chat cfg.max_retries)),
      db',
    )

report_iff :
    (d : Result AppError Unit) (r : Result String (Unit {0})) (l : Bool)
    → ((report d r l).0 ≡ 200) ↔ ((is_ok d ≡ true) × (is_ok r ≡ true) × (l ≡ true))
report_iff d r l = (λ h. ground arith, λ h. ground arith)

ping_iff : (c : Call) (db : Db) → (is_ok (ping c db).0 ≡ true) ↔ (c.fault ≡ none)
unfolding ping
ping_iff c db = (λ h. ground arith, λ h. ground arith)

both_redis_iff :
    (a b : Result String (Unit {0})) → (is_ok (both_redis a b) ≡ true) ↔ ((a ≡ ok tt) × (b ≡ ok tt))
both_redis_iff a b = (λ h. ground arith, λ h. ground arith)

llm_health_iff :
    (k : Bool) (llm : Result String (Unit {0}))
    → (llm_health k llm ≡ true) ↔ ((k ≡ true) → (llm ≡ ok tt))
llm_health_iff true (ok a) = (λ h e. refl, λ h. refl)
llm_health_iff true (err x) = (λ h. cc, λ h. cc (h refl))
llm_health_iff false llm = (λ h e. cc, λ h. refl)

-- What a health check looks at.
abbrev pub IsHealthy :
    (String → Result String Json) → (ℕ → String → Reply) → LlmConfig → Call → Redis → Redis → Type 0
IsHealthy parse chat cfg c primary rate =
    (c.fault ≡ none)
    × (ping_redis primary ≡ ok tt)
    × (ping_redis rate ≡ ok tt)
    × ((is_configured cfg ≡ true) → (health_check parse chat cfg.max_retries ≡ ok tt))

-- The health page has the status code 200 exactly when the database and both Redis servers answer
-- their pings, and the model passes its check if one is configured; and the code is 200 exactly when
-- each of the three services is shown as healthy.
pub health_handler_iff :
    (parse : String → Result String Json) (chat : ℕ → String → Reply) (cfg : LlmConfig) (c : Call)
    (primary rate : Redis) (db : Db)
    → (((health_handler parse chat cfg c primary rate db).0.0 ≡ 200)
        ↔ IsHealthy parse chat cfg c primary rate)
      × (((health_handler parse chat cfg c primary rate db).0.0 ≡ 200) ↔ (
          ((health_handler parse chat cfg c primary rate db).0.1.services.database.healthy ≡ true)
          × ((health_handler parse chat cfg c primary rate db).0.1.services.redis.healthy ≡ true)
          × ((health_handler parse chat cfg c primary rate db).0.1.services.llm.healthy ≡ true)))
unfolding health_handler
health_handler_iff parse chat cfg c primary rate db =
    let code =
      report_iff (ping c db).0 (both_redis (ping_redis primary) (ping_redis rate))
        (llm_health (is_configured cfg) (health_check parse chat cfg.max_retries)) in
    (
      (
        λ h. (
          (ping_iff c db).0 (code.0 h).0,
          ((both_redis_iff (ping_redis primary) (ping_redis rate)).0 (code.0 h).1).0,
          ((both_redis_iff (ping_redis primary) (ping_redis rate)).0 (code.0 h).1).1,
          (llm_health_iff (is_configured cfg) (health_check parse chat cfg.max_retries)).0
              (code.0 h).2,
        ),
        λ h. code.1 (
          (ping_iff c db).1 h.0,
          (both_redis_iff (ping_redis primary) (ping_redis rate)).1 (h.1, h.2),
          (llm_health_iff (is_configured cfg) (health_check parse chat cfg.max_retries)).1 h.3,
        ),
      ),
      code,
    )
