-- ===== src/Api/Health/Examples.antt =====
-- The health page of a service whose rate-limit Redis is down.
use fire_ctrl.Prelude.{ℕ, String, ◌≡◌, ◌↔◌, refl, true, none, some, [], Result, ok, err}
use fire_ctrl.Models.{Json}
use fire_ctrl.Queue.{Db, Call}
use fire_ctrl.Llm.Retry.{Reply}
use fire_ctrl.Llm.Chat.{LlmConfig}
use fire_ctrl.Api.Health.{Redis, health_handler, IsHealthy, health_handler_iff}

abbrev no_model : LlmConfig
no_model = record {
  base_url = "";
  api_key = "";
  model_name = "";
  embedding_model = none;
  ollama_base_url = none;
  timeout_seconds = 10;
  max_retries = 1;
  max_input_chars = 24000;
}

abbrev no_json : String → Result String Json
no_json s = err "no JSON"

abbrev no_reply : ℕ → String → Reply
no_reply n s = Reply.timed_out

abbrev answers : Call
answers = record { fault = none; now = 0; fresh = 0; uuid_text = λ n. "" }

abbrev up : Redis
up = record { opened = ok tt; connected = some (ok tt); ponged = some (ok tt) }

abbrev slow : Redis
slow = record { opened = ok tt; connected = none; ponged = none }

abbrev empty_db : Db
empty_db = record { jobs = []; groups = [] }

slow_redis :
    (health_handler no_json no_reply no_model answers up slow empty_db).0.1.services.redis.error
    ≡ some "rate-limit redis: connection timed out"
unfolding health_handler
slow_redis = refl

health_handler_iff_example :
    (((health_handler no_json no_reply no_model answers up up empty_db).0.0 ≡ 200)
      ↔ IsHealthy no_json no_reply no_model answers up up)
    × (((health_handler no_json no_reply no_model answers up up empty_db).0.0 ≡ 200) ↔ (
        ((health_handler no_json no_reply no_model answers up up
            empty_db).0.1.services.database.healthy
          ≡ true)
        × ((health_handler no_json no_reply no_model answers up up
              empty_db).0.1.services.redis.healthy
            ≡ true)
        × ((health_handler no_json no_reply no_model answers up up
              empty_db).0.1.services.llm.healthy
            ≡ true)))
health_handler_iff_example = health_handler_iff no_json no_reply no_model answers up up empty_db
