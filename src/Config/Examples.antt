-- ===== src/Config/Examples.antt =====
-- A complete environment.
use fire_ctrl.Prelude.{
  String, ◌≡◌, ◌↔◌, refl, true, false, Option, none, some, List, [], ◌∷◌, All, str_eq, ok,
}
use fire_ctrl.Config.Env.{
  Env, env_required_u32, env_required_u64, env_required_usize, parse_uint, u16_max,
  env_required_str, env_opt, env_required_u16, env_required_u32, env_required_u64,
  env_required_usize, env_required_bool, env_required_f64,
}
use fire_ctrl.Config.Env.Numbers.{IsSetTo, env_required_uint_iff}
use fire_ctrl.Config.Load.{Config, from_env}
use fire_ctrl.Config.Load.Requires.{required, HasBaseUrl, IsGiven, from_env-requires}
use fire_ctrl.Config.Load.Bounded.{IsBounded, from_env-IsBounded}

abbrev settings : List (String × String)
settings =
    ("HOST", "0.0.0.0")
    ∷ ("PORT", "3002")
    ∷ ("CORS_ALLOW_ORIGINS", "a, ,b")
    ∷ ("POSTGRES_HOST", "db")
    ∷ ("POSTGRES_PORT", "5432")
    ∷ ("POSTGRES_DB", "nuq")
    ∷ ("POSTGRES_USER", "u")
    ∷ ("POSTGRES_PASSWORD", "p")
    ∷ ("DATABASE_MAX_CONNECTIONS", "8")
    ∷ ("REDIS_URL", "r")
    ∷ ("REDIS_RATE_LIMIT_URL", "rl")
    ∷ ("OLLAMA_BASE_URL", "http://o")
    ∷ ("MODEL_NAME", "m")
    ∷ ("LLM_TIMEOUT_SECONDS", "30")
    ∷ ("LLM_MAX_RETRIES", "3")
    ∷ ("LLM_MAX_INPUT_CHARS", "24000")
    ∷ ("CRAWLER_MAX_DEPTH", "5")
    ∷ ("CRAWLER_MAX_PAGES", "100")
    ∷ ("CRAWL_CONCURRENT_REQUESTS", "4")
    ∷ ("CRAWLER_REQUEST_TIMEOUT_SECONDS", "30")
    ∷ ("CRAWLER_USER_AGENT", "fire")
    ∷ ("CRAWLER_RESPECT_ROBOTS_TXT", "yes")
    ∷ ("BROWSER_POOL_SIZE", "2")
    ∷ ("NUM_WORKERS_PER_QUEUE", "4")
    ∷ ("MAX_CONCURRENT_JOBS", "4")
    ∷ ("WORKER_JOB_TIMEOUT_SECONDS", "300")
    ∷ ("WORKER_MAX_STALLS", "3")
    ∷ ("USE_DB_AUTHENTICATION", "0")
    ∷ ("BULL_AUTH_KEY", "k")
    ∷ ("ALLOW_LOCAL_WEBHOOKS", "no")
    ∷ ("MAX_CPU", "0.8")
    ∷ ("MAX_RAM", "0.8")
    ∷ []

abbrev lookup : List (String × String) → Env
lookup [] key = none
lookup (p ∷ ps) key = elim (str_eq p.0 key) [ true ↦ some p.1 | false ↦ lookup ps key ]

-- A fraction stands by its text.
abbrev fraction : String → Option String
fraction s = some s

abbrev config : Config String
config = record {
  server = record { host = "0.0.0.0"; port = 3002; cors_allow_origins = "a" ∷ "b" ∷ [] };
  database = record {
    host = "db";
    port = 5432;
    database = "nuq";
    user = "u";
    password = "p";
    max_connections = 8;
  };
  redis = record { url = "r"; rate_limit_url = "rl" };
  llm = record {
    base_url = "http://o";
    api_key = "";
    model_name = "m";
    embedding_model = none;
    ollama_base_url = some "http://o";
    timeout_seconds = 30;
    max_retries = 3;
    max_input_chars = 24000;
  };
  crawler = record {
    max_depth = 5;
    max_pages = 100;
    concurrent_requests = 4;
    request_timeout_seconds = 30;
    user_agent = "fire";
    respect_robots_txt = true;
    playwright_url = none;
    browser_pool_size = 2;
  };
  worker = record {
    num_workers = 4;
    max_concurrent_jobs = 4;
    job_timeout_seconds = 300;
    max_stalls = 3;
  };
  auth = record {
    use_db_authentication = false;
    test_api_key = none;
    bull_auth_key = "k";
    allow_local_webhooks = false;
  };
  proxy = record { server = none; username = none; password = none };
  search = record { searxng_endpoint = none; searxng_engines = none; searxng_categories = none };
  resource = record { max_cpu = "0.8"; max_ram = "0.8" };
}

read_config : from_env fraction (lookup settings) ≡ ok config
unfolding from_env env_required_str env_opt env_required_u16 env_required_u32 env_required_u64
    env_required_usize env_required_bool env_required_f64
read_config = refl

from_env-requires_example :
    All (All (IsGiven (lookup settings))) required × HasBaseUrl (lookup settings)
from_env-requires_example = from_env-requires fraction (lookup settings) config read_config

from_env-IsBounded_example : IsBounded config
from_env-IsBounded_example = from_env-IsBounded fraction (lookup settings) config read_config

abbrev port_80 : Env
port_80 key = some "+0080"

env_required_uint_iff_example :
    ((env_required_u16 port_80 "PORT" ≡ ok 80) ↔ IsSetTo port_80 "PORT" 65535 80)
    × ((env_required_u32 port_80 "PORT" ≡ ok 80) ↔ IsSetTo port_80 "PORT" 4294967295 80)
    × ((env_required_u64 port_80 "PORT" ≡ ok 80) ↔ IsSetTo port_80 "PORT" 18446744073709551615 80)
    × ((env_required_usize port_80 "PORT" ≡ ok 80) ↔ IsSetTo port_80 "PORT" 18446744073709551615 80)
env_required_uint_iff_example = env_required_uint_iff port_80 "PORT" 80

too_large : parse_uint u16_max "65536" ≡ none
unfolding parse_uint
too_large = refl

no_number :
    (parse_uint u16_max "+" ≡ none)
    × (parse_uint u16_max "-1" ≡ none)
    × (parse_uint u16_max "" ≡ none)
unfolding parse_uint
no_number = (refl, refl, refl)
