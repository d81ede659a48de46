-- ===== src/Program/Examples.antt =====
-- A health check in which nothing answers, and a server with a bad origin.
use fire_ctrl.Prelude.{String, ◌≡◌, refl, true, false, none, some, [], ◌∷◌, str_eq, Result, ok, err}
use fire_ctrl.Models.{AppError}
use fire_ctrl.Config.Load.{Config, addr}
use fire_ctrl.Program.{Machine, Command, error_chain, main}

abbrev config : Config String
config = record {
  server = record {
    host = "0.0.0.0";
    port = 3002;
    cors_allow_origins = "https://a.example" ∷ "\n" ∷ [];
  };
  database = record {
    host = "db";
    port = 5432;
    database = "nuq";
    user = "u";
    password = "p";
    max_connections = 8;
  };
  redis = record { url = "r"; rate_limit_url = "rl" };
  llm = record {
    base_url = "http://o";
    api_key = "";
    model_name = "m";
    embedding_model = none;
    ollama_base_url = some "http://o";
    timeout_seconds = 30;
    max_retries = 3;
    max_input_chars = 24000;
  };
  crawler = record {
    max_depth = 5;
    max_pages = 100;
    concurrent_requests = 4;
    request_timeout_seconds = 30;
    user_agent = "fire";
    respect_robots_txt = true;
    playwright_url = none;
    browser_pool_size = 2;
  };
  worker = record {
    num_workers = 4;
    max_concurrent_jobs = 4;
    job_timeout_seconds = 300;
    max_stalls = 3;
  };
  auth = record {
    use_db_authentication = false;
    test_api_key = none;
    bull_auth_key = "k";
    allow_local_webhooks = false;
  };
  proxy = record { server = none; username = none; password = none };
  search = record { searxng_endpoint = none; searxng_engines = none; searxng_categories = none };
  resource = record { max_cpu = "0.8"; max_ram = "0.8" };
}

abbrev bad_header : String → Result String (Unit {0})
bad_header s = elim (str_eq s "\n") [ true ↦ err "bad header" | false ↦ ok tt ]

abbrev nothing_answers : Machine String String
nothing_answers = record {
  config = ok config;
  number = λ n. "3002";
  socket = λ s. ok s;
  build_pool = λ c. ok tt;
  ping = err (AppError.pool "timeout");
  causes = λ e. "io" ∷ "refused" ∷ [];
  scraper = ok tt;
  header = bad_header;
  bind = λ s. ok tt;
  serve = ok tt;
  run = ok tt;
  redis_primary = err "refused";
  redis_rate = err "refused";
  llm_check = err "refused";
}

two_causes : error_chain ("io" ∷ "refused" ∷ []) ≡ "io -> refused"
unfolding error_chain
two_causes = refl

bad_origin :
    main (record nothing_answers { ping = ok tt }) true Command.server
    ≡ err "Invalid CORS_ALLOW_ORIGINS entry `\n`: bad header"
unfolding main addr
bad_origin = refl
