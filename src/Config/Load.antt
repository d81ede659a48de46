-- ===== src/Config/Load.antt =====
-- The records of src/config.rs and their `from_env`. The environment is that after `dotenv`. `F` is
-- `f64`, with its `str::parse`.
pub mod Requires
pub mod Bounded
use Prim.Native.String.{◌++◌}
use fire_ctrl.Prelude.{
  ℕ, String, Bool, not, Option, none, some, List, [], ◌∷◌, map, keep, unwrap_or, ◌==◌, Result, ok,
  err, ◌>>=◌, if◌then◌else◌,
}
use fire_ctrl.Prelude.Text.{trim, is_empty}
use fire_ctrl.Prelude.Lines.{split_char}
use fire_ctrl.Config.Env.{
  Env, env_required_str, env_opt, env_required_u16, env_required_u32, env_required_u64,
  env_required_usize, env_required_bool, env_required_f64,
}
use fire_ctrl.Llm.Chat.{LlmConfig}
use fire_ctrl.Scraper.Page.{CrawlerConfig}
use fire_ctrl.Api.Gate.{AuthConfig}
use fire_ctrl.Api.Search.{SearchConfig}

pub record ServerConfig : Type 0 where
  pub host : String
  pub port : ℕ
  pub cors_allow_origins : List String

pub record DatabaseConfig : Type 0 where
  pub host : String
  pub port : ℕ
  pub database : String
  pub user : String
  pub password : String
  pub max_connections : ℕ

pub record RedisConfig : Type 0 where
  pub url : String
  pub rate_limit_url : String

pub record WorkerConfig : Type 0 where
  pub num_workers : ℕ
  pub max_concurrent_jobs : ℕ
  pub job_timeout_seconds : ℕ
  pub max_stalls : ℕ

pub record ProxyConfig : Type 0 where
  pub server : Option String
  pub username : Option String
  pub password : Option String

pub record ResourceConfig (F : Type 0) : Type 0 where
  pub max_cpu : F
  pub max_ram : F

pub record Config (F : Type 0) : Type 0 where
  pub server : ServerConfig
  pub database : DatabaseConfig
  pub redis : RedisConfig
  pub llm : LlmConfig
  pub crawler : CrawlerConfig
  pub worker : WorkerConfig
  pub auth : AuthConfig
  pub proxy : ProxyConfig
  pub search : SearchConfig
  pub resource : ResourceConfig F

-- The parts between the commas, trimmed, without the empty ones.
unfoldable pub origins_of : Option String → List String
unfolding split_char trim
origins_of none = []
origins_of (some raw) = keep (λ s. not (is_empty s)) (map trim (split_char b',' raw))

unfoldable pub server_from_env : Env → Result String ServerConfig
unfolding origins_of
server_from_env env = do
  host ← env_required_str env "HOST"
  port ← env_required_u16 env "PORT"
  ok (record {
    host = host;
    port = port;
    cors_allow_origins = origins_of (env_opt env "CORS_ALLOW_ORIGINS");
  })

-- `number` is the display of a number, `socket` the parser of a `SocketAddr`.
unfoldable pub addr :
    {A : Type 0} → (ℕ → String) → (String → Result String A) → ServerConfig → Result String A
addr number socket cfg = socket (cfg.host ++ (":" ++ number cfg.port))

unfoldable pub database_from_env : Env → Result String DatabaseConfig
database_from_env env = do
  host ← env_required_str env "POSTGRES_HOST"
  port ← env_required_u16 env "POSTGRES_PORT"
  database ← env_required_str env "POSTGRES_DB"
  user ← env_required_str env "POSTGRES_USER"
  password ← env_required_str env "POSTGRES_PASSWORD"
  max_connections ← env_required_usize env "DATABASE_MAX_CONNECTIONS"
  ok (record {
    host = host;
    port = port;
    database = database;
    user = user;
    password = password;
    max_connections = max_connections;
  })

unfoldable pub redis_from_env : Env → Result String RedisConfig
redis_from_env env = do
  url ← env_required_str env "REDIS_URL"
  rate_limit_url ← env_required_str env "REDIS_RATE_LIMIT_URL"
  ok (record { url = url; rate_limit_url = rate_limit_url })

-- The base URL of Ollama, if there is one, comes before that of OpenAI.
abbrev base_url : Env → Option String → Result String String
base_url env none = env_required_str env "OPENAI_BASE_URL"
base_url env (some o) = ok o

abbrev above_zero : ℕ → Result String ℕ
above_zero v = if v == 0 then err "LLM_MAX_INPUT_CHARS must be > 0" else ok v

unfoldable pub llm_from_env : Env → Result String LlmConfig
llm_from_env env = do
  url ← base_url env (env_opt env "OLLAMA_BASE_URL")
  model_name ← env_required_str env "MODEL_NAME"
  timeout_seconds ← env_required_u64 env "LLM_TIMEOUT_SECONDS"
  max_retries ← env_required_u32 env "LLM_MAX_RETRIES"
  v ← env_required_usize env "LLM_MAX_INPUT_CHARS"
  max_input_chars ← above_zero v
  ok (record {
    base_url = url;
    api_key = unwrap_or "" (env_opt env "OPENAI_API_KEY");
    model_name = model_name;
    embedding_model = env_opt env "MODEL_EMBEDDING_NAME";
    ollama_base_url = env_opt env "OLLAMA_BASE_URL";
    timeout_seconds = timeout_seconds;
    max_retries = max_retries;
    max_input_chars = max_input_chars;
  })

unfoldable pub crawler_from_env : Env → Result String CrawlerConfig
crawler_from_env env = do
  max_depth ← env_required_u32 env "CRAWLER_MAX_DEPTH"
  max_pages ← env_required_u32 env "CRAWLER_MAX_PAGES"
  concurrent_requests ← env_required_u32 env "CRAWL_CONCURRENT_REQUESTS"
  request_timeout_seconds ← env_required_u64 env "CRAWLER_REQUEST_TIMEOUT_SECONDS"
  user_agent ← env_required_str env "CRAWLER_USER_AGENT"
  respect_robots_txt ← env_required_bool env "CRAWLER_RESPECT_ROBOTS_TXT"
  browser_pool_size ← env_required_u32 env "BROWSER_POOL_SIZE"
  ok (record {
    max_depth = max_depth;
    max_pages = max_pages;
    concurrent_requests = concurrent_requests;
    request_timeout_seconds = request_timeout_seconds;
    user_agent = user_agent;
    respect_robots_txt = respect_robots_txt;
    playwright_url = env_opt env "PLAYWRIGHT_MICROSERVICE_URL";
    browser_pool_size = browser_pool_size;
  })

unfoldable pub worker_from_env : Env → Result String WorkerConfig
worker_from_env env = do
  num_workers ← env_required_u32 env "NUM_WORKERS_PER_QUEUE"
  max_concurrent_jobs ← env_required_u32 env "MAX_CONCURRENT_JOBS"
  job_timeout_seconds ← env_required_u64 env "WORKER_JOB_TIMEOUT_SECONDS"
  max_stalls ← env_required_u32 env "WORKER_MAX_STALLS"
  ok (record {
    num_workers = num_workers;
    max_concurrent_jobs = max_concurrent_jobs;
    job_timeout_seconds = job_timeout_seconds;
    max_stalls = max_stalls;
  })

unfoldable pub auth_from_env : Env → Result String AuthConfig
auth_from_env env = do
  use_db_authentication ← env_required_bool env "USE_DB_AUTHENTICATION"
  bull_auth_key ← env_required_str env "BULL_AUTH_KEY"
  allow_local_webhooks ← env_required_bool env "ALLOW_LOCAL_WEBHOOKS"
  ok (record {
    use_db_authentication = use_db_authentication;
    test_api_key = env_opt env "TEST_API_KEY";
    bull_auth_key = bull_auth_key;
    allow_local_webhooks = allow_local_webhooks;
  })

unfoldable pub proxy_from_env : Env → ProxyConfig
proxy_from_env env = record {
  server = env_opt env "PROXY_SERVER";
  username = env_opt env "PROXY_USERNAME";
  password = env_opt env "PROXY_PASSWORD";
}

unfoldable pub search_from_env : Env → SearchConfig
search_from_env env = record {
  searxng_endpoint = env_opt env "SEARXNG_ENDPOINT";
  searxng_engines = env_opt env "SEARXNG_ENGINES";
  searxng_categories = env_opt env "SEARXNG_CATEGORIES";
}

unfoldable pub resource_from_env :
    {F : Type 0} → (String → Option F) → Env → Result String (ResourceConfig F)
resource_from_env parse env = do
  max_cpu ← env_required_f64 parse env "MAX_CPU"
  max_ram ← env_required_f64 parse env "MAX_RAM"
  ok (record { max_cpu = max_cpu; max_ram = max_ram })

unfoldable pub from_env : {F : Type 0} → (String → Option F) → Env → Result String (Config F)
unfolding server_from_env database_from_env redis_from_env llm_from_env crawler_from_env
    worker_from_env auth_from_env proxy_from_env search_from_env resource_from_env
from_env parse env = do
  server ← server_from_env env
  database ← database_from_env env
  redis ← redis_from_env env
  llm ← llm_from_env env
  crawler ← crawler_from_env env
  worker ← worker_from_env env
  auth ← auth_from_env env
  resource ← resource_from_env parse env
  ok (record {
    server = server;
    database = database;
    redis = redis;
    llm = llm;
    crawler = crawler;
    worker = worker;
    auth = auth;
    proxy = proxy_from_env env;
    search = search_from_env env;
    resource = resource;
  })
