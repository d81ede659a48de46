-- ===== src/Config/Load/Bounded.antt =====
-- The numbers of a configuration.
use fire_ctrl.Prelude.{
  ℕ, ◌≤◌, ◌<◌, String, ◌≡◌, refl, Option, none, some, arith, ok-injective, subst, Result, ok, err,
  ◌>>=◌, >>=-eq-ok,
}
use fire_ctrl.Config.Env.{
  Env, u16_max, u32_max, u64_max, parse_uint, env_required_str, env_opt, parsed, env_required_u16,
  env_required_u32, env_required_u64, env_required_usize, env_required_bool,
}
use fire_ctrl.Config.Env.Numbers.{parse_uint_iff}
use fire_ctrl.Llm.Chat.{LlmConfig}
use fire_ctrl.Scraper.Page.{CrawlerConfig}
use fire_ctrl.Config.Load.{
  Config, ServerConfig, DatabaseConfig, WorkerConfig, server_from_env, database_from_env, base_url,
  above_zero, llm_from_env, crawler_from_env, worker_from_env, redis_from_env, auth_from_env,
  resource_from_env, from_env,
}

-- What a reading that succeeds gives.
abbrev Makes : {A : Type 0} → (A → Type 0) → Result String A → Type 0
Makes {A} P r = (a : A) → r ≡ ok a → P a

Makes-bind :
    {A B : Type 0} {P : A → Type 0} {Q : B → Type 0} (m : Result String A)
    (next : A → Result String B)
    → Makes P m
    → ((a : A) → P a → Makes Q (next a))
    → Makes Q (m >>= next)
Makes-bind (ok a) next h k b e = k a (h a refl) b e
Makes-bind (err x) next h k b e = cc

made : {A : Type 0} (P : A → Type 0) (a : A) → P a → Makes P (ok a)
made P a h b e = subst P (ok-injective {E = String} _ _ e) h

any_value : {A : Type 0} (r : Result String A) → Makes (λ a. Unit {0}) r
any_value r a e = tt

module _ (env : Env) (key : String) where
  parsed-bounded :
      (kind : String) (largest : ℕ)
      → Makes
          (λ n. n ≤ largest)
          (env_required_str env key >>= (λ raw. parsed kind key raw (parse_uint largest raw)))
  parsed-bounded kind largest n e =
      let (raw, _, h) = >>=-eq-ok (env_required_str env key) _ e in
      go raw (parse_uint largest raw) refl h
    where
      go :
          (raw : String) (o : Option ℕ)
          → parse_uint largest raw ≡ o
          → parsed kind key raw o ≡ ok n
          → n ≤ largest
      go raw none q h = cc
      go raw (some v) q h =
          subst (λ m. m ≤ largest) (ok-injective {E = String} _ _ h)
            ((parse_uint_iff largest raw v).0 q).4

  u16-bounded : Makes (λ n. n ≤ u16_max) (env_required_u16 env key)
  unfolding env_required_u16
  u16-bounded = parsed-bounded "u16" u16_max

  u32-bounded : Makes (λ n. n ≤ u32_max) (env_required_u32 env key)
  unfolding env_required_u32
  u32-bounded = parsed-bounded "u32" u32_max

  u64-bounded : Makes (λ n. n ≤ u64_max) (env_required_u64 env key)
  unfolding env_required_u64
  u64-bounded = parsed-bounded "u64" u64_max

  usize-bounded : Makes (λ n. n ≤ u64_max) (env_required_usize env key)
  unfolding env_required_usize
  usize-bounded = parsed-bounded "usize" u64_max

above_zero-pos : (v : ℕ) → v ≤ u64_max → Makes (λ n. (0 < n) × (n ≤ u64_max)) (above_zero v)
above_zero-pos v b n e = ground arith

abbrev pub IsServer : ServerConfig → Type 0
IsServer c = c.port ≤ u16_max

abbrev pub IsDatabase : DatabaseConfig → Type 0
IsDatabase c = (c.port ≤ u16_max) × (c.max_connections ≤ u64_max)

abbrev pub IsLlm : LlmConfig → Type 0
IsLlm c =
    (c.timeout_seconds ≤ u64_max)
    × (c.max_retries ≤ u32_max)
    × (0 < c.max_input_chars)
    × (c.max_input_chars ≤ u64_max)

abbrev pub IsCrawler : CrawlerConfig → Type 0
IsCrawler c =
    (c.max_depth ≤ u32_max)
    × (c.max_pages ≤ u32_max)
    × (c.concurrent_requests ≤ u32_max)
    × (c.request_timeout_seconds ≤ u64_max)
    × (c.browser_pool_size ≤ u32_max)

abbrev pub IsWorker : WorkerConfig → Type 0
IsWorker c =
    (c.num_workers ≤ u32_max)
    × (c.max_concurrent_jobs ≤ u32_max)
    × (c.job_timeout_seconds ≤ u64_max)
    × (c.max_stalls ≤ u32_max)

-- Every number of the configuration is one of its type, and the model gets some input.
pub record IsBounded {F : Type 0} (cfg : Config F) : Type 0 where
  pub server : IsServer cfg.server
  pub database : IsDatabase cfg.database
  pub llm : IsLlm cfg.llm
  pub crawler : IsCrawler cfg.crawler
  pub worker : IsWorker cfg.worker

module _ (env : Env) where
  server_from_env-IsServer : Makes IsServer (server_from_env env)
  unfolding server_from_env
  server_from_env-IsServer =
      Makes-bind _ _ (any_value (env_required_str env "HOST"))
        λ _ _. Makes-bind _ _ (u16-bounded env "PORT") λ _ p. made IsServer _ p

  database_from_env-IsDatabase : Makes IsDatabase (database_from_env env)
  unfolding database_from_env
  database_from_env-IsDatabase =
      Makes-bind _ _ (any_value (env_required_str env "POSTGRES_HOST")) λ _ _.
        Makes-bind _ _ (u16-bounded env "POSTGRES_PORT") λ _ p.
          Makes-bind _ _ (any_value (env_required_str env "POSTGRES_DB")) λ _ _.
            Makes-bind _ _ (any_value (env_required_str env "POSTGRES_USER")) λ _ _.
              Makes-bind _ _ (any_value (env_required_str env "POSTGRES_PASSWORD")) λ _ _.
                Makes-bind _ _ (usize-bounded env "DATABASE_MAX_CONNECTIONS")
                  λ _ m. made IsDatabase _ (p, m)

  llm_from_env-IsLlm : Makes IsLlm (llm_from_env env)
  unfolding llm_from_env
  llm_from_env-IsLlm =
      Makes-bind _ _ (any_value (base_url env (env_opt env "OLLAMA_BASE_URL"))) λ _ _.
        Makes-bind _ _ (any_value (env_required_str env "MODEL_NAME")) λ _ _.
          Makes-bind _ _ (u64-bounded env "LLM_TIMEOUT_SECONDS") λ _ t.
            Makes-bind _ _ (u32-bounded env "LLM_MAX_RETRIES") λ _ r.
              Makes-bind _ _ (usize-bounded env "LLM_MAX_INPUT_CHARS")
                λ v b. Makes-bind _ _ (above_zero-pos v b) λ _ p. made IsLlm _ (t, r, p.0, p.1)

  crawler_from_env-IsCrawler : Makes IsCrawler (crawler_from_env env)
  unfolding crawler_from_env
  crawler_from_env-IsCrawler = Makes-bind _ _ (u32-bounded env "CRAWLER_MAX_DEPTH") λ _ d.
      Makes-bind _ _ (u32-bounded env "CRAWLER_MAX_PAGES") λ _ p.
        Makes-bind _ _ (u32-bounded env "CRAWL_CONCURRENT_REQUESTS") λ _ r.
          Makes-bind _ _ (u64-bounded env "CRAWLER_REQUEST_TIMEOUT_SECONDS") λ _ t.
            Makes-bind _ _ (any_value (env_required_str env "CRAWLER_USER_AGENT")) λ _ _.
              Makes-bind _ _ (any_value (env_required_bool env "CRAWLER_RESPECT_ROBOTS_TXT")) λ _ _.
                Makes-bind _ _ (u32-bounded env "BROWSER_POOL_SIZE")
                  λ _ b. made IsCrawler _ (d, p, r, t, b)

  worker_from_env-IsWorker : Makes IsWorker (worker_from_env env)
  unfolding worker_from_env
  worker_from_env-IsWorker = Makes-bind _ _ (u32-bounded env "NUM_WORKERS_PER_QUEUE") λ _ n.
      Makes-bind _ _ (u32-bounded env "MAX_CONCURRENT_JOBS") λ _ j.
        Makes-bind _ _ (u64-bounded env "WORKER_JOB_TIMEOUT_SECONDS") λ _ t.
          Makes-bind _ _ (u32-bounded env "WORKER_MAX_STALLS") λ _ s. made IsWorker _ (n, j, t, s)

-- In a configuration that is read, every number is within the type of its field, whatever digits the
-- environment holds, and the limit of the model's input is above zero.
pub from_env-IsBounded :
    {F : Type 0} (parse : String → Option F) (env : Env) (cfg : Config F)
    → from_env parse env ≡ ok cfg
    → IsBounded cfg
unfolding from_env
from_env-IsBounded parse env = Makes-bind _ _ (server_from_env-IsServer env) λ _ server.
    Makes-bind _ _ (database_from_env-IsDatabase env) λ _ database.
      Makes-bind _ _ (any_value (redis_from_env env)) λ _ _.
        Makes-bind _ _ (llm_from_env-IsLlm env) λ _ llm.
          Makes-bind _ _ (crawler_from_env-IsCrawler env) λ _ crawler.
            Makes-bind _ _ (worker_from_env-IsWorker env) λ _ worker.
              Makes-bind _ _ (any_value (auth_from_env env)) λ _ _.
                Makes-bind _ _ (any_value (resource_from_env parse env)) λ _ _.
                  made IsBounded _ (record {
                    server = server;
                    database = database;
                    llm = llm;
                    crawler = crawler;
                    worker = worker;
                  })
