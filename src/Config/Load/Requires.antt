-- ===== src/Config/Load/Requires.antt =====
-- Which variables a configuration needs.
use Prim.Native.String.{◌++◌}
use fire_ctrl.Prelude.{
  ◌⊎◌, inl, inr, if◌then◌else◌, String, ◌≡◌, refl, Bool, true, false, Option, none, some, List, [],
  ◌∷◌, All, is_some, arith, Result, ok, err, ◌>>=◌, >>=-eq-ok,
}
use fire_ctrl.Config.Env.{
  Env, env_required_str, env_opt, parsed, env_required_u16, env_required_u32, env_required_u64,
  is_yes, is_no, env_required_usize, env_required_bool, env_required_f64,
}
use fire_ctrl.Config.Load.{
  Config, server_from_env, database_from_env, redis_from_env, base_url, llm_from_env,
  crawler_from_env, worker_from_env, auth_from_env, resource_from_env, from_env,
}

abbrev pub IsGiven : Env → String → Type 0
IsGiven env key = is_some (env key) ≡ true

-- What holds if the reading succeeds.
abbrev Gives : {A : Type 0} → Type 0 → Result String A → Type 0
Gives {A} P r = (a : A) → r ≡ ok a → P

Gives-bind :
    {A B : Type 0} {P Q : Type 0} (m : Result String A) (next : A → Result String B)
    → Gives P m
    → ((a : A) → Gives Q (next a))
    → Gives (P × Q) (m >>= next)
Gives-bind (ok a) next h k b e = (h a refl, k a b e)
Gives-bind (err x) next h k b e = cc

module _ (env : Env) (key : String) where
  str_sets : Gives (IsGiven env key) (env_required_str env key)
  unfolding env_required_str
  str_sets a e = ground arith

  parsed_sets :
      {A : Type 0} (kind : String) (parse : String → Option A)
      → Gives
          (IsGiven env key)
          (env_required_str env key >>= (λ raw. parsed kind key raw (parse raw)))
  parsed_sets kind parse a e =
      let (raw, h, k) = >>=-eq-ok (env_required_str env key) _ e in str_sets raw h

  u16_sets : Gives (IsGiven env key) (env_required_u16 env key)
  unfolding env_required_u16
  u16_sets = parsed_sets "u16" _

  u32_sets : Gives (IsGiven env key) (env_required_u32 env key)
  unfolding env_required_u32
  u32_sets = parsed_sets "u32" _

  u64_sets : Gives (IsGiven env key) (env_required_u64 env key)
  unfolding env_required_u64
  u64_sets = parsed_sets "u64" _

  usize_sets : Gives (IsGiven env key) (env_required_usize env key)
  unfolding env_required_usize
  usize_sets = parsed_sets "usize" _

  f64_sets :
      {F : Type 0} (parse : String → Option F)
      → Gives (IsGiven env key) (env_required_f64 parse env key)
  unfolding env_required_f64
  f64_sets parse = parsed_sets "f64" _

  bool_sets : Gives (IsGiven env key) (env_required_bool env key)
  unfolding env_required_bool
  bool_sets a e = go (env key) e
    where
      go :
          (o : Option String)
          → (let r : Result String Bool = elim o [
            | none ↦ err ("Missing required env var: " ++ key)
            | some v ↦
                if is_yes v
                then ok true
                else if is_no v
                then ok false
                else err (
                    "Invalid bool value for env var "
                    ++ (key ++ (": " ++ (v ++ " (expected true/false, 1/0, yes/no)"))))
          ] in
              r)
            ≡ ok a
          → is_some o ≡ true
      go none h = cc
      go (some v) h = refl

-- The variables without which there is no configuration, by the record that they are for.
abbrev pub required : List (List String)
required =
    ("HOST" ∷ "PORT" ∷ [])
    ∷ ("POSTGRES_HOST" ∷ "POSTGRES_PORT" ∷ "POSTGRES_DB" ∷ "POSTGRES_USER" ∷ "POSTGRES_PASSWORD"
        ∷ "DATABASE_MAX_CONNECTIONS" ∷ [])
    ∷ ("REDIS_URL" ∷ "REDIS_RATE_LIMIT_URL" ∷ [])
    ∷ ("MODEL_NAME" ∷ "LLM_TIMEOUT_SECONDS" ∷ "LLM_MAX_RETRIES" ∷ "LLM_MAX_INPUT_CHARS" ∷ [])
    ∷ ("CRAWLER_MAX_DEPTH" ∷ "CRAWLER_MAX_PAGES" ∷ "CRAWL_CONCURRENT_REQUESTS"
        ∷ "CRAWLER_REQUEST_TIMEOUT_SECONDS" ∷ "CRAWLER_USER_AGENT" ∷ "CRAWLER_RESPECT_ROBOTS_TXT"
        ∷ "BROWSER_POOL_SIZE" ∷ [])
    ∷ ("NUM_WORKERS_PER_QUEUE" ∷ "MAX_CONCURRENT_JOBS" ∷ "WORKER_JOB_TIMEOUT_SECONDS"
        ∷ "WORKER_MAX_STALLS" ∷ [])
    ∷ ("USE_DB_AUTHENTICATION" ∷ "BULL_AUTH_KEY" ∷ "ALLOW_LOCAL_WEBHOOKS" ∷ [])
    ∷ ("MAX_CPU" ∷ "MAX_RAM" ∷ [])
    ∷ []

-- The model's endpoint: Ollama's, or else OpenAI's.
abbrev pub HasBaseUrl : Env → Type 0
HasBaseUrl env = (is_some (env_opt env "OLLAMA_BASE_URL") ≡ true) ⊎ IsGiven env "OPENAI_BASE_URL"

done : {A : Type 0} (r : A) → Gives (Unit {0}) (ok r)
done r a e = tt

Gives-after :
    {A B : Type 0} {Q : Type 0} (m : Result String A) (next : A → Result String B)
    → ((a : A) → Gives Q (next a))
    → Gives Q (m >>= next)
Gives-after (ok a) next k b e = k a b e
Gives-after (err x) next k b e = cc

module _ (env : Env) where
  base_needs : Gives (HasBaseUrl env) (base_url env (env_opt env "OLLAMA_BASE_URL"))
  base_needs = go (env_opt env "OLLAMA_BASE_URL") refl
    where
      go :
          (o : Option String)
          → env_opt env "OLLAMA_BASE_URL" ≡ o
          → Gives (HasBaseUrl env) (base_url env o)
      go none q a e = inr (str_sets env "OPENAI_BASE_URL" a e)
      go (some u) q a e = inl (rw q refl)

  server_needs : Gives (All (IsGiven env) ("HOST" ∷ "PORT" ∷ [])) (server_from_env env)
  unfolding server_from_env
  server_needs =
      Gives-bind _ _ (str_sets env "HOST") λ _. Gives-bind _ _ (u16_sets env "PORT") λ _. done _

  database_needs :
      Gives
        (All (IsGiven env) (
          "POSTGRES_HOST" ∷ "POSTGRES_PORT" ∷ "POSTGRES_DB" ∷ "POSTGRES_USER" ∷ "POSTGRES_PASSWORD"
          ∷ "DATABASE_MAX_CONNECTIONS" ∷ []))
        (database_from_env env)
  unfolding database_from_env
  database_needs = Gives-bind _ _ (str_sets env "POSTGRES_HOST") λ _.
      Gives-bind _ _ (u16_sets env "POSTGRES_PORT") λ _.
        Gives-bind _ _ (str_sets env "POSTGRES_DB") λ _.
          Gives-bind _ _ (str_sets env "POSTGRES_USER") λ _.
            Gives-bind _ _ (str_sets env "POSTGRES_PASSWORD")
              λ _. Gives-bind _ _ (usize_sets env "DATABASE_MAX_CONNECTIONS") λ _. done _

  redis_needs :
      Gives (All (IsGiven env) ("REDIS_URL" ∷ "REDIS_RATE_LIMIT_URL" ∷ [])) (redis_from_env env)
  unfolding redis_from_env
  redis_needs =
      Gives-bind _ _ (str_sets env "REDIS_URL")
        λ _. Gives-bind _ _ (str_sets env "REDIS_RATE_LIMIT_URL") λ _. done _

  llm_needs :
      Gives
        (HasBaseUrl env
          × All (IsGiven env) (
              "MODEL_NAME" ∷ "LLM_TIMEOUT_SECONDS" ∷ "LLM_MAX_RETRIES" ∷ "LLM_MAX_INPUT_CHARS"
              ∷ []))
        (llm_from_env env)
  unfolding llm_from_env
  llm_needs = Gives-bind _ _ (base_needs) λ _. Gives-bind _ _ (str_sets env "MODEL_NAME") λ _.
      Gives-bind _ _ (u64_sets env "LLM_TIMEOUT_SECONDS") λ _.
        Gives-bind _ _ (u32_sets env "LLM_MAX_RETRIES") λ _.
          Gives-bind _ _ (usize_sets env "LLM_MAX_INPUT_CHARS") λ _. Gives-after _ _ λ _. done _

  crawler_needs :
      Gives
        (All (IsGiven env) (
          "CRAWLER_MAX_DEPTH" ∷ "CRAWLER_MAX_PAGES" ∷ "CRAWL_CONCURRENT_REQUESTS"
          ∷ "CRAWLER_REQUEST_TIMEOUT_SECONDS" ∷ "CRAWLER_USER_AGENT" ∷ "CRAWLER_RESPECT_ROBOTS_TXT"
          ∷ "BROWSER_POOL_SIZE" ∷ []))
        (crawler_from_env env)
  unfolding crawler_from_env
  crawler_needs = Gives-bind _ _ (u32_sets env "CRAWLER_MAX_DEPTH") λ _.
      Gives-bind _ _ (u32_sets env "CRAWLER_MAX_PAGES") λ _.
        Gives-bind _ _ (u32_sets env "CRAWL_CONCURRENT_REQUESTS") λ _.
          Gives-bind _ _ (u64_sets env "CRAWLER_REQUEST_TIMEOUT_SECONDS") λ _.
            Gives-bind _ _ (str_sets env "CRAWLER_USER_AGENT") λ _.
              Gives-bind _ _ (bool_sets env "CRAWLER_RESPECT_ROBOTS_TXT")
                λ _. Gives-bind _ _ (u32_sets env "BROWSER_POOL_SIZE") λ _. done _

  worker_needs :
      Gives
        (All (IsGiven env) (
          "NUM_WORKERS_PER_QUEUE" ∷ "MAX_CONCURRENT_JOBS" ∷ "WORKER_JOB_TIMEOUT_SECONDS"
          ∷ "WORKER_MAX_STALLS" ∷ []))
        (worker_from_env env)
  unfolding worker_from_env
  worker_needs = Gives-bind _ _ (u32_sets env "NUM_WORKERS_PER_QUEUE") λ _.
      Gives-bind _ _ (u32_sets env "MAX_CONCURRENT_JOBS") λ _.
        Gives-bind _ _ (u64_sets env "WORKER_JOB_TIMEOUT_SECONDS")
          λ _. Gives-bind _ _ (u32_sets env "WORKER_MAX_STALLS") λ _. done _

  auth_needs :
      Gives
        (All
          (IsGiven env)
          ("USE_DB_AUTHENTICATION" ∷ "BULL_AUTH_KEY" ∷ "ALLOW_LOCAL_WEBHOOKS" ∷ []))
        (auth_from_env env)
  unfolding auth_from_env
  auth_needs = Gives-bind _ _ (bool_sets env "USE_DB_AUTHENTICATION") λ _.
      Gives-bind _ _ (str_sets env "BULL_AUTH_KEY")
        λ _. Gives-bind _ _ (bool_sets env "ALLOW_LOCAL_WEBHOOKS") λ _. done _

  resource_needs :
      {F : Type 0} (parse : String → Option F)
      → Gives (All (IsGiven env) ("MAX_CPU" ∷ "MAX_RAM" ∷ [])) (resource_from_env parse env)
  unfolding resource_from_env
  resource_needs parse =
      Gives-bind _ _ (f64_sets env "MAX_CPU" parse)
        λ _. Gives-bind _ _ (f64_sets env "MAX_RAM" parse) λ _. done _

-- If the configuration is read, all required variables are set, and so is the base URL of the model:
-- that of OpenAI, unless there is one of Ollama.
pub from_env-requires :
    {F : Type 0} (parse : String → Option F) (env : Env) (cfg : Config F)
    → from_env parse env ≡ ok cfg
    → All (All (IsGiven env)) required × HasBaseUrl env
unfolding from_env
from_env-requires parse env cfg h =
    let r =
      (Gives-bind _ _ (server_needs env) λ _. Gives-bind _ _ (database_needs env) λ _.
          Gives-bind _ _ (redis_needs env) λ _. Gives-bind _ _ (llm_needs env) λ _.
            Gives-bind _ _ (crawler_needs env) λ _. Gives-bind _ _ (worker_needs env) λ _.
              Gives-bind _ _ (auth_needs env)
                λ _. Gives-bind _ _ (resource_needs env parse) λ _. done _)
        cfg h in
    ((r.0, (r.1.0, (r.1.1.0, (r.1.1.1.0.1, r.1.1.1.1)))), r.1.1.1.0.0)
