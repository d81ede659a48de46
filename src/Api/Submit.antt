-- ===== src/Api/Submit.antt =====
-- The handlers of src/api.rs that submit jobs: `crawl_handler`, `batch_scrape_handler` and
-- `extract_handler`, with their requests of src/models.rs.
pub mod Queued
use Prim.Native.String.{◌++◌}
use fire_ctrl.Prelude.{
  ℕ, min, String, Bool, true, false, not, Option, none, some, List, [], keep, Result, ok, err,
  if◌then◌else◌,
}
use fire_ctrl.Prelude.Action.{◌>>=◌, ◌>>◌, lift}
use fire_ctrl.Prelude.Int.{ℤ, pos}
use fire_ctrl.Models.{
  AppError, Json, ScrapeOptions, WebhookConfig, CrawlJobData, BatchScrapeJobData, ExtractRequest,
  ExtractResponse, default_max_depth, default_max_pages, default_scrape_options, JobEnvelope,
}
use fire_ctrl.Queue.{Db, Call, create_crawl_group, enqueue}
use fire_ctrl.Scraper.Page.{CrawlerConfig}
use fire_ctrl.Api.Gate.{AuthConfig, check_auth}
use fire_ctrl.Api.Snapshot.{Limits, check_resources}
use fire_ctrl.Api.Status.{Handler}

pub record CrawlRequest : Type 0 where
  pub url : String
  pub max_depth : ℕ
  pub limit : ℕ
  pub scrape_options : ScrapeOptions
  pub allow_backward_links : Bool
  pub allow_external_links : Bool
  pub ignore_sitemap : Bool
  pub include_paths : List String
  pub exclude_paths : List String
  pub webhook : Option WebhookConfig
  pub priority : ℤ

pub record BatchScrapeRequest : Type 0 where
  pub urls : List String
  pub scrape_options : ScrapeOptions
  pub webhook : Option WebhookConfig
  pub priority : ℤ

-- A crawl request whose JSON has a URL alone.
abbrev pub bare_crawl : String → CrawlRequest
bare_crawl url = record {
  url = url;
  max_depth = default_max_depth;
  limit = default_max_pages;
  scrape_options = default_scrape_options;
  allow_backward_links = false;
  allow_external_links = false;
  ignore_sitemap = false;
  include_paths = [];
  exclude_paths = [];
  webhook = none;
  priority = pos 0;
}

-- The id and the polling URL.
pub record CrawlResponse : Type 0 where
  pub success : Bool
  pub id : ℕ
  pub url : String

pub record BatchScrapeResponse : Type 0 where
  pub success : Bool
  pub id : ℕ
  pub url : String
  pub invalid_urls : List String

-- What the handlers read: the configuration, the packed readings, serde's writing of an envelope, the
-- display of an id, and whether `Url::parse` takes a text.
pub record AppState : Type 0 where
  pub auth : AuthConfig
  pub crawler : CrawlerConfig
  pub llm_is_configured : Bool
  pub limits : Limits
  pub resources : ℕ
  pub encode : JobEnvelope → Json
  pub uuid_text : ℕ → String
  pub parses : String → Bool

abbrev pub crawl_envelope : AppState → CrawlRequest → ℕ → JobEnvelope
crawl_envelope st req group_id = JobEnvelope.crawl (record {
  url = req.url;
  max_depth = min req.max_depth st.crawler.max_depth;
  limit = min req.limit st.crawler.max_pages;
  scrape_options = req.scrape_options;
  allow_backward_links = req.allow_backward_links;
  allow_external_links = req.allow_external_links;
  ignore_sitemap = req.ignore_sitemap;
  include_paths = req.include_paths;
  exclude_paths = req.exclude_paths;
  webhook = req.webhook;
  priority = req.priority;
  ttl_ms = pos 86400000;
  group_id = some group_id;
})

abbrev pub crawl_accepted : AppState → ℕ → CrawlResponse
crawl_accepted st id = record { success = true; id = id; url = "/v2/crawl/" ++ st.uuid_text id }

module _ (st : AppState) (authorization : Option String) where
  unfoldable pub crawl_handler : Call → Call → CrawlRequest → Handler CrawlResponse
  unfolding create_crawl_group enqueue
  crawl_handler c c' req = do
    lift (check_auth authorization st.auth)
    lift (check_resources st.limits st.resources)
    group ← create_crawl_group c 0 (pos 86400000)
    row ←
        enqueue c' (st.encode (crawl_envelope st req group.id)) req.priority none (some group.id)
          none
    lift (ok (crawl_accepted st group.id))

  pub batch_envelope : BatchScrapeRequest → JobEnvelope
  batch_envelope req = JobEnvelope.batch_scrape (record {
    urls = keep st.parses req.urls;
    scrape_options = req.scrape_options;
    webhook = req.webhook;
    priority = req.priority;
  })

  pub batch_scrape_handler : Call → BatchScrapeRequest → Handler BatchScrapeResponse
  unfolding enqueue batch_envelope
  batch_scrape_handler c req = do
    lift (check_auth authorization st.auth)
    lift (check_resources st.limits st.resources)
    row ← enqueue c (st.encode (batch_envelope req)) req.priority none none none
    lift (
        ok (record {
          success = true;
          id = row.id;
          url = "/v2/batch/scrape/" ++ st.uuid_text row.id;
          invalid_urls = keep (λ u. not (st.parses u)) req.urls;
        }))

  pub extract_envelope : ExtractRequest → JobEnvelope
  extract_envelope req = JobEnvelope.extract (record {
    urls = req.urls;
    prompt = req.prompt;
    schema = req.schema;
    system_prompt = req.system_prompt;
    allow_external_links = req.allow_external_links;
    enable_web_search = req.enable_web_search;
    ignore_invalid_urls = req.ignore_invalid_urls;
  })

  pub extract_handler : Call → ExtractRequest → Handler ExtractResponse
  unfolding enqueue extract_envelope
  extract_handler c req = do
    lift (check_auth authorization st.auth)
    lift (
        if not st.llm_is_configured
        then err (AppError.bad_request "LLM not configured. Set OPENAI_API_KEY or OLLAMA_BASE_URL.")
        else ok tt)
    row ← enqueue c (st.encode (extract_envelope req)) (pos 0) none none none
    lift (ok (record { success = true; id = row.id; url = "/v2/extract/" ++ st.uuid_text row.id }))
