-- ===== src/Api/Requests.antt =====
-- Submissions and a scrape on concrete requests.
use fire_ctrl.Prelude.{ℕ, ◌≡◌, refl, true, false, none, some, [], ◌∷◌, ok, err}
use fire_ctrl.Prelude.Int.{pos}
use fire_ctrl.Models.{
  AppError, Json, JobEnvelope, GroupStatus, OutputFormat, default_scrape_options, bare_scrape,
  ScrapeRequest, ScrapeResult,
}
use fire_ctrl.Queue.{Db, Call, create_crawl_group, enqueue}
use fire_ctrl.Scraper.Page.{Web, CrawlerConfig}
use fire_ctrl.Worker.Job.{Outside, Expiry}
use fire_ctrl.Api.Gate.{AuthConfig, check_auth}
use fire_ctrl.Api.Snapshot.{Limits, check_resources}
use fire_ctrl.Api.Submit.{AppState, CrawlRequest, crawl_envelope, bare_crawl, crawl_handler}
use fire_ctrl.Api.Submit.Queued.{Submission, crawl_handler-Submission}
use fire_ctrl.Api.Scrape.{scrape_handler}

abbrev open_gate : AuthConfig
open_gate = record {
  use_db_authentication = false;
  test_api_key = none;
  bull_auth_key = "admin";
  allow_local_webhooks = false;
}

abbrev no_limits : Limits
no_limits = record {
  above_cpu = λ n. false;
  above_ram = λ n. false;
  cpu_text = λ n. "";
  ram_text = λ n. "";
}

abbrev config : CrawlerConfig
config = record {
  max_depth = 3;
  max_pages = 100;
  concurrent_requests = 4;
  request_timeout_seconds = 30;
  user_agent = "fire";
  respect_robots_txt = true;
  playwright_url = none;
  browser_pool_size = 1;
}

abbrev state : AppState
state = record {
  auth = open_gate;
  crawler = config;
  llm_is_configured = true;
  limits = no_limits;
  resources = 0;
  encode = λ e. Json.null;
  uuid_text = λ n. "a group";
  parses = λ u. true;
}

abbrev at : ℕ → ℕ → Call
at now fresh = record { fault = none; now = now; fresh = fresh; uuid_text = λ n. "a group" }

abbrev down : Call
down = record { fault = some AppError.timeout; now = 0; fresh = 0; uuid_text = λ n. "a group" }

abbrev deep_crawl : CrawlRequest
deep_crawl = record {
  url = "https://a.example/";
  max_depth = 50;
  limit = 1000000;
  scrape_options = default_scrape_options;
  allow_backward_links = false;
  allow_external_links = false;
  ignore_sitemap = false;
  include_paths = [];
  exclude_paths = [];
  webhook = none;
  priority = pos 0;
}

abbrev no_rows : Db
no_rows = record { jobs = []; groups = [] }

crawl_handler-Submission_example :
    Submission state none deep_crawl no_rows
      (crawl_handler state none (at 5 1) (at 6 2) deep_crawl no_rows)
crawl_handler-Submission_example =
    crawl_handler-Submission state none (at 5 1) (at 6 2) deep_crawl no_rows

-- The second statement is refused.
group_is_left : crawl_handler state none (at 5 1) down deep_crawl no_rows ≡ (
  err AppError.timeout,
  record no_rows {
    groups =
        record {
          id = 1;
          status = GroupStatus.active;
          created_at = 5;
          owner_id = 0;
          ttl = pos 86400000;
          expires_at = some 86400000005;
        }
        ∷ [];
  },
)
unfolding crawl_handler check_auth check_resources create_crawl_group enqueue
group_is_left = refl

abbrev one_page : Web
one_page = record {
  host = λ u. ok "a.example";
  robots_allow = λ u. true;
  fetch = λ u. ok (200, none, "body");
  fetch_page = λ u w t. err AppError.timeout;
  title = λ h. none;
  markdown = λ h. h;
  text = λ h m. h;
  hrefs = λ h. [];
  join = λ b h. none;
  structured_json = λ h u. Json.null;
}

abbrev outside : Outside
outside = record {
  calls = λ n. record { call = at 100 0; expiry = Expiry.in_time };
  late = λ n. false;
  web = one_page;
  crawler = config;
  sitemap = λ u n. [];
  joined = λ ts. [];
  llm = λ r. some (ok (Json.string r.content, none));
  max_input_chars = 1000;
  number_text = λ n. "";
  uuid_text = λ n. "";
  result_json = λ r. Json.null;
}

-- Links and an extraction: markdown is fetched for the extraction only.
abbrev extraction_request : ScrapeRequest
extraction_request = record (bare_scrape "https://a.example/") {
  formats = OutputFormat.links ∷ [];
  only_main_content = true;
  extract = some (record { prompt = none; schema = none; system_prompt = none });
}

abbrev extraction_result : ScrapeResult
extraction_result = record {
  url = "https://a.example/";
  title = none;
  markdown = none;
  html = none;
  raw_html = none;
  screenshot = none;
  links = some [];
  extract = some (Json.string "body");
  json = none;
  warning = none;
  metadata = record {
    status_code = 200;
    content_type = none;
    source_url = "https://a.example/";
    scrape_id = none;
    error = none;
  };
}

extraction_answers :
    scrape_handler outside open_gate no_limits 0 true none extraction_request
    ≡ ok (some (record { success = true; page = extraction_result }))
unfolding scrape_handler check_auth check_resources
extraction_answers = refl

-- The default depth of 5 is cut to the configured one.
bare_crawl_queued :
    crawl_envelope state (bare_crawl "https://a.example/") 1
    ≡ JobEnvelope.crawl (record {
      url = "https://a.example/";
      max_depth = 3;
      limit = 100;
      scrape_options = default_scrape_options;
      allow_backward_links = false;
      allow_external_links = false;
      ignore_sitemap = false;
      include_paths = [];
      exclude_paths = [];
      webhook = none;
      priority = pos 0;
      ttl_ms = pos 86400000;
      group_id = some 1;
    })
bare_crawl_queued = refl
