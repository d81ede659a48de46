-- ===== src/Models/Job.antt =====
-- src/models.rs: the jobs that `queue_scrape.data` holds. `i32` and `i64` fields that may be
-- negative are integers; `u32` fields are numbers.
use fire_ctrl.Prelude.{ℕ, String, Bool, Option, List}
use fire_ctrl.Prelude.Int.{ℤ}
use fire_ctrl.Models.Value.{Json}

pub data OutputFormat : Type 0 where
  markdown html raw_html screenshot links extract json : OutputFormat

pub record ExtractOptions : Type 0 where
  pub prompt : Option String
  pub schema : Option Json
  pub system_prompt : Option String

pub data PageAction : Type 0 where
  wait : ℕ → PageAction
  click : String → PageAction
  screenshot : PageAction
  scroll : String → Option ℕ → PageAction
  write : String → String → PageAction
  press : String → PageAction
  execute_javascript : String → PageAction

pub record LocationOptions : Type 0 where
  pub country : Option String
  pub languages : Option (List String)

pub record WebhookConfig : Type 0 where
  pub url : String
  pub headers : Option Json
  pub events : List String

pub record ScrapeOptions : Type 0 where
  pub formats : List OutputFormat
  pub only_main_content : Bool
  pub include_tags : List String
  pub exclude_tags : List String
  pub headers : Option Json
  pub wait_for : ℕ
  pub mobile : Bool
  pub timeout : Option ℕ
  pub actions : List PageAction
  pub location : Option LocationOptions

pub record ScrapeJobData : Type 0 where
  pub url : String
  pub formats : List OutputFormat
  pub only_main_content : Bool
  pub include_tags : List String
  pub exclude_tags : List String
  pub headers : Option Json
  pub wait_for : ℕ
  pub mobile : Bool
  pub timeout : Option ℕ
  pub extract : Option ExtractOptions
  pub actions : List PageAction
  pub location : Option LocationOptions
  pub webhook : Option String

pub record CrawlJobData : Type 0 where
  pub url : String
  pub max_depth : ℕ
  pub limit : ℕ
  pub scrape_options : ScrapeOptions
  pub allow_backward_links : Bool
  pub allow_external_links : Bool
  pub ignore_sitemap : Bool
  pub include_paths : List String
  pub exclude_paths : List String
  pub webhook : Option WebhookConfig
  pub priority : ℤ
  pub ttl_ms : ℤ
  pub group_id : Option ℕ

pub record BatchScrapeJobData : Type 0 where
  pub urls : List String
  pub scrape_options : ScrapeOptions
  pub webhook : Option WebhookConfig
  pub priority : ℤ

pub record ExtractJobData : Type 0 where
  pub urls : List String
  pub prompt : Option String
  pub schema : Option Json
  pub system_prompt : Option String
  pub allow_external_links : Bool
  pub enable_web_search : Bool
  pub ignore_invalid_urls : Bool

pub record MapJobData : Type 0 where
  pub url : String
  pub search : Option String
  pub ignore_sitemap : Bool
  pub include_subdomains : Bool
  pub limit : ℕ

pub data JobEnvelope : Type 0 where
  scrape : ScrapeJobData → JobEnvelope
  crawl : CrawlJobData → JobEnvelope
  batch_scrape : BatchScrapeJobData → JobEnvelope
  extract : ExtractJobData → JobEnvelope
  map : MapJobData → JobEnvelope
