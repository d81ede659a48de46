-- ===== src/Models/Page.antt =====
-- src/models.rs: what a scrape returns, and the answers of the API.
use fire_ctrl.Prelude.{ℕ, String, Option, List}
use fire_ctrl.Models.Value.{Json}
use fire_ctrl.Models.Status.{JobStatus}

pub record ScrapeMetadata : Type 0 where
  pub status_code : ℕ
  pub content_type : Option String
  pub source_url : String
  pub scrape_id : Option ℕ
  pub error : Option String

pub record ScrapeResult : Type 0 where
  pub url : String
  pub title : Option String
  pub markdown : Option String
  pub html : Option String
  pub raw_html : Option String
  pub screenshot : Option String
  pub links : Option (List String)
  pub extract : Option Json
  pub json : Option Json
  pub warning : Option String
  pub metadata : ScrapeMetadata

pub record CrawlStatusResponse : Type 0 where
  pub status : JobStatus
  pub total : ℕ
  pub completed : ℕ
  pub failed : ℕ
  pub credits_used : ℕ
  pub expires_at : Option ℕ
  pub next : Option String
  pub page : List ScrapeResult
