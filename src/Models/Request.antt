-- ===== src/Models/Request.antt =====
-- src/models.rs: the bodies of requests and answers. A field with a default may be left out of a
-- request's JSON.
use fire_ctrl.Prelude.{ℕ, String, Bool, false, Option, none, List, []}
use fire_ctrl.Models.Value.{Json}
use fire_ctrl.Models.Job.{OutputFormat, ExtractOptions, PageAction, LocationOptions, ScrapeOptions}
use fire_ctrl.Models.Page.{ScrapeResult}

pub record ScrapeRequest : Type 0 where
  pub url : String
  pub formats : List OutputFormat
  pub only_main_content : Bool
  pub include_tags : List String
  pub exclude_tags : List String
  pub headers : Option Json
  pub wait_for : ℕ
  pub mobile : Bool
  pub timeout : Option ℕ
  pub extract : Option ExtractOptions
  pub actions : List PageAction
  pub location : Option LocationOptions
  pub webhook : Option String

pub record MapRequest : Type 0 where
  pub url : String
  pub search : Option String
  pub ignore_sitemap : Bool
  pub include_subdomains : Bool
  pub limit : ℕ

pub record ExtractRequest : Type 0 where
  pub urls : List String
  pub prompt : Option String
  pub schema : Option Json
  pub system_prompt : Option String
  pub allow_external_links : Bool
  pub enable_web_search : Bool
  pub ignore_invalid_urls : Bool

pub record ScrapeResponse : Type 0 where
  pub success : Bool
  pub page : ScrapeResult

pub record ExtractResponse : Type 0 where
  pub success : Bool
  pub id : ℕ
  pub url : String

-- `default_max_depth` and its like.
abbrev pub default_max_depth : ℕ
default_max_depth = 5

abbrev pub default_max_pages : ℕ
default_max_pages = 100

abbrev pub default_map_limit : ℕ
default_map_limit = 5000

abbrev pub default_search_limit : ℕ
default_search_limit = 5

-- What a request is given that leaves its options out.
abbrev pub default_scrape_options : ScrapeOptions
default_scrape_options = record {
  formats = [];
  only_main_content = false;
  include_tags = [];
  exclude_tags = [];
  headers = none;
  wait_for = 0;
  mobile = false;
  timeout = none;
  actions = [];
  location = none;
}

-- A request whose JSON has a URL alone.
abbrev pub bare_scrape : String → ScrapeRequest
bare_scrape url = record {
  url = url;
  formats = [];
  only_main_content = false;
  include_tags = [];
  exclude_tags = [];
  headers = none;
  wait_for = 0;
  mobile = false;
  timeout = none;
  extract = none;
  actions = [];
  location = none;
  webhook = none;
}

abbrev pub bare_map : String → MapRequest
bare_map url = record {
  url = url;
  search = none;
  ignore_sitemap = false;
  include_subdomains = false;
  limit = default_map_limit;
}
