-- ===== src/Api/Search.antt =====
-- `search_handler`, `search_urls`, `searxng_search` and `google_search` of src/api.rs, and
-- `map_handler`, which answers in the same form.
pub mod Bounds
mod Examples
use Prim.Native.String.{◌++◌}
use fire_ctrl.Prelude.{
  ℕ, suc, min, String, Bool, true, false, not, Option, none, some, List, [], ◌∷◌, map, filter_map,
  keep, first, take, leb, unwrap_or, Result, ok, err, ◌>>=◌, ◌>>◌, map_err, if◌then◌else◌,
}
use fire_ctrl.Prelude.Text.{strip_prefix, starts_with, find_char, take_chars, trim, is_empty}
use fire_ctrl.Prelude.Lines.{lines}
use fire_ctrl.Models.{
  AppError, Json, Items, OutputFormat, ScrapeOptions, ScrapeJobData, ScrapeResult, MapRequest,
  default_search_limit, get, as_str,
}
use fire_ctrl.Scraper.Page.{Web, CrawlerConfig, scrape}
use fire_ctrl.Scraper.Discovery.{MapParams, map_urls}
use fire_ctrl.Llm.Rank.{rank_by_relevance}
use fire_ctrl.Api.Gate.{AuthConfig, check_auth}
use fire_ctrl.Api.Snapshot.{Limits, check_resources}

pub record SearchRequest : Type 0 where
  pub query : String
  pub limit : ℕ
  pub lang : Option String
  pub country : Option String
  pub scrape_options : Option ScrapeOptions
  pub timeout : Option ℕ

-- A search request whose JSON has a query alone.
abbrev pub bare_search : String → SearchRequest
bare_search query = record {
  query = query;
  limit = default_search_limit;
  lang = none;
  country = none;
  scrape_options = none;
  timeout = none;
}

pub record SearchWebResult : Type 0 where
  pub url : String
  pub title : Option String
  pub description : Option String
  pub category : Option String

pub record SearchResponseData : Type 0 where
  pub web : Option (List SearchWebResult)
  pub news : Option (List Json)
  pub images : Option (List Json)

pub record SearchResponse : Type 0 where
  pub success : Bool
  pub found : SearchResponseData

pub record MapResponse : Type 0 where
  pub success : Bool
  pub links : List SearchWebResult

pub record SearchConfig : Type 0 where
  pub searxng_endpoint : Option String
  pub searxng_engines : Option String
  pub searxng_categories : Option String

-- What the handlers take from libraries: `urlencoding`, serde's parser, the display of a number,
-- and the lower-casing and the words that the ranking uses.
pub record Texts : Type 0 where
  pub encode : String → String
  pub decode : String → Option String
  pub parse : String → Result String Json
  pub number_text : ℕ → String
  pub lower : String → String
  pub words : String → List String

-- `push_str` of a parameter that is given.
abbrev with_param : Texts → String → Option String → String → String
with_param t name none url = url
with_param t name (some v) url = url ++ (name ++ t.encode v)

pub searxng_url : Texts → SearchConfig → String → SearchRequest → String
searxng_url t cfg endpoint req = with_param t "&region=" req.country (
    with_param t "&language=" req.lang (
      with_param t "&categories=" cfg.searxng_categories (
        with_param t "&engines=" cfg.searxng_engines
          (endpoint ++ ("/search?q=" ++ (t.encode req.query ++ "&format=json"))))))

-- `as_array().unwrap_or(&vec![])`.
pub items : Json → List Json
items (Json.array l) = go l
  where
    go : Items → List Json
    go Items.nil = []
    go (Items.cons v l) = v ∷ go l
items _ = []

-- `r["url"].as_str()`.
abbrev pub url_of : Json → Option String
url_of r = elim (get "url" r) [ none ↦ none | some v ↦ as_str v ]

abbrev pub searxng_urls : ℕ → Json → List String
searxng_urls limit body =
    take limit (filter_map url_of (items (unwrap_or Json.null (get "results" body))))

pub searxng_search :
    Texts → Web → SearchConfig → String → SearchRequest → Result AppError (List String)
searxng_search t w cfg endpoint req = do
  reply ← map_err AppError.scraper (w.fetch (searxng_url t cfg endpoint req))
  body ← map_err AppError.scraper (t.parse reply.2)
  ok (searxng_urls req.limit body)

abbrev if_http : Option String → Option String
if_http none = none
if_http (some u) = if starts_with "http" u then some u else none

-- The URL that a link of the result page leads to: `/url?q=<url>&…`.
abbrev pub google_target : Texts → String → Option String
google_target t href = elim (strip_prefix "/url?q=" href) [
  | none ↦ none
  | some stripped ↦ elim (find_char b'&' stripped) [
    | none ↦ none
    | some n ↦ if_http (t.decode (take_chars n stripped))
  ]
]

-- The loop over the links, left after a push that reaches the limit; `found` URLs are pushed before.
unfoldable pub google_urls : Texts → ℕ → ℕ → List String → List String
google_urls t limit found [] = []
google_urls t limit found (h ∷ hs) = elim (google_target t h) [
  | none ↦ google_urls t limit found hs
  | some u ↦ elim (leb limit (suc found)) [
    | true ↦ u ∷ []
    | false ↦ u ∷ google_urls t limit (suc found) hs
  ]
]

pub google_search : Texts → Web → SearchRequest → Result AppError (List String)
unfolding google_urls
google_search t w req = do
  reply ← map_err AppError.scraper (
      w.fetch (
        "https://www.google.com/search?q="
        ++ (t.encode req.query ++ ("&num=" ++ t.number_text (min req.limit 10)))))
  ok (google_urls t req.limit 0 (w.hrefs reply.2))

abbrev pub engine_urls : Texts → Web → SearchConfig → SearchRequest → Result AppError (List String)
engine_urls t w cfg req = elim cfg.searxng_endpoint [
  | some endpoint ↦ searxng_search t w cfg endpoint req
  | none ↦ google_search t w req
]

unfoldable pub search_urls :
    Texts → Web → SearchConfig → SearchRequest → Result AppError (List String)
unfolding searxng_search google_search
search_urls t w cfg req = do
  urls ← engine_urls t w cfg req
  ok (take req.limit (rank_by_relevance t.lower t.words urls req.query))

pub search_job : SearchRequest → String → ScrapeJobData
search_job req url = job req.scrape_options
  where
    job : Option ScrapeOptions → ScrapeJobData
    job none = record {
      url = url;
      formats = OutputFormat.markdown ∷ [];
      only_main_content = true;
      include_tags = [];
      exclude_tags = [];
      headers = none;
      wait_for = 0;
      mobile = false;
      timeout = req.timeout;
      extract = none;
      actions = [];
      location = none;
      webhook = none;
    }
    job (some o) = record {
      url = url;
      formats = o.formats;
      only_main_content = o.only_main_content;
      include_tags = o.include_tags;
      exclude_tags = o.exclude_tags;
      headers = none;
      wait_for = o.wait_for;
      mobile = false;
      timeout = req.timeout;
      extract = none;
      actions = [];
      location = none;
      webhook = none;
    }

abbrev pub is_blank : String → Bool
is_blank l = is_empty (trim l)

-- The first 180 characters of the first line that is not blank.
pub describe : Option String → Option String
describe none = none
describe (some m) = elim (first (keep (λ l. not (is_blank l)) (lines m))) [
  | none ↦ none
  | some l ↦ some (take_chars 180 l)
]

abbrev pub found_page : Result AppError ScrapeResult → Option SearchWebResult
found_page (err e) = none
found_page (ok r) =
    some
      (record { url = r.url; title = r.title; description = describe r.markdown; category = none })

-- One spawned task: a page that cannot be scraped is left out.
pub search_task : Web → CrawlerConfig → SearchRequest → String → Option SearchWebResult
unfolding search_job describe scrape
search_task w crawler req url = found_page (scrape w crawler (search_job req url))

-- `finish` is the order in which the tasks are joined.
unfoldable pub search_handler :
    Texts
    → Web
    → CrawlerConfig
    → SearchConfig
    → AuthConfig
    → Limits
    → ℕ
    → (List (Option SearchWebResult) → List (Option SearchWebResult))
    → Option String
    → SearchRequest
    → Result AppError SearchResponse
unfolding search_task
search_handler t w crawler cfg auth limits resources finish authorization req = do
  check_auth authorization auth
  check_resources limits resources
  urls ← search_urls t w cfg req
  ok (record {
    success = true;
    found = record {
      web = some (filter_map (λ r. r) (finish (map (search_task w crawler req) urls)));
      news = none;
      images = none;
    };
  })

abbrev link : String → SearchWebResult
link url = record { url = url; title = none; description = none; category = none }

-- The arguments of `map_urls`.
map_params : MapRequest → MapParams
map_params req = record {
  root_url = req.url;
  search = req.search;
  ignore_sitemap = req.ignore_sitemap;
  include_subdomains = req.include_subdomains;
  limit = req.limit;
}

-- The sitemap's URLs are those that it leads to.
pub map_handler :
    (String → String)
    → Web
    → AuthConfig
    → Option String
    → MapRequest
    → List String
    → Result AppError MapResponse
unfolding map_urls map_params
map_handler lower w auth authorization req sitemap_urls = do
  check_auth authorization auth
  urls ← map_urls lower w (map_params req) sitemap_urls
  ok (record { success = true; links = map link urls })
