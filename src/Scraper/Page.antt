-- ===== src/Scraper/Page.antt =====
-- `Scraper::scrape`, `extract_links` and their parts of src/scraper.rs, over what the network and
-- the HTML libraries give.
use Prim.Native.String.{◌++◌}
use fire_ctrl.Prelude.{
  ℕ, String, ◌≡◌, refl, Bool, true, false, not, ◌&&◌, ◌||◌, Option, none, some, List, [], ◌∷◌,
  arith, filter_map, any, ltb, is_none, or_else, unwrap_or, str_eq, ◌∙◌, ap, sym, >>=-eq-ok,
  ok-injective, Result, ok, err, ◌>>=◌, ◌>>◌, map_err, if◌then◌else◌,
}
use fire_ctrl.Models.{AppError, Json, OutputFormat, ScrapeJobData, ScrapeResult}

-- What lies outside: URL parsing, the fetches, and the readings of a document. A URL answers each
-- fetch in one way during a run.
pub record Web : Type 0 where
  -- `Url::parse(u)` and then `host_str().unwrap_or("")`.
  pub host : String → Result String String
  -- What `is_allowed_by_robots` answers.
  pub robots_allow : String → Bool
  -- `HttpScraper::fetch`: status, content type and body.
  pub fetch : String → Result String (ℕ × Option String × String)
  -- `BrowserPool::fetch_page` with the wait and the timeout in seconds: document and title.
  pub fetch_page : String → ℕ → ℕ → Result AppError (String × Option String)
  pub title : String → Option String
  pub markdown : String → String
  pub text : String → Bool → String
  -- The `href` values of the document's anchors.
  pub hrefs : String → List String
  -- `base.join(href)`: the scheme and the text of the URL that results.
  pub join : String → String → Option (String × String)
  pub structured_json : String → String → Json

pub record CrawlerConfig : Type 0 where
  pub max_depth : ℕ
  pub max_pages : ℕ
  pub concurrent_requests : ℕ
  pub request_timeout_seconds : ℕ
  pub user_agent : String
  pub respect_robots_txt : Bool
  pub playwright_url : Option String
  pub browser_pool_size : ℕ

abbrev pub is_http : String → Bool
is_http s = str_eq s "http" || str_eq s "https"

abbrev resolved : Web → String → String → Option String
resolved w base href = elim (w.join base href) [
  | none ↦ none
  | some (scheme, u) ↦ if is_http scheme then some u else none
]

unfoldable pub extract_links : Web → String → String → List String
extract_links w html base = filter_map (resolved w base) (w.hrefs html)

abbrev pub is_raw_html : OutputFormat → Bool
is_raw_html OutputFormat.raw_html = true
is_raw_html _ = false

abbrev pub is_nil {ℓ} : {A : Type ℓ} → List A → Bool
is_nil [] = true
is_nil (x ∷ xs) = false

-- `vec![OutputFormat::Markdown]` where no format is asked for.
abbrev pub or_markdown : List OutputFormat → List OutputFormat
or_markdown [] = OutputFormat.markdown ∷ []
or_markdown (f ∷ fs) = f ∷ fs

pub record Fetched : Type 0 where
  pub html : String
  pub title : Option String
  pub status_code : ℕ
  pub content_type : Option String

use_browser : CrawlerConfig → ScrapeJobData → Bool
use_browser cfg job = (not (is_nil job.actions) || ltb 0 job.wait_for) && is_none cfg.playwright_url

pub fetched : Web → CrawlerConfig → ScrapeJobData → Result AppError Fetched
unfolding use_browser
fetched w cfg job =
    if use_browser cfg job
    then (do
      page ← w.fetch_page job.url job.wait_for (unwrap_or cfg.request_timeout_seconds job.timeout)
      ok (record {
        html = page.0;
        title = or_else page.1 (w.title page.0);
        status_code = 200;
        content_type = some "text/html";
      }))
    else (do
      reply ← map_err AppError.scraper (w.fetch job.url)
      ok (record {
        html = reply.2;
        title = w.title reply.2;
        status_code = reply.0;
        content_type = reply.1;
      }))

abbrev blank : ScrapeJobData → Fetched → ScrapeResult
blank job f = record {
  url = job.url;
  title = f.title;
  markdown = none;
  html = none;
  raw_html = none;
  screenshot = none;
  links = none;
  extract = none;
  json = none;
  warning = none;
  metadata = record {
    status_code = f.status_code;
    content_type = f.content_type;
    source_url = job.url;
    scrape_id = none;
    error = none;
  };
}

-- One round of the loop over the formats. `extract` and `screenshot` change nothing here.
abbrev pub with_format : Web → ScrapeJobData → String → OutputFormat → ScrapeResult → ScrapeResult
with_format w job html OutputFormat.markdown r = record r { markdown = some (w.markdown html) }
with_format w job html OutputFormat.html r = record r {
  html = some (w.text html job.only_main_content);
}
with_format w job html OutputFormat.raw_html r = record r { raw_html = some html }
with_format w job html OutputFormat.links r = record r {
  links = some (extract_links w html job.url);
}
with_format w job html OutputFormat.json r = record r {
  json = some (w.structured_json html job.url);
}
with_format w job html OutputFormat.extract r = r
with_format w job html OutputFormat.screenshot r = r

pub with_formats : Web → ScrapeJobData → String → List OutputFormat → ScrapeResult → ScrapeResult
unfolding extract_links
with_formats w job html [] r = r
with_formats w job html (f ∷ fs) r = with_formats w job html fs (with_format w job html f r)

unfoldable pub scrape : Web → CrawlerConfig → ScrapeJobData → Result AppError ScrapeResult
unfolding fetched with_formats
scrape w cfg job = do
  host ← map_err AppError.invalid_url (w.host job.url)
  if w.robots_allow job.url
      then ok tt
      else err (AppError.scraper ("URL blocked by robots.txt: " ++ job.url))
  f ← fetched w cfg job
  ok (with_formats w job f.html (or_markdown job.formats) (blank job f))

-- Which of the parts that depend on a format a page has.
pub with_formats-url :
    (w : Web) (job : ScrapeJobData) (html : String) (fs : List OutputFormat) (r : ScrapeResult)
    → (with_formats w job html fs r).url ≡ r.url
unfolding with_formats
with_formats-url w job html [] r = refl
with_formats-url w job html (f ∷ fs) r =
    with_formats-url w job html fs (with_format w job html f r) ∙ same f
  where
    same : (f : OutputFormat) → (with_format w job html f r).url ≡ r.url
    same f = ground arith

pub with_formats-raw_html :
    (w : Web) (job : ScrapeJobData) (html : String) (fs : List OutputFormat) (r : ScrapeResult)
    → (with_formats w job html fs r).raw_html
      ≡ (if any is_raw_html fs then some html else r.raw_html)
unfolding with_formats
with_formats-raw_html w job html [] r = refl
with_formats-raw_html w job html (f ∷ fs) r =
    ground (arith, with_formats-raw_html w job html fs (with_format w job html f r))

-- What a successful scrape returns: the formats of a document that was fetched.
pub scrape_inversion :
    (w : Web) (cfg : CrawlerConfig) (job : ScrapeJobData) (r : ScrapeResult)
    → scrape w cfg job ≡ ok r
    → (f : Fetched) × (fetched w cfg job ≡ ok f)
      × (with_formats w job f.html (or_markdown job.formats) (blank job f) ≡ r)
unfolding scrape
scrape_inversion w cfg job r h =
    let (host, _, h1) = >>=-eq-ok (map_err AppError.invalid_url (w.host job.url)) _ h in
    let (_, _, h2) =
      >>=-eq-ok
        (if w.robots_allow job.url
          then ok tt
          else err (AppError.scraper ("URL blocked by robots.txt: " ++ job.url)))
        _ h1 in
    let (f, e, h3) = >>=-eq-ok (fetched w cfg job) _ h2 in
    (f, e, ok-injective {E = AppError} _ _ h3)

pub scrape-url :
    (w : Web) (cfg : CrawlerConfig) (job : ScrapeJobData) (r : ScrapeResult)
    → scrape w cfg job ≡ ok r
    → r.url ≡ job.url
scrape-url w cfg job r h =
    let (f, _, e) = scrape_inversion w cfg job r h in
    ap (λ (x : ScrapeResult). x.url) (sym e)
    ∙ with_formats-url w job f.html (or_markdown job.formats) (blank job f)
