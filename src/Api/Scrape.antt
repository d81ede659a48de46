-- ===== src/Api/Scrape.antt =====
-- `scrape_handler` of src/api.rs: a scrape that is answered at once, with extraction inline.
use fire_ctrl.Prelude.{
  ℕ, String, Bool, true, false, not, ◌&&◌, Option, none, some, List, [], ◌∷◌, ◌++◌, any, is_some,
  or_else, unwrap_or, Result, ok, err, ◌>>=◌, ◌>>◌, if◌then◌else◌,
}
use fire_ctrl.Models.{
  AppError, Json, OutputFormat, ExtractOptions, ScrapeJobData, ScrapeRequest, ScrapeResponse,
  ScrapeResult,
}
use fire_ctrl.Scraper.Page.{is_raw_html, or_markdown, scrape}
use fire_ctrl.Worker.Job.{Outside}
use fire_ctrl.Worker.Content.{cut_content, join_warning}
use fire_ctrl.Api.Gate.{AuthConfig, check_auth}
use fire_ctrl.Api.Snapshot.{Limits, check_resources}

abbrev pub is_markdown : OutputFormat → Bool
is_markdown OutputFormat.markdown = true
is_markdown _ = false

abbrev pub is_html : OutputFormat → Bool
is_html OutputFormat.html = true
is_html _ = false

-- `requested_formats`, and with markdown where extraction would find no text.
abbrev pub effective_formats : Option ExtractOptions → List OutputFormat → List OutputFormat
effective_formats extract requested =
    if is_some extract
      && not (any is_markdown requested)
      && not (any is_html requested)
      && not (any is_raw_html requested)
    then requested ++ OutputFormat.markdown ∷ []
    else requested

abbrev answered : Option (Result String (Json × Option String)) → ScrapeResult → Option ScrapeResult
answered none r = none
answered (some (ok (value, w))) r =
    some (record r { extract = some value; warning = join_warning r.warning w })
answered (some (err e)) r = some r

-- None where the extraction panics.
unfoldable pub extract_inline :
    Outside → Bool → Option ExtractOptions → ScrapeResult → Option ScrapeResult
unfolding cut_content
extract_inline o configured none r = some r
extract_inline o false (some opts) r = some r
extract_inline o true (some opts) r =
    let (content, r') =
      cut_content o (unwrap_or "" (or_else (or_else r.markdown r.html) r.raw_html)) r in
    answered
      (o.llm (record {
        content = content;
        prompt = unwrap_or "" opts.prompt;
        schema = opts.schema;
        system_prompt = opts.system_prompt;
      }))
      r'

-- What was fetched for the extraction alone is hidden.
abbrev pub hide : List OutputFormat → ScrapeResult → ScrapeResult
hide requested r = record r {
  markdown = if any is_markdown requested then r.markdown else none;
  html = if any is_html requested then r.html else none;
  raw_html = if any is_raw_html requested then r.raw_html else none;
}

-- The job of a request.
unfoldable pub scrape_job : ScrapeRequest → ScrapeJobData
scrape_job req = record {
  url = req.url;
  formats = effective_formats req.extract (or_markdown req.formats);
  only_main_content = req.only_main_content;
  include_tags = req.include_tags;
  exclude_tags = req.exclude_tags;
  headers = req.headers;
  wait_for = req.wait_for;
  mobile = req.mobile;
  timeout = req.timeout;
  extract = req.extract;
  actions = req.actions;
  location = req.location;
  webhook = req.webhook;
}

abbrev pub response : List OutputFormat → Option ScrapeResult → Option ScrapeResponse
response requested none = none
response requested (some r) = some (record { success = true; page = hide requested r })

-- A handler that panics gives no answer.
unfoldable pub scrape_handler :
    Outside
    → AuthConfig
    → Limits
    → ℕ
    → Bool
    → Option String
    → ScrapeRequest
    → Result AppError (Option ScrapeResponse)
unfolding scrape extract_inline scrape_job
scrape_handler o cfg limits resources configured authorization req = do
  check_auth authorization cfg
  check_resources limits resources
  r ← scrape o.web o.crawler (scrape_job req)
  ok (response (or_markdown req.formats) (extract_inline o configured req.extract r))
