-- ===== src/Worker/Content.antt =====
-- `apply_extraction` of src/worker.rs, and what the job kinds compute between their awaits.
use Prim.Native.String.{◌++◌}
use fire_ctrl.Prelude.{
  ℕ, String, Bool, true, false, not, Option, none, some, List, [], ◌∷◌, any, str_eq, Result, ok,
  err, unwrap_or, or_else, ltb, if◌then◌else◌,
}
use fire_ctrl.Prelude.Text.{char_count, take_chars}
use fire_ctrl.Prelude.Action.{lift}
use fire_ctrl.Models.{
  AppError, Json, ScrapeResult, OutputFormat, ExtractOptions, ScrapeOptions, CrawlJobData,
  WebhookConfig,
}
use fire_ctrl.Scraper.Crawl.{CrawlParams}
use fire_ctrl.Worker.Job.{Task, risked, Outside}

-- What is said of an input that was cut.
abbrev pub truncation_text : Outside → ℕ → ℕ → String
truncation_text o total max =
    "Extraction input was truncated from "
    ++ (o.number_text total
        ++ (" to "
            ++ (o.number_text max
                ++ " characters. Refine the prompt or request fewer fields for best results.")))

unfoldable pub cut_content : Outside → String → ScrapeResult → String × ScrapeResult
unfolding char_count take_chars
cut_content o content r =
    if ltb o.max_input_chars (char_count content)
    then (
      take_chars o.max_input_chars content,
      record r { warning = some (truncation_text o (char_count content) o.max_input_chars) },
    )
    else (content, r)

abbrev pub join_warning : Option String → Option String → Option String
join_warning old none = old
join_warning none (some w) = some w
join_warning (some existing) (some w) = some (existing ++ (" " ++ w))

abbrev pub with_extraction : Result String (Json × Option String) → ScrapeResult → ScrapeResult
with_extraction (ok (value, w)) r = record r {
  extract = some value;
  warning = join_warning r.warning w;
}
with_extraction (err e) r = record r {
  metadata = record r.metadata { error = some ("LLM extraction failed: " ++ e) };
}

abbrev pub extracted :
    Option (Result String (Json × Option String)) → ScrapeResult → Option ScrapeResult
extracted none r = none
extracted (some a) r = some (with_extraction a r)

-- None where the extraction panics.
unfoldable pub apply_extraction : Outside → ScrapeResult → ExtractOptions → Option ScrapeResult
unfolding cut_content
apply_extraction o r opts =
    let (content, r') = cut_content o (unwrap_or "" (or_else r.markdown r.html)) r in
    extracted
      (o.llm (record {
        content = content;
        prompt = unwrap_or "Extract all structured data from this page." opts.prompt;
        schema = opts.schema;
        system_prompt = opts.system_prompt;
      }))
      r'

abbrev pub succeeding : Option ScrapeResult → Option (Result AppError ScrapeResult)
succeeding none = none
succeeding (some r) = some (ok r)

abbrev pub extraction : Outside → Option ExtractOptions → ScrapeResult → Task ScrapeResult
extraction o none r = lift (ok r)
extraction o (some opts) r = risked (o.late 1) (succeeding (apply_extraction o r opts))

-- Whether the configuration asks for page events.
abbrev pub wants_pages : Option WebhookConfig → Bool
wants_pages none = false
wants_pages (some wh) = any (λ e. str_eq e "page") wh.events

abbrev pub page_params : CrawlJobData → CrawlParams
page_params job = record {
  root_url = job.url;
  max_depth = job.max_depth;
  limit = job.limit;
  scrape_options = job.scrape_options;
  allow_external_links = job.allow_external_links;
  ignore_sitemap = job.ignore_sitemap;
  include_paths = job.include_paths;
  exclude_paths = job.exclude_paths;
}

-- The host of the first URL, if it parses and has one.
abbrev pub origin_of : Result String String → Option String
origin_of (ok h) = if str_eq h "" then none else some h
origin_of (err e) = none

abbrev pub origin_host : Outside → List String → Option String
origin_host o [] = none
origin_host o (u ∷ us) = origin_of (o.web.host u)

abbrev pub is_outside : Option String → Result String String → Bool
is_outside (some origin) (ok h) = not (str_eq h origin)
is_outside _ _ = false

abbrev pub extract_page_options : ScrapeOptions
extract_page_options = record {
  formats = OutputFormat.markdown ∷ [];
  only_main_content = true;
  include_tags = [];
  exclude_tags = [];
  headers = none;
  wait_for = 0;
  mobile = false;
  timeout = none;
  actions = [];
  location = none;
}

-- The content of the pages in the order in which their tasks end; a page that fails adds nothing.
abbrev pub section_of : String → Option String → String
section_of url none = ""
section_of url (some md) = "## " ++ (url ++ ("\n\n" ++ (md ++ "\n\n")))

unfoldable pub combined : List (Option (String × Result AppError ScrapeResult)) → String
combined [] = ""
combined (none ∷ ts) = combined ts
combined (some (url, ok r) ∷ ts) = section_of url r.markdown ++ combined ts
combined (some (url, err e) ∷ ts) = combined ts
