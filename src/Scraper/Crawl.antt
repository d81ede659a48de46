-- ===== src/Scraper/Crawl.antt =====
-- `Scraper::crawl` of src/scraper.rs: the breadth-first loop. It takes `room`, the number of results
-- that the limit still allows, and the queue: each round either uses up one of the room or shortens
-- the queue, so the loop needs no fuel.
pub mod Bounds
pub mod Frontier
pub mod Visits
use fire_ctrl.Prelude.{
  ℕ, zero, suc, ◌+◌, ◌-◌, String, Bool, true, false, not, ◌&&◌, ◌||◌, Option, none, some, List, [],
  ◌∷◌, ◌++◌, any, ltb, str_eq, Result, ok, err, ◌>>=◌, map_err, if◌then◌else◌,
}
use fire_ctrl.Prelude.Text.{contains}
use fire_ctrl.Models.{AppError, OutputFormat, ScrapeJobData, ScrapeOptions, ScrapeResult}
use fire_ctrl.Scraper.Page.{
  Web, CrawlerConfig, extract_links, is_raw_html, is_nil, or_markdown, scrape,
}

pub record CrawlParams : Type 0 where
  pub root_url : String
  pub max_depth : ℕ
  pub limit : ℕ
  pub scrape_options : ScrapeOptions
  pub allow_external_links : Bool
  pub ignore_sitemap : Bool
  pub include_paths : List String
  pub exclude_paths : List String

-- `HashSet<String>::contains`.
abbrev pub seen : String → List String → Bool
seen u visited = any (λ v. str_eq v u) visited

-- The rest of a queue that is pushed to the back, and the visited set after it.
abbrev pub Frontier : Type 0
Frontier = List (String × ℕ) × List String

-- `for u in urls { if visited.insert(u) { queue.push_back((u, depth)) } }`.
unfoldable pub enqueue_new : List String → ℕ → List String → Frontier
enqueue_new [] depth visited = ([], visited)
enqueue_new (u ∷ us) depth visited = elim (seen u visited) [
  | true ↦ enqueue_new us depth visited
  | false ↦ let (q, v) = enqueue_new us depth (u ∷ visited) in ((u, depth) ∷ q, v)
]

-- The path filter and the host filter; a URL that does not parse passes the host filter.
abbrev host_differs : Web → String → String → Bool
host_differs w base_host url = elim (w.host url) [ ok h ↦ not (str_eq h base_host) | err e ↦ false ]

unfoldable pub filtered_out : Web → CrawlParams → String → String → Bool
unfolding contains
filtered_out w p base_host url =
    (not (is_nil p.include_paths) && not (any (λ s. contains s url) p.include_paths))
    || any (λ s. contains s url) p.exclude_paths
    || (not p.allow_external_links && host_differs w base_host url)

abbrev pub page_job : ScrapeOptions → List OutputFormat → String → ScrapeJobData
page_job o formats url = record {
  url = url;
  formats = formats;
  only_main_content = o.only_main_content;
  include_tags = o.include_tags;
  exclude_tags = o.exclude_tags;
  headers = o.headers;
  wait_for = o.wait_for;
  mobile = o.mobile;
  timeout = o.timeout;
  extract = none;
  actions = o.actions;
  location = o.location;
  webhook = none;
}

-- Raw HTML is fetched for every page above the last level, to find its links.
abbrev pub bfs_formats : ℕ → ℕ → List OutputFormat → List OutputFormat
bfs_formats depth max_depth formats =
    if ltb depth max_depth && not (any is_raw_html formats)
    then formats ++ OutputFormat.raw_html ∷ []
    else formats

module _ (w : Web) (cfg : CrawlerConfig) (p : CrawlParams) (base_host : String) where
  pub formats : List OutputFormat
  formats = or_markdown p.scrape_options.formats

  -- The links of a page that the next level takes.
  pub child_links : String → ℕ → Option String → List String
  unfolding extract_links
  child_links url depth none = []
  child_links url depth (some raw) =
      if ltb depth p.max_depth
      then elim (w.host url) [ ok h ↦ extract_links w raw url | err e ↦ [] ]
      else []

  pub stripped : ScrapeResult → ScrapeResult
  unfolding formats
  stripped r = if any is_raw_html formats then r else record r { raw_html = none }

  pub scrape_page : String → ℕ → Result AppError ScrapeResult
  unfolding scrape formats
  scrape_page url depth =
      scrape w cfg (page_job p.scrape_options (bfs_formats depth p.max_depth formats) url)

  unfoldable pub crawl_loop : ℕ → List (String × ℕ) → List String → List ScrapeResult
  unfolding enqueue_new filtered_out child_links stripped scrape_page
  crawl_loop room [] visited = []
  crawl_loop zero (x ∷ queue) visited = []
  crawl_loop (suc room) ((url, depth) ∷ queue) visited = elim (filtered_out w p base_host url) [
    | true ↦ crawl_loop (suc room) queue visited
    | false ↦ elim (scrape_page url depth) [
      | err e ↦ crawl_loop (suc room) queue visited
      | ok r ↦
          let (new, visited') =
            enqueue_new (child_links url depth r.raw_html) (suc depth) visited in
          stripped r ∷ crawl_loop room (queue ++ new) visited'
    ]
  ]

-- The sitemap's URLs are queued at depth 1, and the root before them at depth 0.
abbrev pub with_root : String → Frontier → Frontier
with_root root (queue, visited) =
    if seen root visited then (queue, visited) else ((root, 0) ∷ queue, root ∷ visited)

abbrev pub seeds : CrawlParams → List String → Frontier
seeds p sitemap_urls =
    with_root p.root_url (if p.ignore_sitemap then ([], []) else enqueue_new sitemap_urls 1 [])

-- `sitemap_urls` is what `fetch_sitemap_urls` collects for the root and the limit.
unfoldable pub crawl :
    Web → CrawlerConfig → CrawlParams → List String → Result AppError (List ScrapeResult)
unfolding crawl_loop
crawl w cfg p sitemap_urls = do
  base_host ← map_err AppError.invalid_url (w.host p.root_url)
  let start = seeds p sitemap_urls
  ok (crawl_loop w cfg p base_host p.limit start.0 start.1)
