-- ===== src/Scraper/Examples.antt =====
-- A crawl of a small site.
use fire_ctrl.Prelude.{
  List, ◌≤◌, String, ◌≡◌, refl, true, false, none, some, [], ◌∷◌, length, All, ok, err, str_eq,
  if◌then◌else◌,
}
use fire_ctrl.Models.{AppError, Json, ScrapeOptions, ScrapeResult}
use fire_ctrl.Scraper.Page.{Web, CrawlerConfig}
use fire_ctrl.Scraper.Crawl.{CrawlParams, crawl}
use fire_ctrl.Scraper.Crawl.Bounds.{IsWanted, crawl-bounds}
use fire_ctrl.Scraper.Crawl.Visits.{crawl-distinct}
use fire_ctrl.Scraper.Crawl.Frontier.{DistinctTexts, result_urls}
use fire_ctrl.Scraper.Sitemap.{Entity, IsWalk, fetch_sitemap_urls, fetch_sitemap_urls-IsWalk}
use fire_ctrl.Scraper.Discovery.{MapParams, matches, map_urls}
use fire_ctrl.Scraper.Discovery.Distinct.{map_urls-DistinctTexts}

-- Every page of the site links to the root and to `/b`.
abbrev site : Web
site = record {
  host = λ u. ok "a.example";
  robots_allow = λ u. true;
  fetch = λ u. ok (200, none, u);
  fetch_page = λ u w t. err AppError.timeout;
  title = λ h. none;
  markdown = λ h. h;
  text = λ h m. h;
  hrefs = λ h. "/" ∷ "/b" ∷ "mailto:x" ∷ [];
  join = λ b h. some (if str_eq h "mailto:x" then "mailto" else "https", h);
  structured_json = λ h u. Json.null;
}

abbrev config : CrawlerConfig
config = record {
  max_depth = 3;
  max_pages = 100;
  concurrent_requests = 4;
  request_timeout_seconds = 30;
  user_agent = "fire";
  respect_robots_txt = true;
  playwright_url = none;
  browser_pool_size = 1;
}

abbrev options : ScrapeOptions
options = record {
  formats = [];
  only_main_content = true;
  include_tags = [];
  exclude_tags = [];
  headers = none;
  wait_for = 0;
  mobile = false;
  timeout = none;
  actions = [];
  location = none;
}

abbrev params : CrawlParams
params = record {
  root_url = "/";
  max_depth = 1;
  limit = 10;
  scrape_options = options;
  allow_external_links = false;
  ignore_sitemap = false;
  include_paths = [];
  exclude_paths = "/c" ∷ [];
}

abbrev page_of : String → ScrapeResult
page_of u = record {
  url = u;
  title = none;
  markdown = some u;
  html = none;
  raw_html = none;
  screenshot = none;
  links = none;
  extract = none;
  json = none;
  warning = none;
  metadata = record {
    status_code = 200;
    content_type = none;
    source_url = u;
    scrape_id = none;
    error = none;
  };
}

-- The root, then the sitemap's page, then the page that the root links to; `/c` is excluded.
crawl_result :
    crawl site config params ("/s" ∷ "/c" ∷ [])
    ≡ ok (page_of "/" ∷ page_of "/s" ∷ page_of "/b" ∷ [])
unfolding crawl
crawl_result = refl

crawl-bounds_example :
    (length (page_of "/" ∷ page_of "/s" ∷ page_of "/b" ∷ []) ≤ 10)
    × All
        (λ r. IsWanted site params "a.example" r.url)
        (page_of "/" ∷ page_of "/s" ∷ page_of "/b" ∷ [])
crawl-bounds_example =
    crawl-bounds site config params ("/s" ∷ "/c" ∷ []) "a.example"
      (page_of "/" ∷ page_of "/s" ∷ page_of "/b" ∷ []) refl crawl_result

crawl-distinct_example :
    DistinctTexts (result_urls (page_of "/" ∷ page_of "/s" ∷ page_of "/b" ∷ []))
crawl-distinct_example =
    crawl-distinct site config params ("/s" ∷ "/c" ∷ []) "a.example"
      (page_of "/" ∷ page_of "/s" ∷ page_of "/b" ∷ []) refl crawl_result

-- A sitemap that points at itself, at a broken entry and at two pages.
abbrev looping : String → List Entity
looping u = Entity.child u ∷ Entity.url "/s" ∷ Entity.bad ∷ Entity.url "/t" ∷ []

fetch_sitemap_urls-IsWalk_example : IsWalk 1 (fetch_sitemap_urls looping 1 "/sitemap.xml")
fetch_sitemap_urls-IsWalk_example = fetch_sitemap_urls-IsWalk looping 1 "/sitemap.xml"

abbrev map_params : MapParams
map_params = record {
  root_url = "/";
  search = some "b";
  ignore_sitemap = false;
  include_subdomains = true;
  limit = 5;
}

abbrev same_text : String → String
same_text s = s

abbrev two_urls : List String
two_urls = "/b/1" ∷ "/b" ∷ []

map_result : map_urls same_text site map_params ("/s" ∷ "/b/1" ∷ "/s" ∷ []) ≡ ok two_urls
unfolding map_urls
map_result = refl

map_urls-DistinctTexts_example :
    DistinctTexts two_urls
    × (length two_urls ≤ 5)
    × All (λ u. matches same_text (some "b") u ≡ true) two_urls
map_urls-DistinctTexts_example =
    map_urls-DistinctTexts same_text site map_params ("/s" ∷ "/b/1" ∷ "/s" ∷ []) "a.example"
      two_urls refl map_result
