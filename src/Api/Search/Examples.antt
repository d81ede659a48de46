-- ===== src/Api/Search/Examples.antt =====
-- A search that scans a result page of Google.
use mathlib.Core.List.Permᴰ.{refl as Perm_refl}
use fire_ctrl.Prelude.{
  max, String, ◌≡◌, refl, true, false, Option, none, some, List, [], ◌∷◌, take, filter_map, ok, err,
}
use fire_ctrl.Prelude.Text.{strip_prefix, find_char, starts_with, take_chars, contains, trim}
use fire_ctrl.Prelude.Lines.{lines}
use fire_ctrl.Models.{AppError, Json, bare_map}
use fire_ctrl.Scraper.Page.{Web, CrawlerConfig}
use fire_ctrl.Api.Gate.{AuthConfig, check_auth}
use fire_ctrl.Api.Snapshot.{Limits, check_resources}
use fire_ctrl.Llm.Rank.{rank_by_relevance}
use fire_ctrl.Api.Search.{
  SearchRequest, bare_search, SearchWebResult, SearchResponse, SearchConfig, Texts, google_target,
  google_urls, search_urls, search_handler, map_handler,
}
use fire_ctrl.Api.Search.Bounds.{IsAnswer, google_urls-take, search_handler-IsAnswer}

abbrev plain : Texts
plain = record {
  encode = λ s. s;
  decode = λ s. some s;
  parse = λ s. err "no JSON";
  number_text = λ n. "2";
  lower = λ s. s;
  words = λ s. s ∷ [];
}

abbrev result_links : List String
result_links =
    "/search?q=x" ∷ "/url?q=http://b.example&sa=U" ∷ "/url?q=ftp://c.example&sa=U"
    ∷ "/url?q=http://a.example&sa=U" ∷ "/url?q=http://d.example&sa=U" ∷ []

abbrev engine : Web
engine = record {
  host = λ u. ok "example";
  robots_allow = λ u. true;
  fetch = λ u. ok (200, none, u);
  fetch_page = λ u w t. err AppError.timeout;
  title = λ h. none;
  markdown = λ h. h;
  text = λ h m. h;
  hrefs = λ h. result_links;
  join = λ b h. none;
  structured_json = λ h u. Json.null;
}

abbrev crawler : CrawlerConfig
crawler = record {
  max_depth = 3;
  max_pages = 100;
  concurrent_requests = 4;
  request_timeout_seconds = 30;
  user_agent = "fire";
  respect_robots_txt = true;
  playwright_url = none;
  browser_pool_size = 1;
}

abbrev no_searxng : SearchConfig
no_searxng = record { searxng_endpoint = none; searxng_engines = none; searxng_categories = none }

abbrev open_gate : AuthConfig
open_gate = record {
  use_db_authentication = false;
  test_api_key = none;
  bull_auth_key = "admin";
  allow_local_webhooks = false;
}

abbrev no_limits : Limits
no_limits = record {
  above_cpu = λ n. false;
  above_ram = λ n. false;
  cpu_text = λ n. "";
  ram_text = λ n. "";
}

abbrev two_pages : SearchRequest
two_pages = record (bare_search "//a") { limit = 2 }

abbrev in_order : List (Option SearchWebResult) → List (Option SearchWebResult)
in_order xs = xs

abbrev page : String → SearchWebResult
page u = record { url = u; title = none; description = some u; category = none }

-- The page that contains the query comes first.
abbrev answer : SearchResponse
answer = record {
  success = true;
  found = record {
    web = some (page "http://a.example" ∷ page "http://b.example" ∷ []);
    news = none;
    images = none;
  };
}

google_urls-take_example :
    google_urls plain 2 0 result_links
    ≡ take (max 2 1) (filter_map (google_target plain) result_links)
google_urls-take_example = google_urls-take plain 2 result_links

answers :
    search_handler plain engine crawler no_searxng open_gate no_limits 0 in_order none two_pages
    ≡ ok answer
unfolding search_handler check_auth check_resources search_urls rank_by_relevance strip_prefix
    find_char starts_with take_chars contains lines trim
answers = refl

search_handler-IsAnswer_example : IsAnswer 2 answer.found.web
search_handler-IsAnswer_example =
    search_handler-IsAnswer plain engine crawler no_searxng open_gate no_limits 0 in_order none
      two_pages answer (λ xs. Perm_refl xs) answers

-- The default limit leaves a short list as it is.
site_is_mapped :
    map_handler
      (λ s. s)
      engine
      open_gate
      none
      (bare_map "https://example/")
      ("https://example/a" ∷ [])
    ≡ ok (record {
      success = true;
      links =
          record { url = "https://example/a"; title = none; description = none; category = none }
          ∷ [];
    })
unfolding check_auth map_handler
site_is_mapped = refl
