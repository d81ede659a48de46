-- ===== src/Scraper/Start/Examples.antt =====
-- A scraper behind a proxy, and one whose client cannot be built.
use fire_ctrl.Prelude.{◌≡◌, refl, true, none, some, [], ◌∷◌, ok, err}
use fire_ctrl.Models.{AppError}
use fire_ctrl.Config.Load.{ProxyConfig}
use fire_ctrl.Scraper.Page.{CrawlerConfig}
use fire_ctrl.Scraper.Browsers.{new, opened}
use fire_ctrl.Scraper.Start.{Library, scraper_new, concurrent_requests}

abbrev config : CrawlerConfig
config = record {
  max_depth = 3;
  max_pages = 100;
  concurrent_requests = 0;
  request_timeout_seconds = 30;
  user_agent = "fire";
  respect_robots_txt = true;
  playwright_url = none;
  browser_pool_size = 2;
}

abbrev proxy : ProxyConfig
proxy = record { server = some "http://proxy.example"; username = some "me"; password = none }

abbrev willing : Library
willing = record { proxy_all = λ s. ok tt; build = λ c. ok tt }

abbrev unwilling : Library
unwilling = record { proxy_all = λ s. ok tt; build = λ c. err "no TLS" }

-- A user without a password gets the empty one.
starts :
    scraper_new (λ n. ok tt) willing config proxy
    ≡ ok (
      opened 2 (0 ∷ 1 ∷ []),
      record {
        user_agent = "fire";
        timeout_seconds = 30;
        proxy = some ("http://proxy.example", some ("me", ""));
      },
    )
unfolding scraper_new new
starts = refl

build_fails :
    scraper_new (λ n. ok tt) unwilling config proxy
    ≡ err (AppError.scraper "HTTP client build failed: no TLS")
unfolding scraper_new new
build_fails = refl

one_at_least : concurrent_requests config ≡ 1
one_at_least = refl
