-- ===== src/Scraper/Start.antt =====
-- `HttpScraper::new`, `Scraper::new` and `concurrent_requests` of src/scraper.rs. The builders of the
-- client are those of its library, which is given by what it refuses.
mod Examples
use Prim.Native.String.{◌++◌}
use fire_ctrl.Prelude.{
  ℕ, max, String, Option, none, some, Result, ok, err, ◌>>=◌, ◌>>◌, map_err, unwrap_or,
}
use fire_ctrl.Models.{AppError}
use fire_ctrl.Config.Load.{ProxyConfig}
use fire_ctrl.Scraper.Page.{CrawlerConfig}
use fire_ctrl.Scraper.Browsers.{Pool, new}

-- What the builder is told: the proxy with its user and password.
pub record ClientSpec : Type 0 where
  pub user_agent : String
  pub timeout_seconds : ℕ
  pub proxy : Option (String × Option (String × String))

pub record Library : Type 0 where
  pub proxy_all : String → Result String (Unit {0})
  pub build : ClientSpec → Result String (Unit {0})

abbrev pub basic_auth : ProxyConfig → Option (String × String)
basic_auth proxy = elim proxy.username [
  | none ↦ none
  | some username ↦ some (username, unwrap_or "" proxy.password)
]

abbrev pub spec_with : CrawlerConfig → Option (String × Option (String × String)) → ClientSpec
spec_with cfg proxy = record {
  user_agent = cfg.user_agent;
  timeout_seconds = cfg.request_timeout_seconds;
  proxy = proxy;
}

abbrev pub proxied :
    Library
    → ProxyConfig
    → Option String
    → Result AppError (Option (String × Option (String × String)))
proxied l proxy none = ok none
proxied l proxy (some server) = do
  map_err (λ e. AppError.scraper ("Proxy config error: " ++ e)) (l.proxy_all server)
  ok (some (server, basic_auth proxy))

-- `HttpScraper::new`: the client it has built.
unfoldable pub http_new : Library → CrawlerConfig → ProxyConfig → Result AppError ClientSpec
http_new l cfg proxy = do
  p ← proxied l proxy proxy.server
  map_err (λ e. AppError.scraper ("HTTP client build failed: " ++ e)) (l.build (spec_with cfg p))
  ok (spec_with cfg p)

-- `Scraper::new`: the browsers first, then the client.
unfoldable pub scraper_new :
    (ℕ → Result AppError (Unit {0}))
    → Library
    → CrawlerConfig
    → ProxyConfig
    → Result AppError (Pool × ClientSpec)
unfolding http_new new
scraper_new launch l cfg proxy = do
  browser ← new launch cfg.browser_pool_size
  http ← http_new l cfg proxy
  ok (browser, http)

abbrev pub concurrent_requests : CrawlerConfig → ℕ
concurrent_requests cfg = max cfg.concurrent_requests 1
