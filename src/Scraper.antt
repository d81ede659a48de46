-- ===== src/Scraper.antt =====
-- src/scraper.rs: scraping one page, the crawl, sitemaps and URL discovery, the browser pool, robots,
-- the readings of HTML, and the making of a scraper.
pub mod Page
pub mod Crawl
pub mod Sitemap
pub mod Discovery
pub mod Browsers
pub mod Robots
pub mod Html
pub mod Start
mod Examples
