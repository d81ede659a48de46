-- ===== src/Lib.antt =====
-- fire_ctrl: a web scraping service. An HTTP API takes scrapes, crawls, batches and extractions; a
-- queue in PostgreSQL holds the jobs; a pool of workers claims them, scrapes and crawls the web, asks
-- a language model, and writes the results back; the API reads the results page by page.
--
-- The parts, and the files that model them:
--   Prelude       shared names, tests on numbers and texts, results, integers, lists
--   Models        src/models.rs: errors, statuses, job data, results, rows
--   Queue         src/database.rs and migrations/001_initial.sql: `Db` is the two tables; each method
--                 of `DbClient` is a function from the tables to its result and the tables after it
--                 (Trace has the statements as data, Life the lives of a job)
--   Worker        src/worker.rs: `stall_recovery_loop` (Recovery), `Worker::run` (Turn, its loop in
--                 Turn.Drains), the job kinds (Kinds, with Job and Content), `fire_webhook` (Webhook), one
--                 respawn of `WorkerPool::run` (Pool)
--   Api           src/api.rs: `check_auth` (Gate), `ResourceSnapshot` and `check_resources`
--                 (Snapshot), the status and cancel handlers (Status), `crawl_handler`,
--                 `batch_scrape_handler` and `extract_handler` (Submit), `scrape_handler` (Scrape),
--                 `search_handler` (Search), `crawl_errors_handler` and `crawl_ongoing_handler`
--                 (Errors), `health_handler` (Health), the table of `router` (Router)
--   Scraper       src/scraper.rs: `Scraper::scrape` and `extract_links` (Page), `Scraper::crawl`
--                 (Crawl), `fetch_sitemap_urls` (Sitemap), `map_urls` (Discovery), `BrowserPool` and
--                 `BrowserGuard` (Browsers; `fetch_page` in Browsers.Fetch), `is_allowed_by_robots`
--                 and its cache (Robots), the readings of HTML (Html), `Scraper::new` and `HttpScraper::new` (Start)
--   Llm           src/llm.rs: `extract` (Retry), `extract_json` (Unwrap), `rank_by_relevance` (Rank),
--                 the requests of a completion and the health check (Chat)
--   Config        src/config.rs: the readings of the environment (Env, Load)
--   Program       src/main.rs: `serve`, `run_worker`, `run_standalone`, `run_healthcheck`
--
-- A statement runs alone, as the server runs each of them in one transaction; what other clients do
-- between two statements is a list of statements (Queue.Trace). What a call is given from outside, the
-- time, a fresh id, or a refusal of the pool or the server, is a record `Call`. Rows that other
-- transactions hold, which `SKIP LOCKED` passes over, are an argument of a claim.
--
-- No model needs fuel but the walk over sitemaps, which recurses on the levels that the source's own
-- depth bound of 5 leaves: the crawl loop recurses on the room that its limit leaves and on its queue, the
-- retry loops of the extraction and of a webhook on the attempts that are left.
--
-- The tasks of the browser pool run side by side as a step relation: one step is what a task does
-- between two awaits, and any task that can go on may be the next. Of the workers, one round at a time
-- is modelled, with the database as the other clients have left it.
--
-- A running job is a sequence of awaits. Each one may be answered, may give an error, or may be where
-- the deadline drops the job, for a statement before or after the server has run it. The
-- extraction may also panic, where `extract_json` does, which ends the worker's task. The order in
-- which the tasks of a batch end is given.
--
-- Parameters, since they are not this repository's code: URL parsing, HTTP and browser fetches, HTML
-- readings, JSON reading of a stored result, the model's endpoint, lower-casing and word splitting,
-- and which statement texts the server's parser accepts. A URL answers each fetch in one way during a
-- crawl. Times are microseconds, resource readings thousandths.
--
-- Not modelled: the parsing of the command line, the tracing set-up and the layers of the router
-- (src/main.rs, src/api.rs), the building of the connection pool (src/database.rs), the closing of a
-- browser and the task that only logs when one ends (src/scraper.rs), all of them calls of other
-- packages; a panic of `extract_json` under the health page; the permits of the workers and of a
-- batch; the loop that measures the machine and the arithmetic of its fractions (src/api.rs), and the
-- reading of a floating point number, since there are no floating point numbers here.
pub mod Prelude
pub mod Models
pub mod Config
pub mod Queue
pub mod Worker
pub mod Api
pub mod Scraper
pub mod Llm
pub mod Program
