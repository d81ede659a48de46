-- ===== src/Worker/Kinds.antt =====
-- The job kinds of src/worker.rs: `run_scrape`, `run_crawl`, `run_batch_scrape`, `run_extract` and
-- `execute`.
use fire_ctrl.Prelude.{
  ℕ, suc, ◌+◌, String, not, Option, none, some, List, [], ◌∷◌, map, length, keep, Result, ok, err,
  map_err, unwrap_or, if◌then◌else◌,
}
use fire_ctrl.Prelude.Int.{ℤ, pos}
use fire_ctrl.Prelude.Action.{◌>>=◌, ◌>>◌, lift}
use fire_ctrl.Models.{
  AppError, Json, Fields, ScrapeResult, GroupStatus, GroupCrawlRow, ScrapeJobData, ScrapeOptions,
  CrawlJobData, BatchScrapeJobData, ExtractJobData, JobEnvelope,
}
use fire_ctrl.Queue.{
  enqueue_completed, complete_job, create_crawl_group, get_crawl_group, set_group_status,
  update_job_group,
}
use fire_ctrl.Scraper.Page.{scrape}
use fire_ctrl.Scraper.Crawl.{crawl, page_job}
use fire_ctrl.Llm.Retry.{ExtractionRequest}
use fire_ctrl.Worker.Job.{
  Event, Failure, Stop, Job, Task, calm, risked, statement, awaited, fire, fire_to, Outside,
  sub_data, total_json,
}
use fire_ctrl.Worker.Content.{
  apply_extraction, extraction, wants_pages, page_params, origin_host, is_outside,
  extract_page_options, combined,
}

module _ (o : Outside) (id created_at : ℕ) where
  -- The last statement of every kind, and its webhook.
  unfoldable pub finish : Json → Job Unit → Job Unit
  unfolding complete_job
  finish value hook = do
    statement (o.calls 3).expiry (complete_job (o.calls 3).call id created_at value)
    hook

  unfoldable pub fire_url : Option String → ScrapeResult → Job Unit
  fire_url none r w = (ok tt, w)
  fire_url (some url) r w = fire (o.late 2) url (Event.scrape_completed id r) w

  unfoldable pub scrape_result : ScrapeJobData → Task ScrapeResult
  unfolding scrape apply_extraction
  scrape_result job = do
    page ← calm (awaited (o.late 0) (scrape o.web o.crawler job))
    extraction o job.extract page

  unfoldable pub run_scrape : ScrapeJobData → Task Unit
  unfolding scrape_result finish fire_url
  run_scrape job = do
    r ← scrape_result job
    calm (finish (o.result_json r) (fire_url job.webhook r))

  unfoldable pub new_group : ℤ → Job GroupCrawlRow
  unfolding create_crawl_group update_job_group
  new_group ttl_ms = do
    group ← statement (o.calls 0).expiry (create_crawl_group (o.calls 0).call 0 ttl_ms)
    statement (o.calls 1).expiry (update_job_group (o.calls 1).call id created_at group.id)
    lift (ok group)

  unfoldable pub crawl_group : Option ℕ → ℤ → Job GroupCrawlRow
  unfolding new_group get_crawl_group
  crawl_group none ttl_ms = new_group ttl_ms
  crawl_group (some gid) ttl_ms =
      statement (o.calls 0).expiry (get_crawl_group (o.calls 0).call gid)

  -- One page as a completed job of the group: the n-th one.
  unfoldable pub store_page : ℕ → ℤ → ℕ → String → ScrapeResult → Job Unit
  unfolding enqueue_completed
  store_page n priority group_id url r = do
    stored ← statement (o.calls (4 + n)).expiry (
        enqueue_completed (o.calls (4 + n)).call (sub_data url) (o.result_json r) priority none
          (some group_id) none)
    lift (ok tt)

  unfoldable pub store_pages : ℕ → CrawlJobData → ℕ → List ScrapeResult → Job Unit
  unfolding store_page
  store_pages n job group_id [] = lift (ok tt)
  store_pages n job group_id (r ∷ rs) = do
    store_page n job.priority group_id r.url r
    if wants_pages job.webhook
        then fire_to (o.late (3 + n)) job.webhook (Event.crawl_page id r)
        else lift (ok tt)
    store_pages (suc n) job group_id rs

  unfoldable pub complete_group : ℕ → ℕ → Job Unit → Job Unit
  unfolding finish set_group_status
  complete_group group_id n hook = do
    statement (o.calls 2).expiry (set_group_status (o.calls 2).call group_id GroupStatus.completed)
    finish (total_json o n group_id) hook

  -- The group of a crawl and its pages, which are stored.
  unfoldable pub crawl_results : CrawlJobData → Job (ℕ × List ScrapeResult)
  unfolding crawl_group crawl store_pages
  crawl_results job = do
    group ← crawl_group job.group_id job.ttl_ms
    fire_to (o.late 1) job.webhook (Event.crawl_started id group.id)
    results ←
        awaited (o.late 0) (crawl o.web o.crawler (page_params job) (o.sitemap job.url job.limit))
    store_pages 0 job group.id results
    lift (ok (group.id, results))

  unfoldable pub run_crawl : CrawlJobData → Job Unit
  unfolding crawl_results complete_group
  run_crawl job = do
    r ← crawl_results job
    complete_group r.0 (length r.1)
        (fire_to (o.late 2) job.webhook (Event.crawl_completed id r.0 (length r.1)))

  -- The pages of a batch in the order in which their tasks end, and the count of those stored.
  unfoldable pub store_batch :
      ℕ → ℤ → ℕ → List (Option (String × Result AppError ScrapeResult)) → Job ℕ
  unfolding store_page
  store_batch n priority group_id [] = lift (ok n)
  store_batch n priority group_id (none ∷ ts) = store_batch n priority group_id ts
  store_batch n priority group_id (some (url, err e) ∷ ts) = store_batch n priority group_id ts
  store_batch n priority group_id (some (url, ok r) ∷ ts) = do
    store_page n priority group_id url r
    store_batch (suc n) priority group_id ts

  pub scraped : ScrapeOptions → List String → List (Option (String × Result AppError ScrapeResult))
  unfolding scrape
  scraped opts urls =
      o.joined (map (λ u. (u, scrape o.web o.crawler (page_job opts opts.formats u))) urls)

  -- The group of a batch and the count of its pages, which are stored.
  unfoldable pub batch_results : BatchScrapeJobData → Job (ℕ × ℕ)
  unfolding new_group scraped store_batch
  batch_results job = do
    group ← new_group (pos 86400000)
    tasks ← awaited (o.late 0) (ok (scraped job.scrape_options job.urls))
    n ← store_batch 0 job.priority group.id tasks
    lift (ok (group.id, n))

  unfoldable pub run_batch_scrape : BatchScrapeJobData → Job Unit
  unfolding batch_results complete_group
  run_batch_scrape job = do
    r ← batch_results job
    complete_group r.0 r.1 (fire_to (o.late 2) job.webhook (Event.batch_scrape_completed id r.1))

  -- The URLs that are scraped: where external links are off, those on the first URL's host.
  kept_urls : ExtractJobData → List String
  kept_urls job =
      if job.allow_external_links
      then job.urls
      else keep (λ u. not (is_outside (origin_host o job.urls) (o.web.host u))) job.urls

  unfoldable pub extract_request : ExtractJobData → ExtractionRequest
  unfolding kept_urls scraped combined
  extract_request job = record {
    content = combined (scraped extract_page_options (kept_urls job));
    prompt = unwrap_or "Extract all relevant information." job.prompt;
    schema = job.schema;
    system_prompt = job.system_prompt;
  }

  unfoldable pub answer_of :
      Option (Result String (Json × Option String))
      → Option (Result AppError (Json × Option String))
  answer_of none = none
  answer_of (some a) = some (map_err AppError.llm a)

  unfoldable pub extract_answer : ExtractJobData → Task (Json × Option String)
  unfolding extract_request answer_of
  extract_answer job = risked (o.late 0) (answer_of (o.llm (extract_request job)))

  unfoldable pub run_extract : ExtractJobData → Task Unit
  unfolding extract_answer finish
  run_extract job = do
    answer ← extract_answer job
    calm (finish (Json.object (Fields.field "data" answer.0 Fields.end)) (lift (ok tt)))

  unfoldable pub execute : JobEnvelope → Task Unit
  unfolding run_scrape run_crawl run_batch_scrape run_extract
  execute (JobEnvelope.scrape job) = run_scrape job
  execute (JobEnvelope.crawl job) = calm (run_crawl job)
  execute (JobEnvelope.batch_scrape job) = calm (run_batch_scrape job)
  execute (JobEnvelope.extract job) = run_extract job
  execute (JobEnvelope.map job) = lift (
      err (
        Stop.by (
          Failure.failed
            (AppError.bad_request "map jobs are synchronous and must not be enqueued"))))
