-- ===== src/Worker/Turn/Keeps.antt =====
-- A round of a worker keeps what the statements of its job keep.
use fire_ctrl.Prelude.{ℕ, String, Option, none, some, List, length, Result, ok, err}
use fire_ctrl.Prelude.Int.{pos}
use fire_ctrl.Prelude.Action.{◌>>=◌, lift}
use fire_ctrl.Models.{
  AppError, Json, Fields, GroupCrawlRow, JobEnvelope, QueueScrapeRow, ScrapeJobData, CrawlJobData,
  BatchScrapeJobData, ExtractJobData, ScrapeResult,
}
use fire_ctrl.Queue.{Db, Call}
use fire_ctrl.Queue.Trace.{IsOfJob, Statement, exec}
use fire_ctrl.Scraper.Page.{scrape}
use fire_ctrl.Scraper.Crawl.{crawl}
use fire_ctrl.Worker.Job.{Event, World, Stop, calm, awaited, fire_to, Outside}
use fire_ctrl.Worker.Content.{extraction, page_params}
use fire_ctrl.Worker.Kinds.{
  finish, fire_url, new_group, crawl_group, store_pages, store_batch, scraped, complete_group,
  scrape_result, crawl_results, batch_results, extract_request, answer_of, extract_answer,
  run_scrape, run_crawl, run_batch_scrape, run_extract, execute,
}
use fire_ctrl.Worker.Turn.{fail_with, after_run, run_envelope, envelope_of, after_claim}
use fire_ctrl.Worker.Turn.Pieces.{
  Keeps, >>=-Keeps, awaited-Keeps, risked-Keeps, fire_to-Keeps, fire_url-Keeps, finish-Keeps,
  new_group-Keeps, crawl_group-Keeps, store_pages-Keeps, store_batch-Keeps, complete_group-Keeps,
  extraction-Keeps,
}

module _ (P : Db → Type 0)
    (kept : (s : Statement) → IsOfJob s → (db : Db) → P db → P (exec s db)) where
  module _ (o : Outside) (id created_at : ℕ) where
    run_scrape-Keeps : (job : ScrapeJobData) → Keeps P (run_scrape o id created_at job)
    unfolding run_scrape scrape_result
    run_scrape-Keeps job =
        >>=-Keeps P kept (scrape_result o id created_at job)
          (λ r.
            calm
              (finish o id created_at (o.result_json r) (fire_url o id created_at job.webhook r)))
          (>>=-Keeps P kept (calm (awaited (o.late 0) (scrape o.web o.crawler job)))
            (extraction o job.extract)
            (awaited-Keeps P kept (o.late 0) (scrape o.web o.crawler job))
            (extraction-Keeps P kept o id created_at job.extract))
          (λ r.
            finish-Keeps P kept o id created_at (o.result_json r)
              (fire_url o id created_at job.webhook r)
              (fire_url-Keeps P kept o id created_at job.webhook r))

    crawl_results-Keeps : (job : CrawlJobData) → Keeps P (crawl_results o id created_at job)
    unfolding crawl_results
    crawl_results-Keeps job =
        let pages = crawl o.web o.crawler (page_params job) (o.sitemap job.url job.limit) in
        let stored = λ (g : GroupCrawlRow) (rs : List ScrapeResult).
          store_pages o id created_at 0 job g.id rs >>= λ d. lift (ok (g.id, rs)) in
        let started =
          λ (g : GroupCrawlRow). fire_to (o.late 1) job.webhook (Event.crawl_started id g.id) in
        >>=-Keeps P kept (crawl_group o id created_at job.group_id job.ttl_ms)
          (λ g. started g >>= λ d. awaited (o.late 0) pages >>= λ rs. stored g rs)
          (crawl_group-Keeps P kept o id created_at job.group_id job.ttl_ms)
          (λ g.
            >>=-Keeps P kept (started g) (λ d. awaited (o.late 0) pages >>= λ rs. stored g rs)
              (fire_to-Keeps P kept (o.late 1) job.webhook (Event.crawl_started id g.id))
              (λ d.
                >>=-Keeps P kept (awaited (o.late 0) pages) (λ rs. stored g rs)
                  (awaited-Keeps P kept (o.late 0) pages)
                  (λ rs.
                    >>=-Keeps P kept (store_pages o id created_at 0 job g.id rs)
                      (λ d. lift (ok (g.id, rs)))
                      (store_pages-Keeps P kept o id created_at 0 job g.id rs) (λ d w h. h))))

    run_crawl-Keeps : (job : CrawlJobData) → Keeps P (run_crawl o id created_at job)
    unfolding run_crawl
    run_crawl-Keeps job =
        let event = λ (r : ℕ × List ScrapeResult). Event.crawl_completed id r.0 (length r.1) in
        >>=-Keeps P kept (crawl_results o id created_at job)
          (λ r.
            complete_group o id created_at r.0 (length r.1)
              (fire_to (o.late 2) job.webhook (event r)))
          (crawl_results-Keeps job)
          (λ r.
            complete_group-Keeps P kept o id created_at r.0 (length r.1)
              (fire_to (o.late 2) job.webhook (event r))
              (fire_to-Keeps P kept (o.late 2) job.webhook (event r)))

    batch_results-Keeps : (job : BatchScrapeJobData) → Keeps P (batch_results o id created_at job)
    unfolding batch_results
    batch_results-Keeps job =
        let ts = scraped o id created_at job.scrape_options job.urls in
        let stored =
          λ (g : GroupCrawlRow) (ts : List (Option (String × Result AppError ScrapeResult))).
            store_batch o id created_at 0 job.priority g.id ts >>= λ n. lift (ok (g.id, n)) in
        >>=-Keeps P kept (new_group o id created_at (pos 86400000))
          (λ g. awaited (o.late 0) (ok ts) >>= λ ts. stored g ts)
          (new_group-Keeps P kept o id created_at (pos 86400000))
          (λ g.
            >>=-Keeps P kept (awaited (o.late 0) (ok ts)) (λ ts. stored g ts)
              (awaited-Keeps P kept (o.late 0) (ok ts))
              (λ ts.
                >>=-Keeps P kept (store_batch o id created_at 0 job.priority g.id ts)
                  (λ n. lift (ok (g.id, n)))
                  (store_batch-Keeps P kept o id created_at 0 job.priority g.id ts) (λ n w h. h)))

    run_batch_scrape-Keeps :
        (job : BatchScrapeJobData) → Keeps P (run_batch_scrape o id created_at job)
    unfolding run_batch_scrape
    run_batch_scrape-Keeps job =
        let event = λ (r : ℕ × ℕ). Event.batch_scrape_completed id r.1 in
        >>=-Keeps P kept (batch_results o id created_at job)
          (λ r. complete_group o id created_at r.0 r.1 (fire_to (o.late 2) job.webhook (event r)))
          (batch_results-Keeps job)
          (λ r.
            complete_group-Keeps P kept o id created_at r.0 r.1
              (fire_to (o.late 2) job.webhook (event r))
              (fire_to-Keeps P kept (o.late 2) job.webhook (event r)))

    run_extract-Keeps : (job : ExtractJobData) → Keeps P (run_extract o id created_at job)
    unfolding run_extract extract_answer extract_request answer_of
    run_extract-Keeps job =
        let value =
          λ (a : Json × Option String). Json.object (Fields.field "data" a.0 Fields.end) in
        >>=-Keeps P kept (extract_answer o id created_at job)
          (λ a. calm (finish o id created_at (value a) (lift (ok tt))))
          (risked-Keeps P kept (o.late 0)
            (answer_of o id created_at (o.llm (extract_request o id created_at job))))
          (λ a. finish-Keeps P kept o id created_at (value a) (lift (ok tt)) (λ w h. h))

    execute-Keeps : (e : JobEnvelope) → Keeps P (execute o id created_at e)
    unfolding execute
    execute-Keeps (JobEnvelope.scrape job) = run_scrape-Keeps job
    execute-Keeps (JobEnvelope.crawl job) = run_crawl-Keeps job
    execute-Keeps (JobEnvelope.batch_scrape job) = run_batch_scrape-Keeps job
    execute-Keeps (JobEnvelope.extract job) = run_extract-Keeps job
    execute-Keeps (JobEnvelope.map job) = λ w h. h

  module _ (decode : Json → Option JobEnvelope) (o : Outside) (c : Call) where
    fail_with-Keeps :
        (row : QueueScrapeRow) (text : String) (w : World) → P w.db → P (fail_with c row text w).db
    unfolding fail_with exec
    fail_with-Keeps row text w h =
        kept (Statement.fails c row.id row.created_at text) IsOfJob.fails w.db h

    after_run-Keeps :
        (row : QueueScrapeRow) (x : Result Stop Unit × World)
        → P x.1.db
        → P (after_run c row x).1.db
    unfolding after_run
    after_run-Keeps row (ok t, w) h = h
    after_run-Keeps row (err (Stop.by f), w) h = fail_with-Keeps row _ w h
    after_run-Keeps row (err Stop.panicked, w) h = h

    run_envelope-Keeps :
        (row : QueueScrapeRow) (e : Option JobEnvelope) (w : World)
        → P w.db
        → P (run_envelope o c row e w).1.db
    unfolding run_envelope
    run_envelope-Keeps row none w h = fail_with-Keeps row _ w h
    run_envelope-Keeps row (some e) w h =
        after_run-Keeps row (execute o row.id row.created_at e w)
          (execute-Keeps o row.id row.created_at e w h)

    pub after_claim-Keeps :
        (found : Result AppError (Option QueueScrapeRow)) (w : World)
        → P w.db
        → P (after_claim decode o c found w).1.db
    unfolding after_claim
    after_claim-Keeps (ok none) w h = h
    after_claim-Keeps (ok (some row)) w h =
        run_envelope-Keeps row (envelope_of decode row.payload) w h
    after_claim-Keeps (err e) w h = h
