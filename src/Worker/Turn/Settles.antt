-- ===== src/Worker/Turn/Settles.antt =====
-- A job of a worker that succeeds has completed its row.
use fire_ctrl.Prelude.{
  ℕ, String, ◌≡◌, refl, sym, subst, Bool, true, ◌||◌, Option, none, some, List, [], ◌∷◌, length,
  All, tally, Bool-cases, inl, inr, Result, ok, err, ◌==◌, if◌then◌else◌,
}
use fire_ctrl.Prelude.Action.{Action, continue, ◌>>=◌, lift}
use fire_ctrl.Models.{
  AppError, Json, Fields, JobEnvelope, ScrapeJobData, CrawlJobData, BatchScrapeJobData,
  ExtractJobData, ScrapeResult, WebhookConfig,
}
use fire_ctrl.Queue.{
  JobRow, Db, Call, run, is_completed, is_failed, has_key, update_where, complete_row, complete_job,
  fail_row, fail_job,
}
use fire_ctrl.Worker.Job.{
  Event, World, Failure, Job, Expiry, stopping, calm, statement, fire_to, Outside,
}
use fire_ctrl.Worker.Kinds.{
  finish, fire_url, complete_group, scrape_result, crawl_results, batch_results, extract_answer,
  run_scrape, run_crawl, run_batch_scrape, run_extract, execute,
}

-- Every row with the key has been completed or failed.
abbrev pub Settled : ℕ → ℕ → Db → Type 0
Settled id created_at db =
    All
      (λ r. has_key id created_at r ≡ true → ((is_completed r.status || is_failed r.status) ≡ true))
      db.jobs

update-Settled :
    (id created_at : ℕ) (f : JobRow → JobRow) (rs : List JobRow)
    → ((r : JobRow) → (is_completed (f r).status || is_failed (f r).status) ≡ true)
    → All
        (λ r.
          has_key id created_at r ≡ true → ((is_completed r.status || is_failed r.status) ≡ true))
        (update_where (has_key id created_at) f rs)
unfolding update_where
update-Settled id created_at f [] h = tt
update-Settled id created_at f (r ∷ rs) h = elim (Bool-cases (has_key id created_at r)) [
  | inl e ↦ rw e (λ k. h r, update-Settled id created_at f rs h)
  | inr e ↦ rw e (λ k. absurd (cc), update-Settled id created_at f rs h)
]

complete_job-Settled :
    (c : Call) (id created_at : ℕ) (v : Json) (db : Db)
    → (complete_job c id created_at v db).0 ≡ ok tt
    → Settled id created_at (complete_job c id created_at v db).1
unfolding complete_job
complete_job-Settled c id created_at v db h = go c.fault refl
  where
    changed :
        (n : ℕ)
        → Settled id created_at
            (let jobs = update_where (has_key id created_at) (complete_row v c.now) db.jobs in
              let r : Result AppError Unit × Db =
                if n == 0
                then (err (AppError.not_found (c.uuid_text id)), record db { jobs = jobs })
                else (ok tt, record db { jobs = jobs }) in
              r).1
    changed n = elim (Bool-cases (n == 0)) [
      | inl e ↦ rw e (update-Settled id created_at (complete_row v c.now) db.jobs (λ r. refl))
      | inr e ↦ rw e (update-Settled id created_at (complete_row v c.now) db.jobs (λ r. refl))
    ]

    go :
        (o : Option AppError)
        → c.fault ≡ o
        → Settled id created_at (complete_job c id created_at v db).1
    go none e = simp (e, run) (changed (tally (has_key id created_at) db.jobs))
    go (some x) e = absurd (cc (simp (e, run) at h))

pub fail_job-Settled :
    (c : Call) (id created_at : ℕ) (text : String) (db : Db)
    → c.fault ≡ none
    → Settled id created_at (fail_job c id created_at text db).1
unfolding fail_job
fail_job-Settled c id created_at text db up =
    simp (up, run) (update-Settled id created_at (fail_row text c.now) db.jobs (λ r. refl))

-- A job that, if it succeeds, leaves its rows settled.
abbrev pub Settles : {E : Type 0} → ℕ → ℕ → Action E World Unit → Type 0
Settles id created_at j = (w : World) → (j w).0 ≡ ok tt → Settled id created_at (j w).1.db

abbrev pub KeepsDb : Job Unit → Type 0
KeepsDb j = (w : World) → (j w).1.db ≡ w.db

>>=-Settles :
    {E A : Type 0} (id created_at : ℕ) (m : Action E World A) (f : A → Action E World Unit)
    → ((a : A) → Settles id created_at (f a))
    → Settles id created_at (m >>= f)
>>=-Settles {E} {A} id created_at m f k w = go (m w)
  where
    go :
        (x : Result E A × World)
        → (continue x f).0 ≡ ok tt
        → Settled id created_at (continue x f).1.db
    go (ok a, s) h = k a s h
    go (err e, s) h = cc

calm-Settles :
    (id created_at : ℕ) (j : Job Unit) → Settles id created_at j → Settles id created_at (calm j)
calm-Settles id created_at j k w h = k w (through (j w).0 h)
  where
    through : (r : Result Failure Unit) → stopping r ≡ ok tt → r ≡ ok tt
    through (ok t) h = refl
    through (err f) h = cc

module _ (o : Outside) (id created_at : ℕ) where
  finish-Settles :
      (v : Json) (hook : Job Unit)
      → KeepsDb hook
      → Settles id created_at (finish o id created_at v hook)
  unfolding finish
  finish-Settles v hook keeps w = go (o.calls 3).expiry
    where
      c : Call
      c = (o.calls 3).call

      answered :
          (x : Result AppError Unit × Db)
          → (x.0 ≡ ok tt → Settled id created_at x.1)
          → (continue (statement Expiry.in_time (λ db. x) w) (λ d. hook)).0 ≡ ok tt
          → Settled id created_at (continue (statement Expiry.in_time (λ db. x) w) (λ d. hook)).1.db
      answered (ok t, db) k h =
          subst (Settled id created_at) (sym (keeps (record w { db = db }))) (k refl)
      answered (err e, db) k h = cc

      go :
          (e : Expiry)
          → (continue (statement e (complete_job c id created_at v) w) (λ d. hook)).0 ≡ ok tt
          → Settled id created_at
              (continue (statement e (complete_job c id created_at v) w) (λ d. hook)).1.db
      go Expiry.in_time h =
          answered (complete_job c id created_at v w.db)
            (complete_job-Settled c id created_at v w.db) h
      go Expiry.before h = cc
      go Expiry.after h = cc

  fire_url-KeepsDb : (u : Option String) (r : ScrapeResult) → KeepsDb (fire_url o id created_at u r)
  unfolding fire_url
  fire_url-KeepsDb none r w = refl
  fire_url-KeepsDb (some u) r w = refl

  fire_to-KeepsDb :
      (late : Bool) (wh : Option WebhookConfig) (e : Event) → KeepsDb (fire_to late wh e)
  fire_to-KeepsDb late none e w = refl
  fire_to-KeepsDb late (some wh) e w = refl

  complete_group-Settles :
      (g n : ℕ) (hook : Job Unit)
      → KeepsDb hook
      → Settles id created_at (complete_group o id created_at g n hook)
  unfolding complete_group
  complete_group-Settles g n hook keeps =
      >>=-Settles id created_at _ _ (λ _. finish-Settles _ hook keeps)

  run_scrape-Settles :
      (job : ScrapeJobData) → Settles id created_at (run_scrape o id created_at job)
  unfolding run_scrape
  run_scrape-Settles job =
      >>=-Settles id created_at (scrape_result o id created_at job)
        (λ r.
          calm (finish o id created_at (o.result_json r) (fire_url o id created_at job.webhook r)))
        (λ r.
          calm-Settles id created_at
            (finish o id created_at (o.result_json r) (fire_url o id created_at job.webhook r))
            (finish-Settles (o.result_json r) (fire_url o id created_at job.webhook r)
              (fire_url-KeepsDb job.webhook r)))

  run_crawl-Settles : (job : CrawlJobData) → Settles id created_at (run_crawl o id created_at job)
  unfolding run_crawl
  run_crawl-Settles job =
      let hook = λ (r : ℕ × List ScrapeResult).
        fire_to (o.late 2) job.webhook (Event.crawl_completed id r.0 (length r.1)) in
      >>=-Settles id created_at (crawl_results o id created_at job)
        (λ r. complete_group o id created_at r.0 (length r.1) (hook r))
        (λ r.
          complete_group-Settles r.0 (length r.1) (hook r)
            (fire_to-KeepsDb (o.late 2) job.webhook (Event.crawl_completed id r.0 (length r.1))))

  run_batch_scrape-Settles :
      (job : BatchScrapeJobData) → Settles id created_at (run_batch_scrape o id created_at job)
  unfolding run_batch_scrape
  run_batch_scrape-Settles job =
      let hook =
        λ (r : ℕ × ℕ). fire_to (o.late 2) job.webhook (Event.batch_scrape_completed id r.1) in
      >>=-Settles id created_at (batch_results o id created_at job)
        (λ r. complete_group o id created_at r.0 r.1 (hook r))
        (λ r.
          complete_group-Settles r.0 r.1 (hook r)
            (fire_to-KeepsDb (o.late 2) job.webhook (Event.batch_scrape_completed id r.1)))

  run_extract-Settles :
      (job : ExtractJobData) → Settles id created_at (run_extract o id created_at job)
  unfolding run_extract
  run_extract-Settles job =
      let value = λ (a : Json × Option String). Json.object (Fields.field "data" a.0 Fields.end) in
      >>=-Settles id created_at (extract_answer o id created_at job)
        (λ a. calm (finish o id created_at (value a) (lift (ok tt))))
        (λ a.
          calm-Settles id created_at (finish o id created_at (value a) (lift (ok tt)))
            (finish-Settles (value a) (lift (ok tt)) (λ w. refl)))

  pub execute-Settles : (e : JobEnvelope) → Settles id created_at (execute o id created_at e)
  unfolding execute
  execute-Settles (JobEnvelope.scrape job) = run_scrape-Settles job
  execute-Settles (JobEnvelope.crawl job) =
      calm-Settles id created_at (run_crawl o id created_at job) (run_crawl-Settles job)
  execute-Settles (JobEnvelope.batch_scrape job) =
      calm-Settles id created_at (run_batch_scrape o id created_at job)
        (run_batch_scrape-Settles job)
  execute-Settles (JobEnvelope.extract job) = run_extract-Settles job
  execute-Settles (JobEnvelope.map job) = λ w h. cc
