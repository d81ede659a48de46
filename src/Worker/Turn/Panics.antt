-- ===== src/Worker/Turn/Panics.antt =====
-- What a panic of a job tells: it is one of the extraction, before the job's first write.
use fire_ctrl.Prelude.{ℕ, String, ◌≡◌, refl, Bool, true, false, Option, none, some, Result, ok, err}
use fire_ctrl.Prelude.Action.{continue, ◌>>=◌, lift}
use fire_ctrl.Models.{
  AppError, Json, Fields, JobEnvelope, ExtractOptions, ScrapeJobData, ScrapeResult,
}
use fire_ctrl.Scraper.Page.{scrape}
use fire_ctrl.Llm.Retry.{ExtractionRequest}
use fire_ctrl.Worker.Job.{
  World, Failure, Stop, Job, Task, stopping, calm, awaited, unwinding, risked, Outside,
}
use fire_ctrl.Worker.Content.{apply_extraction, extracted, succeeding, extraction}
use fire_ctrl.Worker.Kinds.{
  finish, fire_url, scrape_result, run_scrape, run_crawl, run_batch_scrape, extract_request,
  answer_of, extract_answer, run_extract, execute,
}

-- The extraction panics on some request.
abbrev pub HasPanic : Outside → Type 0
HasPanic o = (req : ExtractionRequest) × (o.llm req ≡ none)

-- A task that panics has written nothing, and the extraction has panicked.
abbrev pub PanicsEarly : {A : Type 0} → Outside → Task A → Type 0
PanicsEarly o j = (w : World) → (j w).0 ≡ err Stop.panicked → HasPanic o × ((j w).1.db ≡ w.db)

stopping-calm : {A : Type 0} (r : Result Failure A) → stopping r ≡ err Stop.panicked → ⊥
stopping-calm (ok a) h = cc
stopping-calm (err f) h = cc

calm-PanicsEarly : {A : Type 0} (o : Outside) (j : Job A) → PanicsEarly o (calm j)
calm-PanicsEarly o j w h = absurd (stopping-calm (j w).0 h)

-- A task, and then one that cannot panic.
then_calm-PanicsEarly :
    {A B : Type 0} (o : Outside) (m : Task A) (f : A → Job B)
    → PanicsEarly o m
    → PanicsEarly o (m >>= λ a. calm (f a))
then_calm-PanicsEarly {A} {B} o m f k w = go (m w) (k w)
  where
    go :
        (x : Result Stop A × World)
        → (x.0 ≡ err Stop.panicked → HasPanic o × (x.1.db ≡ w.db))
        → (continue x (λ a. calm (f a))).0 ≡ err Stop.panicked
        → HasPanic o × ((continue x (λ a. calm (f a))).1.db ≡ w.db)
    go (ok a, s) l h = absurd (stopping-calm (f a s).0 h)
    go (err e, s) l h = l (cc)

succeeding-none :
    (r : Option ScrapeResult) → unwinding (succeeding r) ≡ err Stop.panicked → r ≡ none
succeeding-none none h = refl
succeeding-none (some r) h = cc

extracted-none :
    (a : Option (Result String (Json × Option String))) (r : ScrapeResult)
    → extracted a r ≡ none
    → a ≡ none
extracted-none none r h = refl
extracted-none (some a) r h = cc

answer_of-none :
    (o : Outside) (id created_at : ℕ) (a : Option (Result String (Json × Option String)))
    → unwinding (answer_of o id created_at a) ≡ err Stop.panicked
    → a ≡ none
unfolding answer_of
answer_of-none o id created_at none h = refl
answer_of-none o id created_at (some (ok a)) h = cc
answer_of-none o id created_at (some (err e)) h = cc

risked-PanicsEarly :
    {A : Type 0} (o : Outside) (late : Bool) (r : Option (Result AppError A))
    → (unwinding r ≡ err Stop.panicked → HasPanic o)
    → PanicsEarly o (risked late r)
risked-PanicsEarly o true r k w h = cc
risked-PanicsEarly o false r k w h = (k h, refl)

module _ (o : Outside) (id created_at : ℕ) where
  extraction-PanicsEarly :
      (opts : Option ExtractOptions) (r : ScrapeResult) → PanicsEarly o (extraction o opts r)
  unfolding apply_extraction
  extraction-PanicsEarly none r = λ w h. cc
  extraction-PanicsEarly (some opts) r =
      risked-PanicsEarly o (o.late 1) (succeeding (apply_extraction o r opts))
        (λ h. (_, extracted-none _ _ (succeeding-none (apply_extraction o r opts) h)))

  scrape_result-PanicsEarly :
      (job : ScrapeJobData) → PanicsEarly o (scrape_result o id created_at job)
  unfolding scrape_result
  scrape_result-PanicsEarly job w = go (o.late 0) (scrape o.web o.crawler job)
    where
      go :
          (late : Bool) (page : Result AppError ScrapeResult)
          → (continue (calm (awaited late page) w) (λ r. extraction o job.extract r)).0
            ≡ err Stop.panicked
          → HasPanic o
            × ((continue (calm (awaited late page) w) (λ r. extraction o job.extract r)).1.db
                ≡ w.db)
      go true page h = cc
      go false (ok r) h = extraction-PanicsEarly job.extract r w h
      go false (err e) h = cc

  pub execute-PanicsEarly : (e : JobEnvelope) → PanicsEarly o (execute o id created_at e)
  unfolding execute run_scrape run_extract extract_answer
  execute-PanicsEarly (JobEnvelope.scrape job) =
      then_calm-PanicsEarly o (scrape_result o id created_at job)
        (λ r. finish o id created_at (o.result_json r) (fire_url o id created_at job.webhook r))
        (scrape_result-PanicsEarly job)
  execute-PanicsEarly (JobEnvelope.crawl job) = calm-PanicsEarly o (run_crawl o id created_at job)
  execute-PanicsEarly (JobEnvelope.batch_scrape job) =
      calm-PanicsEarly o (run_batch_scrape o id created_at job)
  execute-PanicsEarly (JobEnvelope.extract job) =
      let request = extract_request o id created_at job in
      let value = λ (a : Json × Option String). Json.object (Fields.field "data" a.0 Fields.end) in
      then_calm-PanicsEarly o (extract_answer o id created_at job)
        (λ a. finish o id created_at (value a) (lift (ok tt)))
        (risked-PanicsEarly o (o.late 0) (answer_of o id created_at (o.llm request))
          (λ h. (request, answer_of-none o id created_at (o.llm request) h)))
  execute-PanicsEarly (JobEnvelope.map job) = λ w h. cc
