-- ===== src/Worker/Turn/Pieces.antt =====
-- What the statements of a job keep, the pieces that the job kinds are made of keep, however they end.
use fire_ctrl.Prelude.{
  ℕ, suc, ◌+◌, String, Bool, true, false, Option, none, some, List, [], ◌∷◌, Result, ok, err,
  if◌then◌else◌,
}
use fire_ctrl.Prelude.Int.{ℤ}
use fire_ctrl.Prelude.Action.{Action, continue, ◌>>=◌, lift}
use fire_ctrl.Models.{
  AppError, Json, GroupStatus, CrawlJobData, ExtractOptions, ScrapeResult, WebhookConfig,
}
use fire_ctrl.Queue.{
  Db, enqueue_completed, complete_job, create_crawl_group, get_crawl_group, set_group_status,
  update_job_group,
}
use fire_ctrl.Queue.Trace.{IsOfJob, Statement, exec, run-keeps}
use fire_ctrl.Worker.Job.{
  Event, World, Job, Expiry, statement, awaited, risked, calm, fire_to, Outside, sub_data,
  total_json,
}
use fire_ctrl.Worker.Content.{extraction, wants_pages, apply_extraction, succeeding}
use fire_ctrl.Worker.Kinds.{
  finish, fire_url, new_group, crawl_group, store_page, store_pages, store_batch, complete_group,
}

-- What holds of the database before a job holds after it, however the job ends.
abbrev pub Keeps : {E A : Type 0} → (Db → Type 0) → Action E World A → Type 0
Keeps P j = (w : World) → P w.db → P (j w).1.db

module _ (P : Db → Type 0)
    (kept : (s : Statement) → IsOfJob s → (db : Db) → P db → P (exec s db)) where
  pub >>=-Keeps :
      {E A B : Type 0} (m : Action E World A) (f : A → Action E World B)
      → Keeps P m
      → ((a : A) → Keeps P (f a))
      → Keeps P (m >>= f)
  >>=-Keeps {E} {A} {B} m f k l w h = go (m w) (k w h)
    where
      go : (x : Result E A × World) → P x.1.db → P (continue x f).1.db
      go (ok a, s) i = l a s i
      go (err e, s) i = i

  pub statement-Keeps :
      {A : Type 0} (e : Expiry) (f : Db → Result AppError A × Db)
      → ((db : Db) → P db → P (f db).1)
      → Keeps P (statement e f)
  statement-Keeps Expiry.in_time f k w h = k w.db h
  statement-Keeps Expiry.before f k w h = h
  statement-Keeps Expiry.after f k w h = k w.db h

  pub awaited-Keeps : {A : Type 0} (late : Bool) (r : Result AppError A) → Keeps P (awaited late r)
  awaited-Keeps true r w h = h
  awaited-Keeps false r w h = h

  pub calm-Keeps : {A : Type 0} (j : Job A) → Keeps P j → Keeps P (calm j)
  calm-Keeps j k w h = k w h

  pub risked-Keeps :
      {A : Type 0} (late : Bool) (r : Option (Result AppError A)) → Keeps P (risked late r)
  risked-Keeps true r w h = h
  risked-Keeps false r w h = h

  pub fire_to-Keeps :
      (late : Bool) (wh : Option WebhookConfig) (e : Event) → Keeps P (fire_to late wh e)
  fire_to-Keeps late none e w h = h
  fire_to-Keeps late (some wh) e w h = h

  module _ (o : Outside) (id created_at : ℕ) where
    pub fire_url-Keeps :
        (u : Option String) (r : ScrapeResult) → Keeps P (fire_url o id created_at u r)
    unfolding fire_url
    fire_url-Keeps none r w h = h
    fire_url-Keeps (some u) r w h = h

    pub finish-Keeps :
        (v : Json) (hook : Job Unit) → Keeps P hook → Keeps P (finish o id created_at v hook)
    unfolding finish exec
    finish-Keeps v hook k =
        let c = (o.calls 3).call in
        >>=-Keeps (statement (o.calls 3).expiry (complete_job c id created_at v)) (λ d. hook)
          (statement-Keeps (o.calls 3).expiry (complete_job c id created_at v)
            (λ db h. kept (Statement.completes c id created_at v) IsOfJob.completes db h))
          (λ d. k)

    pub new_group-Keeps : (ttl_ms : ℤ) → Keeps P (new_group o id created_at ttl_ms)
    unfolding new_group exec
    new_group-Keeps ttl_ms =
        let c = (o.calls 0).call in
        let c' = (o.calls 1).call in
        >>=-Keeps (statement (o.calls 0).expiry (create_crawl_group c 0 ttl_ms))
          (λ g. statement (o.calls 1).expiry (update_job_group c' id created_at g.id) >>= λ d.
            lift (ok g))
          (statement-Keeps (o.calls 0).expiry (create_crawl_group c 0 ttl_ms)
            (λ db h. kept (Statement.creates_group c 0 ttl_ms) IsOfJob.creates_group db h))
          (λ g.
            >>=-Keeps (statement (o.calls 1).expiry (update_job_group c' id created_at g.id))
              (λ d. lift (ok g))
              (statement-Keeps (o.calls 1).expiry (update_job_group c' id created_at g.id) (λ db h.
                kept (Statement.updates_job_group c' id created_at g.id) IsOfJob.updates_job_group
                  db h))
              (λ d w h. h))

    pub crawl_group-Keeps :
        (g : Option ℕ) (ttl_ms : ℤ) → Keeps P (crawl_group o id created_at g ttl_ms)
    unfolding crawl_group get_crawl_group
    crawl_group-Keeps none ttl_ms = new_group-Keeps ttl_ms
    crawl_group-Keeps (some g) ttl_ms =
        statement-Keeps (o.calls 0).expiry (get_crawl_group (o.calls 0).call g)
          (λ db h. run-keeps P (o.calls 0).call.fault _ db h h)

    pub store_page-Keeps :
        (n : ℕ) (priority : ℤ) (g : ℕ) (url : String) (r : ScrapeResult)
        → Keeps P (store_page o id created_at n priority g url r)
    unfolding store_page exec
    store_page-Keeps n priority g url r =
        let c = (o.calls (4 + n)).call in
        >>=-Keeps
          (statement (o.calls (4 + n)).expiry
            (enqueue_completed c (sub_data url) (o.result_json r) priority none (some g) none))
          (λ d. lift (ok tt))
          (statement-Keeps (o.calls (4 + n)).expiry
            (enqueue_completed c (sub_data url) (o.result_json r) priority none (some g) none)
            (λ db h.
              kept
                (Statement.enqueues_completed c (sub_data url) (o.result_json r) priority none
                  (some g) none)
                IsOfJob.enqueues_completed db h))
          (λ d w h. h)

    pub page_event-Keeps :
        (b late : Bool) (wh : Option WebhookConfig) (e : Event)
        → Keeps P (if b then fire_to late wh e else lift (ok tt))
    page_event-Keeps true late wh e = fire_to-Keeps late wh e
    page_event-Keeps false late wh e = λ w h. h

    pub store_pages-Keeps :
        (n : ℕ) (job : CrawlJobData) (g : ℕ) (rs : List ScrapeResult)
        → Keeps P (store_pages o id created_at n job g rs)
    unfolding store_pages
    store_pages-Keeps n job g [] = λ w h. h
    store_pages-Keeps n job g (r ∷ rs) =
        let event =
          if wants_pages job.webhook
          then fire_to (o.late (3 + n)) job.webhook (Event.crawl_page id r)
          else lift (ok tt) in
        let rest = store_pages o id created_at (suc n) job g rs in
        >>=-Keeps (store_page o id created_at n job.priority g r.url r) (λ d. event >>= λ d. rest)
          (store_page-Keeps n job.priority g r.url r)
          (λ d.
            >>=-Keeps event (λ d. rest)
              (page_event-Keeps (wants_pages job.webhook) (o.late (3 + n)) job.webhook
                (Event.crawl_page id r))
              (λ d. store_pages-Keeps (suc n) job g rs))

    pub store_batch-Keeps :
        (n : ℕ) (priority : ℤ) (g : ℕ) (ts : List (Option (String × Result AppError ScrapeResult)))
        → Keeps P (store_batch o id created_at n priority g ts)
    unfolding store_batch
    store_batch-Keeps n priority g [] = λ w h. h
    store_batch-Keeps n priority g (none ∷ ts) = store_batch-Keeps n priority g ts
    store_batch-Keeps n priority g (some (url, err e) ∷ ts) = store_batch-Keeps n priority g ts
    store_batch-Keeps n priority g (some (url, ok r) ∷ ts) =
        >>=-Keeps (store_page o id created_at n priority g url r)
          (λ d. store_batch o id created_at (suc n) priority g ts)
          (store_page-Keeps n priority g url r) (λ d. store_batch-Keeps (suc n) priority g ts)

    pub complete_group-Keeps :
        (g n : ℕ) (hook : Job Unit)
        → Keeps P hook
        → Keeps P (complete_group o id created_at g n hook)
    unfolding complete_group exec
    complete_group-Keeps g n hook k =
        let c = (o.calls 2).call in
        >>=-Keeps (statement (o.calls 2).expiry (set_group_status c g GroupStatus.completed))
          (λ d. finish o id created_at (total_json o n g) hook)
          (statement-Keeps (o.calls 2).expiry (set_group_status c g GroupStatus.completed) (λ db h.
            kept (Statement.sets_group_status c g GroupStatus.completed) IsOfJob.sets_group_status
              db h))
          (λ d. finish-Keeps (total_json o n g) hook k)

    pub extraction-Keeps :
        (opts : Option ExtractOptions) (r : ScrapeResult) → Keeps P (extraction o opts r)
    extraction-Keeps none r = λ w h. h
    extraction-Keeps (some opts) r =
        risked-Keeps (o.late 1) (succeeding (apply_extraction o r opts))
