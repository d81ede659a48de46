-- ===== src/Api/Status.antt =====
-- The status pages of src/api.rs: `crawl_status_handler`, `batch_status_handler`,
-- `extract_status_handler` and `crawl_cancel_handler`.
pub mod Paging
use fire_ctrl.Prelude.{
  ℕ, ◌-◌, ◌^◌, min, String, ◌≡◌, refl, Bool, true, false, ◌&&◌, Option, none, some, List, [], ◌∷◌,
  map, arith, length, filter_map, last, unwrap_or, ltb, ◌==◌, Result, ok, err, ok_or, keep,
  if◌then◌else◌,
}
use fire_ctrl.Prelude.Action.{Action, ◌>>=◌, ◌>>◌, lift}
use fire_ctrl.Prelude.Int.{ℤ, pos, negsuc}
use fire_ctrl.Models.{
  AppError, Json, JobStatus, GroupStatus, QueueScrapeRow, GroupCrawlRow, ScrapeResult,
  CrawlStatusResponse, get, as_str,
}
use fire_ctrl.Queue.{
  Db, Call, get_job, GroupCounts, get_group_results, get_group_counts, get_crawl_group,
  cancel_group, cancel_job, is_failed,
}
use fire_ctrl.Api.Gate.{AuthConfig, check_auth}

-- A handler over the database.
abbrev pub Handler : Type 0 → Type 0
Handler A = Action AppError Db A

pub record PaginationParams : Type 0 where
  pub limit : Option ℤ
  pub after_id : Option ℕ
  pub after_created_at : Option ℕ

-- What the handlers take from libraries: serde's reading of a stored result, and the display of a
-- row as the URL of the next page, `…/{id}?after={}&after_created_at={}&limit={}`.
pub record Codec : Type 0 where
  pub decode : Json → Option ScrapeResult
  pub next_text : String → ℕ → QueueScrapeRow → ℤ → String

-- `params.limit.unwrap_or(25).min(100)`.
pub page_limit_of : Option ℤ → ℤ
page_limit_of none = pos 25
page_limit_of (some (pos n)) = pos (min n 100)
page_limit_of (some (negsuc n)) = negsuc n

-- `as usize` of an `i64`.
abbrev as_usize : ℤ → ℕ
as_usize (pos n) = n
as_usize (negsuc n) = 2 ^ 64 - 1 - n

abbrev pub decoded : Codec → QueueScrapeRow → Option ScrapeResult
decoded d r = elim r.returnvalue [ none ↦ none | some v ↦ d.decode v ]

abbrev pub next_url : Codec → String → ℕ → List QueueScrapeRow → ℤ → ℕ → Option String
next_url d route id rows page_limit n =
    if n == as_usize page_limit
    then elim (last rows) [ none ↦ none | some r ↦ some (d.next_text route id r page_limit) ]
    else none

pub overall_status : GroupStatus → GroupCounts → JobStatus
overall_status GroupStatus.completed counts = JobStatus.completed
overall_status GroupStatus.cancelled counts = JobStatus.cancelled
overall_status GroupStatus.active counts =
    if counts.pending == 0 && ltb 0 counts.total then JobStatus.completed else JobStatus.scraping

-- The answer that both status handlers make of a group.
pub status_response :
    Codec → String → ℕ → GroupCrawlRow → GroupCounts → ℤ → List QueueScrapeRow → CrawlStatusResponse
unfolding overall_status
status_response d route id group counts page_limit rows =
    let page = filter_map (decoded d) rows in
    record {
      status = overall_status group.status counts;
      total = counts.total;
      completed = counts.completed;
      failed = counts.failed;
      credits_used = counts.completed;
      expires_at = group.expires_at;
      next = next_url d route id rows page_limit (length page);
      page = page;
    }

module _ (d : Codec) (c c' c'' : Call) where
  group_status : String → ℕ → ℕ → PaginationParams → Handler CrawlStatusResponse
  unfolding page_limit_of status_response
  group_status route id group_id params = do
    group ← get_crawl_group c group_id
    counts ← get_group_counts c' group_id
    rows ←
        get_group_results c'' group_id (page_limit_of params.limit) params.after_id
          params.after_created_at
    lift (ok (status_response d route id group counts (page_limit_of params.limit) rows))

  pub crawl_status_handler :
      Option String → AuthConfig → ℕ → PaginationParams → Handler CrawlStatusResponse
  unfolding group_status
  crawl_status_handler authorization cfg id params = do
    lift (check_auth authorization cfg)
    group_status "/v2/crawl/" id id params

  no_group : QueueScrapeRow → CrawlStatusResponse
  no_group job = record {
    status = job.status;
    total = 0;
    completed = 0;
    failed = 0;
    credits_used = 0;
    expires_at = none;
    next = none;
    page = [];
  }

  pub batch_status_handler :
      (String → Bool)
      → Call
      → Option String
      → AuthConfig
      → ℕ
      → PaginationParams
      → Handler CrawlStatusResponse
  unfolding group_status no_group
  batch_status_handler accepts c0 authorization cfg id params = do
    lift (check_auth authorization cfg)
    job ← get_job accepts c0 id
    elim job.group_id [
      | none ↦ lift (ok (no_group job))
      | some group_id ↦ group_status "/v2/batch/scrape/" id group_id params
    ]

pub record ExtractStatusResponse : Type 0 where
  pub status : JobStatus
  pub value : Option Json
  pub error : Option String

pub extract_status_handler :
    (String → Bool) → Call → Option String → AuthConfig → ℕ → Handler ExtractStatusResponse
extract_status_handler accepts c authorization cfg id = do
  lift (check_auth authorization cfg)
  row ← get_job accepts c id
  lift (
      ok (record {
        status = row.status;
        value = elim row.returnvalue [ none ↦ none | some v ↦ get "data" v ];
        error = row.failedreason;
      }))

-- `Err(AppError::NotFound(_))`.
abbrev pub is_not_found : AppError → Bool
is_not_found (AppError.not_found e) = true
is_not_found _ = false

-- The calls of `crawl_cancel_handler`, in their order.
pub record CancelCalls : Type 0 where
  pub group : Call
  pub jobs : Call
  pub mark : Call
  pub job : Call
  pub job_cancel : Call

pub cancel_by_job : (String → Bool) → CancelCalls → ℕ → Handler Unit
cancel_by_job accepts c id = do
  job ← get_job accepts c.job id
  elim job.group_id [ none ↦ lift (ok tt) | some group_id ↦ cancel_group c.jobs c.mark group_id ]
  cancel_job c.job_cancel id

abbrev after_lookup :
    (String → Bool) → CancelCalls → ℕ → Result AppError GroupCrawlRow → Handler Unit
after_lookup accepts c id (ok g) = cancel_group c.jobs c.mark id
after_lookup accepts c id (err e) =
    if is_not_found e then cancel_by_job accepts c id else lift (err e)

unfoldable pub crawl_cancel_handler :
    (String → Bool) → CancelCalls → Option String → AuthConfig → ℕ → Handler Unit
unfolding cancel_by_job
crawl_cancel_handler accepts c authorization cfg id = do
  lift (check_auth authorization cfg)
  λ db. let (found, db') = get_crawl_group c.group id db in after_lookup accepts c id found db'
