-- ===== src/Api/Errors.antt =====
-- `crawl_errors_handler`, `crawl_ongoing_handler` and `batch_cancel_handler` of src/api.rs.
pub mod Counts
mod Examples
use fire_ctrl.Prelude.{
  ℕ, String, Bool, true, false, Option, none, some, List, [], ◌∷◌, map, keep, unwrap_or, Result, ok,
  err, ok_or, if◌then◌else◌,
}
use fire_ctrl.Prelude.Action.{◌>>=◌, ◌>>◌, lift}
use fire_ctrl.Prelude.Int.{ℤ, pos}
use fire_ctrl.Models.{AppError, Json, GroupStatus, QueueScrapeRow, GroupCrawlRow, get, as_str}
use fire_ctrl.Queue.{
  Db, Call, get_job, get_group_results, get_crawl_group, get_active_groups, is_failed,
}
use fire_ctrl.Api.Gate.{AuthConfig, check_auth}
use fire_ctrl.Api.Status.{Handler, CancelCalls, is_not_found, crawl_cancel_handler}

pub record CrawlError : Type 0 where
  pub id : ℕ
  pub timestamp : ℕ
  pub url : String
  pub error : String

pub record CrawlErrors : Type 0 where
  pub errors : List CrawlError
  pub robots_blocked : List String

abbrev text_of : Option Json → Option String
text_of none = none
text_of (some v) = as_str v

-- `d["payload"][key]`, where what is no object has no value.
abbrev in_payload : String → Option Json → Option Json
in_payload key none = none
in_payload key (some d) = elim (get "payload" d) [ none ↦ none | some p ↦ get key p ]

abbrev pub crawl_error : QueueScrapeRow → CrawlError
crawl_error r = record {
  id = r.id;
  timestamp = r.created_at;
  url = unwrap_or "" (text_of (in_payload "url" r.payload));
  error = unwrap_or "unknown" r.failedreason;
}

-- The calls of the handler, in their order.
pub record ErrorCalls : Type 0 where
  pub group : Call
  pub job : Call
  pub rows : Call

pub group_of_job : (String → Bool) → ErrorCalls → ℕ → Handler ℕ
group_of_job accepts c id = do
  job ← get_job accepts c.job id
  lift (ok_or (AppError.not_found (c.job.uuid_text id)) job.group_id)

abbrev pub group_of : (String → Bool) → ErrorCalls → ℕ → Result AppError GroupCrawlRow → Handler ℕ
group_of accepts c id (ok g) = lift (ok id)
group_of accepts c id (err e) = if is_not_found e then group_of_job accepts c id else lift (err e)

abbrev pub errors_of : List QueueScrapeRow → CrawlErrors
errors_of rows = record {
  errors = map crawl_error (keep (λ r. is_failed r.status) rows);
  robots_blocked = [];
}

pub crawl_errors_handler :
    (String → Bool) → ErrorCalls → Option String → AuthConfig → ℕ → Handler CrawlErrors
unfolding group_of_job
crawl_errors_handler accepts c authorization cfg id = do
  lift (check_auth authorization cfg)
  group_id ←
      λ db. let (found, db') = get_crawl_group c.group id db in group_of accepts c id found db'
  rows ← get_group_results c.rows group_id (pos 1000) none none
  lift (ok (errors_of rows))

pub record OngoingCrawl : Type 0 where
  pub id : ℕ
  pub status : GroupStatus
  pub created_at : ℕ
  pub owner_id : ℕ
  pub ttl : ℤ

abbrev ongoing : GroupCrawlRow → OngoingCrawl
ongoing g = record {
  id = g.id;
  status = g.status;
  created_at = g.created_at;
  owner_id = g.owner_id;
  ttl = g.ttl;
}

-- The crawls of the answer.
pub crawl_ongoing_handler : Call → Option String → AuthConfig → Handler (List OngoingCrawl)
crawl_ongoing_handler c authorization cfg = do
  lift (check_auth authorization cfg)
  groups ← get_active_groups c
  lift (ok (map ongoing groups))

pub batch_cancel_handler :
    (String → Bool) → CancelCalls → Option String → AuthConfig → ℕ → Handler Unit
unfolding crawl_cancel_handler
batch_cancel_handler = crawl_cancel_handler
