-- ===== src/Queue/Table.antt =====
-- The tables `nuq.queue_scrape` and `nuq.group_crawl`, the row mappers of src/database.rs, and
-- what a statement is given by the server.
use fire_ctrl.Prelude.{
  ℕ, String, Bool, true, false, ◌&&◌, ◌||◌, Option, none, some, List, [], ◌∷◌, Result, err, ltb,
  ◌==◌, str_eq, if◌then◌else◌,
}
use fire_ctrl.Prelude.Int.{ℤ, int_ltb}
use fire_ctrl.Models.{
  AppError, Json, JobStatus, job_status_text, GroupStatus, group_status_text, QueueScrapeRow,
  GroupCrawlRow,
}

-- All columns of `nuq.queue_scrape`.
pub record JobRow : Type 0 where
  pub id : ℕ
  pub status : JobStatus
  pub payload : Option Json
  pub created_at : ℕ
  pub priority : ℤ
  pub lock : Option ℕ
  pub locked_at : Option ℕ
  pub stalls : Option ℕ
  pub finished_at : Option ℕ
  pub listen_channel_id : Option String
  pub returnvalue : Option Json
  pub failedreason : Option String
  pub owner_id : Option ℕ
  pub group_id : Option ℕ

pub record Db : Type 0 where
  pub jobs : List JobRow
  pub groups : List GroupCrawlRow

-- What the outside gives one call: the pool's or the server's refusal, `now()`, a fresh
-- `gen_random_uuid()`, and how a `Uuid` is displayed.
pub record Call : Type 0 where
  pub fault : Option AppError
  pub now : ℕ
  pub fresh : ℕ
  pub uuid_text : ℕ → String

-- A refused call has changed nothing.
unfoldable pub run :
    {A : Type 0} → Call → (Db → Result AppError A × Db) → Db → Result AppError A × Db
run c f db = elim c.fault [ none ↦ f db | some e ↦ (err e, db) ]

unfoldable pub map_job_status : String → JobStatus
map_job_status s =
    if str_eq s "scraping"
    then JobStatus.scraping
    else if str_eq s "active"
    then JobStatus.active
    else if str_eq s "completed"
    then JobStatus.completed
    else if str_eq s "failed"
    then JobStatus.failed
    else if str_eq s "cancelled"
    then JobStatus.cancelled
    else JobStatus.queued

unfoldable pub map_group_status : String → GroupStatus
map_group_status s =
    if str_eq s "completed"
    then GroupStatus.completed
    else if str_eq s "cancelled"
    then GroupStatus.cancelled
    else GroupStatus.active

-- The statements select `status::text`.
unfoldable pub map_queue_row : JobRow → QueueScrapeRow
unfolding map_job_status job_status_text
map_queue_row r = record {
  id = r.id;
  status = map_job_status (job_status_text r.status);
  payload = r.payload;
  created_at = r.created_at;
  returnvalue = r.returnvalue;
  failedreason = r.failedreason;
  group_id = r.group_id;
}

unfoldable pub map_group_row : GroupCrawlRow → GroupCrawlRow
unfolding map_group_status group_status_text
map_group_row g = record g { status = map_group_status (group_status_text g.status) }

abbrev pub is_queued : JobStatus → Bool
is_queued JobStatus.queued = true
is_queued _ = false

abbrev pub is_active : JobStatus → Bool
is_active JobStatus.active = true
is_active _ = false

abbrev pub is_completed : JobStatus → Bool
is_completed JobStatus.completed = true
is_completed _ = false

abbrev pub is_failed : JobStatus → Bool
is_failed JobStatus.failed = true
is_failed _ = false

-- `status IN ('queued', 'active')`.
abbrev pub is_pending : JobStatus → Bool
is_pending s = is_queued s || is_active s

-- `column = $1`, which no NULL passes.
abbrev pub holds : Option ℕ → ℕ → Bool
holds none k = false
holds (some j) k = j == k

-- `id = $1 AND created_at = $2`, the primary key.
abbrev pub has_key : ℕ → ℕ → JobRow → Bool
has_key id created_at r = r.id == id && r.created_at == created_at

-- `UPDATE … SET f WHERE p`: the table after it. The count of rows is `tally p`.
unfoldable pub update_where : (JobRow → Bool) → (JobRow → JobRow) → List JobRow → List JobRow
update_where p f [] = []
update_where p f (r ∷ rs) = (if p r then f r else r) ∷ update_where p f rs

-- `ORDER BY priority ASC, created_at ASC, id ASC`.
unfoldable pub before : JobRow → JobRow → Bool
before a b =
    if int_ltb a.priority b.priority
    then true
    else if int_ltb b.priority a.priority
    then false
    else if ltb a.created_at b.created_at
    then true
    else if a.created_at == b.created_at
    then ltb a.id b.id
    else false
