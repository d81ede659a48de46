-- ===== src/Queue/Jobs.antt =====
-- The statements of `DbClient` on `nuq.queue_scrape`.
use fire_ctrl.Prelude.{
  ℕ, String, Bool, false, ◌&&◌, not, Option, none, some, List, [], ◌∷◌, ◌++◌, Result, ok, err, ltb,
  ◌==◌, tally, any, if◌then◌else◌,
}
use fire_ctrl.Prelude.Int.{ℤ}
use fire_ctrl.Models.{AppError, Json, JobStatus, QueueScrapeRow}
use fire_ctrl.Queue.Table.{
  JobRow, Db, Call, run, map_queue_row, is_queued, is_pending, has_key, update_where, before,
}

-- The row that an INSERT makes from the given columns and the table's defaults.
abbrev pub new_row : Call → Option Json → ℤ → Option ℕ → Option ℕ → Option String → JobRow
new_row c payload priority owner_id group_id channel = record {
  id = c.fresh;
  status = JobStatus.queued;
  payload = payload;
  created_at = c.now;
  priority = priority;
  lock = none;
  locked_at = none;
  stalls = none;
  finished_at = none;
  listen_channel_id = channel;
  returnvalue = none;
  failedreason = none;
  owner_id = owner_id;
  group_id = group_id;
}

-- An INSERT whose primary key is taken is refused.
unfoldable pub insert_row : JobRow → Db → Result AppError QueueScrapeRow × Db
unfolding map_queue_row
insert_row r db =
    if any (has_key r.id r.created_at) db.jobs
    then (err (AppError.postgres "duplicate key"), db)
    else (ok (map_queue_row r), record db { jobs = db.jobs ++ r ∷ [] })

unfoldable pub enqueue :
    Call → Json → ℤ → Option ℕ → Option ℕ → Option String → Db → Result AppError QueueScrapeRow × Db
unfolding run insert_row
enqueue c payload priority owner_id group_id channel =
    run c (insert_row (new_row c (some payload) priority owner_id group_id channel))

abbrev pub completed_row : Call → Json → Json → ℤ → Option ℕ → Option ℕ → Option String → JobRow
completed_row c payload value priority owner_id group_id channel =
    let r = new_row c (some payload) priority owner_id group_id channel in
    record r { status = JobStatus.completed; returnvalue = some value; finished_at = some c.now }

unfoldable pub enqueue_completed :
    Call
    → Json
    → Json
    → ℤ
    → Option ℕ
    → Option ℕ
    → Option String
    → Db
    → Result AppError QueueScrapeRow × Db
unfolding run insert_row
enqueue_completed c payload value priority owner_id group_id channel =
    run c (insert_row (completed_row c payload value priority owner_id group_id channel))

-- A row that the claim may take: queued, and not held by another transaction (`SKIP LOCKED`).
abbrev pub claimable : (ℕ → ℕ → Bool) → JobRow → Bool
claimable held r = is_queued r.status && not (held r.id r.created_at)

abbrev pub better : JobRow → Option JobRow → Option JobRow
better r none = some r
better r (some s) = if before s r then some s else some r

-- `ORDER BY … LIMIT 1` over the rows that pass.
unfoldable pub next_row : (JobRow → Bool) → List JobRow → Option JobRow
next_row p [] = none
next_row p (r ∷ rs) = let rest = next_row p rs in if p r then better r rest else rest

abbrev pub lock_row : ℕ → ℕ → JobRow → JobRow
lock_row lock_id now r = record r {
  status = JobStatus.active;
  lock = some lock_id;
  locked_at = some now;
}

abbrev pub take_row : ℕ → ℕ → Option JobRow → Db → Result AppError (Option QueueScrapeRow) × Db
take_row lock_id now none db = (ok none, db)
take_row lock_id now (some r) db = (
  ok (some (map_queue_row (lock_row lock_id now r))),
  record db { jobs = update_where (has_key r.id r.created_at) (lock_row lock_id now) db.jobs },
)

unfoldable pub claim_next_job :
    Call → (ℕ → ℕ → Bool) → ℕ → Db → Result AppError (Option QueueScrapeRow) × Db
unfolding run next_row before map_queue_row update_where
claim_next_job c held lock_id =
    run c (λ db. take_row lock_id c.now (next_row (claimable held) db.jobs) db)

abbrev pub complete_row : Json → ℕ → JobRow → JobRow
complete_row value now r = record r {
  status = JobStatus.completed;
  returnvalue = some value;
  finished_at = some now;
  lock = none;
  locked_at = none;
}

unfoldable pub complete_job : Call → ℕ → ℕ → Json → Db → Result AppError Unit × Db
unfolding run update_where
complete_job c id created_at value = run c (λ db.
    let jobs = update_where (has_key id created_at) (complete_row value c.now) db.jobs in
    if tally (has_key id created_at) db.jobs == 0
    then (err (AppError.not_found (c.uuid_text id)), record db { jobs = jobs })
    else (ok tt, record db { jobs = jobs }))

abbrev pub fail_row : String → ℕ → JobRow → JobRow
fail_row reason now r = record r {
  status = JobStatus.failed;
  failedreason = some reason;
  finished_at = some now;
  lock = none;
  locked_at = none;
}

unfoldable pub fail_job : Call → ℕ → ℕ → String → Db → Result AppError Unit × Db
unfolding run update_where
fail_job c id created_at reason = run c (λ db. (
  ok tt,
  record db { jobs = update_where (has_key id created_at) (fail_row reason c.now) db.jobs },
))

abbrev pub cancel_row : ℕ → JobRow → JobRow
cancel_row now r = record r {
  status = JobStatus.cancelled;
  finished_at = some now;
  lock = none;
  locked_at = none;
}

-- `ORDER BY created_at DESC LIMIT 1` over the rows with the id: the `created_at` of the latest.
unfoldable pub latest_of : ℕ → List JobRow → Option ℕ
latest_of id [] = none
latest_of id (r ∷ rs) =
    let rest = latest_of id rs in
    if r.id == id
    then elim rest [
      | none ↦ some r.created_at
      | some t ↦ if ltb r.created_at t then some t else some r.created_at
    ]
    else rest

abbrev pub cancel_target : ℕ → Option ℕ → JobRow → Bool
cancel_target id none r = false
cancel_target id (some created_at) r = has_key id created_at r && is_pending r.status

unfoldable pub cancel_job : Call → ℕ → Db → Result AppError Unit × Db
unfolding run update_where latest_of
cancel_job c id = run c (λ db.
    let target = cancel_target id (latest_of id db.jobs) in
    let jobs = update_where target (cancel_row c.now) db.jobs in
    if tally target db.jobs == 0
    then (err (AppError.not_found (c.uuid_text id)), record db { jobs = jobs })
    else (ok tt, record db { jobs = jobs }))
