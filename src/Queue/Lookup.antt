-- ===== src/Queue/Lookup.antt =====
-- `get_job` of src/database.rs, with the text of its statement.
use Prim.Native.String.{◌++◌}
use fire_ctrl.Prelude.{
  ℕ, String, Option, none, some, List, first, keep, Bool, Result, ok, err, if◌then◌else◌,
}
use fire_ctrl.Models.{AppError, QueueScrapeRow}
use fire_ctrl.Queue.Table.{JobRow, Db, Call, run, map_queue_row, has_key}
use fire_ctrl.Queue.Jobs.{latest_of}

abbrev pub qs_cols : String
qs_cols = "id, status::text AS status, data, created_at, returnvalue, failedreason, group_id"

-- The literal of the source is continued by `\` at the ends of its lines, which drops the line break
-- and the spaces that the next line begins with; four of its lines have no space before the `\`.
abbrev pub get_job_sql : String
get_job_sql =
    "SELECT " ++ qs_cols ++ " FROM nuq.queue_scrape " ++ "WHERE (id, created_at) = ("
    ++ "SELECT id, created_at FROM nuq.queue_scrape" ++ "WHERE id = $1"
    ++ "ORDER BY created_at DESC" ++ "LIMIT 1" ++ ")"

abbrev pub found_job : AppError → Option JobRow → Result AppError QueueScrapeRow
found_job e none = err e
found_job e (some r) = ok (map_queue_row r)

abbrev pub latest_row : ℕ → Option ℕ → List JobRow → Option JobRow
latest_row id none rows = none
latest_row id (some created_at) rows = first (keep (has_key id created_at) rows)

-- `accepts` is whether the server's parser takes a statement's text; a text that it refuses is an
-- error of the server, and no row is read.
unfoldable pub get_job : (String → Bool) → Call → ℕ → Db → Result AppError QueueScrapeRow × Db
unfolding run latest_of map_queue_row
get_job accepts c id = run c (λ db.
    if accepts get_job_sql
    then (
      found_job (AppError.not_found (c.uuid_text id))
          (latest_row id (latest_of id db.jobs) db.jobs),
      db,
    )
    else (err (AppError.postgres "syntax error"), db))
