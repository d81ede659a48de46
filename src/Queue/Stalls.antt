-- ===== src/Queue/Stalls.antt =====
-- Stall recovery: the two statements of src/database.rs that the recovery loop runs.
use fire_ctrl.Prelude.{
  ℕ, ◌+◌, Bool, true, false, ◌&&◌, Option, none, some, Result, ok, ltb, leb, tally, unwrap_or,
}
use fire_ctrl.Prelude.Int.{ℤ, pos, negsuc}
use fire_ctrl.Models.{AppError, JobStatus}
use fire_ctrl.Queue.Table.{JobRow, Db, Call, run, is_queued, is_active, update_where}

-- `locked_at < now() - make_interval(secs => $1)`, which no NULL passes.
abbrev pub older : ℕ → ℕ → Option ℕ → Bool
older now micros none = false
older now micros (some t) = ltb (t + micros) now

abbrev pub is_stalled : ℕ → ℕ → JobRow → Bool
is_stalled now micros r = is_active r.status && older now micros r.locked_at

abbrev pub requeue_row : JobRow → JobRow
requeue_row r = record r {
  status = JobStatus.queued;
  lock = none;
  locked_at = none;
  stalls = some (unwrap_or 0 r.stalls + 1);
}

-- `stale_after` is in microseconds. The result is the count of the rows.
unfoldable pub requeue_stalled_jobs : Call → ℕ → Db → Result AppError ℕ × Db
unfolding run update_where
requeue_stalled_jobs c stale_after = run c (λ db. (
  ok (tally (is_stalled c.now stale_after) db.jobs),
  record db { jobs = update_where (is_stalled c.now stale_after) requeue_row db.jobs },
))

-- `stalls >= $1` for an `i32`, which no NULL passes.
abbrev pub at_least : ℤ → Option ℕ → Bool
at_least max_stalls none = false
at_least (pos m) (some n) = leb m n
at_least (negsuc m) (some n) = true

abbrev pub is_over_stalled : ℤ → JobRow → Bool
is_over_stalled max_stalls r = is_queued r.status && at_least max_stalls r.stalls

abbrev pub give_up_row : ℕ → JobRow → JobRow
give_up_row now r = record r {
  status = JobStatus.failed;
  failedreason = some "exceeded maximum stall count";
  finished_at = some now;
}

unfoldable pub fail_over_stalled_jobs : Call → ℤ → Db → Result AppError ℕ × Db
unfolding run update_where
fail_over_stalled_jobs c max_stalls = run c (λ db. (
  ok (tally (is_over_stalled max_stalls) db.jobs),
  record db { jobs = update_where (is_over_stalled max_stalls) (give_up_row c.now) db.jobs },
))
