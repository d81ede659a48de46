-- ===== src/Worker/Recovery.antt =====
-- `stall_recovery_loop` of src/worker.rs. A pass is one round of its loop: the calls are what the
-- server answers to its two statements.
use fire_ctrl.Prelude.{
  ℕ, ◌+◌, ◌-◌, ◌*◌, ◌%◌, ◌^◌, ◌≤◌, min, ◌≡◌, some, List, [], ◌∷◌, arith, Result, ok, err, ltb,
  if◌then◌else◌,
}
use fire_ctrl.Prelude.Int.{ℤ, pos, negsuc}
use fire_ctrl.Models.{AppError}
use fire_ctrl.Queue.{
  JobRow, Db, Call, run, is_stalled, requeue_row, requeue_stalled_jobs, is_over_stalled,
  give_up_row, fail_over_stalled_jobs,
}

-- `as i32` of a `u32`.
abbrev pub as_i32 : ℕ → ℤ
as_i32 n = if ltb n 2147483648 then pos n else negsuc (4294967295 - n)

-- `Duration::from_secs(cfg.job_timeout_seconds + 30)`, in microseconds: the sum is of 64 bits, and
-- wraps around in a release build. The statement is given its seconds as a double, which holds them
-- exactly up to 2 ^ 53.
abbrev pub stale_after : ℕ → ℕ
stale_after job_timeout_seconds = (job_timeout_seconds + 30) % 2 ^ 64 * 1000000

abbrev next_backoff : Result AppError ℕ → ℕ → ℕ
next_backoff (ok n) backoff = 2
next_backoff (err e) backoff = min (backoff * 2) 120

abbrev fail_over_after : Result AppError ℕ → Call → ℕ → Db → Db
fail_over_after (ok n) c max_stalls db = (fail_over_stalled_jobs c (as_i32 max_stalls) db).1
fail_over_after (err e) c max_stalls db = db

-- The backoff in seconds and the database after a pass; a failed requeue skips the fail-over.
pub pass : ℕ → ℕ → Call × Call → ℕ × Db → ℕ × Db
pass job_timeout_seconds max_stalls (c, c') (backoff, db) =
    let (n, db') = requeue_stalled_jobs c (stale_after job_timeout_seconds) db in
    (next_backoff n backoff, fail_over_after n c' max_stalls db')

-- The first passes of the loop, from the backoff that it starts with.
pub passes : ℕ → ℕ → List (Call × Call) → ℕ × Db → ℕ × Db
unfolding pass
passes t m [] s = s
passes t m (cs ∷ rest) s = passes t m rest (pass t m cs s)

-- What a pass does to one row: `now` and `now'` are the times of the two statements.
pub recovered : ℕ → ℕ → ℕ → ℤ → JobRow → JobRow
recovered now now' stale max_stalls r =
    let s = if is_stalled now stale r then requeue_row r else r in
    if is_over_stalled max_stalls s then give_up_row now' s else s

module _ (t m : ℕ) (c c' : Call) (backoff : ℕ) (db : Db) where
  -- A pass whose requeue the server refuses changes no row, and doubles the backoff up to two minutes.
  pass-refused :
      (e : AppError)
      → c.fault ≡ some e
      → pass t m (c, c') (backoff, db) ≡ (min (backoff * 2) 120, db)
  unfolding pass requeue_stalled_jobs
  pass-refused e down = simp (down, run)

pass-backoff :
    (t m : ℕ) (cs : Call × Call) (backoff : ℕ) (db : Db)
    → (2 ≤ backoff) × (backoff ≤ 120)
    → (2 ≤ (pass t m cs (backoff, db)).0) × ((pass t m cs (backoff, db)).0 ≤ 120)
unfolding pass
pass-backoff t m (c, c') backoff db h = split (requeue_stalled_jobs c (stale_after t) db).0
  where
    split : (r : Result AppError ℕ) → (2 ≤ next_backoff r backoff) × (next_backoff r backoff ≤ 120)
    split (ok n) = omega arith
    split (err e) = omega arith

-- From a backoff between two seconds and two minutes, such as the initial two seconds, after any
-- passes with any answers of the server, the backoff lies between two seconds and two minutes.
passes-backoff :
    (t m : ℕ) (css : List (Call × Call)) (backoff : ℕ) (db : Db)
    → (2 ≤ backoff) × (backoff ≤ 120)
    → (2 ≤ (passes t m css (backoff, db)).0) × ((passes t m css (backoff, db)).0 ≤ 120)
unfolding passes
passes-backoff t m [] backoff db h = h
passes-backoff t m (cs ∷ css) backoff db h =
    passes-backoff t m css (pass t m cs (backoff, db)).0 (pass t m cs (backoff, db)).1
      (pass-backoff t m cs backoff db h)
