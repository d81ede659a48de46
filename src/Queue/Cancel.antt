-- ===== src/Queue/Cancel.antt =====
-- Cancellation, and what a worker that still runs the job does to it.
use mathlib.Core.List.{Memᴰ}
use fire_ctrl.Prelude.{
  ℕ, ◌≡◌, refl, true, false, Option, none, some, List, arith, All, All-Memᴰ, tally, tally-pos, ◌==◌,
  Result, ok, err, ◌<◌,
}
use fire_ctrl.Models.{AppError, Json, JobStatus, GroupStatus}
use fire_ctrl.Queue.Table.{JobRow, Db, Call, run, is_pending, has_key, update_where}
use fire_ctrl.Queue.Jobs.{complete_row, complete_job, cancel_row}
use fire_ctrl.Queue.Groups.{in_group, cancellable, cancel_group, set_status}
use fire_ctrl.Queue.Updates.{All-of_update, All-trivial}

-- A row of the group that is not pending any more.
abbrev IsSettled : ℕ → JobRow → Type 0
IsSettled g r = in_group g r ≡ true → is_pending r.status ≡ false

settle :
    (g now : ℕ) (rs : List JobRow)
    → All (IsSettled g) (update_where (cancellable g) (cancel_row now) rs)
settle g now rs =
    All-of_update (λ r. Unit {0}) (IsSettled g) (cancellable g) (cancel_row now) rs
      (λ r _ e k. refl) (λ r _ e k. ground arith) (All-trivial rs)

cancel_group-All :
    (c c' : Call) (g : ℕ) (db : Db)
    → c.fault ≡ none
    → All (IsSettled g) (cancel_group c c' g db).1.jobs
unfolding cancel_group
cancel_group-All c c' g db up = simp (up, run) (go c'.fault)
  where
    jobs : List JobRow
    jobs = update_where (cancellable g) (cancel_row c.now) db.jobs

    go :
        (o : Option AppError)
        → All
            (IsSettled g)
            (let r : Result AppError Unit × Db = elim o [
              | none ↦ (
                ok tt,
                record { jobs = jobs; groups = set_status g GroupStatus.cancelled db.groups },
              )
              | some e ↦ (err e, record { jobs = jobs; groups = db.groups })
            ] in
              r).1.jobs
    go none = settle g c.now db.jobs
    go (some e) = settle g c.now db.jobs

-- When the server answers the first statement, no job of the group is queued or active after
-- `cancel_group`, also when the second statement is refused.
pub cancel_group-settles :
    (c c' : Call) (g : ℕ) (db : Db) (r : JobRow)
    → c.fault ≡ none
    → Memᴰ r (cancel_group c c' g db).1.jobs
    → in_group g r ≡ true
    → is_pending r.status ≡ false
cancel_group-settles c c' g db r up i k =
    All-Memᴰ (IsSettled g) (cancel_group c c' g db).1.jobs (cancel_group-All c c' g db up) i k

complete_job-All :
    (c : Call) (v : Json) (db : Db) (m : JobRow)
    → c.fault ≡ none
    → Memᴰ m db.jobs
    → ((complete_job c m.id m.created_at v db).0 ≡ ok tt)
      × All
          (λ r.
            has_key m.id m.created_at r ≡ true
            → (r.status ≡ JobStatus.completed) × (r.finished_at ≡ some c.now))
          (complete_job c m.id m.created_at v db).1.jobs
unfolding complete_job
complete_job-All c v db m up i =
    simp (up, run) (rw (found (tally (has_key m.id m.created_at) db.jobs) counted) (refl, done))
  where
    counted : 0 < tally (has_key m.id m.created_at) db.jobs
    counted = tally-pos (has_key m.id m.created_at) db.jobs i (ground arith)

    found : (n : ℕ) → 0 < n → (n == 0) ≡ false
    found n h = ground arith

    done :
        All
          (λ r.
            has_key m.id m.created_at r ≡ true
            → (r.status ≡ JobStatus.completed) × (r.finished_at ≡ some c.now))
          (update_where (has_key m.id m.created_at) (complete_row v c.now) db.jobs)
    done =
        All-of_update (λ r. Unit {0})
          (λ r.
            has_key m.id m.created_at r ≡ true
            → (r.status ≡ JobStatus.completed) × (r.finished_at ≡ some c.now))
          (has_key m.id m.created_at) (complete_row v c.now) db.jobs (λ r _ e k. (refl, refl))
          (λ r _ e k. cc) (All-trivial db.jobs)

-- Of a job that is in the table, when the server answers, `complete_job` returns no error and leaves
-- every row with its key completed, with a time of finishing, whatever its status was: also a job
-- that was cancelled, failed or queued again while its worker ran.
pub complete_job-overrides :
    (c : Call) (v : Json) (db : Db) (m r : JobRow)
    → c.fault ≡ none
    → Memᴰ m db.jobs
    → Memᴰ r (complete_job c m.id m.created_at v db).1.jobs
    → has_key m.id m.created_at r ≡ true
    → ((complete_job c m.id m.created_at v db).0 ≡ ok tt)
      × (r.status ≡ JobStatus.completed)
      × (r.finished_at ≡ some c.now)
complete_job-overrides c v db m r up i j k =
    let (fine, all) = complete_job-All c v db m up i in
    let (status, finished) =
      All-Memᴰ
        (λ r.
          has_key m.id m.created_at r ≡ true
          → (r.status ≡ JobStatus.completed) × (r.finished_at ≡ some c.now))
        (complete_job c m.id m.created_at v db).1.jobs all j k in
    (fine, status, finished)
