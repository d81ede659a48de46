-- ===== src/Worker/Turn.antt =====
-- One round of `Worker::run` of src/worker.rs, and what becomes of the job that it claims.
pub mod Settles
pub mod Panics
pub mod Ends
pub mod Pieces
pub mod Keeps
pub mod Drains
use fire_ctrl.Prelude.{ℕ, String, Bool, Option, none, some, Result, ok, err, if◌then◌else◌}
use fire_ctrl.Prelude.Action.{continue}
use fire_ctrl.Models.{AppError, Json, JobEnvelope, QueueScrapeRow}
use fire_ctrl.Queue.{Db, Call, claim_next_job, fail_job}
use fire_ctrl.Worker.Job.{World, Failure, Stop, Outside, reason}
use fire_ctrl.Worker.Kinds.{execute}

-- The answer of `fail_job` is not used.
unfoldable pub fail_with : Call → QueueScrapeRow → String → World → World
unfolding fail_job
fail_with c row text w = record w { db = (fail_job c row.id row.created_at text w.db).1 }

-- Whether the worker's loop goes on after a round, or its task has died of a panic.
pub data Ending : Type 0 where
  goes_on dies : Ending

-- A panic unwinds past `fail_job`.
unfoldable pub after_run : Call → QueueScrapeRow → Result Stop Unit × World → Ending × World
unfolding fail_with
after_run c row (ok x, w) = (goes_on, w)
after_run c row (err (Stop.by f), w) = (goes_on, fail_with c row (reason f) w)
after_run c row (err Stop.panicked, w) = (dies, w)

-- `serde_json::from_value(data).ok()` of a column that may be NULL.
abbrev pub envelope_of : (Json → Option JobEnvelope) → Option Json → Option JobEnvelope
envelope_of decode none = none
envelope_of decode (some v) = decode v

unfoldable pub run_envelope :
    Outside → Call → QueueScrapeRow → Option JobEnvelope → World → Ending × World
unfolding fail_with execute after_run
run_envelope o c row none w = (goes_on, fail_with c row "invalid job envelope" w)
run_envelope o c row (some e) w = after_run c row (execute o row.id row.created_at e w)

unfoldable pub after_claim :
    (Json → Option JobEnvelope)
    → Outside
    → Call
    → Result AppError (Option QueueScrapeRow)
    → World
    → Ending × World
unfolding run_envelope
after_claim decode o c (ok none) w = (goes_on, w)
after_claim decode o c (ok (some row)) w = run_envelope o c row (envelope_of decode row.payload) w
after_claim decode o c (err e) w = (goes_on, w)

-- `claim` and `fail` are the calls of the two statements of the loop itself.
unfoldable pub run_once :
    (Json → Option JobEnvelope)
    → Outside
    → Call
    → (ℕ → ℕ → Bool)
    → ℕ
    → Call
    → World
    → Ending × World
unfolding claim_next_job after_claim
run_once decode o claim held lock_id fail w =
    let (found, db) = claim_next_job claim held lock_id w.db in
    after_claim decode o fail found (record w { db = db })
