-- ===== src/Worker/Turn/Ends.antt =====
-- How a round of a worker ends for the row that it claimed.
use fire_ctrl.Prelude.{
  ℕ, ◌≡◌, refl, ap, sym, subst, ◌∙◌, Bool, true, Option, none, some, All, Result, ok, err,
}
use fire_ctrl.Models.{Json, JobEnvelope, QueueScrapeRow}
use fire_ctrl.Queue.{Db, Call, is_active, has_key, claim_next_job}
use fire_ctrl.Queue.Claim.{claim_next_job-Claimed, All-lock}
use fire_ctrl.Worker.Job.{World, Stop, Outside}
use fire_ctrl.Worker.Kinds.{execute}
use fire_ctrl.Worker.Turn.{
  Ending, fail_with, after_run, run_envelope, envelope_of, after_claim, run_once,
}
use fire_ctrl.Worker.Turn.Settles.{Settled, fail_job-Settled, execute-Settles}
use fire_ctrl.Worker.Turn.Panics.{HasPanic, execute-PanicsEarly}

-- Every row with the key is active.
abbrev pub StaysActive : ℕ → ℕ → Db → Type 0
StaysActive id created_at db =
    All (λ r. has_key id created_at r ≡ true → is_active r.status ≡ true) db.jobs

-- The two ends of a round that began with the database after its claim.
pub data RoundEnd (o : Outside) (row : QueueScrapeRow) (claimed : Db)
    : Ending × World → Type 0 where
  settles :
      {w : World} → Settled row.id row.created_at w.db → RoundEnd o row claimed (Ending.goes_on, w)
  dies :
      {w : World}
      → HasPanic o
      → w.db ≡ claimed
      → StaysActive row.id row.created_at w.db
      → RoundEnd o row claimed (Ending.dies, w)

claim-StaysActive :
    (c : Call) (held : ℕ → ℕ → Bool) (lock_id : ℕ) (db : Db) (row : QueueScrapeRow)
    → (claim_next_job c held lock_id db).0 ≡ ok (some row)
    → StaysActive row.id row.created_at (claim_next_job c held lock_id db).1
claim-StaysActive c held lock_id db row h =
    let a = claim_next_job-Claimed c held lock_id db row h in
    rw (a.row_id, a.row_created_at, a.written) (All-lock a.picked lock_id c.now db.jobs)

module _ (o : Outside) (c : Call) (row : QueueScrapeRow) (up : c.fault ≡ none) (claimed : Db)
    (active : StaysActive row.id row.created_at claimed) where
  after_run-RoundEnd :
      (x : Result Stop Unit × World)
      → (x.0 ≡ ok tt → Settled row.id row.created_at x.1.db)
      → (x.0 ≡ err Stop.panicked → HasPanic o × (x.1.db ≡ claimed))
      → RoundEnd o row claimed (after_run c row x)
  unfolding fail_with after_run
  after_run-RoundEnd (ok t, w) k l = RoundEnd.settles (k refl)
  after_run-RoundEnd (err (Stop.by f), w) k l =
      RoundEnd.settles (fail_job-Settled c row.id row.created_at _ w.db up)
  after_run-RoundEnd (err Stop.panicked, w) k l =
      let (p, e) = l refl in
      RoundEnd.dies p e (subst (StaysActive row.id row.created_at) (sym e) active)

  run_envelope-RoundEnd :
      (e : Option JobEnvelope) (w : World)
      → w.db ≡ claimed
      → RoundEnd o row claimed (run_envelope o c row e w)
  unfolding fail_with run_envelope
  run_envelope-RoundEnd none w q =
      RoundEnd.settles (fail_job-Settled c row.id row.created_at _ w.db up)
  run_envelope-RoundEnd (some e) w q =
      after_run-RoundEnd (execute o row.id row.created_at e w)
        (execute-Settles o row.id row.created_at e w)
        (λ h. let (p, d) = execute-PanicsEarly o row.id row.created_at e w h in (p, d ∙ q))

-- After a round of a worker that claimed a row, when the server answers the worker's own `fail_job`,
-- one of two things holds, whatever the row holds, whichever statements of the job the server
-- refuses, wherever the deadline drops it, and whatever the scrapes, the model and the webhooks
-- answer. Either the worker goes on, and every row with the claimed key is completed or failed. Or the
-- extraction panics on some request, the worker's task has died, the database is as the claim left
-- it, and every row with the claimed key is still active.
pub run_once-RoundEnd :
    (decode : Json → Option JobEnvelope) (o : Outside) (claim : Call) (held : ℕ → ℕ → Bool)
    (lock_id : ℕ) (fail : Call) (w : World) (row : QueueScrapeRow)
    → (claim_next_job claim held lock_id w.db).0 ≡ ok (some row)
    → fail.fault ≡ none
    → RoundEnd o row
        (claim_next_job claim held lock_id w.db).1
        (run_once decode o claim held lock_id fail w)
unfolding run_once after_claim run_envelope
run_once-RoundEnd decode o claim held lock_id fail w row h up =
    rw
      (ap
        (λ x.
          after_claim decode o fail x
            (record w { db = (claim_next_job claim held lock_id w.db).1 }))
        h)
      (run_envelope-RoundEnd o fail row up (claim_next_job claim held lock_id w.db).1
        (claim-StaysActive claim held lock_id w.db row h) (envelope_of decode row.payload)
        (record w { db = (claim_next_job claim held lock_id w.db).1 }) refl)
