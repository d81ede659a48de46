-- ===== src/Worker/Turn/Drains.antt =====
-- The loop of `Worker::run` of src/worker.rs on a queue that nobody else writes to.
use fire_ctrl.Prelude.{ℕ, ◌-◌, ◌≤◌, ◌≡◌, false, Option, none, List, [], ◌∷◌, length, All, arith}
use fire_ctrl.Models.{Json, JobEnvelope}
use fire_ctrl.Queue.{Call, claim_next_job}
use fire_ctrl.Queue.Waiting.{count_waiting, AtMost, exec-AtMost, claim_next_job-fewer}
use fire_ctrl.Worker.Job.{World, Outside}
use fire_ctrl.Worker.Turn.{run_once}
use fire_ctrl.Worker.Turn.Keeps.{after_claim-Keeps}

-- What a round of the loop meets: the calls of its two statements, and the world outside its job.
pub record Round : Type 0 where
  pub claim : Call
  pub fail : Call
  pub outside : Outside
  pub lock_id : ℕ

-- The rounds of the loop, while no other transaction holds a row. After a round in which the worker's
-- task has died the next round is one of its successor, which has another lock.
unfoldable pub rounds : (Json → Option JobEnvelope) → List Round → World → World
unfolding run_once
rounds decode [] w = w
rounds decode (r ∷ rs) w =
    rounds decode rs (run_once decode r.outside r.claim (λ i t. false) r.lock_id r.fail w).1

run_once-fewer :
    (decode : Json → Option JobEnvelope) (r : Round) (w : World)
    → r.claim.fault ≡ none
    → count_waiting (run_once decode r.outside r.claim (λ i t. false) r.lock_id r.fail w).1.db
      ≤ count_waiting w.db - 1
unfolding run_once
run_once-fewer decode r w up =
    after_claim-Keeps (AtMost (count_waiting w.db - 1)) (exec-AtMost (count_waiting w.db - 1))
      decode r.outside r.fail (claim_next_job r.claim (λ i t. false) r.lock_id w.db).0
      (record w { db = (claim_next_job r.claim (λ i t. false) r.lock_id w.db).1 })
      (claim_next_job-fewer r.claim r.lock_id w.db up)

-- After as many rounds as jobs wait, in which the server answers the claims and nobody else writes,
-- no job waits: whatever the jobs are, whichever of their statements are refused, wherever the
-- deadline drops them, and whatever the scrapes, the model and the webhooks answer.
pub rounds-count_waiting :
    (decode : Json → Option JobEnvelope) (rs : List Round) (w : World)
    → All (λ r. r.claim.fault ≡ none) rs
    → count_waiting w.db ≤ length rs
    → count_waiting (rounds decode rs w).db ≡ 0
unfolding rounds
rounds-count_waiting decode [] w ups h = omega arith
rounds-count_waiting decode (r ∷ rs) w ups h =
    rounds-count_waiting decode rs
      (run_once decode r.outside r.claim (λ i t. false) r.lock_id r.fail w).1 ups.1
      (omega (arith, run_once-fewer decode r w ups.0))
