-- ===== src/Queue/Trace.antt =====
-- The statements of `DbClient` that write, as data: the clients of the database (API handlers and
-- workers) are interleaved as a list of statements.
use fire_ctrl.Prelude.{ℕ, String, Bool, Option, none, some, List, [], ◌∷◌, Result}
use fire_ctrl.Prelude.Int.{ℤ}
use fire_ctrl.Models.{AppError, Json, GroupStatus}
use fire_ctrl.Queue.Table.{Db, Call}
use fire_ctrl.Queue.Jobs.{
  enqueue, enqueue_completed, claim_next_job, complete_job, fail_job, cancel_job,
}
use fire_ctrl.Queue.Stalls.{requeue_stalled_jobs, fail_over_stalled_jobs}
use fire_ctrl.Queue.Groups.{create_crawl_group, set_group_status, cancel_group, update_job_group}

pub data Statement : Type 0 where
  enqueues : Call → Json → ℤ → Option ℕ → Option ℕ → Option String → Statement
  enqueues_completed : Call → Json → Json → ℤ → Option ℕ → Option ℕ → Option String → Statement
  claims : Call → (ℕ → ℕ → Bool) → ℕ → Statement
  completes : Call → ℕ → ℕ → Json → Statement
  fails : Call → ℕ → ℕ → String → Statement
  cancels : Call → ℕ → Statement
  requeues_stalled : Call → ℕ → Statement
  fails_over_stalled : Call → ℤ → Statement
  creates_group : Call → ℕ → ℤ → Statement
  sets_group_status : Call → ℕ → GroupStatus → Statement
  cancels_group : Call → Call → ℕ → Statement
  updates_job_group : Call → ℕ → ℕ → ℕ → Statement

-- The writing statements that a job of a worker runs.
pub data IsOfJob : Statement → Type 0 where
  enqueues_completed :
      {c : Call} {p v : Json} {pr : ℤ} {o g : Option ℕ} {l : Option String}
      → IsOfJob (Statement.enqueues_completed c p v pr o g l)
  completes : {c : Call} {id at : ℕ} {v : Json} → IsOfJob (Statement.completes c id at v)
  fails : {c : Call} {id at : ℕ} {reason : String} → IsOfJob (Statement.fails c id at reason)
  creates_group : {c : Call} {owner : ℕ} {ttl : ℤ} → IsOfJob (Statement.creates_group c owner ttl)
  sets_group_status :
      {c : Call} {id : ℕ} {s : GroupStatus} → IsOfJob (Statement.sets_group_status c id s)
  updates_job_group : {c : Call} {id at g : ℕ} → IsOfJob (Statement.updates_job_group c id at g)

-- The database after a statement, whatever the statement returns.
unfoldable pub exec : Statement → Db → Db
exec (enqueues c p pr o g l) db = (enqueue c p pr o g l db).1
exec (enqueues_completed c p v pr o g l) db = (enqueue_completed c p v pr o g l db).1
exec (claims c held lock_id) db = (claim_next_job c held lock_id db).1
exec (completes c id at v) db = (complete_job c id at v db).1
exec (fails c id at reason) db = (fail_job c id at reason db).1
exec (cancels c id) db = (cancel_job c id db).1
exec (requeues_stalled c stale_after) db = (requeue_stalled_jobs c stale_after db).1
exec (fails_over_stalled c max_stalls) db = (fail_over_stalled_jobs c max_stalls db).1
exec (creates_group c owner ttl) db = (create_crawl_group c owner ttl db).1
exec (sets_group_status c id s) db = (set_group_status c id s db).1
exec (cancels_group c c' g) db = (cancel_group c c' g db).1
exec (updates_job_group c id at g) db = (update_job_group c id at g db).1

unfoldable pub exec_all : List Statement → Db → Db
unfolding exec
exec_all [] db = db
exec_all (s ∷ ss) db = exec_all ss (exec s db)

-- A property that every statement keeps holds after every list of statements.
pub exec_all-keeps {ℓ} :
    (P : Db → Type ℓ)
    → ((s : Statement) (db : Db) → P db → P (exec s db))
    → (ss : List Statement) (db : Db) → P db
    → P (exec_all ss db)
unfolding exec_all
exec_all-keeps P step [] db h = h
exec_all-keeps P step (s ∷ ss) db h = exec_all-keeps P step ss (exec s db) (step s db h)

-- A refused call changes nothing.
pub run-keeps {ℓ} :
    {A : Type 0} (P : Db → Type ℓ) (o : Option AppError) (x : Result AppError A × Db) (db : Db)
    → P db
    → P x.1
    → P (let r : Result AppError A × Db = elim o [ none ↦ x | some e ↦ (Result.err e, db) ] in r).1
run-keeps P none x db h k = k
run-keeps P (some e) x db h k = h
