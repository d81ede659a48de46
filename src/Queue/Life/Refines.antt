-- ===== src/Queue/Life/Refines.antt =====
-- Every statement of src/database.rs refines the life of a job.
use fire_ctrl.Prelude.{
  ℕ, ◌≡◌, refl, Bool, true, false, Option, none, some, List, [], ◌∷◌, arith, All, Bool-cases, inl,
  inr, Result, any, tally, ◌==◌, if◌then◌else◌, ◌&&◌, not,
}
use fire_ctrl.Prelude.Int.{ℤ}
use fire_ctrl.Models.{AppError, Json, JobStatus}
use fire_ctrl.Queue.Table.{
  JobRow, Db, Call, has_key, is_queued, is_pending, is_active, update_where,
}
use fire_ctrl.Queue.Jobs.{
  insert_row, new_row, completed_row, enqueue, enqueue_completed, claimable, next_row, lock_row,
  take_row, claim_next_job, complete_row, complete_job, fail_row, fail_job, cancel_row,
  cancel_target, latest_of, cancel_job,
}
use fire_ctrl.Queue.Stalls.{
  is_stalled, requeue_row, requeue_stalled_jobs, is_over_stalled, give_up_row,
  fail_over_stalled_jobs,
}
use fire_ctrl.Queue.Groups.{
  create_crawl_group, set_group_status, cancellable, cancel_group, move_row, update_job_group,
}
use fire_ctrl.Queue.Updates.{All-trivial}
use fire_ctrl.Queue.Keys.{All-has_key}
use fire_ctrl.Queue.Claim.{next_row-some}
use fire_ctrl.Queue.Trace.{Statement, exec, exec_all, run-keeps}
use fire_ctrl.Queue.Consistent.{IsConsistent, exec-IsConsistent}
use fire_ctrl.Queue.Life.{
  Moves, Life, Continues, IsBorn, Evolves, Continues-refl, Evolves-append, Evolves-refl,
  Evolves-trans,
}

-- An UPDATE whose changed rows continue, each with what is known of it.
update-Evolves :
    (Q : JobRow → Type 0) (p : JobRow → Bool) (f : JobRow → JobRow) (rs : List JobRow)
    → ((r : JobRow) → Q r → p r ≡ true → Continues r (f r))
    → All Q rs
    → Evolves rs (update_where p f rs)
unfolding update_where
update-Evolves Q p f [] step h = Evolves.grows tt
update-Evolves Q p f (r ∷ rs) step h = elim (Bool-cases (p r)) [
  | inl e ↦ rw e (Evolves.continues (step r h.0 e) (update-Evolves Q p f rs step h.1))
  | inr e ↦ rw e (Evolves.continues (Continues-refl r) (update-Evolves Q p f rs step h.1))
]

-- The same when the test says all that is needed.
tested-Evolves :
    (p : JobRow → Bool) (f : JobRow → JobRow) (rs : List JobRow)
    → ((r : JobRow) → p r ≡ true → Continues r (f r))
    → Evolves rs (update_where p f rs)
tested-Evolves p f rs step =
    update-Evolves (λ r. Unit {0}) p f rs (λ r _ e. step r e) (All-trivial rs)

-- One move of a row whose other columns of the life stay.
moved :
    {r s : JobRow}
    → Moves r.status s.status
    → s.id ≡ r.id
    → s.created_at ≡ r.created_at
    → s.payload ≡ r.payload
    → s.priority ≡ r.priority
    → s.owner_id ≡ r.owner_id
    → s.listen_channel_id ≡ r.listen_channel_id
    → Continues r s
moved m i c p q o l = record {
  id = i;
  created_at = c;
  payload = p;
  priority = q;
  owner_id = o;
  channel = l;
  life = Life.later m Life.stays;
}

Moves-claimed : (s : JobStatus) → is_queued s ≡ true → Moves s JobStatus.active
Moves-claimed JobStatus.queued h = Moves.claimed
Moves-claimed JobStatus.active h = cc
Moves-claimed JobStatus.scraping h = cc
Moves-claimed JobStatus.completed h = cc
Moves-claimed JobStatus.failed h = cc
Moves-claimed JobStatus.cancelled h = cc

Moves-requeued : (s : JobStatus) → is_active s ≡ true → Moves s JobStatus.queued
Moves-requeued JobStatus.queued h = cc
Moves-requeued JobStatus.active h = Moves.requeued
Moves-requeued JobStatus.scraping h = cc
Moves-requeued JobStatus.completed h = cc
Moves-requeued JobStatus.failed h = cc
Moves-requeued JobStatus.cancelled h = cc

Moves-cancelled : (s : JobStatus) → is_pending s ≡ true → Moves s JobStatus.cancelled
Moves-cancelled JobStatus.queued h = Moves.cancelled_queued
Moves-cancelled JobStatus.active h = Moves.cancelled_active
Moves-cancelled JobStatus.scraping h = cc
Moves-cancelled JobStatus.completed h = cc
Moves-cancelled JobStatus.failed h = cc
Moves-cancelled JobStatus.cancelled h = cc

and_left : (a b : Bool) → a && b ≡ true → a ≡ true
and_left a b h = ground arith

cancellable-is_pending : (g : ℕ) (r : JobRow) → cancellable g r ≡ true → is_pending r.status ≡ true
cancellable-is_pending g r h = ground arith

cancel_target-is_pending :
    (id : ℕ) (o : Option ℕ) (r : JobRow) → cancel_target id o r ≡ true → is_pending r.status ≡ true
cancel_target-is_pending id none r h = cc
cancel_target-is_pending id (some t) r h = ground arith

insert-Evolves : (r : JobRow) (db : Db) → IsBorn r → Evolves db.jobs (insert_row r db).1.jobs
unfolding insert_row
insert-Evolves r db b = elim (Bool-cases (any (has_key r.id r.created_at) db.jobs)) [
  | inl e ↦ rw e (Evolves-refl db.jobs)
  | inr e ↦ rw e (Evolves-append db.jobs (r ∷ []) (b, tt))
]

take_row-Evolves :
    (held : ℕ → ℕ → Bool) (lock_id now : ℕ) (o : Option JobRow) (db : Db)
    → next_row (claimable held) db.jobs ≡ o
    → IsConsistent db
    → Evolves db.jobs (take_row lock_id now o db).1.jobs
take_row-Evolves held lock_id now none db e h = Evolves-refl db.jobs
take_row-Evolves held lock_id now (some m) db e h =
    let first = next_row-some (claimable held) db.jobs m e in
    update-Evolves (λ r. has_key m.id m.created_at r ≡ true → is_queued r.status ≡ true)
      (has_key m.id m.created_at) (lock_row lock_id now) db.jobs
      (λ r q e. moved (Moves-claimed r.status (q e)) refl refl refl refl refl refl)
      (All-has_key (λ r. is_queued r.status ≡ true) db.jobs h.distinct first.at
        (and_left (is_queued m.status) (not (held m.id m.created_at)) first.passes))

claim-Evolves :
    (c : Call) (held : ℕ → ℕ → Bool) (lock_id : ℕ) (db : Db)
    → IsConsistent db
    → Evolves db.jobs (claim_next_job c held lock_id db).1.jobs
unfolding claim_next_job
claim-Evolves c held lock_id db h =
    run-keeps (λ d. Evolves db.jobs d.jobs) c.fault _ db (Evolves-refl db.jobs)
      (take_row-Evolves held lock_id c.now (next_row (claimable held) db.jobs) db refl h)

same_jobs :
    (b : Bool) (x y : Result AppError Unit) (rs : List JobRow) (db : Db)
    → Evolves rs db.jobs
    → Evolves rs (if◌then◌else◌ {A = Result AppError Unit × Db} b (x, db) (y, db)).1.jobs
same_jobs true x y rs db h = h
same_jobs false x y rs db h = h

complete-Evolves :
    (c : Call) (id at : ℕ) (v : Json) (db : Db) → Evolves db.jobs (complete_job c id at v db).1.jobs
unfolding complete_job
complete-Evolves c id at v db =
    run-keeps (λ d. Evolves db.jobs d.jobs) c.fault _ db (Evolves-refl db.jobs)
      (same_jobs (tally (has_key id at) db.jobs == 0) _ _ _ _ (
        tested-Evolves (has_key id at) (complete_row v c.now) db.jobs
          (λ r e. moved Moves.completed refl refl refl refl refl refl)))

cancel-Evolves : (c : Call) (id : ℕ) (db : Db) → Evolves db.jobs (cancel_job c id db).1.jobs
unfolding cancel_job
cancel-Evolves c id db =
    run-keeps (λ d. Evolves db.jobs d.jobs) c.fault _ db (Evolves-refl db.jobs)
      (same_jobs (tally (cancel_target id (latest_of id db.jobs)) db.jobs == 0) _ _ _ _ (
        tested-Evolves (cancel_target id (latest_of id db.jobs)) (cancel_row c.now) db.jobs (λ r e.
          moved (Moves-cancelled r.status (cancel_target-is_pending id (latest_of id db.jobs) r e))
            refl refl refl refl refl refl)))

cancel_group-Evolves :
    (c c' : Call) (g : ℕ) (db : Db) → Evolves db.jobs (cancel_group c c' g db).1.jobs
unfolding cancel_group
cancel_group-Evolves c c' g db =
    let k = tested-Evolves (cancellable g) (cancel_row c.now) db.jobs (λ r e.
      moved (Moves-cancelled r.status (cancellable-is_pending g r e)) refl refl refl refl refl
        refl) in
    run-keeps (λ d. Evolves db.jobs d.jobs) c.fault _ db (Evolves-refl db.jobs)
      (run-keeps (λ d. Evolves db.jobs d.jobs) c'.fault _
        (record db { jobs = update_where (cancellable g) (cancel_row c.now) db.jobs }) k k)

create_group-Evolves :
    (c : Call) (owner : ℕ) (ttl : ℤ) (db : Db)
    → Evolves db.jobs (create_crawl_group c owner ttl db).1.jobs
unfolding create_crawl_group
create_group-Evolves c owner ttl db =
    run-keeps (λ d. Evolves db.jobs d.jobs) c.fault _ db (Evolves-refl db.jobs)
      (elim (Bool-cases (any (λ g. g.id == c.fresh) db.groups)) [
        | inl e ↦ rw e (Evolves-refl db.jobs)
        | inr e ↦ rw e (Evolves-refl db.jobs)
      ])

pub exec-Evolves : (s : Statement) (db : Db) → IsConsistent db → Evolves db.jobs (exec s db).jobs
unfolding exec enqueue enqueue_completed fail_job set_group_status update_job_group
    requeue_stalled_jobs fail_over_stalled_jobs
exec-Evolves (Statement.enqueues c p pr o g l) db h =
    run-keeps (λ d. Evolves db.jobs d.jobs) c.fault _ db (Evolves-refl db.jobs)
      (insert-Evolves (new_row c (some p) pr o g l) db (IsBorn.born_queued Life.stays))
exec-Evolves (Statement.enqueues_completed c p v pr o g l) db h =
    run-keeps (λ d. Evolves db.jobs d.jobs) c.fault _ db (Evolves-refl db.jobs)
      (insert-Evolves (completed_row c p v pr o g l) db (IsBorn.born_completed Life.stays))
exec-Evolves (Statement.claims c held lock_id) db h = claim-Evolves c held lock_id db h
exec-Evolves (Statement.completes c id at v) db h = complete-Evolves c id at v db
exec-Evolves (Statement.fails c id at reason) db h =
    run-keeps (λ d. Evolves db.jobs d.jobs) c.fault _ db (Evolves-refl db.jobs)
      (tested-Evolves (has_key id at) (fail_row reason c.now) db.jobs
        (λ r e. moved Moves.failed refl refl refl refl refl refl))
exec-Evolves (Statement.cancels c id) db h = cancel-Evolves c id db
exec-Evolves (Statement.requeues_stalled c t) db h =
    run-keeps (λ d. Evolves db.jobs d.jobs) c.fault _ db (Evolves-refl db.jobs)
      (tested-Evolves (is_stalled c.now t) requeue_row db.jobs (λ r e.
        moved (Moves-requeued r.status (and_left (is_active r.status) _ e)) refl refl refl refl refl
          refl))
exec-Evolves (Statement.fails_over_stalled c m) db h =
    run-keeps (λ d. Evolves db.jobs d.jobs) c.fault _ db (Evolves-refl db.jobs)
      (tested-Evolves (is_over_stalled m) (give_up_row c.now) db.jobs
        (λ r e. moved Moves.failed refl refl refl refl refl refl))
exec-Evolves (Statement.creates_group c o t) db h = create_group-Evolves c o t db
exec-Evolves (Statement.sets_group_status c id s) db h =
    run-keeps (λ d. Evolves db.jobs d.jobs) c.fault _ db (Evolves-refl db.jobs)
      (Evolves-refl db.jobs)
exec-Evolves (Statement.cancels_group c c' g) db h = cancel_group-Evolves c c' g db
exec-Evolves (Statement.updates_job_group c id at g) db h =
    run-keeps (λ d. Evolves db.jobs d.jobs) c.fault _ db (Evolves-refl db.jobs)
      (tested-Evolves (has_key id at) (move_row g) db.jobs (λ r e. record {
        id = refl;
        created_at = refl;
        payload = refl;
        priority = refl;
        owner_id = refl;
        channel = refl;
        life = Life.stays;
      }))

-- From a consistent database, whatever statements run, in any order, with any arguments and any
-- refusals: every row is still there, in its place, with its key, its time of creation, payload,
-- priority, owner and channel, and its status has gone only along the life of a job; and every
-- further row was inserted as queued or completed and has kept to that life too.
pub exec_all-Evolves :
    (ss : List Statement) (db : Db) → IsConsistent db → Evolves db.jobs (exec_all ss db).jobs
unfolding exec_all
exec_all-Evolves [] db h = Evolves-refl db.jobs
exec_all-Evolves (s ∷ ss) db h =
    Evolves-trans (exec-Evolves s db h) (exec_all-Evolves ss (exec s db) (exec-IsConsistent s db h))
