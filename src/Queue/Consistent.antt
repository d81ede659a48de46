-- ===== src/Queue/Consistent.antt =====
-- What every row of the queue satisfies between two statements: exactly the active rows are locked,
-- and exactly the finished rows have a time of finishing.
use fire_ctrl.Prelude.{
  ℕ, ◌≡◌, Bool, true, false, Option, none, some, List, [], ◌∷◌, arith, All, All-append, Bool-cases,
  inl, inr, Result, any, is_some, refl, not, ◌&&◌, tally, ◌==◌, if◌then◌else◌,
}
use fire_ctrl.Models.{AppError, Json, JobStatus}
use fire_ctrl.Queue.Table.{JobRow, Db, Call, is_active, is_queued, has_key, update_where}
use fire_ctrl.Queue.Jobs.{
  insert_row, new_row, completed_row, enqueue, enqueue_completed, claimable, next_row, lock_row,
  take_row, claim_next_job, complete_row, complete_job, fail_row, fail_job, cancel_row,
  cancel_target, latest_of, cancel_job,
}
use fire_ctrl.Queue.Stalls.{
  is_stalled, requeue_row, requeue_stalled_jobs, is_over_stalled, give_up_row,
  fail_over_stalled_jobs,
}
use fire_ctrl.Queue.Groups.{
  create_crawl_group, set_group_status, cancellable, cancel_group, move_row, update_job_group,
}
use fire_ctrl.Queue.Updates.{All-update_where, All-of_both}
use fire_ctrl.Queue.Keys.{
  DistinctKeys, KeepsKey, DistinctKeys-update_where, DistinctKeys-append, any-false, All-has_key,
}
use fire_ctrl.Queue.Claim.{next_row-some}
use fire_ctrl.Prelude.Int.{ℤ}
use fire_ctrl.Queue.Trace.{Statement, exec, exec_all, exec_all-keeps, run-keeps}

abbrev pub is_finished : JobStatus → Bool
is_finished JobStatus.completed = true
is_finished JobStatus.failed = true
is_finished JobStatus.cancelled = true
is_finished _ = false

pub record RowIsConsistent (r : JobRow) : Type 0 where
  pub locked : is_active r.status ≡ is_some r.lock
  pub timed : is_active r.status ≡ is_some r.locked_at
  pub finished : is_finished r.status ≡ is_some r.finished_at

-- The rows are consistent and no two of them share a primary key.
pub record IsConsistent (db : Db) : Type 0 where
  pub distinct : DistinctKeys db.jobs
  pub rows : All RowIsConsistent db.jobs

-- An UPDATE that keeps the keys and leaves the rows that it changes consistent.
update-IsConsistent :
    (p : JobRow → Bool) (f : JobRow → JobRow) (db : Db)
    → KeepsKey f
    → ((r : JobRow) → p r ≡ true → RowIsConsistent r → RowIsConsistent (f r))
    → IsConsistent db
    → IsConsistent (record db { jobs = update_where p f db.jobs })
update-IsConsistent p f db key keeps h = record {
  distinct = DistinctKeys-update_where p f key db.jobs h.distinct;
  rows = All-update_where RowIsConsistent p f db.jobs keeps h.rows;
}

insert_row-IsConsistent :
    (r : JobRow) (db : Db) → RowIsConsistent r → IsConsistent db → IsConsistent (insert_row r db).1
unfolding insert_row
insert_row-IsConsistent r db k h = elim (Bool-cases (any (has_key r.id r.created_at) db.jobs)) [
  | inl e ↦ rw e h
  | inr e ↦ rw e (record {
    distinct =
        DistinctKeys-append db.jobs r h.distinct (any-false (has_key r.id r.created_at) db.jobs e);
    rows = All-append RowIsConsistent db.jobs (r ∷ []) h.rows (k, tt);
  })
]

lock_row-IsConsistent :
    (lock_id now : ℕ) (r : JobRow)
    → is_queued r.status ≡ true
    → RowIsConsistent r
    → RowIsConsistent (lock_row lock_id now r)
lock_row-IsConsistent lock_id now r q k = ground arith

take_row-IsConsistent :
    (held : ℕ → ℕ → Bool) (lock_id now : ℕ) (o : Option JobRow) (db : Db)
    → next_row (claimable held) db.jobs ≡ o
    → IsConsistent db
    → IsConsistent (take_row lock_id now o db).1
take_row-IsConsistent held lock_id now none db e h = h
take_row-IsConsistent held lock_id now (some m) db e h =
    let first = next_row-some (claimable held) db.jobs m e in
    record {
      distinct =
          DistinctKeys-update_where (has_key m.id m.created_at) (lock_row lock_id now)
            (λ r. (refl, refl)) db.jobs h.distinct;
      rows =
          All-of_both RowIsConsistent
            (λ r. has_key m.id m.created_at r ≡ true → is_queued r.status ≡ true)
            (has_key m.id m.created_at) (lock_row lock_id now) db.jobs
            (λ r k q e. lock_row-IsConsistent lock_id now r (q e) k) h.rows
            (All-has_key (λ r. is_queued r.status ≡ true) db.jobs h.distinct first.at
              (and_left (held m.id m.created_at) m.status first.passes));
    }
  where
    and_left : (b : Bool) (s : JobStatus) → is_queued s && not b ≡ true → is_queued s ≡ true
    and_left b s q = ground arith

claim-IsConsistent :
    (c : Call) (held : ℕ → ℕ → Bool) (lock_id : ℕ) (db : Db)
    → IsConsistent db
    → IsConsistent (claim_next_job c held lock_id db).1
unfolding claim_next_job
claim-IsConsistent c held lock_id db h =
    run-keeps IsConsistent c.fault _ db h
      (take_row-IsConsistent held lock_id c.now (next_row (claimable held) db.jobs) db refl h)

-- One branch of `if … == 0 then (err, db') else (ok, db')` or the other, the table is the same.
same_table :
    (b : Bool) (x y : Result AppError Unit) (db : Db)
    → IsConsistent db
    → IsConsistent (if◌then◌else◌ {A = Result AppError Unit × Db} b (x, db) (y, db)).1
same_table true x y db h = h
same_table false x y db h = h

complete-IsConsistent :
    (c : Call) (id at : ℕ) (v : Json) (db : Db)
    → IsConsistent db
    → IsConsistent (complete_job c id at v db).1
unfolding complete_job
complete-IsConsistent c id at v db h = run-keeps IsConsistent c.fault _ db h (
    same_table (tally (has_key id at) db.jobs == 0) _ _ _ (
      update-IsConsistent (has_key id at) (complete_row v c.now) db (λ r. (refl, refl))
        (λ r e k. ground arith) h))

cancel-IsConsistent :
    (c : Call) (id : ℕ) (db : Db) → IsConsistent db → IsConsistent (cancel_job c id db).1
unfolding cancel_job
cancel-IsConsistent c id db h = run-keeps IsConsistent c.fault _ db h (
    same_table (tally (cancel_target id (latest_of id db.jobs)) db.jobs == 0) _ _ _ (
      update-IsConsistent (cancel_target id (latest_of id db.jobs)) (cancel_row c.now) db
        (λ r. (refl, refl)) (λ r e k. ground arith) h))

requeue-IsConsistent :
    (c : Call) (stale_after : ℕ) (db : Db)
    → IsConsistent db
    → IsConsistent (requeue_stalled_jobs c stale_after db).1
unfolding requeue_stalled_jobs
requeue-IsConsistent c stale_after db h = run-keeps IsConsistent c.fault _ db h (
    update-IsConsistent (is_stalled c.now stale_after) requeue_row db (λ r. (refl, refl))
      (λ r e k. ground arith) h)

fail_over-IsConsistent :
    (c : Call) (max_stalls : ℤ) (db : Db)
    → IsConsistent db
    → IsConsistent (fail_over_stalled_jobs c max_stalls db).1
unfolding fail_over_stalled_jobs
fail_over-IsConsistent c max_stalls db h = run-keeps IsConsistent c.fault _ db h (
    update-IsConsistent (is_over_stalled max_stalls) (give_up_row c.now) db (λ r. (refl, refl))
      (λ r e k. ground arith) h)

create_group-IsConsistent :
    (c : Call) (owner : ℕ) (ttl : ℤ) (db : Db)
    → IsConsistent db
    → IsConsistent (create_crawl_group c owner ttl db).1
unfolding create_crawl_group
create_group-IsConsistent c owner ttl db h =
    run-keeps IsConsistent c.fault _ db h
      (elim (Bool-cases (any (λ g. g.id == c.fresh) db.groups)) [
        | inl e ↦ rw e h
        | inr e ↦ rw e (record { distinct = h.distinct; rows = h.rows })
      ])

cancel_group-IsConsistent :
    (c c' : Call) (g : ℕ) (db : Db) → IsConsistent db → IsConsistent (cancel_group c c' g db).1
unfolding cancel_group
cancel_group-IsConsistent c c' g db h =
    let k =
      update-IsConsistent (cancellable g) (cancel_row c.now) db (λ r. (refl, refl))
        (λ r e k. ground arith) h in
    run-keeps IsConsistent c.fault _ db h (
      run-keeps IsConsistent c'.fault _
        (record db { jobs = update_where (cancellable g) (cancel_row c.now) db.jobs }) k
        (record { distinct = k.distinct; rows = k.rows }))

pub exec-IsConsistent : (s : Statement) (db : Db) → IsConsistent db → IsConsistent (exec s db)
unfolding exec enqueue enqueue_completed fail_job set_group_status update_job_group
exec-IsConsistent (Statement.enqueues c p pr o g l) db h =
    run-keeps IsConsistent c.fault _ db h
      (insert_row-IsConsistent (new_row c (some p) pr o g l) db (ground arith) h)
exec-IsConsistent (Statement.enqueues_completed c p v pr o g l) db h =
    run-keeps IsConsistent c.fault _ db h
      (insert_row-IsConsistent (completed_row c p v pr o g l) db (ground arith) h)
exec-IsConsistent (Statement.claims c held lock_id) db h = claim-IsConsistent c held lock_id db h
exec-IsConsistent (Statement.completes c id at v) db h = complete-IsConsistent c id at v db h
exec-IsConsistent (Statement.fails c id at reason) db h = run-keeps IsConsistent c.fault _ db h (
    update-IsConsistent (has_key id at) (fail_row reason c.now) db (λ r. (refl, refl))
      (λ r e k. ground arith) h)
exec-IsConsistent (Statement.cancels c id) db h = cancel-IsConsistent c id db h
exec-IsConsistent (Statement.requeues_stalled c t) db h = requeue-IsConsistent c t db h
exec-IsConsistent (Statement.fails_over_stalled c m) db h = fail_over-IsConsistent c m db h
exec-IsConsistent (Statement.creates_group c o t) db h = create_group-IsConsistent c o t db h
exec-IsConsistent (Statement.sets_group_status c id s) db h =
    run-keeps IsConsistent c.fault _ db h (record { distinct = h.distinct; rows = h.rows })
exec-IsConsistent (Statement.cancels_group c c' g) db h = cancel_group-IsConsistent c c' g db h
exec-IsConsistent (Statement.updates_job_group c id at g) db h =
    run-keeps IsConsistent c.fault _ db h (
      update-IsConsistent (has_key id at) (move_row g) db (λ r. (refl, refl))
        (λ r e k. ground arith) h)

-- From a consistent database, whatever statements the API handlers and the workers run, in any
-- order, with any arguments and any refusals of the server: no two rows share a primary key, exactly
-- the active rows have a lock and a time of locking, and exactly the completed, failed and cancelled
-- rows have a time of finishing.
pub exec_all-IsConsistent :
    (ss : List Statement) (db : Db) → IsConsistent db → IsConsistent (exec_all ss db)
exec_all-IsConsistent = exec_all-keeps IsConsistent exec-IsConsistent
