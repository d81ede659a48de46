-- ===== src/Queue/Waiting.antt =====
-- How many jobs of the queue in src/database.rs wait to be claimed, and what the statements do to them.
use mathlib.Core.List.{Memᴰ}
use mathlib.Core.Path.{subst}
use fire_ctrl.Prelude.{
  ℕ, suc, ◌+◌, ◌-◌, ◌≤◌, ◌<◌, ◌≡◌, refl, Bool, true, false, ◌==◌, Option, none, List, [], ◌∷◌, ◌++◌,
  All, Result, tally, any, arith, Bool-cases, inl, inr, if◌then◌else◌,
}
use fire_ctrl.Models.{AppError, Json, QueueScrapeRow}
use fire_ctrl.Prelude.Int.{ℤ}
use fire_ctrl.Queue.Table.{JobRow, Db, Call, is_queued, has_key, update_where}
use fire_ctrl.Queue.Jobs.{
  claimable, lock_row, complete_row, fail_row, completed_row, insert_row, claim_next_job,
  complete_job, fail_job, enqueue_completed,
}
use fire_ctrl.Queue.Groups.{move_row, update_job_group, create_crawl_group, set_group_status}
use fire_ctrl.Queue.Trace.{Statement, exec, run-keeps, IsOfJob}
use fire_ctrl.Queue.Claim.{Claims, claim_next_job-Claims}

abbrev pub waits : JobRow → Bool
waits r = is_queued r.status

abbrev pub count_waiting : Db → ℕ
count_waiting db = tally waits db.jobs

abbrev pub AtMost : ℕ → Db → Type 0
AtMost n db = count_waiting db ≤ n

waits-append : (xs ys : List JobRow) → tally waits (xs ++ ys) ≡ tally waits xs + tally waits ys
waits-append [] ys = omega arith
waits-append (x ∷ xs) ys = ground (arith, waits-append xs ys)

counted :
    (a b : Bool) (m n : ℕ)
    → (a ≡ true → b ≡ true)
    → m ≤ n
    → (if a then suc m else m) ≤ (if b then suc n else n)
counted a b m n h k = ground arith

-- An UPDATE after which no row waits that did not wait before.
waits-update_where :
    (p : JobRow → Bool) (f : JobRow → JobRow) (rs : List JobRow)
    → ((r : JobRow) → waits (f r) ≡ true → waits r ≡ true)
    → tally waits (update_where p f rs) ≤ tally waits rs
unfolding update_where
waits-update_where p f [] k = omega arith
waits-update_where p f (r ∷ rs) k = elim (Bool-cases (p r)) [
  | inl e ↦ rw e (counted (waits (f r)) (waits r) _ _ (k r) (waits-update_where p f rs k))
  | inr e ↦ rw e (counted (waits r) (waits r) _ _ (λ h. h) (waits-update_where p f rs k))
]

update-AtMost :
    (n : ℕ) (p : JobRow → Bool) (f : JobRow → JobRow) (db : Db)
    → ((r : JobRow) → waits (f r) ≡ true → waits r ≡ true)
    → AtMost n db
    → AtMost n (record db { jobs = update_where p f db.jobs })
update-AtMost n p f db k h = omega (arith, waits-update_where p f db.jobs k)

-- A claimed row waits no more.
waits-lock_row :
    (id created_at lock_id now : ℕ) (rs : List JobRow) {m : JobRow}
    → Memᴰ m rs
    → has_key id created_at m ≡ true
    → waits m ≡ true
    → tally waits (update_where (has_key id created_at) (lock_row lock_id now) rs) < tally waits rs
unfolding update_where
waits-lock_row id created_at lock_id now [] i h q = elim i [ ]
waits-lock_row id created_at lock_id now (r ∷ rs) (Memᴰ.head e) h q =
    rw (subst (λ x. has_key id created_at x ≡ true) e h, subst (λ x. waits x ≡ true) e q)
      (omega (
        arith,
        waits-update_where (has_key id created_at) (lock_row lock_id now) rs (λ r. ground arith),
      ))
waits-lock_row id created_at lock_id now (r ∷ rs) (Memᴰ.tail i) h q =
    ground (arith, waits-lock_row id created_at lock_id now rs i h q)

insert-AtMost :
    (n : ℕ) (r : JobRow) (db : Db) → waits r ≡ false → AtMost n db → AtMost n (insert_row r db).1
unfolding insert_row
insert-AtMost n r db e h = elim (Bool-cases (any (has_key r.id r.created_at) db.jobs)) [
  | inl t ↦ rw t h
  | inr f ↦ rw f (ground (arith, waits-append db.jobs (r ∷ [])))
]

complete-AtMost :
    (n : ℕ) (c : Call) (id created_at : ℕ) (v : Json) (db : Db)
    → AtMost n db
    → AtMost n (complete_job c id created_at v db).1
unfolding complete_job
complete-AtMost n c id created_at v db h = run-keeps (AtMost n) c.fault _ db h (
    same_table n (tally (has_key id created_at) db.jobs == 0) _ _ _
      (update-AtMost n (has_key id created_at) (complete_row v c.now) db (λ r. ground arith) h))
  where
    same_table :
        (n : ℕ) (b : Bool) (x y : Result AppError Unit) (db : Db)
        → AtMost n db
        → AtMost n (if◌then◌else◌ {A = Result AppError Unit × Db} b (x, db) (y, db)).1
    same_table n true x y db h = h
    same_table n false x y db h = h

create_group-AtMost :
    (n : ℕ) (c : Call) (owner : ℕ) (ttl : ℤ) (db : Db)
    → AtMost n db
    → AtMost n (create_crawl_group c owner ttl db).1
unfolding create_crawl_group
create_group-AtMost n c owner ttl db h =
    run-keeps (AtMost n) c.fault _ db h
      (elim (Bool-cases (any (λ g. g.id == c.fresh) db.groups)) [ inl e ↦ rw e h | inr e ↦ rw e h ])

-- What a statement of a job does: no more jobs wait.
pub exec-AtMost :
    (n : ℕ) (s : Statement) → IsOfJob s → (db : Db) → AtMost n db → AtMost n (exec s db)
unfolding exec enqueue_completed fail_job set_group_status update_job_group
exec-AtMost n (Statement.enqueues_completed c p v pr o g l) IsOfJob.enqueues_completed db h =
    run-keeps (AtMost n) c.fault _ db h (insert-AtMost n (completed_row c p v pr o g l) db refl h)
exec-AtMost n (Statement.completes c id at v) IsOfJob.completes db h =
    complete-AtMost n c id at v db h
exec-AtMost n (Statement.fails c id at reason) IsOfJob.fails db h =
    run-keeps (AtMost n) c.fault _ db h
      (update-AtMost n (has_key id at) (fail_row reason c.now) db (λ r. ground arith) h)
exec-AtMost n (Statement.creates_group c o t) IsOfJob.creates_group db h =
    create_group-AtMost n c o t db h
exec-AtMost n (Statement.sets_group_status c id s) IsOfJob.sets_group_status db h =
    run-keeps (AtMost n) c.fault _ db h h
exec-AtMost n (Statement.updates_job_group c id at g) IsOfJob.updates_job_group db h =
    run-keeps (AtMost n) c.fault _ db h
      (update-AtMost n (has_key id at) (move_row g) db (λ r q. q) h)
exec-AtMost n (Statement.enqueues _ _ _ _ _ _) i db h = elim i [ ]
exec-AtMost n (Statement.claims _ _ _) i db h = elim i [ ]
exec-AtMost n (Statement.cancels _ _) i db h = elim i [ ]
exec-AtMost n (Statement.requeues_stalled _ _) i db h = elim i [ ]
exec-AtMost n (Statement.fails_over_stalled _ _) i db h = elim i [ ]
exec-AtMost n (Statement.cancels_group _ _ _) i db h = elim i [ ]

none_waits :
    (rs : List JobRow) → All (λ r. claimable (λ i t. false) r ≡ false) rs → tally waits rs ≡ 0
none_waits [] h = refl
none_waits (r ∷ rs) h = ground (arith, h.0, none_waits rs h.1)

Claims-fewer :
    (lock_id now : ℕ) (db : Db) {x : Result AppError (Option QueueScrapeRow) × Db}
    → Claims (λ i t. false) lock_id now db x
    → count_waiting x.1 ≤ count_waiting db - 1
Claims-fewer lock_id now db (Claims.idle h) = rw (none_waits db.jobs h) (omega arith)
Claims-fewer lock_id now db (Claims.takes m i q h) =
    let fewer = waits-lock_row m.id m.created_at lock_id now db.jobs i (own m) (queued m q) in
    omega (arith, fewer)
  where
    own : (m : JobRow) → has_key m.id m.created_at m ≡ true
    own m = ground arith

    queued : (m : JobRow) → claimable (λ i t. false) m ≡ true → waits m ≡ true
    queued m q = ground arith

-- A claim that the server answers, while no other transaction holds a row, takes a waiting job if one
-- waits.
pub claim_next_job-fewer :
    (c : Call) (lock_id : ℕ) (db : Db)
    → c.fault ≡ none
    → count_waiting (claim_next_job c (λ i t. false) lock_id db).1 ≤ count_waiting db - 1
claim_next_job-fewer c lock_id db up =
    Claims-fewer lock_id c.now db (claim_next_job-Claims c (λ i t. false) lock_id db up)
