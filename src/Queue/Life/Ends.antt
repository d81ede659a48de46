-- ===== src/Queue/Life/Ends.antt =====
-- A finished job stays finished: the claim never gives it to a worker again.
use mathlib.Core.List.{Memᴰ}
use mathlib.Core.Path.{subst}
use fire_ctrl.Prelude.{
  ℕ, ◌≡◌, refl, Bool, true, some, List, arith, ok, ◌&&◌, not, All-Memᴰ, sym, ◌∙◌,
}
use fire_ctrl.Models.{JobStatus, QueueScrapeRow}
use fire_ctrl.Queue.Table.{JobRow, Db, Call, has_key, is_queued}
use fire_ctrl.Queue.Jobs.{claim_next_job}
use fire_ctrl.Queue.Keys.{All-has_key}
use fire_ctrl.Queue.Claim.{claim_next_job-Claimed}
use fire_ctrl.Queue.Trace.{Statement, exec_all}
use fire_ctrl.Queue.Consistent.{IsConsistent, exec_all-IsConsistent, is_finished}
use fire_ctrl.Queue.Life.{Continues, Evolves, Life-is_finished}
use fire_ctrl.Queue.Life.Refines.{exec_all-Evolves}

-- What a row of the table has become.
record Heir (r : JobRow) (ss : List JobRow) : Type 0 where
  heir : JobRow
  at : Memᴰ heir ss
  continues : Continues r heir

Evolves-Heir : {r : JobRow} {rs ss : List JobRow} → Evolves rs ss → Memᴰ r rs → Heir r ss
Evolves-Heir (Evolves.grows n) i = elim i [ ]
Evolves-Heir {r} (Evolves.continues {r = a} {s = b} h e) (Memᴰ.head q) = record {
  heir = b;
  at = Memᴰ.head refl;
  continues = subst (λ x. Continues x b) (sym q) h;
}
Evolves-Heir (Evolves.continues h e) (Memᴰ.tail i) =
    let k = Evolves-Heir e i in
    record { heir = k.heir; at = Memᴰ.tail k.at; continues = k.continues }

-- A job that is completed, failed or cancelled in a consistent database is never claimed again,
-- whatever statements have run since.
pub finished-ne-claimed :
    (ss : List Statement) (c : Call) (held : ℕ → ℕ → Bool) (lock_id : ℕ) (db : Db) (r : JobRow)
    (row : QueueScrapeRow)
    → IsConsistent db
    → Memᴰ r db.jobs
    → is_finished r.status ≡ true
    → (claim_next_job c held lock_id (exec_all ss db)).0 ≡ ok (some row)
    → ¬ ((row.id ≡ r.id) × (row.created_at ≡ r.created_at))
finished-ne-claimed ss c held lock_id db r row h i f q same =
    let k = Evolves-Heir (exec_all-Evolves ss db h) i in
    let a = claim_next_job-Claimed c held lock_id (exec_all ss db) row q in
    let d = exec_all-IsConsistent ss db h in
    let ends =
      All-Memᴰ (λ t. has_key k.heir.id k.heir.created_at t ≡ true → is_finished t.status ≡ true)
        (exec_all ss db).jobs
        (All-has_key (λ t. is_finished t.status ≡ true) (exec_all ss db).jobs d.distinct k.at
          (Life-is_finished k.continues.life f))
        a.first.at in
    not_both a.picked.status (held a.picked.id a.picked.created_at) a.first.passes (
      ends (
        same_key k.heir a.picked (k.continues.id ∙ sym same.0 ∙ a.row_id)
          (k.continues.created_at ∙ sym same.1 ∙ a.row_created_at)))
  where
    not_both : (s : JobStatus) (b : Bool) → is_queued s && not b ≡ true → is_finished s ≡ true → ⊥
    not_both s b q e = ground arith

    same_key :
        (m n : JobRow)
        → m.id ≡ n.id
        → m.created_at ≡ n.created_at
        → has_key m.id m.created_at n ≡ true
    same_key m n i c = ground arith
