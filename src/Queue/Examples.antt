-- ===== src/Queue/Examples.antt =====
-- The queue on concrete tables.
use mathlib.Core.List.{Memᴰ}
use fire_ctrl.Prelude.{
  ℕ, String, ◌≡◌, refl, Bool, false, none, some, List, [], ◌∷◌, ok, last, take, drop, map,
}
use fire_ctrl.Prelude.Int.{pos, negsuc, int_ltb}
use fire_ctrl.Models.{Json, JobStatus, GroupStatus, GroupCrawlRow}
use fire_ctrl.Queue.Table.{JobRow, Db, Call, map_queue_row, is_pending}
use fire_ctrl.Queue.Jobs.{cancel_job, claim_next_job, complete_job, new_row, lock_row, cancel_row}
use fire_ctrl.Queue.Groups.{cancel_group, get_group_results, group_rows}
use fire_ctrl.Queue.Trace.{Statement, exec_all}
use fire_ctrl.Queue.Claim.{Claims, claim_next_job-Claims, claims_differ}
use fire_ctrl.Queue.Consistent.{IsConsistent, exec_all-IsConsistent}
use fire_ctrl.Queue.Life.{Evolves}
use fire_ctrl.Queue.Life.Refines.{exec_all-Evolves}
use fire_ctrl.Queue.Life.Ends.{finished-ne-claimed}
use fire_ctrl.Queue.Pages.{get_group_results-next_page}
use fire_ctrl.Queue.Cancel.{cancel_group-settles, complete_job-overrides}

abbrev number_text : ℕ → String
number_text n = "a job"

abbrev at : ℕ → ℕ → Call
at now fresh = record { fault = none; now = now; fresh = fresh; uuid_text = number_text }

abbrev nobody : ℕ → ℕ → Bool
nobody id created_at = false

-- Three queued jobs of the group 9, the second with the smallest priority, and a cancelled one.
abbrev first_job : JobRow
first_job = new_row (at 10 1) (some Json.null) (pos 0) none (some 9) none

abbrev urgent_job : JobRow
urgent_job = new_row (at 20 2) (some Json.null) (negsuc 0) none (some 9) none

abbrev third_job : JobRow
third_job = new_row (at 30 3) (some Json.null) (pos 0) none (some 9) none

abbrev cancelled_job : JobRow
cancelled_job = cancel_row 50 (new_row (at 40 4) (some Json.null) (pos 0) none (some 9) none)

abbrev group_nine : GroupCrawlRow
group_nine = record {
  id = 9;
  status = GroupStatus.active;
  created_at = 5;
  owner_id = 0;
  ttl = pos 86400000;
  expires_at = none;
}

abbrev jobs_db : Db
jobs_db = record {
  jobs = first_job ∷ urgent_job ∷ third_job ∷ cancelled_job ∷ [];
  groups = group_nine ∷ [];
}

claim_next_job-Claims_example :
    Claims nobody 77 60 jobs_db (claim_next_job (at 60 0) nobody 77 jobs_db)
claim_next_job-Claims_example = claim_next_job-Claims (at 60 0) nobody 77 jobs_db refl

claims_urgent :
    (claim_next_job (at 60 0) nobody 77 jobs_db).0
    ≡ ok (some (map_queue_row (lock_row 77 60 urgent_job)))
unfolding claim_next_job int_ltb
claims_urgent = refl

claims_first :
    (claim_next_job (at 61 0) nobody 78 (claim_next_job (at 60 0) nobody 77 jobs_db).1).0
    ≡ ok (some (map_queue_row (lock_row 78 61 first_job)))
unfolding claim_next_job int_ltb
claims_first = refl

claims_differ_example : ¬ (
    ((map_queue_row (lock_row 77 60 urgent_job)).id ≡ (map_queue_row (lock_row 78 61 first_job)).id)
    × ((map_queue_row (lock_row 77 60 urgent_job)).created_at
        ≡ (map_queue_row (lock_row 78 61 first_job)).created_at))
claims_differ_example =
    claims_differ (at 60 0) (at 61 0) nobody nobody 77 78 jobs_db
      (map_queue_row (lock_row 77 60 urgent_job)) (map_queue_row (lock_row 78 61 first_job))
      claims_urgent claims_first

jobs_db-IsConsistent : IsConsistent jobs_db
jobs_db-IsConsistent = record {
  distinct = ((refl, (refl, (refl, tt))), ((refl, (refl, tt)), ((refl, tt), (tt, tt))));
  rows = (
    record { locked = refl; timed = refl; finished = refl },
    (
      record { locked = refl; timed = refl; finished = refl },
      (
        record { locked = refl; timed = refl; finished = refl },
        (record { locked = refl; timed = refl; finished = refl }, tt),
      ),
    ),
  );
}

exec_all-IsConsistent_example : IsConsistent (
    exec_all
      (Statement.claims (at 60 0) nobody 77
        ∷ Statement.cancels_group (at 61 0) (at 62 0) 9
        ∷ Statement.completes (at 63 0) 2 20 Json.null
        ∷ [])
      jobs_db)
exec_all-IsConsistent_example =
    exec_all-IsConsistent
      (Statement.claims (at 60 0) nobody 77
        ∷ Statement.cancels_group (at 61 0) (at 62 0) 9
        ∷ Statement.completes (at 63 0) 2 20 Json.null
        ∷ [])
      jobs_db jobs_db-IsConsistent

second_last : last (take 2 (group_rows 9 jobs_db.jobs)) ≡ some urgent_job
unfolding group_rows
second_last = refl

get_group_results-next_page_example :
    get_group_results (at 70 0) 9 (pos 2) (some 2) (some 20) jobs_db
    ≡ (ok (map map_queue_row (take 2 (drop 2 (group_rows 9 jobs_db.jobs)))), jobs_db)
get_group_results-next_page_example =
    get_group_results-next_page (at 70 0) 9 2 2 jobs_db urgent_job refl
      jobs_db-IsConsistent.distinct second_last

third_stays : Memᴰ (cancel_row 60 third_job) (cancel_group (at 60 0) (at 61 0) 9 jobs_db).1.jobs
unfolding cancel_group
third_stays = Memᴰ.tail (Memᴰ.tail (Memᴰ.head refl))

cancel_group-settles_example : is_pending (cancel_row 60 third_job).status ≡ false
cancel_group-settles_example =
    cancel_group-settles (at 60 0) (at 61 0) 9 jobs_db (cancel_row 60 third_job) refl third_stays
      refl

abbrev overridden : JobRow
overridden = record cancelled_job {
  status = JobStatus.completed;
  returnvalue = some Json.null;
  finished_at = some 60;
}

overridden_stays : Memᴰ overridden (complete_job (at 60 0) 4 40 Json.null jobs_db).1.jobs
unfolding complete_job
overridden_stays = Memᴰ.tail (Memᴰ.tail (Memᴰ.tail (Memᴰ.head refl)))

complete_job-overrides_example :
    ((complete_job (at 60 0) 4 40 Json.null jobs_db).0 ≡ ok tt)
    × (overridden.status ≡ JobStatus.completed)
    × (overridden.finished_at ≡ some 60)
complete_job-overrides_example =
    complete_job-overrides (at 60 0) Json.null jobs_db cancelled_job overridden refl
      (Memᴰ.tail (Memᴰ.tail (Memᴰ.tail (Memᴰ.head refl)))) overridden_stays refl

abbrev claim_and_cancel : List Statement
claim_and_cancel =
    Statement.claims (at 60 0) nobody 77
    ∷ Statement.cancels_group (at 61 0) (at 62 0) 9
    ∷ Statement.completes (at 63 0) 2 20 Json.null
    ∷ []

exec_all-Evolves_example : Evolves jobs_db.jobs (exec_all claim_and_cancel jobs_db).jobs
exec_all-Evolves_example = exec_all-Evolves claim_and_cancel jobs_db jobs_db-IsConsistent

claims_urgent_later :
    (claim_next_job (at 61 0) nobody 78 (exec_all (Statement.cancels (at 60 0) 1 ∷ []) jobs_db)).0
    ≡ ok (some (map_queue_row (lock_row 78 61 urgent_job)))
unfolding exec_all claim_next_job int_ltb cancel_job
claims_urgent_later = refl

finished-ne-claimed_example : ¬ (
    ((map_queue_row (lock_row 78 61 urgent_job)).id ≡ cancelled_job.id)
    × ((map_queue_row (lock_row 78 61 urgent_job)).created_at ≡ cancelled_job.created_at))
finished-ne-claimed_example =
    finished-ne-claimed (Statement.cancels (at 60 0) 1 ∷ []) (at 61 0) nobody 78 jobs_db
      cancelled_job (map_queue_row (lock_row 78 61 urgent_job)) jobs_db-IsConsistent
      (Memᴰ.tail (Memᴰ.tail (Memᴰ.tail (Memᴰ.head refl)))) refl claims_urgent_later
