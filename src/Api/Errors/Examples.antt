-- ===== src/Api/Errors/Examples.antt =====
-- The errors of a small crawl.
use fire_ctrl.Prelude.{
  ℕ, ◌*◌, String, ◌≡◌, refl, Bool, true, false, none, some, [], ◌∷◌, length, arith, ok,
}
use fire_ctrl.Prelude.Int.{pos}
use fire_ctrl.Models.{Json, Fields, GroupStatus, GroupCrawlRow, get, as_str}
use fire_ctrl.Queue.{
  JobRow, Db, Call, GroupCounts, new_row, fail_row, get_crawl_group, get_group_counts,
  get_group_results, group_rows,
}
use fire_ctrl.Api.Gate.{AuthConfig, check_auth}
use fire_ctrl.Api.Errors.{CrawlErrors, ErrorCalls, crawl_errors_handler}
use fire_ctrl.Api.Errors.Counts.{crawl_errors_handler-counts}

abbrev spaced : String → Bool
spaced sql = true

abbrev open_gate : AuthConfig
open_gate = record {
  use_db_authentication = false;
  test_api_key = none;
  bull_auth_key = "admin";
  allow_local_webhooks = false;
}

abbrev at : ℕ → ℕ → Call
at now fresh = record { fault = none; now = now; fresh = fresh; uuid_text = λ n. "a job" }

abbrev calls : ErrorCalls
calls = record { group = at 70 0; job = at 71 0; rows = at 72 0 }

abbrev payload : Json
payload = Json.object (
    Fields.field "payload"
      (Json.object (Fields.field "url" (Json.string "https://a.example/") Fields.end)) Fields.end)

abbrev job_of : ℕ → JobRow
job_of n = new_row (at (10 * n) n) (some payload) (pos 0) none (some 9) none

abbrev group_nine : GroupCrawlRow
group_nine = record {
  id = 9;
  status = GroupStatus.active;
  created_at = 5;
  owner_id = 0;
  ttl = pos 86400000;
  expires_at = none;
}

abbrev one_failed : Db
one_failed = record {
  jobs = job_of 1 ∷ fail_row "timeout" 60 (job_of 2) ∷ job_of 3 ∷ [];
  groups = group_nine ∷ [];
}

found_group : get_crawl_group calls.group 9 one_failed ≡ (ok group_nine, one_failed)
unfolding get_crawl_group
found_group = refl

passes : check_auth none open_gate ≡ ok tt
unfolding check_auth
passes = refl

three_rows : length (group_rows 9 one_failed.jobs) ≡ 3
unfolding group_rows
three_rows = refl

the_error :
    (crawl_errors_handler spaced calls none open_gate 9 one_failed).0
    ≡ ok (record {
      errors =
          record { id = 2; timestamp = 20; url = "https://a.example/"; error = "timeout" } ∷ [];
      robots_blocked = [];
    })
unfolding crawl_errors_handler check_auth get_crawl_group get_group_results get as_str
the_error = refl

crawl_errors_handler-counts_example :
    (answer : CrawlErrors) × (counts : GroupCounts) × (crawl_errors_handler spaced calls none
        open_gate 9 one_failed
      ≡ (ok answer, one_failed))
    × (get_group_counts (at 73 0) 9 one_failed ≡ (ok counts, one_failed))
    × (length answer.errors ≡ counts.failed)
crawl_errors_handler-counts_example =
    crawl_errors_handler-counts spaced calls (at 73 0) none open_gate 9 group_nine one_failed passes
      found_group refl refl (omega (arith, three_rows))
