-- ===== src/Worker/Examples.antt =====
-- Stall recovery, a round of a worker, a webhook and a respawn on concrete data.
use fire_ctrl.Prelude.{List, ℕ, ◌≤◌, String, ◌≡◌, refl, arith, none, some, [], ◌∷◌}
use fire_ctrl.Prelude.Int.{pos}
use fire_ctrl.Models.{AppError, Json}
use fire_ctrl.Queue.{Db, Call, new_row, lock_row}
use fire_ctrl.Prelude.{
  zero, suc, ◌&&◌, not, Bool, true, false, Option, ok, err, length, if◌then◌else◌, ◌++◌,
}
use fire_ctrl.Models.{JobEnvelope}
use fire_ctrl.Queue.{JobRow, claim_next_job, map_queue_row}
use fire_ctrl.Scraper.Page.{Web, CrawlerConfig}
use fire_ctrl.Worker.Job.{World, Expiry, Outside}
use fire_ctrl.Queue.Waiting.{count_waiting}
use fire_ctrl.Worker.Turn.Drains.{Round, rounds, rounds-count_waiting}
use fire_ctrl.Worker.Turn.{Ending, after_run, run_envelope, after_claim, run_once}
use fire_ctrl.Worker.Turn.Ends.{RoundEnd, run_once-RoundEnd}
use fire_ctrl.Worker.Kinds.{execute}
use fire_ctrl.Worker.Webhook.{Host, fire_webhook, is_blocked, gets_through, sum, fire_webhook_lem}
use fire_ctrl.Worker.Pool.{zip, respawn, respawn_lem}

abbrev number_text : ℕ → String
number_text n = "a job"

abbrev at : ℕ → Call
at now = record { fault = none; now = now; fresh = 0; uuid_text = number_text }

abbrev down : Call
down = record { fault = some AppError.timeout; now = 0; fresh = 0; uuid_text = number_text }

-- A job locked at the start, and one that waits.
abbrev stalled_db : Db
stalled_db = record {
  jobs =
      lock_row 7 0 (new_row (at 0) (some Json.null) (pos 0) none none none)
      ∷ new_row (at 5) (some Json.null) (pos 0) none none none
      ∷ [];
  groups = [];
}

-- No page is fetched, the model answers null, the second statement is cut by the deadline.
abbrev no_web : Web
no_web = record {
  host = λ u. ok u;
  robots_allow = λ u. true;
  fetch = λ u. err "down";
  fetch_page = λ u w t. err AppError.timeout;
  title = λ h. none;
  markdown = λ h. h;
  text = λ h m. h;
  hrefs = λ h. [];
  join = λ b h. none;
  structured_json = λ h u. Json.null;
}

abbrev config : CrawlerConfig
config = record {
  max_depth = 3;
  max_pages = 100;
  concurrent_requests = 4;
  request_timeout_seconds = 30;
  user_agent = "fire";
  respect_robots_txt = true;
  playwright_url = none;
  browser_pool_size = 1;
}

abbrev outside : Outside
outside = record {
  calls = λ n. record { call = at 100; expiry = Expiry.in_time };
  late = λ n. false;
  web = no_web;
  crawler = config;
  sitemap = λ u n. [];
  joined = λ ts. [];
  llm = λ r. some (ok (Json.null, none));
  max_input_chars = 1000;
  number_text = number_text;
  uuid_text = number_text;
  result_json = λ r. Json.null;
}

abbrev an_extract : Json → Option JobEnvelope
an_extract v = some (
    JobEnvelope.extract (record {
      urls = "a.example" ∷ [];
      prompt = none;
      schema = none;
      system_prompt = none;
      allow_external_links = true;
      enable_web_search = false;
      ignore_invalid_urls = true;
    }))

abbrev waiting : JobRow
waiting = new_row (at 5) (some Json.null) (pos 0) none none none

abbrev waiting_world : World
waiting_world = record { db = record { jobs = waiting ∷ []; groups = [] }; fired = [] }

abbrev nobody : ℕ → ℕ → Bool
nobody id created_at = false

waiting_claimed :
    (claim_next_job (at 9) nobody 7 waiting_world.db).0
    ≡ ok (some (map_queue_row (lock_row 7 9 waiting)))
unfolding claim_next_job
waiting_claimed = refl

run_once-RoundEnd_example :
    RoundEnd outside
      (map_queue_row (lock_row 7 9 waiting))
      (claim_next_job (at 9) nobody 7 waiting_world.db).1
      (run_once an_extract outside (at 9) nobody 7 (at 10) waiting_world)
run_once-RoundEnd_example =
    run_once-RoundEnd an_extract outside (at 9) nobody 7 (at 10) waiting_world
      (map_queue_row (lock_row 7 9 waiting)) waiting_claimed refl

-- The extraction panics, the worker dies, and the row stays active under the lock.
abbrev panicking : Outside
panicking = record outside { llm = λ r. none }

panicking_dies : run_once an_extract panicking (at 9) nobody 7 (at 10) waiting_world ≡ (
  Ending.dies,
  record waiting_world { db = record { jobs = lock_row 7 9 waiting ∷ []; groups = [] } },
)
unfolding run_once after_claim run_envelope after_run claim_next_job execute
panicking_dies = refl

abbrev two_rounds : List Round
two_rounds =
    record { claim = at 9; fail = at 10; outside = outside; lock_id = 7 }
    ∷ record { claim = at 11; fail = at 12; outside = outside; lock_id = 7 }
    ∷ []

rounds-count_waiting_example : count_waiting (rounds an_extract two_rounds waiting_world).db ≡ 0
rounds-count_waiting_example =
    rounds-count_waiting an_extract two_rounds waiting_world (refl, (refl, tt)) (omega arith)

-- The first attempt is answered with 503, the second one with 200.
abbrev busy_once : ℕ → Option ℕ
busy_once zero = some 503
busy_once (suc n) = some 200

fire_webhook_lem_example :
    ((fire_webhook false (some (Host.domain "a.example")) busy_once).delivered
      ≡ (not (is_blocked false (some (Host.domain "a.example"))) && gets_through busy_once))
    × ((fire_webhook false (some (Host.domain "a.example")) busy_once).posts ≡ (
        if is_blocked false (some (Host.domain "a.example"))
        then 0
        else suc (length (fire_webhook false (some (Host.domain "a.example")) busy_once).slept)))
    × ((fire_webhook false (some (Host.domain "a.example")) busy_once).posts ≤ 3)
    × (sum (fire_webhook false (some (Host.domain "a.example")) busy_once).slept ≤ 600)
fire_webhook_lem_example = fire_webhook_lem false (some (Host.domain "a.example")) busy_once

-- The handles that remain, in another order.
abbrev handles : List String
handles = "d" ∷ "a" ∷ "c" ∷ []

respawn_lem_example :
    respawn ((0 ∷ []) ++ 1 ∷ 2 ∷ 3 ∷ []) 1 handles "new"
    ≡ some ((1, "new") ∷ zip ((0 ∷ []) ++ 2 ∷ 3 ∷ []) handles)
respawn_lem_example = respawn_lem (0 ∷ []) (2 ∷ 3 ∷ []) 1 handles "new" refl
