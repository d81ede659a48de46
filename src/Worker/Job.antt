-- ===== src/Worker/Job.antt =====
-- What a running job of src/worker.rs reads and writes: the database, the webhooks that it fires, and
-- the awaits at which the deadline of the job may drop it.
use fire_ctrl.Prelude.{ℕ, String, Bool, true, false, Option, none, some, List, ◌∷◌, Result, ok, err}
use fire_ctrl.Prelude.Action.{Action}
use fire_ctrl.Models.{AppError, Json, Items, Fields, ScrapeResult, WebhookConfig, to_string}
use fire_ctrl.Queue.{Db, Call}
use fire_ctrl.Scraper.Page.{Web, CrawlerConfig}
use fire_ctrl.Llm.Retry.{ExtractionRequest}

-- The payloads that `fire_webhook` is given.
pub data Event : Type 0 where
  scrape_completed : ℕ → ScrapeResult → Event
  crawl_started : ℕ → ℕ → Event
  crawl_page : ℕ → ScrapeResult → Event
  crawl_completed : ℕ → ℕ → ℕ → Event
  batch_scrape_completed : ℕ → ℕ → Event

-- The database, and the webhooks fired, the last one first.
pub record World : Type 0 where
  pub db : Db
  pub fired : List (String × Event)

-- How an await may end but with success: `execute` under `tokio::time::timeout` may end but with success.
pub data Failure : Type 0 where
  failed : AppError → Failure
  timed_out : Failure

abbrev pub Job : Type 0 → Type 0
Job A = Action Failure World A

-- How a whole job may end but with success. A panic unwinds the worker's task.
pub data Stop : Type 0 where
  by : Failure → Stop
  panicked : Stop

-- A part of a job that may panic.
abbrev pub Task : Type 0 → Type 0
Task A = Action Stop World A

abbrev pub stopping : {A : Type 0} → Result Failure A → Result Stop A
stopping (ok a) = ok a
stopping (err f) = err (by f)

abbrev pub calm : {A : Type 0} → Job A → Task A
calm j w = (stopping (j w).0, (j w).1)

-- Where the deadline passes: not during the await, before the server has run the statement, or after.
pub data Expiry : Type 0 where
  in_time before after : Expiry

pub record JobCall : Type 0 where
  pub call : Call
  pub expiry : Expiry

abbrev pub failing : {A : Type 0} → Result AppError A → Result Failure A
failing (ok a) = ok a
failing (err e) = err (failed e)

-- An awaited statement.
abbrev pub statement : {A : Type 0} → Expiry → (Db → Result AppError A × Db) → Job A
statement in_time f w = (failing (f w.db).0, record w { db = (f w.db).1 })
statement before f w = (err timed_out, w)
statement after f w = (err timed_out, record w { db = (f w.db).1 })

-- Another await, which leaves the database alone.
abbrev pub awaited : {A : Type 0} → Bool → Result AppError A → Job A
awaited true r w = (err timed_out, w)
awaited false r w = (failing r, w)

-- An await during which the code may panic.
abbrev pub unwinding : {A : Type 0} → Option (Result AppError A) → Result Stop A
unwinding none = err panicked
unwinding (some r) = stopping (failing r)

abbrev pub risked : {A : Type 0} → Bool → Option (Result AppError A) → Task A
risked true r w = (err (by timed_out), w)
risked false r w = (unwinding r, w)

abbrev pub until : Bool → Result Failure Unit
until true = err timed_out
until false = ok tt

-- `fire_webhook(…).await`, whose answer is not used.
abbrev pub fire : Bool → String → Event → Job Unit
fire late url e w = (until late, record w { fired = (url, e) ∷ w.fired })

abbrev pub fire_to : Bool → Option WebhookConfig → Event → Job Unit
fire_to late none e w = (ok tt, w)
fire_to late (some wh) e w = fire late wh.url e w

-- What lies outside one run of a job: the statements' calls and the awaits by their number, the web,
-- the language model, and the display of numbers and results. `joined` gives the order in which a
-- `JoinSet` yields its tasks, with none for a task that panicked. `llm` is `LlmClient::extract`, with none
-- where `extract_json` panics on a completion.
pub record Outside : Type 0 where
  pub calls : ℕ → JobCall
  pub late : ℕ → Bool
  pub web : Web
  pub crawler : CrawlerConfig
  pub sitemap : String → ℕ → List String
  pub joined :
      List (String × Result AppError ScrapeResult)
      → List (Option (String × Result AppError ScrapeResult))
  pub llm : ExtractionRequest → Option (Result String (Json × Option String))
  pub max_input_chars : ℕ
  pub number_text : ℕ → String
  pub uuid_text : ℕ → String
  pub result_json : ScrapeResult → Json

-- `json!({ "kind": "scrape", "payload": { "url": …, "formats": ["markdown"] } })`.
abbrev pub sub_data : String → Json
sub_data url = Json.object (
    Fields.field "kind" (Json.string "scrape") (
      Fields.field "payload"
        (Json.object (
          Fields.field "url" (Json.string url) (
            Fields.field "formats" (Json.array (Items.cons (Json.string "markdown") Items.nil))
              Fields.end)))
        Fields.end))

-- `json!({ "total": …, "group_id": … })`.
abbrev pub total_json : Outside → ℕ → ℕ → Json
total_json o n group_id = Json.object (
    Fields.field "total" (Json.number (o.number_text n))
      (Fields.field "group_id" (Json.string (o.uuid_text group_id)) Fields.end))

abbrev pub reason : Failure → String
unfolding to_string
reason (failed e) = to_string e
reason timed_out = "job timeout"
