-- ===== src/Api/Errors/Counts.antt =====
-- The errors of a crawl against the counts of its status page.
use fire_ctrl.Prelude.{
  ℕ, zero, suc, ◌≤◌, String, ◌≡◌, ◌∙◌, refl, sym, ap, Bool, true, Option, none, List, [], ◌∷◌, map,
  keep, take, tally, length, arith, ok, Bool-cases, inl, inr, tally-le-length,
}
use fire_ctrl.Prelude.Int.{pos}
use fire_ctrl.Models.{JobStatus, GroupCrawlRow, job_status_text}
use fire_ctrl.Queue.{
  JobRow, Db, Call, run, map_queue_row, map_job_status, get_group_results, get_group_counts,
  get_crawl_group, in_group, group_rows, insert_ordered, order_by_key, is_failed, key_ltb,
  GroupCounts, counts_of,
}
use fire_ctrl.Api.Gate.{AuthConfig, check_auth}
use fire_ctrl.Api.Errors.{CrawlErrors, ErrorCalls, errors_of, crawl_errors_handler}

failed_row : JobRow → Bool
failed_row r = is_failed r.status

module _ (p : JobRow → Bool) where
  tally-insert_ordered :
      (r : JobRow) (rs : List JobRow) → tally p (insert_ordered r rs) ≡ tally p (r ∷ rs)
  unfolding insert_ordered
  tally-insert_ordered r [] = refl
  tally-insert_ordered r (s ∷ rs) = elim (Bool-cases (key_ltb s.created_at s.id r)) [
    | inl e ↦ rw e (ground (arith, tally-insert_ordered r rs))
    | inr e ↦ rw e refl
  ]

  tally-order_by_key : (rs : List JobRow) → tally p (order_by_key rs) ≡ tally p rs
  unfolding order_by_key
  tally-order_by_key [] = refl
  tally-order_by_key (r ∷ rs) =
      tally-insert_ordered r (order_by_key rs) ∙ ground (arith, tally-order_by_key rs)

tally-all : {A : Type 0} (xs : List A) → tally (λ x. true) xs ≡ length xs
tally-all [] = refl
tally-all (x ∷ xs) = omega (arith, tally-all xs)

take-all : {A : Type 0} (n : ℕ) (xs : List A) → length xs ≤ n → take n xs ≡ xs
take-all zero [] h = refl
take-all zero (x ∷ xs) h = absurd (omega arith)
take-all (suc n) [] h = refl
take-all (suc n) (x ∷ xs) h = ap (◌∷◌ x) (take-all n xs (omega arith))

keep-true : {A : Type 0} (xs : List A) → keep (λ x. true) xs ≡ xs
keep-true [] = refl
keep-true (x ∷ xs) = ap (◌∷◌ x) (keep-true xs)

is_failed-map_job_status :
    (s : JobStatus) → is_failed (map_job_status (job_status_text s)) ≡ is_failed s
unfolding map_job_status job_status_text
is_failed-map_job_status JobStatus.queued = refl
is_failed-map_job_status JobStatus.scraping = refl
is_failed-map_job_status JobStatus.active = refl
is_failed-map_job_status JobStatus.completed = refl
is_failed-map_job_status JobStatus.failed = refl
is_failed-map_job_status JobStatus.cancelled = refl

-- As many errors as failed rows.
length-errors_of :
    (rs : List JobRow)
    → length (errors_of (map map_queue_row rs)).errors ≡ tally (λ r. is_failed r.status) rs
unfolding map_queue_row
length-errors_of [] = refl
length-errors_of (r ∷ rs) = elim (Bool-cases (is_failed r.status)) [
  | inl e ↦ rw (is_failed-map_job_status r.status, e) (omega (arith, length-errors_of rs))
  | inr e ↦ rw (is_failed-map_job_status r.status, e) (length-errors_of rs)
]

group_rows-all :
    (g : ℕ) (jobs : List JobRow)
    → (tally (λ r. is_failed r.status) (group_rows g jobs)
        ≡ tally (λ r. is_failed r.status) (keep (in_group g) jobs))
      × (length (group_rows g jobs) ≡ length (keep (in_group g) jobs))
unfolding group_rows
group_rows-all g jobs = (
  tally-order_by_key (λ r. is_failed r.status) (keep (in_group g) jobs),
  sym (tally-all (order_by_key (keep (in_group g) jobs)))
      ∙ tally-order_by_key (λ r. true) (keep (in_group g) jobs)
      ∙ tally-all (keep (in_group g) jobs),
)

-- The rows of a group that the handler reads, if there are not more than its limit.
all_results :
    (c : Call) (g : ℕ) (db : Db)
    → c.fault ≡ none
    → length (group_rows g db.jobs) ≤ 1000
    → get_group_results c g (pos 1000) none none db
      ≡ (ok (map map_queue_row (group_rows g db.jobs)), db)
unfolding get_group_results
all_results c g db up few =
    rw (up, run)
      (rw (keep-true (group_rows g db.jobs)) (rw (take-all 1000 (group_rows g db.jobs) few)))

-- For a group of at most 1000 jobs, when the server answers, the errors of the crawl are as many as the
-- failed jobs that its status page counts; neither request changes the database.
pub crawl_errors_handler-counts :
    (accepts : String → Bool) (c : ErrorCalls) (c' : Call) (authorization : Option String)
    (cfg : AuthConfig) (id : ℕ) (g : GroupCrawlRow) (db : Db)
    → check_auth authorization cfg ≡ ok tt
    → get_crawl_group c.group id db ≡ (ok g, db)
    → c.rows.fault ≡ none
    → c'.fault ≡ none
    → length (group_rows id db.jobs) ≤ 1000
    → (answer : CrawlErrors) × (counts : GroupCounts) × (crawl_errors_handler accepts c
          authorization cfg id db
        ≡ (ok answer, db))
      × (get_group_counts c' id db ≡ (ok counts, db))
      × (length answer.errors ≡ counts.failed)
unfolding crawl_errors_handler get_group_counts
crawl_errors_handler-counts accepts c c' authorization cfg id g db auth found up up' few = (
  errors_of (map map_queue_row (group_rows id db.jobs)),
  counts_of (keep (in_group id) db.jobs),
  rw (auth, found, all_results c.rows id db up few),
  rw (up', run),
  length-errors_of (group_rows id db.jobs)
      ∙ omega (
        arith,
        (group_rows-all id db.jobs).0,
        (group_rows-all id db.jobs).1,
        few,
        tally-le-length (λ r. is_failed r.status) (keep (in_group id) db.jobs),
      ),
)
