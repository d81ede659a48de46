-- ===== src/Api/Submit/Queued.antt =====
-- What a submission leaves in the database, however it ends.
use fire_ctrl.Prelude.{
  ◌+◌, ◌*◌, ◌≡◌, String, Bool-cases, inl, inr, refl, false, Option, none, some, [], ◌∷◌, ◌++◌, min,
  any, ◌==◌, Result, ok, err,
}
use fire_ctrl.Prelude.Int.{pos}
use fire_ctrl.Models.{AppError, JobStatus, GroupStatus, GroupCrawlRow, CrawlJobData, JobEnvelope}
use fire_ctrl.Queue.{
  JobRow, Db, Call, run, create_crawl_group, enqueue, insert_row, new_row, has_key,
}
use fire_ctrl.Api.Gate.{check_auth}
use fire_ctrl.Api.Snapshot.{check_resources}
use fire_ctrl.Api.Submit.{
  AppState, CrawlRequest, CrawlResponse, crawl_envelope, crawl_accepted, crawl_handler,
}

-- What an accepted crawl has added: an active group, and a queued job of it that holds the request.
pub record IsQueued (st : AppState) (authorization : Option String) (req : CrawlRequest)
    (before after : Db) (a : CrawlResponse) : Type 0 where
  pub allowed : check_auth authorization st.auth ≡ ok tt
  pub idle : check_resources st.limits st.resources ≡ ok tt
  pub group : GroupCrawlRow
  pub row : JobRow
  pub job : CrawlJobData
  pub groups : after.groups ≡ before.groups ++ group ∷ []
  pub jobs : after.jobs ≡ before.jobs ++ row ∷ []
  pub new_group : any (λ g. g.id == group.id) before.groups ≡ false
  pub new_row : any (has_key row.id row.created_at) before.jobs ≡ false
  pub active : group.status ≡ GroupStatus.active
  pub queued : row.status ≡ JobStatus.queued
  pub unlocked : row.lock ≡ none
  pub priority : row.priority ≡ req.priority
  pub answered : a.id ≡ group.id
  pub row_group : row.group_id ≡ some group.id
  pub job_group : job.group_id ≡ some group.id
  pub holds : row.payload ≡ some (st.encode (JobEnvelope.crawl job))
  pub url : job.url ≡ req.url
  pub depth : job.max_depth ≡ min req.max_depth st.crawler.max_depth
  pub limit : job.limit ≡ min req.limit st.crawler.max_pages

-- The ends of a submission: it adds the group and its job, or nothing, or, with an error as its answer,
-- a group alone.
pub data Submission (st : AppState) (authorization : Option String) (req : CrawlRequest) (db : Db)
    : Result AppError CrawlResponse × Db → Type 0 where
  accepts :
      {a : CrawlResponse} {after : Db}
      → IsQueued st authorization req db after a
      → Submission st authorization req db (ok a, after)
  refuses : {e : AppError} → Submission st authorization req db (err e, db)
  orphans :
      {e : AppError} {after : Db} (group : GroupCrawlRow)
      → group.status ≡ GroupStatus.active
      → after.groups ≡ db.groups ++ group ∷ []
      → after.jobs ≡ db.jobs
      → Submission st authorization req db (err e, after)

-- The group that a submission makes, and its row.
abbrev day_group : Call → GroupCrawlRow
day_group c = record {
  id = c.fresh;
  status = GroupStatus.active;
  created_at = c.now;
  owner_id = 0;
  ttl = pos 86400000;
  expires_at = some (c.now + 86400000 * 1000);
}

abbrev job_row : AppState → CrawlRequest → Call → Call → JobRow
job_row st req c c' =
    new_row c' (some (st.encode (crawl_envelope st req c.fresh))) req.priority none (some c.fresh)
      none

module _ (st : AppState) (authorization : Option String) (c c' : Call) (req : CrawlRequest)
    (db : Db) where
  grouped : Db
  grouped = record db { groups = db.groups ++ day_group c ∷ [] }

  accepted : Db
  accepted = record {
    jobs = db.jobs ++ job_row st req c c' ∷ [];
    groups = db.groups ++ day_group c ∷ [];
  }

  Ends : Type 0
  Ends = Submission st authorization req db (crawl_handler st authorization c c' req db)

  reaches :
      {x : Result AppError CrawlResponse × Db}
      → crawl_handler st authorization c c' req db ≡ x
      → Submission st authorization req db x
      → Ends
  unfolding Ends
  reaches e s = rw e s

  module _ (allowed : check_auth authorization st.auth ≡ ok tt)
      (idle : check_resources st.limits st.resources ≡ ok tt) where
    new_group-Ends : c.fault ≡ none → any (λ g. g.id == c.fresh) db.groups ≡ false → Ends
    unfolding grouped accepted crawl_handler create_crawl_group enqueue insert_row
    new_group-Ends up fresh = faults c'.fault refl
      where
        stored : c'.fault ≡ none → Ends
        stored up' = elim (Bool-cases (any (has_key c'.fresh c'.now) db.jobs)) [
          | inl taken ↦
              reaches {x = (err (AppError.postgres "duplicate key"), grouped)}
                (simp (allowed, idle, up, up', fresh, taken, run))
                (Submission.orphans (day_group c) refl refl refl)
          | inr free ↦
              reaches {x = (ok (crawl_accepted st c.fresh), accepted)}
                (simp (allowed, idle, up, up', fresh, free, run))
                (Submission.accepts (record {
                  allowed = allowed;
                  idle = idle;
                  group = day_group c;
                  row = job_row st req c c';
                  job = _;
                  groups = refl;
                  jobs = refl;
                  new_group = fresh;
                  new_row = free;
                  active = refl;
                  queued = refl;
                  unlocked = refl;
                  priority = refl;
                  answered = refl;
                  row_group = refl;
                  job_group = refl;
                  holds = refl;
                  url = refl;
                  depth = refl;
                  limit = refl;
                }))
        ]

        faults : (f : Option AppError) → c'.fault ≡ f → Ends
        faults none e = stored e
        faults (some x) e =
            reaches {x = (err x, grouped)} (simp (allowed, idle, up, e, fresh, run))
              (Submission.orphans (day_group c) refl refl refl)

    group-Ends : (f : Option AppError) → c.fault ≡ f → Ends
    unfolding crawl_handler create_crawl_group
    group-Ends (some x) e =
        reaches {x = (err x, db)} (simp (allowed, idle, e, run)) Submission.refuses
    group-Ends none e = elim (Bool-cases (any (λ g. g.id == c.fresh) db.groups)) [
      | inl taken ↦
          reaches {x = (err (AppError.postgres "duplicate key"), db)}
            (simp (allowed, idle, e, taken, run)) Submission.refuses
      | inr fresh ↦ new_group-Ends e fresh
    ]

  gates-Ends :
      (x y : Result AppError Unit)
      → check_auth authorization st.auth ≡ x
      → check_resources st.limits st.resources ≡ y
      → Ends
  unfolding crawl_handler
  gates-Ends (err e) y h k = reaches {x = (err e, db)} (simp h) Submission.refuses
  gates-Ends (ok t) (err e) h k = reaches {x = (err e, db)} (simp (h, k)) Submission.refuses
  gates-Ends (ok t) (ok u) h k = group-Ends h k c.fault refl

-- However the two statements of a crawl submission are answered, with whatever ids, and whatever the
-- database holds, it ends in one of three ways. It answers with an id: then it has passed both gates,
-- and has added one active group of that id, which is new, and one queued and unlocked job of that
-- group with a new key and the priority of the request, whose envelope is a crawl of the request's
-- URL for that group, with the depth and the limit of the request cut to those of the configuration.
-- Or it answers with an error, and the database is as before. Or it answers with an error and leaves
-- an active group, but no job.
pub crawl_handler-Submission :
    (st : AppState) (authorization : Option String) (c c' : Call) (req : CrawlRequest) (db : Db)
    → Submission st authorization req db (crawl_handler st authorization c c' req db)
unfolding Ends
crawl_handler-Submission st authorization c c' req db =
    gates-Ends st authorization c c' req db (check_auth authorization st.auth)
      (check_resources st.limits st.resources) refl refl
