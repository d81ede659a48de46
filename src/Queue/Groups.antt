-- ===== src/Queue/Groups.antt =====
-- The statements of src/database.rs on crawl groups and on the jobs of a group.
use fire_ctrl.Prelude.{
  ℕ, ◌+◌, ◌-◌, ◌*◌, ◌%◌, Bool, true, false, ◌&&◌, ◌||◌, Option, none, some, List, [], ◌∷◌, ◌++◌,
  map, Result, ok, err, ltb, ◌==◌, tally, keep, take, first, any, if◌then◌else◌,
}
use fire_ctrl.Prelude.Int.{ℤ, pos, negsuc}
use fire_ctrl.Models.{AppError, GroupStatus, QueueScrapeRow, GroupCrawlRow}
use fire_ctrl.Queue.Table.{
  JobRow, Db, Call, run, map_queue_row, map_group_row, is_pending, is_completed, is_failed, holds,
  has_key, update_where,
}
use fire_ctrl.Queue.Jobs.{cancel_row}

-- `ORDER BY created_at ASC, id ASC`, as a comparison of `(created_at, id)`.
abbrev pub key_ltb : ℕ → ℕ → JobRow → Bool
key_ltb created_at id r = ltb created_at r.created_at || (created_at == r.created_at && ltb id r.id)

unfoldable pub insert_ordered : JobRow → List JobRow → List JobRow
insert_ordered r [] = r ∷ []
insert_ordered r (s ∷ rs) =
    let later = s ∷ insert_ordered r rs in if key_ltb s.created_at s.id r then later else r ∷ s ∷ rs

unfoldable pub order_by_key : List JobRow → List JobRow
unfolding insert_ordered
order_by_key [] = []
order_by_key (r ∷ rs) = insert_ordered r (order_by_key rs)

abbrev pub in_group : ℕ → JobRow → Bool
in_group g r = holds r.group_id g

-- All rows of the group in the order of the pages.
unfoldable pub group_rows : ℕ → List JobRow → List JobRow
unfolding order_by_key
group_rows g jobs = order_by_key (keep (in_group g) jobs)

-- `(created_at, id) > ($3, $2)` if both parts of the cursor are given.
abbrev pub after_cursor : Option ℕ → Option ℕ → JobRow → Bool
after_cursor (some id) (some created_at) r = key_ltb created_at id r
after_cursor _ _ r = true

abbrev pub limited : ℤ → List JobRow → Result AppError (List JobRow)
limited (pos n) rows = ok (take n rows)
limited (negsuc n) rows = err (AppError.postgres "LIMIT must not be negative")

abbrev pub mapped : Result AppError (List JobRow) → Result AppError (List QueueScrapeRow)
mapped (ok rows) = ok (map map_queue_row rows)
mapped (err e) = err e

unfoldable pub get_group_results :
    Call → ℕ → ℤ → Option ℕ → Option ℕ → Db → Result AppError (List QueueScrapeRow) × Db
unfolding run group_rows map_queue_row
get_group_results c g limit after_id after_created_at = run c (λ db. (
  mapped (limited limit (keep (after_cursor after_id after_created_at) (group_rows g db.jobs))),
  db,
))

pub record GroupCounts : Type 0 where
  pub completed : ℕ
  pub failed : ℕ
  pub pending : ℕ
  pub total : ℕ

-- `as u32`.
abbrev pub u32 : ℕ → ℕ
u32 n = n % 4294967296

abbrev pub counts_of : List JobRow → GroupCounts
counts_of rows = record {
  completed = u32 (tally (λ r. is_completed r.status) rows);
  failed = u32 (tally (λ r. is_failed r.status) rows);
  pending = u32 (tally (λ r. is_pending r.status) rows);
  total = u32 (tally (λ r. true) rows);
}

unfoldable pub get_group_counts : Call → ℕ → Db → Result AppError GroupCounts × Db
unfolding run
get_group_counts c g = run c (λ db. (ok (counts_of (keep (in_group g) db.jobs)), db))

abbrev pub plus_ttl : ℕ → ℤ → ℕ
plus_ttl now (pos ms) = now + ms * 1000
plus_ttl now (negsuc ms) = now - (ms + 1) * 1000

-- `expires_at` is `now() + ttl_ms / 1000` seconds.
unfoldable pub create_crawl_group : Call → ℕ → ℤ → Db → Result AppError GroupCrawlRow × Db
unfolding run map_group_row
create_crawl_group c owner_id ttl_ms = run c (λ db.
    let g : GroupCrawlRow = record {
      id = c.fresh;
      status = GroupStatus.active;
      created_at = c.now;
      owner_id = owner_id;
      ttl = ttl_ms;
      expires_at = some (plus_ttl c.now ttl_ms);
    } in
    if any (λ h. h.id == c.fresh) db.groups
    then (err (AppError.postgres "duplicate key"), db)
    else (ok (map_group_row g), record db { groups = db.groups ++ g ∷ [] }))

abbrev pub found_group : AppError → Option GroupCrawlRow → Result AppError GroupCrawlRow
found_group e none = err e
found_group e (some g) = ok (map_group_row g)

unfoldable pub get_crawl_group : Call → ℕ → Db → Result AppError GroupCrawlRow × Db
unfolding run map_group_row
get_crawl_group c id = run c (λ db. (
  found_group (AppError.not_found (c.uuid_text id)) (first (keep (λ g. g.id == id) db.groups)),
  db,
))

unfoldable pub set_status : ℕ → GroupStatus → List GroupCrawlRow → List GroupCrawlRow
set_status id s [] = []
set_status id s (g ∷ gs) = (if g.id == id then record g { status = s } else g) ∷ set_status id s gs

unfoldable pub set_group_status : Call → ℕ → GroupStatus → Db → Result AppError Unit × Db
unfolding run set_status
set_group_status c id s = run c (λ db. (ok tt, record db { groups = set_status id s db.groups }))

abbrev pub cancellable : ℕ → JobRow → Bool
cancellable g r = in_group g r && is_pending r.status

-- Two statements on one connection: the first may succeed and the second be refused.
unfoldable pub cancel_group : Call → Call → ℕ → Db → Result AppError Unit × Db
unfolding run update_where set_status
cancel_group c c' g = run c (λ db.
    let db' : Db = record db { jobs = update_where (cancellable g) (cancel_row c.now) db.jobs } in
    run c' (λ d. (ok tt, record d { groups = set_status g GroupStatus.cancelled d.groups })) db')

abbrev pub move_row : ℕ → JobRow → JobRow
move_row g r = record r { group_id = some g }

unfoldable pub update_job_group : Call → ℕ → ℕ → ℕ → Db → Result AppError Unit × Db
unfolding run update_where
update_job_group c id created_at g =
    run c (λ db.
      (ok tt, record db { jobs = update_where (has_key id created_at) (move_row g) db.jobs }))

-- `ORDER BY created_at DESC`.
unfoldable pub insert_newest : GroupCrawlRow → List GroupCrawlRow → List GroupCrawlRow
insert_newest g [] = g ∷ []
insert_newest g (h ∷ hs) =
    let later = h ∷ insert_newest g hs in
    if ltb g.created_at h.created_at then later else g ∷ h ∷ hs

unfoldable pub newest_first : List GroupCrawlRow → List GroupCrawlRow
unfolding insert_newest
newest_first [] = []
newest_first (g ∷ gs) = insert_newest g (newest_first gs)

abbrev pub is_active_group : GroupStatus → Bool
is_active_group GroupStatus.active = true
is_active_group _ = false

unfoldable pub get_active_groups : Call → Db → Result AppError (List GroupCrawlRow) × Db
unfolding run newest_first map_group_row
get_active_groups c = run c (λ db.
    (ok (map map_group_row (newest_first (keep (λ g. is_active_group g.status) db.groups))), db))
