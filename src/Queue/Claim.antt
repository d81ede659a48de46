-- ===== src/Queue/Claim.antt =====
-- `claim_next_job`: which row a worker gets, and that no two workers get the same.
use mathlib.Core.List.{Memᴰ}
use mathlib.Core.Option.{some-injective}
use mathlib.Core.Path.{subst}
use fire_ctrl.Prelude.{
  ℕ, ◌≡◌, inl, inr, refl, Bool, true, false, Option, none, some, List, [], ◌∷◌, arith, All, All-map,
  All-Memᴰ, sym, ◌∙◌, ◌&&◌, not, Bool-cases, Result, ok,
}
use fire_ctrl.Prelude.Int.{int_ltb_cotrans, int_ltb_asymm, int_ltb_irrefl}
use fire_ctrl.Models.{AppError, QueueScrapeRow}
use fire_ctrl.Queue.Table.{
  JobRow, Db, Call, map_queue_row, is_active, is_queued, has_key, update_where, before,
}
use fire_ctrl.Queue.Jobs.{claimable, better, next_row, lock_row, take_row, claim_next_job}
use fire_ctrl.Queue.Updates.{All-of_update, All-trivial}

before_cotrans : (a b c : JobRow) → before a b ≡ false → before b c ≡ false → before a c ≡ false
unfolding before
before_cotrans a b c p q = ground (
  arith,
  int_ltb_cotrans a.priority b.priority c.priority,
  int_ltb_cotrans c.priority b.priority a.priority,
  int_ltb_cotrans b.priority a.priority c.priority,
  int_ltb_cotrans a.priority c.priority b.priority,
  int_ltb_cotrans b.priority c.priority a.priority,
  int_ltb_cotrans c.priority a.priority b.priority,
)

before_asymm : (a b : JobRow) → before a b ≡ true → before b a ≡ false
unfolding before
before_asymm a b p = ground (arith, int_ltb_asymm a.priority b.priority)

before_irrefl : (a : JobRow) → before a a ≡ false
unfolding before
before_irrefl a = ground (arith, int_ltb_irrefl a.priority)

-- What the row that `ORDER BY … LIMIT 1` picks has.
pub record IsFirst (p : JobRow → Bool) (rs : List JobRow) (m : JobRow) : Type 0 where
  pub passes : p m ≡ true
  pub at : Memᴰ m rs
  pub no_better : All (λ r. p r ≡ true → before r m ≡ false) rs

better-ne-none : (r : JobRow) (o : Option JobRow) → better r o ≡ none → ⊥
better-ne-none r none h = cc
better-ne-none r (some s) h = ground arith

module _ (p : JobRow → Bool) where
  next_row-none : (rs : List JobRow) → next_row p rs ≡ none → All (λ r. p r ≡ false) rs
  unfolding next_row
  next_row-none [] h = tt
  next_row-none (r ∷ rs) h = elim (Bool-cases (p r)) [
    | inl e ↦ absurd (better-ne-none r (next_row p rs) (rw e at h))
    | inr e ↦ (e, next_row-none rs (rw e at h))
  ]

  first_of_better :
      (r : JobRow) (rs : List JobRow) (o : Option JobRow) (m : JobRow)
      → ((s : JobRow) → o ≡ some s → IsFirst p rs s)
      → (o ≡ none → All (λ r. p r ≡ false) rs)
      → p r ≡ true
      → better r o ≡ some m
      → IsFirst p (r ∷ rs) m
  first_of_better r rs none m first empty e h =
      subst (IsFirst p (r ∷ rs)) (some-injective _ _ h) (record {
        passes = e;
        at = Memᴰ.head refl;
        no_better = (
          λ _. before_irrefl r,
          All-map (λ t. p t ≡ false) (λ t. p t ≡ true → before t r ≡ false) rs (λ t f g. cc)
              (empty refl),
        );
      })
  first_of_better r rs (some s) m first empty e h = elim (Bool-cases (before s r)) [
    | inl b ↦ subst (IsFirst p (r ∷ rs)) (some-injective _ _ (rw b at h)) (record {
      passes = (first s refl).passes;
      at = Memᴰ.tail (first s refl).at;
      no_better = (λ _. before_asymm s r b, (first s refl).no_better);
    })
    | inr b ↦ subst (IsFirst p (r ∷ rs)) (some-injective _ _ (rw b at h)) (record {
      passes = e;
      at = Memᴰ.head refl;
      no_better = (
        λ _. before_irrefl r,
        All-map (λ t. p t ≡ true → before t s ≡ false) (λ t. p t ≡ true → before t r ≡ false) rs
            (λ t f g. before_cotrans t s r (f g) b) (first s refl).no_better,
      );
    })
  ]

  pub next_row-some : (rs : List JobRow) (m : JobRow) → next_row p rs ≡ some m → IsFirst p rs m
  unfolding next_row
  next_row-some [] m h = cc
  next_row-some (r ∷ rs) m h = elim (Bool-cases (p r)) [
    | inl e ↦
        first_of_better r rs (next_row p rs) m (next_row-some rs) (next_row-none rs) e (rw e at h)
    | inr e ↦
        let rest = next_row-some rs m (rw e at h) in
        record {
          passes = rest.passes;
          at = Memᴰ.tail rest.at;
          no_better = (λ f. cc, rest.no_better);
        }
  ]

-- Of the rows with the key of the claimed row, all are active; of the others, none has changed.
pub All-lock :
    (m : JobRow) (lock_id now : ℕ) (rs : List JobRow)
    → All
        (λ r. has_key m.id m.created_at r ≡ true → is_active r.status ≡ true)
        (update_where (has_key m.id m.created_at) (lock_row lock_id now) rs)
All-lock m lock_id now rs =
    All-of_update (λ r. Unit {0})
      (λ r. has_key m.id m.created_at r ≡ true → is_active r.status ≡ true)
      (has_key m.id m.created_at) (lock_row lock_id now) rs (λ r _ _ _. refl) (λ r _ f g. cc)
      (All-trivial rs)

-- What a claim does, when the server answers.
pub data Claims (held : ℕ → ℕ → Bool) (lock_id now : ℕ) (db : Db)
    : Result AppError (Option QueueScrapeRow) × Db → Type 0 where
  idle : All (λ r. claimable held r ≡ false) db.jobs → Claims held lock_id now db (ok none, db)
  takes :
      (m : JobRow)
      → Memᴰ m db.jobs
      → claimable held m ≡ true
      → All (λ r. claimable held r ≡ true → before r m ≡ false) db.jobs
      → Claims held lock_id now db (
        ok (some (map_queue_row (lock_row lock_id now m))),
        record db {
          jobs = update_where (has_key m.id m.created_at) (lock_row lock_id now) db.jobs;
        },
      )

take_row-Claims :
    (held : ℕ → ℕ → Bool) (lock_id now : ℕ) (db : Db) (o : Option JobRow)
    → next_row (claimable held) db.jobs ≡ o
    → Claims held lock_id now db (take_row lock_id now o db)
take_row-Claims held lock_id now db none e = idle (next_row-none (claimable held) db.jobs e)
take_row-Claims held lock_id now db (some m) e =
    let first = next_row-some (claimable held) db.jobs m e in
    takes m first.at first.passes first.no_better

-- If the server answers, a claim returns no row exactly when no queued row is free, and changes
-- nothing; or it returns a queued row that no other transaction holds and that no such row comes
-- before in the order of priority, creation time and id, and it marks the row active under the lock.
pub claim_next_job-Claims :
    (c : Call) (held : ℕ → ℕ → Bool) (lock_id : ℕ) (db : Db)
    → c.fault ≡ none
    → Claims held lock_id c.now db (claim_next_job c held lock_id db)
unfolding claim_next_job
claim_next_job-Claims c held lock_id db up =
    rw up (take_row-Claims held lock_id c.now db (next_row (claimable held) db.jobs) refl)

-- What a claim that returned a row has picked and written.
pub record Claimed (c : Call) (held : ℕ → ℕ → Bool) (lock_id : ℕ) (db : Db) (row : QueueScrapeRow)
    : Type 0 where
  pub picked : JobRow
  pub first : IsFirst (claimable held) db.jobs picked
  pub row_id : row.id ≡ picked.id
  pub row_created_at : row.created_at ≡ picked.created_at
  pub written :
      (claim_next_job c held lock_id db).1.jobs
      ≡ update_where (has_key picked.id picked.created_at) (lock_row lock_id c.now) db.jobs

Claimed-of_take :
    (c : Call) (held : ℕ → ℕ → Bool) (lock_id : ℕ) (db : Db) (row : QueueScrapeRow)
    (o : Option JobRow)
    → next_row (claimable held) db.jobs ≡ o
    → claim_next_job c held lock_id db ≡ take_row lock_id c.now o db
    → (take_row lock_id c.now o db).0 ≡ ok (some row)
    → Claimed c held lock_id db row
unfolding map_queue_row
Claimed-of_take c held lock_id db row none e q h = cc
Claimed-of_take c held lock_id db row (some m) e q h = record {
  picked = m;
  first = next_row-some (claimable held) db.jobs m e;
  row_id = ground arith;
  row_created_at = ground arith;
  written = rw q;
}

pub claim_next_job-Claimed :
    (c : Call) (held : ℕ → ℕ → Bool) (lock_id : ℕ) (db : Db) (row : QueueScrapeRow)
    → (claim_next_job c held lock_id db).0 ≡ ok (some row)
    → Claimed c held lock_id db row
claim_next_job-Claimed c held lock_id db row h = go c.fault refl
  where
    go : (f : Option AppError) → c.fault ≡ f → Claimed c held lock_id db row
    go none e =
        let q : claim_next_job c held lock_id db
            ≡ take_row lock_id c.now (next_row (claimable held) db.jobs) db =
          unfold claim_next_job in rw e in
        Claimed-of_take c held lock_id db row (next_row (claimable held) db.jobs) refl q (rw q at h)
    go (some x) e = absurd (unfold claim_next_job in ground arith)

-- Two workers that claim one after the other never get the same row: whatever the two calls and the
-- rows that other transactions hold, if both claims return a row, the keys differ.
pub claims_differ :
    (c c' : Call) (held held' : ℕ → ℕ → Bool) (lock_id lock_id' : ℕ) (db : Db)
    (row row' : QueueScrapeRow)
    → (claim_next_job c held lock_id db).0 ≡ ok (some row)
    → (claim_next_job c' held' lock_id' (claim_next_job c held lock_id db).1).0 ≡ ok (some row')
    → ¬ ((row.id ≡ row'.id) × (row.created_at ≡ row'.created_at))
claims_differ c c' held held' lock_id lock_id' db row row' h h' same =
    let a = claim_next_job-Claimed c held lock_id db row h in
    let b = claim_next_job-Claimed c' held' lock_id' (claim_next_job c held lock_id db).1 row' h' in
    let active =
      All-Memᴰ (λ r. has_key a.picked.id a.picked.created_at r ≡ true → is_active r.status ≡ true)
        (claim_next_job c held lock_id db).1.jobs
        (rw a.written (All-lock a.picked lock_id c.now db.jobs)) b.first.at in
    not_both a.picked b.picked (held' b.picked.id b.picked.created_at)
      (sym a.row_id ∙ same.0 ∙ b.row_id) (sym a.row_created_at ∙ same.1 ∙ b.row_created_at) active
      b.first.passes
  where
    not_both :
        (m n : JobRow) (h : Bool)
        → m.id ≡ n.id
        → m.created_at ≡ n.created_at
        → (has_key m.id m.created_at n ≡ true → is_active n.status ≡ true)
        → is_queued n.status && not h ≡ true
        → ⊥
    not_both m n h p q act que = ground arith
