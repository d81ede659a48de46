-- ===== src/Scraper/Browsers.antt =====
-- `BrowserPool` and `BrowserGuard` of src/scraper.rs, cut where another task may run: at the
-- semaphore, at the mutex, and between the body of `drop` and the release of the guard's permit.
pub mod Exclusive
pub mod Waits
pub mod Fetch
mod Examples
use fire_ctrl.Prelude.{
  ℕ, zero, suc, ◌+◌, ◌≡◌, Bool, true, false, Option, none, some, List, [], ◌∷◌, ◌++◌, Result, ok,
  err, ◌>>=◌, ◌>>◌, >>=-eq-ok, ok-injective, ap, ◌∙◌,
}
use fire_ctrl.Models.{AppError}

-- Who holds the mutex of the deque.
pub data Lock : Type 0 where
  free : Lock
  popping : Lock
  pushing : ℕ → Lock
  draining : Lock

-- Browsers are numbered. `waiting` counts the acquirers that have a permit and want the mutex,
-- `dropping` the guards whose browser is given back and whose permit is not, `returning` are the
-- browsers of the spawned tasks that want the mutex, and `shut` are those that a shutdown took.
pub record Pool : Type 0 where
  pub pool : List ℕ
  pub permits : ℕ
  pub closed : Bool
  pub lock : Lock
  pub waiting : ℕ
  pub guards : List ℕ
  pub dropping : ℕ
  pub returning : List ℕ
  pub shut : List ℕ

-- The loop of `new`, which numbers the browsers that it launches. A refusal of the browser's
-- configuration or launch ends it.
unfoldable pub launched : (ℕ → Result AppError (Unit {0})) → ℕ → ℕ → Result AppError (List ℕ)
launched launch zero k = ok []
launched launch (suc n) k = do launch k; rest ← launched launch n (suc k); ok (k ∷ rest)

-- `size.max(1)`.
abbrev pub at_least_one : ℕ → ℕ
at_least_one zero = 1
at_least_one (suc n) = suc n

abbrev pub opened : ℕ → List ℕ → Pool
opened size deque = record {
  pool = deque;
  permits = size;
  closed = false;
  lock = Lock.free;
  waiting = 0;
  guards = [];
  dropping = 0;
  returning = [];
  shut = [];
}

-- `BrowserPool::new`.
unfoldable pub new : (ℕ → Result AppError (Unit {0})) → ℕ → Result AppError Pool
unfolding launched
new launch size = do
  deque ← launched launch (at_least_one size) 0
  ok (opened (at_least_one size) deque)

abbrev pub acquire_if : Bool → ℕ → Pool → Option (Result AppError Pool)
acquire_if true n p = some (err (AppError.scraper "Browser semaphore closed"))
acquire_if false zero p = none
acquire_if false (suc n) p = some (ok (record p { permits = n; waiting = suc p.waiting }))

-- `acquire_owned`: no result while the task has to wait.
unfoldable pub acquire_owned : Pool → Option (Result AppError Pool)
acquire_owned p = acquire_if p.closed p.permits p

abbrev pub pop_from : List ℕ → Pool → Result AppError ℕ × Pool
pop_from [] p = (
  err (AppError.scraper "Browser pool invariant violated: permit acquired but pool empty"),
  record p { lock = Lock.free; permits = suc p.permits },
)
pop_from (b ∷ bs) p = (ok b, record p { lock = Lock.free; pool = bs; guards = b ∷ p.guards })

-- `deque.pop_front()` and what follows under the mutex. An error drops the permit.
unfoldable pub pop_front : Pool → Result AppError ℕ × Pool
pop_front p = pop_from p.pool p

abbrev pub drop_under : Lock → ℕ → List ℕ → Pool → Pool
drop_under Lock.free b rest p = record p {
  guards = rest;
  pool = p.pool ++ b ∷ [];
  dropping = suc p.dropping;
}
drop_under _ b rest p = record p {
  guards = rest;
  returning = b ∷ p.returning;
  dropping = suc p.dropping;
}

-- The body of `drop` for a guard of `b` that leaves the guards `rest`: `try_lock` fails whoever else
-- holds the mutex.
unfoldable pub drop_guard : ℕ → List ℕ → Pool → Pool
drop_guard b rest p = drop_under p.lock b rest p

-- The spawned task: `push_back` under the mutex.
unfoldable pub push_back : ℕ → Pool → Pool
push_back b p = record p { lock = Lock.free; pool = p.pool ++ b ∷ [] }

-- `semaphore.close()`.
unfoldable pub close : Pool → Pool
close p = record p { closed = true }

-- The loop of `shutdown`, which keeps the mutex.
unfoldable pub drain : Pool → Pool
drain p = record p { lock = Lock.free; pool = []; shut = p.shut ++ p.pool }

-- What any task may do next.
pub data Step (p : Pool) : Pool → Type 0 where
  takes_permit : {q : Pool} → acquire_owned p ≡ some (ok q) → Step p q
  locks_to_pop :
      (n : ℕ)
      → p.lock ≡ Lock.free
      → p.waiting ≡ suc n
      → Step p (record p { lock = Lock.popping; waiting = n })
  pops : p.lock ≡ Lock.popping → Step p (pop_front p).1
  drops : (xs ys : List ℕ) (b : ℕ) → p.guards ≡ xs ++ b ∷ ys → Step p (drop_guard b (xs ++ ys) p)
  releases :
      (n : ℕ) → p.dropping ≡ suc n → Step p (record p { dropping = n; permits = suc p.permits })
  locks_to_push :
      (xs ys : List ℕ) (b : ℕ)
      → p.lock ≡ Lock.free
      → p.returning ≡ xs ++ b ∷ ys
      → Step p (record p { lock = Lock.pushing b; returning = xs ++ ys })
  pushes : (b : ℕ) → p.lock ≡ Lock.pushing b → Step p (push_back b p)
  closes : Step p (close p)
  locks_to_drain : p.lock ≡ Lock.free → p.closed ≡ true → Step p (record p { lock = Lock.draining })
  drains : p.lock ≡ Lock.draining → Step p (drain p)

-- What the pool may become after `new` has made it.
pub data Reachable (size : ℕ) : Pool → Type 0 where
  starts :
      {p : Pool} (launch : ℕ → Result AppError (Unit {0}))
      → new launch size ≡ ok p
      → Reachable size p
  goes_on : {p q : Pool} → Reachable size p → Step p q → Reachable size q

-- The browsers that a successful `new` has launched.
unfoldable pub numbered : ℕ → ℕ → List ℕ
numbered zero k = []
numbered (suc n) k = k ∷ numbered n (suc k)

launched-numbered :
    (launch : ℕ → Result AppError (Unit {0})) (n k : ℕ) {bs : List ℕ}
    → launched launch n k ≡ ok bs
    → numbered n k ≡ bs
unfolding launched numbered
launched-numbered launch zero k h = ok-injective {E = AppError} _ _ h
launched-numbered launch (suc n) k h =
    let (_, _, h1) = >>=-eq-ok (launch k) _ h in
    let (rest, e, h2) = >>=-eq-ok (launched launch n (suc k)) _ h1 in
    ap (◌∷◌ k) (launched-numbered launch n (suc k) e) ∙ ok-injective {E = AppError} _ _ h2

pub new-numbered :
    (launch : ℕ → Result AppError (Unit {0})) (size : ℕ) {p : Pool}
    → new launch size ≡ ok p
    → opened (at_least_one size) (numbered (at_least_one size) 0) ≡ p
unfolding new
new-numbered launch size h =
    let (deque, e, h1) = >>=-eq-ok (launched launch (at_least_one size) 0) _ h in
    ap (opened (at_least_one size)) (launched-numbered launch (at_least_one size) 0 e)
    ∙ ok-injective {E = AppError} _ _ h1
