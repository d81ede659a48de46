-- ===== src/Scraper/Browsers/Waits.antt =====
-- The permits of the pool, and when an acquirer that has one finds a browser.
use fire_ctrl.Prelude.{
  ℕ, zero, suc, ◌+◌, ◌≡◌, refl, Bool, true, false, some, List, [], ◌∷◌, ◌++◌, Result, ok, tally,
  arith, length, length-append, ap, sym, ◌∙◌, Option,
}
use fire_ctrl.Models.{AppError}
use fire_ctrl.Scraper.Browsers.{
  Lock, Pool, at_least_one, new-numbered, acquire_if, acquire_owned, pop_from, pop_front,
  drop_under, drop_guard, push_back, close, drain, Step, Reachable,
}
use fire_ctrl.Scraper.Browsers.Exclusive.{tally_lock, everywhere-Reachable}

abbrev is_popping : Lock → ℕ
is_popping Lock.popping = 1
is_popping _ = 0

-- All permits, with whom they are.
abbrev pub all_permits : Pool → ℕ
all_permits p = p.permits + p.waiting + is_popping p.lock + length p.guards + p.dropping

length-middle :
    (xs ys zs : List ℕ) (b : ℕ) → zs ≡ xs ++ b ∷ ys → length zs ≡ suc (length (xs ++ ys))
length-middle xs ys zs b e = rw e (omega (arith, length-append xs (b ∷ ys), length-append xs ys))

acquire-all_permits :
    (c : Bool) (n : ℕ) (p : Pool) {q : Pool}
    → p.permits ≡ n
    → acquire_if c n p ≡ some (ok q)
    → all_permits q ≡ all_permits p
acquire-all_permits true n p e h = cc
acquire-all_permits false zero p e h = cc
acquire-all_permits false (suc n) p {q} e h = sym (ap placed h) ∙ omega arith
  where
    placed : Option (Result AppError Pool) → ℕ
    placed (some (ok x)) = all_permits x
    placed _ = 0

pop-all_permits :
    (l : List ℕ) (p : Pool) → p.lock ≡ Lock.popping → all_permits (pop_from l p).1 ≡ all_permits p
pop-all_permits [] p l = rw l (omega arith)
pop-all_permits (b ∷ bs) p l = rw l (omega arith)

drop-all_permits :
    (l : Lock) (p : Pool) (xs ys : List ℕ) (b : ℕ)
    → p.lock ≡ l
    → p.guards ≡ xs ++ b ∷ ys
    → all_permits (drop_under l b (xs ++ ys) p) ≡ all_permits p
drop-all_permits Lock.free p xs ys b l g = omega (arith, length-middle xs ys p.guards b g)
drop-all_permits Lock.popping p xs ys b l g = omega (arith, length-middle xs ys p.guards b g)
drop-all_permits (Lock.pushing c) p xs ys b l g = omega (arith, length-middle xs ys p.guards b g)
drop-all_permits Lock.draining p xs ys b l g = omega (arith, length-middle xs ys p.guards b g)

all_permits-Step : {p q : Pool} → Step p q → all_permits q ≡ all_permits p
unfolding acquire_owned pop_front drop_guard push_back close drain
all_permits-Step {p} (Step.takes_permit e) = acquire-all_permits p.closed p.permits p refl e
all_permits-Step {p} (Step.locks_to_pop n l w) = rw l (omega arith)
all_permits-Step {p} (Step.pops l) = pop-all_permits p.pool p l
all_permits-Step {p} (Step.drops xs ys b g) = drop-all_permits p.lock p xs ys b refl g
all_permits-Step {p} (Step.releases n d) = omega arith
all_permits-Step {p} (Step.locks_to_push xs ys b l r) = rw l refl
all_permits-Step {p} (Step.pushes b l) = rw l refl
all_permits-Step Step.closes = refl
all_permits-Step (Step.locks_to_drain l c) = rw l refl
all_permits-Step {p} (Step.drains l) = rw l refl

all_permits-Reachable : {size : ℕ} {p : Pool} → Reachable size p → all_permits p ≡ at_least_one size
all_permits-Reachable {size} (Reachable.starts launch e) =
    sym (ap all_permits (new-numbered launch size e)) ∙ omega arith
all_permits-Reachable (Reachable.goes_on r s) = all_permits-Step s ∙ all_permits-Reachable r

tally-length : (xs : List ℕ) → tally (λ c. true) xs ≡ length xs
tally-length [] = refl
tally-length (x ∷ xs) = omega (arith, tally-length xs)

pop-ok : (l : List ℕ) (p : Pool) (n : ℕ) → length l ≡ suc n → (b : ℕ) × ((pop_from l p).0 ≡ ok b)
pop-ok [] p n h = absurd (omega arith)
pop-ok (b ∷ bs) p n h = (b, refl)

-- In whatever order the tasks have run: an acquirer that has a permit and the mutex gets a browser,
-- if no spawned task still has to give one back and no shutdown has taken any.
pub pop_front-ok :
    (size : ℕ) (p : Pool)
    → Reachable size p
    → p.lock ≡ Lock.popping
    → p.returning ≡ []
    → p.shut ≡ []
    → (b : ℕ) × ((pop_front p).0 ≡ ok b)
unfolding pop_front
pop_front-ok size p r l t s = pop-ok p.pool p (p.permits + p.waiting + p.dropping) (
    many p.pool p.guards p.returning p.shut p.lock p.permits p.waiting p.dropping l t s
      ((everywhere-Reachable size p 0 r).1 ∙ sym (all_permits-Reachable r)))
  where
    many :
        (pool guards returning shut : List ℕ) (lock : Lock) (a w d : ℕ)
        → lock ≡ Lock.popping
        → returning ≡ []
        → shut ≡ []
        → tally (λ c. true) pool
            + tally (λ c. true) guards
            + tally (λ c. true) returning
            + tally (λ c. true) shut
            + tally_lock (λ c. true) lock
          ≡ a + w + is_popping lock + length guards + d
        → length pool ≡ suc (a + w + d)
    many pool guards returning shut lock a w d l t s e =
        omega (arith, tally-length pool, tally-length guards, (rw (l, t, s) at e))
