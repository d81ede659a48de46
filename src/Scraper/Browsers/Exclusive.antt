-- ===== src/Scraper/Browsers/Exclusive.antt =====
-- Every browser is in one place: no two guards share one, and none is lost.
use fire_ctrl.Prelude.{
  ℕ, zero, suc, ◌+◌, ◌≤◌, ◌≡◌, refl, Bool, true, false, Option, some, List, [], ◌∷◌, ◌++◌, Result,
  ok, tally, ◌==◌, arith, if◌then◌else◌, sym, ap, subst, ◌∙◌, ◌<◌, ==_iff,
}
use fire_ctrl.Models.{AppError}
use fire_ctrl.Scraper.Browsers.{
  Lock, Pool, numbered, new-numbered, at_least_one, acquire_if, acquire_owned, pop_from, pop_front,
  drop_under, drop_guard, push_back, close, drain, Step, Reachable,
}

abbrev pub tally_lock : (ℕ → Bool) → Lock → ℕ
tally_lock t (Lock.pushing b) = if t b then 1 else 0
tally_lock t _ = 0

-- How many browsers pass the test, wherever they are.
abbrev pub everywhere : (ℕ → Bool) → Pool → ℕ
everywhere t p =
    tally t p.pool + tally t p.guards + tally t p.returning + tally t p.shut + tally_lock t p.lock

module _ (t : ℕ → Bool) where
  tally-append : (xs ys : List ℕ) → tally t (xs ++ ys) ≡ tally t xs + tally t ys
  tally-append [] ys = omega arith
  tally-append (x ∷ xs) ys = ground (arith, tally-append xs ys)

  -- What is taken from the middle of a list.
  tally-middle :
      (xs ys zs : List ℕ) (b : ℕ)
      → zs ≡ xs ++ b ∷ ys
      → tally t zs ≡ tally t (b ∷ []) + tally t (xs ++ ys)
  tally-middle xs ys zs b e = rw e (ground (arith, tally-append xs (b ∷ ys), tally-append xs ys))

  acquire-everywhere :
      (c : Bool) (n : ℕ) (p : Pool) {q : Pool}
      → acquire_if c n p ≡ some (ok q)
      → everywhere t q ≡ everywhere t p
  acquire-everywhere true n p h = cc
  acquire-everywhere false zero p h = cc
  acquire-everywhere false (suc n) p {q} h =
      sym (ap (λ (o : Option (Result AppError Pool)). placed o) h)
    where
      placed : Option (Result AppError Pool) → ℕ
      placed (some (ok x)) = everywhere t x
      placed _ = 0

  pop-everywhere :
      (l : List ℕ) (p : Pool)
      → p.lock ≡ Lock.popping
      → p.pool ≡ l
      → everywhere t (pop_from l p).1 ≡ everywhere t p
  pop-everywhere [] p l e = rw (l) (omega arith)
  pop-everywhere (b ∷ bs) p l e = rw (l, e) (ground arith)

  drop-everywhere :
      (l : Lock) (p : Pool) (xs ys : List ℕ) (b : ℕ)
      → p.lock ≡ l
      → p.guards ≡ xs ++ b ∷ ys
      → everywhere t (drop_under l b (xs ++ ys) p) ≡ everywhere t p
  drop-everywhere Lock.free p xs ys b l g =
      omega (arith, tally-middle xs ys p.guards b g, tally-append p.pool (b ∷ []))
  drop-everywhere Lock.popping p xs ys b l g = ground (arith, tally-middle xs ys p.guards b g)
  drop-everywhere (Lock.pushing c) p xs ys b l g = ground (arith, tally-middle xs ys p.guards b g)
  drop-everywhere Lock.draining p xs ys b l g = ground (arith, tally-middle xs ys p.guards b g)

  everywhere-Step : {p q : Pool} → Step p q → everywhere t q ≡ everywhere t p
  unfolding acquire_owned pop_front drop_guard push_back close drain
  everywhere-Step {p} (Step.takes_permit e) = acquire-everywhere p.closed p.permits p e
  everywhere-Step {p} (Step.locks_to_pop n l w) = rw l (omega arith)
  everywhere-Step {p} (Step.pops l) = pop-everywhere p.pool p l refl
  everywhere-Step {p} (Step.drops xs ys b g) = drop-everywhere p.lock p xs ys b refl g
  everywhere-Step {p} (Step.releases n d) = refl
  everywhere-Step {p} (Step.locks_to_push xs ys b l r) =
      rw l (ground (arith, tally-middle xs ys p.returning b r))
  everywhere-Step {p} (Step.pushes b l) = rw l (ground (arith, tally-append p.pool (b ∷ [])))
  everywhere-Step Step.closes = refl
  everywhere-Step (Step.locks_to_drain l c) = rw l refl
  everywhere-Step {p} (Step.drains l) = rw l (omega (arith, tally-append p.shut p.pool))

  pub same_everywhere :
      {size : ℕ} {p : Pool}
      → Reachable size p
      → everywhere t p ≡ tally t (numbered (at_least_one size) 0)
  same_everywhere {size} (Reachable.starts launch e) =
      sym (ap (everywhere t) (new-numbered launch size e)) ∙ omega arith
  same_everywhere (Reachable.goes_on r s) = everywhere-Step s ∙ same_everywhere r

-- A launched browser has one number of its own.
tally-numbered-later : (b n k : ℕ) → b < k → tally (λ c. c == b) (numbered n k) ≡ 0
unfolding numbered
tally-numbered-later b zero k h = refl
tally-numbered-later b (suc n) k h = ground (arith, tally-numbered-later b n (suc k) (omega arith))

tally-numbered-le : (b n k : ℕ) → tally (λ c. c == b) (numbered n k) ≤ 1
unfolding numbered
tally-numbered-le b zero k = omega arith
tally-numbered-le b (suc n) k =
    ground (arith, tally-numbered-le b n (suc k), ==_iff k b, tally-numbered-later b n (suc k))

pub tally-numbered-all : (n k : ℕ) → tally (λ c. true) (numbered n k) ≡ n
unfolding numbered
tally-numbered-all zero k = refl
tally-numbered-all (suc n) k = omega (arith, tally-numbered-all n (suc k))

-- Whatever tasks acquire, give back and shut down, and in whatever order they get the semaphore and
-- the mutex: no browser is in two places, be it the deque, a guard, a task that gives it back or the
-- shutdown, so no two guards share one; and all the browsers, at least one, are still there.
pub everywhere-Reachable :
    (size : ℕ) (p : Pool) (b : ℕ)
    → Reachable size p
    → (everywhere (λ c. c == b) p ≤ 1) × (everywhere (λ c. true) p ≡ at_least_one size)
everywhere-Reachable size p b r = (
  subst (λ n. n ≤ 1) (sym (same_everywhere (λ c. c == b) r))
      (omega (arith, tally-numbered-le b (at_least_one size) 0)),
  same_everywhere (λ c. true) r ∙ omega (arith, tally-numbered-all (at_least_one size) 0),
)
