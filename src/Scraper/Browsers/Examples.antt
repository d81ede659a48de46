-- ===== src/Scraper/Browsers/Examples.antt =====
-- A pool of two browsers: a schedule in which all goes well, and one in which a guard is dropped
-- while another acquirer pops.
use fire_ctrl.Prelude.{ℕ, ◌≤◌, ◌≡◌, refl, true, [], ◌∷◌, Result, ok, err, ◌==◌}
use fire_ctrl.Models.{AppError}
use fire_ctrl.Scraper.Browsers.{
  Lock, Pool, new, opened, pop_front, drop_guard, acquire_owned, Step, Reachable,
}
use fire_ctrl.Scraper.Browsers.Exclusive.{everywhere, everywhere-Reachable}
use fire_ctrl.Scraper.Browsers.Waits.{pop_front-ok}

abbrev launches : ℕ → Result AppError (Unit {0})
launches n = ok tt

abbrev two : Pool
two = opened 2 (0 ∷ 1 ∷ [])

-- One browser is out, and the next acquirer has the mutex.
abbrev second_pops : Pool
second_pops = record two { pool = 1 ∷ []; permits = 0; lock = Lock.popping; guards = 0 ∷ [] }

two_opens : new launches 2 ≡ ok two
unfolding new
two_opens = refl

two-Reachable : Reachable 2 two
two-Reachable = Reachable.starts launches two_opens

second_pops-Reachable : Reachable 2 second_pops
unfolding acquire_owned pop_front
second_pops-Reachable =
    Reachable.goes_on
      (Reachable.goes_on
        (Reachable.goes_on
          (Reachable.goes_on (Reachable.goes_on two-Reachable (Step.takes_permit refl))
            (Step.locks_to_pop 0 refl refl))
          (Step.pops refl))
        (Step.takes_permit refl))
      (Step.locks_to_pop 0 refl refl)

everywhere-Reachable_example :
    (everywhere (λ c. c == 0) second_pops ≤ 1) × (everywhere (λ c. true) second_pops ≡ 2)
everywhere-Reachable_example = everywhere-Reachable 2 second_pops 0 second_pops-Reachable

pop_front-ok_example : (b : ℕ) × ((pop_front second_pops).0 ≡ ok b)
pop_front-ok_example = pop_front-ok 2 second_pops second_pops-Reachable refl refl refl

-- The first guard is dropped meanwhile: its permit is there at once, its browser is not, and the
-- third acquirer, which comes before the spawned task, finds the deque empty.
abbrev third_pops : Pool
third_pops = record two {
  pool = [];
  permits = 0;
  lock = Lock.popping;
  guards = 1 ∷ [];
  returning = 0 ∷ [];
}

third_pops-Reachable : Reachable 2 third_pops
unfolding acquire_owned pop_front drop_guard
third_pops-Reachable =
    Reachable.goes_on
      (Reachable.goes_on
        (Reachable.goes_on
          (Reachable.goes_on (Reachable.goes_on second_pops-Reachable (Step.drops [] [] 0 refl))
            (Step.releases 0 refl))
          (Step.pops refl))
        (Step.takes_permit refl))
      (Step.locks_to_pop 0 refl refl)

third_finds_nothing :
    (pop_front third_pops).0
    ≡ err (AppError.scraper "Browser pool invariant violated: permit acquired but pool empty")
unfolding pop_front
third_finds_nothing = refl
