-- ===== src/Scraper/Robots/Examples.antt =====
-- A host whose rules are fetched once.
use fire_ctrl.Prelude.{
  ◌≤◌, String, ◌≡◌, refl, Bool, true, false, Option, none, some, [], ◌∷◌, arith, length, str_eq,
  str_eq_iff, Result, ok, err,
}
use fire_ctrl.Scraper.Robots.{
  Response, Cache, Target, PicksKey, cached, is_allowed_by_robots, is_allowed_by_robots-cached,
}

abbrev site : String → Result String Response
site url = ok (record { status = 200; content_type = some "text/plain"; body = ok "Disallow: /p" })

abbrev down : String → Result String Response
down url = err "timeout"

-- Only the page `/p` is forbidden.
abbrev not_p : String → String → String → Bool
not_p text agent url = elim (str_eq url "https://a.example/p") [ true ↦ false | false ↦ true ]

abbrev first_key : Cache → Option String
first_key [] = none
first_key (e ∷ es) = some e.0

first_key-PicksKey : PicksKey first_key
unfolding cached
first_key-PicksKey [] h = absurd (omega arith)
first_key-PicksKey (e ∷ es) h = (e.0, refl, rw ((str_eq_iff e.0 e.0).1 refl) refl)

abbrev alone : Cache → Cache
alone cache = cache

abbrev home : Target
home = record { scheme = "https"; host = some "a.example"; text = "https://a.example/" }

abbrev forbidden : Target
forbidden = record { scheme = "https"; host = some "a.example"; text = "https://a.example/p" }

none_yet : cached "a.example" [] ≡ none
unfolding cached
none_yet = refl

is_allowed_by_robots-cached_example :
    (length (is_allowed_by_robots site not_p first_key alone true "fire" home []).1 ≤ 1000)
    × (is_allowed_by_robots down not_p first_key alone true "fire" forbidden
          (is_allowed_by_robots site not_p first_key alone true "fire" home []).1
        ≡ (false, (is_allowed_by_robots site not_p first_key alone true "fire" home []).1))
is_allowed_by_robots-cached_example =
    is_allowed_by_robots-cached site down not_p first_key alone alone "fire" home forbidden []
      "Disallow: /p" first_key-PicksKey (omega arith) refl none_yet refl
