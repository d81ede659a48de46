-- ===== src/Scraper/Browsers/Fetch/Examples.antt =====
-- A page whose content never comes.
use fire_ctrl.Prelude.{◌≡◌, refl, none, some, [], ◌∷◌, ok, err}
use fire_ctrl.Models.{AppError}
use fire_ctrl.Scraper.Browsers.Fetch.{Deed, Chrome, fetch_page, IsTidy, fetch_page-IsTidy}

abbrev hangs : Chrome
hangs = record {
  new_page = λ b url t. some (ok tt);
  content = λ b url t. none;
  get_title = λ b url. ok (some "never asked");
  close = λ b url. ok tt;
}

content_times_out : fetch_page hangs (ok 3) "https://a.example/" 250 30000 ≡ (
  err AppError.timeout,
  Deed.opens_page 3 "https://a.example/"
      ∷ Deed.waits_for_navigation
      ∷ Deed.sleeps 250
      ∷ Deed.reads_content
      ∷ Deed.drops_guard 3
      ∷ [],
)
unfolding fetch_page
content_times_out = refl

fetch_page-IsTidy_example :
    IsTidy 3 1
      (ok tt)
      (fetch_page hangs (ok 3) "https://a.example/" 250 30000).0
      (fetch_page hangs (ok 3) "https://a.example/" 250 30000).1
fetch_page-IsTidy_example = fetch_page-IsTidy hangs 3 "https://a.example/" 250 30000
