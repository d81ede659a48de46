-- ===== src/Scraper/Discovery.antt =====
-- `Scraper::map_urls` of src/scraper.rs.
pub mod Distinct
use Prim.Native.String.{[] as empty, ◌∷◌ as cons, ◌++◌ as text_append}
use fire_ctrl.Prelude.{
  ℕ, zero, suc, ◌≤◌, String, ◌≡◌, ◌∙◌, refl, sym, Bool, true, false, not, ◌&&◌, ◌||◌, Option, none,
  some, List, [], ◌∷◌, ◌++◌, arith, length, take, keep, any, length-take-le, All, leb, str_eq,
  str_eq_iff, Bool-cases, inl, inr, Result, ok, err, ◌>>=◌, map_err, subst, ok-injective, >>=-eq-ok,
  if◌then◌else◌,
}
use fire_ctrl.Prelude.Text.{contains}
use fire_ctrl.Models.{AppError}
use fire_ctrl.Scraper.Page.{Web, extract_links}
use fire_ctrl.Scraper.Crawl.{seen}
use fire_ctrl.Scraper.Crawl.Frontier.{DistinctTexts}

pub record MapParams : Type 0 where
  pub root_url : String
  pub search : Option String
  pub ignore_sitemap : Bool
  pub include_subdomains : Bool
  pub limit : ℕ

-- `str::ends_with`.
ends_with : String → String → Bool
ends_with p empty = str_eq p ""
ends_with p (cons c s) = str_eq p (cons c s) || ends_with p s

-- The set `found` and the list `urls`.
pub record Discovered : Type 0 where
  pub found : List String
  pub urls : List String

abbrev push : String → Discovered → Discovered
push u s = record { found = u ∷ s.found; urls = s.urls ++ u ∷ [] }

-- The loop over the sitemap's URLs.
add_all : List String → Discovered → Discovered
add_all [] s = s
add_all (u ∷ us) s = add_all us (if seen u s.found then s else push u s)

abbrev host_ok : Bool → String → Result String String → Bool
host_ok include_subdomains base_host (err e) = false
host_ok true base_host (ok h) = str_eq h base_host || ends_with (text_append "." base_host) h
host_ok false base_host (ok h) = str_eq h base_host

-- The loop over the links of the root, left when the limit is reached.
add_links : Web → MapParams → String → List String → Discovered → Discovered
unfolding ends_with
add_links w p base_host [] s = s
add_links w p base_host (u ∷ us) s =
    elim (host_ok p.include_subdomains base_host (w.host u) && not (seen u s.found)) [
      | false ↦ add_links w p base_host us s
      | true ↦ elim (leb p.limit (length (push u s).urls)) [
        | true ↦ push u s
        | false ↦ add_links w p base_host us (push u s)
      ]
    ]

abbrev pub matches : (String → String) → Option String → String → Bool
unfolding contains
matches lower none u = true
matches lower (some q) u = contains (lower q) (lower u)

abbrev from_root : Web → MapParams → String → Discovered → Discovered
unfolding add_links extract_links
from_root w p base_host s = elim (w.fetch p.root_url) [
  | ok reply ↦ add_links w p base_host (extract_links w reply.2 p.root_url) s
  | err e ↦ s
]

-- `lower` is `str::to_lowercase`; `sitemap_urls` is what `fetch_sitemap_urls` collects.
unfoldable pub map_urls :
    (String → String) → Web → MapParams → List String → Result AppError (List String)
unfolding add_all from_root matches
map_urls lower w p sitemap_urls = do
  base_host ← map_err AppError.invalid_url (w.host p.root_url)
  let start =
      if p.ignore_sitemap
      then record { found = []; urls = [] }
      else add_all sitemap_urls (record { found = []; urls = [] })
  ok (take p.limit (keep (matches lower p.search) (from_root w p base_host start).urls))
