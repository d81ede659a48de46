-- ===== src/Api/Search/Bounds.antt =====
-- How much a search answers with, and which links the scan of a result page keeps.
use mathlib.Core.List.{Permᴰ}
use fire_ctrl.Prelude.{
  ℕ, zero, suc, ◌-◌, ◌≤◌, max, String, ◌≡◌, refl, Option, none, some, List, [], ◌∷◌, ◌∙◌, ap, sym,
  map, filter_map, keep, first, take, leb, length, All, arith, length-take-le, Result, ok, err,
  >>=-eq-ok, ok-injective, subst, leb→le, leb-false→lt, ◌<◌, Bool-cases, Option-cases, inl, inr,
  not,
}
use fire_ctrl.Prelude.Text.{take_chars, char_count, char_count-take_chars-le}
use fire_ctrl.Prelude.Lines.{lines}
use fire_ctrl.Models.{AppError, ScrapeResult}
use fire_ctrl.Scraper.Page.{Web, CrawlerConfig, scrape}
use fire_ctrl.Llm.Rank.{rank_by_relevance}
use fire_ctrl.Api.Gate.{AuthConfig, check_auth}
use fire_ctrl.Api.Snapshot.{Limits, check_resources}
use fire_ctrl.Api.Search.{
  SearchRequest, SearchWebResult, SearchResponse, SearchConfig, Texts, google_target, google_urls,
  engine_urls, search_urls, search_job, describe, found_page, is_blank, search_task, search_handler,
}

take-nil : (n : ℕ) → take {A = String} n [] ≡ []
take-nil zero = refl
take-nil (suc n) = refl

google_urls-from :
    (t : Texts) (limit found : ℕ) (hs : List String)
    → google_urls t limit found hs ≡ take (max (limit - found) 1) (filter_map (google_target t) hs)
unfolding google_urls
google_urls-from t limit found [] = sym (take-nil (max (limit - found) 1))
google_urls-from t limit found (h ∷ hs) = elim (Option-cases (google_target t h)) [
  | inl e ↦ rw (google_urls, filter_map, e) (google_urls-from t limit found hs)
  | inr (u, e) ↦ elim (Bool-cases (leb limit (suc found))) [
    | inl b ↦
        rw (google_urls, filter_map, e, b)
          (subst (λ n. u ∷ [] ≡ take n (u ∷ filter_map (google_target t) hs))
            (at_end limit found (leb→le limit (suc found) b)) refl)
    | inr b ↦
        rw (google_urls, filter_map, e, b)
          (subst
            (λ n.
              u ∷ google_urls t limit (suc found) hs ≡ take n (u ∷ filter_map (google_target t) hs))
            (not_yet limit found (leb-false→lt limit (suc found) b))
            (ap (◌∷◌ u) (google_urls-from t limit (suc found) hs)))
  ]
]
  where
    at_end : (limit found : ℕ) → limit ≤ suc found → 1 ≡ max (limit - found) 1
    at_end limit found h = omega arith

    not_yet :
        (limit found : ℕ)
        → suc found < limit
        → suc (max (limit - suc found) 1) ≡ max (limit - found) 1
    not_yet limit found h = omega arith

-- The scan of a result page keeps the first links that lead to a URL, in their order: as many as the
-- limit, and one where the limit is 0.
pub google_urls-take :
    (t : Texts) (limit : ℕ) (hs : List String)
    → google_urls t limit 0 hs ≡ take (max limit 1) (filter_map (google_target t) hs)
google_urls-take t limit hs =
    subst (λ n. google_urls t limit 0 hs ≡ take n (filter_map (google_target t) hs))
      (none_found limit) (google_urls-from t limit 0 hs)
  where
    none_found : (limit : ℕ) → max (limit - 0) 1 ≡ max limit 1
    none_found limit = omega arith

module _ {A : Type 0} where
  length-filter_map-le : (xs : List (Option A)) → length (filter_map (λ x. x) xs) ≤ length xs
  length-filter_map-le [] = omega arith
  length-filter_map-le (none ∷ xs) = omega (arith, length-filter_map-le xs)
  length-filter_map-le (some x ∷ xs) = omega (arith, length-filter_map-le xs)

  length-Permᴰ : {xs ys : List A} → Permᴰ xs ys → length xs ≡ length ys
  length-Permᴰ Permᴰ.nil = refl
  length-Permᴰ (Permᴰ.cons e p) = omega (arith, length-Permᴰ p)
  length-Permᴰ (Permᴰ.swap e f) = omega arith
  length-Permᴰ (Permᴰ.trans p q) = length-Permᴰ p ∙ length-Permᴰ q

  All-Permᴰ : (P : A → Type 0) {xs ys : List A} → Permᴰ xs ys → All P xs → All P ys
  All-Permᴰ P Permᴰ.nil h = tt
  All-Permᴰ P (Permᴰ.cons e p) h = (subst P e h.0, All-Permᴰ P p h.1)
  All-Permᴰ P (Permᴰ.swap e f) h = (subst P f h.1.0, (subst P e h.0, h.1.1))
  All-Permᴰ P (Permᴰ.trans p q) h = All-Permᴰ P q (All-Permᴰ P p h)

  All-filter_map :
      (P : A → Type 0) (Q : Option A → Type 0) (xs : List (Option A))
      → ((x : A) → Q (some x) → P x)
      → All Q xs
      → All P (filter_map (λ x. x) xs)
  All-filter_map P Q [] f h = tt
  All-filter_map P Q (none ∷ xs) f h = All-filter_map P Q xs f h.1
  All-filter_map P Q (some x ∷ xs) f h = (f x h.0, All-filter_map P Q xs f h.1)

length-map : {A B : Type 0} (f : A → B) (xs : List A) → length (map f xs) ≡ length xs
length-map f [] = refl
length-map f (x ∷ xs) = omega (arith, length-map f xs)

-- What a page of the answer shows of the page that was scraped.
abbrev pub IsShort : Option String → Type 0
IsShort none = Unit
IsShort (some d) = char_count d ≤ 180

describe-IsShort : (m : Option String) → IsShort (describe m)
unfolding describe
describe-IsShort none = tt
describe-IsShort (some m) = go (first (keep (λ l. not (is_blank l)) (lines m)))
  where
    go :
        (o : Option String)
        → IsShort
            (let d : Option String = elim o [ none ↦ none | some l ↦ some (take_chars 180 l) ] in d)
    go none = tt
    go (some l) = char_count-take_chars-le 180 l

abbrev IsShown : Option SearchWebResult → Type 0
IsShown none = Unit
IsShown (some r) = IsShort r.description

search_task-IsShown :
    (w : Web) (crawler : CrawlerConfig) (req : SearchRequest) (url : String)
    → IsShown (search_task w crawler req url)
unfolding search_task
search_task-IsShown w crawler req url = go (scrape w crawler (search_job req url))
  where
    go : (r : Result AppError ScrapeResult) → IsShown (found_page r)
    go (err e) = tt
    go (ok r) = describe-IsShort r.markdown

All-tasks :
    (w : Web) (crawler : CrawlerConfig) (req : SearchRequest) (urls : List String)
    → All IsShown (map (search_task w crawler req) urls)
All-tasks w crawler req [] = tt
All-tasks w crawler req (u ∷ us) = (search_task-IsShown w crawler req u, All-tasks w crawler req us)

-- The pages of an answer: at most as many as were asked for, each with a short description.
abbrev pub IsAnswer : ℕ → Option (List SearchWebResult) → Type 0
IsAnswer limit none = ⊥
IsAnswer limit (some pages) = (length pages ≤ limit) × All (λ p. IsShort p.description) pages

-- A search that succeeds, whichever engine it asks and in whatever order its scrapes end, answers
-- with at most as many pages as the request's limit, and no description has more than 180 characters.
pub search_handler-IsAnswer :
    (t : Texts) (w : Web) (crawler : CrawlerConfig) (cfg : SearchConfig) (auth : AuthConfig)
    (limits : Limits) (resources : ℕ)
    (finish : List (Option SearchWebResult) → List (Option SearchWebResult))
    (authorization : Option String) (req : SearchRequest) (r : SearchResponse)
    → ((xs : List (Option SearchWebResult)) → Permᴰ xs (finish xs))
    → search_handler t w crawler cfg auth limits resources finish authorization req ≡ ok r
    → IsAnswer req.limit r.found.web
unfolding search_handler search_urls
search_handler-IsAnswer t w crawler cfg auth limits resources finish authorization req r joins h =
    let (_, _, h1) = >>=-eq-ok (check_auth authorization auth) _ h in
    let (_, _, h2) = >>=-eq-ok (check_resources limits resources) _ h1 in
    let (urls, e, h3) = >>=-eq-ok (search_urls t w cfg req) _ h2 in
    let (found, _, e2) = >>=-eq-ok (engine_urls t w cfg req) _ e in
    subst (λ (x : SearchResponse). IsAnswer req.limit x.found.web)
      (ok-injective {E = AppError} _ _ h3)
      (answer urls (
        subst (λ us. length us ≤ req.limit) (ok-injective {E = AppError} _ _ e2)
          (length-take-le req.limit (rank_by_relevance t.lower t.words found req.query))))
  where
    answer :
        (urls : List String)
        → length urls ≤ req.limit
        → IsAnswer req.limit
            (some (filter_map (λ x. x) (finish (map (search_task w crawler req) urls))))
    answer urls k =
        let tasks = map (search_task w crawler req) urls in
        (
          omega (
            arith,
            length-filter_map-le (finish tasks),
            length-Permᴰ (joins tasks),
            length-map (search_task w crawler req) urls,
          ),
          All-filter_map (λ p. IsShort p.description) IsShown (finish tasks) (λ x q. q)
              (All-Permᴰ IsShown (joins tasks) (All-tasks w crawler req urls)),
        )
