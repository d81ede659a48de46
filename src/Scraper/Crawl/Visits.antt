-- ===== src/Scraper/Crawl/Visits.antt =====
-- No crawl scrapes a URL twice: the results have distinct URLs.
use fire_ctrl.Prelude.{
  ℕ, suc, String, ◌≡◌, ◌⊎◌, refl, subst, true, false, List, [], ◌∷◌, ◌++◌, arith, All, All-map,
  Bool-cases, inl, inr, str_eq, str_eq_iff, ok, ok-injective,
}
use fire_ctrl.Models.{AppError, ScrapeResult}
use fire_ctrl.Scraper.Page.{Web, CrawlerConfig}
use fire_ctrl.Scraper.Crawl.{
  CrawlParams, seen, enqueue_new, child_links, stripped, crawl_loop, with_root, seeds, crawl,
}
use fire_ctrl.Scraper.Crawl.Bounds.{next_frontier, crawl_loop_induction, page-url}
use fire_ctrl.Scraper.Crawl.Frontier.{
  urls_of, DistinctTexts, IsFrontier, IsExtension, enqueue_new-IsExtension, Origin, result_urls,
  not-seen_of_All, next-IsFrontier, Origin-earlier, Origin-other,
}

module _ (w : Web) (cfg : CrawlerConfig) (p : CrawlParams) (base_host : String) where
  abbrev IsVisitedOnce : ℕ → List (String × ℕ) → List String → List ScrapeResult → Type 0
  IsVisitedOnce room q v rs =
      IsFrontier q v → DistinctTexts (result_urls rs) × All (λ r. Origin q v r.url) rs

  page-IsVisitedOnce :
      (url : String) (d : ℕ) (q : List (String × ℕ)) (v : List String) (r : ScrapeResult)
      (rs : List ScrapeResult) (new : List (String × ℕ)) (v' : List String)
      → IsExtension v new v'
      → r.url ≡ url
      → IsVisitedOnce 0 (q ++ new) v' rs
      → IsVisitedOnce 0 ((url, d) ∷ q) v (r ∷ rs)
  page-IsVisitedOnce url d q v r rs new v' ext e ih front =
      let (distinct, origins) = ih (next-IsFrontier url d q new v v' front ext) in
      (
        (
          rw e (
              not-seen_of_All url rs (
                All-map (λ s. Origin (q ++ new) v' s.url) (λ s. str_eq s.url url ≡ false) rs
                  (λ s o. Origin-other url d q new v v' front ext s.url o) origins)),
          distinct,
        ),
        (
          inl (rw e (ground (arith, str_eq_iff url url))),
          All-map (λ s. Origin (q ++ new) v' s.url) (λ s. Origin ((url, d) ∷ q) v s.url) rs
              (λ s o. Origin-earlier url d q new v v' front ext s.url o) origins,
        ),
      )

  crawl_loop-visits :
      (room : ℕ) (q : List (String × ℕ)) (v : List String)
      → IsVisitedOnce room q v (crawl_loop w cfg p base_host room q v)
  crawl_loop-visits =
      crawl_loop_induction w cfg p base_host IsVisitedOnce (λ room v front. (tt, tt))
        (λ x q v front. (tt, tt))
        (λ room url d q v rs ih front. skipped url d q v rs front (ih (rest url d q v front)))
        (λ room url d q v r rs f e ih front.
          page-IsVisitedOnce url d q v (stripped w cfg p base_host r) rs
            (next_frontier w cfg p base_host url d r v).0
            (next_frontier w cfg p base_host url d r v).1
            (enqueue_new-IsExtension (child_links w cfg p base_host url d r.raw_html) (suc d) v)
            (page-url w cfg p base_host url d r e) ih front)
    where
      rest :
          (url : String) (d : ℕ) (q : List (String × ℕ)) (v : List String)
          → IsFrontier ((url, d) ∷ q) v
          → IsFrontier q v
      rest url d q v front = record {
        distinct = front.distinct.1;
        visited = λ u h. front.visited u (ground arith);
      }

      earlier :
          (url u : String) (d : ℕ) (q : List (String × ℕ)) (v : List String)
          → Origin q v u
          → Origin ((url, d) ∷ q) v u
      earlier url u d q v (inl h) = inl (ground arith)
      earlier url u d q v (inr h) = inr h

      skipped :
          (url : String) (d : ℕ) (q : List (String × ℕ)) (v : List String) (rs : List ScrapeResult)
          → IsFrontier ((url, d) ∷ q) v
          → DistinctTexts (result_urls rs) × All (λ r. Origin q v r.url) rs
          → DistinctTexts (result_urls rs) × All (λ r. Origin ((url, d) ∷ q) v r.url) rs
      skipped url d q v rs front (h, o) = (
        h,
        All-map (λ r. Origin q v r.url) (λ r. Origin ((url, d) ∷ q) v r.url) rs
            (λ r k. earlier url r.url d q v k) o,
      )

with_root-IsFrontier :
    (root : String) (q : List (String × ℕ)) (v : List String)
    → IsFrontier q v
    → IsFrontier (with_root root (q, v)).0 (with_root root (q, v)).1
with_root-IsFrontier root q v front = elim (Bool-cases (seen root v)) [
  | inl e ↦ rw e front
  | inr e ↦ rw e (record {
    distinct = (apart e, front.distinct);
    visited = λ u h. reached u (Bool-cases (str_eq root u)) h;
  })
]
  where
    apart : seen root v ≡ false → seen root (urls_of q) ≡ false
    apart e = elim (Bool-cases (seen root (urls_of q))) [
      | inl k ↦ absurd (let f = front.visited root k in ground arith)
      | inr k ↦ k
    ]

    reached :
        (u : String)
        → (str_eq root u ≡ true) ⊎ (str_eq root u ≡ false)
        → seen u (root ∷ urls_of q) ≡ true
        → seen u (root ∷ v) ≡ true
    reached u (inl k) h = rw k refl
    reached u (inr k) h = rw k (front.visited u (rw k at h))

seeds-IsFrontier :
    (p : CrawlParams) (sitemap_urls : List String)
    → IsFrontier (seeds p sitemap_urls).0 (seeds p sitemap_urls).1
seeds-IsFrontier p sitemap_urls = elim (Bool-cases p.ignore_sitemap) [
  | inl e ↦
      simp e (with_root-IsFrontier p.root_url [] [] (record { distinct = tt; visited = λ u h. h }))
  | inr e ↦
      let ext = enqueue_new-IsExtension sitemap_urls 1 [] in
      simp e (
        with_root-IsFrontier p.root_url (enqueue_new sitemap_urls 1 []).0
          (enqueue_new sitemap_urls 1 []).1
          (record { distinct = ext.distinct; visited = ext.added }))
]

-- The pages that a crawl returns have distinct URLs, whatever links and sitemap entries repeat.
pub crawl-distinct :
    (w : Web) (cfg : CrawlerConfig) (p : CrawlParams) (sitemap_urls : List String)
    (base_host : String) (rs : List ScrapeResult)
    → w.host p.root_url ≡ ok base_host
    → crawl w cfg p sitemap_urls ≡ ok rs
    → DistinctTexts (result_urls rs)
unfolding crawl
crawl-distinct w cfg p sitemap_urls base_host rs host h =
    subst (λ (l : List ScrapeResult). DistinctTexts (result_urls l))
      (ok-injective {E = AppError} _ _ (rw host at h))
      (let start = seeds p sitemap_urls in
        (crawl_loop-visits w cfg p base_host p.limit start.0 start.1
          (seeds-IsFrontier p sitemap_urls)).0)
