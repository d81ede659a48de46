-- ===== src/Scraper/Crawl/Bounds.antt =====
-- Induction along the crawl loop, and the bounds and filters of the crawl's results.
use fire_ctrl.Prelude.{
  ℕ, zero, suc, ◌≤◌, String, ◌≡◌, ◌⊎◌, ◌∙◌, refl, ap, Bool, true, false, none, List, [], ◌∷◌, ◌++◌,
  arith, All, All-map, subst, not, ◌&&◌, any, length, Bool-cases, inl, inr, str_eq, str_eq_iff,
  Result, ok, err, Result-cases, ok-injective, if◌then◌else◌,
}
use fire_ctrl.Prelude.Text.{contains}
use fire_ctrl.Models.{AppError, ScrapeResult}
use fire_ctrl.Scraper.Page.{Web, CrawlerConfig, is_raw_html, is_nil, or_markdown, scrape-url}
use fire_ctrl.Scraper.Crawl.{
  CrawlParams, filtered_out, enqueue_new, page_job, bfs_formats, formats, child_links, stripped,
  scrape_page, crawl_loop, seeds, crawl,
}

module _ (w : Web) (cfg : CrawlerConfig) (p : CrawlParams) (base_host : String) where
  -- What one page adds: the frontier after it.
  abbrev pub next_frontier :
      String → ℕ → ScrapeResult → List String → List (String × ℕ) × List String
  next_frontier url depth r visited =
      enqueue_new (child_links w cfg p base_host url depth r.raw_html) (suc depth) visited

module _ (w : Web) (cfg : CrawlerConfig) (p : CrawlParams) (base_host : String)
    (P : ℕ → List (String × ℕ) → List String → List ScrapeResult → Type 0)
    (done : (room : ℕ) (v : List String) → P room [] v [])
    (full : (x : String × ℕ) (q : List (String × ℕ)) (v : List String) → P zero (x ∷ q) v [])
    (skip : (room : ℕ) (url : String) (depth : ℕ) (q : List (String × ℕ)) (v : List String)
        (rs : List ScrapeResult)
      → P (suc room) q v rs
      → P (suc room) ((url, depth) ∷ q) v rs)
    (page : (room : ℕ) (url : String) (depth : ℕ) (q : List (String × ℕ)) (v : List String)
        (r : ScrapeResult) (rs : List ScrapeResult)
      → filtered_out w p base_host url ≡ false
      → scrape_page w cfg p base_host url depth ≡ ok r
      → P room
          (q ++ (next_frontier w cfg p base_host url depth r v).0)
          (next_frontier w cfg p base_host url depth r v).1
          rs
      → P (suc room) ((url, depth) ∷ q) v (stripped w cfg p base_host r ∷ rs)) where
  pub crawl_loop_induction :
      (room : ℕ) (q : List (String × ℕ)) (v : List String)
      → P room q v (crawl_loop w cfg p base_host room q v)
  unfolding crawl_loop
  crawl_loop_induction room [] v = done room v
  crawl_loop_induction zero (x ∷ q) v = full x q v
  crawl_loop_induction (suc room) ((url, depth) ∷ q) v =
      elim (Bool-cases (filtered_out w p base_host url)) [
        | inl e ↦
            rw (e, crawl_loop)
              (skip room url depth q v (crawl_loop w cfg p base_host (suc room) q v)
                (crawl_loop_induction (suc room) q v))
        | inr e ↦ elim (Result-cases (scrape_page w cfg p base_host url depth)) [
          | inl (r, k) ↦
              let f = next_frontier w cfg p base_host url depth r v in
              rw (e, crawl_loop)
                (rw (k, crawl_loop)
                  (page room url depth q v r (crawl_loop w cfg p base_host room (q ++ f.0) f.1) e k
                    (crawl_loop_induction room (q ++ f.0) f.1)))
          | inr (x, k) ↦
              rw (e, crawl_loop)
                (rw (k, crawl_loop)
                  (skip room url depth q v (crawl_loop w cfg p base_host (suc room) q v)
                    (crawl_loop_induction (suc room) q v)))
        ]
      ]

-- What a crawled URL satisfies: an include path occurs in it if there are any, no exclude path does,
-- and its host is the root's unless external links are allowed or it does not parse.
pub record IsWanted (w : Web) (p : CrawlParams) (base_host url : String) : Type 0 where
  pub included : (p.include_paths ≡ []) ⊎ (any (λ s. contains s url) p.include_paths ≡ true)
  pub not_excluded : any (λ s. contains s url) p.exclude_paths ≡ false
  pub inside :
      (p.allow_external_links ≡ true)
      ⊎ (w.host url ≡ ok base_host)
      ⊎ ((e : String) × (w.host url ≡ err e))

filtered_out-IsWanted :
    (w : Web) (p : CrawlParams) (base_host url : String)
    → filtered_out w p base_host url ≡ false
    → IsWanted w p base_host url
unfolding filtered_out
filtered_out-IsWanted w p base_host url h = record {
  included =
      empty_or_any p.include_paths (any (λ s. contains s url) p.include_paths) (ground arith);
  not_excluded = ground arith;
  inside = on_host p.allow_external_links (w.host url) (ground arith);
}
  where
    empty_or_any :
        (l : List String) (b : Bool) → (not (is_nil l) && not b) ≡ false → (l ≡ []) ⊎ (b ≡ true)
    empty_or_any [] b e = inl refl
    empty_or_any (x ∷ l) b e = inr (ground arith)

    on_host :
        (b : Bool) (o : Result String String)
        → (not b
            && (let d : Bool = elim o [ ok h ↦ not (str_eq h base_host) | err e ↦ false ] in d))
          ≡ false
        → (b ≡ true) ⊎ (o ≡ ok base_host) ⊎ ((e : String) × (o ≡ err e))
    on_host true o e = inl refl
    on_host false (ok h) e = inr (inl (ap ok ((str_eq_iff h base_host).0 (ground arith))))
    on_host false (err x) e = inr (inr (x, refl))

module _ (w : Web) (cfg : CrawlerConfig) (p : CrawlParams) (base_host : String) where
  pub page-url :
      (url : String) (depth : ℕ) (r : ScrapeResult)
      → scrape_page w cfg p base_host url depth ≡ ok r
      → (stripped w cfg p base_host r).url ≡ url
  unfolding scrape_page stripped
  page-url url depth r h =
      kept (any is_raw_html (formats w cfg p base_host))
      ∙ scrape-url w cfg
          (page_job p.scrape_options (bfs_formats depth p.max_depth (formats w cfg p base_host))
            url)
          r h
    where
      kept : (b : Bool) → (if b then r else record r { raw_html = none }).url ≡ r.url
      kept b = ground arith

  -- What one result satisfies.
  record IsPage (r : ScrapeResult) : Type 0 where
    wanted : IsWanted w p base_host r.url
    bare : any is_raw_html (or_markdown p.scrape_options.formats) ≡ false → r.raw_html ≡ none

  stripped-bare :
      (r : ScrapeResult)
      → any is_raw_html (or_markdown p.scrape_options.formats) ≡ false
      → (stripped w cfg p base_host r).raw_html ≡ none
  unfolding stripped formats
  stripped-bare r h = rw h

  crawl_loop-bounds :
      (room : ℕ) (q : List (String × ℕ)) (v : List String)
      → (length (crawl_loop w cfg p base_host room q v) ≤ room)
        × All IsPage (crawl_loop w cfg p base_host room q v)
  crawl_loop-bounds =
      crawl_loop_induction w cfg p base_host (λ room q v rs. (length rs ≤ room) × All IsPage rs)
        (λ room v. (omega arith, tt)) (λ x q v. (omega arith, tt)) (λ room url depth q v rs ih. ih)
        (λ room url depth q v r rs f e ih. (
          omega (arith, ih.0),
          (
            record {
              wanted = rw (page-url url depth r e) (filtered_out-IsWanted w p base_host url f);
              bare = stripped-bare r;
            },
            ih.1,
          ),
        ))

crawl-pages :
    (w : Web) (cfg : CrawlerConfig) (p : CrawlParams) (sitemap_urls : List String)
    (base_host : String) (rs : List ScrapeResult)
    → w.host p.root_url ≡ ok base_host
    → crawl w cfg p sitemap_urls ≡ ok rs
    → (length rs ≤ p.limit) × All (IsPage w cfg p base_host) rs
unfolding crawl
crawl-pages w cfg p sitemap_urls base_host rs host h =
    subst (λ (l : List ScrapeResult). (length l ≤ p.limit) × All (IsPage w cfg p base_host) l)
      (ok-injective {E = AppError} _ _ (rw host at h))
      (let start = seeds p sitemap_urls in
        crawl_loop-bounds w cfg p base_host p.limit start.0 start.1)

-- A crawl whose root has a host and that succeeds returns at most as many pages as its limit, and the
-- URL of each passes the path filters and, unless external links are allowed or the URL does not
-- parse, is on the root's host.
pub crawl-bounds :
    (w : Web) (cfg : CrawlerConfig) (p : CrawlParams) (sitemap_urls : List String)
    (base_host : String) (rs : List ScrapeResult)
    → w.host p.root_url ≡ ok base_host
    → crawl w cfg p sitemap_urls ≡ ok rs
    → (length rs ≤ p.limit) × All (λ r. IsWanted w p base_host r.url) rs
crawl-bounds w cfg p sitemap_urls base_host rs host h =
    let (n, all) = crawl-pages w cfg p sitemap_urls base_host rs host h in
    (
      n,
      All-map (IsPage w cfg p base_host) (λ r. IsWanted w p base_host r.url) rs (λ r k. k.wanted)
          all,
    )

-- Where raw HTML was not asked for, no page of a crawl carries it, though the crawl fetched it for
-- every page above the last level to find links.
crawl-raw_html :
    (w : Web) (cfg : CrawlerConfig) (p : CrawlParams) (sitemap_urls : List String)
    (base_host : String) (rs : List ScrapeResult)
    → w.host p.root_url ≡ ok base_host
    → crawl w cfg p sitemap_urls ≡ ok rs
    → any is_raw_html (or_markdown p.scrape_options.formats) ≡ false
    → All (λ r. r.raw_html ≡ none) rs
crawl-raw_html w cfg p sitemap_urls base_host rs host h plain =
    All-map (IsPage w cfg p base_host) (λ r. r.raw_html ≡ none) rs (λ r k. k.bare plain)
      (crawl-pages w cfg p sitemap_urls base_host rs host h).1
