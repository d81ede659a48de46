-- ===== src/Scraper/Sitemap.antt =====
-- `fetch_sitemap_urls` and `collect_sitemap_urls` of src/scraper.rs. What a sitemap's URL answers is its
-- entries, none for a failed fetch; an entry without a URL is `bad`.
use fire_ctrl.Prelude.{
  ℕ, zero, suc, ◌≤◌, String, true, false, ◌||◌, List, [], ◌∷◌, ◌++◌, arith, length, length-append,
  leb, leb-false→lt, Bool-cases, inl, inr,
}
use fire_ctrl.Scraper.Crawl.{seen}
use fire_ctrl.Scraper.Crawl.Frontier.{DistinctTexts}

pub data Entity : Type 0 where
  url child : String → Entity
  bad : Entity

-- The URLs collected, and the sitemaps visited.
pub record Walk : Type 0 where
  pub collected : List String
  pub visited : List String

-- `DEFAULT_SITEMAP_MAX_DEPTH`.
abbrev pub sitemap_max_depth : ℕ
sitemap_max_depth = 5

-- The loop over the entries: what is collected after it, and the child sitemaps.
read_entries : ℕ → List Entity → List String → List String × List String
read_entries limit [] c = (c, [])
read_entries limit (e ∷ es) c = elim (leb limit (length c)) [
  | true ↦ (c, [])
  | false ↦ elim e [
    | url u ↦ read_entries limit es (c ++ u ∷ [])
    | child u ↦ let (c', children) = read_entries limit es c in (c', u ∷ children)
    | bad ↦ read_entries limit es c
  ]
]

-- The loop over the child sitemaps, each walked by `next`.
walk_children : ℕ → (String → Walk → Walk) → List String → Walk → Walk
walk_children limit next [] s = s
walk_children limit next (u ∷ us) s = elim (leb limit (length s.collected)) [
  | true ↦ s
  | false ↦ walk_children limit next us (next u s)
]

module _ (entries : String → List Entity) (limit : ℕ) where
  -- `levels` is one more than the levels that are still allowed below this one.
  pub collect_sitemap_urls : ℕ → String → Walk → Walk
  unfolding read_entries walk_children
  collect_sitemap_urls zero u s = s
  collect_sitemap_urls (suc levels) u s =
      elim (leb limit (length s.collected) || seen u s.visited) [
        | true ↦ s
        | false ↦
            let (c, children) = read_entries limit (entries u) s.collected in
            walk_children limit (collect_sitemap_urls levels) children
              (record { collected = c; visited = u ∷ s.visited })
      ]

  pub fetch_sitemap_urls : String → Walk
  unfolding collect_sitemap_urls
  fetch_sitemap_urls sitemap_url =
      collect_sitemap_urls (suc sitemap_max_depth) sitemap_url
        (record { collected = []; visited = [] })

-- Within the limit, and no sitemap visited twice.
pub record IsWalk (limit : ℕ) (s : Walk) : Type 0 where
  pub bounded : length s.collected ≤ limit
  pub once : DistinctTexts s.visited

read_entries-bounded :
    (limit : ℕ) (es : List Entity) (c : List String)
    → length c ≤ limit
    → length (read_entries limit es c).0 ≤ limit
unfolding read_entries
read_entries-bounded limit [] c h = h
read_entries-bounded limit (url u ∷ es) c h = elim (Bool-cases (leb limit (length c))) [
  | inl k ↦ rw (k, read_entries) h
  | inr k ↦
      rw (k, read_entries)
        (read_entries-bounded limit es (c ++ u ∷ [])
          (omega (arith, length-append c (u ∷ []), leb-false→lt limit (length c) k)))
]
read_entries-bounded limit (child u ∷ es) c h = elim (Bool-cases (leb limit (length c))) [
  | inl k ↦ rw (k, read_entries) h
  | inr k ↦ rw (k, read_entries) (read_entries-bounded limit es c h)
]
read_entries-bounded limit (bad ∷ es) c h = elim (Bool-cases (leb limit (length c))) [
  | inl k ↦ rw (k, read_entries) h
  | inr k ↦ rw (k, read_entries) (read_entries-bounded limit es c h)
]

walk_children-IsWalk :
    (limit : ℕ) (next : String → Walk → Walk) (us : List String) (s : Walk)
    → ((u : String) (t : Walk) → IsWalk limit t → IsWalk limit (next u t))
    → IsWalk limit s
    → IsWalk limit (walk_children limit next us s)
unfolding walk_children
walk_children-IsWalk limit next [] s k h = h
walk_children-IsWalk limit next (u ∷ us) s k h =
    elim (Bool-cases (leb limit (length s.collected))) [
      | inl e ↦ rw (e, walk_children) h
      | inr e ↦ rw (e, walk_children) (walk_children-IsWalk limit next us (next u s) k (k u s h))
    ]

collect_sitemap_urls-IsWalk :
    (entries : String → List Entity) (limit levels : ℕ) (u : String) (s : Walk)
    → IsWalk limit s
    → IsWalk limit (collect_sitemap_urls entries limit levels u s)
unfolding collect_sitemap_urls
collect_sitemap_urls-IsWalk entries limit zero u s h = h
collect_sitemap_urls-IsWalk entries limit (suc levels) u s h =
    elim (Bool-cases (leb limit (length s.collected) || seen u s.visited)) [
      | inl e ↦ rw (e, collect_sitemap_urls) h
      | inr e ↦
          rw (e, collect_sitemap_urls)
            (walk_children-IsWalk limit (collect_sitemap_urls entries limit levels)
              (read_entries limit (entries u) s.collected).1
              (record {
                collected = (read_entries limit (entries u) s.collected).0;
                visited = u ∷ s.visited;
              })
              (λ v t k. collect_sitemap_urls-IsWalk entries limit levels v t k)
              (record {
                bounded = read_entries-bounded limit (entries u) s.collected h.bounded;
                once = (ground arith, h.once);
              }))
    ]

-- Walking a site's sitemaps, whatever they hold and however they point at each other, ends with at
-- most as many URLs as the limit, and has fetched no sitemap twice.
pub fetch_sitemap_urls-IsWalk :
    (entries : String → List Entity) (limit : ℕ) (sitemap_url : String)
    → IsWalk limit (fetch_sitemap_urls entries limit sitemap_url)
unfolding fetch_sitemap_urls
fetch_sitemap_urls-IsWalk entries limit sitemap_url =
    collect_sitemap_urls-IsWalk entries limit (suc sitemap_max_depth) sitemap_url
      (record { collected = []; visited = [] }) (record { bounded = omega arith; once = tt })
