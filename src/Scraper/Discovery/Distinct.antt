-- ===== src/Scraper/Discovery/Distinct.antt =====
-- What `map_urls` returns: distinct URLs within the limit that match the search.
use fire_ctrl.Prelude.{
  ℕ, zero, suc, ◌≤◌, String, ◌≡◌, ◌⊎◌, refl, sym, Bool, true, false, not, ◌&&◌, ◌||◌, Option, List,
  [], ◌∷◌, ◌++◌, arith, length, take, keep, length-take-le, All, leb, str_eq, str_eq_iff,
  Bool-cases, inl, inr, Result, ok, err, subst, ok-injective, if◌then◌else◌,
}
use fire_ctrl.Models.{AppError}
use fire_ctrl.Scraper.Page.{Web, extract_links}
use fire_ctrl.Scraper.Crawl.{seen}
use fire_ctrl.Scraper.Crawl.Frontier.{DistinctTexts}
use fire_ctrl.Scraper.Discovery.{
  MapParams, Discovered, push, add_all, host_ok, add_links, matches, from_root, map_urls,
}

-- The list has distinct URLs, all of them in the set.
record IsDiscovered (s : Discovered) : Type 0 where
  distinct : DistinctTexts s.urls
  known : (u : String) → seen u s.urls ≡ true → seen u s.found ≡ true

seen-append : (u : String) (us vs : List String) → seen u (us ++ vs) ≡ (seen u us || seen u vs)
seen-append u [] vs = refl
seen-append u (x ∷ us) vs = ground (arith, seen-append u us vs)

str_eq-false : (a b : String) → str_eq a b ≡ false → str_eq b a ≡ false
str_eq-false a b h = elim (Bool-cases (str_eq b a)) [
  | inl e ↦
      absurd (let k : str_eq a b ≡ true = (str_eq_iff a b).1 (sym ((str_eq_iff b a).0 e)) in cc)
  | inr e ↦ e
]

Distinct-append :
    (u : String) (us : List String)
    → seen u us ≡ false
    → DistinctTexts us
    → DistinctTexts (us ++ u ∷ [])
Distinct-append u [] h d = (refl, tt)
Distinct-append u (x ∷ us) h d = (
  rw (seen-append x us (u ∷ [])) (rw (d.0) (rw (str_eq-false x u (ground arith)) refl)),
  Distinct-append u us (ground arith) d.1,
)

push-IsDiscovered :
    (u : String) (s : Discovered)
    → seen u s.found ≡ false
    → IsDiscovered s
    → IsDiscovered (push u s)
push-IsDiscovered u s new h = record {
  distinct = Distinct-append u s.urls (not_yet (Bool-cases (seen u s.urls))) h.distinct;
  known = λ v k. ground (arith, seen-append v s.urls (u ∷ []), h.known v);
}
  where
    not_yet : (seen u s.urls ≡ true) ⊎ (seen u s.urls ≡ false) → seen u s.urls ≡ false
    not_yet (inl e) = absurd (let k = h.known u e in cc)
    not_yet (inr e) = e

add_all-IsDiscovered :
    (us : List String) (s : Discovered) → IsDiscovered s → IsDiscovered (add_all us s)
unfolding add_all
add_all-IsDiscovered [] s h = h
add_all-IsDiscovered (u ∷ us) s h = elim (Bool-cases (seen u s.found)) [
  | inl e ↦ rw e (add_all-IsDiscovered us s h)
  | inr e ↦ rw e (add_all-IsDiscovered us (push u s) (push-IsDiscovered u s e h))
]

module _ (w : Web) (p : MapParams) (base_host : String) where
  add_links-IsDiscovered :
      (us : List String) (s : Discovered)
      → IsDiscovered s
      → IsDiscovered (add_links w p base_host us s)
  unfolding add_links
  add_links-IsDiscovered [] s h = h
  add_links-IsDiscovered (u ∷ us) s h =
      elim (Bool-cases
        (host_ok p.include_subdomains base_host (w.host u) && not (seen u s.found))) [
          | inl e ↦
              rw (e, add_links)
                (elim (Bool-cases (leb p.limit (length (push u s).urls))) [
                  | inl k ↦ rw (k, add_links) (push-IsDiscovered u s (ground arith) h)
                  | inr k ↦
                      rw (k, add_links)
                        (add_links-IsDiscovered us (push u s)
                          (push-IsDiscovered u s (ground arith) h))
                ])
          | inr e ↦ rw (e, add_links) (add_links-IsDiscovered us s h)
        ]

  from_root-IsDiscovered :
      (s : Discovered) → IsDiscovered s → IsDiscovered (from_root w p base_host s)
  unfolding from_root
  from_root-IsDiscovered s h = go (w.fetch p.root_url)
    where
      go :
          (r : Result String (ℕ × Option String × String))
          → IsDiscovered (
              let d : Discovered = elim r [
                | ok reply ↦ add_links w p base_host (extract_links w reply.2 p.root_url) s
                | err e ↦ s
              ] in
              d)
      go (ok reply) = add_links-IsDiscovered (extract_links w reply.2 p.root_url) s h
      go (err e) = h

seen-keep :
    (u : String) (q : String → Bool) (us : List String)
    → seen u us ≡ false
    → seen u (keep q us) ≡ false
seen-keep u q [] h = refl
seen-keep u q (x ∷ us) h = ground (arith, seen-keep u q us)

Distinct-keep :
    (q : String → Bool) (us : List String) → DistinctTexts us → DistinctTexts (keep q us)
Distinct-keep q [] d = tt
Distinct-keep q (x ∷ us) d = elim (Bool-cases (q x)) [
  | inl e ↦ rw e (seen-keep x q us d.0, Distinct-keep q us d.1)
  | inr e ↦ rw e (Distinct-keep q us d.1)
]

seen-take : (u : String) (n : ℕ) (us : List String) → seen u us ≡ false → seen u (take n us) ≡ false
seen-take u zero us h = refl
seen-take u (suc n) [] h = refl
seen-take u (suc n) (x ∷ us) h = ground (arith, seen-take u n us)

Distinct-take : (n : ℕ) (us : List String) → DistinctTexts us → DistinctTexts (take n us)
Distinct-take zero us d = tt
Distinct-take (suc n) [] d = tt
Distinct-take (suc n) (x ∷ us) d = (seen-take x n us d.0, Distinct-take n us d.1)

All-keep : (q : String → Bool) (us : List String) → All (λ u. q u ≡ true) (keep q us)
All-keep q [] = tt
All-keep q (x ∷ us) = elim (Bool-cases (q x)) [
  | inl e ↦ rw e (e, All-keep q us)
  | inr e ↦ rw e (All-keep q us)
]

All-take : (P : String → Type 0) (n : ℕ) (us : List String) → All P us → All P (take n us)
All-take P zero us h = tt
All-take P (suc n) [] h = tt
All-take P (suc n) (x ∷ us) h = (h.0, All-take P n us h.1)

-- A discovery whose root has a host and that succeeds returns distinct URLs, at most as many as its
-- limit, and each contains the searched text up to case, if there is one.
pub map_urls-DistinctTexts :
    (lower : String → String) (w : Web) (p : MapParams) (sitemap_urls : List String)
    (base_host : String) (us : List String)
    → w.host p.root_url ≡ ok base_host
    → map_urls lower w p sitemap_urls ≡ ok us
    → DistinctTexts us × (length us ≤ p.limit) × All (λ u. matches lower p.search u ≡ true) us
unfolding map_urls
map_urls-DistinctTexts lower w p sitemap_urls base_host us host h =
    subst
      (λ (l : List String).
        DistinctTexts l × (length l ≤ p.limit) × All (λ u. matches lower p.search u ≡ true) l)
      (ok-injective {E = AppError} _ _ (rw host at h))
      (result
        (if p.ignore_sitemap
          then record { found = []; urls = [] }
          else add_all sitemap_urls (record { found = []; urls = [] }))
        (start (Bool-cases p.ignore_sitemap)))
  where
    none_yet : IsDiscovered (record { found = []; urls = [] })
    none_yet = record { distinct = tt; known = λ u k. k }

    start :
        (p.ignore_sitemap ≡ true) ⊎ (p.ignore_sitemap ≡ false)
        → IsDiscovered (
            if p.ignore_sitemap
            then record { found = []; urls = [] }
            else add_all sitemap_urls (record { found = []; urls = [] }))
    start (inl e) = rw e none_yet
    start (inr e) =
        rw e (add_all-IsDiscovered sitemap_urls (record { found = []; urls = [] }) none_yet)

    result :
        (s : Discovered)
        → IsDiscovered s
        → DistinctTexts
            (take p.limit (keep (matches lower p.search) (from_root w p base_host s).urls))
          × (length (take p.limit (keep (matches lower p.search) (from_root w p base_host s).urls))
              ≤ p.limit)
          × All
              (λ u. matches lower p.search u ≡ true)
              (take p.limit (keep (matches lower p.search) (from_root w p base_host s).urls))
    result s k = (
      Distinct-take p.limit _ (
          Distinct-keep (matches lower p.search) _
            (from_root-IsDiscovered w p base_host s k).distinct),
      length-take-le p.limit _,
      All-take _ p.limit _ (All-keep (matches lower p.search) _),
    )
