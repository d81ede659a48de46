-- ===== src/Scraper/Crawl/Frontier.antt =====
-- What the queue and the visited set of the crawl satisfy: no URL is queued twice.
use fire_ctrl.Prelude.{
  ℕ, String, ◌≡◌, ◌⊎◌, refl, subst, true, false, ◌||◌, List, [], ◌∷◌, ◌++◌, arith, All, Bool-cases,
  inl, inr, str_eq, str_eq_iff,
}
use fire_ctrl.Models.{ScrapeResult}
use fire_ctrl.Scraper.Crawl.{seen, enqueue_new}

abbrev pub urls_of : List (String × ℕ) → List String
urls_of [] = []
urls_of ((u, d) ∷ q) = u ∷ urls_of q

abbrev pub DistinctTexts : List String → Type 0
DistinctTexts [] = Unit
DistinctTexts (u ∷ us) = (seen u us ≡ false) × DistinctTexts us

pub seen-append :
    (u : String) (q r : List (String × ℕ))
    → seen u (urls_of (q ++ r)) ≡ (seen u (urls_of q) || seen u (urls_of r))
seen-append u [] r = refl
seen-append u ((x, d) ∷ q) r = ground (arith, seen-append u q r)

-- Every URL of a queue has been put into the visited set, and none stands in it twice.
pub record IsFrontier (q : List (String × ℕ)) (v : List String) : Type 0 where
  pub distinct : DistinctTexts (urls_of q)
  pub visited : (u : String) → seen u (urls_of q) ≡ true → seen u v ≡ true

-- What `enqueue_new` gives: new URLs that the visited set did not have and now has, and nothing that
-- was visited is forgotten.
pub record IsExtension (v : List String) (q : List (String × ℕ)) (v' : List String) : Type 0 where
  pub distinct : DistinctTexts (urls_of q)
  pub fresh : (u : String) → seen u (urls_of q) ≡ true → seen u v ≡ false
  pub added : (u : String) → seen u (urls_of q) ≡ true → seen u v' ≡ true
  pub kept : (u : String) → seen u v ≡ true → seen u v' ≡ true

pub enqueue_new-IsExtension :
    (us : List String) (d : ℕ) (v : List String)
    → IsExtension v (enqueue_new us d v).0 (enqueue_new us d v).1
unfolding enqueue_new
enqueue_new-IsExtension [] d v = record {
  distinct = tt;
  fresh = λ u h. cc;
  added = λ u h. cc;
  kept = λ u h. h;
}
enqueue_new-IsExtension (x ∷ us) d v = elim (Bool-cases (seen x v)) [
  | inl e ↦ rw (e, enqueue_new) (enqueue_new-IsExtension us d v)
  | inr e ↦
      let ih = enqueue_new-IsExtension us d (x ∷ v) in
      let q = (enqueue_new us d (x ∷ v)).0 in
      rw (e, enqueue_new)
        (record {
          distinct = (new_head q (ih.fresh x), ih.distinct);
          fresh = λ u h. fresh_head u q e (ih.fresh u) h;
          added = λ u h. added_head u q (enqueue_new us d (x ∷ v)).1 (ih.added u) (ih.kept u) h;
          kept = λ u h. ih.kept u (later u h);
        })
]
  where
    new_head :
        (q : List (String × ℕ))
        → (seen x (urls_of q) ≡ true → seen x (x ∷ v) ≡ false)
        → seen x (urls_of q) ≡ false
    new_head q f = elim (Bool-cases (seen x (urls_of q))) [
      | inl k ↦ absurd (let g = f k in ground (arith, str_eq_iff x x))
      | inr k ↦ k
    ]

    fresh_head :
        (u : String) (q : List (String × ℕ))
        → seen x v ≡ false
        → (seen u (urls_of q) ≡ true → seen u (x ∷ v) ≡ false)
        → seen u (x ∷ urls_of q) ≡ true
        → seen u v ≡ false
    fresh_head u q e f h = elim (Bool-cases (str_eq x u)) [
      | inl k ↦ subst (λ y. seen y v ≡ false) ((str_eq_iff x u).0 k) e
      | inr k ↦ let g = f (rw k at h) in ground arith
    ]

    added_head :
        (u : String) (q : List (String × ℕ)) (v' : List String)
        → (seen u (urls_of q) ≡ true → seen u v' ≡ true)
        → (seen u (x ∷ v) ≡ true → seen u v' ≡ true)
        → seen u (x ∷ urls_of q) ≡ true
        → seen u v' ≡ true
    added_head u q v' f g h = elim (Bool-cases (str_eq x u)) [
      | inl k ↦ g (rw k refl)
      | inr k ↦ f (rw k at h)
    ]

    later : (u : String) → seen u v ≡ true → seen u (x ∷ v) ≡ true
    later u h = ground arith

pub DistinctTexts-append :
    (q r : List (String × ℕ))
    → DistinctTexts (urls_of q)
    → DistinctTexts (urls_of r)
    → ((u : String) → seen u (urls_of q) ≡ true → seen u (urls_of r) ≡ false)
    → DistinctTexts (urls_of (q ++ r))
DistinctTexts-append [] r hq hr apart = hr
DistinctTexts-append ((x, d) ∷ q) r hq hr apart = (
  rw (seen-append x q r) (rw (hq.0, apart x (ground (arith, str_eq_iff x x))) refl),
  DistinctTexts-append q r hq.1 hr (λ u h. apart u (ground arith)),
)

-- Where a result can come from: the queue, or a URL that was not visited yet.
abbrev pub Origin : List (String × ℕ) → List String → String → Type 0
Origin q v u = (seen u (urls_of q) ≡ true) ⊎ (seen u v ≡ false)

abbrev pub result_urls : List ScrapeResult → List String
result_urls [] = []
result_urls (r ∷ rs) = r.url ∷ result_urls rs

pub not-seen_of_All :
    (u : String) (rs : List ScrapeResult)
    → All (λ s. str_eq s.url u ≡ false) rs
    → seen u (result_urls rs) ≡ false
not-seen_of_All u [] h = refl
not-seen_of_All u (r ∷ rs) h = rw h.0 (not-seen_of_All u rs h.1)

module _ (url : String) (d : ℕ) (q new : List (String × ℕ)) (v v' : List String)
    (front : IsFrontier ((url, d) ∷ q) v) (ext : IsExtension v new v') where
  pub url-visited : seen url v ≡ true
  url-visited = front.visited url (ground (arith, str_eq_iff url url))

  pub in_queue_or_new :
      (u : String)
      → seen u (urls_of (q ++ new)) ≡ true
      → (seen u (urls_of q) ≡ true) ⊎ (seen u (urls_of new) ≡ true)
  in_queue_or_new u h = let e = seen-append u q new in ground arith

  pub next-IsFrontier : IsFrontier (q ++ new) v'
  next-IsFrontier = record {
    distinct = DistinctTexts-append q new front.distinct.1 ext.distinct (λ u h. apart u h);
    visited = λ u h. reached u (in_queue_or_new u h);
  }
    where
      from_queue : (u : String) → seen u (urls_of q) ≡ true → seen u v ≡ true
      from_queue u h = front.visited u (ground arith)

      apart : (u : String) → seen u (urls_of q) ≡ true → seen u (urls_of new) ≡ false
      apart u h = elim (Bool-cases (seen u (urls_of new))) [
        | inl k ↦ absurd (let e = ext.fresh u k in let f = from_queue u h in ground arith)
        | inr k ↦ k
      ]

      reached :
          (u : String)
          → (seen u (urls_of q) ≡ true) ⊎ (seen u (urls_of new) ≡ true)
          → seen u v' ≡ true
      reached u (inl h) = ext.kept u (from_queue u h)
      reached u (inr h) = ext.added u h

  pub Origin-earlier : (u : String) → Origin (q ++ new) v' u → Origin ((url, d) ∷ q) v u
  Origin-earlier u (inl h) = split (in_queue_or_new u h)
    where
      split :
          (seen u (urls_of q) ≡ true) ⊎ (seen u (urls_of new) ≡ true) → Origin ((url, d) ∷ q) v u
      split (inl k) = inl (ground arith)
      split (inr k) = inr (ext.fresh u k)
  Origin-earlier u (inr h) = elim (Bool-cases (seen u v)) [
    | inl k ↦ absurd (let e = ext.kept u k in ground arith)
    | inr k ↦ inr k
  ]

  pub Origin-other : (u : String) → Origin (q ++ new) v' u → str_eq u url ≡ false
  Origin-other u o = elim (Bool-cases (str_eq u url)) [
    | inl k ↦ absurd (never (subst (Origin (q ++ new) v') ((str_eq_iff u url).0 k) o))
    | inr k ↦ k
  ]
    where
      split : (seen url (urls_of q) ≡ true) ⊎ (seen url (urls_of new) ≡ true) → ⊥
      split (inl k) = let e = front.distinct.0 in ground arith
      split (inr k) = let e = ext.fresh url k in let f = url-visited in ground arith

      never : Origin (q ++ new) v' url → ⊥
      never (inl h) = split (in_queue_or_new url h)
      never (inr h) = let e = ext.kept url url-visited in ground arith
