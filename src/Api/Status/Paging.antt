-- ===== src/Api/Status/Paging.antt =====
-- What the status pages say: the link to the next page, the derived status, and the routes that
-- look a job up by its id.
use mathlib.Core.List.{Memᴰ}
use fire_ctrl.Prelude.{
  ℕ, ◌≤◌, ◌<◌, String, ◌≡◌, ◌↔◌, ◌⊎◌, inl, inr, refl, ap, ◌∙◌, true, Option, none, some, List, [],
  ◌∷◌, arith, All, length, filter_map, last, is_some,
}
use fire_ctrl.Prelude.Int.{pos}
use fire_ctrl.Models.{JobStatus, GroupStatus, QueueScrapeRow, GroupCrawlRow}
use fire_ctrl.Queue.{GroupCounts}
use fire_ctrl.Api.Status.{Codec, decoded, overall_status, status_response}

length-filter_map-le {ℓ κ} :
    {A : Type ℓ} {B : Type κ} (f : A → Option B) (xs : List A)
    → length (filter_map f xs) ≤ length xs
length-filter_map-le f [] = omega arith
length-filter_map-le f (x ∷ xs) = ground (arith, length-filter_map-le f xs)

length-filter_map-lt {ℓ κ} :
    {A : Type ℓ} {B : Type κ} (f : A → Option B) (xs : List A) {x : A}
    → Memᴰ x xs
    → f x ≡ none
    → length (filter_map f xs) < length xs
length-filter_map-lt f [] m h = elim m [ ]
length-filter_map-lt f (x ∷ xs) (Memᴰ.head e) h = ground (arith, length-filter_map-le f xs, ap f e)
length-filter_map-lt f (x ∷ xs) (Memᴰ.tail m) h = ground (arith, length-filter_map-lt f xs m h)

length-filter_map-All {ℓ κ} :
    {A : Type ℓ} {B : Type κ} (f : A → Option B) (xs : List A)
    → All (λ x. is_some (f x) ≡ true) xs
    → length (filter_map f xs) ≡ length xs
length-filter_map-All f [] h = refl
length-filter_map-All f (x ∷ xs) h = ground (arith, length-filter_map-All f xs h.1, h.0)

module _ (d : Codec) (route : String) (id : ℕ) (group : GroupCrawlRow) (counts : GroupCounts)
    (n : ℕ) (rows : List QueueScrapeRow) where
  -- A page of at most n rows that holds one row without a stored page result (such as the crawl job's
  -- own row, or a page that is queued or failed) has no link to a next page, also where the group has
  -- more rows.
  pub next-none_of_undecoded :
      (r : QueueScrapeRow)
      → length rows ≤ n
      → Memᴰ r rows
      → decoded d r ≡ none
      → (status_response d route id group counts (pos n) rows).next ≡ none
  unfolding status_response
  next-none_of_undecoded r fits m e = ground (arith, length-filter_map-lt (decoded d) rows m e)

  -- A full page of n rows that all hold a page result lists them all, and links to the page after its
  -- last row with the same limit.
  next-some_of_decoded :
      (r : QueueScrapeRow)
      → length rows ≡ n
      → All (λ s. is_some (decoded d s) ≡ true) rows
      → last rows ≡ some r
      → ((status_response d route id group counts (pos n) rows).next
          ≡ some (d.next_text route id r (pos n)))
        × (length (status_response d route id group counts (pos n) rows).page ≡ n)
  unfolding status_response
  next-some_of_decoded r full all e = (
    ground (arith, length-filter_map-All (decoded d) rows all),
    length-filter_map-All (decoded d) rows all ∙ full,
  )

-- A crawl is reported completed exactly when its group is completed, or is active with at least one
-- job of which none is queued or active.
overall_status-completed_iff :
    (s : GroupStatus) (counts : GroupCounts)
    → (overall_status s counts ≡ JobStatus.completed) ↔ (
        (s ≡ GroupStatus.completed)
        ⊎ ((s ≡ GroupStatus.active) × (counts.pending ≡ 0) × (0 < counts.total)))
unfolding overall_status
overall_status-completed_iff GroupStatus.completed counts = (λ h. inl refl, λ h. refl)
overall_status-completed_iff GroupStatus.cancelled counts = (λ h. cc, λ h. ground arith)
overall_status-completed_iff GroupStatus.active counts =
    (λ h. inr (refl, ground arith, ground arith), λ h. ground arith)
