-- ===== src/Llm/Rank.antt =====
-- `rank_by_relevance` of src/llm.rs. Lower-casing and the splitting into words are given; the stable
-- `sort_by_key` is an insertion sort.
use fire_ctrl.Prelude.{
  ℕ, ◌≤◌, ◌<◌, String, ◌≡◌, ◌⊎◌, ◌∙◌, refl, ap, sym, ltb→lt, ==_iff, ◌++◌, true, false, List, [],
  ◌∷◌, map, arith, All, All-map, keep, tally, ltb, ◌==◌, Bool-cases, inl, inr, if◌then◌else◌,
}
use mathlib.Core.List.{append-nil, append_assoc}
use fire_ctrl.Prelude.Text.{contains}

abbrev pub Scored : Type 0
Scored = ℕ × String

-- An item goes behind the items of the same or a higher score.
insert_ranked : Scored → List Scored → List Scored
insert_ranked x [] = x ∷ []
insert_ranked x (y ∷ ys) =
    let behind = y ∷ insert_ranked x ys in if ltb y.0 x.0 then x ∷ y ∷ ys else behind

-- Sorting from the front: each item is inserted behind those that came before it.
sort_ranked : List Scored → List Scored → List Scored
unfolding insert_ranked
sort_ranked done [] = done
sort_ranked done (x ∷ xs) = sort_ranked (insert_ranked x done) xs

module _ (lower : String → String) (words : String → List String) where
  pub score : String → String → ℕ
  score query item = tally (λ t. contains t (lower item)) (words (lower query))

  pub scored : String → String → Scored
  unfolding score
  scored query item = (score query item, item)

  unfoldable pub rank_by_relevance : List String → String → List String
  unfolding sort_ranked scored
  rank_by_relevance items query = map (λ s. s.1) (sort_ranked [] (map (scored query) items))

-- Each item has at least the score of all later ones.
abbrev pub IsRanked : List Scored → Type 0
IsRanked [] = Unit
IsRanked (x ∷ xs) = All (λ y. y.0 ≤ x.0) xs × IsRanked xs

All-insert_ranked :
    (P : Scored → Type 0) (x : Scored) (l : List Scored) → P x → All P l → All P (insert_ranked x l)
unfolding insert_ranked
All-insert_ranked P x [] h k = (h, tt)
All-insert_ranked P x (y ∷ ys) h k = elim (Bool-cases (ltb y.0 x.0)) [
  | inl e ↦ rw e (h, k)
  | inr e ↦ rw e (k.0, All-insert_ranked P x ys h k.1)
]

insert_ranked-IsRanked : (x : Scored) (l : List Scored) → IsRanked l → IsRanked (insert_ranked x l)
unfolding insert_ranked
insert_ranked-IsRanked x [] h = (tt, tt)
insert_ranked-IsRanked x (y ∷ ys) h = elim (Bool-cases (ltb y.0 x.0)) [
  | inl e ↦ rw e (
    (
      ground arith,
      All-map (λ z. z.0 ≤ y.0) (λ z. z.0 ≤ x.0) ys (λ z k. omega (arith, ltb→lt y.0 x.0 e)) h.0,
    ),
    h,
  )
  | inr e ↦
      rw e (
        All-insert_ranked (λ z. z.0 ≤ y.0) x ys (ground arith) h.0,
        insert_ranked-IsRanked x ys h.1,
      )
]

sort_ranked-IsRanked : (done xs : List Scored) → IsRanked done → IsRanked (sort_ranked done xs)
unfolding sort_ranked
sort_ranked-IsRanked done [] h = h
sort_ranked-IsRanked done (x ∷ xs) h =
    sort_ranked-IsRanked (insert_ranked x done) xs (insert_ranked-IsRanked x done h)

-- The items of one score.
abbrev pub of_score : ℕ → List Scored → List Scored
of_score k = keep (λ x. x.0 == k)

of_score-below : (k : ℕ) (l : List Scored) → All (λ y. y.0 < k) l → of_score k l ≡ []
of_score-below k [] h = refl
of_score-below k (y ∷ ys) h = ground (arith, of_score-below k ys h.1, h.0)

of_score-insert_ranked :
    (k : ℕ) (x : Scored) (l : List Scored)
    → IsRanked l
    → of_score k (insert_ranked x l) ≡ of_score k l ++ of_score k (x ∷ [])
unfolding insert_ranked
of_score-insert_ranked k x [] h = refl
of_score-insert_ranked k x (y ∷ ys) h = elim (Bool-cases (ltb y.0 x.0)) [
  | inl e ↦ rw e (in_front (Bool-cases (x.0 == k)) e)
  | inr e ↦ rw e (step (Bool-cases (y.0 == k)) (of_score-insert_ranked k x ys h.1))
]
  where
    in_front :
        (x.0 == k ≡ true) ⊎ (x.0 == k ≡ false)
        → ltb y.0 x.0 ≡ true
        → of_score k (x ∷ y ∷ ys) ≡ of_score k (y ∷ ys) ++ of_score k (x ∷ [])
    in_front (inl c) e =
        let none_left : of_score k (y ∷ ys) ≡ [] = of_score-below k (y ∷ ys) (
          ground arith,
          All-map (λ z. z.0 ≤ y.0) (λ z. z.0 < k) ys
              (λ z q. omega (arith, ltb→lt y.0 x.0 e, (==_iff x.0 k).0 c)) h.0,
        ) in
        rw (c, none_left)
    in_front (inr c) e = rw c (sym (append-nil (of_score k (y ∷ ys))))

    step :
        (y.0 == k ≡ true) ⊎ (y.0 == k ≡ false)
        → of_score k (insert_ranked x ys) ≡ of_score k ys ++ of_score k (x ∷ [])
        → of_score k (y ∷ insert_ranked x ys) ≡ of_score k (y ∷ ys) ++ of_score k (x ∷ [])
    step (inl c) ih = rw c (ap (◌∷◌ y) ih)
    step (inr c) ih = rw c ih

of_score-sort_ranked :
    (k : ℕ) (done xs : List Scored)
    → IsRanked done
    → of_score k (sort_ranked done xs) ≡ of_score k done ++ of_score k xs
unfolding sort_ranked
of_score-sort_ranked k done [] h = sym (append-nil (of_score k done))
of_score-sort_ranked k done (x ∷ xs) h =
    of_score-sort_ranked k (insert_ranked x done) xs (insert_ranked-IsRanked x done h)
    ∙ ap (λ l. l ++ of_score k xs) (of_score-insert_ranked k x done h)
    ∙ append_assoc (of_score k done) (of_score k (x ∷ [])) (of_score k xs)
    ∙ ap (λ l. of_score k done ++ l) (one (Bool-cases (x.0 == k)))
  where
    one :
        (x.0 == k ≡ true) ⊎ (x.0 == k ≡ false)
        → of_score k (x ∷ []) ++ of_score k xs ≡ of_score k (x ∷ xs)
    one (inl c) = rw c
    one (inr c) = rw c

-- The ranking lists the items by falling score, the number of the query's words that occur in the
-- item, and keeps the items of each score as they are, in the order in which they came: so nothing is
-- lost, added or reordered among equals.
pub rank_by_relevance-stable :
    (lower : String → String) (words : String → List String) (items : List String) (query : String)
    → (ranked : List Scored) × (rank_by_relevance lower words items query ≡ map (λ s. s.1) ranked)
      × IsRanked ranked
      × ((k : ℕ) → of_score k ranked ≡ of_score k (map (scored lower words query) items))
unfolding rank_by_relevance
rank_by_relevance-stable lower words items query = (
  sort_ranked [] (map (scored lower words query) items),
  refl,
  sort_ranked-IsRanked [] (map (scored lower words query) items) tt,
  λ k. of_score-sort_ranked k [] (map (scored lower words query) items) tt,
)
