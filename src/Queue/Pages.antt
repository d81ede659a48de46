-- ===== src/Queue/Pages.antt =====
-- `get_group_results`: the pages of a group's rows and the cursor from one page to the next.
use mathlib.Core.Option.{some-injective}
use mathlib.Core.Path.{subst}
use fire_ctrl.Prelude.{
  ℕ, zero, suc, ◌≡◌, refl, ap, Bool, true, false, none, some, List, [], ◌∷◌, map, arith, All,
  All-map, Bool-cases, inl, inr, keep, take, drop, last, ok,
}
use fire_ctrl.Prelude.Int.{pos}
use fire_ctrl.Queue.Table.{JobRow, Db, Call, run, has_key, map_queue_row}
use fire_ctrl.Queue.Groups.{
  key_ltb, insert_ordered, order_by_key, in_group, group_rows, get_group_results,
}
use fire_ctrl.Queue.Keys.{DistinctKeys}

-- Each row has a smaller `(created_at, id)` than all later ones.
abbrev IsOrdered : List JobRow → Type 0
IsOrdered [] = Unit
IsOrdered (r ∷ rs) = All (λ s. key_ltb r.created_at r.id s ≡ true) rs × IsOrdered rs

key_ltb_irrefl : (r : JobRow) → key_ltb r.created_at r.id r ≡ false
key_ltb_irrefl r = ground arith

key_ltb_asymm :
    (r s : JobRow) → key_ltb r.created_at r.id s ≡ true → key_ltb s.created_at s.id r ≡ false
key_ltb_asymm r s h = ground arith

key_ltb_trans :
    (r s t : JobRow)
    → key_ltb r.created_at r.id s ≡ true
    → key_ltb s.created_at s.id t ≡ true
    → key_ltb r.created_at r.id t ≡ true
key_ltb_trans r s t h k = ground arith

key_ltb_total :
    (r s : JobRow)
    → has_key r.id r.created_at s ≡ false
    → key_ltb s.created_at s.id r ≡ false
    → key_ltb r.created_at r.id s ≡ true
key_ltb_total r s h k = ground arith

module _ (P : JobRow → Type 0) where
  All-insert_ordered :
      (r : JobRow) (rs : List JobRow) → P r → All P rs → All P (insert_ordered r rs)
  unfolding insert_ordered
  All-insert_ordered r [] h k = (h, tt)
  All-insert_ordered r (s ∷ rs) h k = elim (Bool-cases (key_ltb s.created_at s.id r)) [
    | inl e ↦ rw e (k.0, All-insert_ordered r rs h k.1)
    | inr e ↦ rw e (h, k)
  ]

  All-order_by_key : (rs : List JobRow) → All P rs → All P (order_by_key rs)
  unfolding order_by_key
  All-order_by_key [] h = tt
  All-order_by_key (r ∷ rs) h = All-insert_ordered r (order_by_key rs) h.0 (All-order_by_key rs h.1)

  All-keep : (p : JobRow → Bool) (rs : List JobRow) → All P rs → All P (keep p rs)
  All-keep p [] h = tt
  All-keep p (r ∷ rs) h = elim (Bool-cases (p r)) [
    | inl e ↦ rw e (h.0, All-keep p rs h.1)
    | inr e ↦ rw e (All-keep p rs h.1)
  ]

  last-take-of_All :
      (n : ℕ) (rs : List JobRow) (m : JobRow) → last (take n rs) ≡ some m → All P rs → P m
  last-take-of_All zero rs m e h = cc
  last-take-of_All (suc n) [] m e h = cc
  last-take-of_All (suc zero) (r ∷ rs) m e h = subst P (some-injective _ _ e) h.0
  last-take-of_All (suc (suc n)) (r ∷ []) m e h = subst P (some-injective _ _ e) h.0
  last-take-of_All (suc (suc n)) (r ∷ s ∷ rs) m e h = last-take-of_All (suc n) (s ∷ rs) m e h.1

DistinctKeys-keep :
    (p : JobRow → Bool) (rs : List JobRow) → DistinctKeys rs → DistinctKeys (keep p rs)
DistinctKeys-keep p [] h = tt
DistinctKeys-keep p (r ∷ rs) h = elim (Bool-cases (p r)) [
  | inl e ↦
      rw e
        (All-keep (λ s. has_key r.id r.created_at s ≡ false) p rs h.0, DistinctKeys-keep p rs h.1)
  | inr e ↦ rw e (DistinctKeys-keep p rs h.1)
]

insert_ordered-IsOrdered :
    (r : JobRow) (rs : List JobRow)
    → All (λ s. has_key r.id r.created_at s ≡ false) rs
    → IsOrdered rs
    → IsOrdered (insert_ordered r rs)
unfolding insert_ordered
insert_ordered-IsOrdered r [] d h = (tt, tt)
insert_ordered-IsOrdered r (s ∷ rs) d h = elim (Bool-cases (key_ltb s.created_at s.id r)) [
  | inl e ↦ rw e (
    All-insert_ordered (λ t. key_ltb s.created_at s.id t ≡ true) r rs e h.0,
    insert_ordered-IsOrdered r rs d.1 h.1,
  )
  | inr e ↦
      let first = key_ltb_total r s d.0 e in
      rw e (
        (
          first,
          All-map (λ t. key_ltb s.created_at s.id t ≡ true)
              (λ t. key_ltb r.created_at r.id t ≡ true) rs (λ t k. key_ltb_trans r s t first k) h.0,
        ),
        h,
      )
]

order_by_key-IsOrdered : (rs : List JobRow) → DistinctKeys rs → IsOrdered (order_by_key rs)
unfolding order_by_key
order_by_key-IsOrdered [] d = tt
order_by_key-IsOrdered (r ∷ rs) d =
    insert_ordered-IsOrdered r (order_by_key rs)
      (All-order_by_key (λ s. has_key r.id r.created_at s ≡ false) rs d.0)
      (order_by_key-IsOrdered rs d.1)

pub group_rows-IsOrdered :
    (g : ℕ) (jobs : List JobRow) → DistinctKeys jobs → IsOrdered (group_rows g jobs)
unfolding group_rows
group_rows-IsOrdered g jobs d =
    order_by_key-IsOrdered (keep (in_group g) jobs) (DistinctKeys-keep (in_group g) jobs d)

keep-All : (p : JobRow → Bool) (rs : List JobRow) → All (λ r. p r ≡ true) rs → keep p rs ≡ rs
keep-All p [] h = refl
keep-All p (r ∷ rs) h = rw h.0 (ap (◌∷◌ r) (keep-All p rs h.1))

keep_first :
    (r m : JobRow) (rs : List JobRow)
    → r ≡ m
    → All (λ s. key_ltb r.created_at r.id s ≡ true) rs
    → keep (key_ltb m.created_at m.id) (r ∷ rs) ≡ rs
keep_first r m rs e h =
    subst (λ x. keep (key_ltb x.created_at x.id) (r ∷ rs) ≡ rs) e
      (rw (key_ltb_irrefl r) (keep-All (key_ltb r.created_at r.id) rs h))

-- What comes after the last of the first rows is the rest.
keep-after_last :
    (n : ℕ) (rs : List JobRow) (m : JobRow)
    → IsOrdered rs
    → last (take n rs) ≡ some m
    → keep (key_ltb m.created_at m.id) rs ≡ drop n rs
keep-after_last zero rs m o e = cc
keep-after_last (suc n) [] m o e = cc
keep-after_last (suc zero) (r ∷ rs) m o e = keep_first r m rs (some-injective _ _ e) o.0
keep-after_last (suc (suc n)) (r ∷ []) m o e = keep_first r m [] (some-injective _ _ e) o.0
keep-after_last (suc (suc n)) (r ∷ s ∷ rs) m o e =
    rw
      (key_ltb_asymm r m
        (last-take-of_All (λ t. key_ltb r.created_at r.id t ≡ true) (suc n) (s ∷ rs) m e o.0))
      (keep-after_last (suc n) (s ∷ rs) m o.1 e)

module _ (c : Call) (g k n : ℕ) (db : Db) (m : JobRow) where
  -- In a table with distinct primary keys, when the server answers: if `m` is the last of the first
  -- k rows of the group, the page of at most n rows after the cursor of `m` holds the rows from the
  -- k-th on, so that consecutive pages neither skip nor repeat a row, and no row is changed.
  pub get_group_results-next_page :
      c.fault ≡ none
      → DistinctKeys db.jobs
      → last (take k (group_rows g db.jobs)) ≡ some m
      → get_group_results c g (pos n) (some m.id) (some m.created_at) db
        ≡ (ok (map map_queue_row (take n (drop k (group_rows g db.jobs)))), db)
  unfolding get_group_results
  get_group_results-next_page up d e =
      let rows = keep-after_last k (group_rows g db.jobs) m (group_rows-IsOrdered g db.jobs d) e in
      simp (up, run) (rw rows)
