-- ===== src/Queue/Keys.antt =====
-- The primary key `(id, created_at)` of `nuq.queue_scrape`: no statement makes two rows share one.
use mathlib.Core.List.{Memᴰ}
use mathlib.Core.Path.{subst}
use fire_ctrl.Prelude.{
  ℕ, ◌≡◌, ap, Bool, true, false, List, [], ◌∷◌, ◌++◌, arith, All, All-map, All-append, All-Memᴰ,
  Bool-cases, inl, inr, any,
}
use fire_ctrl.Queue.Table.{JobRow, has_key, update_where}
use fire_ctrl.Queue.Updates.{All-of_update}

abbrev pub DistinctKeys : List JobRow → Type 0
DistinctKeys [] = Unit
DistinctKeys (r ∷ rs) = All (λ s. has_key r.id r.created_at s ≡ false) rs × DistinctKeys rs

-- The change of a row that keeps its key.
abbrev pub KeepsKey : (JobRow → JobRow) → Type 0
KeepsKey f = (r : JobRow) → ((f r).id ≡ r.id) × ((f r).created_at ≡ r.created_at)

module _ (p : JobRow → Bool) (f : JobRow → JobRow) (key : KeepsKey f) where
  no_key-update_where :
      (id created_at : ℕ) (rs : List JobRow)
      → All (λ s. has_key id created_at s ≡ false) rs
      → All (λ s. has_key id created_at s ≡ false) (update_where p f rs)
  no_key-update_where id created_at rs h =
      All-of_update (λ s. has_key id created_at s ≡ false) (λ s. has_key id created_at s ≡ false) p
        f rs (λ r k _. rw ((key r).0, (key r).1) k) (λ r k _. k) h

  pub DistinctKeys-update_where :
      (rs : List JobRow) → DistinctKeys rs → DistinctKeys (update_where p f rs)
  unfolding update_where
  DistinctKeys-update_where [] h = tt
  DistinctKeys-update_where (r ∷ rs) h = elim (Bool-cases (p r)) [
    | inl e ↦
        rw (e, (key r).0, (key r).1)
          (no_key-update_where r.id r.created_at rs h.0, DistinctKeys-update_where rs h.1)
    | inr e ↦ rw e (no_key-update_where r.id r.created_at rs h.0, DistinctKeys-update_where rs h.1)
  ]

pub any-false {ℓ} :
    {A : Type ℓ} (p : A → Bool) (xs : List A) → any p xs ≡ false → All (λ x. p x ≡ false) xs
any-false p [] h = tt
any-false p (x ∷ xs) h = elim (Bool-cases (p x)) [
  | inl e ↦ cc (rw e at h)
  | inr e ↦ (e, any-false p xs (rw e at h))
]

has_key_comm :
    (r s : JobRow) → has_key r.id r.created_at s ≡ false → has_key s.id s.created_at r ≡ false
has_key_comm r s h = ground arith

pub DistinctKeys-append :
    (rs : List JobRow) (r : JobRow)
    → DistinctKeys rs
    → All (λ s. has_key r.id r.created_at s ≡ false) rs
    → DistinctKeys (rs ++ r ∷ [])
DistinctKeys-append [] r h k = (tt, tt)
DistinctKeys-append (s ∷ rs) r h k = (
  All-append (λ t. has_key s.id s.created_at t ≡ false) rs (r ∷ []) h.0 (has_key_comm r s k.0, tt),
  DistinctKeys-append rs r h.1 k.1,
)

-- With distinct keys, a property of one row of the table is one of all rows with its key.
pub All-has_key :
    (P : JobRow → Type 0) (rs : List JobRow) {m : JobRow}
    → DistinctKeys rs
    → Memᴰ m rs
    → P m
    → All (λ r. has_key m.id m.created_at r ≡ true → P r) rs
All-has_key P [] d i h = elim i [ ]
All-has_key P (r ∷ rs) {m} d (Memᴰ.head e) h = (
  λ _. subst P e h,
  All-map (λ s. has_key r.id r.created_at s ≡ false) (λ s. has_key m.id m.created_at s ≡ true → P s)
      rs (λ s f g. absurd (no_both s f g)) d.0,
)
  where
    no_both :
        (s : JobRow) → has_key r.id r.created_at s ≡ false → has_key m.id m.created_at s ≡ true → ⊥
    no_both s f g = ground (arith, ap (λ (x : JobRow). x.id) e, ap (λ (x : JobRow). x.created_at) e)
All-has_key P (r ∷ rs) {m} d (Memᴰ.tail i) h = (
  λ g. absurd (no_both (All-Memᴰ (λ s. has_key r.id r.created_at s ≡ false) rs d.0 i) g),
  All-has_key P rs d.1 i h,
)
  where
    no_both : has_key r.id r.created_at m ≡ false → has_key m.id m.created_at r ≡ true → ⊥
    no_both f g = ground arith
