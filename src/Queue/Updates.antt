-- ===== src/Queue/Updates.antt =====
-- Laws of `UPDATE … WHERE`, shared by the proofs about the statements.
use fire_ctrl.Prelude.{◌≡◌, Bool, true, false, List, [], ◌∷◌, All, Bool-cases, inl, inr}
use fire_ctrl.Queue.Table.{JobRow, update_where}

-- A predicate that the changed rows keep holds of the whole table.
pub All-update_where :
    (P : JobRow → Type 0) (p : JobRow → Bool) (f : JobRow → JobRow) (rs : List JobRow)
    → ((r : JobRow) → p r ≡ true → P r → P (f r))
    → All P rs
    → All P (update_where p f rs)
unfolding update_where
All-update_where P p f [] keeps h = tt
All-update_where P p f (r ∷ rs) keeps h = elim (Bool-cases (p r)) [
  | inl e ↦ (rw e (keeps r e h.0), All-update_where P p f rs keeps h.1)
  | inr e ↦ (rw e h.0, All-update_where P p f rs keeps h.1)
]

-- What each row has after the update, by whether the test passed.
pub All-of_update :
    (P Q : JobRow → Type 0) (p : JobRow → Bool) (f : JobRow → JobRow) (rs : List JobRow)
    → ((r : JobRow) → P r → p r ≡ true → Q (f r))
    → ((r : JobRow) → P r → p r ≡ false → Q r)
    → All P rs
    → All Q (update_where p f rs)
unfolding update_where
All-of_update P Q p f [] yes' no' h = tt
All-of_update P Q p f (r ∷ rs) yes' no' h = elim (Bool-cases (p r)) [
  | inl e ↦ (rw e (yes' r h.0 e), All-of_update P Q p f rs yes' no' h.1)
  | inr e ↦ (rw e (no' r h.0 e), All-of_update P Q p f rs yes' no' h.1)
]

pub All-trivial : (rs : List JobRow) → All (λ r. Unit {0}) rs
All-trivial [] = tt
All-trivial (r ∷ rs) = (tt, All-trivial rs)

-- The same with two facts about each row.
pub All-of_both :
    (P Q : JobRow → Type 0) (p : JobRow → Bool) (f : JobRow → JobRow) (rs : List JobRow)
    → ((r : JobRow) → P r → Q r → p r ≡ true → P (f r))
    → All P rs
    → All Q rs
    → All P (update_where p f rs)
unfolding update_where
All-of_both P Q p f [] keeps h k = tt
All-of_both P Q p f (r ∷ rs) keeps h k = elim (Bool-cases (p r)) [
  | inl e ↦ (rw e (keeps r h.0 k.0 e), All-of_both P Q p f rs keeps h.1 k.1)
  | inr e ↦ (rw e h.0, All-of_both P Q p f rs keeps h.1 k.1)
]
