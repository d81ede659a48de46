-- ===== src/Worker/Pool.antt =====
-- One round of `WorkerPool::run` of src/worker.rs: a worker has ended, and the map from ids to handles
-- is built again. `ids` are the keys in the order in which the map was drained; the remaining handles
-- come in any order.
use fire_ctrl.Prelude.{
  ℕ, zero, suc, ◌+◌, ◌≤◌, ◌<◌, ◌≡◌, refl, false, Option, none, some, List, [], ◌∷◌, ◌++◌, arith,
  length, subst, leb, le→leb, if◌then◌else◌,
}

-- `ids[i]`, with none for the panic.
pub get_elem? {ℓ} : {A : Type ℓ} → List A → ℕ → Option A
get_elem? [] i = none
get_elem? (x ∷ xs) zero = some x
get_elem? (x ∷ xs) (suc i) = get_elem? xs i

abbrev pub zip : {H : Type 0} → List ℕ → List H → List (ℕ × H)
zip [] hs = []
zip (x ∷ xs) [] = []
zip (x ∷ xs) (h ∷ hs) = (x, h) ∷ zip xs hs

abbrev with_worker : {H : Type 0} → Option ℕ → H → Option (List (ℕ × H)) → Option (List (ℕ × H))
with_worker (some id) h (some ws) = some ((id, h) ∷ ws)
with_worker _ h _ = none

-- `for (i, h) in remaining.into_iter().enumerate()`.
restore : {H : Type 0} → ℕ → List ℕ → ℕ → List H → Option (List (ℕ × H))
unfolding get_elem?
restore idx ids i [] = some []
restore idx ids i (h ∷ hs) =
    with_worker (get_elem? ids (if leb idx i then i + 1 else i)) h (restore idx ids (suc i) hs)

-- The handles with their ids after the round; `fresh` is the worker that is spawned.
pub respawn : {H : Type 0} → List ℕ → ℕ → List H → H → Option (List (ℕ × H))
unfolding restore
respawn ids idx remaining fresh =
    with_worker (get_elem? ids idx) fresh (restore idx ids 0 remaining)

at_index :
    (ids : List ℕ) (n m : ℕ) (o : Option ℕ) → get_elem? ids n ≡ o → n ≡ m → get_elem? ids m ≡ o
at_index ids n m o h e = subst (λ k. get_elem? ids k ≡ o) e h

restore-behind :
    {H : Type 0} (idx : ℕ) (ids post : List ℕ) (i : ℕ) (hs : List H)
    → idx ≤ i
    → ((j : ℕ) → get_elem? ids (suc (i + j)) ≡ get_elem? post j)
    → length hs ≡ length post
    → restore idx ids i hs ≡ some (zip post hs)
unfolding restore
restore-behind idx ids [] i [] b at n = refl
restore-behind idx ids [] i (h ∷ hs) b at n = absurd (omega (arith, n))
restore-behind idx ids (x ∷ post) i [] b at n = absurd (omega (arith, n))
restore-behind idx ids (x ∷ post) i (h ∷ hs) b at n =
    let ih =
      restore-behind idx ids post (suc i) hs (omega arith)
        (λ j.
          at_index ids (suc (i + suc j)) (suc (suc i + j)) (get_elem? post j) (at (suc j))
            (omega arith))
        (omega (arith, n)) in
    let here = at_index ids (suc (i + 0)) (i + 1) (some x) (at 0) (omega arith) in
    rw (le→leb idx i b) (rw (here, with_worker) (rw (ih, with_worker)))

restore-all :
    {H : Type 0} (idx : ℕ) (ids pre post : List ℕ) (i : ℕ) (hs : List H)
    → i + length pre ≡ idx
    → ((j : ℕ) → j < length pre → get_elem? ids (i + j) ≡ get_elem? pre j)
    → ((j : ℕ) → get_elem? ids (suc (idx + j)) ≡ get_elem? post j)
    → length hs ≡ length pre + length post
    → restore idx ids i hs ≡ some (zip (pre ++ post) hs)
unfolding restore
restore-all idx ids [] post i hs e front at n =
    restore-behind idx ids post i hs (omega arith)
      (λ j. at_index ids (suc (idx + j)) (suc (i + j)) (get_elem? post j) (at j) (omega arith))
      (omega (arith, n))
restore-all idx ids (x ∷ pre) post i [] e front at n = absurd (omega (arith, n))
restore-all idx ids (x ∷ pre) post i (h ∷ hs) e front at n =
    let ih =
      restore-all idx ids pre post (suc i) hs (omega arith)
        (λ j b.
          at_index ids (i + suc j) (suc i + j) (get_elem? pre j) (front (suc j) (omega arith))
            (omega arith))
        at (omega (arith, n)) in
    let here = at_index ids (i + 0) i (some x) (front 0 (omega arith)) (omega arith) in
    rw (lt→leb-false idx i (omega arith)) (rw (here, with_worker) (rw (ih, with_worker)))
  where
    lt→leb-false : (a b : ℕ) → b < a → leb a b ≡ false
    lt→leb-false a b k = ground arith

get_elem?-append :
    (pre : List ℕ) (post : List ℕ) (j : ℕ)
    → j < length pre
    → get_elem? (pre ++ post) j ≡ get_elem? pre j
unfolding get_elem?
get_elem?-append [] post j b = absurd (omega arith)
get_elem?-append (x ∷ pre) post zero b = refl
get_elem?-append (x ∷ pre) post (suc j) b = get_elem?-append pre post j (omega arith)

get_elem?-append_right :
    (pre : List ℕ) (post : List ℕ) (j : ℕ)
    → get_elem? (pre ++ post) (length pre + j) ≡ get_elem? post j
unfolding get_elem?
get_elem?-append_right [] post j = at_index post j (0 + j) (get_elem? post j) refl (omega arith)
get_elem?-append_right (x ∷ pre) post j =
    at_index (x ∷ pre ++ post) (suc (length pre + j)) (length (x ∷ pre) + j) (get_elem? post j)
      (get_elem?-append_right pre post j) (omega arith)

-- When the worker at any place of the drained map ends, and the remaining handles, in any order, are
-- as many as the other ids, no index is out of range: the round gives the new worker the id of the
-- one that ended, and each remaining handle one of the other ids, each id once.
pub respawn_lem :
    {H : Type 0} (pre post : List ℕ) (dead : ℕ) (remaining : List H) (fresh : H)
    → length remaining ≡ length pre + length post
    → respawn (pre ++ dead ∷ post) (length pre) remaining fresh
      ≡ some ((dead, fresh) ∷ zip (pre ++ post) remaining)
unfolding respawn
respawn_lem pre post dead remaining fresh n =
    let ids = pre ++ dead ∷ post in
    let here =
      at_index ids (length pre + 0) (length pre) (some dead)
        (unfold get_elem? in get_elem?-append_right pre (dead ∷ post) 0) (omega arith) in
    let all =
      restore-all (length pre) ids pre post 0 remaining (omega arith)
        (λ j b.
          at_index ids j (0 + j) (get_elem? pre j) (get_elem?-append pre (dead ∷ post) j b)
            (omega arith))
        (λ j.
          at_index ids (length pre + suc j) (suc (length pre + j)) (get_elem? post j)
            (unfold get_elem? in get_elem?-append_right pre (dead ∷ post) (suc j)) (omega arith))
        n in
    rw (here, with_worker) (rw (all, with_worker))
