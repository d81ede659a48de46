-- ===== src/Prelude/Action.antt =====
-- Code that reads and writes a state and may stop with an error: `?` returns the error, and what was
-- written stays written.
use mathlib.Core.Path.{◌≡◌, refl}
use fire_ctrl.Prelude.Outcome.{Result, ok, err}

abbrev pub Action : Type 0 → Type 0 → Type 0 → Type 0
Action E S A = S → Result E A × S

abbrev pub continue : {E S A B : Type 0} → Result E A × S → (A → Action E S B) → Result E B × S
continue (ok a, s) f = f a s
continue (err e, s) f = (err e, s)

infixl 5 ◌>>=◌ ◌>>◌
abbrev pub ◌>>=◌ : {E S A B : Type 0} → Action E S A → (A → Action E S B) → Action E S B
◌>>=◌ m f s = continue (m s) f

abbrev pub ◌>>◌ : {E S B : Type 0} → Action E S Unit → Action E S B → Action E S B
first >> second = first >>= λ done. second

abbrev pub lift : {E S A : Type 0} → Result E A → Action E S A
lift r s = (r, s)

-- A successful sequence has run its first part, and its second part from what the first one left.
pub continue-eq-ok :
    {E S A B : Type 0} (x : Result E A × S) (f : A → Action E S B) {b : B}
    → (continue x f).0 ≡ ok b
    → (a : A) × (x.0 ≡ ok a) × (f a x.1 ≡ continue x f)
continue-eq-ok (ok a, s) f h = (a, refl, refl)
continue-eq-ok (err e, s) f h = cc
