-- ===== src/Prelude/Picks.antt =====
-- Taking an element out of a list.
use mathlib.Core.List.{List, ◌∷◌}
use timely_mirror.Prelude.Vectors.{All}

pub data Picks {ℓ} {A : Type ℓ} (x : A) : List A → List A → Type ℓ where
  first : {xs : List A} → Picks x xs (x ∷ xs)
  later : {y : A} {xs ys : List A} → Picks x ys xs → Picks x (y ∷ ys) (y ∷ xs)

pub All-Picks {ℓ κ} :
    {A : Type ℓ} (P : A → Type κ) {x : A} {xs ys : List A}
    → Picks x xs ys
    → All P ys
    → P x × All P xs
All-Picks P first h = h
All-Picks P (later p) h = let (at_x, rest) = All-Picks P p h.1 in (at_x, (h.0, rest))
