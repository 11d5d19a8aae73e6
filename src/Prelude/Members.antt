-- ===== src/Prelude/Members.antt =====
-- Membership in lists that are appended or mapped, and how these change lengths.
use Prim.Native.Nat.{ℕ, zero, suc}
use timely_mirror.Prelude.Lists.{length, drop, is_empty_list}
use mathlib.Core.Bool.{true}
use native.Mathlib.Omega.{arith}
use timely_mirror.Prelude.Vectors.{All}
use mathlib.Core.Path.{◌≡◌, refl, ap}
use mathlib.Core.Logic.{◌⊎◌, inl, inr}
use mathlib.Core.List.{List, [], ◌∷◌, ◌++◌, map, Memᴰ}
use mathlib.Core.List.Memᴰ.{head as here, tail as there}

module _ {ℓ} {A : Type ℓ} where
  pub Memᴰ-append_left : (x : A) (xs ys : List A) → Memᴰ x xs → Memᴰ x (xs ++ ys)
  Memᴰ-append_left x [] ys m = elim m [ ]
  Memᴰ-append_left x (y ∷ xs) ys (here e) = here e
  Memᴰ-append_left x (y ∷ xs) ys (there m) = there (Memᴰ-append_left x xs ys m)

  pub Memᴰ-append_right : (x : A) (xs ys : List A) → Memᴰ x ys → Memᴰ x (xs ++ ys)
  Memᴰ-append_right x [] ys m = m
  Memᴰ-append_right x (y ∷ xs) ys m = there (Memᴰ-append_right x xs ys m)

  pub Memᴰ-append : (x : A) (xs ys : List A) → Memᴰ x (xs ++ ys) → Memᴰ x xs ⊎ Memᴰ x ys
  Memᴰ-append x [] ys m = inr m
  Memᴰ-append x (y ∷ xs) ys (here e) = inl (here e)
  Memᴰ-append x (y ∷ xs) ys (there m) = elim (Memᴰ-append x xs ys m) [
    | inl l ↦ inl (there l)
    | inr r ↦ inr r
  ]

  pub Memᴰ-map {κ} :
      {B : Type κ} (f : A → B) (x : A) (xs : List A) → Memᴰ x xs → Memᴰ (f x) (map f xs)
  Memᴰ-map f x [] m = elim m [ ]
  Memᴰ-map f x (y ∷ xs) (here e) = here (ap f e)
  Memᴰ-map f x (y ∷ xs) (there m) = there (Memᴰ-map f x xs m)

  pub length-map {κ} : {B : Type κ} (f : A → B) (xs : List A) → length (map f xs) ≡ length xs
  length-map f [] = refl
  length-map f (x ∷ xs) = ap suc (length-map f xs)

  pub map-drop {κ} :
      {B : Type κ} (f : A → B) (n : ℕ) (xs : List A) → map f (drop n xs) ≡ drop n (map f xs)
  map-drop f zero xs = refl
  map-drop f (suc n) [] = refl
  map-drop f (suc n) (x ∷ xs) = map-drop f n xs

  pub All-intro {κ} : (P : A → Type κ) (xs : List A) → ((x : A) → Memᴰ x xs → P x) → All P xs
  All-intro P [] f = tt
  All-intro P (x ∷ xs) f = (f x (here refl), All-intro P xs (λ y m. f y (there m)))

  pub nil_of_is_empty : (xs : List A) → is_empty_list xs ≡ true → xs ≡ []
  nil_of_is_empty [] h = refl
  nil_of_is_empty (x ∷ xs) h = absurd (ground arith)
