-- ===== src/Prelude/Vectors.antt =====
-- The iterator adaptors `any` and `all`, and `Vec::retain`.
use Prim.Native.Nat.{ℕ, zero, suc, ◌≤◌}
use mathlib.Core.Path.{◌≡◌, refl, sym, subst}
use mathlib.Core.Logic.{inl, inr}
use mathlib.Core.Bool.{Bool, true, false, ◌&&◌, ◌||◌}
use mathlib.Core.List.{List, [], ◌∷◌, ◌++◌, Memᴰ}
use mathlib.Core.List.Memᴰ.{head as here, tail as there}
use native.Mathlib.Omega.{arith}
use timely_mirror.Prelude.Tests.{if◌then◌else◌, Bool-cases}
use timely_mirror.Prelude.Lists.{length, take, drop}

module _ {ℓ} {A : Type ℓ} where
  abbrev pub any : (A → Bool) → List A → Bool
  any p [] = false
  any p (x ∷ xs) = p x || any p xs

  abbrev pub all : (A → Bool) → List A → Bool
  all p [] = true
  all p (x ∷ xs) = p x && all p xs

  abbrev pub retain : (A → Bool) → List A → List A
  retain p [] = []
  retain p (x ∷ xs) = if p x then x ∷ retain p xs else retain p xs

  -- Every element satisfies `P`.
  abbrev pub All {κ} : (A → Type κ) → List A → Type κ
  All P [] = Unit
  All P (x ∷ xs) = P x × All P xs

  pub any-append : (p : A → Bool) (xs ys : List A) → any p (xs ++ ys) ≡ (any p xs || any p ys)
  any-append p [] ys = refl
  any-append p (x ∷ xs) ys = ground (arith, any-append p xs ys)

  pub all-append : (p : A → Bool) (xs ys : List A) → all p (xs ++ ys) ≡ (all p xs && all p ys)
  all-append p [] ys = refl
  all-append p (x ∷ xs) ys = ground (arith, all-append p xs ys)

  pub any-witness :
      (p : A → Bool) (xs : List A) → any p xs ≡ true → (x : A) × Memᴰ x xs × (p x ≡ true)
  any-witness p [] h = absurd (ground arith)
  any-witness p (x ∷ xs) h = elim (Bool-cases (p x)) [
    | inl e ↦ (x, here refl, e)
    | inr e ↦ let (y, place, py) = any-witness p xs (ground arith) in (y, there place, py)
  ]

  pub any_of_elem : (p : A → Bool) (x : A) (xs : List A) → Memᴰ x xs → p x ≡ true → any p xs ≡ true
  any_of_elem p x [] m h = elim m [ ]
  any_of_elem p x (y ∷ ys) (here e) h = rw (← e) (ground arith)
  any_of_elem p x (y ∷ ys) (there m) h = ground (arith, any_of_elem p x ys m h)

  pub All-elem {κ} : (P : A → Type κ) (x : A) (xs : List A) → Memᴰ x xs → All P xs → P x
  All-elem P x [] m h = elim m [ ]
  All-elem P x (y ∷ ys) (here e) h = subst P (sym e) h.0
  All-elem P x (y ∷ ys) (there m) h = All-elem P x ys m h.1

  pub all_elem : (p : A → Bool) (x : A) (xs : List A) → Memᴰ x xs → all p xs ≡ true → p x ≡ true
  all_elem p x [] m h = elim m [ ]
  all_elem p x (y ∷ ys) (here e) h = rw e (ground arith)
  all_elem p x (y ∷ ys) (there m) h = all_elem p x ys m (ground arith)

  pub all-intro :
      (p : A → Bool) (xs : List A) → ((x : A) → Memᴰ x xs → p x ≡ true) → all p xs ≡ true
  all-intro p [] f = refl
  all-intro p (x ∷ xs) f = ground (arith, f x (here refl), all-intro p xs (λ y m. f y (there m)))

  pub Memᴰ-retain :
      (p : A → Bool) (x : A) (xs : List A) → Memᴰ x (retain p xs) → Memᴰ x xs × (p x ≡ true)
  Memᴰ-retain p x [] m = elim m [ ]
  Memᴰ-retain p x (y ∷ ys) m = elim (Bool-cases (p y)) [
    | inl e ↦ kept e (Memᴰ-retain p x ys) (rw e at m)
    | inr e ↦ skip (Memᴰ-retain p x ys (rw e at m))
  ]
    where
      skip : Memᴰ x ys × (p x ≡ true) → Memᴰ x (y ∷ ys) × (p x ≡ true)
      skip (place, h) = (there place, h)

      kept :
          p y ≡ true
          → (Memᴰ x (retain p ys) → Memᴰ x ys × (p x ≡ true))
          → Memᴰ x (y ∷ retain p ys)
          → Memᴰ x (y ∷ ys) × (p x ≡ true)
      kept e rec (here q) = (here q, rw q e)
      kept e rec (there k) = skip (rec k)

  pub Memᴰ-retain_intro :
      (p : A → Bool) (x : A) (xs : List A) → Memᴰ x xs → p x ≡ true → Memᴰ x (retain p xs)
  Memᴰ-retain_intro p x [] m h = elim m [ ]
  Memᴰ-retain_intro p x (y ∷ ys) (here e) h = let h' : p y ≡ true = rw (← e) h in rw h' (here e)
  Memᴰ-retain_intro p x (y ∷ ys) (there m) h = elim (Bool-cases (p y)) [
    | inl e ↦ rw e (there (Memᴰ-retain_intro p x ys m h))
    | inr e ↦ rw e (Memᴰ-retain_intro p x ys m h)
  ]

  pub any_mono :
      (p q : A → Bool) (xs : List A)
      → ((x : A) → p x ≡ true → q x ≡ true)
      → any p xs ≡ true
      → any q xs ≡ true
  any_mono p q [] f h = h
  any_mono p q (x ∷ xs) f h = elim (Bool-cases (p x)) [
    | inl e ↦ ground (arith, f x e)
    | inr e ↦ ground (arith, any_mono p q xs f (ground arith))
  ]

  pub All-mono {κ μ} :
      (P : A → Type κ) (Q : A → Type μ) (xs : List A) → ((x : A) → P x → Q x) → All P xs → All Q xs
  All-mono P Q [] f h = tt
  All-mono P Q (x ∷ xs) f h = (f x h.0, All-mono P Q xs f h.1)

  pub All-take {κ} : (P : A → Type κ) (n : ℕ) (xs : List A) → All P xs → All P (take n xs)
  All-take P zero xs h = tt
  All-take P (suc n) [] h = tt
  All-take P (suc n) (x ∷ xs) h = (h.0, All-take P n xs h.1)

  pub All-drop {κ} : (P : A → Type κ) (n : ℕ) (xs : List A) → All P xs → All P (drop n xs)
  All-drop P zero xs h = h
  All-drop P (suc n) [] h = tt
  All-drop P (suc n) (x ∷ xs) h = All-drop P n xs h.1

  pub All-append {κ} : (P : A → Type κ) (xs ys : List A) → All P xs → All P ys → All P (xs ++ ys)
  All-append P [] ys h k = k
  All-append P (x ∷ xs) ys h k = (h.0, All-append P xs ys h.1 k)

  pub All-retain {κ} :
      (P : A → Type κ) (p : A → Bool) (xs : List A) → All P xs → All P (retain p xs)
  All-retain P p [] h = h
  All-retain P p (x ∷ xs) h = ground (arith, All-retain P p xs h.1)

  pub length-retain-le : (p : A → Bool) (xs : List A) → length (retain p xs) ≤ length xs
  length-retain-le p [] = omega arith
  length-retain-le p (x ∷ xs) = ground (arith, length-retain-le p xs)
