-- ===== src/Antichain/Insert.antt =====
-- Insertion keeps an antichain, and adds exactly the times from the element on.
use timely_mirror.Prelude.{
  ◌≡◌, refl, ◌∙◌, Bool, true, false, List, [], ◌∷◌, ◌++◌, ◌||◌, ◌&&◌, not, any, all, retain, All,
  any-append, arith, Bool-cases, inl, inr,
}
use timely_mirror.Order.{PartialOrder}
use timely_mirror.Antichain.{
  Antichain, new, insert, extend_from, extend, less_equal, insert_all, from_vec,
}

module _ {ℓ} {A : Type ℓ} ⦃p : PartialOrder A⦄ where
  -- Neither is less than or equal to the other.
  abbrev pub IsIncomparable : A → A → Type 0
  IsIncomparable x y = (p.less_equal x y ≡ false) × (p.less_equal y x ≡ false)

  abbrev pub AllIncomparable : List A → Type 0
  AllIncomparable [] = Unit
  AllIncomparable (x ∷ xs) = All (IsIncomparable x) xs × AllIncomparable xs

  abbrev pub IsAntichain : Antichain A → Type 0
  IsAntichain a = AllIncomparable a.elements

  -- The loop of `retain` and the `push`, under the test that guards them.
  push-AllIncomparable :
      (x : A) (xs : List A)
      → AllIncomparable xs
      → any (λ y. p.less_equal y x) xs ≡ false
      → AllIncomparable (retain (λ y. not (p.less_equal x y)) xs ++ x ∷ [])
  push-AllIncomparable x [] h n = (tt, tt)
  push-AllIncomparable x (y ∷ ys) h n =
      ground (arith, push-AllIncomparable x ys h.1 (ground arith), kept ys h.0)
    where
      kept :
          (zs : List A)
          → All (IsIncomparable y) zs
          → p.less_equal x y ≡ false
          → p.less_equal y x ≡ false
          → All (IsIncomparable y) (retain (λ z. not (p.less_equal x z)) zs ++ x ∷ [])
      kept [] k a b = ((b, a), tt)
      kept (z ∷ zs) k a b = ground (arith, kept zs k.1 a b)

  pub insert-IsAntichain : (a : Antichain A) (x : A) → IsAntichain a → IsAntichain (insert a x).0
  unfolding insert
  insert-IsAntichain a x h = elim (Bool-cases (any (λ y. p.less_equal y x) a.elements)) [
    | inl old ↦ rw old h
    | inr fresh ↦ rw fresh (push-AllIncomparable x a.elements h fresh)
  ]

  -- What is dropped lies above the new element.
  any-retain :
      (x t : A) (xs : List A)
      → (any (λ y. p.less_equal y t) (retain (λ y. not (p.less_equal x y)) xs) || p.less_equal x t)
        ≡ (any (λ y. p.less_equal y t) xs || p.less_equal x t)
  any-retain x t [] = refl
  any-retain x t (y ∷ ys) = ground (arith, any-retain x t ys, p.less_equal_trans x y t)

  any_covered :
      (x t : A) (xs : List A)
      → any (λ y. p.less_equal y x) xs ≡ true
      → p.less_equal x t ≡ true
      → any (λ y. p.less_equal y t) xs ≡ true
  any_covered x t [] h k = absurd (ground arith)
  any_covered x t (y ∷ ys) h k = ground (arith, any_covered x t ys, p.less_equal_trans y x t)

  -- After `insert`, the antichain is below exactly what it was below, and what `x` is below.
  pub less_equal-insert :
      (a : Antichain A) (x t : A)
      → less_equal (insert a x).0 t ≡ (less_equal a t || p.less_equal x t)
  unfolding insert less_equal
  less_equal-insert a x t = elim (Bool-cases (any (λ y. p.less_equal y x) a.elements)) [
    | inl old ↦ rw old (ground (arith, any_covered x t a.elements old))
    | inr fresh ↦ rw fresh (
        any-append (λ y. p.less_equal y t) (retain (λ y. not (p.less_equal x y)) a.elements)
          (x ∷ [])
        ∙ ground (arith, any-retain x t a.elements))
  ]

  less_equal-extend_from :
      (a : Antichain A) (xs : List A) (added : Bool) (t : A)
      → less_equal (extend_from a xs added).0 t ≡ (less_equal a t || any (λ x. p.less_equal x t) xs)
  unfolding extend_from
  less_equal-extend_from a [] added t = ground arith
  less_equal-extend_from a (x ∷ xs) added t = ground (
    arith,
    less_equal-extend_from (insert a x).0 xs ((insert a x).1 || added) t,
    less_equal-insert a x t,
  )

  extend_from-IsAntichain :
      (a : Antichain A) (xs : List A) (added : Bool)
      → IsAntichain a
      → IsAntichain (extend_from a xs added).0
  unfolding extend_from
  extend_from-IsAntichain a [] added h = h
  extend_from-IsAntichain a (x ∷ xs) added h =
      extend_from-IsAntichain (insert a x).0 xs _ (insert-IsAntichain a x h)

  insert-added : (a : Antichain A) (x : A) → (insert a x).1 ≡ not (less_equal a x)
  unfolding insert less_equal
  insert-added a x = ground arith

  insert_covered : (a : Antichain A) (x : A) → less_equal a x ≡ true → (insert a x).0 ≡ a
  unfolding insert less_equal
  insert_covered a x h = ground arith

  extend_from-added :
      (a : Antichain A) (xs : List A) (added : Bool)
      → (extend_from a xs added).1 ≡ (added || not (all (less_equal a) xs))
  unfolding extend_from
  extend_from-added a [] added = ground arith
  extend_from-added a (x ∷ xs) added =
      step (less_equal a x) refl (extend_from-added a xs added)
        (extend_from-added (insert a x).0 xs true)
    where
      step :
          (b : Bool)
          → less_equal a x ≡ b
          → (extend_from a xs added).1 ≡ (added || not (all (less_equal a) xs))
          → (extend_from (insert a x).0 xs true).1
            ≡ (true || not (all (less_equal (insert a x).0) xs))
          → (extend_from (insert a x).0 xs ((insert a x).1 || added)).1
            ≡ (added || not (less_equal a x && all (less_equal a) xs))
      step true h f g = rw (insert-added a x, insert_covered a x h, h) f
      step false h f g = rw (insert-added a x, h) (g ∙ ground arith)

  -- `extend` returns whether some element was not covered before the call.
  pub extend-added : (a : Antichain A) (xs : List A) → (extend a xs).1 ≡ not (all (less_equal a) xs)
  unfolding extend
  extend-added a xs = extend_from-added a xs false

  pub less_equal-extend :
      (a : Antichain A) (xs : List A) (t : A)
      → less_equal (extend a xs).0 t ≡ (less_equal a t || any (λ x. p.less_equal x t) xs)
  unfolding extend
  less_equal-extend a xs t = less_equal-extend_from a xs false t

  pub extend-IsAntichain :
      (a : Antichain A) (xs : List A) → IsAntichain a → IsAntichain (extend a xs).0
  unfolding extend
  extend-IsAntichain a xs h = extend_from-IsAntichain a xs false h

  -- `extend` keeps an antichain, puts it below exactly what the elements are below besides, and
  -- returns whether some element was not covered before the call.
  pub extend_lem :
      (a : Antichain A) (xs : List A)
      → IsAntichain a
      → IsAntichain (extend a xs).0
        × ((t : A)
            → less_equal (extend a xs).0 t ≡ (less_equal a t || any (λ x. p.less_equal x t) xs))
        × ((extend a xs).1 ≡ not (all (less_equal a) xs))
  extend_lem a xs h = (extend-IsAntichain a xs h, less_equal-extend a xs, extend-added a xs)

  insert_all-eq-extend_from :
      (a : Antichain A) (xs : List A) (added : Bool) → insert_all a xs ≡ (extend_from a xs added).0
  unfolding insert_all extend_from
  insert_all-eq-extend_from a [] added = refl
  insert_all-eq-extend_from a (x ∷ xs) added = insert_all-eq-extend_from (insert a x).0 xs _

  pub from_vec-IsAntichain : (xs : List A) → IsAntichain (from_vec xs)
  unfolding from_vec
  from_vec-IsAntichain xs =
      rw (insert_all-eq-extend_from new xs false) (extend_from-IsAntichain new xs false tt)

  -- The antichain of a vector is below what some element of the vector is below.
  pub less_equal-from_vec :
      (xs : List A) (t : A) → less_equal (from_vec xs) t ≡ any (λ x. p.less_equal x t) xs
  unfolding from_vec less_equal
  less_equal-from_vec xs t =
      rw (insert_all-eq-extend_from new xs false) (less_equal-extend_from new xs false t)
