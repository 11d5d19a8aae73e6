-- ===== src/Antichain.antt =====
-- `Antichain` and `AntichainRef` of timely/src/progress/frontier.rs: minimal sets of mutually
-- incomparable elements.
pub mod Insert
pub mod Compare
pub mod Ref
use timely_mirror.Prelude.{
  ℕ, Bool, true, false, List, [], ◌∷◌, ◌++◌, ◌||◌, ◌&&◌, not, if◌then◌else◌, any, all, retain,
  length, ◌==◌,
}
use timely_mirror.Order.{Eq, PartialOrder, Ord}

pub record Antichain {ℓ} (A : Type ℓ) : Type ℓ where
  pub elements : List A

module _ {ℓ} {A : Type ℓ} where
  abbrev pub new : Antichain A
  new = record { elements = [] }

  abbrev pub from_elem : A → Antichain A
  from_elem element = record { elements = element ∷ [] }

  abbrev pub clear : Antichain A → Antichain A
  clear a = record { elements = [] }

module _ {ℓ} {A : Type ℓ} ⦃o : Ord A⦄ where
  sort_element : A → List A → List A
  sort_element x [] = x ∷ []
  sort_element x (y ∷ ys) = if o.le x y then x ∷ y ∷ ys else y ∷ sort_element x ys

  sort_elements : List A → List A
  unfolding sort_element
  sort_elements [] = []
  sort_elements (x ∷ xs) = sort_element x (sort_elements xs)

  unfoldable pub sort : Antichain A → Antichain A
  unfolding sort_elements
  sort a = record { elements = sort_elements a.elements }

module _ {ℓ} {A : Type ℓ} ⦃p : PartialOrder A⦄ where
  -- The antichain after the call, and whether the element was added.
  unfoldable pub insert : Antichain A → A → Antichain A × Bool
  insert a element =
      if not (any (λ x. p.less_equal x element) a.elements)
      then (
        record { elements = retain (λ x. not (p.less_equal element x)) a.elements ++ element ∷ [] },
        true,
      )
      else (a, false)

  extend_from : Antichain A → List A → Bool → Antichain A × Bool
  unfolding insert
  extend_from a [] added = (a, added)
  extend_from a (element ∷ rest) added =
      extend_from (insert a element).0 rest ((insert a element).1 || added)

  unfoldable pub extend : Antichain A → List A → Antichain A × Bool
  unfolding extend_from
  extend a iterator = extend_from a iterator false

  unfoldable pub less_than : Antichain A → A → Bool
  less_than a time = any (λ x. p.less_than x time) a.elements

  unfoldable pub less_equal : Antichain A → A → Bool
  less_equal a time = any (λ x. p.less_equal x time) a.elements

  -- `PartialOrder` for antichains.
  unfoldable pub antichain_less_equal : Antichain A → Antichain A → Bool
  antichain_less_equal a other =
      all (λ t2. any (λ t1. p.less_equal t1 t2) a.elements) other.elements

  unfoldable pub dominates : Antichain A → Antichain A → Bool
  unfolding antichain_less_equal
  dominates a other = antichain_less_equal a other

  insert_all : Antichain A → List A → Antichain A
  unfolding insert
  insert_all temp [] = temp
  insert_all temp (elem ∷ rest) = insert_all (insert temp elem).0 rest

  -- `From<Vec<T>>`.
  unfoldable pub from_vec : List A → Antichain A
  unfolding insert_all
  from_vec vec = insert_all new vec

module _ {ℓ} {A : Type ℓ} ⦃e : Eq A⦄ where
  -- `xs.iter().zip(ys.iter()).all(|(t1, t2)| t1 == t2)`
  zip_all_eq : List A → List A → Bool
  zip_all_eq [] ys = true
  zip_all_eq (x ∷ xs) [] = true
  zip_all_eq (x ∷ xs) (y ∷ ys) = e.eq x y && zip_all_eq xs ys

  -- The body of `PartialEq::eq`, for `Antichain` as for `AntichainRef`.
  unfoldable pub same_elements : List A → List A → Bool
  unfolding zip_all_eq
  same_elements xs ys =
      (length xs == length ys) && (zip_all_eq xs ys || all (λ t1. any (λ t2. e.eq t1 t2) ys) xs)

  unfoldable pub antichain_eq : Antichain A → Antichain A → Bool
  unfolding same_elements
  antichain_eq a other = same_elements a.elements other.elements
