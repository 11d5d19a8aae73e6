-- ===== src/Reachability/Outflow.antt =====
-- What arrives from all locations together: the times at each location, passed on to where they
-- arrive next. Only the difference at a changed location counts.
use timely_mirror.MutableAntichain.{sum_values}
use timely_mirror.Prelude.{
  length, ◌+◌, ◌%◌, ◌<◌, ℕ, ◌≡◌, ◌≢◌, refl, sym, ap, ap₂, ◌∙◌, subst, List, [], ◌∷◌, ◌++◌, All,
  All-append, All-elem, Memᴰ, here, there, arith,
}
use timely_mirror.Order.{Eq, Ord, nat_eq}
use timely_mirror.Int64.{wrapping_add, modulus}
use timely_mirror.Updates.{Updates, each, count}
use timely_mirror.Updates.Counts.{count-append}
use timely_mirror.Updates.Compact.{InRange}
use timely_mirror.Updates.Linear.{pass_on, pass_on-append, pass_on-eq_of_SameCounts}
use timely_mirror.Distinct.{IsDistinct}
use timely_mirror.MutableAntichain.Changes.{IsDifference}

pub each-InRange {ℓ} : {A : Type ℓ} (xs : List A) → InRange (each xs 1)
each-InRange [] = tt
each-InRange (x ∷ xs) = (omega arith, each-InRange xs)

module _ {ℓ κ μ} {L : Type κ} {T : Type ℓ} {Y : Type μ} (f : L → T → List Y) where
  unfoldable pub outflow : (L → List T) → List L → Updates Y
  outflow F [] = []
  outflow F (l ∷ ls) = pass_on (f l) (each (F l) 1) ++ outflow F ls

  pub outflow_nothing : (ls : List L) → outflow (λ l. []) ls ≡ []
  unfolding outflow pass_on
  outflow_nothing [] = refl
  outflow_nothing (l ∷ ls) = outflow_nothing ls

  module _ ⦃e : Eq T⦄ ⦃o : Ord T⦄ ⦃d : Eq Y⦄ where
    outflow_same :
        (F G : L → List T) (y : Y) (l : L) (ls : List L)
        → All (λ k. l ≢ k) ls
        → ((k : L) → l ≢ k → G k ≡ F k)
        → count y (outflow G ls) ≡ count y (outflow F ls)
    unfolding outflow
    outflow_same F G y l [] a h = refl
    outflow_same F G y l (k ∷ ls) a h =
        count-append y (pass_on (f k) (each (G k) 1)) (outflow G ls)
        ∙ ap₂ wrapping_add (ap (λ xs. count y (pass_on (f k) (each xs 1))) (h k a.0))
            (outflow_same F G y l ls a.1 h)
        ∙ sym (count-append y (pass_on (f k) (each (F k) 1)) (outflow F ls))

    pass_on_difference :
        (y : Y) (l : L) (old new : List T) (changes : Updates T)
        → InRange changes
        → IsDifference old changes new
        → count y (pass_on (f l) (each new 1))
          ≡ wrapping_add (count y (pass_on (f l) (each old 1))) (count y (pass_on (f l) changes))
    pass_on_difference y l old new changes r q =
        pass_on-eq_of_SameCounts (f l) y (each new 1) (each old 1 ++ changes) (each-InRange new)
          (All-append _ (each old 1) changes (each-InRange old) r)
          (λ t. sym (count-append t (each old 1) changes ∙ q t))
        ∙ ap (count y) (pass_on-append (f l) (each old 1) changes)
        ∙ count-append y (pass_on (f l) (each old 1)) (pass_on (f l) changes)

    -- A change at one of the locations adds what the change passes on.
    pub outflow-change :
        (F G : L → List T) (y : Y) (l : L) (ls : List L) (changes : Updates T)
        → IsDistinct ls
        → Memᴰ l ls
        → ((k : L) → l ≢ k → G k ≡ F k)
        → InRange changes
        → IsDifference (F l) changes (G l)
        → count y (outflow G ls)
          ≡ wrapping_add (count y (outflow F ls)) (count y (pass_on (f l) changes))
    unfolding outflow wrapping_add
    outflow-change F G y l [] changes d m h r q = elim m [ ]
    outflow-change F G y l (k ∷ ls) changes d (here same) h r q = omega (
      arith,
      count-append y (pass_on (f k) (each (G k) 1)) (outflow G ls),
      count-append y (pass_on (f k) (each (F k) 1)) (outflow F ls),
      subst
          (λ x.
            count y (pass_on (f x) (each (G x) 1))
            ≡ wrapping_add (count y (pass_on (f x) (each (F x) 1)))
                (count y (pass_on (f l) changes)))
          same (pass_on_difference y l (F l) (G l) changes r q),
      outflow_same F G y l ls (subst (λ x. All (λ z. x ≢ z) ls) (sym same) d.0) h,
    )
    outflow-change F G y l (k ∷ ls) changes d (there m) h r q = omega (
      arith,
      count-append y (pass_on (f k) (each (G k) 1)) (outflow G ls),
      count-append y (pass_on (f k) (each (F k) 1)) (outflow F ls),
      ap (λ xs. count y (pass_on (f k) (each xs 1)))
          (h k (λ same. All-elem (λ z. k ≢ z) l ls m d.0 (sym same))),
      outflow-change F G y l ls changes d.1 m h r q,
    )

-- How many elements there are at the locations.
abbrev pub total_size {κ ℓ} : {L : Type κ} {T : Type ℓ} → (L → List T) → List L → ℕ
total_size F [] = 0
total_size F (l ∷ ls) = length (F l) + total_size F ls

-- Everything is passed on to one place.
abbrev pub one {κ ℓ} : {L : Type κ} {T : Type ℓ} → L → T → List ℕ
one l t = 0 ∷ []

module _ {κ ℓ} {L : Type κ} {T : Type ℓ} where
  count-one : (l : L) (xs : List T) → count 0 (pass_on (one l) (each xs 1)) ≡ length xs % modulus
  unfolding count pass_on wrapping_add
  count-one l [] = omega arith
  count-one l (x ∷ xs) = omega (arith, count-one l xs)

  pub count-outflow-one :
      (F : L → List T) (ls : List L) → count 0 (outflow one F ls) ≡ total_size F ls % modulus
  unfolding outflow wrapping_add count
  count-outflow-one F [] = refl
  count-outflow-one F (l ∷ ls) = omega (
    arith,
    count-append 0 (pass_on (one l) (each (F l) 1)) (outflow one F ls),
    count-one l (F l),
    count-outflow-one F ls,
  )

  pub sum_values-one :
      (l : L) (total : ℕ) (us : Updates T)
      → total < modulus
      → sum_values total us ≡ wrapping_add total (count 0 (pass_on (one l) us))
  unfolding sum_values count pass_on wrapping_add
  sum_values-one l total [] h = omega arith
  sum_values-one l total ((t, v) ∷ us) h =
      omega (arith, sum_values-one l ((total + v) % modulus) us (omega arith))

pub total_size_nothing {κ ℓ} :
    {L : Type κ} (T : Type ℓ) (ls : List L) → total_size {T = T} (λ l. []) ls ≡ 0
total_size_nothing T [] = refl
total_size_nothing T (l ∷ ls) = omega (arith, total_size_nothing T ls)
