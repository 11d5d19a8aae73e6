-- ===== src/MutableAntichain/Changes.antt =====
-- The changes that `rebuild` reports are the difference of the two frontiers.
use timely_mirror.Prelude.{ℕ, ◌<◌, ◌≡◌, List, [], ◌∷◌, arith}
use timely_mirror.Order.{Eq, Ord}
use timely_mirror.Int64.{wrapping_add, modulus, minus_one}
use timely_mirror.Updates.{Updates, count, each}
use timely_mirror.Updates.Counts.{count-lt}
use timely_mirror.ChangeBatch.{ChangeBatch, update}
use timely_mirror.ChangeBatch.Totals.{total, total-update}
use timely_mirror.ChangeBatch.Valid.{IsValid, update-IsValid}
use timely_mirror.MutableAntichain.{record_all}

module _ {ℓ} {A : Type ℓ} ⦃e : Eq A⦄ where
  -- How often an element occurs, modulo 2^64.
  abbrev pub occurrences : A → List A → ℕ
  occurrences t xs = count t (each xs 1)

  -- The changes, added to the first list's elements, give those of the second.
  abbrev pub IsDifference : List A → Updates A → List A → Type ℓ
  IsDifference old changes new =
      (t : A) → wrapping_add (occurrences t old) (count t changes) ≡ occurrences t new

  occurrences_cancel :
      (t : A) (xs : List A) → wrapping_add (occurrences t xs) (count t (each xs minus_one)) ≡ 0
  unfolding count wrapping_add
  occurrences_cancel t [] = omega arith
  occurrences_cancel t (x ∷ xs) = ground (arith, occurrences_cancel t xs)

module _ {ℓ} {A : Type ℓ} ⦃e : Eq A⦄ ⦃o : Ord A⦄ where
  total-record_all :
      (t : A) (b : ChangeBatch A) (xs : List A) (v : ℕ)
      → total t (record_all b xs v) ≡ wrapping_add (total t b) (count t (each xs v))
  unfolding record_all count wrapping_add
  total-record_all t b [] v = omega (arith, count-lt t b.updates)
  total-record_all t b (x ∷ xs) v =
      ground (arith, total-record_all t (update b x v) xs v, total-update t b x v)

  pub record_all-IsValid :
      (b : ChangeBatch A) (xs : List A) (v : ℕ)
      → 0 < v
      → v < modulus
      → IsValid b
      → IsValid (record_all b xs v)
  unfolding record_all
  record_all-IsValid b [] v h r valid = valid
  record_all-IsValid b (x ∷ xs) v h r valid =
      record_all-IsValid (update b x v) xs v h r (update-IsValid b x v h r valid)

  -- Withdrawing the old elements and adding the new ones, to a batch with no changes.
  pub record_all-IsDifference :
      (b : ChangeBatch A) (old new : List A)
      → ((t : A) → total t b ≡ 0)
      → IsDifference old (record_all (record_all b old minus_one) new 1).updates new
  unfolding wrapping_add
  record_all-IsDifference b old new z t = omega (
    arith,
    total-record_all t (record_all b old minus_one) new 1,
    total-record_all t b old minus_one,
    z t,
    occurrences_cancel t old,
    count-lt t (each new 1),
  )
