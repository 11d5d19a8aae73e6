-- ===== src/Updates/Linear.antt =====
-- What updates cause elsewhere: each update is passed on, with its value, to the places that a
-- function gives for its key. What arrives depends only on what the updates add up to.
use timely_mirror.Prelude.{
  ℕ, ◌≡◌, refl, sym, subst, ap, ◌∙◌, List, [], ◌∷◌, ◌++◌, arith, Bool-cases, inl, inr, retain, ◌==◌,
  ==_iff,
}
use mathlib.Core.List.{append_assoc}
use timely_mirror.Order.{Eq, Ord}
use timely_mirror.Int64.{
  wrapping_add, wrapping_add_assoc, wrapping_add_left_comm, zero-wrapping_add,
}
use timely_mirror.Updates.{
  Updates, each, count, sort_insert, sort_by_key, carry_runs, accumulate_runs, is_nonzero,
  consolidate,
}
use timely_mirror.Updates.Counts.{count-lt, count-append}
use timely_mirror.Updates.Compact.{InRange}
use timely_mirror.Updates.Canonical.{SameCounts, consolidate-eq_of_SameCounts}

module _ {ℓ κ} {A : Type ℓ} {B : Type κ} where
  unfoldable pub pass_on : (A → List B) → Updates A → Updates B
  pass_on f [] = []
  pass_on f ((k, v) ∷ us) = each (f k) v ++ pass_on f us

  pub pass_on-append :
      (f : A → List B) (us vs : Updates A) → pass_on f (us ++ vs) ≡ pass_on f us ++ pass_on f vs
  unfolding pass_on
  pass_on-append f [] vs = refl
  pass_on-append f ((k, v) ∷ us) vs =
      ap (λ w. each (f k) v ++ w) (pass_on-append f us vs)
      ∙ sym (append_assoc (each (f k) v) (pass_on f us) (pass_on f vs))

module _ {κ} {B : Type κ} ⦃e : Eq B⦄ where
  count-each_zero : (y : B) (xs : List B) → count y (each xs 0) ≡ 0
  unfolding count
  count-each_zero y [] = refl
  count-each_zero y (x ∷ xs) =
      ground (arith, count-each_zero y xs, zero-wrapping_add 0 (omega arith))

  count-each_add :
      (y : B) (xs : List B) (v w : ℕ)
      → count y (each xs (wrapping_add v w))
        ≡ wrapping_add (count y (each xs v)) (count y (each xs w))
  unfolding count wrapping_add
  count-each_add y [] v w = omega arith
  count-each_add y (x ∷ xs) v w = ground (arith, count-each_add y xs v w)

module _ {ℓ κ} {A : Type ℓ} {B : Type κ} ⦃d : Eq A⦄ ⦃e : Eq B⦄ (f : A → List B) (y : B) where
  arrivals : Updates A → ℕ
  arrivals us = count y (pass_on f us)

  arrivals-cons :
      (k : A) (v : ℕ) (us : Updates A)
      → arrivals ((k, v) ∷ us) ≡ wrapping_add (count y (each (f k) v)) (arrivals us)
  unfolding arrivals pass_on
  arrivals-cons k v us = count-append y (each (f k) v) (pass_on f us)

  arrivals_zero : (k : A) (us : Updates A) → arrivals ((k, 0) ∷ us) ≡ arrivals us
  unfolding arrivals
  arrivals_zero k us =
      arrivals-cons k 0 us
      ∙ rw (count-each_zero y (f k)) (zero-wrapping_add _ (count-lt y (pass_on f us)))

  arrivals-carry_runs :
      (k : A) (v : ℕ) (us : Updates A) → arrivals (carry_runs k v us) ≡ arrivals ((k, v) ∷ us)
  unfolding carry_runs
  arrivals-carry_runs k v [] = refl
  arrivals-carry_runs k v ((j, w) ∷ us) = elim (Bool-cases (d.eq k j)) [
    | inl same ↦ rw same (
        arrivals_zero k (carry_runs j (wrapping_add w v) us)
        ∙ arrivals-carry_runs j (wrapping_add w v) us
        ∙ merged (sym ((d.eq_iff k j).0 same)))
    | inr other ↦ rw other (
        arrivals-cons k v (carry_runs j w us)
        ∙ ap (wrapping_add (count y (each (f k) v))) (arrivals-carry_runs j w us)
        ∙ sym (arrivals-cons k v ((j, w) ∷ us)))
  ]
    where
      merged : j ≡ k → arrivals ((j, wrapping_add w v) ∷ us) ≡ arrivals ((k, v) ∷ (j, w) ∷ us)
      merged same =
          arrivals-cons j (wrapping_add w v) us
          ∙ rw (count-each_add y (f j) w v) (
              wrapping_add_assoc _ _ _
              ∙ wrapping_add_left_comm _ _ _
              ∙ ap (wrapping_add (count y (each (f j) v))) (sym (arrivals-cons j w us)))
          ∙ ap (λ x. wrapping_add (count y (each (f x) v)) (arrivals ((j, w) ∷ us))) same
          ∙ sym (arrivals-cons k v ((j, w) ∷ us))

  arrivals-accumulate_runs : (us : Updates A) → arrivals (accumulate_runs us) ≡ arrivals us
  unfolding accumulate_runs
  arrivals-accumulate_runs [] = refl
  arrivals-accumulate_runs ((k, v) ∷ us) = arrivals-carry_runs k v us

  arrivals-retain : (us : Updates A) → arrivals (retain is_nonzero us) ≡ arrivals us
  arrivals-retain [] = refl
  arrivals-retain ((k, v) ∷ us) = elim (Bool-cases (v == 0)) [
    | inl zero_value ↦ rw zero_value (
        arrivals-retain us
        ∙ sym (
            subst (λ x. arrivals ((k, x) ∷ us) ≡ arrivals us) (sym ((==_iff v 0).0 zero_value))
              (arrivals_zero k us)))
    | inr kept ↦ rw kept (
        arrivals-cons k v (retain is_nonzero us)
        ∙ ap (wrapping_add (count y (each (f k) v))) (arrivals-retain us)
        ∙ sym (arrivals-cons k v us))
  ]

  module _ ⦃o : Ord A⦄ where
    arrivals-sort_insert :
        (x : A × ℕ) (us : Updates A) → arrivals (sort_insert x us) ≡ arrivals (x ∷ us)
    unfolding sort_insert
    arrivals-sort_insert x [] = refl
    arrivals-sort_insert (k, v) ((j, w) ∷ us) = elim (Bool-cases (o.le k j)) [
      | inl before ↦ rw before
      | inr behind ↦ rw behind (
          arrivals-cons j w (sort_insert (k, v) us)
          ∙ ap (wrapping_add (count y (each (f j) w)))
              (arrivals-sort_insert (k, v) us ∙ arrivals-cons k v us)
          ∙ wrapping_add_left_comm _ _ _
          ∙ ap (wrapping_add (count y (each (f k) v))) (sym (arrivals-cons j w us))
          ∙ sym (arrivals-cons k v ((j, w) ∷ us)))
    ]

    arrivals-sort_by_key : (us : Updates A) → arrivals (sort_by_key us) ≡ arrivals us
    unfolding sort_by_key
    arrivals-sort_by_key [] = refl
    arrivals-sort_by_key ((k, v) ∷ us) =
        arrivals-sort_insert (k, v) (sort_by_key us)
        ∙ arrivals-cons k v (sort_by_key us)
        ∙ ap (wrapping_add (count y (each (f k) v))) (arrivals-sort_by_key us)
        ∙ sym (arrivals-cons k v us)

    arrivals-consolidate : (us : Updates A) → arrivals (consolidate us) ≡ arrivals us
    unfolding consolidate
    arrivals-consolidate us =
        arrivals-retain (accumulate_runs (sort_by_key us))
        ∙ arrivals-accumulate_runs (sort_by_key us)
        ∙ arrivals-sort_by_key us

    -- Updates that add up to the same pass the same on.
    pub pass_on-eq_of_SameCounts :
        (us vs : Updates A)
        → InRange us
        → InRange vs
        → SameCounts us vs
        → count y (pass_on f us) ≡ count y (pass_on f vs)
    unfolding arrivals
    pass_on-eq_of_SameCounts us vs r q s =
        sym (arrivals-consolidate us)
        ∙ ap arrivals (consolidate-eq_of_SameCounts us vs r q s)
        ∙ arrivals-consolidate vs
