-- ===== src/Updates/Counts.antt =====
-- Consolidation keeps what the updates add up to at each key.
use timely_mirror.Prelude.{ℕ, ◌<◌, ◌≡◌, refl, ◌≢◌, ◌∙◌, [], ◌∷◌, ◌++◌, arith, retain, All}
use timely_mirror.Order.{Eq, Ord, eq_refl, eq-eq_of_ne}
use timely_mirror.Int64.{
  wrapping_add, modulus, wrapping_add-lt, wrapping_add_assoc, wrapping_add_left_comm,
  wrapping_add_comm, zero-wrapping_add,
}
use timely_mirror.Updates.{
  Updates, sort_insert, sort_by_key, carry_runs, accumulate_runs, is_nonzero, consolidate, count,
}

module _ {ℓ} {A : Type ℓ} ⦃e : Eq A⦄ where
  pub count-lt : (t : A) (us : Updates A) → count t us < modulus
  unfolding count
  count-lt t [] = omega arith
  count-lt t ((k, v) ∷ us) = ground (arith, wrapping_add-lt v (count t us), count-lt t us)

  pub count-append :
      (t : A) (us vs : Updates A) → count t (us ++ vs) ≡ wrapping_add (count t us) (count t vs)
  unfolding count
  count-append t [] vs = ground (arith, zero-wrapping_add (count t vs), count-lt t vs)
  count-append t ((k, v) ∷ us) vs =
      ground (arith, count-append t us vs, wrapping_add_assoc v (count t us) (count t vs))

  -- A key that no update names has count zero.
  pub count_of_absent : (t : A) (us : Updates A) → All (λ u. u.0 ≢ t) us → count t us ≡ 0
  unfolding count
  count_of_absent t [] h = refl
  count_of_absent t ((k, v) ∷ us) h = rw (eq-eq_of_ne k t h.0, count) (count_of_absent t us h.1)

  pub count-cons_other :
      (t k : A) (v : ℕ) (us : Updates A) → k ≢ t → count t ((k, v) ∷ us) ≡ count t us
  unfolding count
  count-cons_other t k v us ne = rw (eq-eq_of_ne k t ne)

  pub count-snoc_self :
      (t : A) (d : ℕ) (us : Updates A) → count t (us ++ (t, d) ∷ []) ≡ wrapping_add (count t us) d
  unfolding count wrapping_add
  count-snoc_self t d us = count-append t us ((t, d) ∷ []) ∙ rw (eq_refl t) (omega arith)

  pub count-snoc_other :
      (t s : A) (d : ℕ) (us : Updates A) → t ≢ s → count s (us ++ (t, d) ∷ []) ≡ count s us
  unfolding count
  count-snoc_other t s d us ne =
      count-append s us ((t, d) ∷ [])
      ∙ rw (count-cons_other s t d [] ne)
          (wrapping_add_comm (count s us) 0 ∙ zero-wrapping_add (count s us) (count-lt s us))

  count-carry_runs :
      (t k : A) (v : ℕ) (us : Updates A) → count t (carry_runs k v us) ≡ count t ((k, v) ∷ us)
  unfolding count carry_runs
  count-carry_runs t k v [] = refl
  count-carry_runs t k v ((j, w) ∷ us) = ground (
    arith,
    e.eq_iff k j,
    count-carry_runs t j w us,
    count-carry_runs t j (wrapping_add w v) us,
    wrapping_add_assoc w v (count t us),
    wrapping_add_left_comm v w (count t us),
    zero-wrapping_add (wrapping_add w (wrapping_add v (count t us))),
    wrapping_add-lt w (wrapping_add v (count t us)),
  )

  count-accumulate_runs : (t : A) (us : Updates A) → count t (accumulate_runs us) ≡ count t us
  unfolding accumulate_runs
  count-accumulate_runs t [] = refl
  count-accumulate_runs t ((k, v) ∷ us) = count-carry_runs t k v us

  count-retain : (t : A) (us : Updates A) → count t (retain is_nonzero us) ≡ count t us
  unfolding count
  count-retain t [] = refl
  count-retain t ((k, v) ∷ us) =
      ground (arith, count-retain t us, zero-wrapping_add (count t us), count-lt t us)

module _ {ℓ} {A : Type ℓ} ⦃e : Eq A⦄ ⦃o : Ord A⦄ where
  pub count-sort_insert :
      (t : A) (x : A × ℕ) (us : Updates A) → count t (sort_insert x us) ≡ count t (x ∷ us)
  unfolding count sort_insert
  count-sort_insert t x [] = refl
  count-sort_insert t (k, v) ((j, w) ∷ us) =
      ground (arith, count-sort_insert t (k, v) us, wrapping_add_left_comm v w (count t us))

  pub count-sort_by_key : (t : A) (us : Updates A) → count t (sort_by_key us) ≡ count t us
  unfolding count sort_by_key
  count-sort_by_key t [] = refl
  count-sort_by_key t ((k, v) ∷ us) =
      count-sort_insert t (k, v) (sort_by_key us) ∙ rw (count-sort_by_key t us)

  pub count-consolidate : (t : A) (us : Updates A) → count t (consolidate us) ≡ count t us
  unfolding consolidate
  count-consolidate t us =
      count-retain t (accumulate_runs (sort_by_key us))
      ∙ count-accumulate_runs t (sort_by_key us)
      ∙ count-sort_by_key t us
