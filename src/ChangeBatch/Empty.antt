-- ===== src/ChangeBatch/Empty.antt =====
-- `ChangeBatch::is_empty` is right, on the path that answers without compacting too.
use timely_mirror.Prelude.{
  ℕ, ◌≤◌, ◌<◌, ◌≡◌, ◌≢◌, ◌↔◌, refl, subst, sym, ap, ◌∙◌, true, false, [], ◌∷◌, arith, ◌/◌,
  is_empty_list, length, take, drop, take-append-drop, length-take, length-drop, ltb, not, retain,
  length-retain-le, Bool-cases, inl, inr,
}
use timely_mirror.Order.{Eq, Ord}
use timely_mirror.Int64.{wrapping_add, eq_zero_of_wrapping_add, zero-wrapping_add}
use timely_mirror.Updates.{Updates, count}
use timely_mirror.Updates.Counts.{count-append}
use timely_mirror.Updates.Counts.{count-cons_other}
use timely_mirror.Updates.Compact.{IsCompact}
use timely_mirror.Updates.Canonical.{count-head, count_of_IsBefore, IsCompact-eq_nil}
use timely_mirror.ChangeBatch.{ChangeBatch, compact, compact_updates, is_empty, new_from}
use timely_mirror.ChangeBatch.Totals.{total, total-compact}
use timely_mirror.ChangeBatch.Valid.{IsValid, compact_updates-IsCompact}

module _ {ℓ} {A : Type ℓ} ⦃e : Eq A⦄ where
  remove_key : A → Updates A → Updates A
  remove_key k us = retain (λ u. not (e.eq u.0 k)) us

  count-remove_key_self : (k : A) (us : Updates A) → count k (remove_key k us) ≡ 0
  unfolding remove_key count
  count-remove_key_self k [] = refl
  count-remove_key_self k ((j, w) ∷ us) = ground (arith, count-remove_key_self k us)

  count-remove_key_other :
      (k t : A) (us : Updates A) → k ≢ t → count t (remove_key k us) ≡ count t us
  unfolding remove_key count
  count-remove_key_other k t [] ne = refl
  count-remove_key_other k t ((j, w) ∷ us) ne =
      ground (arith, count-remove_key_other k t us ne, e.eq_iff j k, e.eq_iff j t)

  -- A key with a count is named by some update.
  length-remove_key :
      (k : A) (us : Updates A) → count k us ≢ 0 → length (remove_key k us) < length us
  unfolding remove_key count
  length-remove_key k [] ne = absurd (ne refl)
  length-remove_key k ((j, w) ∷ us) ne = elim (Bool-cases (e.eq j k)) [
    | inl same ↦ rw same (omega (arith, length-retain-le (λ (u : A × ℕ). not (e.eq u.0 k)) us))
    | inr other ↦ rw other (omega (arith, length-remove_key k us (λ z. ne (rw other z))))
  ]

module _ {ℓ} {A : Type ℓ} ⦃e : Eq A⦄ ⦃o : Ord A⦄ where
  -- To cancel every key of a compact sequence takes as many updates as it has.
  cancels_length :
      (us vs : Updates A)
      → IsCompact us
      → ((t : A) → wrapping_add (count t us) (count t vs) ≡ 0)
      → length us ≤ length vs
  cancels_length [] vs c z = omega arith
  cancels_length ((k, v) ∷ us) vs c z =
      omega (arith, cancels_length us (remove_key k vs) c.3 rest, length-remove_key k vs named)
    where
      named : count k vs ≢ 0
      named h = absurd (
          omega (
            arith,
            eq_zero_of_wrapping_add _ _ (rw (count-head k v us c.1 c.2) c.1) h (z k),
            count-head k v us c.1 c.2,
          ))

      rest : (t : A) → wrapping_add (count t us) (count t (remove_key k vs)) ≡ 0
      rest t = elim (Bool-cases (e.eq k t)) [
        | inl same ↦
            subst (λ x. wrapping_add (count x us) (count x (remove_key k vs)) ≡ 0)
              ((e.eq_iff k t).0 same)
              (rw (count_of_IsBefore k us c.2, count-remove_key_self k vs)
                (zero-wrapping_add 0 (omega arith)))
        | inr other ↦
            let ne : k ≢ t = λ same. ground (arith, (e.eq_iff k t).1 same) in
            rw (count-remove_key_other k t vs ne, ← count-cons_other t k v us ne) (z t)
      ]

  -- A clean prefix longer than the rest cannot be cancelled by the rest.
  not_cancelled :
      (b : ChangeBatch A)
      → IsValid b
      → length b.updates / 2 < b.clean
      → ((t : A) → total t b ≡ 0)
      → ⊥
  not_cancelled b v h z = absurd (
      omega (
        arith,
        cancels_length (take b.clean b.updates) (drop b.clean b.updates) v.prefix split,
        length-take b.clean b.updates,
        length-drop b.clean b.updates,
        v.within,
      ))
    where
      split :
          (t : A)
          → wrapping_add (count t (take b.clean b.updates)) (count t (drop b.clean b.updates)) ≡ 0
      split t =
          sym (count-append t (take b.clean b.updates) (drop b.clean b.updates))
          ∙ ap (count t) (take-append-drop b.clean b.updates)
          ∙ z t

  is_empty_slow :
      (b : ChangeBatch A)
      → IsValid b
      → (is_empty_list (compact_updates b) ≡ true) ↔ ((t : A) → total t b ≡ 0)
  unfolding compact
  is_empty_slow b v = (
    λ h t. sym (total-compact t b) ∙ nothing (compact_updates b) h t,
    λ z. rw (
        IsCompact-eq_nil (compact_updates b) (compact_updates-IsCompact b v)
          (λ t. total-compact t b ∙ z t)),
  )
    where
      nothing : (us : Updates A) → is_empty_list us ≡ true → (t : A) → count t us ≡ 0
      nothing [] h t = count_of_IsBefore t [] tt
      nothing (u ∷ us) h t = absurd (ground arith)

  -- For a valid batch, `is_empty` says whether all keys have value zero.
  pub is_empty_iff :
      (b : ChangeBatch A) → IsValid b → ((is_empty b).1 ≡ true) ↔ ((t : A) → total t b ≡ 0)
  unfolding is_empty
  is_empty_iff b v = elim (Bool-cases (ltb (length b.updates / 2) b.clean)) [
    | inl fast ↦
        rw fast (λ h. absurd (ground arith), λ z. absurd (not_cancelled b v (ground arith) z))
    | inr slow ↦ rw slow (is_empty_slow b v)
  ]

  -- A single update with value zero is never discarded, so the batch is not said to be empty
  -- although all keys have value zero.
  pub is_empty-new_from_zero :
      (k : A) → ((is_empty (new_from k 0)).1 ≡ false) × ((t : A) → total t (new_from k 0) ≡ 0)
  unfolding is_empty new_from count
  is_empty-new_from_zero k = (refl, λ t. ground (arith, zero-wrapping_add 0 (omega arith)))
