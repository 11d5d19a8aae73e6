-- ===== src/Updates/Canonical.antt =====
-- Compact updates are a normal form: they are determined by what they add up to at each key.
use timely_mirror.Prelude.{
  ℕ, ◌<◌, ◌≡◌, refl, sym, subst, ap₂, ◌∙◌, ◌≢◌, inl, inr, true, [], ◌∷◌, arith, All-mono,
  Bool-cases,
}
use timely_mirror.Order.{Eq, Ord, eq_refl}
use timely_mirror.Int64.{wrapping_add, modulus}
use timely_mirror.Updates.{Updates, consolidate, count}
use timely_mirror.Updates.Counts.{count_of_absent, count-cons_other, count-consolidate}
use timely_mirror.Updates.Compact.{InRange, IsBefore, IsCompact, consolidate-IsCompact}

module _ {ℓ} {A : Type ℓ} ⦃e : Eq A⦄ ⦃o : Ord A⦄ where
  -- The two sequences add up to the same at every key.
  abbrev pub SameCounts : Updates A → Updates A → Type ℓ
  SameCounts us vs = (t : A) → count t us ≡ count t vs

  pub count_of_IsBefore : (k : A) (us : Updates A) → IsBefore k us → count k us ≡ 0
  count_of_IsBefore k us b = count_of_absent k us (All-mono _ _ us (λ u h same. h.1 (sym same)) b)

  -- A key that stands in front has the value that stands beside it.
  pub count-head :
      (k : A) (v : ℕ) (us : Updates A) → v < modulus → IsBefore k us → count k ((k, v) ∷ us) ≡ v
  unfolding count wrapping_add
  count-head k v us h b = rw (eq_refl k, count_of_IsBefore k us b) (omega arith)

  -- Nor does a key count that comes before all of the list.
  count_before :
      (k j : A) (w : ℕ) (us : Updates A)
      → o.le k j ≡ true
      → k ≢ j
      → IsBefore j us
      → count k ((j, w) ∷ us) ≡ 0
  count_before k j w us h ne b =
      count-cons_other k j w us (λ same. ne (sym same))
      ∙ count_of_IsBefore k us (
          All-mono _ _ us
            (λ u c. (
              o.le_trans k j u.0 h c.0,
              λ same. ne (o.le_antisymm k j h (subst (λ x. o.le j x ≡ true) (sym same) c.0)),
            ))
            b)

  heads_eq :
      (k j : A) (v w : ℕ) (us vs : Updates A)
      → IsCompact ((k, v) ∷ us)
      → IsCompact ((j, w) ∷ vs)
      → SameCounts ((k, v) ∷ us) ((j, w) ∷ vs)
      → o.le k j ≡ true
      → k ≡ j
  heads_eq k j v w us vs c d s h = elim (Bool-cases (e.eq k j)) [
    | inl same ↦ (e.eq_iff k j).0 same
    | inr other ↦
        let ne : k ≢ j = λ same. ground (arith, (e.eq_iff k j).1 same) in
        absurd (omega (arith, s k, count-head k v us c.1 c.2, count_before k j w vs h ne d.2))
  ]

  tails_same :
      (k : A) (v : ℕ) (us vs : Updates A)
      → IsBefore k us
      → IsBefore k vs
      → SameCounts ((k, v) ∷ us) ((k, v) ∷ vs)
      → SameCounts us vs
  tails_same k v us vs b c s t = elim (Bool-cases (e.eq k t)) [
    | inl same ↦
        let zeros = λ (ws : Updates A) (h : IsBefore k ws).
          subst (λ x. count x ws ≡ 0) ((e.eq_iff k t).0 same) (count_of_IsBefore k ws h) in
        zeros us b ∙ sym (zeros vs c)
    | inr other ↦
        let ne : k ≢ t = λ same. ground (arith, (e.eq_iff k t).1 same) in
        sym (count-cons_other t k v us ne) ∙ s t ∙ count-cons_other t k v vs ne
  ]

  same_key :
      (k : A) (v w : ℕ) (us vs : Updates A)
      → IsCompact ((k, v) ∷ us)
      → IsCompact ((k, w) ∷ vs)
      → SameCounts ((k, v) ∷ us) ((k, w) ∷ vs)
      → (SameCounts us vs → us ≡ vs)
      → (k, v) ∷ us ≡ (k, w) ∷ vs
  same_key k v w us vs c d s rest =
      let values : v ≡ w = sym (count-head k v us c.1 c.2) ∙ s k ∙ count-head k w vs d.1 d.2 in
      let s' : SameCounts ((k, v) ∷ us) ((k, v) ∷ vs) =
        subst (λ x. SameCounts ((k, v) ∷ us) ((k, x) ∷ vs)) (sym values) s in
      ap₂ (λ x ws. (k, x) ∷ ws) values (rest (tails_same k v us vs c.2 d.2 s'))

  -- Two compact sequences that add up to the same at every key are one sequence.
  pub IsCompact-eq_of_SameCounts :
      (us vs : Updates A) → IsCompact us → IsCompact vs → SameCounts us vs → us ≡ vs
  IsCompact-eq_of_SameCounts [] [] c d s = refl
  IsCompact-eq_of_SameCounts [] ((j, w) ∷ vs) c d s =
      absurd (omega (arith, s j, count_of_IsBefore j [] tt, count-head j w vs d.1 d.2))
  IsCompact-eq_of_SameCounts ((k, v) ∷ us) [] c d s =
      absurd (omega (arith, s k, count_of_IsBefore k [] tt, count-head k v us c.1 c.2))
  IsCompact-eq_of_SameCounts ((k, v) ∷ us) ((j, w) ∷ vs) c d s =
      let rest = IsCompact-eq_of_SameCounts us vs c.3 d.3 in
      let keys : k ≡ j = elim (o.le_total k j) [
        | inl h ↦ heads_eq k j v w us vs c d s h
        | inr h ↦ sym (heads_eq j k w v vs us d c (λ t. sym (s t)) h)
      ] in
      subst
        (λ x.
          IsCompact ((x, w) ∷ vs)
          → SameCounts ((k, v) ∷ us) ((x, w) ∷ vs)
          → (k, v) ∷ us ≡ (x, w) ∷ vs)
        keys (λ d' s'. same_key k v w us vs c d' s' rest) d s

  -- Updates that add up to the same consolidate to the same list.
  pub consolidate-eq_of_SameCounts :
      (us vs : Updates A)
      → InRange us
      → InRange vs
      → SameCounts us vs
      → consolidate us ≡ consolidate vs
  consolidate-eq_of_SameCounts us vs r q s =
      IsCompact-eq_of_SameCounts _ _ (consolidate-IsCompact us r) (consolidate-IsCompact vs q)
        (λ t. count-consolidate t us ∙ s t ∙ sym (count-consolidate t vs))

  pub consolidate_of_IsCompact : (us : Updates A) → InRange us → IsCompact us → consolidate us ≡ us
  consolidate_of_IsCompact us r c =
      IsCompact-eq_of_SameCounts _ _ (consolidate-IsCompact us r) c (λ t. count-consolidate t us)

  -- Compact updates that add up to nothing are none.
  pub IsCompact-eq_nil : (us : Updates A) → IsCompact us → ((t : A) → count t us ≡ 0) → us ≡ []
  IsCompact-eq_nil us c z =
      IsCompact-eq_of_SameCounts us [] c tt (λ t. z t ∙ sym (count_of_IsBefore t [] tt))
