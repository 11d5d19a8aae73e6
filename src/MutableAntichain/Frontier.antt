-- ===== src/MutableAntichain/Frontier.antt =====
-- What a frontier is for a sequence of updates, and that `rebuild` computes it.
use timely_mirror.Prelude.{
  ℕ, ◌≡◌, ◌⊎◌, inl, inr, sym, subst, ap, ◌∙◌, true, false, List, [], ◌∷◌, ◌++◌, any, any-append,
  retain, All, All-mono, All-append, Memᴰ, here, there, Memᴰ-retain, Memᴰ-retain_intro, arith,
  Bool-cases,
}
use mathlib.Core.List.Memᴰ.{append_cases}
use timely_mirror.Order.{Eq, PartialOrder, Ord, IsExtension}
use timely_mirror.Int64.{is_positive, ne_zero_of_is_positive}
use timely_mirror.Updates.{Updates, count}
use timely_mirror.Updates.Compact.{IsBefore, IsCompact, IsCompact-retain}
use timely_mirror.Updates.Members.{count_of_mem, mem_of_count}
use timely_mirror.Antichain.Insert.{IsIncomparable, AllIncomparable}
use timely_mirror.MutableAntichain.{add_minimal, build_frontier}

module _ {ℓ} {A : Type ℓ} ⦃e : Eq A⦄ ⦃p : PartialOrder A⦄ where
  -- The elements of the frontier are the minimal times of those with a positive count.
  pub record Tracks (frontier : List A) (us : Updates A) : Type ℓ where
    pub incomparable : AllIncomparable frontier
    pub counted : (f : A) → Memᴰ f frontier → is_positive (count f us) ≡ true
    pub covers :
        (t : A) → is_positive (count t us) ≡ true → any (λ f. p.less_equal f t) frontier ≡ true

  -- Only the counts matter.
  pub Tracks-of_counts :
      (frontier : List A) (us vs : Updates A)
      → ((t : A) → count t us ≡ count t vs)
      → Tracks frontier us
      → Tracks frontier vs
  Tracks-of_counts frontier us vs same h = record {
    incomparable = h.incomparable;
    counted = λ f m. subst (λ n. is_positive n ≡ true) (same f) (h.counted f m);
    covers = λ t c. h.covers t (subst (λ n. is_positive n ≡ true) (sym (same t)) c);
  }

module _ {ℓ} {A : Type ℓ} ⦃e : Eq A⦄ ⦃p : PartialOrder A⦄ ⦃o : Ord A⦄
    (extension : IsExtension A p o) where
  snoc-AllIncomparable :
      (xs : List A) (x : A)
      → AllIncomparable xs
      → All (λ y. IsIncomparable y x) xs
      → AllIncomparable (xs ++ x ∷ [])
  snoc-AllIncomparable [] x h k = (tt, tt)
  snoc-AllIncomparable (y ∷ ys) x h k =
      (All-append _ ys (x ∷ []) h.0 (k.0, tt), snoc-AllIncomparable ys x h.1 k.1)

  -- Every element of the first list stands strictly before all keys of the second.
  abbrev Precedes : List A → Updates A → Type ℓ
  Precedes xs us = All (λ x. IsBefore x us) xs

  -- A time behind all elements, and above none, is incomparable to each.
  IsIncomparable-of_Precedes :
      (xs : List A) (t : A) (v : ℕ) (us : Updates A)
      → Precedes xs ((t, v) ∷ us)
      → any (λ f. p.less_equal f t) xs ≡ false
      → All (λ y. IsIncomparable y t) xs
  IsIncomparable-of_Precedes [] t v us h n = tt
  IsIncomparable-of_Precedes (x ∷ xs) t v us h n = (
    (
      ground arith,
      elim (Bool-cases (p.less_equal t x)) [
        | inl up ↦ absurd (h.0.0.1 (o.le_antisymm x t h.0.0.0 (extension.extends t x up)))
        | inr other ↦ other
      ],
    ),
    IsIncomparable-of_Precedes xs t v us h.1 (ground arith),
  )

  build_frontier-AllIncomparable :
      (xs : List A) (us : Updates A)
      → AllIncomparable xs
      → Precedes xs us
      → IsCompact us
      → AllIncomparable (build_frontier xs us)
  unfolding build_frontier
  build_frontier-AllIncomparable xs [] h b c = h
  build_frontier-AllIncomparable xs ((t, v) ∷ us) h b c =
      elim (Bool-cases (any (λ f. p.less_equal f t) xs)) [
        | inl old ↦
            rw old (build_frontier-AllIncomparable xs us h (All-mono _ _ xs (λ x k. k.1) b) c.3)
        | inr fresh ↦ rw fresh (
            build_frontier-AllIncomparable (xs ++ t ∷ []) us
              (snoc-AllIncomparable xs t h (IsIncomparable-of_Precedes xs t v us b fresh))
              (All-append _ xs (t ∷ []) (All-mono _ _ xs (λ x k. k.1) b) (c.2, tt)) c.3)
      ]

  Memᴰ-build_frontier :
      (f : A) (xs : List A) (us : Updates A)
      → Memᴰ f (build_frontier xs us)
      → Memᴰ f xs ⊎ ((v : ℕ) × Memᴰ (f, v) us)
  unfolding build_frontier
  Memᴰ-build_frontier f xs [] m = inl m
  Memᴰ-build_frontier f xs ((t, v) ∷ us) m = elim (Memᴰ-build_frontier f (add_minimal xs t) us m) [
    | inr (w, k) ↦ inr (w, there k)
    | inl k ↦ elim (Bool-cases (any (λ f. p.less_equal f t) xs)) [
      | inl old ↦ inl (rw old at k)
      | inr fresh ↦ elim (append_cases xs (rw fresh at k)) [
        | inl l ↦ inl l
        | inr (here same) ↦ inr (v, here (ap (λ x. (x, v)) same))
        | inr (there n) ↦ elim n [ ]
      ]
    ]
  ]

  build_frontier_keeps :
      (t : A) (xs : List A) (us : Updates A)
      → any (λ f. p.less_equal f t) xs ≡ true
      → any (λ f. p.less_equal f t) (build_frontier xs us) ≡ true
  unfolding build_frontier
  build_frontier_keeps t xs [] h = h
  build_frontier_keeps t xs ((s, v) ∷ us) h = elim (Bool-cases (any (λ f. p.less_equal f s) xs)) [
    | inl old ↦ rw old (build_frontier_keeps t xs us h)
    | inr fresh ↦ rw fresh (
        build_frontier_keeps t (xs ++ s ∷ []) us
          (any-append (λ f. p.less_equal f t) xs (s ∷ []) ∙ ground arith))
  ]

  add_minimal_covers : (xs : List A) (s : A) → any (λ f. p.less_equal f s) (add_minimal xs s) ≡ true
  add_minimal_covers xs s = elim (Bool-cases (any (λ f. p.less_equal f s) xs)) [
    | inl old ↦ rw old old
    | inr fresh ↦
        rw fresh
          (any-append (λ f. p.less_equal f s) xs (s ∷ []) ∙ ground (arith, p.less_equal_refl s))
  ]

  build_frontier_covers :
      (t : A) (v : ℕ) (xs : List A) (us : Updates A)
      → Memᴰ (t, v) us
      → any (λ f. p.less_equal f t) (build_frontier xs us) ≡ true
  unfolding build_frontier
  build_frontier_covers t v xs [] m = elim m [ ]
  build_frontier_covers t v xs ((s, w) ∷ us) (there m) =
      build_frontier_covers t v (add_minimal xs s) us m
  build_frontier_covers t v xs ((s, w) ∷ us) (here h) =
      build_frontier_keeps t (add_minimal xs s) us (
        subst (λ x. any (λ f. p.less_equal f x) (add_minimal xs s) ≡ true)
          (sym (ap (λ (u : A × ℕ). u.0) h)) (add_minimal_covers xs s))

  -- A compact sequence is tracked by the frontier that the loop builds from its positive updates.
  pub build_frontier-Tracks :
      (us : Updates A)
      → IsCompact us
      → Tracks (build_frontier [] (retain (λ u. is_positive u.1) us)) us
  build_frontier-Tracks us c = record {
    incomparable =
        build_frontier-AllIncomparable [] (retain (λ u. is_positive u.1) us) tt tt
          (IsCompact-retain _ us c);
    counted = λ f m. elim (Memᴰ-build_frontier f [] (retain (λ u. is_positive u.1) us) m) [
      | inl k ↦ elim k [ ]
      | inr (v, k) ↦
          let (k', h) = Memᴰ-retain (λ (u : A × ℕ). is_positive u.1) (f, v) us k in
          subst (λ n. is_positive n ≡ true) (sym (count_of_mem (f, v) us c k')) h
    ];
    covers = λ t h. build_frontier_covers t (count t us) [] (retain (λ u. is_positive u.1) us) (
        Memᴰ-retain_intro _ (t, count t us) us
          (mem_of_count t us c (ne_zero_of_is_positive (count t us) h)) h);
  }
