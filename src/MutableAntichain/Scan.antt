-- ===== src/MutableAntichain/Scan.antt =====
-- When `update_iter` does not rebuild, the old frontier is right for the new counts.
use timely_mirror.Prelude.{
  ℕ, ◌<◌, ◌≡◌, ◌≢◌, inl, inr, sym, subst, ◌∙◌, true, false, List, [], ◌∷◌, ◌++◌, any, Memᴰ,
  any_of_elem, any-witness, arith, Bool-cases,
}
use mathlib.Core.List.{append_assoc, append-nil}
use timely_mirror.Order.{Eq, PartialOrder}
use timely_mirror.Int64.{modulus, is_positive, is_negative, NoOverflow, not_positive_of_lowered}
use timely_mirror.Updates.{Updates, count}
use timely_mirror.Updates.Counts.{count-lt, count-snoc_self, count-snoc_other}
use timely_mirror.Updates.Compact.{InRange}
use timely_mirror.Antichain.Compare.{AllIncomparable-eq}
use timely_mirror.MutableAntichain.{rebuild_required}
use timely_mirror.MutableAntichain.Frontier.{Tracks}

module _ {ℓ} {A : Type ℓ} ⦃e : Eq A⦄ ⦃p : PartialOrder A⦄ where
  -- No running count overflows while the second sequence is added to the first.
  abbrev pub AddsExactly : Updates A → Updates A → Type 0
  AddsExactly us [] = Unit
  AddsExactly us (d ∷ ds) = NoOverflow (count d.0 us) d.1 × AddsExactly (us ++ d ∷ []) ds

  module _ (frontier : List A) (us : Updates A) (h : Tracks frontier us) (t : A) (d : ℕ) where
    -- It is enough that the time is no element, and that the frontier covers it if it counts.
    Tracks-snoc :
        ((f : A) → Memᴰ f frontier → t ≢ f)
        → (is_positive (count t (us ++ (t, d) ∷ [])) ≡ true
            → any (λ f. p.less_equal f t) frontier ≡ true)
        → Tracks frontier (us ++ (t, d) ∷ [])
    Tracks-snoc away covered = record {
      incomparable = h.incomparable;
      counted = λ f m.
          subst (λ n. is_positive n ≡ true) (sym (count-snoc_other t f d us (away f m)))
            (h.counted f m);
      covers = λ s c. elim (Bool-cases (e.eq t s)) [
        | inl same ↦
            subst
              (λ x.
                is_positive (count x (us ++ (t, d) ∷ [])) ≡ true
                → any (λ f. p.less_equal f x) frontier ≡ true)
              ((e.eq_iff t s).0 same) covered c
        | inr other ↦
            let ne : t ≢ s = λ same. ground (arith, (e.eq_iff t s).1 same) in
            h.covers s (subst (λ n. is_positive n ≡ true) (count-snoc_other t s d us ne) c)
      ];
    }

    -- A time beyond the frontier changes nothing.
    Tracks-beyond : any (λ f. p.less_than f t) frontier ≡ true → Tracks frontier (us ++ (t, d) ∷ [])
    Tracks-beyond beyond =
        let (f, m, lt) = any-witness (λ f. p.less_than f t) frontier beyond in
        let (le, ne) = (p.less_than_iff f t).0 lt in
        Tracks-snoc
          (λ g k same. ne (
            AllIncomparable-eq frontier f g h.incomparable m k
              (subst (λ x. p.less_equal f x ≡ true) same le)
            ∙ sym same))
          (λ _. any_of_elem (λ g. p.less_equal g t) f frontier m le)

    -- Nor does a lower count before the frontier.
    Tracks-before :
        d < modulus
        → NoOverflow (count t us) d
        → is_negative d ≡ true
        → any (λ f. p.less_equal f t) frontier ≡ false
        → Tracks frontier (us ++ (t, d) ∷ [])
    Tracks-before r exact low before =
        Tracks-snoc
          (λ f m same.
            let le =
              any_of_elem (λ g. p.less_equal g t) f frontier m
                (subst (λ x. p.less_equal x t ≡ true) same (p.less_equal_refl t)) in
            ground arith)
          (λ c. h.covers t (
            not_positive_of_lowered (count t us) d (count-lt t us) r exact low
              (subst (λ n. is_positive n ≡ true) (count-snoc_self t d us) c)))

  -- If the scan asks for no rebuild, the frontier tracks the updates with the new ones.
  pub rebuild_required-Tracks :
      (frontier : List A) (us ds : Updates A)
      → Tracks frontier us
      → InRange ds
      → AddsExactly us ds
      → rebuild_required frontier ds ≡ false
      → Tracks frontier (us ++ ds)
  unfolding rebuild_required
  rebuild_required-Tracks frontier us [] h r x q = subst (Tracks frontier) (sym (append-nil us)) h
  rebuild_required-Tracks frontier us ((t, d) ∷ ds) h r x q =
      subst (Tracks frontier) (append_assoc us ((t, d) ∷ []) ds)
        (rebuild_required-Tracks frontier (us ++ (t, d) ∷ []) ds step r.1 x.1 (ground arith))
    where
      step : Tracks frontier (us ++ (t, d) ∷ [])
      step = elim (Bool-cases (any (λ f. p.less_than f t) frontier)) [
        | inl beyond ↦ Tracks-beyond frontier us h t d beyond
        | inr near ↦ Tracks-before frontier us h t d r.0 x.0 (ground arith) (ground arith)
      ]
