-- ===== src/Updates/Members.antt =====
-- The members of compact updates are the keys that count, with their counts.
use timely_mirror.Prelude.{
  ℕ, ◌≡◌, ◌≢◌, sym, subst, ap, ◌∙◌, [], ◌∷◌, All-elem, Memᴰ, here, there, arith, Bool-cases, inl,
  inr,
}
use timely_mirror.Order.{Eq, Ord}
use timely_mirror.Updates.{Updates, count}
use timely_mirror.Updates.Counts.{count-cons_other}
use timely_mirror.Updates.Compact.{IsCompact}
use timely_mirror.Updates.Canonical.{count-head, count_of_IsBefore}

module _ {ℓ} {A : Type ℓ} ⦃e : Eq A⦄ ⦃o : Ord A⦄ where
  pub count_of_mem : (u : A × ℕ) (us : Updates A) → IsCompact us → Memᴰ u us → count u.0 us ≡ u.1
  count_of_mem u [] c m = elim m [ ]
  count_of_mem u ((k, v) ∷ us) c (here h) =
      subst (λ w. count w.0 ((k, v) ∷ us) ≡ w.1) (sym h) (count-head k v us c.1 c.2)
  count_of_mem u ((k, v) ∷ us) c (there m) =
      count-cons_other u.0 k v us (All-elem _ u us m c.2).1 ∙ count_of_mem u us c.3 m

  pub mem_of_count :
      (t : A) (us : Updates A) → IsCompact us → count t us ≢ 0 → Memᴰ (t, count t us) us
  mem_of_count t [] c ne = absurd (ne (count_of_IsBefore t [] tt))
  mem_of_count t ((k, v) ∷ us) c ne = elim (Bool-cases (e.eq k t)) [
    | inl same ↦ here (
        subst (λ x. ◌≡◌ {A = A × ℕ} (x, count x ((k, v) ∷ us)) (k, v)) ((e.eq_iff k t).0 same)
          (ap (λ w. (k, w)) (count-head k v us c.1 c.2)))
    | inr other ↦
        let skip : count t ((k, v) ∷ us) ≡ count t us =
          count-cons_other t k v us (λ same. ground (arith, (e.eq_iff k t).1 same)) in
        there (subst (λ n. Memᴰ (t, n) us) (sym skip) (mem_of_count t us c.3 (λ z. ne (skip ∙ z))))
  ]
