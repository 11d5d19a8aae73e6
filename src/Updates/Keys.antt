-- ===== src/Updates/Keys.antt =====
-- Consolidation brings in no key.
use timely_mirror.Prelude.{ℕ, [], ◌∷◌, All, All-retain, Bool-cases, inl, inr}
use timely_mirror.Order.{Eq, Ord}
use timely_mirror.Updates.{
  Updates, sort_insert, sort_by_key, carry_runs, accumulate_runs, is_nonzero, consolidate,
}

module _ {ℓ κ} {A : Type ℓ} ⦃o : Ord A⦄ where
  pub All-sort_insert :
      (P : A × ℕ → Type κ) (x : A × ℕ) (us : Updates A) → P x → All P us → All P (sort_insert x us)
  unfolding sort_insert
  All-sort_insert P x [] p h = (p, tt)
  All-sort_insert P x (y ∷ us) p h = elim (Bool-cases (o.le x.0 y.0)) [
    | inl before ↦ rw before (p, h)
    | inr behind ↦ rw behind (h.0, All-sort_insert P x us p h.1)
  ]

  All-sort_by_key : (P : A × ℕ → Type κ) (us : Updates A) → All P us → All P (sort_by_key us)
  unfolding sort_by_key
  All-sort_by_key P [] h = tt
  All-sort_by_key P (x ∷ us) h = All-sort_insert P x (sort_by_key us) h.0 (All-sort_by_key P us h.1)

module _ {ℓ κ} {A : Type ℓ} ⦃e : Eq A⦄ (P : A → Type κ) where
  All-carry_runs :
      (k : A) (v : ℕ) (us : Updates A)
      → P k
      → All (λ u. P u.0) us
      → All (λ u. P u.0) (carry_runs k v us)
  unfolding carry_runs
  All-carry_runs k v [] p h = (p, tt)
  All-carry_runs k v ((j, w) ∷ us) p h = (p, All-carry_runs j _ us h.0 h.1)

  All-accumulate_runs :
      (us : Updates A) → All (λ u. P u.0) us → All (λ u. P u.0) (accumulate_runs us)
  unfolding accumulate_runs
  All-accumulate_runs [] h = tt
  All-accumulate_runs ((k, v) ∷ us) h = All-carry_runs k v us h.0 h.1

  pub All-consolidate :
      ⦃o : Ord A⦄ (us : Updates A) → All (λ u. P u.0) us → All (λ u. P u.0) (consolidate us)
  unfolding consolidate
  All-consolidate us h =
      All-retain _ is_nonzero _ (All-accumulate_runs (sort_by_key us) (All-sort_by_key _ us h))
