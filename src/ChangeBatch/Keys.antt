-- ===== src/ChangeBatch/Keys.antt =====
-- The keys of a `ChangeBatch` are those that its operations bring in.
use timely_mirror.Prelude.{
  ℕ, [], ◌∷◌, ◌++◌, All, All-append, Bool-cases, inl, inr, ltb, leb, ◌&&◌, ◌/◌, length,
}
use timely_mirror.Order.{Eq, Ord}
use timely_mirror.Updates.Keys.{All-consolidate}
use timely_mirror.ChangeBatch.{
  ChangeBatch, compact_updates, compact, maintain_bounds, update, drain,
}

module _ {ℓ κ} {A : Type ℓ} ⦃e : Eq A⦄ ⦃o : Ord A⦄ (P : A → Type κ) where
  -- Every key has the property.
  abbrev pub AllKeys : ChangeBatch A → Type κ
  AllKeys b = All (λ u. P u.0) b.updates

  All-compact_updates : (b : ChangeBatch A) → AllKeys b → All (λ u. P u.0) (compact_updates b)
  unfolding compact_updates
  All-compact_updates b h =
      elim (Bool-cases (ltb b.clean (length b.updates) && ltb 1 (length b.updates))) [
        | inl lazy ↦ rw lazy (All-consolidate P b.updates h)
        | inr done ↦ rw done h
      ]

  pub All-drain : (b : ChangeBatch A) → AllKeys b → All (λ u. P u.0) (drain b).1
  unfolding drain compact
  All-drain b h = All-compact_updates b h

  pub All-update : (b : ChangeBatch A) (k : A) (v : ℕ) → P k → AllKeys b → AllKeys (update b k v)
  unfolding update maintain_bounds compact
  All-update b k v p h =
      let longer : ChangeBatch A = record b { updates = b.updates ++ (k, v) ∷ [] } in
      let all = All-append _ b.updates ((k, v) ∷ []) h (p, tt) in
      elim (Bool-cases
        (ltb 32 (length longer.updates) && leb longer.clean (length longer.updates / 2))) [
          | inl full ↦ rw full (All-compact_updates longer all)
          | inr room ↦ rw room all
        ]
