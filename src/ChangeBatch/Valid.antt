-- ===== src/ChangeBatch/Valid.antt =====
-- The invariant of a `ChangeBatch`, and that every operation keeps it.
use timely_mirror.Prelude.{
  ℕ, ◌≤◌, ◌<◌, subst, sym, [], ◌∷◌, arith, length, take, take_of_le, take-append, length-append,
  ltb, All-append, Bool-cases, inl, inr,
}
use timely_mirror.Order.{Eq, Ord}
use timely_mirror.Int64.{modulus}
use timely_mirror.Updates.{Updates}
use timely_mirror.Updates.Compact.{
  AllNonzero, IsCompact, consolidate-IsCompact, IsCompact-AllNonzero, AllNonzero-InRange,
}
use timely_mirror.ChangeBatch.{
  ChangeBatch, new, clear, compact_updates, compact, maintain_bounds, update, extend, drain,
  is_empty, drain_into,
}

-- The prefix that is said to be clean is compact, and no update is zero.
pub record IsValid {ℓ} {A : Type ℓ} ⦃o : Ord A⦄ (b : ChangeBatch A) : Type ℓ where
  pub within : b.clean ≤ length b.updates
  pub prefix : IsCompact (take b.clean b.updates)
  pub nonzero : AllNonzero b.updates

module _ {ℓ} {A : Type ℓ} ⦃o : Ord A⦄ where
  pub new-IsValid : IsValid {A = A} new
  unfolding new
  new-IsValid = record { within = omega arith; prefix = tt; nonzero = tt }

  pub IsValid-clear : (b : ChangeBatch A) → IsValid (clear b)
  unfolding clear
  IsValid-clear b = record { within = omega arith; prefix = tt; nonzero = tt }

module _ {ℓ} {A : Type ℓ} ⦃e : Eq A⦄ ⦃o : Ord A⦄ where
  -- One update alone is compact, if it is not zero.
  short-IsCompact : (us : Updates A) → length us ≤ 1 → AllNonzero us → IsCompact us
  short-IsCompact [] h n = tt
  short-IsCompact (u ∷ []) h n = (n.0.0, n.0.1, tt, tt)
  short-IsCompact (u ∷ v ∷ us) h n = absurd (omega arith)

  pub compact_updates-IsCompact : (b : ChangeBatch A) → IsValid b → IsCompact (compact_updates b)
  unfolding compact_updates
  compact_updates-IsCompact b v = elim (Bool-cases (ltb b.clean (length b.updates))) [
    | inl dirty ↦ elim (Bool-cases (ltb 1 (length b.updates))) [
      | inl long ↦
          rw (dirty, long) (consolidate-IsCompact b.updates (AllNonzero-InRange _ v.nonzero))
      | inr short ↦ rw (dirty, short) (short-IsCompact b.updates (ground arith) v.nonzero)
    ]
    | inr clean ↦ rw clean (subst IsCompact (take_of_le b.clean b.updates (ground arith)) v.prefix)
  ]

  pub compact-IsValid : (b : ChangeBatch A) → IsValid b → IsValid (compact b)
  unfolding compact
  compact-IsValid b v =
      let c = compact_updates-IsCompact b v in
      record {
        within = omega arith;
        prefix = subst IsCompact (sym (take_of_le _ (compact_updates b) (omega arith))) c;
        nonzero = IsCompact-AllNonzero _ c;
      }

  maintain_bounds-IsValid : (b : ChangeBatch A) → IsValid b → IsValid (maintain_bounds b)
  unfolding maintain_bounds
  maintain_bounds-IsValid b v = ground (arith, compact-IsValid b v)

  pub extend-IsValid :
      (b : ChangeBatch A) (us : Updates A) → AllNonzero us → IsValid b → IsValid (extend b us)
  unfolding extend
  extend-IsValid b us n v = maintain_bounds-IsValid _ (record {
    within = omega (arith, v.within, length-append b.updates us);
    prefix = subst IsCompact (sym (take-append b.clean b.updates us v.within)) v.prefix;
    nonzero = All-append _ b.updates us v.nonzero n;
  })

  pub update-IsValid :
      (b : ChangeBatch A) (k : A) (v : ℕ) → 0 < v → v < modulus → IsValid b → IsValid (update b k v)
  unfolding update extend
  update-IsValid b k v h r valid = extend-IsValid b ((k, v) ∷ []) ((h, r), tt) valid

  pub drain-IsValid : (b : ChangeBatch A) → IsValid (drain b).0
  unfolding drain
  drain-IsValid b = record { within = omega arith; prefix = tt; nonzero = tt }

  -- What is drained has at most one update for each key, and no zero.
  pub drain-IsCompact : (b : ChangeBatch A) → IsValid b → IsCompact (drain b).1
  unfolding drain
  drain-IsCompact b v = compact_updates-IsCompact b v

  pub is_empty-IsValid : (b : ChangeBatch A) → IsValid b → IsValid (is_empty b).0
  unfolding is_empty
  is_empty-IsValid b v = ground (arith, compact-IsValid b v)

  pub drain_into-IsValid :
      (b other : ChangeBatch A)
      → IsValid b
      → IsValid other
      → IsValid (drain_into b other).0 × IsValid (drain_into b other).1
  unfolding drain_into drain
  drain_into-IsValid b other v w =
      ground (arith, drain-IsValid b, extend-IsValid other b.updates v.nonzero w)
