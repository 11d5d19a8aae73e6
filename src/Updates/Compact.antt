-- ===== src/Updates/Compact.antt =====
-- The shape of consolidated updates: keys that ascend strictly, and no zero.
use timely_mirror.Prelude.{
  ℕ, zero, suc, ◌<◌, ◌≡◌, subst, sym, ◌≢◌, inl, inr, true, [], ◌∷◌, arith, retain, All, All-mono,
  All-take, All-retain, Bool, Bool-cases, take,
}
use timely_mirror.Order.{Eq, Ord}
use timely_mirror.Int64.{wrapping_add, modulus, wrapping_add-lt}
use timely_mirror.Updates.{
  Updates, sort_insert, sort_by_key, carry_runs, accumulate_runs, is_nonzero, consolidate,
}

-- Every value is the bit pattern of an `i64`.
abbrev pub InRange {ℓ} : {A : Type ℓ} → Updates A → Type 0
InRange us = All (λ u. u.1 < modulus) us

-- Every value is that of an `i64` other than zero.
abbrev pub AllNonzero {ℓ} : {A : Type ℓ} → Updates A → Type 0
AllNonzero us = All (λ u. (0 < u.1) × (u.1 < modulus)) us

pub AllNonzero-InRange {ℓ} : {A : Type ℓ} (us : Updates A) → AllNonzero us → InRange us
AllNonzero-InRange us = All-mono _ _ us (λ u h. h.1)

module _ {ℓ} {A : Type ℓ} ⦃o : Ord A⦄ where
  abbrev pub IsBelow : A → Updates A → Type 0
  IsBelow k us = All (λ u. o.le k u.0 ≡ true) us

  abbrev pub IsBefore : A → Updates A → Type ℓ
  IsBefore k us = All (λ u. (o.le k u.0 ≡ true) × (k ≢ u.0)) us

  abbrev pub IsSorted : Updates A → Type 0
  IsSorted [] = Unit
  IsSorted (u ∷ us) = IsBelow u.0 us × IsSorted us

  -- What `compact` leaves: strictly ascending keys, each with a value other than zero.
  abbrev pub IsCompact : Updates A → Type ℓ
  IsCompact [] = Unit
  IsCompact (u ∷ us) = (0 < u.1) × (u.1 < modulus) × IsBefore u.0 us × IsCompact us

  IsBelow-trans : (j k : A) (us : Updates A) → o.le j k ≡ true → IsBelow k us → IsBelow j us
  IsBelow-trans j k us h = All-mono _ _ us (λ u b. o.le_trans j k u.0 h b)

  -- What lies behind `j` lies strictly behind every key before `j`.
  IsBefore-of_IsBelow :
      (k j : A) (us : Updates A) → o.le k j ≡ true → k ≢ j → IsBelow j us → IsBefore k us
  IsBefore-of_IsBelow k j us h ne = All-mono _ _ us (λ u b. (
    o.le_trans k j u.0 h b,
    λ same. ne (o.le_antisymm k j h (subst (λ x. o.le j x ≡ true) (sym same) b)),
  ))

  IsBelow-sort_insert :
      (k : A) (x : A × ℕ) (us : Updates A)
      → o.le k x.0 ≡ true
      → IsBelow k us
      → IsBelow k (sort_insert x us)
  unfolding sort_insert
  IsBelow-sort_insert k x [] h b = (h, tt)
  IsBelow-sort_insert k x (y ∷ ys) h b = ground (arith, IsBelow-sort_insert k x ys h b.1)

  sort_insert-IsSorted : (x : A × ℕ) (us : Updates A) → IsSorted us → IsSorted (sort_insert x us)
  unfolding sort_insert
  sort_insert-IsSorted x [] s = (tt, tt)
  sort_insert-IsSorted x (y ∷ ys) s = elim (Bool-cases (o.le x.0 y.0)) [
    | inl h ↦ rw h ((h, IsBelow-trans x.0 y.0 ys h s.0), s)
    | inr h ↦ rw h (
      IsBelow-sort_insert y.0 x ys (ground (arith, o.le_total x.0 y.0)) s.0,
      sort_insert-IsSorted x ys s.1,
    )
  ]

  pub sort_by_key-IsSorted : (us : Updates A) → IsSorted (sort_by_key us)
  unfolding sort_by_key
  sort_by_key-IsSorted [] = tt
  sort_by_key-IsSorted (x ∷ us) = sort_insert-IsSorted x (sort_by_key us) (sort_by_key-IsSorted us)

  sort_insert-InRange :
      (x : A × ℕ) (us : Updates A) → x.1 < modulus → InRange us → InRange (sort_insert x us)
  unfolding sort_insert
  sort_insert-InRange x [] h r = (h, tt)
  sort_insert-InRange x (y ∷ ys) h r = ground (arith, sort_insert-InRange x ys h r.1)

  sort_by_key-InRange : (us : Updates A) → InRange us → InRange (sort_by_key us)
  unfolding sort_by_key
  sort_by_key-InRange [] r = tt
  sort_by_key-InRange (x ∷ us) r =
      sort_insert-InRange x (sort_by_key us) r.0 (sort_by_key-InRange us r.1)

  pub IsCompact-take : (n : ℕ) (us : Updates A) → IsCompact us → IsCompact (take n us)
  IsCompact-take zero us c = tt
  IsCompact-take (suc n) [] c = tt
  IsCompact-take (suc n) (u ∷ us) c = (c.0, c.1, All-take _ n us c.2, IsCompact-take n us c.3)

  pub IsCompact-retain :
      (q : A × ℕ → Bool) (us : Updates A) → IsCompact us → IsCompact (retain q us)
  IsCompact-retain q [] c = tt
  IsCompact-retain q (u ∷ us) c = elim (Bool-cases (q u)) [
    | inl kept ↦ rw kept (c.0, c.1, All-retain _ q us c.2, IsCompact-retain q us c.3)
    | inr dropped ↦ rw dropped (IsCompact-retain q us c.3)
  ]

  pub IsCompact-AllNonzero : (us : Updates A) → IsCompact us → AllNonzero us
  IsCompact-AllNonzero [] c = tt
  IsCompact-AllNonzero (u ∷ us) c = ((c.0, c.1), IsCompact-AllNonzero us c.3)

module _ {ℓ} {A : Type ℓ} ⦃e : Eq A⦄ ⦃o : Ord A⦄ where
  -- With the zeros dropped, the loop leaves strictly ascending keys, from the first key on.
  carry_runs-IsCompact :
      (k : A) (v : ℕ) (us : Updates A)
      → v < modulus
      → InRange us
      → IsSorted ((k, v) ∷ us)
      → IsCompact (retain is_nonzero (carry_runs k v us))
        × IsBelow k (retain is_nonzero (carry_runs k v us))
  unfolding carry_runs
  carry_runs-IsCompact k v [] h r s = ground (arith, o.le_total k k)
  carry_runs-IsCompact k v ((j, w) ∷ us) h r s = elim (Bool-cases (e.eq k j)) [
    | inl same ↦
        let (c, b) = carry_runs-IsCompact j (wrapping_add w v) us (wrapping_add-lt w v) r.1 s.1 in
        rw same (c, IsBelow-trans k j _ s.0.0 b)
    | inr other ↦
        let (c, b) = carry_runs-IsCompact j w us r.0 r.1 s.1 in
        let before =
          IsBefore-of_IsBelow k j _ s.0.0 (λ same. ground (arith, (e.eq_iff k j).1 same)) b in
        let below = IsBelow-trans k j _ s.0.0 b in
        rw other (ground (arith, before, below, c, o.le_total k k))
  ]

  -- Consolidation leaves strictly ascending keys with values other than zero.
  pub consolidate-IsCompact : (us : Updates A) → InRange us → IsCompact (consolidate us)
  unfolding consolidate
  consolidate-IsCompact us r =
      go (sort_by_key us) (sort_by_key-InRange us r) (sort_by_key-IsSorted us)
    where
      go :
          (vs : Updates A)
          → InRange vs
          → IsSorted vs
          → IsCompact (retain is_nonzero (accumulate_runs vs))
      go [] q s = tt
      go ((k, v) ∷ vs) q s = (carry_runs-IsCompact k v vs q.0 q.1 s).0
