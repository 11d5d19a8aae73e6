-- ===== src/Bytes/Slices.antt =====
-- Writing to a list outside or inside of a slice.
use timely_mirror.Prelude.{
  ℕ, zero, suc, ◌+◌, ◌≤◌, ◌<◌, ◌≡◌, refl, ap, ◌∙◌, List, [], ◌∷◌, take, drop, set, arith,
}

module _ {ℓ} {A : Type ℓ} where
  take-set_behind : (n i : ℕ) (v : A) (xs : List A) → n ≤ i → take n (set xs i v) ≡ take n xs
  take-set_behind zero i v xs h = refl
  take-set_behind (suc n) i v [] h = refl
  take-set_behind (suc n) zero v (x ∷ xs) h = absurd (omega arith)
  take-set_behind (suc n) (suc i) v (x ∷ xs) h = ap (◌∷◌ x) (take-set_behind n i v xs (omega arith))

  pub slice-set_before :
      (p n i : ℕ) (v : A) (xs : List A) → i < p → take n (drop p (set xs i v)) ≡ take n (drop p xs)
  slice-set_before zero n i v xs h = absurd (omega arith)
  slice-set_before (suc p) n i v [] h = refl
  slice-set_before (suc p) n zero v (x ∷ xs) h = refl
  slice-set_before (suc p) n (suc i) v (x ∷ xs) h = slice-set_before p n i v xs (omega arith)

  pub slice-set_behind :
      (p n i : ℕ) (v : A) (xs : List A)
      → p + n ≤ i
      → take n (drop p (set xs i v)) ≡ take n (drop p xs)
  slice-set_behind zero n i v xs h = take-set_behind n i v xs (omega arith)
  slice-set_behind (suc p) n i v [] h = refl
  slice-set_behind (suc p) n zero v (x ∷ xs) h = absurd (omega arith)
  slice-set_behind (suc p) n (suc i) v (x ∷ xs) h = slice-set_behind p n i v xs (omega arith)

  set-take : (n i : ℕ) (v : A) (xs : List A) → take n (set xs i v) ≡ set (take n xs) i v
  set-take zero i v xs = refl
  set-take (suc n) i v [] = refl
  set-take (suc n) zero v (x ∷ xs) = refl
  set-take (suc n) (suc i) v (x ∷ xs) = ap (◌∷◌ x) (set-take n i v xs)

  -- Within the slice, the write is to the slice.
  pub slice-set_within :
      (p n j i : ℕ) (v : A) (xs : List A)
      → j ≡ p + i
      → take n (drop p (set xs j v)) ≡ set (take n (drop p xs)) i v
  slice-set_within zero n j i v xs h =
      set-take n j v xs ∙ ap (λ k. set (take n xs) k v) (let same : j ≡ i = omega arith in same)
  slice-set_within (suc p) zero j i v [] h = refl
  slice-set_within (suc p) (suc n) j i v [] h = refl
  slice-set_within (suc p) n zero i v (x ∷ xs) h = absurd (omega arith)
  slice-set_within (suc p) n (suc j) i v (x ∷ xs) h = slice-set_within p n j i v xs (omega arith)
