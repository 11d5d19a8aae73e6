-- ===== src/Sorting/Laws.antt =====
-- Sorting by a key sorts, keeps the elements, and commutes with taking the keys; without repeated keys
-- the sorted keys ascend strictly.
use timely_mirror.Prelude.{
  ◌≡◌, ◌≢◌, refl, sym, subst, ap, ◌∙◌, true, false, List, [], ◌∷◌, map, All, All-mono, Memᴰ, here,
  there, Bool-cases, inl, inr, arith,
}
use timely_mirror.Order.{Eq, Ord}
use timely_mirror.Sorting.{insert_on, sort_on, dedup_after, dedup_on}

abbrev pub id {ℓ} : {A : Type ℓ} → A → A
id x = x

module _ {ℓ κ} {A : Type ℓ} {K : Type κ} ⦃o : Ord K⦄ (key : A → K) where
  abbrev pub IsSortedOn : List A → Type 0
  IsSortedOn [] = Unit
  IsSortedOn (x ∷ xs) = All (λ y. o.le (key x) (key y) ≡ true) xs × IsSortedOn xs

  pub le_of_not_le : (a b : K) → o.le a b ≡ false → o.le b a ≡ true
  le_of_not_le a b h = elim (o.le_total a b) [ inl le ↦ cc (h, le) | inr le ↦ le ]

  pub All-insert_on {μ} :
      (P : A → Type μ) (x : A) (xs : List A) → P x → All P xs → All P (insert_on key x xs)
  unfolding insert_on
  All-insert_on P x [] p h = (p, tt)
  All-insert_on P x (y ∷ xs) p h = elim (Bool-cases (o.le (key x) (key y))) [
    | inl before ↦ rw before (p, h)
    | inr behind ↦ rw behind (h.0, All-insert_on P x xs p h.1)
  ]

  pub All-sort_on {μ} : (P : A → Type μ) (xs : List A) → All P xs → All P (sort_on key xs)
  unfolding sort_on
  All-sort_on P [] h = tt
  All-sort_on P (x ∷ xs) h = All-insert_on P x (sort_on key xs) h.0 (All-sort_on P xs h.1)

  insert_on-IsSortedOn : (x : A) (xs : List A) → IsSortedOn xs → IsSortedOn (insert_on key x xs)
  unfolding insert_on
  insert_on-IsSortedOn x [] h = (tt, tt)
  insert_on-IsSortedOn x (y ∷ xs) h = elim (Bool-cases (o.le (key x) (key y))) [
    | inl before ↦ rw before ((before, All-mono _ _ xs (λ z le. o.le_trans _ _ _ before le) h.0), h)
    | inr behind ↦ rw behind (
      All-insert_on _ x xs (le_of_not_le (key x) (key y) behind) h.0,
      insert_on-IsSortedOn x xs h.1,
    )
  ]

  pub sort_on-IsSortedOn : (xs : List A) → IsSortedOn (sort_on key xs)
  unfolding sort_on
  sort_on-IsSortedOn [] = tt
  sort_on-IsSortedOn (x ∷ xs) = insert_on-IsSortedOn x (sort_on key xs) (sort_on-IsSortedOn xs)

  Memᴰ-insert_on_self : (x : A) (xs : List A) → Memᴰ x (insert_on key x xs)
  unfolding insert_on
  Memᴰ-insert_on_self x [] = here refl
  Memᴰ-insert_on_self x (y ∷ xs) = elim (Bool-cases (o.le (key x) (key y))) [
    | inl before ↦ rw before (here refl)
    | inr behind ↦ rw behind (there (Memᴰ-insert_on_self x xs))
  ]

  Memᴰ-insert_on_other : (z x : A) (xs : List A) → Memᴰ z xs → Memᴰ z (insert_on key x xs)
  unfolding insert_on
  Memᴰ-insert_on_other z x [] m = elim m [ ]
  Memᴰ-insert_on_other z x (y ∷ xs) (here e) = elim (Bool-cases (o.le (key x) (key y))) [
    | inl before ↦ rw before (there (here e))
    | inr behind ↦ rw behind (here e)
  ]
  Memᴰ-insert_on_other z x (y ∷ xs) (there m) = elim (Bool-cases (o.le (key x) (key y))) [
    | inl before ↦ rw before (there (there m))
    | inr behind ↦ rw behind (there (Memᴰ-insert_on_other z x xs m))
  ]

  pub Memᴰ-sort_on : (z : A) (xs : List A) → Memᴰ z xs → Memᴰ z (sort_on key xs)
  unfolding sort_on
  Memᴰ-sort_on z [] m = elim m [ ]
  Memᴰ-sort_on z (x ∷ xs) (here e) =
      subst (λ y. Memᴰ y (insert_on key x (sort_on key xs))) (sym e)
        (Memᴰ-insert_on_self x (sort_on key xs))
  Memᴰ-sort_on z (x ∷ xs) (there m) =
      Memᴰ-insert_on_other z x (sort_on key xs) (Memᴰ-sort_on z xs m)

  map-insert_on :
      (x : A) (xs : List A) → map key (insert_on key x xs) ≡ insert_on id (key x) (map key xs)
  unfolding insert_on
  map-insert_on x [] = refl
  map-insert_on x (y ∷ xs) = elim (Bool-cases (o.le (key x) (key y))) [
    | inl before ↦ rw before refl
    | inr behind ↦ rw behind (ap (◌∷◌ (key y)) (map-insert_on x xs))
  ]

  -- The keys of the sorted elements are the sorted keys.
  pub map-sort_on : (xs : List A) → map key (sort_on key xs) ≡ sort_on id (map key xs)
  unfolding sort_on
  map-sort_on [] = refl
  map-sort_on (x ∷ xs) =
      map-insert_on x (sort_on key xs) ∙ ap (insert_on id (key x)) (map-sort_on xs)

module _ {ℓ κ} {A : Type ℓ} {K : Type κ} ⦃e : Eq K⦄ (key : A → K) where
  pub map-dedup_after :
      (x : A) (xs : List A) → map key (dedup_after key x xs) ≡ dedup_after id (key x) (map key xs)
  unfolding dedup_after
  map-dedup_after x [] = refl
  map-dedup_after x (y ∷ xs) = elim (Bool-cases (e.eq (key y) (key x))) [
    | inl same ↦ rw same (map-dedup_after x xs)
    | inr other ↦ rw other (ap (◌∷◌ (key y)) (map-dedup_after y xs))
  ]

  pub map-dedup_on : (xs : List A) → map key (dedup_on key xs) ≡ dedup_on id (map key xs)
  unfolding dedup_on
  map-dedup_on [] = refl
  map-dedup_on (x ∷ xs) = ap (◌∷◌ (key x)) (map-dedup_after x xs)

  pub All-dedup_after {μ} :
      (P : A → Type μ) (x : A) (xs : List A) → All P xs → All P (dedup_after key x xs)
  unfolding dedup_after
  All-dedup_after P x [] h = tt
  All-dedup_after P x (y ∷ xs) h = elim (Bool-cases (e.eq (key y) (key x))) [
    | inl same ↦ rw same (All-dedup_after P x xs h.1)
    | inr other ↦ rw other (h.0, All-dedup_after P y xs h.1)
  ]

  pub All-dedup_on {μ} : (P : A → Type μ) (xs : List A) → All P xs → All P (dedup_on key xs)
  unfolding dedup_on
  All-dedup_on P [] h = tt
  All-dedup_on P (x ∷ xs) h = (h.0, All-dedup_after P x xs h.1)

module _ {κ} {K : Type κ} ⦃e : Eq K⦄ where
  Memᴰ-dedup_after : (z x : K) (xs : List K) → z ≢ x → Memᴰ z xs → Memᴰ z (dedup_after id x xs)
  unfolding dedup_after
  Memᴰ-dedup_after z x [] ne m = elim m [ ]
  Memᴰ-dedup_after z x (y ∷ xs) ne (here q) = elim (Bool-cases (e.eq y x)) [
    | inl same ↦ absurd (ne (q ∙ (e.eq_iff y x).0 same))
    | inr other ↦ rw other (here q)
  ]
  Memᴰ-dedup_after z x (y ∷ xs) ne (there m) = elim (Bool-cases (e.eq y x)) [
    | inl same ↦ rw same (Memᴰ-dedup_after z x xs ne m)
    | inr other ↦ rw other (elim (Bool-cases (e.eq z y)) [
      | inl at_y ↦ here ((e.eq_iff z y).0 at_y)
      | inr past ↦ there (Memᴰ-dedup_after z y xs (λ q. ground (arith, (e.eq_iff z y).1 q)) m)
    ])
  ]

  -- No key is lost.
  pub Memᴰ-dedup_on : (z : K) (xs : List K) → Memᴰ z xs → Memᴰ z (dedup_on id xs)
  unfolding dedup_on
  Memᴰ-dedup_on z [] m = elim m [ ]
  Memᴰ-dedup_on z (x ∷ xs) (here q) = here q
  Memᴰ-dedup_on z (x ∷ xs) (there m) = elim (Bool-cases (e.eq z x)) [
    | inl same ↦ here ((e.eq_iff z x).0 same)
    | inr other ↦ there (Memᴰ-dedup_after z x xs (λ q. ground (arith, (e.eq_iff z x).1 q)) m)
  ]

  module _ ⦃o : Ord K⦄ where
    -- Each is less than all that follow.
    abbrev pub IsAscending : List K → Type κ
    IsAscending [] = Unit
    IsAscending (x ∷ xs) = All (λ y. (o.le x y ≡ true) × (x ≢ y)) xs × IsAscending xs

    dedup_after-IsAscending :
        (x : K) (xs : List K)
        → All (λ y. o.le x y ≡ true) xs
        → IsSortedOn id xs
        → IsAscending (x ∷ dedup_after id x xs)
    unfolding dedup_after
    dedup_after-IsAscending x [] h s = (tt, tt)
    dedup_after-IsAscending x (y ∷ xs) h s = elim (Bool-cases (e.eq y x)) [
      | inl same ↦ rw same (dedup_after-IsAscending x xs h.1 s.1)
      | inr other ↦
          let ne : x ≢ y = λ q. ground (arith, (e.eq_iff y x).1 (sym q)) in
          let rest = dedup_after-IsAscending y xs s.0 s.1 in
          rw other (
            (
              (h.0, ne),
              All-mono _ _ (dedup_after id y xs)
                  (λ z k. (
                    o.le_trans x y z h.0 k.0,
                    λ q. ne (o.le_antisymm x y h.0 (subst (λ w. o.le y w ≡ true) (sym q) k.0)),
                  ))
                  rest.0,
            ),
            rest,
          )
    ]

    pub dedup_on-IsAscending : (xs : List K) → IsSortedOn id xs → IsAscending (dedup_on id xs)
    unfolding dedup_on
    dedup_on-IsAscending [] s = tt
    dedup_on-IsAscending (x ∷ xs) s = dedup_after-IsAscending x xs s.0 s.1
