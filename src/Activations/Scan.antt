-- ===== src/Activations/Scan.antt =====
-- The scan of `for_extensions` over the active paths, and where it starts.
use timely_mirror.Prelude.{
  ℕ, zero, suc, ◌≡◌, ◌≤◌, ◌⊎◌, refl, sym, ap, ◌∙◌, subst, true, false, Option, none, some, List, [],
  ◌∷◌, ◌++◌, length, get_elem?, drop, Memᴰ, here, there, All, All-elem, All-mono, arith, Bool-cases,
  inl, inr, some_injective, Option-cases, ==_iff,
}
use timely_mirror.Order.Sequence.{list_le, list_eq, list_ord, list_le_trans}
use timely_mirror.Sorting.Laws.{IsAscending}
use timely_mirror.Activations.{starts_with, position_of, is_same, extensions_after}

-- A path in which the symbol comes behind `path`.
abbrev pub Extends : List ℕ → ℕ → List ℕ → Type 0
Extends path symbol x = (starts_with x path ≡ true) × (get_elem? x (length path) ≡ some symbol)

pub starts_with-le : (x path : List ℕ) → starts_with x path ≡ true → list_le path x ≡ true
starts_with-le x [] h = refl
starts_with-le [] (p ∷ ps) h = absurd (ground arith)
starts_with-le (y ∷ ys) (p ∷ ps) h = ground (arith, starts_with-le ys ps)

-- The paths that start with a given one stand in one run.
starts_with-between :
    (path x z : List ℕ)
    → list_le path x ≡ true
    → list_le x z ≡ true
    → starts_with z path ≡ true
    → starts_with x path ≡ true
starts_with-between [] x z h k s = refl
starts_with-between (p ∷ ps) [] z h k s = absurd (ground arith)
starts_with-between (p ∷ ps) (y ∷ ys) [] h k s = absurd (ground arith)
starts_with-between (p ∷ ps) (y ∷ ys) (c ∷ cs) h k s = ground (arith, starts_with-between ps ys cs)

Memᴰ-nil : (x : ℕ) → ¬ Memᴰ x []
Memᴰ-nil x m = elim m [ ]

is_same_sound : (previous : Option ℕ) (x : ℕ) → is_same previous x ≡ true → previous ≡ some x
is_same_sound none x h = absurd (ground arith)
is_same_sound (some y) x h = ap some ((==_iff y x).0 h)

pub not_none : (x : ℕ) (xs : List ℕ) → (none ≡ some x) ⊎ Memᴰ x xs → Memᴰ x xs
not_none x xs (inl h) = absurd (ground arith)
not_none x xs (inr m) = m

-- What is not less than the path is not the head that is less.
not_head :
    (z x path : List ℕ) (xs ys : List (List ℕ))
    → list_le path x ≡ false
    → list_le path z ≡ true
    → Memᴰ z (x ∷ xs)
    → (Memᴰ z xs → Memᴰ z ys)
    → Memᴰ z ys
not_head z x path xs ys less h (here q) f = absurd (
    let le : list_le path x ≡ true = subst (λ y. list_le path y ≡ true) q h in
    ground (arith, le, less))
not_head z x path xs ys less h (there m) f = f m

pub Memᴰ-drop : (x : List ℕ) (n : ℕ) (xs : List (List ℕ)) → Memᴰ x (drop n xs) → Memᴰ x xs
Memᴰ-drop x zero xs m = m
Memᴰ-drop x (suc n) [] m = m
Memᴰ-drop x (suc n) (y ∷ xs) m = there (Memᴰ-drop x n xs m)

module _ (path : List ℕ) where
  -- The four ways that the scan goes at a path.
  scan-stops :
      (previous : Option ℕ) (x : List ℕ) (xs : List (List ℕ))
      → starts_with x path ≡ false
      → extensions_after path previous (x ∷ xs) ≡ []
  unfolding extensions_after
  scan-stops previous x xs h = rw h refl

  scan-skips :
      (previous : Option ℕ) (x : List ℕ) (xs : List (List ℕ))
      → starts_with x path ≡ true
      → get_elem? x (length path) ≡ none
      → extensions_after path previous (x ∷ xs) ≡ extensions_after path previous xs
  unfolding extensions_after
  scan-skips previous x xs h k = rw h (rw k refl)

  scan-repeats :
      (previous : Option ℕ) (symbol : ℕ) (x : List ℕ) (xs : List (List ℕ))
      → Extends path symbol x
      → is_same previous symbol ≡ true
      → extensions_after path previous (x ∷ xs) ≡ extensions_after path previous xs
  unfolding extensions_after
  scan-repeats previous symbol x xs e k = rw e.0 (rw e.1 (rw k refl))

  scan-reports :
      (previous : Option ℕ) (symbol : ℕ) (x : List ℕ) (xs : List (List ℕ))
      → Extends path symbol x
      → is_same previous symbol ≡ false
      → extensions_after path previous (x ∷ xs) ≡ symbol ∷ extensions_after path (some symbol) xs
  unfolding extensions_after
  scan-reports previous symbol x xs e k = rw e.0 (rw e.1 (rw k refl))

  abbrev Found : List (List ℕ) → ℕ → Type 0
  Found xs symbol = (x : List ℕ) × Memᴰ x xs × Extends path symbol x

  Found-later :
      (x : List ℕ) (xs : List (List ℕ)) (symbol : ℕ) → Found xs symbol → Found (x ∷ xs) symbol
  Found-later x xs symbol (y, m, e) = (y, there m, e)

  Found-head :
      (x : List ℕ) (xs : List (List ℕ)) (symbol other : ℕ) (rest : List ℕ)
      → Extends path symbol x
      → (Memᴰ other rest → Found xs other)
      → Memᴰ other (symbol ∷ rest)
      → Found (x ∷ xs) other
  Found-head x xs symbol other rest e f (here q) = (x, here refl, (e.0, e.1 ∙ ap some (sym q)))
  Found-head x xs symbol other rest e f (there m) = Found-later x xs other (f m)

  -- What is reported comes behind the path in one of the paths.
  pub extensions_after_sound :
      (previous : Option ℕ) (xs : List (List ℕ)) (symbol : ℕ)
      → Memᴰ symbol (extensions_after path previous xs)
      → Found xs symbol
  unfolding extensions_after
  extensions_after_sound previous [] symbol m = elim m [ ]
  extensions_after_sound previous (x ∷ xs) symbol m = elim (Bool-cases (starts_with x path)) [
    | inr other ↦ absurd (Memᴰ-nil symbol (subst (Memᴰ symbol) (scan-stops previous x xs other) m))
    | inl starts ↦ elim (Option-cases (get_elem? x (length path))) [
      | inl short ↦ Found-later x xs symbol (
          extensions_after_sound previous xs symbol
            (subst (Memᴰ symbol) (scan-skips previous x xs starts short) m))
      | inr (next, long) ↦ elim (Bool-cases (is_same previous next)) [
        | inl same ↦ Found-later x xs symbol (
            extensions_after_sound previous xs symbol
              (subst (Memᴰ symbol) (scan-repeats previous next x xs (starts, long) same) m))
        | inr new ↦
            Found-head x xs next symbol _ (starts, long)
              (extensions_after_sound (some next) xs symbol)
              (subst (Memᴰ symbol) (scan-reports previous next x xs (starts, long) new) m)
      ]
    ]
  ]

  abbrev pub IsReported : Option ℕ → List (List ℕ) → ℕ → Type 0
  IsReported previous xs symbol =
      (previous ≡ some symbol) ⊎ Memᴰ symbol (extensions_after path previous xs)

  IsReported-head :
      (x : List ℕ) (previous : Option ℕ) (xs : List (List ℕ)) (symbol : ℕ)
      → Extends path symbol x
      → IsReported previous (x ∷ xs) symbol
  IsReported-head x previous xs symbol e = elim (Bool-cases (is_same previous symbol)) [
    | inl same ↦ inl (is_same_sound previous symbol same)
    | inr new ↦
        inr (subst (Memᴰ symbol) (sym (scan-reports previous symbol x xs e new)) (here refl))
  ]

  IsReported-later :
      (x : List ℕ) (previous : Option ℕ) (xs : List (List ℕ)) (symbol : ℕ)
      → starts_with x path ≡ true
      → ((earlier : Option ℕ) → IsReported earlier xs symbol)
      → IsReported previous (x ∷ xs) symbol
  IsReported-later x previous xs symbol starts f = elim (Option-cases (get_elem? x (length path))) [
    | inl short ↦
        subst (λ ys. (previous ≡ some symbol) ⊎ Memᴰ symbol ys)
          (sym (scan-skips previous x xs starts short)) (f previous)
    | inr (next, long) ↦ elim (Bool-cases (is_same previous next)) [
      | inl same ↦
          subst (λ ys. (previous ≡ some symbol) ⊎ Memᴰ symbol ys)
            (sym (scan-repeats previous next x xs (starts, long) same)) (f previous)
      | inr new ↦ inr (
          subst (Memᴰ symbol) (sym (scan-reports previous next x xs (starts, long) new))
            (elim (f (some next)) [
              | inl q ↦ here (some_injective symbol next (sym q))
              | inr m ↦ there m
            ]))
    ]
  ]

  -- A symbol is reported, or is the one before, where a path extends by it.
  pub extensions_after_complete :
      (previous : Option ℕ) (xs ys : List (List ℕ)) (z : List ℕ) (symbol : ℕ)
      → IsAscending xs
      → All (λ x. list_le path x ≡ true) xs
      → Memᴰ z xs
      → Extends path symbol z
      → IsReported previous (xs ++ ys) symbol
  extensions_after_complete previous [] ys z symbol s h m e = elim m [ ]
  extensions_after_complete previous (x ∷ xs) ys z symbol s h (here q) e =
      IsReported-head x previous (xs ++ ys) symbol (subst (Extends path symbol) q e)
  extensions_after_complete previous (x ∷ xs) ys z symbol s h (there m) e =
      IsReported-later x previous (xs ++ ys) symbol
        (starts_with-between path x z h.0 (All-elem _ z xs m s.0).0 e.0)
        (λ earlier. extensions_after_complete earlier xs ys z symbol s.1 h.1 m e)

  -- Where the scan starts: behind the paths that are less.
  pub drop-position_of :
      (xs : List (List ℕ))
      → IsAscending xs
      → IsAscending (drop (position_of path xs) xs)
        × All (λ x. list_le path x ≡ true) (drop (position_of path xs) xs)
        × ((z : List ℕ)
            → Memᴰ z xs
            → list_le path z ≡ true
            → Memᴰ z (drop (position_of path xs) xs))
        × (position_of path xs ≤ length xs)
  drop-position_of [] s = (tt, tt, λ z m h. m, omega arith)
  drop-position_of (x ∷ xs) s = elim (Bool-cases (list_le path x)) [
    | inl first ↦ rw first (
      s,
      (first, All-mono _ _ xs (λ y le. list_le_trans path x y first le.0) s.0),
      λ z m h. m,
      omega arith,
    )
    | inr less ↦
        let (ascending, all_behind, kept, fits) = drop-position_of xs s.1 in
        rw less (
          ascending,
          all_behind,
          λ z m h. not_head z x path xs _ less h m (λ k. kept z k h),
          omega (arith, fits),
        )
  ]
