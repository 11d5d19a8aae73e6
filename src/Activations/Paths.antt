-- ===== src/Activations/Paths.antt =====
-- The bounds stay within the slices, and activating a path appends it to the active ones.
use timely_mirror.Prelude.{
  ℕ, ◌+◌, ◌-◌, ◌≤◌, ◌≡◌, refl, sym, ap, ap₂, ◌∙◌, List, [], ◌∷◌, ◌++◌, All, All-mono, All-append,
  length, length-append, take, drop, take-append, drop-append, drop_of_le, take_of_le, length-drop,
  length-take, map, arith,
}
use mathlib.Core.List.{append_assoc, append-nil, map-append}
use timely_mirror.Activations.{
  Activations, slice_of, paths, activate, activate_all, compact_slices, new,
}

abbrev pub InBounds : List ℕ → ℕ × ℕ → Type 0
InBounds slices b = b.0 + b.1 ≤ length slices

pub record IsValid (a : Activations) : Type 0 where
  pub in_bounds : All (InBounds a.slices) a.bounds
  pub within : a.clean ≤ length a.bounds

pub new-IsValid : IsValid new
unfolding new
new-IsValid = record { in_bounds = tt; within = omega arith }

-- A slice in bounds is the same once more is appended.
slice_of-append :
    (xs ys : List ℕ) (b : ℕ × ℕ) → InBounds xs b → slice_of (xs ++ ys) b ≡ slice_of xs b
slice_of-append xs ys b h =
    ap (take b.1) (drop-append b.0 xs ys (omega arith))
    ∙ take-append b.1 (drop b.0 xs) ys (omega (arith, length-drop b.0 xs))

-- What stands behind is the slice at its length.
slice_of-behind : (xs ys : List ℕ) → slice_of (xs ++ ys) (length xs, length ys) ≡ ys
slice_of-behind xs ys =
    ap (take (length ys)) (
      drop-append (length xs) xs ys (omega arith)
      ∙ ap (λ zs. zs ++ ys) (drop_of_le (length xs) xs (omega arith)))
    ∙ take_of_le (length ys) ys (omega arith)

length-slice_of : (xs : List ℕ) (b : ℕ × ℕ) → InBounds xs b → length (slice_of xs b) ≡ b.1
length-slice_of xs b h = omega (arith, length-take b.1 (drop b.0 xs), length-drop b.0 xs)

map-slice_of-append :
    (xs ys : List ℕ) (bs : List (ℕ × ℕ))
    → All (InBounds xs) bs
    → map (slice_of (xs ++ ys)) bs ≡ map (slice_of xs) bs
map-slice_of-append xs ys [] h = refl
map-slice_of-append xs ys (b ∷ bs) h =
    ap₂ ◌∷◌ (slice_of-append xs ys b h.0) (map-slice_of-append xs ys bs h.1)

pub activate-IsValid : (a : Activations) (path : List ℕ) → IsValid a → IsValid (activate a path)
unfolding activate
activate-IsValid a path v = record {
  in_bounds =
      All-append _ a.bounds ((length a.slices, length path) ∷ [])
        (All-mono _ _ a.bounds (λ b h. omega (arith, h, length-append a.slices path)) v.in_bounds)
        (omega (arith, length-append a.slices path), tt);
  within = omega (arith, v.within, length-append a.bounds ((length a.slices, length path) ∷ []));
}

pub paths-activate :
    (a : Activations) (path : List ℕ) → IsValid a → paths (activate a path) ≡ paths a ++ path ∷ []
unfolding activate
paths-activate a path v =
    map-append (slice_of (a.slices ++ path)) a.bounds ((length a.slices, length path) ∷ [])
    ∙ ap₂ ◌++◌ (map-slice_of-append a.slices path a.bounds v.in_bounds)
        (ap (λ x. x ∷ []) (slice_of-behind a.slices path))

pub activate_all-IsValid :
    (a : Activations) (received : List (List ℕ)) → IsValid a → IsValid (activate_all a received)
unfolding activate_all
activate_all-IsValid a [] v = v
activate_all-IsValid a (path ∷ rest) v =
    activate_all-IsValid (activate a path) rest (activate-IsValid a path v)

pub paths-activate_all :
    (a : Activations) (received : List (List ℕ))
    → IsValid a
    → paths (activate_all a received) ≡ paths a ++ received
unfolding activate_all
paths-activate_all a [] v = sym (append-nil (paths a))
paths-activate_all a (path ∷ rest) v =
    paths-activate_all (activate a path) rest (activate-IsValid a path v)
    ∙ ap (λ ps. ps ++ rest) (paths-activate a path v)
    ∙ append_assoc (paths a) (path ∷ []) rest

-- Compaction only extends the buffer, and keeps the slices at the bounds.
pub compact_slices-IsKept :
    (slices buffer : List ℕ) (bs : List (ℕ × ℕ))
    → All (InBounds slices) bs
    → (more : List ℕ) × ((compact_slices slices buffer bs).0 ≡ buffer ++ more)
      × All (InBounds (compact_slices slices buffer bs).0) (compact_slices slices buffer bs).1
      × (map (slice_of (compact_slices slices buffer bs).0) (compact_slices slices buffer bs).1
          ≡ map (slice_of slices) bs)
unfolding compact_slices
compact_slices-IsKept slices buffer [] h = ([], sym (append-nil buffer), tt, refl)
compact_slices-IsKept slices buffer ((o, n) ∷ bs) h =
    let piece = slice_of slices (o, n) in
    let longer = buffer ++ piece in
    let size = length-slice_of slices (o, n) h.0 in
    let (more, grown, inside, same) = compact_slices-IsKept slices longer bs h.1 in
    let final = (compact_slices slices longer bs).0 in
    let start : length longer - n ≡ length buffer =
      omega (arith, size, length-append buffer piece) in
    let fits : InBounds longer (length longer - n, n) =
      omega (arith, size, length-append buffer piece) in
    (
      piece ++ more,
      grown ∙ append_assoc buffer piece more,
      (omega (arith, fits, ap length grown, length-append longer more), inside),
      ap₂ ◌∷◌
          (ap (λ xs. slice_of xs (length longer - n, n)) grown
            ∙ slice_of-append longer more (length longer - n, n) fits
            ∙ ap₂ (λ i k. slice_of longer (i, k)) start (sym size)
            ∙ slice_of-behind buffer piece)
          same,
    )
