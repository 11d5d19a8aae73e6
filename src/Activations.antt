-- ===== src/Activations.antt =====
-- timely/src/scheduling/activate.rs: which paths of operators are to be scheduled.

pub mod Paths
pub mod Advance
pub mod Scan
pub mod Extensions
pub mod Timers
use timely_mirror.Prelude.{
  ℕ, zero, suc, ◌+◌, ◌-◌, Bool, true, false, Option, none, some, List, [], ◌∷◌, ◌++◌, ◌==◌, ◌&&◌,
  if◌then◌else◌, leb, ltb, length, take, drop, get_elem?, map, is_empty_list, not,
}
use timely_mirror.Order.{nat_eq, nat_ord}
use timely_mirror.Order.Sequence.{list_le, list_eq, list_ord}
use timely_mirror.Order.Derived.{tuple_ord}
use timely_mirror.Sorting.{insert_on, sort_on, dedup_on}

pub record Activations : Type 0 where
  pub clean : ℕ
  -- The offset and the length of each path in `slices`.
  pub bounds : List (ℕ × ℕ)
  pub slices : List ℕ
  pub buffer : List ℕ
  -- The heap of delayed activations, in the order in which it is popped.
  pub queue : List (ℕ × List ℕ)

unfoldable pub new : Activations
new = record { clean = 0; bounds = []; slices = []; buffer = []; queue = [] }

-- `&slices[offset .. offset + length]`, of a range that is in bounds.
abbrev pub slice_of : List ℕ → ℕ × ℕ → List ℕ
slice_of slices b = take b.1 (drop b.0 slices)

unfoldable pub activate : Activations → List ℕ → Activations
activate a path = record a {
  bounds = a.bounds ++ (length a.slices, length path) ∷ [];
  slices = a.slices ++ path;
}

-- `elapsed` is the time on the timer; times are in nanoseconds.
unfoldable pub activate_after : Activations → List ℕ → ℕ → ℕ → Activations
unfolding activate
activate_after a path delay elapsed =
    if delay == 0
    then activate a path
    else record a { queue = insert_on (λ x. x) (elapsed + delay, path) a.queue }

-- The loop over what other threads have sent.
unfoldable pub activate_all : Activations → List (List ℕ) → Activations
activate_all a [] = a
activate_all a (path ∷ rest) = activate_all (activate a path) rest

-- The loop over the heap, whose entries are given.
unfoldable pub activate_due : ℕ → List (ℕ × List ℕ) → Activations → Activations
activate_due now [] a = record a { queue = [] }
activate_due now ((t, path) ∷ rest) a =
    let later = activate_due now rest (activate a path) in
    if leb t now then later else record a { queue = (t, path) ∷ rest }

-- The loop that compacts the slices: what the buffer holds at the end, and the new bounds.
unfoldable pub compact_slices : List ℕ → List ℕ → List (ℕ × ℕ) → List ℕ × List (ℕ × ℕ)
compact_slices slices buffer [] = (buffer, [])
compact_slices slices buffer ((offset, size) ∷ rest) =
    let longer = buffer ++ slice_of slices (offset, size) in
    let (final, moved) = compact_slices slices longer rest in
    (final, (length longer - size, size) ∷ moved)

-- The part of `advance` behind the loops that drain.
unfoldable pub settle : Activations → Activations
unfolding sort_on dedup_on compact_slices
settle a =
    let fresh = drop a.clean a.bounds in
    let sorted = sort_on (slice_of a.slices) fresh in
    let distinct = dedup_on (slice_of a.slices) sorted in
    let (slices, bounds) = compact_slices a.slices [] distinct in
    record {
      clean = length bounds;
      bounds = bounds;
      slices = slices;
      buffer = a.slices;
      queue = a.queue;
    }

-- `advance`, with the messages that are there to receive and the time on the timer.
unfoldable pub advance : List (List ℕ) → ℕ → Activations → Activations
unfolding activate_all activate_due settle
advance received now a =
    let drained = activate_all a received in settle (activate_due now drained.queue drained)

-- The active paths.
abbrev pub paths : Activations → List (List ℕ)
paths a = map (slice_of a.slices) a.bounds

-- The slices that `map_active` calls its function on, in order.
abbrev pub map_active : Activations → List (List ℕ)
map_active a = paths a

-- `x.starts_with(path)`.
abbrev pub starts_with : List ℕ → List ℕ → Bool
starts_with x [] = true
starts_with [] (p ∷ ps) = false
starts_with (y ∷ ys) (p ∷ ps) = y == p && starts_with ys ps

-- What `binary_search_by_key` returns on keys that ascend, whether it finds the path or where to
-- insert it: how many keys are less.
abbrev pub position_of : List ℕ → List (List ℕ) → ℕ
position_of path [] = 0
position_of path (x ∷ xs) = if list_le path x then 0 else suc (position_of path xs)

abbrev pub is_same : Option ℕ → ℕ → Bool
is_same none x = false
is_same (some y) x = y == x

-- The loop over the paths from that position on: the calls of `action`.
unfoldable pub extensions_after : List ℕ → Option ℕ → List (List ℕ) → List ℕ
extensions_after path previous [] = []
extensions_after path previous (x ∷ xs) =
    let unchanged = extensions_after path previous xs in
    let further : List ℕ = elim (get_elem? x (length path)) [
      | none ↦ unchanged
      | some extension ↦
          if is_same previous extension
          then unchanged
          else extension ∷ extensions_after path (some extension) xs
    ] in
    if starts_with x path then further else []

unfoldable pub for_extensions : Activations → List ℕ → List ℕ
unfolding extensions_after
for_extensions a path =
    extensions_after path none (drop (position_of path (take a.clean (paths a))) (paths a))

-- The time to the next activation, by the time on the timer.
unfoldable pub empty_for : Activations → ℕ → Option ℕ
empty_for a elapsed = if not (is_empty_list a.bounds) then some 0 else elim a.queue [
  | [] ↦ none
  | entry ∷ _ ↦ some (if ltb entry.0 elapsed then 0 else entry.0 - elapsed)
]
