-- ===== src/Tests/Slices.antt =====
-- The slices of an allocation of ten bytes, split and merged as in the documentation of `try_merge`.
use timely_mirror.Prelude.{
  ℕ, ◌≡◌, ◌≢◌, ◌⊎◌, refl, some, none, true, false, List, [], ◌∷◌, All, Memᴰ, set, and_then, arith,
}
use timely_mirror.Prelude.Picks.{first, later}
use timely_mirror.Bytes.{
  Memory, Bytes, from, extract_to, try_merge, try_regenerate, write_byte, deref, drop_bytes,
}
use timely_mirror.Bytes.Live.{Shared, Reachable, at_start, by_step, from_step, extract_step}
use timely_mirror.Bytes.Steps.{write_byte-IsExclusive}
use timely_mirror.Bytes.Merge.{try_merge-extract_to, try_regenerate-cases}

abbrev ten : List ℕ
ten = 0 ∷ 1 ∷ 2 ∷ 3 ∷ 4 ∷ 5 ∷ 6 ∷ 7 ∷ 8 ∷ 9 ∷ []

abbrev memory_of : ℕ → Memory
memory_of n = record { contents = ten; type_id = 7; count = n } ∷ []

abbrev slice : ℕ → ℕ → Bytes
slice i n = record { ptr = i; len = n; sequestered = 0 }

abbrev split : Shared
split = record { memory = memory_of 2; live = slice 0 4 ∷ slice 4 6 ∷ [] }

split-Reachable : Reachable split
unfolding from extract_to
split-Reachable = by_step (by_step at_start (from_step 7 ten)) (extract_step 4 first refl)

write_byte-IsExclusive_example :
    (n : Memory) × (write_byte (memory_of 2) (slice 4 6) 1 99 ≡ some n)
    × (deref n (slice 4 6) ≡ set (deref (memory_of 2) (slice 4 6)) 1 99)
    × All (λ g. deref n g ≡ deref (memory_of 2) g) (slice 0 4 ∷ [])
write_byte-IsExclusive_example =
    write_byte-IsExclusive split (slice 4 6) (slice 0 4 ∷ []) 1 99 split-Reachable (later first)
      (omega arith)

try_merge-extract_to_example :
    and_then
      (extract_to (memory_of 1) (slice 0 10) 4)
      (λ (t : Memory × Bytes × Bytes). some (try_merge t.0 t.1 t.2))
    ≡ some (memory_of 1, slice 0 10, none)
try_merge-extract_to_example = try_merge-extract_to (memory_of 1) (slice 0 10) 4 (omega arith)

try_regenerate-cases_example :
    ((g : Bytes) × (try_regenerate 7 (memory_of 2) (slice 4 6) ≡ some (g, true))
      × (deref (memory_of 2) g ≡ ten)
      × All (λ o. 0 ≢ o.sequestered) (slice 0 4 ∷ []))
    ⊎ ((try_regenerate 7 (memory_of 2) (slice 4 6) ≡ some (slice 4 6, false))
        × ((o : Bytes) × Memᴰ o (slice 0 4 ∷ []) × (o.sequestered ≡ 0)))
try_regenerate-cases_example =
    try_regenerate-cases split (slice 4 6) (slice 0 4 ∷ []) split-Reachable (later first)

-- The order of the documentation: 2 with 3, that with 1, and 4 with all.
slices_run :
    (try_merge (memory_of 4) (slice 3 2) (slice 5 2) ≡ (memory_of 3, slice 3 4, none))
    × (try_merge (memory_of 3) (slice 3 4) (slice 7 3) ≡ (memory_of 2, slice 3 7, none))
    × (try_merge (memory_of 2) (slice 0 3) (slice 3 7) ≡ (memory_of 1, slice 0 10, none))
    × (try_merge (memory_of 2) (slice 3 7) (slice 0 3) ≡ (memory_of 2, slice 3 7, some (slice 0 3)))
    × (try_regenerate 7 (drop_bytes (memory_of 2) (slice 0 3)) (slice 3 7)
        ≡ some (slice 0 10, true))
    × (try_regenerate 8 (memory_of 1) (slice 3 7) ≡ none)
    × (extract_to (memory_of 1) (slice 3 7) 8 ≡ none)
unfolding try_merge try_regenerate drop_bytes extract_to
slices_run = (refl, refl, refl, refl, refl, refl, refl)
