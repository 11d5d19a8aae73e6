-- ===== src/Bytes/Merge.antt =====
-- Splitting is undone by merging, and the whole allocation comes back to its last slice.
use timely_mirror.Prelude.{
  ℕ, suc, ◌+◌, ◌-◌, ◌≤◌, ◌≡◌, ◌≢◌, ◌⊎◌, refl, ap, ap₂, ◌∙◌, true, false, some, none, List, [], ◌∷◌,
  and_then, ◌==◌, ◌&&◌, if◌then◌else◌, All, length, take_of_le, arith, Bool-cases, ==_iff, inl, inr,
  leb, Memᴰ, here, there,
}
use timely_mirror.Prelude.Picks.{Picks}
use timely_mirror.Bytes.{
  Memory, Bytes, count_of, contents_of, type_of, extract_to, try_regenerate, try_merge, deref,
}
use timely_mirror.Bytes.Store.{release_arc-retain_arc}
use timely_mirror.Bytes.Live.{Shared, Reachable, sharers}
use timely_mirror.Bytes.Picked.{sharers_none}
use timely_mirror.Bytes.Split.{IsSplit-Picks}
use timely_mirror.Bytes.Steps.{Reachable-IsSound}

-- For an index up to the length, `extract_to` succeeds, and merging what it extracts with what it
-- leaves gives back the slice and the memory, the counts included.
pub try_merge-extract_to :
    (m : Memory) (h : Bytes) (index : ℕ)
    → index ≤ h.len
    → and_then (extract_to m h index) (λ (t : Memory × Bytes × Bytes). some (try_merge t.0 t.1 t.2))
      ≡ some (m, h, none)
unfolding extract_to try_merge
try_merge-extract_to m h index le =
    let inside : leb index h.len ≡ true = ground (arith, le) in
    let adjacent : (h.sequestered == h.sequestered && h.ptr + index == h.ptr + index) ≡ true =
      ground arith in
    let whole : index + (h.len - index) ≡ h.len = omega (arith, le) in
    rw inside (
      rw adjacent (
        ap₂ (λ n k. some (n, record h { len = k }, none)) (release_arc-retain_arc m h.sequestered)
          whole))

sharers_some :
    (a : ℕ) (hs : List Bytes) → sharers a hs ≢ 0 → (g : Bytes) × Memᴰ g hs × (g.sequestered ≡ a)
sharers_some a [] some_left = absurd (some_left refl)
sharers_some a (g ∷ hs) some_left = elim (Bool-cases (g.sequestered == a)) [
  | inl at_g ↦ (g, here refl, (==_iff g.sequestered a).0 at_g)
  | inr off ↦
      let (found, place, same) = sharers_some a hs (rw off at some_left) in
      (found, there place, same)
]

-- In every reachable state, for the type with which the allocation was made: `try_regenerate` gives a
-- live slice the whole allocation and returns true, and no other live slice shares the allocation;
-- or it leaves the slice, returns false, and another live slice does.
pub try_regenerate-cases :
    (s : Shared) (h : Bytes) (others : List Bytes)
    → Reachable s
    → Picks h others s.live
    → ((g : Bytes) × (try_regenerate (type_of s.memory h.sequestered) s.memory h ≡ some (g, true))
        × (deref s.memory g ≡ contents_of s.memory h.sequestered)
        × All (λ o. h.sequestered ≢ o.sequestered) others)
      ⊎ ((try_regenerate (type_of s.memory h.sequestered) s.memory h ≡ some (h, false))
          × ((o : Bytes) × Memᴰ o others × (o.sequestered ≡ h.sequestered)))
unfolding try_regenerate deref
try_regenerate-cases s h others r p =
    let a = h.sequestered in
    let m = s.memory in
    let split = IsSplit-Picks p (Reachable-IsSound r) in
    let total : count_of m a ≡ suc (sharers a others) =
      split.counted a
      ∙ ap (λ b. if b then suc (sharers a others) else sharers a others) ((==_iff a a).1 refl) in
    let typed : (type_of m a == type_of m a) ≡ true = (==_iff (type_of m a) (type_of m a)).1 refl in
    elim (Bool-cases (count_of m a == 1)) [
      | inl alone ↦ inl (
        record h { ptr = 0; len = length (contents_of m a) },
        rw alone (rw typed refl),
        take_of_le (length (contents_of m a)) (contents_of m a) (omega arith),
        sharers_none h others (ground (arith, total, alone)),
      )
      | inr shared ↦ inr (
        rw shared refl,
        sharers_some a others (λ none_left. ground (arith, total, none_left, shared)),
      )
    ]
