-- ===== src/Bytes/Steps.antt =====
-- The states that a program can reach are sound, so a write through a live slice is seen by it alone.
use timely_mirror.Prelude.{
  ℕ, ◌+◌, ◌<◌, ◌≡◌, ◌⊎◌, refl, sym, ap, ◌∙◌, subst, true, false, Bool, Option, some, none, List,
  ◌∷◌, ◌==◌, ◌&&◌, All, All-mono, length, arith, Bool-cases, ==_iff, inl, inr, leb_iff, ltb, set,
  some_of_guard, some_injective, drop, take,
}
use timely_mirror.Prelude.Picks.{Picks}
use timely_mirror.Bytes.{
  Memory, Bytes, count_of, contents_of, release_arc, from, extract_to, try_regenerate, try_merge,
  drop_bytes, write_byte, deref,
}
use timely_mirror.Bytes.Store.{contents_of-change_ne, contents_of-write_at, write_at}
use timely_mirror.Bytes.Slices.{slice-set_before, slice-set_behind, slice-set_within}
use timely_mirror.Bytes.Live.{
  Shared, Step, Reachable, Holds, AreApart, IsSound, from_step, extract_step, regenerate_step,
  merge_step, apart_step, drop_step, write_step, at_start, by_step,
}
use timely_mirror.Bytes.Split.{IsSplit-Picks, extracted-IsSound, merged-IsSound}
use timely_mirror.Bytes.Sound.{
  regenerated-IsSound, written-IsSound, created-IsSound, dropped-IsSound, picked-IsSound,
  pair-IsSound,
}

regenerate-cases :
    (type_id : ℕ) (m : Memory) (h grown : Bytes) (done : Bool)
    → try_regenerate type_id m h ≡ some (grown, done)
    → ◌≡◌ {A = Bytes × Bool} (h, false) (grown, done)
      ⊎ ((count_of m h.sequestered ≡ 1)
          × ◌≡◌ {A = Bytes × Bool}
              (record h { ptr = 0; len = length (contents_of m h.sequestered) }, true)
              (grown, done))
unfolding try_regenerate
regenerate-cases type_id m h grown done e = elim (Bool-cases (count_of m h.sequestered == 1)) [
  | inr shared ↦ inl (some_injective _ _ (rw shared at e))
  | inl alone ↦
      let (_, same) = some_of_guard _ _ _ (rw alone at e) in
      inr ((==_iff (count_of m h.sequestered) 1).0 alone, same)
]

pub merge-cases :
    (m n : Memory) (h g same : Bytes) (left : Option Bytes)
    → try_merge m h g ≡ (n, same, left)
    → ((h.sequestered ≡ g.sequestered)
        × (h.ptr + h.len ≡ g.ptr)
        × ◌≡◌ {A = Memory × Bytes × Option Bytes}
            (release_arc m g.sequestered, record h { len = h.len + g.len }, none)
            (n, same, left))
      ⊎ ◌≡◌ {A = Memory × Bytes × Option Bytes} (m, h, some g) (n, same, left)
unfolding try_merge
merge-cases m n h g same left e =
    elim (Bool-cases (h.sequestered == g.sequestered && h.ptr + h.len == g.ptr)) [
      | inl adjacent ↦ inl (ground (arith, adjacent), ground (arith, adjacent), (rw adjacent at e))
      | inr apart ↦ inr (rw apart at e)
    ]

abbrev with_left : Option Bytes → List Bytes → List Bytes
with_left none hs = hs
with_left (some h) hs = h ∷ hs

Step-IsSound : {s t : Shared} → Step s t → IsSound s → IsSound t
unfolding from extract_to try_merge drop_bytes write_byte
Step-IsSound (from_step {m} {live} type_id bytes) s =
    created-IsSound m live (record { contents = bytes; type_id = type_id; count = 1 }) refl s
Step-IsSound (extract_step {m} {n} {h} {part} {rest} {others} index p e) s =
    let (le, same) = some_of_guard _ _ _ e in
    subst
      (λ (t : Memory × Bytes × Bytes). IsSound (record { memory = t.0; live = t.1 ∷ t.2 ∷ others }))
      same (extracted-IsSound m h others index ((leb_iff index h.len).0 le) (IsSplit-Picks p s))
Step-IsSound (regenerate_step {m} {h} {grown} {others} type_id done p e) s =
    elim (regenerate-cases type_id m h grown done e) [
      | inl same ↦
          subst (λ (t : Bytes × Bool). IsSound (record { memory = m; live = t.0 ∷ others })) same
            (picked-IsSound m h others (IsSplit-Picks p s))
      | inr (alone, same) ↦
          subst (λ (t : Bytes × Bool). IsSound (record { memory = m; live = t.0 ∷ others })) same
            (regenerated-IsSound m h others alone (IsSplit-Picks p s))
    ]
Step-IsSound (merge_step {m} {n} {h} {g} {merged} {others} {fewer} p q e) s =
    elim (merge-cases m n h g merged none e) [
      | inl (same, next, done) ↦
          subst
            (λ (t : Memory × Bytes × Option Bytes).
              IsSound (record { memory = t.0; live = t.1 ∷ fewer }))
            done (merged-IsSound m h g others fewer q same next (IsSplit-Picks p s))
      | inr failed ↦ absurd (
          let gone : some g ≡ none = ap (λ (t : Memory × Bytes × Option Bytes). t.2) failed in
          ground arith)
    ]
Step-IsSound (apart_step {m} {n} {h} {g} {same} {other} {others} {fewer} p q e) s =
    elim (merge-cases m n h g same (some other) e) [
      | inl (_, _, done) ↦ absurd (
          let gone : none ≡ some other = ap (λ (t : Memory × Bytes × Option Bytes). t.2) done in
          ground arith)
      | inr failed ↦
          subst
            (λ (t : Memory × Bytes × Option Bytes).
              IsSound (record { memory = t.0; live = t.1 ∷ with_left t.2 fewer }))
            failed (pair-IsSound m h g others fewer q (IsSplit-Picks p s))
    ]
Step-IsSound (drop_step {m} {h} {others} p) s = dropped-IsSound m h others (IsSplit-Picks p s)
Step-IsSound (write_step {m} {n} {h} {others} {live} index byte p e) s =
    let (_, same) = some_of_guard _ _ _ e in
    subst (λ k. IsSound (record { memory = k; live = live })) same
      (written-IsSound m h live (h.ptr + index) byte s)

pub Reachable-IsSound : {s : Shared} → Reachable s → IsSound s
Reachable-IsSound at_start = record { separate = tt; within = tt; counted = λ a. refl }
Reachable-IsSound (by_step r step) = Step-IsSound step (Reachable-IsSound r)

-- A write outside of what a slice holds does not change what it dereferences to.
deref-write_other :
    (m : Memory) (h g : Bytes) (i byte : ℕ)
    → AreApart h g
    → Holds h h.sequestered i
    → deref (write_at m h.sequestered i byte) g ≡ deref m g
unfolding deref
deref-write_other m h g i byte d held = elim (Bool-cases (h.sequestered == g.sequestered)) [
  | inr other ↦
      ap (λ xs. take g.len (drop g.ptr xs))
        (contents_of-change_ne _ m h.sequestered g.sequestered (λ e. ground (arith, e, other)))
  | inl shared ↦
      let same = (==_iff h.sequestered g.sequestered).0 shared in
      ap (λ a. take g.len (drop g.ptr (contents_of (write_at m a i byte) g.sequestered))) same
      ∙ ap (λ xs. take g.len (drop g.ptr xs)) (contents_of-write_at m g.sequestered i byte)
      ∙ elim (Bool-cases (ltb i g.ptr)) [
        | inl low ↦ slice-set_before g.ptr g.len i byte _ (ground (arith, low))
        | inr high ↦ elim (Bool-cases (ltb i (g.ptr + g.len))) [
          | inl inside ↦
              absurd
                (d h.sequestered i held (sym same, ground (arith, high), ground (arith, inside)))
          | inr behind ↦ slice-set_behind g.ptr g.len i byte _ (ground (arith, behind))
        ]
      ]
]

-- In every state that a program can reach by making, splitting, merging, regenerating, dropping and
-- writing slices: a write through a live slice at an index below its length succeeds, changes that
-- one byte of what the slice dereferences to, and changes nothing of what the others dereference to.
pub write_byte-IsExclusive :
    (s : Shared) (h : Bytes) (others : List Bytes) (index byte : ℕ)
    → Reachable s
    → Picks h others s.live
    → index < h.len
    → (n : Memory) × (write_byte s.memory h index byte ≡ some n)
      × (deref n h ≡ set (deref s.memory h) index byte)
      × All (λ g. deref n g ≡ deref s.memory g) others
unfolding write_byte deref
write_byte-IsExclusive s h others index byte r p l =
    let split = IsSplit-Picks p (Reachable-IsSound r) in
    let m = s.memory in
    let i = h.ptr + index in
    let inside : ltb index h.len ≡ true = ground (arith, l) in
    (
      write_at m h.sequestered i byte,
      rw inside refl,
      ap (λ xs. take h.len (drop h.ptr xs)) (contents_of-write_at m h.sequestered i byte)
          ∙ slice-set_within h.ptr h.len i index byte _ refl,
      All-mono _ _ others
          (λ g d. deref-write_other m h g i byte d (refl, omega arith, omega (arith, l)))
          split.apart,
    )
