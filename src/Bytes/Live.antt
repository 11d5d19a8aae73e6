-- ===== src/Bytes/Live.antt =====
-- The slices that are live, and the steps that a program can take with them.
use timely_mirror.Prelude.{
  ℕ, suc, ◌+◌, ◌≤◌, ◌<◌, ◌≡◌, Bool, none, some, List, [], ◌∷◌, ◌==◌, if◌then◌else◌, All, length,
}
use timely_mirror.Prelude.Picks.{Picks}
use timely_mirror.Bytes.{
  Memory, Bytes, count_of, contents_of, from, extract_to, try_regenerate, try_merge, drop_bytes,
  write_byte,
}

pub record Shared : Type 0 where
  pub memory : Memory
  pub live : List Bytes

abbrev pub start : Shared
start = record { memory = []; live = [] }

-- Each step is a call with the slices it takes, and puts the slices that it leaves among the live
-- ones.
pub data Step : Shared → Shared → Type 0 where
  from_step :
      {m : Memory} {live : List Bytes} (type_id : ℕ) (bytes : List ℕ)
      → Step
          (record { memory = m; live = live })
          (record { memory = (from type_id bytes m).0; live = (from type_id bytes m).1 ∷ live })
  extract_step :
      {m n : Memory} {h part rest : Bytes} {others live : List Bytes} (index : ℕ)
      → Picks h others live
      → extract_to m h index ≡ some (n, part, rest)
      → Step
          (record { memory = m; live = live })
          (record { memory = n; live = part ∷ rest ∷ others })
  regenerate_step :
      {m : Memory} {h grown : Bytes} {others live : List Bytes} (type_id : ℕ) (done : Bool)
      → Picks h others live
      → try_regenerate type_id m h ≡ some (grown, done)
      → Step (record { memory = m; live = live }) (record { memory = m; live = grown ∷ others })
  merge_step :
      {m n : Memory} {h g merged : Bytes} {others fewer live : List Bytes}
      → Picks h others live
      → Picks g fewer others
      → try_merge m h g ≡ (n, merged, none)
      → Step (record { memory = m; live = live }) (record { memory = n; live = merged ∷ fewer })
  apart_step :
      {m n : Memory} {h g same other : Bytes} {others fewer live : List Bytes}
      → Picks h others live
      → Picks g fewer others
      → try_merge m h g ≡ (n, same, some other)
      → Step
          (record { memory = m; live = live })
          (record { memory = n; live = same ∷ other ∷ fewer })
  drop_step :
      {m : Memory} {h : Bytes} {others live : List Bytes}
      → Picks h others live
      → Step
          (record { memory = m; live = live })
          (record { memory = drop_bytes m h; live = others })
  write_step :
      {m n : Memory} {h : Bytes} {others live : List Bytes} (index byte : ℕ)
      → Picks h others live
      → write_byte m h index byte ≡ some n
      → Step (record { memory = m; live = live }) (record { memory = n; live = live })

pub data Reachable : Shared → Type 0 where
  at_start : Reachable start
  by_step : {s t : Shared} → Reachable s → Step s t → Reachable t

-- The slice holds the byte of the allocation.
abbrev pub Holds : Bytes → ℕ → ℕ → Type 0
Holds h a k = (h.sequestered ≡ a) × (h.ptr ≤ k) × (k < h.ptr + h.len)

abbrev pub AreApart : Bytes → Bytes → Type 0
AreApart h g = (a k : ℕ) → Holds h a k → Holds g a k → ⊥

abbrev pub IsSeparate : List Bytes → Type 0
IsSeparate [] = Unit
IsSeparate (h ∷ hs) = All (AreApart h) hs × IsSeparate hs

abbrev pub IsWithin : Memory → Bytes → Type 0
IsWithin m h = (h.sequestered < length m) × (h.ptr + h.len ≤ length (contents_of m h.sequestered))

-- How many of the slices share the allocation.
abbrev pub sharers : ℕ → List Bytes → ℕ
sharers a [] = 0
sharers a (h ∷ hs) = let rest = sharers a hs in if h.sequestered == a then suc rest else rest

-- No two live slices hold a byte in common, all lie within their allocation, and the allocation
-- counts them.
pub record IsSound (s : Shared) : Type 0 where
  pub separate : IsSeparate s.live
  pub within : All (IsWithin s.memory) s.live
  pub counted : (a : ℕ) → count_of s.memory a ≡ sharers a s.live
