-- ===== src/Bytes/Picked.antt =====
-- What taking a slice out of the live ones says of it and the others.
use timely_mirror.Prelude.{
  ℕ, suc, ◌+◌, ◌≤◌, ◌<◌, ◌≡◌, ◌≢◌, refl, sym, ap, ◌∙◌, List, [], ◌∷◌, ◌==◌, if◌then◌else◌, All,
  All-mono, length, arith, Bool-cases, ==_iff, inl, inr, ltb,
}
use timely_mirror.Prelude.Picks.{Picks, first, later, All-Picks}
use timely_mirror.Bytes.{Memory, Bytes, contents_of, count_of}
use timely_mirror.Bytes.Live.{Holds, AreApart, IsSeparate, IsWithin, sharers}

AreApart-symm : (h g : Bytes) → AreApart h g → AreApart g h
AreApart-symm h g d a k on_g on_h = d a k on_h on_g

pub IsSeparate-Picks :
    {h : Bytes} {others live : List Bytes}
    → Picks h others live
    → IsSeparate live
    → All (AreApart h) others × IsSeparate others
IsSeparate-Picks first s = s
IsSeparate-Picks {h} (later {y} p) s =
    let (apart, rest) = IsSeparate-Picks p s.1 in
    let (at_h, others) = All-Picks (AreApart y) p s.0 in
    ((AreApart-symm y h at_h, apart), (others, rest))

abbrev pub counted_on : ℕ → Bytes → ℕ → ℕ
counted_on a h n = if h.sequestered == a then suc n else n

pub sharers-Picks :
    (a : ℕ) {h : Bytes} {others live : List Bytes}
    → Picks h others live
    → sharers a live ≡ counted_on a h (sharers a others)
sharers-Picks a first = refl
sharers-Picks a {h} (later {y} p) =
    let rest = sharers-Picks a p in
    elim (Bool-cases (y.sequestered == a)) [
      | inl at_y ↦ rw at_y (elim (Bool-cases (h.sequestered == a)) [
        | inl at_h ↦ rw at_h (ap suc (rest ∙ (rw at_h refl)))
        | inr off ↦ rw off (ap suc (rest ∙ (rw off refl)))
      ])
      | inr off_y ↦ rw off_y rest
    ]

-- A slice that holds no more than another is apart from what the other is apart from.
abbrev pub HoldsLess : Bytes → Bytes → Type 0
HoldsLess g h = (a k : ℕ) → Holds g a k → Holds h a k

pub AreApart-less :
    (g h : Bytes) (others : List Bytes)
    → HoldsLess g h
    → All (AreApart h) others
    → All (AreApart g) others
AreApart-less g h others f =
    All-mono (AreApart h) (AreApart g) others (λ o d a k on_g on_o. d a k (f a k on_g) on_o)

-- Slices stay within as long as no allocation goes or changes its length.
pub IsWithin-of_same :
    (m n : Memory) (hs : List Bytes)
    → length m ≤ length n
    → ((a : ℕ) → a < length m → length (contents_of m a) ≡ length (contents_of n a))
    → All (IsWithin m) hs
    → All (IsWithin n) hs
IsWithin-of_same m n hs more same =
    All-mono (IsWithin m) (IsWithin n) hs
      (λ h w. (omega (arith, more, w.0), omega (arith, same h.sequestered w.0, w.1)))

pub counted_on_comm :
    (a : ℕ) (h g : Bytes) (n : ℕ)
    → counted_on a h (counted_on a g n) ≡ counted_on a g (counted_on a h n)
counted_on_comm a h g n = ground arith

-- The slice that covers two adjacent ones is apart from what both are apart from.
pub merged_apart :
    (h g : Bytes) (others : List Bytes)
    → h.sequestered ≡ g.sequestered
    → h.ptr + h.len ≡ g.ptr
    → All (AreApart h) others
    → All (AreApart g) others
    → All (AreApart (record h { len = h.len + g.len })) others
merged_apart h g [] same next on_h on_g = tt
merged_apart h g (o ∷ others) same next on_h on_g = (
  λ a k m n. elim (Bool-cases (ltb k g.ptr)) [
    | inl low ↦ on_h.0 a k (m.0, m.1, ground (arith, low, next)) n
    | inr high ↦ on_g.0 a k (sym same ∙ m.0, ground (arith, high), omega (arith, next, m.2)) n
  ],
  merged_apart h g others same next on_h.1 on_g.1,
)

pub merged_within :
    (m : Memory) (h g : Bytes)
    → h.sequestered ≡ g.sequestered
    → h.ptr + h.len ≡ g.ptr
    → g.ptr + g.len ≤ length (contents_of m g.sequestered)
    → h.ptr + (h.len + g.len) ≤ length (contents_of m h.sequestered)
merged_within m h g same next w = omega (arith, next, w, ap (λ a. length (contents_of m a)) same)

pub sharers_none :
    (h : Bytes) (others : List Bytes)
    → sharers h.sequestered others ≡ 0
    → All (λ g. h.sequestered ≢ g.sequestered) others
sharers_none h [] none_left = tt
sharers_none h (g ∷ others) none_left = elim (Bool-cases (g.sequestered == h.sequestered)) [
  | inl shared ↦ absurd (
      let some_left : suc (sharers h.sequestered others) ≡ 0 = rw shared at none_left in
      omega (arith, some_left))
  | inr off ↦ (λ e. ground (arith, e, off), sharers_none h others (rw off at none_left))
]

-- A slice that alone shares its allocation is apart from the others, whatever it covers.
pub no_sharers :
    (m : Memory) (h grown : Bytes) (others : List Bytes)
    → count_of m h.sequestered ≡ 1
    → grown.sequestered ≡ h.sequestered
    → ((a : ℕ) → count_of m a ≡ counted_on a h (sharers a others))
    → All (AreApart grown) others
no_sharers m h grown others alone same counted =
    let total : count_of m h.sequestered ≡ suc (sharers h.sequestered others) =
      counted h.sequestered
      ∙ ap (λ b. if b then suc (sharers h.sequestered others) else sharers h.sequestered others)
          ((==_iff h.sequestered h.sequestered).1 refl) in
    All-mono _ _ others (λ g ne a k on_grown on_g. ne (sym same ∙ on_grown.0 ∙ sym on_g.0))
      (sharers_none h others (omega (arith, total, alone)))
