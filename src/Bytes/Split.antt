-- ===== src/Bytes/Split.antt =====
-- What a slice and the others are known to be, and how counts and bounds follow a change.
use timely_mirror.Prelude.{
  ℕ, suc, ◌+◌, ◌-◌, ◌≤◌, ◌<◌, ◌≡◌, refl, sym, ap, ◌∙◌, List, ◌∷◌, ◌==◌, All, length, arith,
  Bool-cases, ==_iff, inl, inr,
}
use timely_mirror.Prelude.Picks.{All-Picks, Picks}
use timely_mirror.Bytes.{Allocation, Memory, Bytes, change, count_of, retain_arc, release_arc}
use timely_mirror.Bytes.Store.{
  length-change, count_of-change_ne, contents_of-change_same, count_of-retain_arc,
  count_of-release_arc,
}
use timely_mirror.Bytes.Live.{AreApart, IsSeparate, IsWithin, sharers, IsSound}
use timely_mirror.Bytes.Picked.{
  IsSeparate-Picks, counted_on, sharers-Picks, HoldsLess, AreApart-less, IsWithin-of_same,
  merged_apart, merged_within, counted_on_comm,
}

-- A slice of a memory whose slices are sound, the others, and what is known of each.
pub record IsSplit (m : Memory) (h : Bytes) (others : List Bytes) : Type 0 where
  pub apart : All (AreApart h) others
  pub separate : IsSeparate others
  pub at_h : IsWithin m h
  pub within : All (IsWithin m) others
  pub counted : (a : ℕ) → count_of m a ≡ counted_on a h (sharers a others)

pub IsSplit-Picks :
    {m : Memory} {h : Bytes} {others live : List Bytes}
    → Picks h others live
    → IsSound (record { memory = m; live = live })
    → IsSplit m h others
IsSplit-Picks {m} p s =
    let (apart, separate) = IsSeparate-Picks p s.separate in
    let (at_h, within) = All-Picks (IsWithin m) p s.within in
    record {
      apart = apart;
      separate = separate;
      at_h = at_h;
      within = within;
      counted = λ a. s.counted a ∙ sharers-Picks a p;
    }

pub counts_of_release :
    (m : Memory) (h : Bytes) (a n : ℕ)
    → count_of m a ≡ counted_on a h n
    → count_of (release_arc m h.sequestered) a ≡ n
counts_of_release m h a n c = elim (Bool-cases (h.sequestered == a)) [
  | inl at_a ↦
      let same = (==_iff h.sequestered a).0 at_a in
      let total : count_of m a ≡ suc n = rw at_a at c in
      ap (λ b. count_of (release_arc m b) a) same
      ∙ count_of-release_arc m a
      ∙ (let less : count_of m a - 1 ≡ n = omega (arith, total) in less)
  | inr off ↦ count_of-change_ne _ m h.sequestered a (λ e. ground (arith, e, off)) ∙ (rw off at c)
]

counts_of_retain :
    (m : Memory) (h : Bytes) (a n : ℕ)
    → h.sequestered < length m
    → count_of m a ≡ n
    → count_of (retain_arc m h.sequestered) a ≡ counted_on a h n
counts_of_retain m h a n l c = elim (Bool-cases (h.sequestered == a)) [
  | inl at_a ↦
      let same = (==_iff h.sequestered a).0 at_a in
      rw at_a (
        ap (count_of (retain_arc m h.sequestered)) (sym same)
        ∙ count_of-retain_arc m h.sequestered l
        ∙ ap suc (ap (count_of m) same ∙ c))
  | inr off ↦ rw off (count_of-change_ne _ m h.sequestered a (λ e. ground (arith, e, off)) ∙ c)
]

pub IsWithin-of_counts :
    (f : Allocation → Allocation) (m : Memory) (b : ℕ) (hs : List Bytes)
    → ((c : Allocation) → (f c).contents ≡ c.contents)
    → All (IsWithin m) hs
    → All (IsWithin (change f m b)) hs
IsWithin-of_counts f m b hs same =
    IsWithin-of_same m (change f m b) hs (omega (arith, length-change f m b))
      (λ a l. ap length (sym (contents_of-change_same f same m b a)))

pub extracted-IsSound :
    (m : Memory) (h : Bytes) (others : List Bytes) (index : ℕ)
    → index ≤ h.len
    → IsSplit m h others
    → IsSound (record {
      memory = retain_arc m h.sequestered;
      live =
          record h { len = index } ∷ record h { ptr = h.ptr + index; len = h.len - index } ∷ others;
    })
extracted-IsSound m h others index le s =
    let part : Bytes = record h { len = index } in
    let rest : Bytes = record h { ptr = h.ptr + index; len = h.len - index } in
    let part_less : HoldsLess part h = λ a k o. (o.0, o.1, omega (arith, le, o.2)) in
    let rest_less : HoldsLess rest h = λ a k o. (o.0, omega (arith, o.1), omega (arith, le, o.2)) in
    let between : AreApart part rest = λ a k on_part on_rest. omega (arith, on_part.2, on_rest.1) in
    record {
      separate = (
        (between, AreApart-less part h others part_less s.apart),
        (AreApart-less rest h others rest_less s.apart, s.separate),
      );
      within =
          IsWithin-of_counts _ m h.sequestered (part ∷ rest ∷ others) (λ c. refl)
            (
              (s.at_h.0, omega (arith, le, s.at_h.1)),
              ((s.at_h.0, omega (arith, le, s.at_h.1)), s.within),
            );
      counted = λ a. counts_of_retain m h a _ s.at_h.0 (s.counted a);
    }

pub merged-IsSound :
    (m : Memory) (h g : Bytes) (others fewer : List Bytes)
    → Picks g fewer others
    → h.sequestered ≡ g.sequestered
    → h.ptr + h.len ≡ g.ptr
    → IsSplit m h others
    → IsSound (record {
      memory = release_arc m g.sequestered;
      live = record h { len = h.len + g.len } ∷ fewer;
    })
merged-IsSound m h g others fewer p same next s =
    let merged : Bytes = record h { len = h.len + g.len } in
    let (g_apart, separate) = IsSeparate-Picks p s.separate in
    let (h_g, h_apart) = All-Picks (AreApart h) p s.apart in
    let (at_g, within) = All-Picks (IsWithin m) p s.within in
    record {
      separate = (merged_apart h g fewer same next h_apart g_apart, separate);
      within =
          IsWithin-of_counts _ m g.sequestered (merged ∷ fewer) (λ c. refl)
            ((s.at_h.0, merged_within m h g same next at_g.1), within);
      counted = λ a. counts_of_release m g a _ (
          s.counted a
          ∙ ap (counted_on a h) (sharers-Picks a p)
          ∙ counted_on_comm a h g (sharers a fewer));
    }
