-- ===== src/Bytes/Sound.antt =====
-- Each step keeps the live slices apart, within their allocation, and counted.
use timely_mirror.Prelude.{
  ℕ, suc, ◌+◌, ◌≡◌, refl, sym, ap, ◌∙◌, List, [], ◌∷◌, ◌++◌, ◌==◌, All-mono, length, length-append,
  length-set, arith, Bool-cases, ==_iff, inl, inr, set,
}
use timely_mirror.Prelude.Picks.{All-Picks, Picks}
use timely_mirror.Bytes.{Allocation, Memory, Bytes, change, count_of, contents_of, release_arc}
use timely_mirror.Bytes.Store.{
  length-change, count_of-change_same, count_of-behind, contents_of-behind, count_of-before,
  contents_of-before, count_of-beyond, length-contents_of-change,
}
use timely_mirror.Bytes.Live.{AreApart, IsWithin, IsSound}
use timely_mirror.Bytes.Picked.{
  IsSeparate-Picks, counted_on, sharers-Picks, IsWithin-of_same, no_sharers,
}
use timely_mirror.Bytes.Split.{IsSplit, counts_of_release, IsWithin-of_counts}

pub regenerated-IsSound :
    (m : Memory) (h : Bytes) (others : List Bytes)
    → count_of m h.sequestered ≡ 1
    → IsSplit m h others
    → IsSound (record {
      memory = m;
      live = record h { ptr = 0; len = length (contents_of m h.sequestered) } ∷ others;
    })
regenerated-IsSound m h others alone s =
    let grown : Bytes = record h { ptr = 0; len = length (contents_of m h.sequestered) } in
    record {
      separate = (no_sharers m h grown others alone refl s.counted, s.separate);
      within = ((s.at_h.0, omega arith), s.within);
      counted = s.counted;
    }

pub written-IsSound :
    (m : Memory) (h : Bytes) (live : List Bytes) (i byte : ℕ)
    → IsSound (record { memory = m; live = live })
    → IsSound (record {
      memory = change (λ c. record c { contents = set c.contents i byte }) m h.sequestered;
      live = live;
    })
written-IsSound m h live i byte s =
    let f : Allocation → Allocation = λ c. record c { contents = set c.contents i byte } in
    record {
      separate = s.separate;
      within =
          IsWithin-of_same m _ live (omega (arith, length-change f m h.sequestered))
            (λ a l.
              length-contents_of-change f (λ c. length-set c.contents i byte) m h.sequestered a)
            s.within;
      counted = λ a. count_of-change_same f (λ c. refl) m h.sequestered a ∙ s.counted a;
    }

pub created-IsSound :
    (m : Memory) (live : List Bytes) (c : Allocation)
    → c.count ≡ 1
    → IsSound (record { memory = m; live = live })
    → IsSound (record {
      memory = m ++ c ∷ [];
      live = record { ptr = 0; len = length c.contents; sequestered = length m } ∷ live;
    })
created-IsSound m live c one s =
    let h : Bytes = record { ptr = 0; len = length c.contents; sequestered = length m } in
    let longer : length (m ++ c ∷ []) ≡ length m + 1 = length-append m (c ∷ []) in
    record {
      separate = (
        All-mono (IsWithin m) (AreApart h) live
            (λ g w a k on_h on_g. omega (arith, w.0, on_h.0, on_g.0)) s.within,
        s.separate,
      );
      within = (
        (omega (arith, longer), omega (arith, ap length (contents_of-behind m c))),
        IsWithin-of_same m (m ++ c ∷ []) live (omega (arith, longer))
            (λ a l. ap length (sym (contents_of-before m c a (λ e. omega (arith, e, l))))) s.within,
      );
      counted = λ a. elim (Bool-cases (length m == a)) [
        | inl at_new ↦
            let same = (==_iff (length m) a).0 at_new in
            rw at_new (
              ap (count_of (m ++ c ∷ [])) (sym same)
              ∙ count_of-behind m c
              ∙ one
              ∙ ap suc (sym (count_of-beyond m a (omega (arith, same))) ∙ s.counted a))
        | inr off ↦ rw off (count_of-before m c a (λ e. ground (arith, e, off)) ∙ s.counted a)
      ];
    }

pub dropped-IsSound :
    (m : Memory) (h : Bytes) (others : List Bytes)
    → IsSplit m h others
    → IsSound (record { memory = release_arc m h.sequestered; live = others })
dropped-IsSound m h others s = record {
  separate = s.separate;
  within = IsWithin-of_counts _ m h.sequestered others (λ c. refl) s.within;
  counted = λ a. counts_of_release m h a _ (s.counted a);
}

-- The order of the live slices does not matter.
pub picked-IsSound :
    (m : Memory) (h : Bytes) (others : List Bytes)
    → IsSplit m h others
    → IsSound (record { memory = m; live = h ∷ others })
picked-IsSound m h others s = record {
  separate = (s.apart, s.separate);
  within = (s.at_h, s.within);
  counted = s.counted;
}

pub pair-IsSound :
    (m : Memory) (h g : Bytes) (others fewer : List Bytes)
    → Picks g fewer others
    → IsSplit m h others
    → IsSound (record { memory = m; live = h ∷ g ∷ fewer })
pair-IsSound m h g others fewer p s =
    let (g_apart, separate) = IsSeparate-Picks p s.separate in
    let (h_g, h_apart) = All-Picks (AreApart h) p s.apart in
    let (at_g, within) = All-Picks (IsWithin m) p s.within in
    record {
      separate = ((h_g, h_apart), (g_apart, separate));
      within = (s.at_h, (at_g, within));
      counted = λ a. s.counted a ∙ ap (counted_on a h) (sharers-Picks a p);
    }
