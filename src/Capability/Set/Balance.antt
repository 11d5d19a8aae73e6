-- ===== src/Capability/Set/Balance.antt =====
-- Capabilities that move into or out of a vector keep the balance.
use timely_mirror.Prelude.{◌<◌, sym, ◌∙◌, List, [], ◌∷◌, ◌++◌, All, length}
use timely_mirror.Prelude.Picks.{Picks, first, later}
use timely_mirror.Order.{Eq, Ord, PartialOrder}
use timely_mirror.Capability.{Cells, Capability}
use timely_mirror.Capability.Counted.{held-Picks}
use timely_mirror.Capability.Steps.{holdings, IsBalanced, less-IsBalanced}
use timely_mirror.Capability.Set.{drop_all}

module _ {ℓ} {T : Type ℓ} ⦃e : Eq T⦄ ⦃o : Ord T⦄ ⦃p : PartialOrder T⦄ where
  pub drop_all-IsBalanced :
      (cs others : List (Capability T)) (cells told : Cells T)
      → IsBalanced (holdings cells told (cs ++ others))
      → IsBalanced (holdings (drop_all cs cells) told others)
  unfolding drop_all
  drop_all-IsBalanced [] others cells told b = b
  drop_all-IsBalanced (c ∷ cs) others cells told b =
      drop_all-IsBalanced cs others _ told (less-IsBalanced cells told c first b)

  Picks-behind :
      (c : Capability T) (cs others : List (Capability T))
      → Picks c (cs ++ others) (cs ++ c ∷ others)
  Picks-behind c [] others = first
  Picks-behind c (d ∷ cs) others = later (Picks-behind c cs others)

  All-behind :
      (P : Capability T → Type 0) (c : Capability T) (cs others : List (Capability T))
      → P c
      → All P (cs ++ others)
      → All P (cs ++ c ∷ others)
  All-behind P c [] others h hs = (h, hs)
  All-behind P c (d ∷ cs) others h hs = (hs.0, All-behind P c cs others h hs.1)

  -- The place of a capability among the live ones does not matter.
  pub behind-IsBalanced :
      (c : Capability T) (cs others : List (Capability T)) (cells told : Cells T)
      → IsBalanced (holdings cells told (c ∷ (cs ++ others)))
      → IsBalanced (holdings cells told (cs ++ c ∷ others))
  behind-IsBalanced c cs others cells told b = record {
    inside = All-behind (λ d. d.internal < length cells) c cs others b.inside.0 b.inside.1;
    balanced = λ i t. b.balanced i t ∙ sym (held-Picks i t (Picks-behind c cs others));
  }
