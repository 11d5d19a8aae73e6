-- ===== src/Capability/Set/Insert.antt =====
-- `insert` keeps what the capabilities of a set allow, and adds what the new one does.
use timely_mirror.Prelude.{
  ◌≡◌, refl, ◌∙◌, Bool, true, false, not, List, [], ◌∷◌, ◌||◌, any, any-append, retain, Bool-cases,
  any-witness, any_of_elem, inl, inr, arith,
}
use timely_mirror.Order.{Eq, Ord, PartialOrder}
use timely_mirror.Capability.{Cells, Capability, capability_less_equal}
use timely_mirror.Capability.Set.{CapabilitySet, insert}

module _ {ℓ} {T : Type ℓ} ⦃p : PartialOrder T⦄ where
  capability_less_equal_trans :
      (a b c : Capability T)
      → capability_less_equal a b ≡ true
      → capability_less_equal b c ≡ true
      → capability_less_equal a c ≡ true
  capability_less_equal_trans a b c h k =
      ground (
        arith,
        h,
        k,
        p.less_equal_trans a.time b.time c.time (ground (arith, h)) (ground (arith, k)),
      )

  -- Some capability of the list is less or equal.
  abbrev allows : List (Capability T) → Capability T → Bool
  allows cs d = any (λ c. capability_less_equal c d) cs

  -- What only a discarded element allows, the new capability allows.
  allows-retain :
      (capability d : Capability T) (cs : List (Capability T))
      → (allows (retain (λ c. not (capability_less_equal capability c)) cs) d
          || capability_less_equal capability d)
        ≡ (allows cs d || capability_less_equal capability d)
  allows-retain capability d [] = refl
  allows-retain capability d (c ∷ cs) =
      let rest = allows-retain capability d cs in
      elim (Bool-cases (capability_less_equal capability c)) [
        | inr kept ↦ rw kept (ground (arith, rest))
        | inl discarded ↦ rw discarded (elim (Bool-cases (capability_less_equal c d)) [
          | inl allowed ↦
              ground
                (arith, rest, allowed, capability_less_equal_trans capability c d discarded allowed)
          | inr not_allowed ↦ ground (arith, rest, not_allowed)
        ])
      ]

  module _ ⦃e : Eq T⦄ ⦃o : Ord T⦄ where
    -- After `insert`, a capability is beyond some element exactly if it was before, or is beyond the
    -- new one.
    allows-insert :
        (s : CapabilitySet T) (capability d : Capability T) (cells : Cells T)
        → allows (insert s capability cells).1.elements d
          ≡ (allows s.elements d || capability_less_equal capability d)
    unfolding insert
    allows-insert s capability d cells = elim (Bool-cases (allows s.elements capability)) [
      | inr needed ↦ rw needed (
          any-append (λ c. capability_less_equal c d)
            (retain (λ c. not (capability_less_equal capability c)) s.elements) (capability ∷ [])
          ∙ (let step : (allows (retain (λ c. not (capability_less_equal capability c)) s.elements)
                      d
                    || (capability_less_equal capability d || false))
                  ≡ (allows s.elements d || capability_less_equal capability d) =
                ground (arith, allows-retain capability d s.elements) in
              step))
      | inl redundant ↦ rw redundant (elim (Bool-cases (capability_less_equal capability d)) [
        | inr no_more ↦ ground (arith, no_more)
        | inl more ↦
            let (c, place, le) =
              any-witness (λ x. capability_less_equal x capability) s.elements redundant in
            let found =
              any_of_elem (λ x. capability_less_equal x d) c s.elements place
                (capability_less_equal_trans c capability d le more) in
            ground (arith, found, more)
      ])
    ]
