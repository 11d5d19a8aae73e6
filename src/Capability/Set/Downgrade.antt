-- ===== src/Capability/Set/Downgrade.antt =====
-- `downgrade` replaces the capabilities of a set by those for a frontier.
use timely_mirror.Prelude.{
  ℕ, ◌≡◌, ◌⊎◌, refl, sym, ap, ap₂, ◌∙◌, subst, Bool, true, false, none, some, List, [], ◌∷◌, ◌++◌,
  map, any, all, any-append, any_mono, ◌&&◌, ◌<◌, Memᴰ-append_left, length, take, drop, take-append,
  drop-append, take_of_le, drop_of_le, and_then, Bool-cases, inl, inr, arith, All-elem, Memᴰ, here,
  there,
}
use mathlib.Core.List.{append_assoc, append-nil}
use timely_mirror.Order.{Eq, Ord, PartialOrder}
use timely_mirror.Capability.{Cells, Capability, mint, delayed}
use timely_mirror.Capability.Steps.{holdings, IsBalanced}
use timely_mirror.Capability.Balance.{minted-IsBalanced}
use timely_mirror.Capability.Set.{
  CapabilitySet, find, drop_all, set_delayed, push_delayed, set_downgrade,
}
use timely_mirror.Capability.Set.Balance.{drop_all-IsBalanced, behind-IsBalanced}

module _ {ℓ} {T : Type ℓ} ⦃p : PartialOrder T⦄ where
  -- Some capability is for a time less or equal.
  abbrev pub is_beyond : T → List (Capability T) → Bool
  is_beyond time cs = any (λ c. p.less_equal c.time time) cs

  find-is_beyond :
      (time : T) (cs : List (Capability T))
      → is_beyond time cs ≡ true
      → (c : Capability T) × (find (λ d. p.less_equal d.time time) cs ≡ some c)
        × (p.less_equal c.time time ≡ true)
        × Memᴰ c cs
  find-is_beyond time [] h = absurd (ground arith)
  find-is_beyond time (c ∷ cs) h = elim (Bool-cases (p.less_equal c.time time)) [
    | inl le ↦ (c, rw le refl, le, here refl)
    | inr not_le ↦
        let (d, found, le, place) = find-is_beyond time cs (rw not_le at h) in
        (d, rw not_le found, le, there place)
  ]

  find-none :
      (time : T) (cs : List (Capability T))
      → is_beyond time cs ≡ false
      → find (λ d. p.less_equal d.time time) cs ≡ none
  find-none time [] h = refl
  find-none time (c ∷ cs) h = elim (Bool-cases (p.less_equal c.time time)) [
    | inl le ↦ absurd (ground (arith, h, le))
    | inr not_le ↦ rw not_le (find-none time cs (rw not_le at h))
  ]

  -- What is beyond the new capability is beyond the old ones.
  is_beyond_snoc :
      (time t : T) (cs : List (Capability T)) (rc : ℕ)
      → is_beyond time cs ≡ true
      → is_beyond t (cs ++ record { time = time; internal = rc } ∷ []) ≡ is_beyond t cs
  is_beyond_snoc time t cs rc h = elim (Bool-cases (p.less_equal time t)) [
    | inl le ↦
        let old : is_beyond t cs ≡ true =
          any_mono _ _ cs (λ c c_le. p.less_equal_trans c.time time t c_le le) h in
        ground (
          arith,
          old,
          any-append (λ c. p.less_equal c.time t) cs (record { time = time; internal = rc } ∷ []),
        )
    | inr not_le ↦ ground (
      arith,
      not_le,
      any-append (λ c. p.less_equal c.time t) cs (record { time = time; internal = rc } ∷ []),
    )
  ]

  all_beyond_snoc :
      (time : T) (frontier : List T) (cs : List (Capability T)) (rc : ℕ)
      → is_beyond time cs ≡ true
      → all (λ t. is_beyond t (cs ++ record { time = time; internal = rc } ∷ [])) frontier
        ≡ all (λ t. is_beyond t cs) frontier
  all_beyond_snoc time [] cs rc h = refl
  all_beyond_snoc time (t ∷ frontier) cs rc h =
      ap₂ ◌&&◌ (is_beyond_snoc time t cs rc h) (all_beyond_snoc time frontier cs rc h)

  module _ ⦃e : Eq T⦄ ⦃o : Ord T⦄ where
    set_delayed_lem :
        (s : CapabilitySet T) (time : T) (cells : Cells T)
        → is_beyond time s.elements ≡ true
        → (c : Capability T) × (set_delayed s time cells ≡ some (mint time c.internal cells))
          × Memᴰ c s.elements
    unfolding set_delayed delayed
    set_delayed_lem s time cells h =
        let (c, found, le, place) = find-is_beyond time s.elements h in
        (c, rw found (rw le refl), place)

    set_delayed-none :
        (s : CapabilitySet T) (time : T) (cells : Cells T)
        → is_beyond time s.elements ≡ false
        → set_delayed s time cells ≡ none
    unfolding set_delayed
    set_delayed-none s time cells h = rw (find-none time s.elements h) refl

    abbrev appended : CapabilitySet T → List (Capability T) → CapabilitySet T
    appended s more = record { elements = s.elements ++ more }

    push_delayed_lem :
        (frontier : List T) (s : CapabilitySet T) (cells : Cells T)
        → all (λ t. is_beyond t s.elements) frontier ≡ true
        → (next : Cells T) × (more : List (Capability T)) × (push_delayed frontier s cells
            ≡ some (next, appended s more))
          × (map (λ c. c.time) more ≡ frontier)
          × ((told : Cells T) (others : List (Capability T))
              → IsBalanced (holdings cells told (s.elements ++ others))
              → IsBalanced (holdings next told (s.elements ++ more ++ others)))
    unfolding push_delayed mint
    push_delayed_lem [] s cells h = (
      cells,
      [],
      ap (λ cs. some (cells, record { elements = cs })) (sym (append-nil s.elements)),
      refl,
      λ told others b.
          subst (λ cs. IsBalanced (holdings cells told (cs ++ others)))
            (sym (append-nil s.elements)) b,
    )
    push_delayed_lem (time ∷ frontier) s cells h =
        let beyond : is_beyond time s.elements ≡ true = ground (arith, h) in
        let (c, made, place) = set_delayed_lem s time cells beyond in
        let d : Capability T = record { time = time; internal = c.internal } in
        let mid = appended s (d ∷ []) in
        let (next, more, pushed, times, balance) =
          push_delayed_lem frontier mid (mint time c.internal cells).0
            (all_beyond_snoc time frontier s.elements c.internal beyond ∙ ground (arith, h)) in
        (
          next,
          d ∷ more,
          ap (λ o. and_then o (λ r. push_delayed frontier (appended s (r.1 ∷ [])) r.0)) made
              ∙ pushed
              ∙ ap (λ cs. some (next, record { elements = cs }))
                  (append_assoc s.elements (d ∷ []) more),
          ap (◌∷◌ time) times,
          λ told others b.
              let inside =
                All-elem (λ x. x.internal < length cells) c (s.elements ++ others)
                  (Memᴰ-append_left c s.elements others place) b.inside in
              let minted =
                minted-IsBalanced cells told (s.elements ++ others) time c.internal
                  (mint time c.internal cells) inside refl b in
              let placed = behind-IsBalanced d s.elements others _ told minted in
              subst (λ cs. IsBalanced (holdings next told (cs ++ others)))
                (append_assoc s.elements (d ∷ []) more)
                (balance told others (
                  subst (λ cs. IsBalanced (holdings (mint time c.internal cells).0 told cs))
                    (sym (append_assoc s.elements (d ∷ []) others)) placed)),
        )

    push_delayed-none :
        (frontier : List T) (s : CapabilitySet T) (cells : Cells T)
        → all (λ t. is_beyond t s.elements) frontier ≡ false
        → push_delayed frontier s cells ≡ none
    unfolding push_delayed mint
    push_delayed-none [] s cells h = absurd (ground arith)
    push_delayed-none (time ∷ frontier) s cells h = elim (Bool-cases (is_beyond time s.elements)) [
      | inr not_beyond ↦ rw (set_delayed-none s time cells not_beyond) refl
      | inl beyond ↦
          let (c, made, place) = set_delayed_lem s time cells beyond in
          ap (λ o. and_then o (λ r. push_delayed frontier (appended s (r.1 ∷ [])) r.0)) made
          ∙ push_delayed-none frontier _ _ (
              all_beyond_snoc time frontier s.elements c.internal beyond
              ∙ ground (arith, h, beyond))
    ]

-- Where the changes add up to the live capabilities, those of the set among them: if each time of the
-- frontier is beyond some capability of the set, `downgrade` succeeds, the set holds one capability for
-- each time of the frontier, in order, and the changes add up to the live capabilities again. If some
-- time is not beyond any capability of the set, `downgrade` panics.
pub set_downgrade-replaces {ℓ} :
    {T : Type ℓ} ⦃p : PartialOrder T⦄ ⦃e : Eq T⦄ ⦃o : Ord T⦄ (s : CapabilitySet T)
    (frontier : List T) (cells told : Cells T) (others : List (Capability T))
    → IsBalanced (holdings cells told (s.elements ++ others))
    → ((all (λ t. is_beyond t s.elements) frontier ≡ true)
        × ((next : Cells T) × (after : CapabilitySet T) × (set_downgrade s frontier cells
              ≡ some (next, after))
            × (map (λ c. c.time) after.elements ≡ frontier)
            × IsBalanced (holdings next told (after.elements ++ others))))
      ⊎ ((all (λ t. is_beyond t s.elements) frontier ≡ false)
          × (set_downgrade s frontier cells ≡ none))
unfolding set_downgrade
set_downgrade-replaces s frontier cells told others b =
    elim (Bool-cases (all (λ t. is_beyond t s.elements) frontier)) [
      | inr not_beyond ↦ inr (not_beyond, rw (push_delayed-none frontier s cells not_beyond) refl)
      | inl beyond ↦
          let (next, more, pushed, times, balance) = push_delayed_lem frontier s cells beyond in
          let n = length s.elements in
          let kept : drop n (s.elements ++ more) ≡ more =
            drop-append n s.elements more (omega arith)
            ∙ ap (λ cs. cs ++ more) (drop_of_le n s.elements (omega arith)) in
          let gone : take n (s.elements ++ more) ≡ s.elements =
            take-append n s.elements more (omega arith) ∙ take_of_le n s.elements (omega arith) in
          inl (
            beyond,
            (
              drop_all s.elements next,
              record { elements = more },
              rw pushed
                  (ap₂ (λ xs ys. some (drop_all xs next, record { elements = ys })) gone kept),
              times,
              drop_all-IsBalanced s.elements (more ++ others) next told (
                  subst (λ cs. IsBalanced (holdings next told cs))
                    (append_assoc s.elements more others) (balance told others b)),
            ),
          )
    ]
