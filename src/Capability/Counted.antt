-- ===== src/Capability/Counted.antt =====
-- The changes that capabilities make add up to the capabilities that are live.
use timely_mirror.Prelude.{
  ℕ, ◌<◌, ◌≡◌, refl, sym, ap, ap₂, ◌∙◌, Bool, none, some, List, [], ◌∷◌, ◌==◌, ◌&&◌, ==_iff,
  if◌then◌else◌, length, modify, get_elem?, get_elem?-of_lt, get_elem?-modify_self,
  get_elem?-modify_ne, Bool-cases, inl, inr, arith, set, get_elem?-set_self, get_elem?-set_ne,
}
use timely_mirror.Prelude.Picks.{Picks, first, later}
use timely_mirror.Order.{Eq, Ord}
use timely_mirror.Int64.{
  modulus, wrapping_add, wrapping_add-lt, minus_one, wrapping_add_assoc, wrapping_add_comm,
}
use timely_mirror.ChangeBatch.{ChangeBatch, update, drain_into}
use timely_mirror.ChangeBatch.Totals.{total, total-update, total-drain_into}
use timely_mirror.Capability.{Cells, Capability}

one_less : (n : ℕ) → n < modulus → wrapping_add (wrapping_add 1 n) minus_one ≡ n
unfolding wrapping_add
one_less n l = omega arith

plus_zero : (a b : ℕ) → wrapping_add (wrapping_add a b) 0 ≡ wrapping_add a b
unfolding wrapping_add
plus_zero a b = omega arith

module _ {ℓ} {T : Type ℓ} ⦃e : Eq T⦄ (i : ℕ) (t : T) where
  -- What the cell of an output adds up to at a time.
  abbrev pub total_at : Cells T → ℕ
  total_at cells = elim (get_elem? cells i) [ none ↦ 0 | some b ↦ total t b ]

  abbrev is_at : Capability T → Bool
  is_at c = c.internal == i && e.eq c.time t

  abbrev held_with : Capability T → ℕ → ℕ
  held_with c n = if is_at c then wrapping_add 1 n else n

  -- How many of the capabilities are for the output and the time, modulo 2^64.
  abbrev pub held : List (Capability T) → ℕ
  held [] = 0
  held (c ∷ cs) = held_with c (held cs)

  held-lt : (cs : List (Capability T)) → held cs < modulus
  held-lt [] = omega arith
  held-lt (c ∷ cs) = ground (arith, wrapping_add-lt 1 (held cs), held-lt cs)

  pub held-Picks :
      {c : Capability T} {others live : List (Capability T)}
      → Picks c others live
      → held live ≡ held_with c (held others)
  held-Picks first = refl
  held-Picks {c} {others} (later {y} {xs} {ys} p) =
      ap (held_with y) (held-Picks p)
      ∙ (let swapped : held_with y (held_with c (held ys)) ≡ held_with c (held_with y (held ys)) =
            ground arith in
          swapped)

  module _ ⦃o : Ord T⦄ where
    total_at-modify :
        (cells : Cells T) (j : ℕ) (time : T) (v : ℕ)
        → j < length cells
        → total_at (modify (λ b. update b time v) cells j)
          ≡ (if j == i && e.eq time t then wrapping_add (total_at cells) v else total_at cells)
    total_at-modify cells j time v l = elim (Bool-cases (j == i)) [
      | inl same ↦
          let at_i = (==_iff j i).0 same in
          let (b, found) = get_elem?-of_lt cells i (omega (arith, at_i, l)) in
          rw same (
            ap (λ k. total_at (modify (λ c. update c time v) cells k)) at_i
            ∙ ap (λ x. elim x [ none ↦ 0 | some c ↦ total t c ])
                (get_elem?-modify_self (λ c. update c time v) cells i b found)
            ∙ total-update t b time v
            ∙ ap (λ n. if e.eq time t then wrapping_add n v else n)
                (ap (λ x. elim x [ none ↦ 0 | some c ↦ total t c ]) (sym found)))
      | inr other ↦ rw other (
          ap (λ x. elim x [ none ↦ 0 | some c ↦ total t c ])
            (get_elem?-modify_ne (λ c. update c time v) cells j i (λ q. ground (arith, q, other))))
    ]

    -- One more capability, or one less.
    pub balance_more :
        (told : ℕ) (cells : Cells T) (c : Capability T) (live : List (Capability T))
        → c.internal < length cells
        → wrapping_add told (total_at cells) ≡ held live
        → wrapping_add told (total_at (modify (λ b. update b c.time 1) cells c.internal))
          ≡ held (c ∷ live)
    balance_more told cells c live l h =
        ap (wrapping_add told) (total_at-modify cells c.internal c.time 1 l)
        ∙ elim (Bool-cases (is_at c)) [
          | inl here_too ↦ rw here_too (
              sym (wrapping_add_assoc told (total_at cells) 1)
              ∙ wrapping_add_comm _ 1
              ∙ ap (wrapping_add 1) h)
          | inr elsewhere ↦ rw elsewhere h
        ]

    pub balance_less :
        (told : ℕ) (cells : Cells T) (c : Capability T) {others live : List (Capability T)}
        → Picks c others live
        → c.internal < length cells
        → wrapping_add told (total_at cells) ≡ held live
        → wrapping_add told (total_at (modify (λ b. update b c.time minus_one) cells c.internal))
          ≡ held others
    balance_less told cells c {others} p l h =
        let picked = h ∙ held-Picks p in
        ap (wrapping_add told) (total_at-modify cells c.internal c.time minus_one l)
        ∙ elim (Bool-cases (is_at c)) [
          | inl here_too ↦ rw here_too (
              sym (wrapping_add_assoc told (total_at cells) minus_one)
              ∙ ap (λ n. wrapping_add n minus_one) (rw here_too at picked)
              ∙ one_less (held others) (held-lt others))
          | inr elsewhere ↦ rw elsewhere (rw elsewhere at picked)
        ]

    -- Draining a cell into another moves what it adds up to.
    pub balance_drained :
        (cells told : Cells T) (j : ℕ) (b other : ChangeBatch T)
        → get_elem? cells j ≡ some b
        → get_elem? told j ≡ some other
        → wrapping_add
            (total_at (set told j (drain_into b other).1))
            (total_at (set cells j (drain_into b other).0))
          ≡ wrapping_add (total_at told) (total_at cells)
    balance_drained cells told j b other found found_too = elim (Bool-cases (j == i)) [
      | inl same ↦
          let at_i = (==_iff j i).0 same in
          let (emptied, moved) = total-drain_into t b other in
          let here_value : (xs : Cells T) (x y : ChangeBatch T)
              → get_elem? xs j ≡ some x
              → total_at (set xs j y) ≡ total t y =
            λ xs x y f.
              ap (λ k. total_at (set xs k y)) at_i
              ∙ ap (λ o. elim o [ none ↦ 0 | some c ↦ total t c ])
                  (get_elem?-set_self xs i y x (ap (get_elem? xs) (sym at_i) ∙ f)) in
          let old_value : (xs : Cells T) (x : ChangeBatch T)
              → get_elem? xs j ≡ some x
              → total_at xs ≡ total t x =
            λ xs x f.
              ap (λ o. elim o [ none ↦ 0 | some c ↦ total t c ])
                (ap (get_elem? xs) (sym at_i) ∙ f) in
          ap₂ wrapping_add (here_value told other _ found_too ∙ moved)
            (here_value cells b _ found ∙ emptied)
          ∙ plus_zero (total t other) (total t b)
          ∙ sym (ap₂ wrapping_add (old_value told other found_too) (old_value cells b found))
      | inr different ↦
          let kept : (xs : Cells T) (y : ChangeBatch T) → total_at (set xs j y) ≡ total_at xs =
            λ xs y.
              ap (λ o. elim o [ none ↦ 0 | some c ↦ total t c ])
                (get_elem?-set_ne xs j i y (λ q. ground (arith, q, different))) in
          ap₂ wrapping_add (kept told _) (kept cells _)
    ]
