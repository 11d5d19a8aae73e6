-- ===== src/Capability/Balance.antt =====
-- In every state that a program reaches, the changes add up to the live capabilities.
use timely_mirror.Prelude.{
  ℕ, zero, suc, ◌<◌, ◌≡◌, refl, sym, ◌∙◌, subst, true, some, List, [], ◌∷◌, All, All-mono, length,
  length-set, get_elem?, some_injective, some_not_none, Bool-cases, inl, inr, arith, map_option,
}
use timely_mirror.Prelude.Picks.{later, All-Picks}
use timely_mirror.Order.{Eq, Ord, PartialOrder}
use timely_mirror.Int64.{wrapping_add}
use timely_mirror.Updates.{count}
use timely_mirror.ChangeBatch.{ChangeBatch, drain_into}
use timely_mirror.ChangeBatch
use timely_mirror.Capability.{
  Cells, Capability, CapabilityRef, mint, clone, delayed, downgrade, drop_capability,
  retain_for_output, delayed_for_output,
}
use timely_mirror.Capability.Counted.{total_at, held, balance_drained}
use timely_mirror.Capability.Steps.{
  Holdings, holdings, empty_cells, Step, Reachable, IsBalanced, more-IsBalanced, less-IsBalanced,
  mint_step, clone_step, delayed_step, downgrade_step, drop_step, retain_step, ref_delayed_step,
  drain_step, at_start, by_step,
}

module _ {ℓ} {T : Type ℓ} ⦃e : Eq T⦄ ⦃o : Ord T⦄ ⦃p : PartialOrder T⦄ where
  -- What succeeds has minted.
  delayed-mint :
      (c : Capability T) (new_time : T) (cells : Cells T) (r : Cells T × Capability T)
      → delayed c new_time cells ≡ some r
      → (p.less_equal c.time new_time ≡ true) × (mint new_time c.internal cells ≡ r)
  unfolding delayed
  delayed-mint c new_time cells r h = elim (Bool-cases (p.less_equal c.time new_time)) [
    | inl le ↦ (le, some_injective _ _ (rw le at h))
    | inr not_le ↦ absurd (some_not_none r (sym (rw not_le at h)))
  ]

  ported :
      (time : T) (internal : List ℕ) (port : ℕ) (cells : Cells T) (r : Cells T × Capability T)
      → All (λ i. i < length cells) internal
      → map_option (λ rc. mint time rc cells) (get_elem? internal port) ≡ some r
      → (rc : ℕ) × (rc < length cells) × (mint time rc cells ≡ r)
  ported time [] port cells r l h = absurd (some_not_none r (sym h))
  ported time (rc ∷ internal) zero cells r l h = (rc, l.0, some_injective _ _ h)
  ported time (rc ∷ internal) (suc port) cells r l h = ported time internal port cells r l.1 h

  retain_for_output-mint :
      (c : CapabilityRef T) (port : ℕ) (cells : Cells T) (r : Cells T × Capability T)
      → All (λ i. i < length cells) c.internal
      → retain_for_output c port cells ≡ some r
      → (rc : ℕ) × (rc < length cells) × (mint c.time rc cells ≡ r)
  unfolding retain_for_output
  retain_for_output-mint c port cells r l h = ported c.time c.internal port cells r l h

  delayed_for_output-mint :
      (c : CapabilityRef T) (new_time : T) (port : ℕ) (cells : Cells T) (r : Cells T × Capability T)
      → All (λ i. i < length cells) c.internal
      → delayed_for_output c new_time port cells ≡ some r
      → (rc : ℕ) × (rc < length cells) × (mint new_time rc cells ≡ r)
  unfolding delayed_for_output
  delayed_for_output-mint c new_time port cells r l h =
      elim (Bool-cases (p.less_equal c.time new_time)) [
        | inl le ↦ ported new_time c.internal port cells r l (rw le at h)
        | inr not_le ↦ absurd (some_not_none r (sym (rw not_le at h)))
      ]

  downgrade-delayed :
      (c : Capability T) (new_time : T) (cells : Cells T) (r : Cells T × Capability T)
      → downgrade c new_time cells ≡ some r
      → (p.less_equal c.time new_time ≡ true)
        × ((
          drop_capability c (mint new_time c.internal cells).0,
          (mint new_time c.internal cells).1,
        )
            ≡ r)
  unfolding downgrade delayed
  downgrade-delayed c new_time cells r h = elim (Bool-cases (p.less_equal c.time new_time)) [
    | inl le ↦ (le, some_injective _ _ (rw le at h))
    | inr not_le ↦ absurd (some_not_none r (sym (rw not_le at h)))
  ]

  pub minted-IsBalanced :
      (cells told : Cells T) (live : List (Capability T)) (time : T) (rc : ℕ)
      (r : Cells T × Capability T)
      → rc < length cells
      → mint time rc cells ≡ r
      → IsBalanced (holdings cells told live)
      → IsBalanced (holdings r.0 told (r.1 ∷ live))
  unfolding mint
  minted-IsBalanced cells told live time rc r l same b =
      subst (λ (x : Cells T × Capability T). IsBalanced (holdings x.0 told (x.1 ∷ live))) same
        (more-IsBalanced cells told (record { time = time; internal = rc }) live l b)

  Step-IsBalanced : {s t : Holdings T} → Step s t → IsBalanced s → IsBalanced t
  unfolding clone
  Step-IsBalanced (mint_step {cells} {told} {live} time internal l) b =
      minted-IsBalanced cells told live time internal (mint time internal cells) l refl b
  Step-IsBalanced (clone_step {cells} {told} {c} {others} {live} q) b =
      let (l, _) = All-Picks (λ d. d.internal < length cells) q b.inside in
      minted-IsBalanced cells told live c.time c.internal (mint c.time c.internal cells) l refl b
  Step-IsBalanced (delayed_step {cells} {told} {next} {c} {d} {others} {live} new_time q h) b =
      let (l, _) = All-Picks (λ x. x.internal < length cells) q b.inside in
      let (_, same) = delayed-mint c new_time cells (next, d) h in
      minted-IsBalanced cells told live new_time c.internal (next, d) l same b
  Step-IsBalanced (downgrade_step {cells} {told} {next} {c} {d} {others} {live} new_time q h) b =
      let (l, _) = All-Picks (λ x. x.internal < length cells) q b.inside in
      let (_, same) = downgrade-delayed c new_time cells (next, d) h in
      let minted = mint new_time c.internal cells in
      subst (λ (x : Cells T × Capability T). IsBalanced (holdings x.0 told (x.1 ∷ others))) same
        (less-IsBalanced minted.0 told c (later q)
          (minted-IsBalanced cells told live new_time c.internal minted l refl b))
  Step-IsBalanced (drop_step {cells} {told} {c} q) b = less-IsBalanced cells told c q b
  Step-IsBalanced (retain_step {cells} {told} {next} {d} {live} r port ls h) b =
      let (rc, l, same) = retain_for_output-mint r port cells (next, d) ls h in
      minted-IsBalanced cells told live r.time rc (next, d) l same b
  Step-IsBalanced (ref_delayed_step {cells} {told} {next} {d} {live} r new_time port ls h) b =
      let (rc, l, same) = delayed_for_output-mint r new_time port cells (next, d) ls h in
      minted-IsBalanced cells told live new_time rc (next, d) l same b
  Step-IsBalanced (drain_step {cells} {told} {b} {other} {live} port f g) balance = record {
    inside =
        All-mono _ _ live (λ c l. omega (arith, l, length-set cells port (drain_into b other).0))
          balance.inside;
    balanced = λ i t. balance_drained i t cells told port b other f g ∙ balance.balanced i t;
  }

  total_at-empty : (i : ℕ) (t : T) (n : ℕ) → total_at i t (empty_cells n) ≡ 0
  unfolding count ChangeBatch.new
  total_at-empty i t zero = refl
  total_at-empty zero t (suc n) = refl
  total_at-empty (suc i) t (suc n) = total_at-empty i t n

  pub Reachable-IsBalanced : (outputs : ℕ) {s : Holdings T} → Reachable outputs s → IsBalanced s
  unfolding wrapping_add
  Reachable-IsBalanced outputs at_start = record {
    inside = tt;
    balanced = λ i t. omega (arith, total_at-empty i t outputs);
  }
  Reachable-IsBalanced outputs (by_step r step) =
      Step-IsBalanced step (Reachable-IsBalanced outputs r)

-- In every state that is reached from empty cells by minting, cloning, delaying, downgrading and dropping
-- capabilities, by retaining or delaying capability references, and by draining cells: for each output
-- and time, what was drained and what waits in the cell add up to the number of live capabilities,
-- modulo 2^64.
pub Reachable-counts {ℓ} :
    {T : Type ℓ} ⦃e : Eq T⦄ ⦃o : Ord T⦄ ⦃p : PartialOrder T⦄ (outputs : ℕ) (s : Holdings T)
    (output : ℕ) (time : T)
    → Reachable outputs s
    → wrapping_add (total_at output time s.told) (total_at output time s.cells)
      ≡ held output time s.live
Reachable-counts outputs s output time r = (Reachable-IsBalanced outputs r).balanced output time
