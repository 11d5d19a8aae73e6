-- ===== src/Capability/Steps.antt =====
-- What a program does with capabilities, and that the changes it makes tell how many are live.
use timely_mirror.Prelude.{
  ℕ, zero, suc, ◌<◌, ◌≡◌, some, List, [], ◌∷◌, All, All-mono, length, modify, length-modify,
  get_elem?, arith, set,
}
use timely_mirror.Prelude.Picks.{Picks, All-Picks}
use timely_mirror.Order.{Eq, Ord, PartialOrder}
use timely_mirror.Int64.{wrapping_add, minus_one}
use timely_mirror.ChangeBatch.{ChangeBatch, update, drain_into}
use timely_mirror.ChangeBatch
use timely_mirror.Capability.{
  Cells, Capability, CapabilityRef, mint, clone, delayed, downgrade, drop_capability,
  retain_for_output, delayed_for_output,
}
use timely_mirror.Capability.Counted.{total_at, held, balance_more, balance_less}

-- The cells of an operator's outputs, those of the worker into which they are drained, and the
-- capabilities that are live.
pub record Holdings {ℓ} (T : Type ℓ) : Type ℓ where
  pub cells : Cells T
  pub told : Cells T
  pub live : List (Capability T)

module _ {ℓ} {T : Type ℓ} where
  abbrev pub empty_cells : ℕ → Cells T
  empty_cells zero = []
  empty_cells (suc n) = ChangeBatch.new ∷ empty_cells n

  abbrev pub start : ℕ → Holdings T
  start outputs = record { cells = empty_cells outputs; told = empty_cells outputs; live = [] }

module _ {ℓ} {T : Type ℓ} ⦃e : Eq T⦄ ⦃o : Ord T⦄ ⦃p : PartialOrder T⦄ where
  pub data Step : Holdings T → Holdings T → Type ℓ where
    mint_step :
        {cells told : Cells T} {live : List (Capability T)} (time : T) (internal : ℕ)
        → internal < length cells
        → Step
            (record { cells = cells; told = told; live = live })
            (record {
              cells = (mint time internal cells).0;
              told = told;
              live = (mint time internal cells).1 ∷ live;
            })
    clone_step :
        {cells told : Cells T} {c : Capability T} {others live : List (Capability T)}
        → Picks c others live
        → Step
            (record { cells = cells; told = told; live = live })
            (record { cells = (clone c cells).0; told = told; live = (clone c cells).1 ∷ live })
    delayed_step :
        {cells told next : Cells T} {c d : Capability T} {others live : List (Capability T)}
        (new_time : T)
        → Picks c others live
        → delayed c new_time cells ≡ some (next, d)
        → Step
            (record { cells = cells; told = told; live = live })
            (record { cells = next; told = told; live = d ∷ live })
    downgrade_step :
        {cells told next : Cells T} {c d : Capability T} {others live : List (Capability T)}
        (new_time : T)
        → Picks c others live
        → downgrade c new_time cells ≡ some (next, d)
        → Step
            (record { cells = cells; told = told; live = live })
            (record { cells = next; told = told; live = d ∷ others })
    drop_step :
        {cells told : Cells T} {c : Capability T} {others live : List (Capability T)}
        → Picks c others live
        → Step
            (record { cells = cells; told = told; live = live })
            (record { cells = drop_capability c cells; told = told; live = others })
    retain_step :
        {cells told next : Cells T} {d : Capability T} {live : List (Capability T)}
        (r : CapabilityRef T) (output_port : ℕ)
        → All (λ i. i < length cells) r.internal
        → retain_for_output r output_port cells ≡ some (next, d)
        → Step
            (record { cells = cells; told = told; live = live })
            (record { cells = next; told = told; live = d ∷ live })
    ref_delayed_step :
        {cells told next : Cells T} {d : Capability T} {live : List (Capability T)}
        (r : CapabilityRef T) (new_time : T) (output_port : ℕ)
        → All (λ i. i < length cells) r.internal
        → delayed_for_output r new_time output_port cells ≡ some (next, d)
        → Step
            (record { cells = cells; told = told; live = live })
            (record { cells = next; told = told; live = d ∷ live })
    drain_step :
        {cells told : Cells T} {b other : ChangeBatch T} {live : List (Capability T)} (port : ℕ)
        → get_elem? cells port ≡ some b
        → get_elem? told port ≡ some other
        → Step
            (record { cells = cells; told = told; live = live })
            (record {
              cells = set cells port (drain_into b other).0;
              told = set told port (drain_into b other).1;
              live = live;
            })

  pub data Reachable (outputs : ℕ) : Holdings T → Type ℓ where
    at_start : Reachable outputs (start outputs)
    by_step : {s t : Holdings T} → Reachable outputs s → Step s t → Reachable outputs t

  pub record IsBalanced (s : Holdings T) : Type ℓ where
    pub inside : All (λ c. c.internal < length s.cells) s.live
    pub balanced :
        (i : ℕ) (t : T)
        → wrapping_add (total_at i t s.told) (total_at i t s.cells) ≡ held i t s.live

  abbrev pub holdings : Cells T → Cells T → List (Capability T) → Holdings T
  holdings cells told live = record { cells = cells; told = told; live = live }

  pub more-IsBalanced :
      (cells told : Cells T) (c : Capability T) (live : List (Capability T))
      → c.internal < length cells
      → IsBalanced (holdings cells told live)
      → IsBalanced (holdings (mint c.time c.internal cells).0 told (c ∷ live))
  unfolding mint
  more-IsBalanced cells told c live l b =
      let same : length (modify (λ x. update x c.time 1) cells c.internal) ≡ length cells =
        length-modify _ cells c.internal in
      record {
        inside =
            (omega (arith, l, same), All-mono _ _ live (λ d m. omega (arith, m, same)) b.inside);
        balanced = λ i t. balance_more i t (total_at i t told) cells c live l (b.balanced i t);
      }

  pub less-IsBalanced :
      (cells told : Cells T) (c : Capability T) {others live : List (Capability T)}
      → Picks c others live
      → IsBalanced (holdings cells told live)
      → IsBalanced (holdings (drop_capability c cells) told others)
  unfolding drop_capability
  less-IsBalanced cells told c {others} q b =
      let (l, rest) = All-Picks (λ d. d.internal < length cells) q b.inside in
      let same : length (modify (λ x. update x c.time minus_one) cells c.internal) ≡ length cells =
        length-modify _ cells c.internal in
      record {
        inside = All-mono _ _ others (λ d m. omega (arith, m, same)) rest;
        balanced = λ i t. balance_less i t (total_at i t told) cells c q l (b.balanced i t);
      }
