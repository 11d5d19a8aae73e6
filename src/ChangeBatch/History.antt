-- ===== src/ChangeBatch/History.antt =====
-- A `ChangeBatch` over a history of calls.
use timely_mirror.Prelude.{ℕ, ◌<◌, ◌≡◌, refl, ◌∙◌, List, [], ◌∷◌, All, if◌then◌else◌}
use timely_mirror.Order.{Eq, Ord}
use timely_mirror.Int64.{wrapping_add, modulus}
use timely_mirror.Updates.{Updates, count}
use timely_mirror.Updates.Compact.{AllNonzero}
use timely_mirror.ChangeBatch.{
  ChangeBatch, new, clear, compact, update, extend, iter, drain, is_empty, drain_into,
}
use timely_mirror.ChangeBatch.Totals.{
  total, total-compact, total-extend, total-update, total-drain_into, total-is_empty,
}
use timely_mirror.ChangeBatch.Valid.{
  IsValid, new-IsValid, IsValid-clear, compact-IsValid, extend-IsValid, update-IsValid,
  drain-IsValid, is_empty-IsValid, drain_into-IsValid,
}

-- The calls that change a batch. `drain_from other` is `other.drain_into(self)`.
pub data Call {ℓ} (A : Type ℓ) : Type ℓ where
  updates : A → ℕ → Call A
  extends : Updates A → Call A
  compacts iterates drains clears tests_empty : Call A
  drains_into drains_from : ChangeBatch A → Call A

module _ {ℓ} {A : Type ℓ} ⦃e : Eq A⦄ ⦃o : Ord A⦄ where
  unfoldable pub step : ChangeBatch A → Call A → ChangeBatch A
  step b (updates k v) = update b k v
  step b (extends us) = extend b us
  step b compacts = compact b
  step b iterates = (iter b).0
  step b drains = (drain b).0
  step b clears = clear b
  step b tests_empty = (is_empty b).0
  step b (drains_into other) = (drain_into b other).0
  step b (drains_from other) = (drain_into other b).1

  unfoldable pub run : ChangeBatch A → List (Call A) → ChangeBatch A
  unfolding step
  run b [] = b
  run b (c ∷ cs) = run (step b c) cs

  -- No call brings in an update with value zero, nor a batch that breaks the invariant.
  abbrev pub IsProper : Call A → Type ℓ
  IsProper (updates k v) = (0 < v) × (v < modulus) × Unit
  IsProper (extends us) = AllNonzero us × Unit
  IsProper (drains_into other) = IsValid other
  IsProper (drains_from other) = IsValid other
  IsProper _ = Unit

  iter-IsValid : (b : ChangeBatch A) → IsValid b → IsValid (iter b).0
  unfolding iter compact
  iter-IsValid b v = compact-IsValid b v

  step-IsValid : (b : ChangeBatch A) (c : Call A) → IsProper c → IsValid b → IsValid (step b c)
  unfolding step
  step-IsValid b (updates k v) h valid = update-IsValid b k v h.0 h.1 valid
  step-IsValid b (extends us) h valid = extend-IsValid b us h.0 valid
  step-IsValid b compacts h valid = compact-IsValid b valid
  step-IsValid b iterates h valid = iter-IsValid b valid
  step-IsValid b drains h valid = drain-IsValid b
  step-IsValid b clears h valid = IsValid-clear b
  step-IsValid b tests_empty h valid = is_empty-IsValid b valid
  step-IsValid b (drains_into other) h valid = (drain_into-IsValid b other valid h).0
  step-IsValid b (drains_from other) h valid = (drain_into-IsValid other b h valid).1

  run-IsValid_from :
      (b : ChangeBatch A) (cs : List (Call A)) → All IsProper cs → IsValid b → IsValid (run b cs)
  unfolding run
  run-IsValid_from b [] h v = v
  run-IsValid_from b (c ∷ cs) h v = run-IsValid_from (step b c) cs h.1 (step-IsValid b c h.0 v)

  -- Every history of calls that brings in no zero leaves a batch whose clean prefix is compact.
  pub run-IsValid : (cs : List (Call A)) → All IsProper cs → IsValid (run new cs)
  run-IsValid cs h = run-IsValid_from new cs h new-IsValid

  -- What a call makes of the total at a key.
  abbrev pub total_after : A → ℕ → Call A → ℕ
  total_after t n (updates k v) = if e.eq k t then wrapping_add n v else n
  total_after t n (extends us) = wrapping_add n (count t us)
  total_after t n drains = 0
  total_after t n clears = 0
  total_after t n (drains_into other) = 0
  total_after t n (drains_from other) = wrapping_add n (total t other)
  total_after t n _ = n

  abbrev pub total_of_run : A → ℕ → List (Call A) → ℕ
  total_of_run t n [] = n
  total_of_run t n (c ∷ cs) = total_of_run t (total_after t n c) cs

  total-step :
      (t : A) (b : ChangeBatch A) (c : Call A) → total t (step b c) ≡ total_after t (total t b) c
  unfolding step iter compact drain clear count
  total-step t b (updates k v) = total-update t b k v
  total-step t b (extends us) = total-extend t b us
  total-step t b compacts = total-compact t b
  total-step t b iterates = total-compact t b
  total-step t b drains = refl
  total-step t b clears = refl
  total-step t b tests_empty = total-is_empty t b
  total-step t b (drains_into other) = (total-drain_into t b other).0
  total-step t b (drains_from other) = (total-drain_into t other b).1

  -- Over any history, the total at each key is what the calls add up to: no call loses an update,
  -- whenever it compacts.
  pub total-run :
      (t : A) (b : ChangeBatch A) (cs : List (Call A))
      → total t (run b cs) ≡ total_of_run t (total t b) cs
  unfolding run
  total-run t b [] = refl
  total-run t b (c ∷ cs) = total-run t (step b c) cs ∙ rw (total-step t b c)
