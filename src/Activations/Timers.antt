-- ===== src/Activations/Timers.antt =====
-- The heap of delayed activations: in the order of their times, and drained up to the present.
use timely_mirror.Prelude.{
  ℕ, ◌+◌, ◌≡◌, refl, Bool, sym, ap, ◌∙◌, true, false, List, [], ◌∷◌, ◌++◌, All, All-mono,
  All-retain, map, leb, not, retain, arith, Bool-cases, inl, inr, ◌==◌,
}
use mathlib.Core.List.{append_assoc, append-nil}
use timely_mirror.Order.{nat_eq, nat_ord}
use timely_mirror.Order.Sequence.{list_ord}
use timely_mirror.Order.Derived.{tuple_ord}
use timely_mirror.Sorting.{insert_on}
use timely_mirror.Sorting.Laws.{id, IsSortedOn, le_of_not_le, All-insert_on}
use timely_mirror.Activations.{Activations, paths, activate, activate_due, activate_after}
use timely_mirror.Activations.Paths.{IsValid, activate-IsValid, paths-activate}

-- The times on the heap ascend.
abbrev pub IsTimed : List (ℕ × List ℕ) → Type 0
IsTimed queue = IsSortedOn (λ (x : ℕ × List ℕ). x.0) queue

abbrev pub is_due : ℕ → ℕ × List ℕ → Bool
is_due now x = leb x.0 now

abbrev pub due : ℕ → List (ℕ × List ℕ) → List (List ℕ)
due now queue = map (λ x. x.1) (retain (is_due now) queue)

none_due :
    (now t : ℕ) (queue : List (ℕ × List ℕ))
    → leb t now ≡ false
    → All (λ x. leb t x.0 ≡ true) queue
    → (due now queue ≡ []) × (retain (λ x. not (is_due now x)) queue ≡ queue)
none_due now t [] h a = (refl, refl)
none_due now t ((s, path) ∷ queue) h a =
    let later : leb s now ≡ false = ground (arith, h, a.0) in
    let (none_left, all_kept) = none_due now t queue h a.1 in
    rw later (none_left, ap (◌∷◌ (s, path)) all_kept)

-- Draining the heap activates what is due, and keeps the rest.
pub activate_due_lem :
    (now : ℕ) (queue : List (ℕ × List ℕ)) (a : Activations)
    → IsTimed queue
    → IsValid a
    → (paths (activate_due now queue a) ≡ paths a ++ due now queue)
      × ((activate_due now queue a).queue ≡ retain (λ x. not (is_due now x)) queue)
      × ((activate_due now queue a).clean ≡ a.clean)
      × IsValid (activate_due now queue a)
unfolding activate_due activate
activate_due_lem now [] a s v =
    (sym (append-nil (paths a)), refl, refl, record { in_bounds = v.in_bounds; within = v.within })
activate_due_lem now ((t, path) ∷ queue) a s v = elim (Bool-cases (leb t now)) [
  | inl ready ↦
      let (ps, rest, clean, valid) =
        activate_due_lem now queue (activate a path) s.1 (activate-IsValid a path v) in
      rw ready (
        ps
            ∙ ap (λ xs. xs ++ due now queue) (paths-activate a path v)
            ∙ append_assoc (paths a) (path ∷ []) (due now queue),
        rest,
        clean,
        valid,
      )
  | inr later ↦
      let (none_left, all_kept) = none_due now t queue later s.0 in
      rw later (
        sym (append-nil (paths a)) ∙ ap (λ xs. paths a ++ xs) (sym none_left),
        ap (◌∷◌ (t, path)) (sym all_kept),
        refl,
        record { in_bounds = v.in_bounds; within = v.within },
      )
]

tuple_le-first : (x y : ℕ × List ℕ) → tuple_ord.le x y ≡ true → leb x.0 y.0 ≡ true
tuple_le-first x y h = ground arith

insert_on-IsTimed :
    (x : ℕ × List ℕ) (queue : List (ℕ × List ℕ)) → IsTimed queue → IsTimed (insert_on id x queue)
unfolding insert_on
insert_on-IsTimed x [] s = (tt, tt)
insert_on-IsTimed x (y ∷ queue) s = elim (Bool-cases (tuple_ord.le x y)) [
  | inl before ↦
      let first = tuple_le-first x y before in
      rw before ((first, All-mono _ _ queue (λ z le. nat_ord.le_trans _ _ _ first le) s.0), s)
  | inr behind ↦
      let first = tuple_le-first y x (le_of_not_le id x y behind) in
      rw behind (All-insert_on id _ x queue first s.0, insert_on-IsTimed x queue s.1)
]

-- A delayed activation keeps the order of the heap.
pub activate_after-IsTimed :
    (a : Activations) (path : List ℕ) (delay elapsed : ℕ)
    → IsTimed a.queue
    → IsTimed (activate_after a path delay elapsed).queue
unfolding activate_after activate
activate_after-IsTimed a path delay elapsed s = elim (Bool-cases (delay == 0)) [
  | inl now ↦ rw now s
  | inr later ↦ rw later (insert_on-IsTimed (elapsed + delay, path) a.queue s)
]

pub retain-IsTimed :
    (keep : ℕ × List ℕ → Bool) (queue : List (ℕ × List ℕ))
    → IsTimed queue
    → IsTimed (retain keep queue)
retain-IsTimed keep [] s = tt
retain-IsTimed keep (x ∷ queue) s = elim (Bool-cases (keep x)) [
  | inl kept ↦ rw kept (All-retain _ keep queue s.0, retain-IsTimed keep queue s.1)
  | inr dropped ↦ rw dropped (retain-IsTimed keep queue s.1)
]
