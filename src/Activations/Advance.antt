-- ===== src/Activations/Advance.antt =====
-- `advance` leaves the paths that were activated since the last call, once each and in order.
use timely_mirror.Prelude.{
  ℕ, ◌≡◌, ◌⊎◌, ◌↔◌, refl, sym, subst, ap, ◌∙◌, List, [], ◌∷◌, ◌++◌, All-drop, All-intro, map-drop,
  length-map, drop-append, ap₂, Memᴰ, Memᴰ-append, Memᴰ-append_left, Memᴰ-append_right, All-elem,
  drop, length, not, retain, arith, inl, inr,
}
use mathlib.Core.List.{append_assoc}
use timely_mirror.Order.Sequence.{list_eq, list_ord}
use timely_mirror.Sorting.{sort_on, dedup_on}
use timely_mirror.Sorting.Laws.{
  id, IsAscending, All-sort_on, sort_on-IsSortedOn, Memᴰ-sort_on, map-sort_on, map-dedup_on,
  All-dedup_on, Memᴰ-dedup_on, dedup_on-IsAscending,
}
use timely_mirror.Activations.{
  Activations, slice_of, paths, activate, activate_all, activate_due, settle, advance,
}
use timely_mirror.Activations.Paths.{
  InBounds, IsValid, activate_all-IsValid, paths-activate_all, compact_slices-IsKept,
}
use timely_mirror.Activations.Timers.{retain-IsTimed, IsTimed, is_due, due, activate_due_lem}

-- What `advance` makes of a list of paths.
abbrev settled_paths : List (List ℕ) → List (List ℕ)
settled_paths ps = dedup_on id (sort_on id ps)

settle_lem :
    (a : Activations)
    → IsValid a
    → (paths (settle a) ≡ settled_paths (drop a.clean (paths a))) × IsValid (settle a)
unfolding settle
settle_lem a v =
    let key = slice_of a.slices in
    let fresh = drop a.clean a.bounds in
    let distinct = dedup_on key (sort_on key fresh) in
    let inside =
      All-dedup_on key (InBounds a.slices) (sort_on key fresh)
        (All-sort_on key (InBounds a.slices) fresh (All-drop _ a.clean a.bounds v.in_bounds)) in
    let (more, grown, fits, same) = compact_slices-IsKept a.slices [] distinct inside in
    (
      same
          ∙ map-dedup_on key (sort_on key fresh)
          ∙ ap (dedup_on id)
              (map-sort_on key fresh ∙ ap (sort_on id) (map-drop key a.clean a.bounds)),
      record { in_bounds = fits; within = omega arith },
    )

activate_all-queue :
    (a : Activations) (received : List (List ℕ))
    → ((activate_all a received).queue ≡ a.queue) × ((activate_all a received).clean ≡ a.clean)
unfolding activate_all activate
activate_all-queue a [] = (refl, refl)
activate_all-queue a (path ∷ rest) = activate_all-queue (activate a path) rest

-- The paths that the next round is to run: those activated since the last call, those received,
-- and those whose time has come.
abbrev fresh_paths : List (List ℕ) → ℕ → Activations → List (List ℕ)
fresh_paths received now a = drop a.clean (paths a) ++ (received ++ due now a.queue)

paths-advance :
    (received : List (List ℕ)) (now : ℕ) (a : Activations)
    → IsValid a
    → IsTimed a.queue
    → (paths (advance received now a) ≡ settled_paths (fresh_paths received now a))
      × ((advance received now a).queue ≡ retain (λ x. not (is_due now x)) a.queue)
      × IsValid (advance received now a)
unfolding advance settle
paths-advance received now a v s =
    let drained = activate_all a received in
    let (queued, cleaned) = activate_all-queue a received in
    let (ps, rest, clean, valid) =
      activate_due_lem now drained.queue drained (subst IsTimed (sym queued) s)
        (activate_all-IsValid a received v) in
    let ready = activate_due now drained.queue drained in
    let (settled, fine) = settle_lem ready valid in
    let all_paths : paths ready ≡ paths a ++ (received ++ due now a.queue) =
      ps
      ∙ ap₂ ◌++◌ (paths-activate_all a received v) (ap (due now) queued)
      ∙ append_assoc (paths a) received (due now a.queue) in
    (
      settled
          ∙ ap settled_paths (
              ap₂ drop (clean ∙ cleaned) all_paths
              ∙ drop-append a.clean (paths a) (received ++ due now a.queue)
                  (omega (arith, v.within, length-map (slice_of a.slices) a.bounds))),
      rest ∙ ap (retain (λ x. not (is_due now x))) queued,
      fine,
    )

advance-clean :
    (received : List (List ℕ)) (now : ℕ) (a : Activations)
    → (advance received now a).clean ≡ length (paths (advance received now a))
unfolding advance settle
advance-clean received now a = sym (length-map _ _)

Memᴰ-settled_paths : (p : List ℕ) (ps : List (List ℕ)) → Memᴰ p (settled_paths ps) ↔ Memᴰ p ps
Memᴰ-settled_paths p ps = (
  λ m.
      All-elem (λ q. Memᴰ q ps) p (settled_paths ps) m
        (All-dedup_on id _ (sort_on id ps) (All-sort_on id _ ps (All-intro _ ps (λ q k. k)))),
  λ m. Memᴰ-dedup_on p (sort_on id ps) (Memᴰ-sort_on id p ps m),
)

-- `advance` presents the next active set. Where the bounds lie within the slices and the heap is in
-- the order of its times, the active paths afterwards ascend strictly in the order of slices, so none
-- is there twice. A path is among them exactly if it was activated since the last call, received from
-- another thread, or stands on the heap with a time that has come. The heap keeps the entries that
-- are not due, in order, all active paths are clean, and the bounds lie within the slices again.
pub advance-refines :
    (received : List (List ℕ)) (now : ℕ) (a : Activations)
    → IsValid a
    → IsTimed a.queue
    → IsAscending (paths (advance received now a))
      × ((p : List ℕ)
          → Memᴰ p (paths (advance received now a))
            ↔ (Memᴰ p (drop a.clean (paths a)) ⊎ Memᴰ p received ⊎ Memᴰ p (due now a.queue)))
      × ((advance received now a).queue ≡ retain (λ x. not (is_due now x)) a.queue)
      × ((advance received now a).clean ≡ length (paths (advance received now a)))
      × IsValid (advance received now a)
      × IsTimed (advance received now a).queue
advance-refines received now a v s =
    let (same, queue, valid) = paths-advance received now a v s in
    let fresh = fresh_paths received now a in
    (
      subst IsAscending (sym same)
          (dedup_on-IsAscending (sort_on id fresh) (sort_on-IsSortedOn id fresh)),
      λ p. (
        λ m.
            elim (Memᴰ-append p (drop a.clean (paths a)) (received ++ due now a.queue)
              ((Memᴰ-settled_paths p fresh).0 (subst (Memᴰ p) same m))) [
                | inl active ↦ inl active
                | inr other ↦ inr (Memᴰ-append p received (due now a.queue) other)
              ],
        λ m. subst (Memᴰ p) (sym same) (
            (Memᴰ-settled_paths p fresh).1 (elim m [
              | inl active ↦ Memᴰ-append_left p (drop a.clean (paths a)) _ active
              | inr (inl sent) ↦
                  Memᴰ-append_right p (drop a.clean (paths a)) _
                    (Memᴰ-append_left p received _ sent)
              | inr (inr timed) ↦
                  Memᴰ-append_right p (drop a.clean (paths a)) _
                    (Memᴰ-append_right p received _ timed)
            ])),
      ),
      queue,
      advance-clean received now a,
      valid,
      subst IsTimed (sym queue) (retain-IsTimed _ a.queue s),
    )
