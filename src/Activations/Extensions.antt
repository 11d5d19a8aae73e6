-- ===== src/Activations/Extensions.antt =====
-- `for_extensions` calls its action on the symbols that follow a path in the active ones.
use timely_mirror.Prelude.{
  ℕ, ◌≡◌, ◌⊎◌, sym, ap, ◌∙◌, subst, none, List, drop, take, Memᴰ, arith, take-append-drop,
  take_of_le, ◌↔◌, drop-append,
}
use timely_mirror.Order.Sequence.{list_eq, list_ord}
use timely_mirror.Sorting.Laws.{IsAscending}
use timely_mirror.Activations.Paths.{IsValid}
use timely_mirror.Activations.Timers.{IsTimed, due}
use timely_mirror.Activations.Advance.{advance-refines}
use timely_mirror.Activations.{advance, Activations, paths, position_of, for_extensions}
use timely_mirror.Activations.Scan.{
  Extends, starts_with-le, not_none, Memᴰ-drop, extensions_after_sound, IsReported,
  extensions_after_complete, drop-position_of,
}

-- Each symbol it reports follows the path in an active path; and where the clean paths ascend
-- strictly, each symbol that follows the path in a clean path is reported.
for_extensions_iff :
    (a : Activations) (path : List ℕ) (symbol : ℕ)
    → IsAscending (take a.clean (paths a))
    → (Memᴰ symbol (for_extensions a path)
        → (x : List ℕ) × Memᴰ x (paths a) × Extends path symbol x)
      × ((x : List ℕ)
          → Memᴰ x (take a.clean (paths a))
          → Extends path symbol x
          → Memᴰ symbol (for_extensions a path))
unfolding for_extensions
for_extensions_iff a path symbol s =
    let clean = take a.clean (paths a) in
    let (ascending, all_behind, kept, fits) = drop-position_of path clean s in
    let n = position_of path clean in
    (
      λ m.
          let (x, place, e) = extensions_after_sound path none (drop n (paths a)) symbol m in
          (x, Memᴰ-drop x n (paths a) place, e),
      λ x m e. not_none symbol _ (
          subst (λ xs. IsReported path none xs symbol)
            (sym (drop-append n clean (drop a.clean (paths a)) fits)
              ∙ ap (drop n) (take-append-drop a.clean (paths a)))
            (extensions_after_complete path none (drop n clean) (drop a.clean (paths a)) x symbol
              ascending all_behind (kept x m (starts_with-le x path e.0)) e)),
    )

-- After `advance`, where the bounds lay within the slices and the heap was in the order of its times,
-- `for_extensions` calls its action on a symbol exactly if the symbol follows the given path in a path
-- that was activated since the `advance` before, received from another thread, or due on the heap.
pub for_extensions-advance :
    (received : List (List ℕ)) (now : ℕ) (a : Activations) (path : List ℕ) (symbol : ℕ)
    → IsValid a
    → IsTimed a.queue
    → Memᴰ symbol (for_extensions (advance received now a) path) ↔ (
        (x : List ℕ) × (Memᴰ x (drop a.clean (paths a))
          ⊎ Memᴰ x received
          ⊎ Memᴰ x (due now a.queue))
        × Extends path symbol x)
for_extensions-advance received now a path symbol v s =
    let (ascending, members, _, clean, _, _) = advance-refines received now a v s in
    let b = advance received now a in
    let whole : take b.clean (paths b) ≡ paths b =
      take_of_le b.clean (paths b) (omega (arith, clean)) in
    let (sound, complete) =
      for_extensions_iff b path symbol (subst IsAscending (sym whole) ascending) in
    (
      λ m. let (x, place, e) = sound m in (x, (members x).0 place, e),
      λ found.
          let (x, origin, e) = found in
          complete x (subst (Memᴰ x) (sym whole) ((members x).1 origin)) e,
    )
