-- ===== src/MergeQueue/Stream.antt =====
-- A `MergeQueue` is a stream of bytes: merging slices changes none of them, and none is lost.
use timely_mirror.Prelude.{
  ℕ, suc, ◌+◌, ◌≡◌, ◌⊎◌, refl, sym, ap, ap₂, ◌∙◌, subst, false, Option, none, some, List, [], ◌∷◌,
  ◌++◌, if◌then◌else◌, is_empty_list, inl, inr,
}
use mathlib.Core.List.{append_assoc, append-nil}
use timely_mirror.Bytes.{Memory, Bytes, release_arc, try_merge, deref}
use timely_mirror.Bytes.Store.{contents_of-change_same}
use timely_mirror.Bytes.Steps.{merge-cases}
use timely_mirror.MergeQueue.{
  MergeQueue, Extending, new, merge_tail, merge_all, pop_back, extend_queue, extend, drain_into,
  Call, run, call_extend, call_drain,
}
use timely_mirror.MergeQueue.Contents.{
  stream, stream-append, HaveSame, deref-HaveSame, stream-HaveSame, deref-merged,
}

-- The bytes on the queue and in the tail.
abbrev held : Extending → List ℕ
held x = stream x.memory x.queue ++ deref x.memory x.tail

-- What `merge_tail` makes of the result of `try_merge`.
abbrev outcome : List Bytes → Memory × Bytes × Option Bytes → Extending
outcome queue r = elim r.2 [
  | none ↦ record { memory = r.0; queue = queue; tail = r.1 }
  | some other ↦ record { memory = r.0; queue = queue ++ r.1 ∷ []; tail = other }
]

-- The step keeps the memory's bytes and adds those of the slice.
abbrev Adds : Extending → Bytes → Extending → Type 0
Adds x bytes y = HaveSame x.memory y.memory × (held y ≡ held x ++ deref x.memory bytes)

merge_tail-Adds : (x : Extending) (bytes : Bytes) → Adds x bytes (merge_tail x bytes)
unfolding merge_tail
merge_tail-Adds x bytes =
    let m = x.memory in
    let r = try_merge m x.tail bytes in
    elim (merge-cases m r.0 x.tail bytes r.1 r.2 refl) [
      | inl (same, next, done) ↦
          let released : HaveSame m (release_arc m bytes.sequestered) =
            contents_of-change_same _ (λ c. refl) m bytes.sequestered in
          let merged : Bytes = record (x.tail) { len = x.tail.len + bytes.len } in
          subst (λ (t : Memory × Bytes × Option Bytes). Adds x bytes (outcome x.queue t)) done
            (
              released,
              ap₂ ◌++◌ (stream-HaveSame m (release_arc m bytes.sequestered) x.queue released) (
                    deref-HaveSame m (release_arc m bytes.sequestered) merged released
                    ∙ deref-merged m x.tail bytes same next)
                  ∙ sym (append_assoc (stream m x.queue) (deref m x.tail) (deref m bytes)),
            )
      | inr failed ↦
          subst (λ (t : Memory × Bytes × Option Bytes). Adds x bytes (outcome x.queue t)) failed
            (
              λ a. refl,
              ap (λ xs. xs ++ deref m bytes)
                  (stream-append m x.queue (x.tail ∷ [])
                    ∙ ap (λ xs. stream m x.queue ++ xs) (append-nil (deref m x.tail))),
            )
    ]

merge_all_lem :
    (x : Extending) (iterator : List Bytes)
    → HaveSame x.memory (merge_all x iterator).memory
      × (held (merge_all x iterator) ≡ held x ++ stream x.memory iterator)
unfolding merge_all
merge_all_lem x [] = (λ a. refl, sym (append-nil (held x)))
merge_all_lem x (bytes ∷ iterator) =
    let (same, one) = merge_tail-Adds x bytes in
    let (same_all, rest) = merge_all_lem (merge_tail x bytes) iterator in
    (
      λ a. same_all a ∙ same a,
      rest
          ∙ ap₂ ◌++◌ one (stream-HaveSame x.memory (merge_tail x bytes).memory iterator same)
          ∙ append_assoc (held x) (deref x.memory bytes) (stream x.memory iterator),
    )

-- Taking the last element off and putting it back.
pop_back-split :
    (bs : List Bytes)
    → ((pop_back bs ≡ none) × (bs ≡ []))
      ⊎ ((r : List Bytes × Bytes) × (pop_back bs ≡ some r) × (bs ≡ r.0 ++ r.1 ∷ []))
pop_back-split [] = inl (refl, refl)
pop_back-split (b ∷ bs) = elim (pop_back-split bs) [
  | inl (none_left, empty) ↦ inr (([], b), (rw none_left refl), ap (◌∷◌ b) empty)
  | inr (r, popped, same) ↦ inr ((b ∷ r.0, r.1), (rw popped refl), ap (◌∷◌ b) same)
]

held-pushed : (x : Extending) → stream x.memory (x.queue ++ x.tail ∷ []) ≡ held x
held-pushed x =
    stream-append x.memory x.queue (x.tail ∷ [])
    ∙ ap (λ xs. stream x.memory x.queue ++ xs) (append-nil (deref x.memory x.tail))

extend_queue_lem :
    (m : Memory) (queue iterator : List Bytes)
    → HaveSame m (extend_queue m queue iterator).0
      × (stream (extend_queue m queue iterator).0 (extend_queue m queue iterator).1
          ≡ stream m queue ++ stream m iterator)
unfolding extend_queue
extend_queue_lem m queue [] = (λ a. refl, sym (append-nil (stream m queue)))
extend_queue_lem m queue (bytes ∷ iterator) = elim (pop_back-split queue) [
  | inl (none_left, empty) ↦
      let start : Extending = record { memory = m; queue = queue; tail = bytes } in
      let (same, all_held) = merge_all_lem start iterator in
      rw none_left (
        same,
        held-pushed (merge_all start iterator)
            ∙ all_held
            ∙ append_assoc (stream m queue) (deref m bytes) (stream m iterator),
      )
  | inr (r, popped, split) ↦
      let last : Extending = record { memory = m; queue = r.0; tail = r.1 } in
      let start = merge_tail last bytes in
      let (kept, one) = merge_tail-Adds last bytes in
      let (same, all_held) = merge_all_lem start iterator in
      rw popped (
        λ a. same a ∙ kept a,
        held-pushed (merge_all start iterator)
            ∙ all_held
            ∙ ap₂ ◌++◌ one (stream-HaveSame m start.memory iterator kept)
            ∙ append_assoc (held last) (deref m bytes) (stream m iterator)
            ∙ ap (λ xs. xs ++ (deref m bytes ++ stream m iterator))
                (sym (held-pushed last) ∙ ap (stream m) (sym split)),
      )
]

-- The slices that the calls put in.
abbrev pub all_extended : List Call → List Bytes
all_extended [] = []
all_extended (call_extend iterator ∷ calls) = iterator ++ all_extended calls
all_extended (call_drain ∷ calls) = all_extended calls

abbrev sound : List Bytes → ℕ → MergeQueue
sound queue buzzes = record { queue = queue; buzzes = buzzes; panic = false }

run_lem :
    (calls : List Call) (m : Memory) (queue : List Bytes) (buzzes : ℕ) (vec : List Bytes)
    → (n : Memory) × (after : MergeQueue) × (drained : List Bytes) × (run calls m
          (sound queue buzzes)
          vec
        ≡ some (n, after, drained))
      × HaveSame m n
      × (stream n (drained ++ after.queue)
          ≡ stream m (vec ++ queue) ++ stream m (all_extended calls))
unfolding run extend drain_into
run_lem [] m queue buzzes vec = (m, sound queue buzzes, vec, refl, λ a. refl, sym (append-nil _))
run_lem (call_extend iterator ∷ calls) m queue buzzes vec =
    let (kept, one) = extend_queue_lem m queue iterator in
    let (mid, longer) = extend_queue m queue iterator in
    let should_ping = if is_empty_list iterator then false else is_empty_list queue in
    let (n, after, drained, done, same, rest) =
      run_lem calls mid longer (if should_ping then suc buzzes else buzzes) vec in
    (
      n,
      after,
      drained,
      done,
      λ a. same a ∙ kept a,
      rest
          ∙ ap₂ ◌++◌
              (stream-append mid vec longer
                ∙ ap₂ ◌++◌ (stream-HaveSame m mid vec kept) one
                ∙ sym (append_assoc (stream m vec) (stream m queue) (stream m iterator))
                ∙ ap (λ xs. xs ++ stream m iterator) (sym (stream-append m vec queue)))
              (stream-HaveSame m mid (all_extended calls) kept)
          ∙ append_assoc (stream m (vec ++ queue)) (stream m iterator)
              (stream m (all_extended calls))
          ∙ ap (λ xs. stream m (vec ++ queue) ++ xs)
              (sym (stream-append m iterator (all_extended calls))),
    )
run_lem (call_drain ∷ calls) m queue buzzes vec =
    let (n, after, drained, done, same, rest) = run_lem calls m [] buzzes (vec ++ queue) in
    (
      n,
      after,
      drained,
      done,
      same,
      rest ∙ ap (λ bs. stream m bs ++ stream m (all_extended calls)) (append-nil (vec ++ queue)),
    )

-- For any calls of `extend` and `drain_into` on a new queue: none panics, no call
-- changes a byte of any allocation, and what was drained, followed by what is on the queue, has exactly
-- the bytes of the slices that were put in, in order, whichever of them were merged.
pub run-streams :
    (calls : List Call) (m : Memory)
    → (n : Memory) × (after : MergeQueue) × (drained : List Bytes) × (run calls m new []
        ≡ some (n, after, drained))
      × HaveSame m n
      × (stream n (drained ++ after.queue) ≡ stream m (all_extended calls))
run-streams calls m = run_lem calls m [] 0 []
