-- ===== src/MergeQueue.antt =====
-- `MergeQueue` of communication/src/allocator/zero_copy/bytes_exchange.rs: slices on their way from one
-- thread to another, which are merged where they are adjacent.
pub mod Contents
pub mod Stream
use timely_mirror.Prelude.{
  ℕ, suc, Bool, true, false, Option, none, some, List, [], ◌∷◌, ◌++◌, ◌==◌, ◌&&◌, if◌then◌else◌,
  is_empty_list,
}
use timely_mirror.Bytes.{Memory, Bytes, try_merge}

-- `buzzes` counts the signals to the receiving thread.
pub record MergeQueue : Type 0 where
  pub queue : List Bytes
  pub buzzes : ℕ
  pub panic : Bool

abbrev pub new : MergeQueue
new = record { queue = []; buzzes = 0; panic = false }

-- The state within `extend`: the memory, the queue, and the tail that is not on it.
pub record Extending : Type 0 where
  pub memory : Memory
  pub queue : List Bytes
  pub tail : Bytes

unfoldable pub merge_tail : Extending → Bytes → Extending
merge_tail x bytes =
    let (memory, tail, left) = try_merge x.memory x.tail bytes in
    elim left [
      | none ↦ record { memory = memory; queue = x.queue; tail = tail }
      | some other ↦ record { memory = memory; queue = x.queue ++ tail ∷ []; tail = other }
    ]

unfoldable pub merge_all : Extending → List Bytes → Extending
unfolding merge_tail
merge_all x [] = x
merge_all x (bytes ∷ iterator) = merge_all (merge_tail x bytes) iterator

-- `pop_back`: the rest of the queue, and its last element.
abbrev pub pop_back : List Bytes → Option (List Bytes × Bytes)
pop_back [] = none
pop_back (b ∷ bs) = elim (pop_back bs) [ none ↦ some ([], b) | some r ↦ some (b ∷ r.0, r.1) ]

-- What is on the queue at the end, with the tail pushed back.
unfoldable pub extend_queue : Memory → List Bytes → List Bytes → Memory × List Bytes
unfolding merge_tail merge_all
extend_queue m queue [] = (m, queue)
extend_queue m queue (bytes ∷ iterator) =
    let start : Extending = elim (pop_back queue) [
      | none ↦ record { memory = m; queue = queue; tail = bytes }
      | some r ↦ merge_tail (record { memory = m; queue = r.0; tail = r.1 }) bytes
    ] in
    let end = merge_all start iterator in (end.memory, end.queue ++ end.tail ∷ [])

-- `none` is the panic of a poisoned queue. The buzzer goes when an empty queue receives bytes.
unfoldable pub extend : Memory → MergeQueue → List Bytes → Option (Memory × MergeQueue)
unfolding extend_queue
extend m q iterator =
    if q.panic
    then none
    else (let (memory, queue) = extend_queue m q.queue iterator in
        let should_ping = if is_empty_list iterator then false else is_empty_list q.queue in
        some (
          memory,
          record q { queue = queue; buzzes = if should_ping then suc q.buzzes else q.buzzes },
        ))

-- The queue after the call, and what the vector becomes.
unfoldable pub drain_into : MergeQueue → List Bytes → Option (MergeQueue × List Bytes)
drain_into q vec = if q.panic then none else some (record q { queue = [] }, vec ++ q.queue)

-- With the number of handles to the queue.
unfoldable pub is_complete : ℕ → MergeQueue → Option Bool
is_complete strong_count q =
    if q.panic then none else some (strong_count == 1 && is_empty_list q.queue)

pub data Call : Type 0 where
  call_extend : List Bytes → Call
  call_drain : Call

-- The calls of both ends, with what the receiver has drained so far.
unfoldable pub run :
    List Call → Memory → MergeQueue → List Bytes → Option (Memory × MergeQueue × List Bytes)
unfolding extend drain_into
run [] m q vec = some (m, q, vec)
run (call_extend iterator ∷ calls) m q vec = elim (extend m q iterator) [
  | none ↦ none
  | some r ↦ run calls r.0 r.1 vec
]
run (call_drain ∷ calls) m q vec = elim (drain_into q vec) [
  | none ↦ none
  | some r ↦ run calls m r.0 r.1
]
