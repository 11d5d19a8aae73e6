-- ===== src/Channels/Counted.antt =====
-- The channel from an operator to another one in the same thread: the counters at its ends, of
-- timely/src/dataflow/channels/pushers/counter.rs and pullers/counter.rs, around the message counters of
-- communication/src/allocator/counters.rs, around the queues of communication/src/allocator/thread.rs.
pub mod Conserved
use timely_mirror.Prelude.{
  ℕ, suc, ◌%◌, Bool, true, false, not, Option, none, some, List, [], ◌∷◌, ◌++◌, ◌==◌, if◌then◌else◌,
  ltb, length,
}
use timely_mirror.Order.{Eq, Ord}
use timely_mirror.Int64.{modulus}
use timely_mirror.ChangeBatch.{ChangeBatch, update, is_empty}
use timely_mirror.ChangeBatch
use timely_mirror.Channels.{Message}

-- The pair of queues that both ends share: what is sent, and what is given back for reuse.
pub record Queues {ℓ} (M : Type ℓ) : Type ℓ where
  pub sent : List M
  pub returned : List M

pub data Event : Type 0 where
  pushed : ℕ → Event
  pulled : ℕ → Event

module _ {ℓ} {M : Type ℓ} where
  abbrev pub pop_front : List M → Option M × List M
  pop_front [] = (none, [])
  pop_front (x ∷ xs) = (some x, xs)

  -- `Pusher::push` of thread.rs: the queues, and what is left in place of the element.
  unfoldable pub thread_push : Queues M → Option M → Queues M × Option M
  thread_push queues element =
      let sent : List M = elim element [ none ↦ queues.sent | some x ↦ queues.sent ++ x ∷ [] ] in
      let (left, returned) = pop_front queues.returned in
      (record { sent = sent; returned = returned }, left)

  unfoldable pub thread_pull : Queues M → Queues M × Option M
  thread_pull queues =
      let (current, sent) = pop_front queues.sent in (record queues { sent = sent }, current)

-- A channel with the counts at its ends. `events` is shared with the allocator, and `count` is what the
-- puller has not reported.
pub record Channel {ℓ κ} (T : Type ℓ) (D : Type κ) : Type (ℓ ⊔ κ) where
  pub index : ℕ
  pub queues : Queues (Message T D)
  pub events : List (ℕ × Event)
  pub count : ℕ
  pub produced : ChangeBatch T
  pub consumed : ChangeBatch T

module _ {ℓ κ} {T : Type ℓ} {D : Type κ} where
  abbrev pub new : ℕ → Channel T D
  new index = record {
    index = index;
    queues = record { sent = []; returned = [] };
    events = [];
    count = 0;
    produced = ChangeBatch.new;
    consumed = ChangeBatch.new;
  }

  -- `Pusher::push` of counters.rs.
  unfoldable pub count_push :
      Channel T D → Option (Message T D) → Channel T D × Option (Message T D)
  unfolding thread_push
  count_push c element =
      let (queues, left) = thread_push c.queues element in
      (record c { events = c.events ++ (c.index, pushed 1) ∷ []; queues = queues }, left)

  -- `Puller::pull` of counters.rs.
  unfoldable pub count_pull : Channel T D → Channel T D × Option (Message T D)
  unfolding thread_pull
  count_pull c =
      let (queues, result) = thread_pull c.queues in
      let next : Channel T D = elim result [
        | none ↦
            if not (c.count == 0)
            then record c {
              events = c.events ++ (c.index, pulled c.count) ∷ [];
              count = 0;
              queues = queues;
            }
            else record c { queues = queues }
        | some m ↦ record c { count = suc c.count; queues = queues }
      ] in
      (next, result)

  -- `message.data.len() as i64`.
  abbrev pub records_in : Message T D → ℕ
  records_in m = length m.content.items % modulus

  module _ ⦃e : Eq T⦄ ⦃o : Ord T⦄ where
    -- `Counter::push`: without a message, pushes on only where something was counted.
    unfoldable pub push : Channel T D → Option (Message T D) → Channel T D × Option (Message T D)
    unfolding count_push update is_empty
    push c none =
        let (produced, nothing) = is_empty c.produced in
        let next = record c { produced = produced } in
        if not nothing then count_push next none else (next, none)
    push c (some m) =
        count_push (record c { produced = update c.produced m.time (records_in m) }) (some m)

    -- `Counter::next`.
    unfoldable pub next : Channel T D → Channel T D × Option (Message T D)
    unfolding count_pull update
    next c =
        let (mid, message) = count_pull c in
        elim message [
          | none ↦ (mid, none)
          | some m ↦
              if ltb 0 (length m.content.items)
              then (record mid { consumed = update mid.consumed m.time (records_in m) }, some m)
              else (mid, none)
        ]

-- What the operators at the two ends do.
pub data Use {ℓ κ} (T : Type ℓ) (D : Type κ) : Type (ℓ ⊔ κ) where
  use_push : Option (Message T D) → Use T D
  use_next : Use T D

module _ {ℓ κ} {T : Type ℓ} {D : Type κ} ⦃e : Eq T⦄ ⦃o : Ord T⦄ where
  abbrev pub run : List (Use T D) → Channel T D → Channel T D
  run [] c = c
  run (use_push message ∷ uses) c = run uses (push c message).0
  run (use_next ∷ uses) c = run uses (next c).0
