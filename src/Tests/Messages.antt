-- ===== src/Tests/Messages.antt =====
-- Channels of numbers at numbers as times: three pushers, a session with two times, and a queue.
use timely_mirror.Prelude.{
  ℕ, ◌≡◌, refl, Option, none, some, List, [], ◌∷◌, ◌++◌, retain, length, arith,
}
use timely_mirror.Order.{nat_eq, nat_ord}
use timely_mirror.Int64.{wrapping_add}
use timely_mirror.Updates.{count, consolidate}
use timely_mirror.ChangeBatch.{update, is_empty}
use timely_mirror.ChangeBatch
use timely_mirror.ChangeBatch.Totals.{total}
use timely_mirror.Channels.{Vector, Message, Push, push_at, new_message}
use timely_mirror.Channels.Received.{delivered, all_records}
use timely_mirror.Channels.Exchange.{Exchange, push_all}
use timely_mirror.Channels.Exchange
use timely_mirror.Channels.Exchange.Lanes.{delivered_at}
use timely_mirror.Channels.Exchange.Give.{is_for}
use timely_mirror.Channels.Exchange.Delivers.{push_all-delivers}
use timely_mirror.Channels.Buffer.{
  Buffer, Call, perform_all, session, give, give_vec, give_iterator, cease, call_session, call_give,
  call_give_iterator, call_give_vec, call_cease,
}
use timely_mirror.Channels.Buffer
use timely_mirror.Channels.Buffer.Fifo.{perform_all-delivers}
use timely_mirror.Channels.Buffer.Methods.{all_given}
use timely_mirror.Channels.Counted.{Channel, Use, run, use_push, use_next, push, next}
use timely_mirror.Channels.Counted
use timely_mirror.Channels.Counted.Conserved.{in_flight, run-conserves}

abbrev vector : List ℕ → Vector ℕ
vector xs = record { items = xs; capacity = 1024 }

abbrev message : ℕ → List ℕ → Message ℕ ℕ
message time xs = new_message time (vector xs) 0 0

-- A pusher that keeps what it is given, and gives a message of its own back.
abbrev Kept : Type 0
Kept = List (Option (Message ℕ ℕ))

instance abbrev kept_push : Push Kept (Message ℕ ℕ)
kept_push = record {
  push = λ p o. (p ++ o ∷ [], some (message 0 (7 ∷ [])));
  received = λ p. p;
  received-push = λ p o. refl;
}

abbrev hash : ℕ → ℕ → ℕ
hash time d = d

abbrev three : List Kept
three = [] ∷ [] ∷ [] ∷ []

abbrev four : List Kept
four = [] ∷ three

abbrev inputs : List (Option (Message ℕ ℕ))
inputs =
    some (message 1 (3 ∷ 4 ∷ 5 ∷ 6 ∷ []))
    ∷ some (message 2 (9 ∷ 10 ∷ []))
    ∷ none
    ∷ some (message 2 (0 ∷ []))
    ∷ []

push_all-delivers_example :
    (ex : Exchange ℕ ℕ Kept) × (push_all hash (Exchange.new three) (inputs ++ none ∷ []) ≡ some ex)
    × ((i : ℕ)
        → delivered_at ex.lanes i
          ≡ delivered_at (Exchange.new {T = ℕ} {D = ℕ} three).lanes i
            ++ retain (is_for hash 3 i) (all_records inputs))
push_all-delivers_example = push_all-delivers hash three inputs (omega arith) (omega arith)

abbrev lane_of : Option (Exchange ℕ ℕ Kept) → ℕ → List (ℕ × ℕ)
lane_of none i = []
lane_of (some ex) i = delivered_at ex.lanes i

-- With three pushers by the remainder, with four by the mask.
exchange_run :
    (lane_of (push_all hash (Exchange.new three) (inputs ++ none ∷ [])) 0
      ≡ (1, 3) ∷ (1, 6) ∷ (2, 9) ∷ (2, 0) ∷ [])
    × (lane_of (push_all hash (Exchange.new four) (inputs ++ none ∷ [])) 2 ≡ (1, 6) ∷ (2, 10) ∷ [])
unfolding push_all push_at Exchange.index_of
exchange_run = (refl, refl)

abbrev calls : List (Call ℕ ℕ)
calls =
    call_give 3
    ∷ call_session 2
    ∷ call_give 4
    ∷ call_give_vec (vector (5 ∷ 6 ∷ []))
    ∷ call_cease
    ∷ call_give_iterator (7 ∷ 8 ∷ [])
    ∷ []

perform_all-delivers_example :
    (b : Buffer ℕ ℕ Kept) × (perform_all
        (call_session 1 ∷ (calls ++ call_cease ∷ []))
        (Buffer.new [])
      ≡ some b)
    × (b.buffer.items ≡ [])
    × (delivered b.pusher ≡ all_given 1 calls)
perform_all-delivers_example = perform_all-delivers [] 1 calls

abbrev sent_by : Option (Buffer ℕ ℕ Kept) → ℕ
sent_by none = 0
sent_by (some b) = length b.pusher

-- The messages of those calls: one for each batch, and the requests to flush.
buffer_run : sent_by (perform_all (call_session 1 ∷ (calls ++ call_cease ∷ [])) (Buffer.new [])) ≡ 6
unfolding session give give_vec give_iterator cease push_at
buffer_run = refl

abbrev uses : List (Use ℕ ℕ)
uses =
    use_push (some (message 1 (3 ∷ 4 ∷ [])))
    ∷ use_push (some (message 2 []))
    ∷ use_push (some (message 2 (5 ∷ [])))
    ∷ use_next
    ∷ use_next
    ∷ use_push none
    ∷ []

run-conserves_example :
    total 2 (run uses (Counted.new {D = ℕ} 0)).produced
    ≡ wrapping_add
        (total 2 (run uses (Counted.new {D = ℕ} 0)).consumed)
        (in_flight 2 (run uses (Counted.new {D = ℕ} 0)).queues.sent)
run-conserves_example = run-conserves 0 uses 2

-- A message without records is taken and not returned.
counted_run :
    (total 2 (run uses (Counted.new {D = ℕ} 0)).produced ≡ 1)
    × (total 1 (run uses (Counted.new {D = ℕ} 0)).consumed ≡ 2)
    × (length (run uses (Counted.new {D = ℕ} 0)).queues.sent ≡ 1)
unfolding push next count wrapping_add ChangeBatch.new consolidate
counted_run = (refl, refl, refl)
