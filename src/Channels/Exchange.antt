-- ===== src/Channels/Exchange.antt =====
-- timely/src/dataflow/channels/pushers/exchange.rs: records go to the pusher that their hash names.
pub mod Lanes
pub mod Index
pub mod Give
pub mod Pushed
pub mod Delivers
use timely_mirror.Prelude.{
  ℕ, zero, suc, ◌+◌, ◌-◌, ◌%◌, ◌^◌, Bool, true, false, not, Option, none, some, List, [], ◌∷◌, ◌++◌,
  ◌==◌, if◌then◌else◌, ltb, length, map, is_empty_list, and_then, map_option, modify,
}
use Prim.Native.Nat.{bit_and}
use timely_mirror.Order.{Eq}
use timely_mirror.Int64.{modulus}
use timely_mirror.Channels.{
  Vector, Message, Push, push_at, push_back, with_capacity, default_length,
}

-- The vectors of pushers and of buffers, which are as long, as one of pairs.
pub record Exchange {ℓ κ μ} (T : Type ℓ) (D : Type κ) (P : Type μ) : Type (ℓ ⊔ κ ⊔ μ) where
  pub lanes : List (P × Vector D)
  pub current : Option T

module _ {ℓ} {T : Type ℓ} where
  -- `self.current.as_ref().map_or(false, |x| x != time)`.
  abbrev pub is_other : ⦃e : Eq T⦄ → Option T → T → Bool
  is_other none time = false
  is_other ⦃e⦄ (some x) time = not (e.eq x time)

module _ {ℓ κ} {T : Type ℓ} {D : Type κ} (hash_func : T → D → ℕ) where
  -- Where the number of pushers is a power of two, a mask. The subtraction of a usize wraps.
  unfoldable pub index_of : ℕ → T → D → ℕ
  index_of peers time datum =
      let mask = (peers + modulus - 1) % modulus in
      if bit_and peers mask == 0
      then bit_and (hash_func time datum) mask
      else hash_func time datum % peers

module _ {ℓ κ μ} {T : Type ℓ} {D : Type κ} {P : Type μ} where
  abbrev pub new : List P → Exchange T D P
  new pushers = record {
    lanes = map (λ p. (p, with_capacity default_length)) pushers;
    current = none;
  }

  -- `self.pushers[0].push(message)`.
  abbrev pub push_first :
      ⦃pusher : Push P (Message T D)⦄
      → List (P × Vector D)
      → Option (Message T D)
      → List (P × Vector D) × Option (Message T D)
  push_first [] message = ([], message)
  push_first ⦃pusher⦄ ((p, buffer) ∷ lanes) message =
      let (q, left) = pusher.push p message in ((q, buffer) ∷ lanes, left)

  module _ ⦃pusher : Push P (Message T D)⦄ where
    unfoldable pub flush : Option T → P × Vector D → P × Vector D
    flush current (p, buffer) =
        if is_empty_list buffer.items
        then (p, buffer)
        else elim current [ none ↦ (p, buffer) | some time ↦ push_at buffer time p ]

    -- The body of the loops over the data, at the pusher and the buffer of the index.
    unfoldable pub give_lane : Option T → D → P × Vector D → P × Vector D
    unfolding flush
    give_lane current datum (p, buffer) =
        let longer = push_back buffer datum in
        if length longer.items == longer.capacity then flush current (p, longer) else (p, longer)

    unfoldable pub flush_none : Option T → P × Vector D → P × Vector D
    unfolding flush
    flush_none current lane =
        let flushed = flush current lane in ((pusher.push flushed.0 none).0, flushed.1)

    module _ (hash_func : T → D → ℕ) where
      -- `none` is the panic on an index out of range.
      unfoldable pub give : T → D → Exchange T D P → Option (Exchange T D P)
      unfolding give_lane
      give time datum ex =
          let index = index_of hash_func (length ex.lanes) time datum in
          if ltb index (length ex.lanes)
          then some (record ex { lanes = modify (give_lane ex.current datum) ex.lanes index })
          else none

      unfoldable pub give_all : T → List D → Exchange T D P → Option (Exchange T D P)
      unfolding give
      give_all time [] ex = some ex
      give_all time (datum ∷ ds) ex = and_then (give time datum ex) (give_all time ds)

      -- The state, and what is left in place of the message.
      unfoldable pub push :
          ⦃e : Eq T⦄
          → Exchange T D P
          → Option (Message T D)
          → Option (Exchange T D P × Option (Message T D))
      unfolding flush give_all flush_none
      push ex message =
          if length ex.lanes == 1
          then (let (lanes, left) = push_first ex.lanes message in
              some (record ex { lanes = lanes }, left))
          else elim message [
            | none ↦ some (record ex { lanes = map (flush_none ex.current) ex.lanes }, none)
            | some m ↦
                let lanes =
                  if is_other ex.current m.time
                  then map (flush ex.current) ex.lanes
                  else ex.lanes in
                map_option
                  (λ next. (next, some (record m { content = record m.content { items = [] } })))
                  (give_all m.time m.content.items
                    (record { lanes = lanes; current = some m.time }))
          ]

      -- One call for each message.
      unfoldable pub push_all :
          ⦃e : Eq T⦄ → Exchange T D P → List (Option (Message T D)) → Option (Exchange T D P)
      unfolding push
      push_all ex [] = some ex
      push_all ex (message ∷ messages) =
          and_then (push ex message) (λ next. push_all next.0 messages)
