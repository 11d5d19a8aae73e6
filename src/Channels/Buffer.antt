-- ===== src/Channels/Buffer.antt =====
-- timely/src/dataflow/channels/pushers/buffer.rs: records given one at a time, sent in batches.
pub mod Methods
pub mod Fifo
use timely_mirror.Prelude.{
  ℕ, Bool, true, false, not, Option, none, some, List, [], ◌∷◌, ◌++◌, ◌==◌, if◌then◌else◌, ltb,
  length, is_empty_list, and_then, map_option,
}
use timely_mirror.Order.{Eq}
use timely_mirror.Channels.{
  Vector, Message, Push, push_at, push_back, with_capacity, default_length,
}

pub record Buffer {ℓ κ μ} (T : Type ℓ) (D : Type κ) (P : Type μ) : Type (ℓ ⊔ κ ⊔ μ) where
  pub time : Option T
  pub buffer : Vector D
  pub pusher : P

module _ {ℓ κ μ} {T : Type ℓ} {D : Type κ} {P : Type μ} where
  abbrev pub new : P → Buffer T D P
  new pusher = record { time = none; buffer = with_capacity default_length; pusher = pusher }

  module _ ⦃push : Push P (Message T D)⦄ where
    -- `none` is the panic of `unwrap` where no time is set.
    unfoldable pub flush : Buffer T D P → Option (Buffer T D P)
    flush b =
        if is_empty_list b.buffer.items
        then some b
        else map_option
            (λ t.
              let (pusher, buffer) = push_at b.buffer t b.pusher in
              record b { buffer = buffer; pusher = pusher })
            b.time

    -- The test is `self.time.as_ref().map(|x| x != time) == Some(true)`. `autoflush_session` is the
    -- same at the time of its capability.
    unfoldable pub session : ⦃e : Eq T⦄ → T → Buffer T D P → Option (Buffer T D P)
    unfolding flush
    session ⦃e⦄ time b =
        let flushed : Option (Buffer T D P) = elim b.time [
          | none ↦ some b
          | some x ↦ if not (e.eq x time) then flush b else some b
        ] in
        map_option (λ (next : Buffer T D P). record next { time = some time }) flushed

    unfoldable pub give : D → Buffer T D P → Option (Buffer T D P)
    unfolding flush
    give datum b =
        let longer = push_back b.buffer datum in
        let next = record b { buffer = longer } in
        if length longer.items == longer.capacity then flush next else some next

    unfoldable pub give_iterator : List D → Buffer T D P → Option (Buffer T D P)
    unfolding give
    give_iterator [] b = some b
    give_iterator (datum ∷ iter) b = and_then (give datum b) (give_iterator iter)

    -- `Session::give_vec` with the method of `Buffer` that it calls: the state, and what the vector
    -- becomes.
    unfoldable pub give_vec : Vector D → Buffer T D P → Option (Buffer T D P × Vector D)
    unfolding flush
    give_vec vector b =
        if is_empty_list vector.items
        then some (b, vector)
        else and_then (if not (is_empty_list b.buffer.items) then flush b else some b) (λ flushed.
          map_option
            (λ t.
              let (pusher, left) = push_at vector t flushed.pusher in
              (record flushed { pusher = pusher }, left))
            flushed.time)

    unfoldable pub cease : Buffer T D P → Option (Buffer T D P)
    unfolding flush
    cease b =
        map_option {A = Buffer T D P} {B = Buffer T D P}
          (λ next. record next { pusher = (push.push next.pusher none).0 }) (flush b)

-- What a client does with a buffer.
pub data Call {ℓ κ} (T : Type ℓ) (D : Type κ) : Type (ℓ ⊔ κ) where
  call_session : T → Call T D
  call_give : D → Call T D
  call_give_iterator : List D → Call T D
  call_give_vec : Vector D → Call T D
  call_cease : Call T D

module _ {ℓ κ μ} {T : Type ℓ} {D : Type κ} {P : Type μ} ⦃e : Eq T⦄
    ⦃push : Push P (Message T D)⦄ where
  abbrev pub perform : Call T D → Buffer T D P → Option (Buffer T D P)
  perform (call_session time) b = session time b
  perform (call_give datum) b = give datum b
  perform (call_give_iterator iter) b = give_iterator iter b
  perform (call_give_vec vector) b = map_option (λ r. r.0) (give_vec vector b)
  perform call_cease b = cease b

  abbrev pub perform_all : List (Call T D) → Buffer T D P → Option (Buffer T D P)
  perform_all [] b = some b
  perform_all (call ∷ calls) b = and_then (perform call b) (perform_all calls)
