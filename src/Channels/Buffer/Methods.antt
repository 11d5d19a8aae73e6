-- ===== src/Channels/Buffer/Methods.antt =====
-- What each method of a buffer gives to its pusher.
use timely_mirror.Prelude.{
  ◌≡◌, refl, sym, ap, ◌∙◌, Option, none, some, List, [], ◌∷◌, ◌++◌, map_option, and_then, ◌==◌,
  length, is_empty_list, nil_of_is_empty, Bool-cases, inl, inr,
}
use mathlib.Core.List.{append_assoc, append-nil, map-append}
use timely_mirror.Order.{Eq}
use timely_mirror.Channels.{Vector, Message, Push, push_at, push_back}
use timely_mirror.Channels.Received.{
  stamped, delivered, delivered-push, delivered-push_at, push_at-buffer,
}
use timely_mirror.Channels.Buffer.{
  Buffer, flush, session, give, give_iterator, give_vec, cease, Call, call_session, call_give,
  call_give_iterator, call_give_vec, call_cease,
}

module _ {ℓ κ} {T : Type ℓ} {D : Type κ} where
  -- The time that is open after the call, and the records that it gives.
  abbrev pub time_after : T → Call T D → T
  time_after time (call_session t) = t
  time_after time (call_give d) = time
  time_after time (call_give_iterator ds) = time
  time_after time (call_give_vec v) = time
  time_after time call_cease = time

  abbrev pub given : T → Call T D → List (T × D)
  given time (call_session t) = []
  given time (call_give d) = (time, d) ∷ []
  given time (call_give_iterator ds) = stamped time ds
  given time (call_give_vec v) = stamped time v.items
  given time call_cease = []

  abbrev pub all_given : T → List (Call T D) → List (T × D)
  all_given time [] = []
  all_given time (call ∷ calls) = given time call ++ all_given (time_after time call) calls

module _ {ℓ κ μ} {T : Type ℓ} {D : Type κ} {P : Type μ} ⦃push : Push P (Message T D)⦄ where
  abbrev pub total : T → Buffer T D P → List (T × D)
  total time b = delivered b.pusher ++ stamped time b.buffer.items

  pub total-empty :
      (time : T) (b : Buffer T D P) → b.buffer.items ≡ [] → total time b ≡ delivered b.pusher
  total-empty time b h =
      ap (λ ds. delivered b.pusher ++ stamped time ds) h ∙ append-nil (delivered b.pusher)

  -- The call succeeds, with that time open and those records added.
  abbrev pub IsDone : T → Option (Buffer T D P) → List (T × D) → Type (ℓ ⊔ κ ⊔ μ)
  IsDone time result rs =
      (next : Buffer T D P) × (result ≡ some next)
      × (next.time ≡ some time)
      × (total time next ≡ rs)

  pub flush_lem :
      (time : T) (b : Buffer T D P)
      → b.time ≡ some time
      → (next : Buffer T D P) × (flush b ≡ some next)
        × (next.time ≡ some time)
        × (next.buffer.items ≡ [])
        × (delivered next.pusher ≡ total time b)
  unfolding flush
  flush_lem time b now = elim (Bool-cases (is_empty_list b.buffer.items)) [
    | inl e ↦
        let empty = nil_of_is_empty b.buffer.items e in
        (b, rw e refl, now, empty, sym (total-empty time b empty))
    | inr e ↦
        let (pusher, buffer) = push_at b.buffer time b.pusher in
        (
          record b { buffer = buffer; pusher = pusher },
          rw e (rw now refl),
          now,
          (push_at-buffer b.buffer time b.pusher).0,
          delivered-push_at b.buffer time b.pusher,
        )
  ]

  pub give_lem :
      (time : T) (datum : D) (b : Buffer T D P)
      → b.time ≡ some time
      → IsDone time (give datum b) (total time b ++ (time, datum) ∷ [])
  unfolding give
  give_lem time datum b now =
      let longer = push_back b.buffer datum in
      let added : total time (record b { buffer = longer }) ≡ total time b ++ (time, datum) ∷ [] =
        ap (λ rs. delivered b.pusher ++ rs)
          (map-append (λ d. (time, d)) b.buffer.items (datum ∷ []))
        ∙ sym (
            append_assoc (delivered b.pusher) (stamped time b.buffer.items) ((time, datum) ∷ [])) in
      elim (Bool-cases (length longer.items == longer.capacity)) [
        | inl full ↦
            let (next, done, still, empty, same) =
              flush_lem time (record b { buffer = longer }) now in
            rw full (next, done, still, total-empty time next empty ∙ same ∙ added)
        | inr room ↦ rw room (record b { buffer = longer }, refl, now, added)
      ]

  pub give_iterator_lem :
      (time : T) (ds : List D) (b : Buffer T D P)
      → b.time ≡ some time
      → IsDone time (give_iterator ds b) (total time b ++ stamped time ds)
  unfolding give_iterator
  give_iterator_lem time [] b now = (b, refl, now, sym (append-nil (total time b)))
  give_iterator_lem time (datum ∷ ds) b now =
      let (mid, gave, still, one) = give_lem time datum b now in
      let (next, done, last, rest) = give_iterator_lem time ds mid still in
      (
        next,
        ap (λ o. and_then o (give_iterator ds)) gave ∙ done,
        last,
        rest
            ∙ ap (λ rs. rs ++ stamped time ds) one
            ∙ append_assoc (total time b) ((time, datum) ∷ []) (stamped time ds),
      )

  -- A vector goes behind what was flushed.
  vector_lem :
      (time : T) (vector : Vector D) (b flushed : Buffer T D P)
      → flushed.time ≡ some time
      → flushed.buffer.items ≡ []
      → delivered flushed.pusher ≡ total time b
      → total time (record flushed { pusher = (push_at vector time flushed.pusher).0 })
        ≡ total time b ++ stamped time vector.items
  vector_lem time vector b flushed still empty same =
      total-empty time (record flushed { pusher = (push_at vector time flushed.pusher).0 }) empty
      ∙ delivered-push_at vector time flushed.pusher
      ∙ ap (λ rs. rs ++ stamped time vector.items) same

  pub give_vec_lem :
      (time : T) (vector : Vector D) (b : Buffer T D P)
      → b.time ≡ some time
      → IsDone time
          (map_option (λ r. r.0) (give_vec vector b))
          (total time b ++ stamped time vector.items)
  unfolding give_vec
  give_vec_lem time vector b now = elim (Bool-cases (is_empty_list vector.items)) [
    | inl none_given ↦ rw none_given (
      b,
      refl,
      now,
      sym (
          ap (λ ds. total time b ++ stamped time ds) (nil_of_is_empty vector.items none_given)
          ∙ append-nil (total time b)),
    )
    | inr some_given ↦ elim (Bool-cases (is_empty_list b.buffer.items)) [
      | inl e ↦
          let empty = nil_of_is_empty b.buffer.items e in
          rw some_given (
            rw e (
              record b { pusher = (push_at vector time b.pusher).0 },
              rw now refl,
              now,
              vector_lem time vector b b now empty (sym (total-empty time b empty)),
            ))
      | inr e ↦
          let (next, done, still, empty, same) = flush_lem time b now in
          rw some_given (
            record next { pusher = (push_at vector time next.pusher).0 },
            rw done (rw e (rw still refl)),
            still,
            vector_lem time vector b next still empty same,
          )
    ]
  ]

  pub cease_lem :
      (time : T) (b : Buffer T D P)
      → b.time ≡ some time
      → (next : Buffer T D P) × (cease b ≡ some next)
        × (next.time ≡ some time)
        × (next.buffer.items ≡ [])
        × (delivered next.pusher ≡ total time b)
  unfolding cease
  cease_lem time b now =
      let (next, done, still, empty, same) = flush_lem time b now in
      (
        record next { pusher = (push.push next.pusher none).0 },
        ap (map_option {A = Buffer T D P} (λ n. record n { pusher = (push.push n.pusher none).0 }))
            done,
        still,
        empty,
        delivered-push next.pusher none ∙ append-nil (delivered next.pusher) ∙ same,
      )

  module _ ⦃e : Eq T⦄ where
    pub session_lem :
        (time t : T) (b : Buffer T D P) → b.time ≡ some time → IsDone t (session t b) (total time b)
    unfolding session
    session_lem time t b now = elim (Bool-cases (e.eq time t)) [
      | inl same ↦
          let one : t ≡ time = sym ((e.eq_iff time t).0 same) in
          (
            record b { time = some t },
            rw now (rw same refl),
            refl,
            ap (λ x. total x (record b { time = some t })) one,
          )
      | inr other ↦
          let (next, done, still, empty, same) = flush_lem time b now in
          (
            record next { time = some t },
            rw now (rw other (rw done refl)),
            refl,
            total-empty t (record next { time = some t }) empty ∙ same,
          )
    ]
