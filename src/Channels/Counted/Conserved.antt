-- ===== src/Channels/Counted/Conserved.antt =====
-- What is counted as produced is counted as consumed, or is in the queue.
use timely_mirror.Prelude.{
  ℕ, ◌<◌, ◌≡◌, refl, sym, ap, ◌∙◌, false, Option, none, some, List, [], ◌∷◌, ◌++◌, ◌==◌,
  if◌then◌else◌, ltb, length, Bool-cases, inl, inr, arith,
}
use timely_mirror.Order.{Eq, Ord}
use timely_mirror.Int64.{
  modulus, wrapping_add, wrapping_add-lt, wrapping_add_assoc, wrapping_add_comm, zero-wrapping_add,
  wrapping_add_left_comm,
}
use timely_mirror.Updates.{count}
use timely_mirror.ChangeBatch.{update, is_empty}
use timely_mirror.ChangeBatch
use timely_mirror.ChangeBatch.Totals.{total, total-update, total-is_empty}
use timely_mirror.Channels.{Message}
use timely_mirror.Channels.Counted.{
  Channel, new, thread_push, thread_pull, count_push, count_pull, records_in, push, next, Use, run,
  use_push, use_next,
}

module _ {ℓ κ} {T : Type ℓ} {D : Type κ} ⦃e : Eq T⦄ (t : T) where
  abbrev pub one_in_flight : Message T D → ℕ → ℕ
  one_in_flight m n = if e.eq m.time t then wrapping_add (records_in m) n else n

  -- The records in the queue with the time, modulo 2^64.
  abbrev pub in_flight : List (Message T D) → ℕ
  in_flight [] = 0
  in_flight (m ∷ ms) = one_in_flight m (in_flight ms)

  in_flight-lt : (ms : List (Message T D)) → in_flight ms < modulus
  in_flight-lt [] = omega arith
  in_flight-lt (m ∷ ms) =
      ground (arith, wrapping_add-lt (records_in m) (in_flight ms), in_flight-lt ms)

  in_flight-snoc :
      (ms : List (Message T D)) (m : Message T D)
      → in_flight (ms ++ m ∷ []) ≡ one_in_flight m (in_flight ms)
  in_flight-snoc [] m = refl
  in_flight-snoc (x ∷ ms) m =
      ap (one_in_flight x) (in_flight-snoc ms m)
      ∙ (let swapped : one_in_flight x (one_in_flight m (in_flight ms))
              ≡ one_in_flight m (one_in_flight x (in_flight ms)) =
            ground (arith, wrapping_add_left_comm (records_in x) (records_in m) (in_flight ms)) in
          swapped)

  module _ ⦃o : Ord T⦄ where
    abbrev pub IsConserved : Channel T D → Type 0
    IsConserved c = total t c.produced ≡ wrapping_add (total t c.consumed) (in_flight c.queues.sent)

    push-IsConserved :
        (c : Channel T D) (message : Option (Message T D))
        → IsConserved c
        → IsConserved (push c message).0
    unfolding push count_push thread_push
    push-IsConserved c none h = elim (Bool-cases (is_empty c.produced).1) [
      | inl nothing ↦ rw nothing (total-is_empty t c.produced ∙ h)
      | inr some_counted ↦ rw some_counted (total-is_empty t c.produced ∙ h)
    ]
    push-IsConserved c (some m) h =
        total-update t c.produced m.time (records_in m) ∙ (elim (Bool-cases (e.eq m.time t)) [
          | inl same ↦ rw same (
              ap (λ n. wrapping_add n (records_in m)) h
              ∙ wrapping_add_assoc (total t c.consumed) (in_flight c.queues.sent) (records_in m)
              ∙ ap (wrapping_add (total t c.consumed)) (
                  wrapping_add_comm (in_flight c.queues.sent) (records_in m)
                  ∙ (let added : wrapping_add (records_in m) (in_flight c.queues.sent)
                          ≡ one_in_flight m (in_flight c.queues.sent) =
                        rw same refl in
                      added)
                  ∙ sym (in_flight-snoc c.queues.sent m)))
          | inr other ↦ rw other (
              h
              ∙ ap (wrapping_add (total t c.consumed)) (
                  (let kept : in_flight c.queues.sent ≡ one_in_flight m (in_flight c.queues.sent) =
                      rw other refl in
                    kept)
                  ∙ sym (in_flight-snoc c.queues.sent m)))
        ])

    -- Without records, a message is nothing in flight.
    nothing_in_flight :
        (m : Message T D) (n : ℕ)
        → n < modulus
        → ltb 0 (length m.content.items) ≡ false
        → one_in_flight m n ≡ n
    nothing_in_flight m n l h =
        let none_in : records_in m ≡ 0 = ground (arith, h) in
        elim (Bool-cases (e.eq m.time t)) [
          | inl same ↦ rw same (ap (λ r. wrapping_add r n) none_in ∙ zero-wrapping_add n l)
          | inr other ↦ rw other refl
        ]

    -- A message that is taken counts as consumed instead.
    moved :
        (c : Channel T D) (m : Message T D) (ms : List (Message T D))
        → wrapping_add (total t c.consumed) (one_in_flight m (in_flight ms))
          ≡ wrapping_add (total t (update c.consumed m.time (records_in m))) (in_flight ms)
    moved c m ms = elim (Bool-cases (e.eq m.time t)) [
      | inl at_t ↦
          (let step : wrapping_add (total t c.consumed) (one_in_flight m (in_flight ms))
                ≡ wrapping_add (total t c.consumed) (wrapping_add (records_in m) (in_flight ms)) =
              rw at_t refl in
            step)
          ∙ sym (wrapping_add_assoc (total t c.consumed) (records_in m) (in_flight ms))
          ∙ ap (λ n. wrapping_add n (in_flight ms))
              (sym (total-update t c.consumed m.time (records_in m) ∙ (rw at_t refl)))
      | inr off ↦
          (let step : wrapping_add (total t c.consumed) (one_in_flight m (in_flight ms))
                ≡ wrapping_add (total t c.consumed) (in_flight ms) =
              rw off refl in
            step)
          ∙ ap (λ n. wrapping_add n (in_flight ms))
              (sym (total-update t c.consumed m.time (records_in m) ∙ (rw off refl)))
    ]

    next-IsConserved : (c : Channel T D) → IsConserved c → IsConserved (next c).0
    unfolding next count_pull thread_pull
    next-IsConserved c h = by_queue c.queues.sent refl
      where
        by_queue : (ms : List (Message T D)) → c.queues.sent ≡ ms → IsConserved (next c).0
        by_queue [] same = elim (Bool-cases (c.count == 0)) [
          | inl unreported ↦
              rw same (
                rw unreported
                  (h ∙ ap (λ ms. wrapping_add (total t c.consumed) (in_flight ms)) same))
          | inr reported ↦
              rw same
                (rw reported (h ∙ ap (λ ms. wrapping_add (total t c.consumed) (in_flight ms)) same))
        ]
        by_queue (m ∷ ms) same =
            let held = h ∙ ap (λ xs. wrapping_add (total t c.consumed) (in_flight xs)) same in
            elim (Bool-cases (ltb 0 (length m.content.items))) [
              | inl some_records ↦ rw same (rw some_records (held ∙ moved c m ms))
              | inr no_records ↦ rw same (
                  rw no_records (
                    held
                    ∙ ap (wrapping_add (total t c.consumed))
                        (nothing_in_flight m (in_flight ms) (in_flight-lt ms) no_records)))
            ]

    run-IsConserved :
        (uses : List (Use T D)) (c : Channel T D) → IsConserved c → IsConserved (run uses c)
    run-IsConserved [] c h = h
    run-IsConserved (use_push message ∷ uses) c h =
        run-IsConserved uses (push c message).0 (push-IsConserved c message h)
    run-IsConserved (use_next ∷ uses) c h = run-IsConserved uses (next c).0 (next-IsConserved c h)

-- After any pushes and pulls on a new channel: at each time, the records that are counted as produced are
-- those counted as consumed with those in the queue, modulo 2^64.
pub run-conserves {ℓ κ} :
    {T : Type ℓ} {D : Type κ} ⦃e : Eq T⦄ ⦃o : Ord T⦄ (index : ℕ) (uses : List (Use T D)) (t : T)
    → total t (run uses (new index)).produced
      ≡ wrapping_add
          (total t (run uses (new index)).consumed)
          (in_flight t (run uses (new index)).queues.sent)
unfolding ChangeBatch.new count wrapping_add
run-conserves {T = T} {D = D} index uses t = run-IsConserved t uses (new index) refl
