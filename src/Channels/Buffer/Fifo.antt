-- ===== src/Channels/Buffer/Fifo.antt =====
-- What is given to a buffer arrives once, in order and with the time of its session.
use timely_mirror.Prelude.{◌≡◌, refl, sym, ap, ◌∙◌, some, List, [], ◌∷◌, ◌++◌, and_then}
use mathlib.Core.List.{append_assoc, append-nil}
use timely_mirror.Order.{Eq}
use timely_mirror.Channels.{Message, Push}
use timely_mirror.Channels.Received.{delivered}
use timely_mirror.Channels.Buffer.{
  Buffer, new, session, Call, perform, perform_all, call_session, call_give, call_give_iterator,
  call_give_vec, call_cease,
}
use timely_mirror.Channels.Buffer.Methods.{
  time_after, given, all_given, total, total-empty, IsDone, give_lem, give_iterator_lem,
  give_vec_lem, cease_lem, session_lem,
}

module _ {ℓ κ μ} {T : Type ℓ} {D : Type κ} {P : Type μ} ⦃push : Push P (Message T D)⦄ where
  module _ ⦃e : Eq T⦄ where
    perform_lem :
        (time : T) (call : Call T D) (b : Buffer T D P)
        → b.time ≡ some time
        → IsDone (time_after time call) (perform call b) (total time b ++ given time call)
    perform_lem time (call_session t) b now =
        let (next, done, still, same) = session_lem time t b now in
        (next, done, still, same ∙ sym (append-nil (total time b)))
    perform_lem time (call_give datum) b now = give_lem time datum b now
    perform_lem time (call_give_iterator ds) b now = give_iterator_lem time ds b now
    perform_lem time (call_give_vec vector) b now = give_vec_lem time vector b now
    perform_lem time call_cease b now =
        let (next, done, still, empty, same) = cease_lem time b now in
        (next, done, still, total-empty time next empty ∙ same ∙ sym (append-nil (total time b)))

    perform_all_lem :
        (time : T) (calls : List (Call T D)) (b : Buffer T D P)
        → b.time ≡ some time
        → (next : Buffer T D P) × (perform_all (calls ++ call_cease ∷ []) b ≡ some next)
          × (next.buffer.items ≡ [])
          × (delivered next.pusher ≡ total time b ++ all_given time calls)
    perform_all_lem time [] b now =
        let (next, done, still, empty, same) = cease_lem time b now in
        (next, ap (λ o. and_then o some) done, empty, same ∙ sym (append-nil (total time b)))
    perform_all_lem time (call ∷ calls) b now =
        let (mid, one, open_now, added) = perform_lem time call b now in
        let (next, done, empty, rest) = perform_all_lem (time_after time call) calls mid open_now in
        (
          next,
          ap (λ o. and_then o (perform_all (calls ++ call_cease ∷ []))) one ∙ done,
          empty,
          rest
              ∙ ap (λ rs. rs ++ all_given (time_after time call) calls) added
              ∙ append_assoc (total time b) (given time call)
                  (all_given (time_after time call) calls),
        )

-- For any calls on a new buffer that start with a session and end with a cease, and whatever its pusher
-- leaves in place of what it is given: no call panics, the buffer is empty at the end, and the pusher has
-- been given exactly the records that the calls give, in their order, each with the time of the session
-- that was open.
pub perform_all-delivers {ℓ κ μ} :
    {T : Type ℓ} {D : Type κ} {P : Type μ} ⦃e : Eq T⦄ ⦃push : Push P (Message T D)⦄ (pusher : P)
    (time : T) (calls : List (Call T D))
    → (next : Buffer T D P) × (perform_all
          (call_session time ∷ (calls ++ call_cease ∷ []))
          (new pusher)
        ≡ some next)
      × (next.buffer.items ≡ [])
      × (delivered next.pusher ≡ delivered pusher ++ all_given time calls)
unfolding session
perform_all-delivers {T = T} {D = D} {P = P} pusher time calls =
    let opened : Buffer T D P = record (new pusher) { time = some time } in
    let (next, done, empty, same) = perform_all_lem time calls opened refl in
    (
      next,
      done,
      empty,
      same ∙ ap (λ rs. rs ++ all_given time calls) (append-nil (delivered pusher)),
    )
