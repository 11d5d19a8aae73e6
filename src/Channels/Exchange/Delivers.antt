-- ===== src/Channels/Exchange/Delivers.antt =====
-- Each record goes to the pusher that its hash names, in the order in which the records came.
use timely_mirror.Prelude.{
  ℕ, ◌≤◌, ◌<◌, ◌≡◌, refl, sym, ap, ◌∙◌, Option, none, some, List, [], ◌∷◌, ◌++◌, and_then, retain,
  length-map, length,
}
use mathlib.Core.List.{append_assoc}
use timely_mirror.Order.{Eq}
use timely_mirror.Int64.{modulus}
use timely_mirror.Channels.{Message, Push}
use timely_mirror.Channels.Received.{records, all_records}
use timely_mirror.Channels.Exchange.{Exchange, new, push_all}
use timely_mirror.Channels.Exchange.Lanes.{total_at, delivered_at, AllFlushed, total_at-flushed}
use timely_mirror.Channels.Exchange.Give.{is_for, retain-append}
use timely_mirror.Channels.Exchange.Pushed.{IsReady, push_lem}

module _ {ℓ κ μ} {T : Type ℓ} {D : Type κ} {P : Type μ} ⦃e : Eq T⦄ ⦃pusher : Push P (Message T D)⦄
    (hash_func : T → D → ℕ) (peers : ℕ) where
  module _ (some_peers : 1 ≤ peers) (fits : peers < modulus) where
    push_all_lem :
        (ex : Exchange T D P) (messages : List (Option (Message T D)))
        → IsReady hash_func peers ex
        → (next : Exchange T D P) × (push_all hash_func ex (messages ++ none ∷ []) ≡ some next)
          × ((i : ℕ)
              → delivered_at next.lanes i
                ≡ total_at ex.current ex.lanes i
                  ++ retain (is_for hash_func peers i) (all_records messages))
    unfolding push_all
    push_all_lem ex [] ready =
        let (next, left, pushed, still, flushed, total) =
          push_lem hash_func peers some_peers fits ex none ready in
        (
          next,
          ap (λ o. and_then o (λ x. some x.0)) pushed,
          λ i. sym (total_at-flushed next.current next.lanes i (flushed refl)) ∙ total i,
        )
    push_all_lem ex (message ∷ messages) ready =
        let (mid, left, pushed, still, flushed, total) =
          push_lem hash_func peers some_peers fits ex message ready in
        let (next, all_pushed, rest) = push_all_lem mid messages still in
        (
          next,
          ap (λ o. and_then o (λ x. push_all hash_func x.0 (messages ++ none ∷ []))) pushed
              ∙ all_pushed,
          λ i.
              rest i
              ∙ ap (λ rs. rs ++ retain (is_for hash_func peers i) (all_records messages)) (total i)
              ∙ append_assoc (total_at ex.current ex.lanes i) _ _
              ∙ ap (λ rs. total_at ex.current ex.lanes i ++ rs)
                  (sym (
                    retain-append (is_for hash_func peers i) (records message)
                      (all_records messages))),
        )

  new-AllFlushed : (pushers : List P) → AllFlushed (new {T = T} {D = D} pushers).lanes
  new-AllFlushed [] = tt
  new-AllFlushed (p ∷ pushers) = (refl, new-AllFlushed pushers)

-- For at least one pusher and fewer than 2^64, and whatever the pushers leave in place of what they are
-- given: pushing any messages, with requests to flush among them, and a request to flush at the end,
-- does not panic. Then each pusher has been given, with their times and in the order in which they came,
-- exactly the records whose hash is its index modulo the number of pushers.
pub push_all-delivers {ℓ κ μ} :
    {T : Type ℓ} {D : Type κ} {P : Type μ} ⦃e : Eq T⦄ ⦃pusher : Push P (Message T D)⦄
    (hash_func : T → D → ℕ) (pushers : List P) (messages : List (Option (Message T D)))
    → 1 ≤ length pushers
    → length pushers < modulus
    → (next : Exchange T D P) × (push_all hash_func (new pushers) (messages ++ none ∷ [])
        ≡ some next)
      × ((i : ℕ)
          → delivered_at next.lanes i
            ≡ delivered_at (new {T = T} {D = D} pushers).lanes i
              ++ retain (is_for hash_func (length pushers) i) (all_records messages))
push_all-delivers {T = T} {D = D} hash_func pushers messages some_pushers fits =
    let start : Exchange T D _ = new pushers in
    let flushed = new-AllFlushed hash_func (length pushers) pushers in
    let (next, pushed, total) =
      push_all_lem hash_func (length pushers) some_pushers fits start messages
        (record { as_many = length-map _ pushers; timed = λ h. flushed; alone = λ h. refl }) in
    (
      next,
      pushed,
      λ i.
          total i
          ∙ ap (λ rs. rs ++ retain (is_for hash_func (length pushers) i) (all_records messages))
              (total_at-flushed none start.lanes i flushed),
    )
