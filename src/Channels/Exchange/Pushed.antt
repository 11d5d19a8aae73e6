-- ===== src/Channels/Exchange/Pushed.antt =====
-- What one push does to what each pusher was given and what waits for it.
use timely_mirror.Prelude.{
  ℕ, zero, suc, ◌≤◌, ◌<◌, ◌≡◌, refl, sym, ap, ap₂, ◌∙◌, Bool, true, false, Option, none, some,
  some_not_none, List, [], ◌∷◌, ◌++◌, map, retain, length-map, if◌then◌else◌, ◌==◌, ==_iff, length,
  Bool-cases, inl, inr, arith,
}
use mathlib.Core.List.{append-nil}
use timely_mirror.Order.{Eq}
use timely_mirror.Int64.{modulus}
use timely_mirror.Channels.{Vector, Message, Push}
use timely_mirror.Channels.Received.{delivered, records, delivered-push}
use timely_mirror.Channels.Exchange.{Exchange, is_other, push_first, flush, flush_none, push}
use timely_mirror.Channels.Exchange.Lanes.{
  flush_lem, flush_none_lem, total_at, AllFlushed, total_at-flushed, map-flushed,
}
use timely_mirror.Channels.Exchange.Give.{is_for, give_all_lem}

retain_all {ℓ} :
    {A : Type ℓ} (p : A → Bool) (xs : List A) → ((x : A) → p x ≡ true) → retain p xs ≡ xs
retain_all p [] h = refl
retain_all p (x ∷ xs) h = rw (h x) (ap (◌∷◌ x) (retain_all p xs h))

retain_none {ℓ} :
    {A : Type ℓ} (p : A → Bool) (xs : List A) → ((x : A) → p x ≡ false) → retain p xs ≡ []
retain_none p [] h = refl
retain_none p (x ∷ xs) h = rw (h x) (retain_none p xs h)

module _ {ℓ κ μ} {T : Type ℓ} {D : Type κ} {P : Type μ} ⦃e : Eq T⦄ ⦃pusher : Push P (Message T D)⦄
    (hash_func : T → D → ℕ) (peers : ℕ) where
  -- As many lanes as peers, and nothing waits without a time. With one peer nothing waits at all.
  pub record IsReady (ex : Exchange T D P) : Type (ℓ ⊔ κ) where
    pub as_many : length ex.lanes ≡ peers
    pub timed : ex.current ≡ none → AllFlushed ex.lanes
    pub alone : peers ≡ 1 → ex.current ≡ none

  -- The lanes once those with another time are flushed.
  abbrev opened_lanes : T → Exchange T D P → List (P × Vector D)
  opened_lanes time ex =
      if is_other ex.current time then map (flush ex.current) ex.lanes else ex.lanes

  module _ (some_peers : 1 ≤ peers) (fits : peers < modulus) where
    -- What the loop over the data starts from holds what there was.
    opened_total :
        (time : T) (ex : Exchange T D P)
        → IsReady ex
        → (length (opened_lanes time ex) ≡ peers)
          × ((i : ℕ)
              → total_at (some time) (opened_lanes time ex) i ≡ total_at ex.current ex.lanes i)
    opened_total time ex ready = elim (Bool-cases (is_other ex.current time)) [
      | inl other ↦
          let (flushed, same) =
            map-flushed ex.current (flush ex.current) ex.lanes (flush_lem ex.current) ready.timed in
          rw other (
            length-map (flush ex.current) ex.lanes ∙ ready.as_many,
            λ i. total_at-flushed (some time) (map (flush ex.current) ex.lanes) i flushed ∙ same i,
          )
      | inr open_still ↦
          rw open_still (ready.as_many, λ i. still ex.current i open_still ready.timed)
    ]
      where
        still :
            (current : Option T) (i : ℕ)
            → is_other current time ≡ false
            → (current ≡ none → AllFlushed ex.lanes)
            → total_at (some time) ex.lanes i ≡ total_at current ex.lanes i
        still none i h flushed =
            total_at-flushed (some time) ex.lanes i (flushed refl)
            ∙ sym (total_at-flushed none ex.lanes i (flushed refl))
        still (some x) i h flushed =
            let same : x ≡ time = (e.eq_iff x time).0 (ground (arith, h)) in
            ap (λ t. total_at (some t) ex.lanes i) (sym same)

    first_total :
        (lanes : List (P × Vector D)) (message : Option (Message T D)) (i : ℕ)
        → peers ≡ 1
        → length lanes ≡ 1
        → total_at none (push_first lanes message).0 i
          ≡ total_at none lanes i ++ retain (is_for hash_func peers i) (records message)
    first_total [] message i one h = absurd (omega arith)
    first_total (lane ∷ other ∷ lanes) message i one h = absurd (omega arith)
    first_total ((p, buffer) ∷ []) message zero one h =
        append-nil _
        ∙ delivered-push p message
        ∙ ap₂ ◌++◌ (sym (append-nil (delivered p)))
            (sym (retain_all _ (records message) (λ r. ground (arith, one))))
    first_total ((p, buffer) ∷ []) message (suc i) one h =
        sym (retain_none _ (records message) (λ r. ground (arith, one)))

    length-push_first :
        (lanes : List (P × Vector D)) (message : Option (Message T D))
        → length (push_first lanes message).0 ≡ length lanes
    length-push_first [] message = refl
    length-push_first (lane ∷ lanes) message = refl

    push_first-AllFlushed :
        (lanes : List (P × Vector D)) (message : Option (Message T D))
        → AllFlushed lanes
        → AllFlushed (push_first lanes message).0
    push_first-AllFlushed [] message h = tt
    push_first-AllFlushed (lane ∷ lanes) message h = h

    -- What a push does: the state stays ready, the records are added, and without a message nothing
    -- waits any more.
    abbrev IsPushed : Exchange T D P → Option (Message T D) → Type (ℓ ⊔ κ ⊔ μ)
    IsPushed ex message =
        (next : Exchange T D P) × (left : Option (Message T D)) × (push hash_func ex message
          ≡ some (next, left))
        × IsReady next
        × (message ≡ none → AllFlushed next.lanes)
        × ((i : ℕ)
            → total_at next.current next.lanes i
              ≡ total_at ex.current ex.lanes i
                ++ retain (is_for hash_func peers i) (records message))

    push_single :
        (ex : Exchange T D P) (message : Option (Message T D))
        → IsReady ex
        → (length ex.lanes == 1) ≡ true
        → IsPushed ex message
    unfolding push
    push_single ex message ready one =
        let single : length ex.lanes ≡ 1 = (==_iff _ _).0 one in
        let only : peers ≡ 1 = sym ready.as_many ∙ single in
        let closed = ready.alone only in
        let (lanes, left) = push_first ex.lanes message in
        (
          record ex { lanes = lanes },
          left,
          rw one refl,
          record {
            as_many = length-push_first ex.lanes message ∙ ready.as_many;
            timed = λ h. push_first-AllFlushed ex.lanes message (ready.timed h);
            alone = ready.alone;
          },
          λ h. push_first-AllFlushed ex.lanes message (ready.timed closed),
          λ i.
              ap (λ c. total_at c lanes i) closed
              ∙ first_total ex.lanes message i only single
              ∙ ap
                  (λ c.
                    total_at c ex.lanes i ++ retain (is_for hash_func peers i) (records message))
                  (sym closed),
        )

    push_many :
        (ex : Exchange T D P) (message : Option (Message T D))
        → IsReady ex
        → (length ex.lanes == 1) ≡ false
        → IsPushed ex message
    unfolding push
    push_many ex none ready many =
        let (flushed, same) =
          map-flushed ex.current (flush_none ex.current) ex.lanes (flush_none_lem ex.current)
            ready.timed in
        let lanes = map (flush_none ex.current) ex.lanes in
        (
          record ex { lanes = lanes },
          none,
          rw many refl,
          record {
            as_many = length-map (flush_none ex.current) ex.lanes ∙ ready.as_many;
            timed = λ h. flushed;
            alone = ready.alone;
          },
          λ h. flushed,
          λ i. total_at-flushed ex.current lanes i flushed ∙ same i ∙ sym (append-nil _),
        )
    push_many ex (some m) ready many =
        let (count, opened) = opened_total m.time ex ready in
        let (next, gave, next_count, next_now, total) =
          give_all_lem hash_func peers some_peers fits m.time m.content.items
            (record { lanes = opened_lanes m.time ex; current = some m.time }) count refl in
        (
          next,
          some (record m { content = record m.content { items = [] } }),
          rw many (rw gave refl),
          record {
            as_many = next_count;
            timed = λ h. absurd (some_not_none m.time (sym next_now ∙ h));
            alone = λ h. absurd (ground (arith, h, many, ready.as_many));
          },
          λ h. absurd (some_not_none m h),
          λ i.
              ap (λ c. total_at c next.lanes i) next_now
              ∙ total i
              ∙ ap (λ rs. rs ++ retain (is_for hash_func peers i) (records (some m))) (opened i),
        )

    pub push_lem :
        (ex : Exchange T D P) (message : Option (Message T D)) → IsReady ex → IsPushed ex message
    push_lem ex message ready = elim (Bool-cases (length ex.lanes == 1)) [
      | inl one ↦ push_single ex message ready one
      | inr many ↦ push_many ex message ready many
    ]
