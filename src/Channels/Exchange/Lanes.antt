-- ===== src/Channels/Exchange/Lanes.antt =====
-- What a pusher was given, together with what waits in its buffer.
use timely_mirror.Prelude.{
  ℕ, zero, suc, ◌≡◌, refl, sym, ap, ◌∙◌, Option, none, some, List, [], ◌∷◌, ◌++◌, map, All,
  get_elem?, is_empty_list, nil_of_is_empty, ◌==◌, length, Bool-cases, inl, inr, arith,
}
use mathlib.Core.List.{append_assoc, append-nil, map-append}
use timely_mirror.Channels.{Vector, Message, Push, push_back}
use timely_mirror.Channels.Received.{
  stamped, delivered, delivered-push, delivered-push_at, push_at-buffer,
}
use timely_mirror.Channels.Exchange.{flush, give_lane, flush_none}

module _ {ℓ κ} {T : Type ℓ} {D : Type κ} where
  abbrev pub pending : Option T → Vector D → List (T × D)
  pending none buffer = []
  pending (some time) buffer = stamped time buffer.items

  pub pending-nil :
      (current : Option T) (buffer : Vector D) → buffer.items ≡ [] → pending current buffer ≡ []
  pending-nil none buffer h = refl
  pending-nil (some time) buffer h = ap (stamped time) h

module _ {κ μ} {D : Type κ} {P : Type μ} where
  abbrev pub AllFlushed : List (P × Vector D) → Type κ
  AllFlushed lanes = All (λ lane. lane.1.items ≡ []) lanes

module _ {ℓ κ μ} {T : Type ℓ} {D : Type κ} {P : Type μ} ⦃pusher : Push P (Message T D)⦄ where
  abbrev pub lane_total : Option T → P × Vector D → List (T × D)
  lane_total current lane = delivered lane.0 ++ pending current lane.1

  lane_total-flushed :
      (current : Option T) (lane : P × Vector D)
      → lane.1.items ≡ []
      → lane_total current lane ≡ delivered lane.0
  lane_total-flushed current lane h =
      ap (λ rs. delivered lane.0 ++ rs) (pending-nil current lane.1 h)
      ∙ append-nil (delivered lane.0)

  -- Flushing moves what waits to the pusher.
  pub flush_lem :
      (current : Option T) (lane : P × Vector D)
      → (current ≡ none → lane.1.items ≡ [])
      → ((flush current lane).1.items ≡ [])
        × (delivered (flush current lane).0 ≡ lane_total current lane)
  unfolding flush
  flush_lem none (p, buffer) ready =
      let empty = ready refl in
      elim (Bool-cases (is_empty_list buffer.items)) [
        | inl e ↦ rw e (empty, sym (append-nil (delivered p)))
        | inr e ↦ rw e (empty, sym (append-nil (delivered p)))
      ]
  flush_lem (some time) (p, buffer) ready = elim (Bool-cases (is_empty_list buffer.items)) [
    | inl e ↦
        let empty = nil_of_is_empty buffer.items e in
        rw e (empty, sym (lane_total-flushed (some time) (p, buffer) empty))
    | inr e ↦ rw e ((push_at-buffer buffer time p).0, delivered-push_at buffer time p)
  ]

  -- Giving a record adds it at the end.
  pub lane_total-give_lane :
      (time : T) (datum : D) (lane : P × Vector D)
      → lane_total (some time) (give_lane (some time) datum lane)
        ≡ lane_total (some time) lane ++ (time, datum) ∷ []
  unfolding give_lane
  lane_total-give_lane time datum (p, buffer) =
      let longer = push_back buffer datum in
      let added : lane_total (some time) (p, longer)
          ≡ lane_total (some time) (p, buffer) ++ (time, datum) ∷ [] =
        ap (λ rs. delivered p ++ rs) (map-append (λ d. (time, d)) buffer.items (datum ∷ []))
        ∙ sym (append_assoc (delivered p) (stamped time buffer.items) ((time, datum) ∷ [])) in
      elim (Bool-cases (length longer.items == longer.capacity)) [
        | inl full ↦
            let (empty, same) = flush_lem (some time) (p, longer) (λ h. absurd (ground arith)) in
            rw full
              (lane_total-flushed (some time) (flush (some time) (p, longer)) empty ∙ same ∙ added)
        | inr room ↦ rw room added
      ]

  pub flush_none_lem :
      (current : Option T) (lane : P × Vector D)
      → (current ≡ none → lane.1.items ≡ [])
      → ((flush_none current lane).1.items ≡ [])
        × (delivered (flush_none current lane).0 ≡ lane_total current lane)
  unfolding flush_none
  flush_none_lem current lane ready =
      let (empty, same) = flush_lem current lane ready in
      (empty, delivered-push (flush current lane).0 none ∙ append-nil _ ∙ same)

  abbrev pub total_at : Option T → List (P × Vector D) → ℕ → List (T × D)
  total_at current lanes i = elim (get_elem? lanes i) [
    | none ↦ []
    | some lane ↦ lane_total current lane
  ]

  -- What was delivered to the pusher of an index.
  abbrev pub delivered_at : List (P × Vector D) → ℕ → List (T × D)
  delivered_at lanes i = elim (get_elem? lanes i) [ none ↦ [] | some lane ↦ delivered lane.0 ]

  pub total_at-flushed :
      (current : Option T) (lanes : List (P × Vector D)) (i : ℕ)
      → AllFlushed lanes
      → total_at current lanes i ≡ delivered_at lanes i
  total_at-flushed current [] i h = refl
  total_at-flushed current (lane ∷ lanes) zero h = lane_total-flushed current lane h.0
  total_at-flushed current (lane ∷ lanes) (suc i) h = total_at-flushed current lanes i h.1

  -- A change of every lane that flushes it.
  pub map-flushed :
      (current : Option T) (f : P × Vector D → P × Vector D) (lanes : List (P × Vector D))
      → ((lane : P × Vector D)
          → (current ≡ none → lane.1.items ≡ [])
          → ((f lane).1.items ≡ []) × (delivered (f lane).0 ≡ lane_total current lane))
      → (current ≡ none → AllFlushed lanes)
      → AllFlushed (map f lanes)
        × ((i : ℕ) → delivered_at (map f lanes) i ≡ total_at current lanes i)
  map-flushed current f [] h ready = (tt, λ i. refl)
  map-flushed current f (lane ∷ lanes) h ready =
      let (flushed, same) = h lane (λ e. (ready e).0) in
      let (rest, others) = map-flushed current f lanes h (λ e. (ready e).1) in
      ((flushed, rest), λ i. at_index i same others)
    where
      at_index :
          (i : ℕ)
          → delivered (f lane).0 ≡ lane_total current lane
          → ((j : ℕ) → delivered_at (map f lanes) j ≡ total_at current lanes j)
          → delivered_at (map f (lane ∷ lanes)) i ≡ total_at current (lane ∷ lanes) i
      at_index zero same others = same
      at_index (suc j) same others = others j
