-- ===== src/Channels/Exchange/Give.antt =====
-- Giving records adds each to the lane that its hash names.
use timely_mirror.Prelude.{
  ℕ, ◌%◌, ◌≤◌, ◌<◌, ◌≡◌, refl, sym, ap, ◌∙◌, Bool, true, Option, none, some, List, [], ◌∷◌, ◌++◌,
  and_then, modify, retain, get_elem?-modify_self, get_elem?-modify_ne, length-modify,
  get_elem?-of_lt, if◌then◌else◌, ◌==◌, ==_iff, length, Bool-cases, inl, inr, arith, ltb,
}
use mathlib.Core.List.{append_assoc, append-nil}
use timely_mirror.Int64.{modulus}
use timely_mirror.Channels.{Vector, Message, Push}
use timely_mirror.Channels.Received.{stamped}
use timely_mirror.Channels.Exchange.{Exchange, give_lane, index_of, give, give_all}
use timely_mirror.Channels.Exchange.Index.{index_of_lem, index_of-lt}
use timely_mirror.Channels.Exchange.Lanes.{lane_total, lane_total-give_lane, total_at}

pub retain-append {ℓ} :
    {A : Type ℓ} (p : A → Bool) (xs ys : List A) → retain p (xs ++ ys) ≡ retain p xs ++ retain p ys
retain-append p [] ys = refl
retain-append p (x ∷ xs) ys = elim (Bool-cases (p x)) [
  | inl kept ↦ rw kept (ap (◌∷◌ x) (retain-append p xs ys))
  | inr gone ↦ rw gone (retain-append p xs ys)
]

module _ {ℓ κ} {T : Type ℓ} {D : Type κ} (hash_func : T → D → ℕ) (peers : ℕ) where
  -- The record is meant for the pusher of the index.
  abbrev pub is_for : ℕ → T × D → Bool
  is_for i r = hash_func r.0 r.1 % peers == i

module _ {ℓ κ μ} {T : Type ℓ} {D : Type κ} {P : Type μ} ⦃pusher : Push P (Message T D)⦄
    (hash_func : T → D → ℕ) (peers : ℕ) where
  total_at-modify :
      (current : Option T) (f : P × Vector D → P × Vector D) (lanes : List (P × Vector D)) (j i : ℕ)
      (more : List (T × D))
      → j < length lanes
      → ((lane : P × Vector D) → lane_total current (f lane) ≡ lane_total current lane ++ more)
      → total_at current (modify f lanes j) i
        ≡ (if j == i then total_at current lanes i ++ more else total_at current lanes i)
  total_at-modify current f lanes j i more l h = elim (Bool-cases (j == i)) [
    | inl same ↦
        let at_i = (==_iff j i).0 same in
        let (lane, found) = get_elem?-of_lt lanes i (omega (arith, at_i, l)) in
        rw same (
          ap (λ k. total_at current (modify f lanes k) i) at_i
          ∙ ap (λ o. elim o [ none ↦ [] | some x ↦ lane_total current x ])
              (get_elem?-modify_self f lanes i lane found)
          ∙ h lane
          ∙ ap (λ o. elim o [ none ↦ [] | some x ↦ lane_total current x ] ++ more) (sym found))
    | inr other ↦ rw other (
        ap (λ o. elim o [ none ↦ [] | some x ↦ lane_total current x ])
          (get_elem?-modify_ne f lanes j i (λ q. ground (arith, q, other))))
  ]

  module _ (some_peers : 1 ≤ peers) (fits : peers < modulus) where
    give_lem :
        (time : T) (datum : D) (ex : Exchange T D P)
        → length ex.lanes ≡ peers
        → ex.current ≡ some time
        → (next : Exchange T D P) × (give hash_func time datum ex ≡ some next)
          × (length next.lanes ≡ peers)
          × (next.current ≡ some time)
          × ((i : ℕ)
              → total_at (some time) next.lanes i
                ≡ total_at (some time) ex.lanes i
                  ++ retain (is_for hash_func peers i) ((time, datum) ∷ []))
    unfolding give
    give_lem time datum ex count now =
        let j = index_of hash_func peers time datum in
        let index = index_of hash_func (length ex.lanes) time datum in
        let same : index ≡ j = ap (λ n. index_of hash_func n time datum) count in
        let inside : ltb index (length ex.lanes) ≡ true =
          ground (arith, same, count, index_of-lt hash_func peers time datum some_peers fits) in
        let next : Exchange T D P = record ex {
          lanes = modify (give_lane ex.current datum) ex.lanes index;
        } in
        (
          next,
          rw inside refl,
          length-modify _ ex.lanes index ∙ count,
          now,
          λ i.
              ap (λ c. total_at (some time) (modify (give_lane c datum) ex.lanes index) i) now
              ∙ total_at-modify (some time) (give_lane (some time) datum) ex.lanes index i
                  ((time, datum) ∷ []) (ground (arith, inside)) (lane_total-give_lane time datum)
              ∙ kept_here i (same ∙ index_of_lem hash_func peers time datum some_peers fits),
        )
      where
        kept_here :
            (i : ℕ)
            → index_of hash_func (length ex.lanes) time datum ≡ hash_func time datum % peers
            → (if index_of hash_func (length ex.lanes) time datum == i
                then total_at (some time) ex.lanes i ++ (time, datum) ∷ []
                else total_at (some time) ex.lanes i)
              ≡ total_at (some time) ex.lanes i
                ++ retain (is_for hash_func peers i) ((time, datum) ∷ [])
        kept_here i same = elim (Bool-cases (hash_func time datum % peers == i)) [
          | inl meant ↦ rw same (rw meant refl)
          | inr other ↦ rw same (rw other (sym (append-nil _)))
        ]

    pub give_all_lem :
        (time : T) (ds : List D) (ex : Exchange T D P)
        → length ex.lanes ≡ peers
        → ex.current ≡ some time
        → (next : Exchange T D P) × (give_all hash_func time ds ex ≡ some next)
          × (length next.lanes ≡ peers)
          × (next.current ≡ some time)
          × ((i : ℕ)
              → total_at (some time) next.lanes i
                ≡ total_at (some time) ex.lanes i
                  ++ retain (is_for hash_func peers i) (stamped time ds))
    unfolding give_all
    give_all_lem time [] ex count now = (ex, refl, count, now, λ i. sym (append-nil _))
    give_all_lem time (datum ∷ ds) ex count now =
        let (mid, gave, mid_count, mid_now, mid_total) = give_lem time datum ex count now in
        let (next, all_gave, next_count, next_now, next_total) =
          give_all_lem time ds mid mid_count mid_now in
        (
          next,
          ap (λ o. and_then o (give_all hash_func time ds)) gave ∙ all_gave,
          next_count,
          next_now,
          λ i.
              next_total i
              ∙ ap (λ rs. rs ++ retain (is_for hash_func peers i) (stamped time ds)) (mid_total i)
              ∙ append_assoc (total_at (some time) ex.lanes i) _ _
              ∙ ap (λ rs. total_at (some time) ex.lanes i ++ rs)
                  (sym (
                    retain-append (is_for hash_func peers i) ((time, datum) ∷ [])
                      (stamped time ds))),
        )
