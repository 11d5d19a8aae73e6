-- ===== src/Channels/Received.antt =====
-- The records in what a pusher was given.
use timely_mirror.Prelude.{
  ◌≡◌, refl, sym, ap, ◌∙◌, Option, none, some, List, [], ◌∷◌, ◌++◌, map, ◌==◌, Bool-cases, inl, inr,
  ==_iff,
}
use mathlib.Core.List.{append_assoc, append-nil}
use timely_mirror.Channels.{Vector, Message, Push, push_at, default_length, reclaimed, new_message}

module _ {ℓ κ} {T : Type ℓ} {D : Type κ} where
  abbrev pub stamped : T → List D → List (T × D)
  stamped time ds = map (λ d. (time, d)) ds

  -- The records of a message, with their time.
  abbrev pub records : Option (Message T D) → List (T × D)
  records none = []
  records (some m) = stamped m.time m.content.items

  abbrev pub all_records : List (Option (Message T D)) → List (T × D)
  all_records [] = []
  all_records (o ∷ os) = records o ++ all_records os

  pub all_records-append :
      (os more : List (Option (Message T D)))
      → all_records (os ++ more) ≡ all_records os ++ all_records more
  all_records-append [] more = refl
  all_records-append (o ∷ os) more =
      ap (λ rs. records o ++ rs) (all_records-append os more)
      ∙ sym (append_assoc (records o) (all_records os) (all_records more))

  reclaimed-items : (left : Option (Message T D)) → (reclaimed left).items ≡ []
  reclaimed-items none = refl
  reclaimed-items (some m) = refl

  module _ {μ} {P : Type μ} ⦃pusher : Push P (Message T D)⦄ where
    abbrev pub delivered : P → List (T × D)
    delivered p = all_records (pusher.received p)

    pub delivered-push :
        (p : P) (o : Option (Message T D))
        → delivered (pusher.push p o).0 ≡ delivered p ++ records o
    delivered-push p o =
        ap all_records (pusher.received-push p o)
        ∙ all_records-append (pusher.received p) (o ∷ [])
        ∙ ap (λ rs. delivered p ++ rs) (append-nil (records o))

    pub delivered-push_at :
        (buffer : Vector D) (time : T) (p : P)
        → delivered (push_at buffer time p).0 ≡ delivered p ++ stamped time buffer.items
    unfolding push_at
    delivered-push_at buffer time p = delivered-push p _

    -- The buffer comes back empty, with room for the default number of records.
    pub push_at-buffer :
        (buffer : Vector D) (time : T) (p : P)
        → ((push_at buffer time p).1.items ≡ [])
          × ((push_at buffer time p).1.capacity ≡ default_length)
    unfolding push_at
    push_at-buffer buffer time p =
        let left = (pusher.push p (some (new_message time buffer 0 0))).1 in
        elim (Bool-cases ((reclaimed left).capacity == default_length)) [
          | inl fits ↦ rw fits (reclaimed-items left, (==_iff _ _).0 fits)
          | inr other ↦ rw other (refl, refl)
        ]
