-- ===== src/Channels.antt =====
-- timely/src/dataflow/channels/mod.rs: messages, and pushing the contents of a buffer as one.
pub mod Exchange
pub mod Buffer
pub mod Counted
pub mod Received
use timely_mirror.Prelude.{
  ℕ, zero, suc, ◌+◌, ◌*◌, ◌≡◌, Bool, true, false, Option, none, some, List, [], ◌∷◌, ◌++◌, ◌==◌,
  if◌then◌else◌, ltb, length,
}
use Prim.Native.Nat.{max}

-- `Vec`: the elements, and for how many there is room.
pub record Vector {ℓ} (D : Type ℓ) : Type ℓ where
  pub items : List D
  pub capacity : ℕ

module _ {ℓ} {D : Type ℓ} where
  abbrev pub with_capacity : ℕ → Vector D
  with_capacity n = record { items = []; capacity = n }

  -- `Vec::push`, which doubles the room where there is none left.
  abbrev pub push_back : Vector D → D → Vector D
  push_back v d = record {
    items = v.items ++ d ∷ [];
    capacity = if ltb (length v.items) v.capacity then v.capacity else max 4 (2 * v.capacity);
  }

pub record Message {ℓ κ} (T : Type ℓ) (D : Type κ) : Type (ℓ ⊔ κ) where
  pub time : T
  pub content : Vector D
  pub from : ℕ
  pub seq : ℕ

-- `Push`: what is pushed, where `none` is a request to flush, may be exchanged for something else.
-- A pusher knows what it was given, which only the theorems look at.
pub record Push {ℓ κ} (P : Type ℓ) (M : Type κ) : Type (ℓ ⊔ κ) where
  pub push : P → Option M → P × Option M
  pub received : P → List (Option M)
  pub received-push : (p : P) (o : Option M) → received (push p o).0 ≡ received p ++ o ∷ []

abbrev pub default_length : ℕ
default_length = 1024

module _ {ℓ κ} {T : Type ℓ} {D : Type κ} where
  abbrev pub new_message : T → Vector D → ℕ → ℕ → Message T D
  new_message time content from seq = record {
    time = time;
    content = content;
    from = from;
    seq = seq;
  }

  -- The buffer after a push, by what the pusher left: a bundle that is not typed counts as `none`.
  abbrev pub reclaimed : Option (Message T D) → Vector D
  reclaimed none = with_capacity 0
  reclaimed (some m) = record { items = []; capacity = m.content.capacity }

  module _ {μ} {P : Type μ} ⦃pusher : Push P (Message T D)⦄ where
    unfoldable pub push_at : Vector D → T → P → P × Vector D
    push_at buffer time p =
        let (q, left) = pusher.push p (some (new_message time buffer 0 0)) in
        let emptied = reclaimed left in
        (q, if emptied.capacity == default_length then emptied else with_capacity default_length)
