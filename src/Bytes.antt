-- ===== src/Bytes.antt =====
-- bytes/src/lib.rs: slices of shared allocations, over a memory of allocations.
pub mod Store
pub mod Slices
pub mod Live
pub mod Picked
pub mod Split
pub mod Sound
pub mod Steps
pub mod Merge
use timely_mirror.Prelude.{
  ℕ, zero, suc, ◌+◌, ◌-◌, Bool, true, false, Option, none, some, List, [], ◌∷◌, ◌++◌, ◌==◌, ◌&&◌,
  if◌then◌else◌, leb, ltb, length, take, drop, set,
}

-- What an `Arc<dyn Any>` points to: the bytes, the type that they have behind `dyn Any`, and the
-- number of `Arc`s.
pub record Allocation : Type 0 where
  pub contents : List ℕ
  pub type_id : ℕ
  pub count : ℕ

-- An allocation is known by its position.
abbrev pub Memory : Type 0
Memory = List Allocation

-- `ptr` is an offset into the allocation, which does not move while it is shared.
pub record Bytes : Type 0 where
  pub ptr : ℕ
  pub len : ℕ
  pub sequestered : ℕ

abbrev pub change : (Allocation → Allocation) → Memory → ℕ → Memory
change f [] a = []
change f (c ∷ m) zero = f c ∷ m
change f (c ∷ m) (suc a) = c ∷ change f m a

abbrev pub count_of : Memory → ℕ → ℕ
count_of [] a = 0
count_of (c ∷ m) zero = c.count
count_of (c ∷ m) (suc a) = count_of m a

abbrev pub type_of : Memory → ℕ → ℕ
type_of [] a = 0
type_of (c ∷ m) zero = c.type_id
type_of (c ∷ m) (suc a) = type_of m a

abbrev pub contents_of : Memory → ℕ → List ℕ
contents_of [] a = []
contents_of (c ∷ m) zero = c.contents
contents_of (c ∷ m) (suc a) = contents_of m a

-- `Arc::clone`, and the end of an `Arc`.
abbrev pub retain_arc : Memory → ℕ → Memory
retain_arc = change (λ c. record c { count = suc c.count })

abbrev pub release_arc : Memory → ℕ → Memory
release_arc = change (λ c. record c { count = c.count - 1 })

unfoldable pub from : ℕ → List ℕ → Memory → Memory × Bytes
from type_id bytes m = (
  m ++ record { contents = bytes; type_id = type_id; count = 1 } ∷ [],
  record { ptr = 0; len = length bytes; sequestered = length m },
)

-- The new slice, and what is left of `self`; `none` is the failed assertion.
unfoldable pub extract_to : Memory → Bytes → ℕ → Option (Memory × Bytes × Bytes)
extract_to m self index =
    if leb index self.len
    then some (
      retain_arc m self.sequestered,
      record self { len = index },
      record self { ptr = self.ptr + index; len = self.len - index },
    )
    else none

-- `self` and whether it was regenerated; `none` is the failed downcast.
unfoldable pub try_regenerate : ℕ → Memory → Bytes → Option (Bytes × Bool)
try_regenerate type_id m self =
    if count_of m self.sequestered == 1
    then (if type_of m self.sequestered == type_id
        then some (record self { ptr = 0; len = length (contents_of m self.sequestered) }, true)
        else none)
    else some (self, false)

-- `self`, and `other` where the result is `Err(other)`; else `other` has come to its end.
unfoldable pub try_merge : Memory → Bytes → Bytes → Memory × Bytes × Option Bytes
try_merge m self other =
    if self.sequestered == other.sequestered && self.ptr + self.len == other.ptr
    then (release_arc m other.sequestered, record self { len = self.len + other.len }, none)
    else (m, self, some other)

unfoldable pub drop_bytes : Memory → Bytes → Memory
drop_bytes m self = release_arc m self.sequestered

unfoldable pub deref : Memory → Bytes → List ℕ
deref m self = take self.len (drop self.ptr (contents_of m self.sequestered))

-- `self[index] = byte` by `deref_mut`; `none` is the panic on an index out of range.
unfoldable pub write_byte : Memory → Bytes → ℕ → ℕ → Option Memory
write_byte m self index byte =
    if ltb index self.len
    then some (
        change (λ c. record c { contents = set c.contents (self.ptr + index) byte }) m
          self.sequestered)
    else none
