-- ===== src/Bytes/Store.antt =====
-- What a change of one allocation leaves of the counts and contents.
use timely_mirror.Prelude.{
  ℕ, zero, suc, ◌-◌, ◌≤◌, ◌<◌, ◌≡◌, ◌≢◌, refl, sym, ap, [], ◌∷◌, ◌++◌, length, set, arith,
}
use timely_mirror.Bytes.{Allocation, Memory, change, count_of, contents_of, retain_arc, release_arc}

module _ (f : Allocation → Allocation) where
  pub length-change : (m : Memory) (a : ℕ) → length (change f m a) ≡ length m
  length-change [] a = refl
  length-change (c ∷ m) zero = refl
  length-change (c ∷ m) (suc a) = ap suc (length-change m a)

  pub count_of-change_ne : (m : Memory) (a b : ℕ) → a ≢ b → count_of (change f m a) b ≡ count_of m b
  count_of-change_ne [] a b h = refl
  count_of-change_ne (c ∷ m) zero zero h = absurd (h refl)
  count_of-change_ne (c ∷ m) zero (suc b) h = refl
  count_of-change_ne (c ∷ m) (suc a) zero h = refl
  count_of-change_ne (c ∷ m) (suc a) (suc b) h = count_of-change_ne m a b (λ e. h (ap suc e))

  pub contents_of-change_ne :
      (m : Memory) (a b : ℕ) → a ≢ b → contents_of (change f m a) b ≡ contents_of m b
  contents_of-change_ne [] a b h = refl
  contents_of-change_ne (c ∷ m) zero zero h = absurd (h refl)
  contents_of-change_ne (c ∷ m) zero (suc b) h = refl
  contents_of-change_ne (c ∷ m) (suc a) zero h = refl
  contents_of-change_ne (c ∷ m) (suc a) (suc b) h = contents_of-change_ne m a b (λ e. h (ap suc e))

  -- A change that keeps the contents, or the count, of any allocation keeps those of all.
  pub contents_of-change_same :
      ((c : Allocation) → (f c).contents ≡ c.contents)
      → (m : Memory) (a b : ℕ) → contents_of (change f m a) b ≡ contents_of m b
  contents_of-change_same h [] a b = refl
  contents_of-change_same h (c ∷ m) zero zero = h c
  contents_of-change_same h (c ∷ m) zero (suc b) = refl
  contents_of-change_same h (c ∷ m) (suc a) zero = refl
  contents_of-change_same h (c ∷ m) (suc a) (suc b) = contents_of-change_same h m a b

  pub length-contents_of-change :
      ((c : Allocation) → length (f c).contents ≡ length c.contents)
      → (m : Memory) (a b : ℕ) → length (contents_of m b) ≡ length (contents_of (change f m a) b)
  length-contents_of-change h [] a b = refl
  length-contents_of-change h (c ∷ m) zero zero = sym (h c)
  length-contents_of-change h (c ∷ m) zero (suc b) = refl
  length-contents_of-change h (c ∷ m) (suc a) zero = refl
  length-contents_of-change h (c ∷ m) (suc a) (suc b) = length-contents_of-change h m a b

  pub count_of-change_same :
      ((c : Allocation) → (f c).count ≡ c.count)
      → (m : Memory) (a b : ℕ) → count_of (change f m a) b ≡ count_of m b
  count_of-change_same h [] a b = refl
  count_of-change_same h (c ∷ m) zero zero = h c
  count_of-change_same h (c ∷ m) zero (suc b) = refl
  count_of-change_same h (c ∷ m) (suc a) zero = refl
  count_of-change_same h (c ∷ m) (suc a) (suc b) = count_of-change_same h m a b

pub count_of-retain_arc :
    (m : Memory) (a : ℕ) → a < length m → count_of (retain_arc m a) a ≡ suc (count_of m a)
count_of-retain_arc [] a h = absurd (omega arith)
count_of-retain_arc (c ∷ m) zero h = refl
count_of-retain_arc (c ∷ m) (suc a) h = count_of-retain_arc m a (omega arith)

pub count_of-release_arc : (m : Memory) (a : ℕ) → count_of (release_arc m a) a ≡ count_of m a - 1
count_of-release_arc [] a = omega arith
count_of-release_arc (c ∷ m) zero = refl
count_of-release_arc (c ∷ m) (suc a) = count_of-release_arc m a

pub release_arc-retain_arc : (m : Memory) (a : ℕ) → release_arc (retain_arc m a) a ≡ m
release_arc-retain_arc [] a = refl
release_arc-retain_arc (c ∷ m) zero =
    ap (λ n. record c { count = n } ∷ m)
      (let same : suc c.count - 1 ≡ c.count = omega arith in same)
release_arc-retain_arc (c ∷ m) (suc a) = ap (◌∷◌ c) (release_arc-retain_arc m a)

pub count_of-behind : (m : Memory) (c : Allocation) → count_of (m ++ c ∷ []) (length m) ≡ c.count
count_of-behind [] c = refl
count_of-behind (d ∷ m) c = count_of-behind m c

pub contents_of-behind :
    (m : Memory) (c : Allocation) → contents_of (m ++ c ∷ []) (length m) ≡ c.contents
contents_of-behind [] c = refl
contents_of-behind (d ∷ m) c = contents_of-behind m c

pub count_of-before :
    (m : Memory) (c : Allocation) (a : ℕ) → a ≢ length m → count_of (m ++ c ∷ []) a ≡ count_of m a
count_of-before [] c zero h = absurd (h refl)
count_of-before [] c (suc a) h = refl
count_of-before (d ∷ m) c zero h = refl
count_of-before (d ∷ m) c (suc a) h = count_of-before m c a (λ e. h (ap suc e))

pub contents_of-before :
    (m : Memory) (c : Allocation) (a : ℕ)
    → a ≢ length m
    → contents_of (m ++ c ∷ []) a ≡ contents_of m a
contents_of-before [] c zero h = absurd (h refl)
contents_of-before [] c (suc a) h = refl
contents_of-before (d ∷ m) c zero h = refl
contents_of-before (d ∷ m) c (suc a) h = contents_of-before m c a (λ e. h (ap suc e))

pub count_of-beyond : (m : Memory) (a : ℕ) → length m ≤ a → count_of m a ≡ 0
count_of-beyond [] a h = refl
count_of-beyond (c ∷ m) zero h = absurd (omega arith)
count_of-beyond (c ∷ m) (suc a) h = count_of-beyond m a (omega arith)

abbrev pub write_at : Memory → ℕ → ℕ → ℕ → Memory
write_at m a i byte = change (λ c. record c { contents = set c.contents i byte }) m a

pub contents_of-write_at :
    (m : Memory) (a i byte : ℕ) → contents_of (write_at m a i byte) a ≡ set (contents_of m a) i byte
contents_of-write_at [] a i byte = refl
contents_of-write_at (c ∷ m) zero i byte = refl
contents_of-write_at (c ∷ m) (suc a) i byte = contents_of-write_at m a i byte
