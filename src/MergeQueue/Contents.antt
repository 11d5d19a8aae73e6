-- ===== src/MergeQueue/Contents.antt =====
-- The bytes of slices, and that a merged slice has the bytes of both.
use timely_mirror.Prelude.{
  ℕ, zero, suc, ◌+◌, ◌≡◌, refl, sym, ap, ap₂, ◌∙◌, List, [], ◌∷◌, ◌++◌, take, drop, arith,
}
use mathlib.Core.List.{append_assoc}
use timely_mirror.Bytes.{Memory, Bytes, contents_of, deref}

-- The bytes of slices, one after the other.
abbrev pub stream : Memory → List Bytes → List ℕ
stream m [] = []
stream m (b ∷ bs) = deref m b ++ stream m bs

pub stream-append :
    (m : Memory) (bs cs : List Bytes) → stream m (bs ++ cs) ≡ stream m bs ++ stream m cs
stream-append m [] cs = refl
stream-append m (b ∷ bs) cs =
    ap (λ xs. deref m b ++ xs) (stream-append m bs cs)
    ∙ sym (append_assoc (deref m b) (stream m bs) (stream m cs))

-- Both memories hold the same bytes.
abbrev pub HaveSame : Memory → Memory → Type 0
HaveSame m n = (a : ℕ) → contents_of n a ≡ contents_of m a

pub deref-HaveSame : (m n : Memory) (b : Bytes) → HaveSame m n → deref n b ≡ deref m b
unfolding deref
deref-HaveSame m n b same = ap (λ xs. take b.len (drop b.ptr xs)) (same b.sequestered)

pub stream-HaveSame : (m n : Memory) (bs : List Bytes) → HaveSame m n → stream n bs ≡ stream m bs
stream-HaveSame m n [] same = refl
stream-HaveSame m n (b ∷ bs) same =
    ap₂ ◌++◌ (deref-HaveSame m n b same) (stream-HaveSame m n bs same)

take-sum {ℓ} :
    {A : Type ℓ} (j a b : ℕ) (xs : List A) → j ≡ a + b → take j xs ≡ take a xs ++ take b (drop a xs)
take-sum j zero b xs h = ap (λ k. take k xs) (let same : j ≡ b = omega arith in same)
take-sum zero (suc a) b xs h = absurd (omega arith)
take-sum (suc j) (suc a) zero [] h = refl
take-sum (suc j) (suc a) (suc b) [] h = refl
take-sum (suc j) (suc a) b (x ∷ xs) h = ap (◌∷◌ x) (take-sum j a b xs (omega arith))

drop-sum {ℓ} : {A : Type ℓ} (j a b : ℕ) (xs : List A) → j ≡ a + b → drop b (drop a xs) ≡ drop j xs
drop-sum j zero b xs h = ap (λ k. drop k xs) (let same : b ≡ j = omega arith in same)
drop-sum zero (suc a) b xs h = absurd (omega arith)
drop-sum (suc j) (suc a) zero [] h = refl
drop-sum (suc j) (suc a) (suc b) [] h = refl
drop-sum (suc j) (suc a) b (x ∷ xs) h = drop-sum j a b xs (omega arith)

-- A merged slice has the bytes of both.
pub deref-merged :
    (m : Memory) (h g : Bytes)
    → h.sequestered ≡ g.sequestered
    → h.ptr + h.len ≡ g.ptr
    → deref m (record h { len = h.len + g.len }) ≡ deref m h ++ deref m g
unfolding deref
deref-merged m h g same next =
    take-sum (h.len + g.len) h.len g.len (drop h.ptr (contents_of m h.sequestered)) refl
    ∙ ap (λ xs. take h.len (drop h.ptr (contents_of m h.sequestered)) ++ take g.len xs)
        (drop-sum g.ptr h.ptr h.len (contents_of m h.sequestered) (sym next)
          ∙ ap (λ a. drop g.ptr (contents_of m a)) same)
