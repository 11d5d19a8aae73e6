-- ===== src/Reachability/Arrivals/Nodes.antt =====
-- How often the summaries of a node lead to a time at one of its outputs: the loops over the outputs and
-- their summaries in `propagate_all`, timely/src/progress/reachability.rs, pass on just that.
use timely_mirror.Prelude.{
  ℕ, zero, suc, ◌+◌, ◌%◌, ◌≤◌, ◌≡◌, ◌≢◌, refl, subst, ap, ◌∙◌, Bool, true, false, Option, none,
  some, List, [], ◌∷◌, ◌++◌, map, get_elem?, arith, Bool-cases, inl, inr,
}
use timely_mirror.Order.{Eq, nat_eq}
use timely_mirror.Order.Derived.{tuple_eq}
use timely_mirror.Int64.{wrapping_add, modulus}
use timely_mirror.Updates.{Updates, each, count}
use timely_mirror.Updates.Counts.{count-append, count-lt}
use timely_mirror.Timestamp.{PathSummary}
use timely_mirror.Antichain.{Antichain}
use timely_mirror.Location.{Location, new_source, location_eq, target_eq, port_parts}
use timely_mirror.Reachability.Loops.{results_of, node_successors}
use timely_mirror.Reachability.Arrivals.{one_if, sum_of, elements_of, leads, ways}

each-append {ℓ} : {A : Type ℓ} (xs ys : List A) → each (xs ++ ys) 1 ≡ each xs 1 ++ each ys 1
each-append [] ys = refl
each-append (x ∷ xs) ys = ap (λ zs. (x, 1) ∷ zs) (each-append xs ys)

pub port_of_source : {n m i j : ℕ} → new_source n i ≡ new_source m j → i ≡ j
port_of_source h = ap (λ (l : Location). (port_parts l.port).inner) h

pub variant_of : {l k : Location} → l ≡ k → (port_parts l.port).outer ≡ (port_parts k.port).outer
variant_of h = ap (λ (l : Location). (port_parts l.port).outer) h

zeros : wrapping_add 0 0 ≡ 0
unfolding wrapping_add
zeros = omega arith

-- What does not hit the place counts nothing.
pub count-miss {κ ℓ} :
    {X : Type κ} {Y : Type ℓ} ⦃d : Eq Y⦄ (y : Y) (f : X → Y) (xs : List X)
    → ((x : X) → f x ≢ y)
    → count y (each (map f xs) 1) ≡ 0
unfolding count wrapping_add
count-miss y f [] h = refl
count-miss ⦃d⦄ y f (x ∷ xs) h = elim (Bool-cases (d.eq (f x) y)) [
  | inl same ↦ absurd (h x ((d.eq_iff (f x) y).0 same))
  | inr other ↦ rw other (count-miss y f xs h)
]

count-cons {ℓ} :
    {Y : Type ℓ} ⦃d : Eq Y⦄ (y z : Y) (b : Bool) (us : Updates Y)
    → d.eq z y ≡ b
    → count y ((z, 1) ∷ us) ≡ wrapping_add (one_if b) (count y us)
unfolding count wrapping_add
count-cons y z true us h = rw h refl
count-cons y z false us h = rw h (omega (arith, count-lt y us))

-- What hits the place exactly when a test holds counts how often it does.
pub count-hits {κ ℓ} :
    {X : Type κ} {Y : Type ℓ} ⦃d : Eq Y⦄ (y : Y) (f : X → Y) (test : X → Bool) (xs : List X)
    → ((x : X) → d.eq (f x) y ≡ test x)
    → count y (each (map f xs) 1) ≡ sum_of (λ x. one_if (test x)) xs % modulus
unfolding count wrapping_add
count-hits y f test [] h = omega arith
count-hits y f test (x ∷ xs) h = rw (h x) (ground (arith, count-hits y f test xs h))

module _ {κ ℓ} {S : Type κ} {T : Type ℓ} ⦃e : Eq T⦄ (path : PathSummary S T) where
  -- The results of the summaries of one output are counted by `ways`.
  count-results_of :
      (summaries : List S) (before after : T) (k : Location)
      → count {A = T × Location}
          (after, k)
          (each (map (λ time. (time, k)) (results_of path summaries before)) 1)
        ≡ ways path summaries before after % modulus
  unfolding results_of count wrapping_add
  count-results_of [] before after k = omega arith
  count-results_of (summary ∷ rest) before after k =
      by_result (path.results_in summary before) (count-results_of rest before after k)
    where
      by_result :
          (found : Option T)
          → count {A = T × Location}
              (after, k)
              (each (map (λ time. (time, k)) (results_of path rest before)) 1)
            ≡ ways path rest before after % modulus
          → count {A = T × Location}
              (after, k)
              (each
                (map
                  (λ time. (time, k))
                  (elim found [
                    | none ↦ results_of path rest before
                    | some out_time ↦ out_time ∷ results_of path rest before
                  ]))
                1)
            ≡ (one_if (leads path found after) + ways path rest before after) % modulus
      by_result none h = ground (arith, h)
      by_result (some out_time) h = omega (
        arith,
        h,
        count-cons {Y = T × Location} (after, k) (out_time, k) (e.eq out_time after)
            (each (map (λ time. (time, k)) (results_of path rest before)) 1)
            (rw ((location_eq.eq_iff k k).1 refl) (ground arith)),
      )

  count-node_successors_cons :
      (node j : ℕ) (summaries : Antichain S) (rest : List (Antichain S)) (before after : T)
      (k : Location)
      → count {A = T × Location}
          (after, k)
          (each (node_successors path node j (summaries ∷ rest) before) 1)
        ≡ wrapping_add
            (count {A = T × Location}
              (after, k)
              (each
                (map
                  (λ time. (time, new_source node j))
                  (results_of path summaries.elements before))
                1))
            (count {A = T × Location}
              (after, k)
              (each (node_successors path node (suc j) rest before) 1))
  unfolding node_successors
  count-node_successors_cons node j summaries rest before after k =
      ap (count {A = T × Location} (after, k)) (
        each-append
          (map (λ time. (time, new_source node j)) (results_of path summaries.elements before))
          (node_successors path node (suc j) rest before))
      ∙ count-append (after, k) _ (each (node_successors path node (suc j) rest before) 1)

  -- Nothing reaches a location that no output from the given one on is.
  pub count-node_successors_miss :
      (node j : ℕ) (outputs : List (Antichain S)) (before after : T) (k : Location)
      → ((i : ℕ) → j ≤ i → new_source node i ≢ k)
      → count {A = T × Location} (after, k) (each (node_successors path node j outputs before) 1)
        ≡ 0
  unfolding node_successors count
  count-node_successors_miss node j [] before after k h = refl
  count-node_successors_miss node j (summaries ∷ rest) before after k h =
      count-node_successors_cons node j summaries rest before after k
      ∙ rw
          (
            count-miss (after, k) (λ time. (time, new_source node j))
                (results_of path summaries.elements before)
                (λ x q. h j (omega arith) (ap (λ (y : T × Location). y.1) q)),
            count-node_successors_miss node (suc j) rest before after k
                (λ i le. h i (omega (arith, le))),
          )
          zeros

  -- What the summaries of an output lead to arrives at that output.
  pub count-node_successors :
      (node j i m : ℕ) (outputs : List (Antichain S)) (before after : T)
      → m ≡ j + i
      → count {A = T × Location}
          (after, new_source node m)
          (each (node_successors path node j outputs before) 1)
        ≡ ways path (elements_of (get_elem? outputs i)) before after % modulus
  unfolding node_successors count wrapping_add
  count-node_successors node j i m [] before after q = omega arith
  count-node_successors node j zero m (summaries ∷ rest) before after q =
      let same : m ≡ j = omega (arith, q) in
      let first =
        subst
          (λ x.
            count {A = T × Location} (after, new_source node m)
              (each
                (map (λ time. (time, new_source node x))
                  (results_of path summaries.elements before))
                1)
            ≡ ways path summaries.elements before after % modulus)
          (same) (count-results_of summaries.elements before after (new_source node m)) in
      omega (
        arith,
        count-node_successors_cons node j summaries rest before after (new_source node m),
        first,
        count-node_successors_miss node (suc j) rest before after (new_source node m)
            (λ i' le same. omega (arith, le, q, port_of_source same)),
      )
  count-node_successors node j (suc i) m (summaries ∷ rest) before after q = omega (
    arith,
    count-node_successors_cons node j summaries rest before after (new_source node m),
    count-miss {Y = T × Location} (after, new_source node m) (λ time. (time, new_source node j))
        (results_of path summaries.elements before)
        (λ x same. omega (arith, q, port_of_source (ap (λ (y : T × Location). y.1) same))),
    count-node_successors node (suc j) i m rest before after (omega (arith, q)),
  )
