-- ===== src/Tests/Builders.antt =====
-- The graph of the documentation of `Builder`: three nodes with one input and one output each.
use timely_mirror.Prelude.{
  none, ◌++◌, if◌then◌else◌, ◌&&◌, ◌==◌, ◌≡◌, refl, subst, some, List, [], ◌∷◌, ℕ, arith,
}
use timely_mirror.Antichain.{Antichain}
use timely_mirror.Antichain
use timely_mirror.Builder.{Builder, blanks, new, push_blank, add_node, add_edge}
use timely_mirror.Builder.Targets.{targets_of}
use timely_mirror.Builder.Shaped.{IsShaped, new-IsShaped, add_node-IsShaped, add_edge-IsShaped}
use timely_mirror.Location.{Target}

abbrev step_by : ℕ → List (List (Antichain ℕ))
step_by n = (Antichain.from_elem n ∷ []) ∷ []

add_node-IsShaped_example : (b : Builder ℕ) × (add_node new 2 1 1 (step_by 1) ≡ some b) × IsShaped b
add_node-IsShaped_example = add_node-IsShaped new 2 1 1 (step_by 1) new-IsShaped refl (refl, tt)

abbrev one_node : Builder ℕ
one_node = record { nodes = step_by 0 ∷ []; edges = ([] ∷ []) ∷ []; shape = (1, 1) ∷ [] }

-- Adding the first node.
add_node-one_node : add_node new 0 1 1 (step_by 0) ≡ some one_node
unfolding add_node new push_blank blanks
add_node-one_node = refl

one_node-IsShaped : IsShaped one_node
one_node-IsShaped =
    let (b, runs, shaped) = add_node-IsShaped new 0 1 1 (step_by 0) new-IsShaped refl (refl, tt) in
    let same : b ≡ one_node = cc (runs, add_node-one_node) in subst IsShaped same shaped

abbrev loop : Target
loop = record { node = 0; port = 0 }

add_edge-IsShaped_example :
    (b : Builder ℕ) × (add_edge one_node (record { node = 0; port = 0 }) loop ≡ some b)
    × IsShaped b
    × (b.nodes ≡ one_node.nodes)
    × (b.shape ≡ one_node.shape)
    × (old : List Target) × (targets_of one_node 0 0 ≡ some old)
    × ((node port : ℕ)
        → targets_of b node port ≡ (
            if 0 == node && 0 == port
            then some (old ++ loop ∷ [])
            else targets_of one_node node port))
add_edge-IsShaped_example =
    add_edge-IsShaped one_node (record { node = 0; port = 0 }) loop (1, 1) (1, 1) one_node-IsShaped
      refl (omega arith) (omega arith) refl (omega arith)

-- Without the port that it leads to, no edge is added.
add_edge-missing_target :
    add_edge one_node (record { node = 0; port = 0 }) (record { node = 0; port = 1 }) ≡ none
unfolding add_edge
add_edge-missing_target = refl
