-- ===== src/Builder/Targets.antt =====
-- The targets of the edges from one source of a `Builder`, and `add_edge`, which pushes to them.
use timely_mirror.Prelude.{
  ℕ, ◌≡◌, ◌≢◌, refl, subst, some, List, ◌⊎◌, if◌then◌else◌, ◌&&◌, Option, and_then, true, false,
  get_elem?, set, get_elem?-set_self, get_elem?-set_ne, ◌==◌, ==_iff, arith, Bool-cases, inl, inr,
}
use timely_mirror.Location.{Target}
use timely_mirror.Builder.{Builder}

module _ {κ} {S : Type κ} where
  -- The targets of the edges from a source.
  abbrev pub targets_of : Builder S → ℕ → ℕ → Option (List Target)
  targets_of b node port = and_then (get_elem? b.edges node) (λ ports. get_elem? ports port)

  -- Replacing the targets of one source replaces nothing else.
  pub targets_of-set :
      (b : Builder S) (i j : ℕ) (ports : List (List Target)) (old targets : List Target)
      → get_elem? b.edges i ≡ some ports
      → get_elem? ports j ≡ some old
      → (node port : ℕ)
      → targets_of (record b { edges = set b.edges i (set ports j targets) }) node port
        ≡ (if i == node && j == port then some targets else targets_of b node port)
  targets_of-set b i j ports old targets found inner node port = elim (Bool-cases (i == node)) [
    | inr other ↦
        let ne : i ≢ node = λ same. ground (arith, (==_iff i node).1 same) in
        rw (get_elem?-set_ne b.edges i node (set ports j targets) ne, other) refl
    | inl same ↦
        subst
          (λ n.
            targets_of (record b { edges = set b.edges i (set ports j targets) }) n port
            ≡ (if i == n && j == port then some targets else targets_of b n port))
          ((==_iff i node).0 same) (at_node (Bool-cases (j == port)))
  ]
    where
      at_node :
          ((j == port) ≡ true) ⊎ ((j == port) ≡ false)
          → targets_of (record b { edges = set b.edges i (set ports j targets) }) i port
            ≡ (if i == i && j == port then some targets else targets_of b i port)
      at_node (inl here_too) =
          rw
            (
              get_elem?-set_self b.edges i (set ports j targets) ports found,
              (==_iff i i).1 refl,
              here_too,
            )
            (subst (λ p. get_elem? (set ports j targets) p ≡ some targets)
              ((==_iff j port).0 here_too) (get_elem?-set_self ports j targets old inner))
      at_node (inr elsewhere) =
          let ne : j ≢ port = λ same. ground (arith, (==_iff j port).1 same) in
          rw
            (
              get_elem?-set_self b.edges i (set ports j targets) ports found,
              (==_iff i i).1 refl,
              elsewhere,
              found,
            )
            (get_elem?-set_ne ports j port targets ne)
