-- ===== src/Builder.antt =====
-- `Builder` of timely/src/progress/reachability.rs: the graph that a `Tracker` is made from.
pub mod Targets
pub mod Shaped
use timely_mirror.Prelude.{
  ℕ, zero, suc, ◌+◌, ◌-◌, ◌<◌, ◌≤◌, ◌≡◌, ◌≢◌, refl, sym, subst, ap, ◌∙◌, true, false, Option, none,
  some, List, [], ◌∷◌, ◌++◌, All, length, length-append, get_elem?, set, get_elem?-set_self,
  get_elem?-set_ne, and_then, if◌then◌else◌, ◌&&◌, ltb, ◌==◌, ==_iff, arith, Bool-cases, inl, inr,
  map_option,
}
use timely_mirror.Antichain.{Antichain}
use timely_mirror.Location.{Source, Target}

pub record Builder {κ} (S : Type κ) : Type κ where
  pub nodes : List (List (List (Antichain S)))
  pub edges : List (List (List Target))
  -- The numbers of inputs and outputs of each node.
  pub shape : List (ℕ × ℕ)

-- `vec![Vec::new(); n]`.
unfoldable pub blanks : ℕ → List (List Target)
blanks zero = []
blanks (suc n) = [] ∷ blanks n

module _ {κ} {S : Type κ} where
  unfoldable pub new : Builder S
  new = record { nodes = []; edges = []; shape = [] }

  -- The rounds of the `while` loop that adds nodes: as many as are missing.
  unfoldable pub push_blank : ℕ → Builder S → Builder S
  push_blank zero b = b
  push_blank (suc n) b = push_blank n (record {
    nodes = b.nodes ++ [] ∷ [];
    edges = b.edges ++ [] ∷ [];
    shape = b.shape ++ (0, 0) ∷ [];
  })

  -- The assignments of `add_node`; `none` stands for a panic.
  abbrev pub overwrite : Builder S → ℕ → ℕ → ℕ → List (List (Antichain S)) → Option (Builder S)
  overwrite b index inputs outputs summary = and_then (get_elem? b.nodes index) λ _.
      and_then (get_elem? b.edges index) λ ports.
        map_option
          (λ _. record {
            nodes = set b.nodes index summary;
            edges = if length ports == outputs then b.edges else set b.edges index (blanks outputs);
            shape = set b.shape index (inputs, outputs);
          })
          (get_elem? b.shape index)

  unfoldable pub add_node : Builder S → ℕ → ℕ → ℕ → List (List (Antichain S)) → Option (Builder S)
  unfolding push_blank
  add_node b index inputs outputs summary =
      overwrite (push_blank (index + 1 - length b.nodes) b) index inputs outputs summary

  -- `self.edges[source.node][source.port].push(target)`.
  abbrev pub push_edge : Builder S → Source → Target → Option (Builder S)
  push_edge b source target = and_then (get_elem? b.edges source.node) λ ports.
      map_option
        (λ targets. record b {
          edges = set b.edges source.node (set ports source.port (targets ++ target ∷ []));
        })
        (get_elem? ports source.port)

  -- With the assertions of a debug build, that both ports exist.
  unfoldable pub add_edge : Builder S → Source → Target → Option (Builder S)
  add_edge b source target = and_then (get_elem? b.shape source.node) λ from.
      and_then (get_elem? b.shape target.node) λ to.
        if ltb source.port from.1 && ltb target.port to.0 then push_edge b source target else none
