-- ===== src/Reachability/Ports.antt =====
-- Reading and writing the information on a port of a `Tracker`.
use timely_mirror.Prelude.{
  ◌≡◌, ◌≢◌, refl, sym, ap, ◌∙◌, Option, none, some, List, get_elem?, set, get_elem?-set_self,
  get_elem?-set_ne, and_then, arith, Bool-cases, inl, inr, ap₂, ◌==◌, ==_iff,
}
use timely_mirror.Location.{Location, Port, target, source}
use timely_mirror.Reachability.{
  PortInformation, PerOperator, port_of, set_port_of, port_at, set_port,
}

module _ {κ ℓ} {S : Type κ} {T : Type ℓ} where
  -- The location has a port.
  abbrev pub HasPort : List (PerOperator S T) → Location → Type (ℓ ⊔ κ)
  HasPort ops l = (info : PortInformation S T) × (port_at ops l ≡ some info)

  port_of-set_port_of_self :
      (op : PerOperator S T) (q : Port) (info old : PortInformation S T)
      → port_of op q ≡ some old
      → port_of (set_port_of op q info) q ≡ some info
  port_of-set_port_of_self op (target n) info old h = get_elem?-set_self op.targets n info old h
  port_of-set_port_of_self op (source n) info old h = get_elem?-set_self op.sources n info old h

  port_of-set_port_of_other :
      (op : PerOperator S T) (q r : Port) (info : PortInformation S T)
      → q ≢ r
      → port_of (set_port_of op q info) r ≡ port_of op r
  port_of-set_port_of_other op (target n) (target m) info ne =
      get_elem?-set_ne op.targets n m info (λ h. ne (ap target h))
  port_of-set_port_of_other op (target n) (source m) info ne = refl
  port_of-set_port_of_other op (source n) (target m) info ne = refl
  port_of-set_port_of_other op (source n) (source m) info ne =
      get_elem?-set_ne op.sources n m info (λ h. ne (ap source h))

  pub port_at-set_port_self :
      (ops : List (PerOperator S T)) (l : Location) (info old : PortInformation S T)
      → port_at ops l ≡ some old
      → port_at (set_port ops l info) l ≡ some info
  unfolding port_at set_port
  port_at-set_port_self ops l info old h = by_operator (get_elem? ops l.node) refl
    where
      by_operator :
          (found : Option (PerOperator S T))
          → get_elem? ops l.node ≡ found
          → port_at (set_port ops l info) l ≡ some info
      by_operator none q = absurd (cc (q, h))
      by_operator (some op) q =
          let found : port_of op l.port ≡ some old = cc (q, h) in
          rw q (
            rw (get_elem?-set_self ops l.node (set_port_of op l.port info) op q)
              (port_of-set_port_of_self op l.port info old found))

  pub port_at-set_port_other :
      (ops : List (PerOperator S T)) (l k : Location) (info : PortInformation S T)
      → l ≢ k
      → port_at (set_port ops l info) k ≡ port_at ops k
  unfolding port_at set_port
  port_at-set_port_other ops l k info ne = by_operator (get_elem? ops l.node) refl
    where
      by_operator :
          (found : Option (PerOperator S T))
          → get_elem? ops l.node ≡ found
          → port_at (set_port ops l info) k ≡ port_at ops k
      by_operator none q = rw q
      by_operator (some op) q = elim (Bool-cases (l.node == k.node)) [
        | inl same ↦
            let same_node = (==_iff l.node k.node).0 same in
            let other_port : l.port ≢ k.port = λ h.
              ne (ap₂ (λ n r. let x : Location = record { node = n; port = r } in x) same_node h) in
            rw q (
              ap
                (λ i.
                  and_then (get_elem? (set ops l.node (set_port_of op l.port info)) i)
                    (λ x. port_of x k.port))
                (sym same_node)
              ∙ rw (get_elem?-set_self ops l.node (set_port_of op l.port info) op q) (
                  port_of-set_port_of_other op l.port k.port info other_port
                  ∙ ap (λ x. and_then x (λ y. port_of y k.port)) (sym q)
                  ∙ ap (λ i. and_then (get_elem? ops i) (λ x. port_of x k.port)) same_node))
        | inr other ↦ rw (
          q,
          get_elem?-set_ne ops l.node k.node (set_port_of op l.port info)
              (λ h. ground (arith, (==_iff l.node k.node).1 h)),
        )
      ]
