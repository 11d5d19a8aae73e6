-- ===== src/Builder/Shaped.antt =====
-- The three vectors of a `Builder` agree on how many ports each node has.
use timely_mirror.Prelude.{
  ℕ, zero, suc, ◌+◌, ◌-◌, ◌<◌, ◌≡◌, ◌≢◌, refl, sym, subst, ap, ◌∙◌, some, List, [], ◌∷◌, ◌++◌, All,
  if◌then◌else◌, ◌&&◌, ltb, true, length, length-append, length-set, get_elem?, set,
  get_elem?-set_self, get_elem?-set_ne, get_elem?-of_lt, get_elem?-snoc_self, get_elem?-snoc_ne,
  set_same, ◌==◌, ==_iff, arith, Bool-cases, inl, inr,
}
use timely_mirror.Antichain.{Antichain}
use timely_mirror.Location.{Source, Target}
use timely_mirror.Builder.Targets.{targets_of, targets_of-set}
use timely_mirror.Builder.{Builder, blanks, new, push_blank, add_node, add_edge}

length-blanks : (n : ℕ) → length (blanks n) ≡ n
unfolding blanks
length-blanks zero = refl
length-blanks (suc n) = ap suc (length-blanks n)

module _ {κ} {S : Type κ} where
  -- A node's summaries and edges have the numbers of its inputs and outputs.
  abbrev pub IsShapedNode : List (List (Antichain S)) → List (List Target) → ℕ × ℕ → Type 0
  IsShapedNode summary ports shape =
      (length summary ≡ shape.0)
      × All (λ row. length row ≡ shape.1) summary
      × (length ports ≡ shape.1)

  -- The vectors have one length, and all nodes are shaped.
  pub record IsShaped (b : Builder S) : Type κ where
    pub as_many_edges : length b.edges ≡ length b.nodes
    pub as_many_shapes : length b.shape ≡ length b.nodes
    pub shaped :
        (i : ℕ) (n : List (List (Antichain S))) (e : List (List Target)) (s : ℕ × ℕ)
        → get_elem? b.nodes i ≡ some n
        → get_elem? b.edges i ≡ some e
        → get_elem? b.shape i ≡ some s
        → IsShapedNode n e s

  -- What three lookups have in common, if their results are shaped.
  shaped_at :
      (n n' : List (List (Antichain S))) (e e' : List (List Target)) (s s' : ℕ × ℕ)
      → some n ≡ some n'
      → some e ≡ some e'
      → some s ≡ some s'
      → IsShapedNode n e s
      → IsShapedNode n' e' s'
  shaped_at n n' e e' s s' p q r h =
      let a : n ≡ n' = cc p in
      let b : e ≡ e' = cc q in
      let c : s ≡ s' = cc r in
      subst (λ x. IsShapedNode x e' s') a
        (subst (λ x. IsShapedNode n x s') b (subst (λ x. IsShapedNode n e x) c h))

  pub new-IsShaped : IsShaped new
  unfolding new
  new-IsShaped = record {
    as_many_edges = refl;
    as_many_shapes = refl;
    shaped = λ i n e s p q r. absurd (cc p);
  }

  push_blank-IsShaped :
      (k : ℕ) (b : Builder S)
      → IsShaped b
      → IsShaped (push_blank k b) × (length (push_blank k b).nodes ≡ k + length b.nodes)
  unfolding push_blank
  push_blank-IsShaped zero b h = (h, omega arith)
  push_blank-IsShaped (suc k) b h =
      let (shaped, size) = push_blank-IsShaped k longer step in
      (shaped, omega (arith, size, length-append b.nodes ([] ∷ [])))
    where
      longer : Builder S
      longer = record {
        nodes = b.nodes ++ [] ∷ [];
        edges = b.edges ++ [] ∷ [];
        shape = b.shape ++ (0, 0) ∷ [];
      }

      step : IsShaped longer
      step = record {
        as_many_edges = omega (
          arith,
          h.as_many_edges,
          length-append b.nodes ([] ∷ []),
          length-append b.edges ([] ∷ []),
        );
        as_many_shapes = omega (
          arith,
          h.as_many_shapes,
          length-append b.nodes ([] ∷ []),
          length-append b.shape ((0, 0) ∷ []),
        );
        shaped = λ i n e s p q r. elim (Bool-cases (i == length b.nodes)) [
          | inl last ↦
              let here_too : i ≡ length b.nodes = (==_iff i (length b.nodes)).0 last in
              shaped_at [] n [] e (0, 0) s
                (sym (get_elem?-snoc_self b.nodes [])
                  ∙ ap (get_elem? (b.nodes ++ [] ∷ [])) (sym here_too)
                  ∙ p)
                (sym (get_elem?-snoc_self b.edges [])
                  ∙ ap (get_elem? (b.edges ++ [] ∷ [])) (h.as_many_edges ∙ sym here_too)
                  ∙ q)
                (sym (get_elem?-snoc_self b.shape (0, 0))
                  ∙ ap (get_elem? (b.shape ++ (0, 0) ∷ [])) (h.as_many_shapes ∙ sym here_too)
                  ∙ r)
                (refl, tt, refl)
          | inr earlier ↦
              let ne : i ≢ length b.nodes =
                λ same. ground (arith, (==_iff i (length b.nodes)).1 same) in
              h.shaped i n e s (sym (get_elem?-snoc_ne b.nodes [] i ne) ∙ p)
                (sym (get_elem?-snoc_ne b.edges [] i (λ same. ne (same ∙ h.as_many_edges))) ∙ q)
                (sym (get_elem?-snoc_ne b.shape (0, 0) i (λ same. ne (same ∙ h.as_many_shapes)))
                  ∙ r)
        ];
      }

  -- Replacing what stands at one index by something shaped.
  replaced-IsShaped :
      (b : Builder S) (i : ℕ) (n : List (List (Antichain S))) (e : List (List Target)) (s : ℕ × ℕ)
      → IsShaped b
      → i < length b.nodes
      → IsShapedNode n e s
      → IsShaped
          (record { nodes = set b.nodes i n; edges = set b.edges i e; shape = set b.shape i s })
  replaced-IsShaped b i n e s h lt node = record {
    as_many_edges = length-set b.edges i e ∙ h.as_many_edges ∙ sym (length-set b.nodes i n);
    as_many_shapes = length-set b.shape i s ∙ h.as_many_shapes ∙ sym (length-set b.nodes i n);
    shaped = λ j n' e' s' p q r. elim (Bool-cases (i == j)) [
      | inl same ↦
          let at_j = (==_iff i j).0 same in
          let (n0, fn) = get_elem?-of_lt b.nodes i lt in
          let (e0, fe) = get_elem?-of_lt b.edges i (omega (arith, h.as_many_edges)) in
          let (s0, fs) = get_elem?-of_lt b.shape i (omega (arith, h.as_many_shapes)) in
          shaped_at n n' e e' s s'
            (sym (get_elem?-set_self b.nodes i n n0 fn) ∙ ap (get_elem? (set b.nodes i n)) at_j ∙ p)
            (sym (get_elem?-set_self b.edges i e e0 fe) ∙ ap (get_elem? (set b.edges i e)) at_j ∙ q)
            (sym (get_elem?-set_self b.shape i s s0 fs) ∙ ap (get_elem? (set b.shape i s)) at_j ∙ r)
            node
      | inr other ↦
          let ne : i ≢ j = λ same. ground (arith, (==_iff i j).1 same) in
          h.shaped j n' e' s' (sym (get_elem?-set_ne b.nodes i j n ne) ∙ p)
            (sym (get_elem?-set_ne b.edges i j e ne) ∙ q)
            (sym (get_elem?-set_ne b.shape i j s ne) ∙ r)
    ];
  }

  -- `add_node` with a summary of the given numbers of inputs and outputs does not panic, and keeps the
  -- shape of the builder, whether the node is new or overwritten.
  pub add_node-IsShaped :
      (b : Builder S) (index inputs outputs : ℕ) (summary : List (List (Antichain S)))
      → IsShaped b
      → length summary ≡ inputs
      → All (λ row. length row ≡ outputs) summary
      → (new : Builder S) × (add_node b index inputs outputs summary ≡ some new) × IsShaped new
  unfolding add_node
  add_node-IsShaped b index inputs outputs summary h p q =
      let c = push_blank (index + 1 - length b.nodes) b in
      let (shaped, size) = push_blank-IsShaped (index + 1 - length b.nodes) b h in
      let lt : index < length c.nodes = omega (arith, size) in
      let (ports, found) =
        get_elem?-of_lt c.edges index (omega (arith, lt, shaped.as_many_edges)) in
      let (old, node_found) = get_elem?-of_lt c.nodes index lt in
      let (old_shape, shape_found) =
        get_elem?-of_lt c.shape index (omega (arith, lt, shaped.as_many_shapes)) in
      elim (Bool-cases (length ports == outputs)) [
        | inl kept ↦ (
          record {
            nodes = set c.nodes index summary;
            edges = c.edges;
            shape = set c.shape index (inputs, outputs);
          },
          rw (node_found, found, shape_found, kept) refl,
          subst
              (λ x. IsShaped (record {
                nodes = set c.nodes index summary;
                edges = x;
                shape = set c.shape index (inputs, outputs);
              }))
              (set_same c.edges index ports found)
              (replaced-IsShaped c index summary ports (inputs, outputs) shaped lt
                (p, q, (==_iff (length ports) outputs).0 kept)),
        )
        | inr fresh ↦ (
          record {
            nodes = set c.nodes index summary;
            edges = set c.edges index (blanks outputs);
            shape = set c.shape index (inputs, outputs);
          },
          rw (node_found, found, shape_found, fresh) refl,
          replaced-IsShaped c index summary (blanks outputs) (inputs, outputs) shaped lt
              (p, q, length-blanks outputs),
        )
      ]

  -- `add_edge` between ports that the shape has does not panic: it appends the target to the targets
  -- of the source, changes nothing else, and keeps the shape of the builder.
  pub add_edge-IsShaped :
      (b : Builder S) (source : Source) (target : Target) (s s' : ℕ × ℕ)
      → IsShaped b
      → get_elem? b.shape source.node ≡ some s
      → source.node < length b.nodes
      → source.port < s.1
      → get_elem? b.shape target.node ≡ some s'
      → target.port < s'.0
      → (new : Builder S) × (add_edge b source target ≡ some new)
        × IsShaped new
        × (new.nodes ≡ b.nodes)
        × (new.shape ≡ b.shape)
        × (old : List Target) × (targets_of b source.node source.port ≡ some old)
        × ((node port : ℕ)
            → targets_of new node port ≡ (
                if source.node == node && source.port == port
                then some (old ++ target ∷ [])
                else targets_of b node port))
  unfolding add_edge
  add_edge-IsShaped b source target s s' h at lt in_shape target_at in_target =
      let (n, fn) = get_elem?-of_lt b.nodes source.node lt in
      let (ports, fe) = get_elem?-of_lt b.edges source.node (omega (arith, h.as_many_edges)) in
      let (i, rows, o) = h.shaped source.node n ports s fn fe at in
      let (targets, ft) = get_elem?-of_lt ports source.port (omega (arith, o)) in
      let more = set ports source.port (targets ++ target ∷ []) in
      let from_exists : ltb source.port s.1 ≡ true = ground arith in
      let to_exists : ltb target.port s'.0 ≡ true = ground arith in
      let shaped =
        replaced-IsShaped b source.node n more s h lt
          (i, rows, length-set ports source.port (targets ++ target ∷ []) ∙ o) in
      (
        record b { edges = set b.edges source.node more },
        rw (at, target_at, from_exists, to_exists, fe, ft) refl,
        subst (λ x. IsShaped (record b { nodes = x; edges = set b.edges source.node more }))
            (set_same b.nodes source.node n fn)
            (subst
              (λ x. IsShaped (record {
                nodes = set b.nodes source.node n;
                edges = set b.edges source.node more;
                shape = x;
              }))
              (set_same b.shape source.node s at) shaped),
        refl,
        refl,
        targets,
        rw fe ft,
        targets_of-set b source.node source.port ports targets (targets ++ target ∷ []) fe ft,
      )
