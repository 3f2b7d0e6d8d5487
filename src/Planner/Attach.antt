-- ===== src/Planner/Attach.antt =====
-- Graph::create_or_node and Graph::create_and_node: a node more, below another.
use mathlib.Core.Path.{subst}
use mathlib.Core.Option.{some-injective}
use r2dtu_attention.Common.{
  ℕ, ◌≡◌, ◌≢◌, ◌⊎◌, refl, ◌∙◌, sym, ap, some, [], ◌∷◌, ◌++◌, inl, inr, arith, get_elem?, set,
  length, length-append, get_elem?-set_self, get_elem?-set_ne, get_elem?-append, get_elem?-length,
  lt-length_of_get_elem?, Bool-cases, get_elem?_append_cases, ==_iff, ◌==◌,
}
use r2dtu_attention.Graph.{Graph, Node, add_child, attach}
use r2dtu_attention.Planner.Winning.{SameMake, SameMake-refl, Keeps}

-- The graph with a node more, below the node p at position `parent`.
abbrev pub attached : Graph → ℕ → Node → Node → Graph
attached g parent p node = record g {
  nodes = set (g.nodes ++ node ∷ []) parent (add_child p node.id);
}

module _ (g : Graph) (parent : ℕ) (p node : Node) (at : get_elem? g.nodes parent ≡ some p) where
  pub attach-attached : attach g parent node ≡ some (attached g parent p node, node.id)
  unfolding attach
  attach-attached = rw (get_elem?-append g.nodes (node ∷ []) parent at)

  -- The new node is the last.
  pub attached-last : get_elem? (attached g parent p node).nodes (length g.nodes) ≡ some node
  attached-last =
      get_elem?-set_ne (g.nodes ++ node ∷ []) parent (length g.nodes) _
        (λ q. omega (arith, lt-length_of_get_elem? g.nodes parent at))
      ∙ get_elem?-length g.nodes node

  pub attached-parent :
      get_elem? (attached g parent p node).nodes parent ≡ some (add_child p node.id)
  attached-parent =
      get_elem?-set_self (g.nodes ++ node ∷ []) parent _
        (omega (arith, lt-length_of_get_elem? g.nodes parent at, length-append g.nodes (node ∷ [])))

  pub attached-other :
      (k : ℕ) (n : Node)
      → parent ≢ k
      → get_elem? g.nodes k ≡ some n
      → get_elem? (attached g parent p node).nodes k ≡ some n
  attached-other k n ne e =
      get_elem?-set_ne (g.nodes ++ node ∷ []) parent k _ ne
      ∙ get_elem?-append g.nodes (node ∷ []) k e

  pub attached-Keeps : Keeps g (attached g parent p node)
  unfolding add_child
  attached-Keeps k n e = elim (Bool-cases (parent == k)) [
    | inl y ↦
        let q = (==_iff parent k).0 y in
        let same : p ≡ n = some-injective p n (sym at ∙ ap (get_elem? g.nodes) q ∙ e) in
        (
          add_child p node.id,
          ap (get_elem? (attached g parent p node).nodes) (sym q) ∙ attached-parent,
          subst (λ z. SameMake z (add_child p node.id)) same
              (record {
                type = refl;
                state = refl;
                id = refl;
                parent = refl;
                action = refl;
                root = refl;
              }),
        )
    | inr y ↦ (n, attached-other k n (ground arith) e, SameMake-refl n)
  ]

  -- Where a node of the new graph comes from.
  pub attached_cases :
      (k : ℕ) (n : Node)
      → get_elem? (attached g parent p node).nodes k ≡ some n
      → (parent ≡ k) × (add_child p node.id ≡ n)
        ⊎ (length g.nodes ≡ k) × (node ≡ n)
        ⊎ (parent ≢ k) × (get_elem? g.nodes k ≡ some n)
  attached_cases k n e = elim (Bool-cases (parent == k)) [
    | inl y ↦
        let q = (==_iff parent k).0 y in
        inl (
          q,
          some-injective _ n
              (sym attached-parent ∙ ap (get_elem? (attached g parent p node).nodes) q ∙ e),
        )
    | inr y ↦
        let ne : parent ≢ k = ground arith in
        let old =
          sym (get_elem?-set_ne (g.nodes ++ node ∷ []) parent k (add_child p node.id) ne) ∙ e in
        inr (elim (get_elem?_append_cases g.nodes node k n old) [
          | inl h ↦ inr (ne, h)
          | inr h ↦ inl h
        ])
  ]
