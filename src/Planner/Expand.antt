-- ===== src/Planner/Expand.antt =====
-- The expansion of a node by an action, in Planner::find_policy, and the invariant of the graph.
use mathlib.Core.Path.{subst}
use mathlib.Core.Option.{some-injective}
use mathlib.Core.List.{Memᴰ, append_assoc, append-nil}
use r2dtu_attention.Common.{
  ℕ, ◌≡◌, sym, ap, true, false, some, List, [], ◌∷◌, ◌++◌, inl, inr, arith, get_elem?, length,
  length-append, Option-cases, none-some, fold_steps, ltb, lt→ltb, length-set,
}
use r2dtu_attention.Formula.{Formula}
use r2dtu_attention.State.{State}
use r2dtu_attention.Action.{Action}
use r2dtu_attention.Operations.{split_into_global_states}
use r2dtu_attention.Graph.{
  Graph, Node, or_node, and_node_of, or_node_of, add_child, add_to_frontier,
}
use r2dtu_attention.Planner.{successor, add_global_state, expand_with}
use r2dtu_attention.Planner.Winning.{Keeps, Keeps-refl, Keeps-trans, Inv}
use r2dtu_attention.Planner.Mark.{Good}
use r2dtu_attention.Planner.Attach.{attached, attach-attached, attached-Keeps}
use r2dtu_attention.Planner.Partial.{Partial, Partial-Inv, create_and-Partial, create_or-Partial}

module _ (order : List ℕ → List ℕ) (goal : Formula) (actions : List Action) where
  pub add_global_state-eq :
      (g : Graph) (c : ℕ) (m : Node) (s : State)
      → get_elem? g.nodes c ≡ some m
      → add_global_state c g s
        ≡ some (record (attached g c m (or_node_of s (length g.nodes) c false)) {
          frontier = g.frontier ++ length g.nodes ∷ [];
        })
  unfolding add_global_state add_to_frontier
  add_global_state-eq g c m s at =
      let new = or_node_of s (length g.nodes) c false in
      let room : ltb (length g.nodes) (length (attached g c m new).nodes) ≡ true = lt→ltb _ _ (
        omega (
          arith,
          length-set (g.nodes ++ new ∷ []) c (add_child m new.id),
          length-append g.nodes (new ∷ []),
        )) in
      rw (attach-attached g c m new at, room)

  -- All Or nodes below the And node.
  add_global_states-Partial :
      (g h : Graph) (c : ℕ) (t : State) (a : Action) (done ts : List State)
      → Partial order goal actions g c t a done
      → fold_steps (add_global_state c) g ts ≡ some h
      → Partial order goal actions h c t a (done ++ ts) × Keeps g h × (h.root ≡ g.root)
  unfolding fold_steps
  add_global_states-Partial g h c t a done [] p e =
      let same = some-injective g h e in
      (
        rw (append-nil done) (subst (λ x. Partial order goal actions x c t a done) same p),
        subst (Keeps g) same (Keeps-refl g),
        ap (λ (x : Graph). x.root) (sym same),
      )
  add_global_states-Partial g h c t a done (s ∷ ts) p e =
      let next : Graph = record (attached g c p.node (or_node_of s (length g.nodes) c false)) {
        frontier = g.frontier ++ length g.nodes ∷ [];
      } in
      let (q, keeps, root) =
        add_global_states-Partial next h c t a (done ++ s ∷ []) ts
          (create_or-Partial order goal actions g c t a done s p)
          (rw (add_global_state-eq g c p.node s p.at) at e) in
      (
        rw (append_assoc done (s ∷ []) ts) at q,
        Keeps-trans g next h
            (attached-Keeps g c p.node (or_node_of s (length g.nodes) c false) p.at) keeps,
        root,
      )

  pub expand_with-Good :
      (g h : Graph) (k : ℕ) (n : Node) (t : State) (a : Action)
      → Inv order goal actions g
      → get_elem? g.nodes k ≡ some n
      → n.type ≡ or_node
      → Memᴰ a actions
      → successor order n.state a ≡ some (some t)
      → expand_with g k a t ≡ some h
      → Good order goal actions g h
  unfolding expand_with
  expand_with-Good g h k n t a v at type m applies e =
      let new = and_node_of t (length g.nodes) k a false in
      elim (Option-cases (split_into_global_states t a.owner)) [
        | inl none' ↦ absurd (none-some (rw (attach-attached g k n new at, none') at e))
        | inr (ts, split) ↦
            let (p, keeps, root) =
              add_global_states-Partial (attached g k n new) h (length g.nodes) t a [] ts
                (create_and-Partial order goal actions g k n t a v at type m applies)
                (rw (attach-attached g k n new at, split) at e) in
            record {
              inv = Partial-Inv order goal actions h (length g.nodes) t a ts p split;
              keeps = Keeps-trans g (attached g k n new) h (attached-Keeps g k n new at) keeps;
              root = root;
            }
      ]
