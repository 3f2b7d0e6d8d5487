-- ===== src/Planner/Propagate.antt =====
-- The two propagations of marks towards the root, and the invariant of the graph.
use mathlib.Core.Path.{subst}
use r2dtu_attention.Common.{ℕ, zero, suc, ◌≡◌, sym, some, List, inl, inr, get_elem?, length}
use r2dtu_attention.Formula.{Formula}
use r2dtu_attention.Action.{Action}
use r2dtu_attention.Graph.{Graph, Node}
use r2dtu_attention.Planner.{
  propagate_dead, propogate_dead_end_node, propagate_solved, propogate_solved_node,
}
use r2dtu_attention.Planner.Winning.{Claim, Inv}
use r2dtu_attention.Planner.Cases.{
  propagate_solved_zero, propagate_dead_zero, propogate_solved_node_cases,
  propogate_dead_end_node_cases, propagate_solved_cases, propagate_dead_cases,
}
use r2dtu_attention.Planner.Mark.{
  Good, Good-trans, set_dead-Good, set_solved-Good, check_if_solved-Good, check_if_dead-Good,
}

module _ (order : List ℕ → List ℕ) (goal : Formula) (actions : List Action) where
  pub propagate_solved-Good :
      (fuel : ℕ) (g h : Graph) (k : ℕ)
      → Inv order goal actions g
      → propagate_solved fuel g k ≡ some h
      → Good order goal actions g h
  propagate_solved-Good zero g h k v e = absurd (propagate_solved_zero g h k e)
  propagate_solved-Good (suc fuel) g h k v e =
      let (n, next, b, at, found, onward) = propagate_solved_cases fuel g h k e in
      let good = check_if_solved-Good order goal actions g k n next b v at found in
      elim onward [
        | inl same ↦ subst (Good order goal actions g) (sym same) good
        | inr rest ↦
            Good-trans order goal actions g next h good
              (propagate_solved-Good fuel next h n.parent good.inv rest)
      ]

  pub propagate_dead-Good :
      (fuel : ℕ) (g h : Graph) (k : ℕ)
      → Inv order goal actions g
      → propagate_dead fuel g k ≡ some h
      → Good order goal actions g h
  propagate_dead-Good zero g h k v e = absurd (propagate_dead_zero g h k e)
  propagate_dead-Good (suc fuel) g h k v e =
      let (n, next, b, at, found, onward) = propagate_dead_cases fuel g h k e in
      let good = check_if_dead-Good order goal actions g k n next b v at found in
      elim onward [
        | inl same ↦ subst (Good order goal actions g) (sym same) good
        | inr rest ↦
            Good-trans order goal actions g next h good
              (propagate_dead-Good fuel next h n.parent good.inv rest)
      ]

  pub propogate_solved_node-Good :
      (g h : Graph) (k : ℕ) (n : Node)
      → Inv order goal actions g
      → get_elem? g.nodes k ≡ some n
      → Claim order goal actions n.type n.state n.action_from_parent
      → propogate_solved_node g k ≡ some h
      → Good order goal actions g h
  propogate_solved_node-Good g h k n v at claim e =
      let good = set_solved-Good order goal actions g k n v at claim in
      elim (propogate_solved_node_cases g h k n at e) [
        | inl same ↦ subst (Good order goal actions g) (sym same) good
        | inr rest ↦
            Good-trans order goal actions g _ h good
              (propagate_solved-Good (length g.nodes) _ h n.parent good.inv rest)
      ]

  pub propogate_dead_end_node-Good :
      (g h : Graph) (k : ℕ)
      → Inv order goal actions g
      → propogate_dead_end_node g k ≡ some h
      → Good order goal actions g h
  propogate_dead_end_node-Good g h k v e =
      let (n, at, onward) = propogate_dead_end_node_cases g h k e in
      let good = set_dead-Good order goal actions g k n v at in
      elim onward [
        | inl same ↦ subst (Good order goal actions g) (sym same) good
        | inr rest ↦
            Good-trans order goal actions g _ h good
              (propagate_dead-Good (length g.nodes) _ h n.parent good.inv rest)
      ]
