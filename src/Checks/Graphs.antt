-- ===== src/Checks/Graphs.antt =====
-- The theorems on the graph of the planner at a graph with a root, an action and a state after it.
use mathlib.Core.Path.{subst}
use mathlib.Core.Option.{some-injective}
use r2dtu_attention.Common.{
  zero, suc, ◌≡◌, refl, true, false, some, [], ◌∷◌, arith, length, none-some,
}
use r2dtu_attention.Graph.{Graph, Node, or_node_of, and_node_of}
use r2dtu_attention.Policy.{Policy}
use r2dtu_attention.Planner.{propogate_solved_node, propogate_dead_end_node, extract_policy}
use r2dtu_attention.Planner.Tree.{IsTree, Placed}
use r2dtu_attention.Planner.Upward.{propogate_solved_node_total, propogate_dead_end_node_total}
use r2dtu_attention.Planner.Extract.{extract_policy_total}
use r2dtu_attention.Checks.Models.{unsure, glance}

abbrev start : Node
start = record (or_node_of unsure 0 0 true) { children = 1 ∷ []; solved = true }

abbrev acted : Node
acted = record (and_node_of unsure 1 0 glance false) { children = 2 ∷ []; solved = true }

abbrev after : Node
after = record (or_node_of unsure 2 1 false) { solved = true }

abbrev small_graph : Graph
small_graph = record { root = 0; frontier = 2 ∷ []; nodes = start ∷ acted ∷ after ∷ [] }

small_graph-IsTree : IsTree small_graph
small_graph-IsTree zero n e = subst (Placed small_graph 0) (some-injective start n e) (record {
  near = omega arith;
  up = λ r. cc;
  down = ((acted, refl, refl, refl), tt);
  distinct = (refl, tt);
})
small_graph-IsTree (suc zero) n e =
    subst (Placed small_graph 1) (some-injective acted n e) (record {
      near = omega arith;
      up = λ r. omega arith;
      down = ((after, refl, refl, refl), tt);
      distinct = (refl, tt);
    })
small_graph-IsTree (suc (suc zero)) n e =
    subst (Placed small_graph 2) (some-injective after n e)
      (record { near = omega arith; up = λ r. omega arith; down = tt; distinct = tt })
small_graph-IsTree (suc (suc (suc k))) n e = absurd (none-some e)

propogate_solved_node_total_example :
    (h : Graph) × (propogate_solved_node small_graph 2 ≡ some h) × IsTree h × (length h.nodes ≡ 3)
propogate_solved_node_total_example =
    propogate_solved_node_total small_graph 2 small_graph-IsTree (omega arith)

propogate_dead_end_node_total_example :
    (h : Graph) × (propogate_dead_end_node small_graph 2 ≡ some h) × IsTree h × (length h.nodes ≡ 3)
propogate_dead_end_node_total_example =
    propogate_dead_end_node_total small_graph 2 small_graph-IsTree (omega arith)

extract_policy_total_example : (p : Policy) × (extract_policy small_graph ≡ some p)
extract_policy_total_example =
    extract_policy_total small_graph start small_graph-IsTree refl refl refl
