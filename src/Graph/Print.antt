-- ===== src/Graph/Print.antt =====
-- Node::to_string, to_graph and type_to_string, Graph::to_string and to_graph.
use r2dtu_attention.Common.{
  ℕ, suc, Bool, Option, some, String, List, [], ◌∷◌, map, if◌then◌else◌, get_elem?, ◌>>=◌,
}
use r2dtu_attention.Common.Texts.{◌<>◌, to_string, join, texts, try_texts}
use r2dtu_attention.Library.{Agent}
use r2dtu_attention.State.Print.{state_to_string, state_to_graph}
use r2dtu_attention.Action.Print.{action_to_string, to_compact_string}
use r2dtu_attention.Graph.{NodeType, or_node, and_node, Node, Graph}

abbrev pub type_to_string : NodeType → String
type_to_string and_node = "And"
type_to_string or_node = "Or"

abbrev pub truth : Bool → String
truth b = if b then "True" else "False"

-- The line of the action; only an Or node prints it.
unfoldable pub parent_action_to_string : Node → Option String
unfolding action_to_string
parent_action_to_string n = elim n.type [
  | and_node ↦ some "Agent split, no action"
  | or_node ↦ action_to_string n.action_from_parent 0
]

unfoldable pub node_to_string : Node → Option String
unfolding parent_action_to_string state_to_string to_string join
node_to_string n = parent_action_to_string n >>= λ action. some (
    "---- Node "
    <> to_string n.id
    <> ": (Type, "
    <> type_to_string n.type
    <> ") (Parent, "
    <> to_string n.parent
    <> ") (Root, "
    <> truth n.root
    <> ") (Dead, "
    <> truth n.dead
    <> ") (Solved, "
    <> truth n.solved
    <> ") (Children, "
    <> join ", " (map to_string n.children)
    <> ")\n--- Action from parent\n"
    <> action
    <> " \n"
    <> state_to_string n.state 3)

unfoldable pub graph_to_string : Graph → Option String
unfolding node_to_string to_string texts try_texts
graph_to_string g = do
  nodes ← try_texts (λ n. node_to_string n >>= λ s. some ("\n\n\n" <> s)) g.nodes
  some (
      "Graph: (root, "
      <> to_string g.root
      <> ") (frontier"
      <> texts (λ id. ", " <> to_string id) g.frontier
      <> ")"
      <> nodes)

unfoldable pub node_to_graph : Node → List Agent → String → String → Option String
unfolding state_to_graph
node_to_graph n agents node_id state_id = state_to_graph n.state agents state_id >>= λ s. some (
    "subgraph cluster_"
    <> node_id
    <> " {\nlabel=\"("
    <> type_to_string n.type
    <> ")Node "
    <> node_id
    <> "\";\n"
    <> (if n.solved then "pencolor=red;\n" else "")
    <> s
    <> "\n}")

-- The label of a connection to an And node.
unfoldable pub label_of : Node → Option String
unfolding to_compact_string
label_of n = elim n.type [
  | and_node ↦ to_compact_string n.action_from_parent >>= λ s. some (",label=\"" <> s <> "\"")
  | or_node ↦ some ""
]

unfoldable pub connection : Graph → ℕ → ℕ → Option String
unfolding label_of to_string
connection g counter child = do
  n ← get_elem? g.nodes child
  label ← label_of n
  some (
      "\ns"
      <> to_string counter
      <> "0 -> s"
      <> to_string child
      <> "0[ltail=cluster_"
      <> to_string counter
      <> ", lhead=cluster_"
      <> to_string child
      <> label
      <> "];")

-- The loop of to_graph from the node `counter` on: the nodes, and the connections.
unfoldable pub nodes_to_graph : Graph → List Agent → ℕ → List Node → Option (String × String)
unfolding node_to_graph connection to_string try_texts
nodes_to_graph g agents counter [] = some ("", "")
nodes_to_graph g agents counter (n ∷ nodes) = do
  here ← node_to_graph n agents (to_string counter) ("s" <> to_string counter)
  edges ← try_texts (connection g counter) n.children
  (rest, more) ← nodes_to_graph g agents (suc counter) nodes
  some ("\n" <> here <> rest, edges <> more)

unfoldable pub graph_to_graph : Graph → List Agent → Option String
unfolding nodes_to_graph
graph_to_graph g agents = nodes_to_graph g agents 0 g.nodes >>= λ (nodes, connections).
    some ("digraph G {\ncompound=true;" <> nodes <> connections <> "\n}")
