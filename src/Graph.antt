-- ===== src/Graph.antt =====
-- Pepper_Planner/Pepper_Planner/Node.{hpp,cpp} and Graph.{hpp,cpp}: the and-or graph of the planner.
-- A node is read and written through its position in the vector of nodes, so the methods of Node that
-- look at other nodes are functions of the graph and the position.
pub mod Print
use mathlib.Core.Option
use r2dtu_attention.Common.{
  ℕ, Bool, true, false, Option, none, some, List, [], ◌∷◌, ◌++◌, if◌then◌else◌, length, get_elem?,
  set, ltb, ◌>>=◌,
}
use r2dtu_attention.State.{State}
use r2dtu_attention.Action.{Action}

pub data NodeType : Type 0 where
  or_node and_node : NodeType

pub record Node : Type 0 where
  pub type : NodeType
  pub state : State
  pub id : ℕ
  pub parent : ℕ
  pub action_from_parent : Action
  pub root : Bool
  pub dead : Bool
  pub solved : Bool
  pub children : List ℕ

pub record Graph : Type 0 where
  pub root : ℕ
  pub frontier : List ℕ
  pub nodes : List Node

-- Graph(): the constructor leaves `root` without a value, so it is an argument here.
abbrev pub empty : ℕ → Graph
empty garbage = record { root = garbage; frontier = []; nodes = [] }

-- The constructor of And nodes.
abbrev pub and_node_of : State → ℕ → ℕ → Action → Bool → Node
and_node_of state id parent action root = record {
  type = and_node;
  state = state;
  id = id;
  parent = parent;
  action_from_parent = action;
  root = root;
  dead = false;
  solved = false;
  children = [];
}

-- The constructor of Or nodes, with its dummy action.
abbrev pub or_node_of : State → ℕ → ℕ → Bool → Node
or_node_of state id parent root = record {
  type = or_node;
  state = state;
  id = id;
  parent = parent;
  action_from_parent = record {
    events = [];
    designated_events = [];
    indistinguishability_relation = [];
    owner = 0;
  };
  root = root;
  dead = false;
  solved = false;
  children = [];
}

unfoldable pub get_node : Graph → ℕ → Option Node
get_node g i = get_elem? g.nodes i

unfoldable pub get_root_node : Graph → Option Node
get_root_node g = get_elem? g.nodes g.root

-- A write through the reference that get_node returned.
unfoldable pub set_node : Graph → ℕ → Node → Graph
set_node g i n = record g { nodes = set g.nodes i n }

unfoldable pub add_child : Node → ℕ → Node
add_child n child = record n { children = n.children ++ child ∷ [] }

unfoldable pub set_dead : Node → Node
set_dead n = record n { dead = true }

unfoldable pub set_solved : Node → Node
set_solved n = record n { solved = true }

unfoldable pub is_frontier_empty : Graph → Bool
is_frontier_empty g = elim g.frontier [ [] ↦ true | _ ∷ _ ↦ false ]

-- The id of the node at the front, and the graph without it.
unfoldable pub get_next_from_frontier : Graph → Option (ℕ × Graph)
get_next_from_frontier g = elim g.frontier [
  | [] ↦ none
  | i ∷ rest ↦ Option.map (λ n. (n.id, record g { frontier = rest })) (get_elem? g.nodes i)
]

-- An id that is not in the graph ends the program (`throw` with no exception at hand).
unfoldable pub add_to_frontier : Graph → ℕ → Option Graph
add_to_frontier g i =
    if ltb i (length g.nodes) then some (record g { frontier = g.frontier ++ i ∷ [] }) else none

-- emplace_back of the node, then nodes[parent].add_child of its id.
unfoldable pub attach : Graph → ℕ → Node → Option (Graph × ℕ)
unfolding add_child
attach g parent node = do
  let grown = g.nodes ++ node ∷ []
  p ← get_elem? grown parent
  some (record g { nodes = set grown parent (add_child p node.id) }, node.id)

unfoldable pub create_or_node : Graph → State → ℕ → Option (Graph × ℕ)
unfolding attach
create_or_node g state parent = attach g parent (or_node_of state (length g.nodes) parent false)

unfoldable pub create_and_node : Graph → State → ℕ → Action → Option (Graph × ℕ)
unfolding attach
create_and_node g state parent action =
    attach g parent (and_node_of state (length g.nodes) parent action false)

unfoldable pub create_root_node : Graph → State → Graph × ℕ
create_root_node g state =
    (record g { nodes = g.nodes ++ or_node_of state (length g.nodes) 0 true ∷ [] }, length g.nodes)

-- Whether some child, or every child, passes the test; the loops return at the first that decides.
unfoldable pub some_child : Graph → (Node → Bool) → List ℕ → Option Bool
unfolding get_node
some_child g test [] = some false
some_child g test (c ∷ cs) =
    get_node g c >>= λ n. elim (test n) [ true ↦ some true | false ↦ some_child g test cs ]

unfoldable pub every_child : Graph → (Node → Bool) → List ℕ → Option Bool
unfolding get_node
every_child g test [] = some true
every_child g test (c ∷ cs) =
    get_node g c >>= λ n. elim (test n) [ true ↦ every_child g test cs | false ↦ some false ]

-- check_if_dead_and: a dead child; check_if_dead_or: no child that is not dead.
unfoldable pub children_dead : Graph → NodeType → List ℕ → Option Bool
unfolding some_child every_child
children_dead g and_node cs = some_child g (λ n. n.dead) cs
children_dead g or_node cs = every_child g (λ n. n.dead) cs

-- check_if_solved_and: no child that is not solved; check_if_solved_or: a solved child.
unfoldable pub children_solved : Graph → NodeType → List ℕ → Option Bool
unfolding some_child every_child
children_solved g and_node cs = every_child g (λ n. n.solved) cs
children_solved g or_node cs = some_child g (λ n. n.solved) cs

-- Node::check_if_dead, which marks the node when its children make it dead.
unfoldable pub check_if_dead : Graph → ℕ → Node → Option (Graph × Bool)
unfolding children_dead set_node set_dead
check_if_dead g i n =
    if n.dead
    then some (g, true)
    else if n.solved
    then some (g, false)
    else (children_dead g n.type n.children >>= λ all.
        some (if all then (set_node g i (set_dead n), true) else (g, false)))

-- Node::check_if_solved, which marks the node when its children make it solved.
unfoldable pub check_if_solved : Graph → ℕ → Node → Option (Graph × Bool)
unfolding children_solved set_node set_solved
check_if_solved g i n =
    if n.solved
    then some (g, true)
    else if n.dead
    then some (g, false)
    else (children_solved g n.type n.children >>= λ all.
        some (if all then (set_node g i (set_solved n), true) else (g, false)))
