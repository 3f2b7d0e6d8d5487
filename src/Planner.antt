-- ===== src/Planner.antt =====
-- Pepper_Planner/Pepper_Planner/Planner.{hpp,cpp}: the search for a policy. The printing of the graph
-- is left out.
pub mod Winning
pub mod Cases
pub mod Mark
pub mod Propagate
pub mod Attach
pub mod Partial
pub mod Expand
pub mod Outcomes
pub mod Sound
pub mod Tree
pub mod Children
pub mod Upward
pub mod Extract
pub mod Ready
pub mod Steps
pub mod Progress
pub mod Runs
use r2dtu_attention.Common.{
  ℕ, zero, suc, ◌+◌, Bool, true, false, ◌&&◌, Option, none, some, List, [], ◌∷◌, ◌++◌,
  if◌then◌else◌, ltb, length, fold_steps, ◌>>=◌,
}
use r2dtu_attention.Formula.{Formula}
use r2dtu_attention.State.{State}
use r2dtu_attention.State
use r2dtu_attention.Action.{Action}
use r2dtu_attention.Operations
use r2dtu_attention.Graph.{Graph, Node, NodeType, or_node, and_node}
use r2dtu_attention.Graph
use r2dtu_attention.Policy.{Policy}
use r2dtu_attention.Policy

-- The loop of propogate_dead_end_node, from the parent of the node up. A parent stands before its
-- children in the vector, so the position bounds the rounds.
unfoldable pub propagate_dead : ℕ → Graph → ℕ → Option Graph
unfolding Graph.get_node Graph.check_if_dead
propagate_dead zero g i = none
propagate_dead (suc fuel) g i = do
  n ← Graph.get_node g i
  (h, dead) ← Graph.check_if_dead g i n
  elim dead [
    | true ↦ elim n.root [ true ↦ some h | false ↦ propagate_dead fuel h n.parent ]
    | false ↦ some h
  ]

unfoldable pub propogate_dead_end_node : Graph → ℕ → Option Graph
unfolding propagate_dead Graph.set_node Graph.set_dead
propogate_dead_end_node g i = do
  n ← Graph.get_node g i
  let h = Graph.set_node g i (Graph.set_dead n)
  if n.root then some h else propagate_dead (length g.nodes) h n.parent

unfoldable pub propagate_solved : ℕ → Graph → ℕ → Option Graph
unfolding Graph.get_node Graph.check_if_solved
propagate_solved zero g i = none
propagate_solved (suc fuel) g i = do
  n ← Graph.get_node g i
  (h, solved) ← Graph.check_if_solved g i n
  elim solved [
    | true ↦ elim n.root [ true ↦ some h | false ↦ propagate_solved fuel h n.parent ]
    | false ↦ some h
  ]

unfoldable pub propogate_solved_node : Graph → ℕ → Option Graph
unfolding propagate_solved Graph.set_node Graph.set_solved
propogate_solved_node g i = do
  n ← Graph.get_node g i
  let h = Graph.set_node g i (Graph.set_solved n)
  if n.root then some h else propagate_solved (length g.nodes) h n.parent

unfoldable pub is_goal_node : Node → Formula → Option Bool
unfolding State.valuate
is_goal_node n goal = State.valuate n.state goal

unfoldable pub is_valid_state : State → Bool
unfolding State.get_worlds_count State.get_designated_worlds_count
is_valid_state s = ltb 0 (State.get_worlds_count s) && ltb 0 (State.get_designated_worlds_count s)

-- The loop of extract_policy over the children of the current node: solved children go on the stack,
-- and an Or node follows the first of them only.
unfoldable pub push_children : Graph → NodeType → List ℕ → List ℕ → Option (List ℕ)
unfolding Graph.get_node
push_children g type [] stack = some stack
push_children g type (c ∷ cs) stack = Graph.get_node g c >>= λ child. elim child.solved [
  | true ↦ elim type [ or_node ↦ some (c ∷ stack) | and_node ↦ push_children g type cs (c ∷ stack) ]
  | false ↦ push_children g type cs stack
]

unfoldable pub policy_entry : Graph → Node → Policy → Option Policy
unfolding Graph.get_node Policy.add_policy_entry
policy_entry g n p = elim n.type [
  | and_node ↦ Graph.get_node g n.parent >>= λ parent.
      some (Policy.add_policy_entry p parent.state n.action_from_parent)
  | or_node ↦ some p
]

unfoldable pub extract_loop : ℕ → Graph → List ℕ → Policy → Option Policy
unfolding Graph.get_node push_children policy_entry
extract_loop fuel g [] p = some p
extract_loop zero g (i ∷ stack) p = none
extract_loop (suc fuel) g (i ∷ stack) p = do
  n ← Graph.get_node g i
  q ← policy_entry g n p
  stack' ← push_children g n.type n.children stack
  extract_loop fuel g stack' q

-- A node is put on the stack once at most, by its parent, so the nodes bound the rounds.
unfoldable pub extract_policy : Graph → Option Policy
unfolding extract_loop Graph.get_root_node
extract_policy g =
    Graph.get_root_node g >>= λ n. extract_loop (length g.nodes) g (n.id ∷ []) (Policy.init true)

-- What a round of the main loop comes to.
pub data Round : Type 0 where
  continue : Graph → Round
  finished : Policy → Round

unfoldable pub add_global_state : ℕ → Graph → State → Option Graph
unfolding Graph.create_or_node Graph.add_to_frontier
add_global_state action_node g state = do
  (h, global_agent_node) ← Graph.create_or_node g state action_node
  Graph.add_to_frontier h global_agent_node

-- The expansion of the current node by an action that led to the state `updated`.
unfoldable pub expand_with : Graph → ℕ → Action → State → Option Graph
unfolding Graph.create_and_node Operations.split_into_global_states add_global_state
expand_with g current action updated = do
  (h, action_node) ← Graph.create_and_node g updated current action
  global_states ← Operations.split_into_global_states updated action.owner
  fold_steps (add_global_state action_node) h global_states

-- A round of `while (true)` on a frontier that is not empty.
unfoldable pub visit_goal : Graph → ℕ → Option Round
unfolding propogate_solved_node Graph.get_root_node extract_policy
visit_goal g current = do
  h ← propogate_solved_node g current
  root ← Graph.get_root_node h
  elim root.solved [
    | true ↦ extract_policy h >>= λ p. some (finished p)
    | false ↦ some (continue h)
  ]

module _ (order : List ℕ → List ℕ) where
  -- The state after the action, seen by its owner; `none` inside where the action does not apply.
  unfoldable pub successor : State → Action → Option (Option State)
  unfolding Operations.perform_perspective_shift Operations.is_action_applicable
      Operations.perform_product_update is_valid_state
  successor state action = do
    shifted ← Operations.perform_perspective_shift state order action.owner
    applicable ← Operations.is_action_applicable shifted action
    elim applicable [
      | true ↦ Operations.perform_product_update shifted action >>= λ updated.
          some (if is_valid_state updated then some updated else none)
      | false ↦ some none
    ]

  -- The body of the loop over the actions.
  unfoldable pub try_action : ℕ → Graph × Bool → Action → Option (Graph × Bool)
  unfolding successor expand_with Graph.get_node
  try_action current (g, found) action = do
    n ← Graph.get_node g current
    next ← successor n.state action
    elim next [
      | none ↦ some (g, found)
      | some updated ↦ expand_with g current action updated >>= λ h. some (h, true)
    ]

  unfoldable pub visit_inner : List Action → Graph → ℕ → Option Round
  unfolding try_action propogate_dead_end_node Graph.get_root_node
  visit_inner actions g current = do
    (h, found) ← fold_steps (try_action current) (g, false) actions
    elim found [
      | true ↦ some (continue h)
      | false ↦ propogate_dead_end_node h current >>= λ k. Graph.get_root_node k >>= λ root.
          some (if root.dead then finished (Policy.init false) else continue k)
    ]

module _ (order : List ℕ → List ℕ) (goal : Formula) where
  unfoldable pub round : List Action → Graph → Option Round
  unfolding Graph.is_frontier_empty Graph.get_next_from_frontier Graph.get_node is_goal_node
      visit_goal visit_inner
  round actions g =
      if Graph.is_frontier_empty g
      then some (finished (Policy.init false))
      else (Graph.get_next_from_frontier g >>= λ next.
          let (current, h) = next in
          Graph.get_node h current >>= λ n.
          is_goal_node n goal
          >>= elim [ true ↦ visit_goal h current | false ↦ visit_inner order actions h current ])

  -- The main loop. It need not end; `none` is a loop that goes on after `fuel` rounds, or undefined
  -- behaviour.
  unfoldable pub search_policy : ℕ → List Action → Graph → Option Policy
  unfolding round
  search_policy zero actions g = none
  search_policy (suc fuel) actions g =
      round actions g >>= elim [ continue h ↦ search_policy fuel actions h | finished p ↦ some p ]

  -- Planner::find_policy, where `garbage` is the value that the root of a new graph happens to have.
  unfoldable pub find_policy : ℕ → ℕ → List Action → State → Option Policy
  unfolding Graph.create_root_node Graph.add_to_frontier search_policy
  find_policy garbage fuel actions initial_state = do
    let (g, root_node) = Graph.create_root_node (Graph.empty garbage) initial_state
    h ← Graph.add_to_frontier g root_node
    search_policy fuel actions h
