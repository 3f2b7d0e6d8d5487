-- ===== src/Domain.antt =====
-- Pepper_Planner/Pepper_Planner/Domain.{hpp,cpp}: the states that the domain went through, the last of
-- which is the current one.
use r2dtu_attention.Common.{ℕ, String, Option, none, some, List, [], ◌∷◌, ◌++◌, fold, ◌>>=◌}
use r2dtu_attention.Common.Sets.{insert}
use r2dtu_attention.Formula.{blank, f_top}
use r2dtu_attention.State.{State}
use r2dtu_attention.Action.{Action}
use r2dtu_attention.Action
use r2dtu_attention.Operations.{perform_product_update}

pub record Domain : Type 0 where
  pub amount_of_agents : ℕ
  pub states : List State

-- Domain(amount_of_agents), and Domain(amount_of_agents, initial_state)
abbrev pub without_states : ℕ → Domain
without_states amount_of_agents = record { amount_of_agents = amount_of_agents; states = [] }

abbrev pub init : ℕ → State → Domain
init amount_of_agents initial_state = record {
  amount_of_agents = amount_of_agents;
  states = initial_state ∷ [];
}

-- states.back()
unfoldable pub last_state : List State → Option State
last_state [] = none
last_state (s ∷ []) = some s
last_state (s ∷ t ∷ ts) = last_state (t ∷ ts)

unfoldable pub get_current_state : Domain → Option State
unfolding last_state
get_current_state d = last_state d.states

unfoldable pub perform_action : Domain → Action → Option Domain
unfolding get_current_state perform_product_update
perform_action d action = do
  current_state ← get_current_state d
  next ← perform_product_update current_state action
  some (record d { states = d.states ++ next ∷ [] })

-- The action of perform_do: one event, which is neither designated nor related.
unfoldable pub do_action : Domain → ℕ → List String → List String → Action
unfolding insert f_top Action.init Action.add_event
do_action d agent add_list delete_list =
    Action.add_event (Action.init agent d.amount_of_agents) (record {
      id = 0;
      precondition = (f_top (blank 0)).0;
      proposition_add = fold insert [] add_list;
      proposition_delete = fold insert [] delete_list;
    })

unfoldable pub perform_do : Domain → ℕ → List String → List String → Option Domain
unfolding do_action get_current_state perform_product_update
perform_do d agent add_list delete_list = do
  current_state ← get_current_state d
  next ← perform_product_update current_state (do_action d agent add_list delete_list)
  some (record d { states = d.states ++ next ∷ [] })
