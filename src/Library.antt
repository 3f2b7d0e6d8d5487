-- ===== src/Library.antt =====
-- Pepper_Planner/Pepper_Planner/Action_Library.{hpp,cpp}, Agent.{hpp,cpp} and
-- Environment_Loader.{hpp,cpp}: the actions that the planner may use, and the built-in environment.
pub mod Environment
use r2dtu_attention.Common.{ℕ, String, List, [], ◌∷◌, ◌++◌, map, range_from}
use r2dtu_attention.Action.{Action}

pub record Agent : Type 0 where
  pub id : ℕ
  pub name : String

pub record ActionLibrary : Type 0 where
  pub actions : List Action
  pub agents : List Agent

-- Action_Library(amount_of_agents): agents without names.
unfoldable pub init : ℕ → ActionLibrary
init amount_of_agents = record {
  actions = [];
  agents = map (λ i. record { id = i; name = "" }) (range_from 0 amount_of_agents);
}

unfoldable pub add_action : ActionLibrary → Action → ActionLibrary
add_action l action = record l { actions = l.actions ++ action ∷ [] }
