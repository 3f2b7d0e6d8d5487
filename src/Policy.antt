-- ===== src/Policy.antt =====
-- Pepper_Planner/Pepper_Planner/Policy.{hpp,cpp}: the list of the states with the action to take.
pub mod Print
use r2dtu_attention.Common.{ℕ, Bool, true, false, Option, some, List, [], ◌∷◌, ◌++◌, ◌>>=◌}
use r2dtu_attention.State.{State}
use r2dtu_attention.Action.{Action}
use r2dtu_attention.Action
use r2dtu_attention.Bisimulation.{are_states_bisimilar}

pub record Policy : Type 0 where
  pub solved : Bool
  pub policy : List (State × Action)

-- Policy(solved)
abbrev pub init : Bool → Policy
init solved = record { solved = solved; policy = [] }

unfoldable pub add_policy_entry : Policy → State → Action → Policy
add_policy_entry p state action = record p { policy = p.policy ++ (state, action) ∷ [] }

-- The loop of get_action: it returns at the first entry whose state is bisimilar. Where there is
-- none, the action is a dummy.
unfoldable pub find_entry :
    (List (List ℕ) → List (List ℕ)) → ℕ → List (State × Action) → State → Option (Action × Bool)
unfolding are_states_bisimilar Action.init
find_entry arrange capacity [] state = some (Action.init 0 0, false)
find_entry arrange capacity ((entry, action) ∷ entries) state =
    are_states_bisimilar arrange capacity entry state
    >>= elim [ true ↦ some (action, true) | false ↦ find_entry arrange capacity entries state ]

unfoldable pub get_action :
    (List (List ℕ) → List (List ℕ)) → ℕ → Policy → State → Option (Action × Bool)
unfolding find_entry
get_action arrange capacity p state = find_entry arrange capacity p.policy state
