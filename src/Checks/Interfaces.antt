-- ===== src/Checks/Interfaces.antt =====
-- The theorems on the planner's interface at small inputs.
use r2dtu_attention.Common.{◌≡◌, refl, true, some, [], ◌∷◌, arith, fold_steps}
use r2dtu_attention.Common.Sets.{contains}
use r2dtu_attention.Planner.Winning.{Winning}
use r2dtu_attention.Interface.{DelInterface, init, perform_do, is_solved, create_policy}
use r2dtu_attention.Interface.Plan.{create_policy-Winning}
use r2dtu_attention.Interface.Solved.{perform_do-is_solved}
use r2dtu_attention.Domain.{get_current_state}
use r2dtu_attention.Checks.Models.{proposition, unsure, unsure-IsValid, look, glance}

abbrev robot : DelInterface
robot = init unsure (record { actions = look ∷ glance ∷ []; agents = [] }) (proposition "q")

current : get_current_state robot.domain ≡ some unsure
unfolding get_current_state init
current = refl

perform_do-is_solved_example :
    (j : DelInterface) × (perform_do robot 0 ("r" ∷ []) [] ≡ some j) × (is_solved j ≡ some true)
unfolding init
perform_do-is_solved_example =
    perform_do-is_solved robot 0 ("r" ∷ []) [] unsure current unsure-IsValid (omega arith)

abbrev planned : DelInterface
planned = record robot {
  has_policy = true;
  policy = record { solved = true; policy = (unsure, glance) ∷ [] };
}

created : create_policy (λ ws. ws) 0 10 robot (proposition "q") ≡ some (planned, true)
unfolding create_policy init contains fold_steps
created = refl

create_policy-Winning_example :
    Winning (λ ws. ws) (proposition "q") robot.action_library.actions unsure
    × (planned.has_policy ≡ true)
    × (planned.goal ≡ proposition "q")
create_policy-Winning_example =
    create_policy-Winning (λ ws. ws) 0 10 robot planned (proposition "q") unsure refl current
      created
