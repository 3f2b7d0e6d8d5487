-- ===== src/Checks/Planning.antt =====
-- Tests of the planner, and its theorems at a small search.
use r2dtu_attention.World
use r2dtu_attention.Graph.{Graph}
use r2dtu_attention.Planner.Ready.{IsUsable, IsOrder}
use r2dtu_attention.Planner.Steps.{IsDefined}
use r2dtu_attention.Planner.Runs.{Rounds, first_graph, find_policy-Rounds}
use r2dtu_attention.Checks.Models.{unsure-IsValid, look_holds}
use r2dtu_attention.Common.{◌⊎◌, arith}
use r2dtu_attention.Common.{◌≡◌, refl, true, some, [], ◌∷◌, fold_steps}
use r2dtu_attention.Common.Sets.{contains}
use r2dtu_attention.Policy.{Policy}
use r2dtu_attention.Planner.{find_policy}
use r2dtu_attention.Planner.Winning.{Winning}
use r2dtu_attention.Planner.Sound.{find_policy-Winning}
use r2dtu_attention.Checks.Models.{proposition, unsure, look, glance}

-- In the state where p holds, a look makes q true.
abbrev policy_for_q : Policy
policy_for_q = record { solved = true; policy = (unsure, glance) ∷ [] }

plan_for_q :
    find_policy (λ ws. ws) (proposition "q") 0 10 (look ∷ glance ∷ []) unsure ≡ some policy_for_q
unfolding find_policy contains fold_steps
plan_for_q = refl

find_policy-Winning_example : Winning (λ ws. ws) (proposition "q") (look ∷ glance ∷ []) unsure
find_policy-Winning_example =
    find_policy-Winning (λ ws. ws) (proposition "q") 0 10 (look ∷ glance ∷ []) unsure policy_for_q
      refl plan_for_q refl

identity-IsOrder : IsOrder (λ ws. ws)
identity-IsOrder = record { same = λ ws v. refl; distinct = λ ws d. d }

look-IsUsable : IsUsable 2 look
unfolding World.valuate contains
look-IsUsable = record {
  owner = omega arith;
  related = omega arith;
  holds = look_holds;
  evaluates = λ w. (refl, (ground arith, tt));
}

proposition-IsDefined : IsDefined (proposition "q")
unfolding World.valuate contains
proposition-IsDefined = record {
  holds = λ w. contains w.true_propositions "q";
  evaluates = λ w. refl;
}

find_policy-Rounds_example :
    ((p : Policy) × (find_policy (λ ws. ws) (proposition "q") 0 10 (look ∷ []) unsure ≡ some p))
    ⊎ ((h : Graph) × Rounds (λ ws. ws) (proposition "q") (look ∷ []) 10 (first_graph 0 unsure) h)
find_policy-Rounds_example =
    find_policy-Rounds 2 (λ ws. ws) (proposition "q") 0 10 (look ∷ []) unsure refl identity-IsOrder
      (look-IsUsable, tt) proposition-IsDefined (unsure-IsValid, refl)
