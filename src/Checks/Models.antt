-- ===== src/Checks/Models.antt =====
-- A state with two worlds that agent 1 confuses, and an action of agent 1 by which it learns in which
-- of them it is.
use r2dtu_attention.Common.{
  ℕ, zero, suc, refl, Bool, true, false, String, List, [], ◌∷◌, arith, All,
}
use r2dtu_attention.Common.Sets.{contains}
use r2dtu_attention.Formula.{Formula}
use r2dtu_attention.Formula
use r2dtu_attention.World.{World}
use r2dtu_attention.State.{State, WorldRelation}
use r2dtu_attention.State.Valid.{IsValid}
use r2dtu_attention.Action.{Action, ActionEvent, EventRelation}
use r2dtu_attention.Operations.Worlds.{Evaluates}
use r2dtu_attention.World

abbrev pub proposition : String → Formula
proposition p = record { root = 0; formulas = Formula.prop p ∷ [] }

abbrev pub negation : String → Formula
negation p = record { root = 1; formulas = Formula.prop p ∷ Formula.not 0 ∷ [] }

abbrev pub arrow : ℕ → ℕ → WorldRelation
arrow from to = record { world_from = from; world_to = to }

abbrev pub two_worlds : List World
two_worlds =
    record { id = 0; true_propositions = "p" ∷ [] } ∷ record { id = 1; true_propositions = [] } ∷ []

-- World 0, where p holds, is the actual one; agent 1 does not know that.
abbrev pub unsure : State
unsure = record {
  number_of_agents = 2;
  worlds = two_worlds;
  designated_worlds = 0 ∷ [];
  indistinguishability_relation =
      (arrow 0 0 ∷ arrow 1 1 ∷ []) ∷ (arrow 0 0 ∷ arrow 0 1 ∷ arrow 1 0 ∷ arrow 1 1 ∷ []) ∷ [];
}

pub unsure-IsValid : IsValid unsure
unsure-IsValid = record {
  agents = refl;
  numbered = (refl, (refl, tt));
  designated = (omega arith, tt);
  distinct = (refl, tt);
  related = (
    ((omega arith, omega arith), ((omega arith, omega arith), tt)),
    (
      (
        (omega arith, omega arith),
        (
          (omega arith, omega arith),
          ((omega arith, omega arith), ((omega arith, omega arith), tt)),
        ),
      ),
      tt,
    ),
  );
}

abbrev pub event : ℕ → Formula → List String → List String → ActionEvent
event id precondition add delete = record {
  id = id;
  precondition = precondition;
  proposition_add = add;
  proposition_delete = delete;
}

abbrev pub step : ℕ → EventRelation
step i = record { event_from = i; event_to = i }

-- Agent 1 finds out whether p; where it holds, q becomes true instead.
abbrev pub look : Action
look = record {
  events = event 0 (proposition "p") ("q" ∷ []) ("p" ∷ []) ∷ event 1 (negation "p") [] [] ∷ [];
  designated_events = 0 ∷ 1 ∷ [];
  indistinguishability_relation = (step 0 ∷ step 1 ∷ []) ∷ (step 0 ∷ step 1 ∷ []) ∷ [];
  owner = 1;
}

-- What the preconditions of `look` come to.
abbrev pub look_holds : World → ActionEvent → Bool
look_holds w e = elim e.id [
  | zero ↦ contains w.true_propositions "p"
  | suc _ ↦ elim (contains w.true_propositions "p") [ true ↦ false | false ↦ true ]
]

pub look-Evaluates : All (Evaluates look_holds look.events) two_worlds
unfolding World.valuate contains
look-Evaluates = ((refl, (refl, tt)), ((refl, (refl, tt)), tt))

-- Agent 0 sees that p holds, and makes q true.
abbrev pub glance : Action
glance = record {
  events = event 0 (proposition "p") ("q" ∷ []) [] ∷ [];
  designated_events = 0 ∷ [];
  indistinguishability_relation = (step 0 ∷ []) ∷ (step 0 ∷ []) ∷ [];
  owner = 0;
}
