-- ===== src/Library/Environment.antt =====
-- Pepper_Planner/Pepper_Planner/Environment_Loader.{hpp,cpp}: environment 0, two agents and a red
-- cube in one of three boxes. A write out of range is `none`, as in State and Action.
use r2dtu_attention.Common.{ℕ, String, Option, some, List, [], ◌∷◌, range_from, fold_steps, ◌>>=◌}
use r2dtu_attention.Formula.{Formula, blank, f_prop, f_not}
use r2dtu_attention.State.{State}
use r2dtu_attention.State
use r2dtu_attention.Action.{Action, ActionEvent}
use r2dtu_attention.Action
use r2dtu_attention.Library.{ActionLibrary}
use r2dtu_attention.Library

-- A formula that is the proposition alone. The new formula's root is written before it is read.
unfoldable pub proposition : String → Formula
unfolding f_prop
proposition p = (f_prop (blank 0) p).0

unfoldable pub get_goal_formula : Formula
unfolding proposition
get_goal_formula = proposition "in(red,L)"

abbrev pub event_of : ℕ → Formula → List String → List String → ActionEvent
event_of id precondition add delete = record {
  id = id;
  precondition = precondition;
  proposition_add = add;
  proposition_delete = delete;
}

-- Both agents see the event.
unfoldable pub relate_both : Action → ℕ → Option Action
unfolding Action.add_indistinguishability_relation
relate_both a event = do
  b ← Action.add_indistinguishability_relation a 0 event event
  Action.add_indistinguishability_relation b 1 event event

unfoldable pub announce_action : String → Option Action
unfolding Action.init Action.add_event Action.add_designated_event relate_both proposition
announce_action p =
    let a = Action.add_event (Action.init 0 2) (event_of 0 (proposition p) [] []) in
    relate_both (Action.add_designated_event a 0) 0

unfoldable pub pickup_action : String → String → Option Action
unfolding Action.init Action.add_event Action.add_designated_event relate_both proposition
pickup_action from to =
    let event = event_of 0 (proposition from) (to ∷ []) (from ∷ []) in
    relate_both (Action.add_designated_event (Action.add_event (Action.init 1 2) event) 0) 0

unfoldable pub negation : String → Formula
unfolding f_prop f_not
negation p = let (f, i) = f_prop (blank 0) p in (f_not f i).0

unfoldable pub perceive_action : String → Option Action
unfolding Action.init Action.add_event Action.add_designated_event relate_both proposition negation
perceive_action p = do
  let a = Action.add_event (Action.init 1 2) (event_of 0 (proposition p) [] [])
  let b = Action.add_event a (event_of 1 (negation p) [] [])
  let c = Action.add_designated_event (Action.add_designated_event b 0) 1
  fold_steps relate_both c (range_from 0 2)

unfoldable pub add_announce_action : ActionLibrary → String → Option ActionLibrary
unfolding announce_action Library.add_action
add_announce_action l p = announce_action p >>= λ a. some (Library.add_action l a)

unfoldable pub add_pickup_action : ActionLibrary → String × String → Option ActionLibrary
unfolding pickup_action Library.add_action
add_pickup_action l (from, to) = pickup_action from to >>= λ a. some (Library.add_action l a)

unfoldable pub add_perceive_action : ActionLibrary → String → Option ActionLibrary
unfolding perceive_action Library.add_action
add_perceive_action l p = perceive_action p >>= λ a. some (Library.add_action l a)

-- The third pickup action adds a proposition that is spelled with a space.
unfoldable pub add_actions : ActionLibrary → Option ActionLibrary
unfolding add_announce_action add_pickup_action add_perceive_action
add_actions l = do
  a ← fold_steps add_announce_action l ("in(red,Box0)" ∷ "in(red,Box1)" ∷ "in(red,Box2)" ∷ [])
  b ← fold_steps add_pickup_action a (
      ("in(red,Box0)", "in(red,L)")
      ∷ ("in(red,Box1)", "in(red,L)")
      ∷ ("in(red,Box2)", "in(red, L)")
      ∷ [])
  fold_steps add_perceive_action b ("in(red,Box0)" ∷ "in(red,Box1)" ∷ "in(red,Box2)" ∷ [])

unfoldable pub relate_row : State → ℕ → Option State
unfolding State.add_indistinguishability_relation
relate_row s i =
    fold_steps (λ t j. State.add_indistinguishability_relation t 1 i j) s (range_from 0 3)

unfoldable pub get_initial_state : ℕ → Option State
unfolding State.init State.create_worlds State.add_true_propositions relate_row
    State.add_designated_world
get_initial_state amount_of_agents = do
  let s0 = State.create_worlds (State.init amount_of_agents) 3
  s1 ← State.add_true_propositions s0 0 ("in(red,Box0)" ∷ [])
  s2 ← State.add_true_propositions s1 1 ("in(red,Box1)" ∷ [])
  s3 ← State.add_true_propositions s2 2 ("in(red,Box2)" ∷ [])
  s4 ← fold_steps relate_row s3 (range_from 0 3)
  s5 ← State.add_indistinguishability_relation s4 0 1 1
  some (State.add_designated_world s5 1)

-- load_0, where the Domain is the number of agents and the initial state.
unfoldable pub load_0 : Option (ℕ × State × ActionLibrary × Formula)
unfolding get_initial_state add_actions Library.init get_goal_formula
load_0 = do
  state ← get_initial_state 2
  library ← add_actions (Library.init 2)
  some (2, state, library, get_goal_formula)

-- Each environment number loads environment 0.
unfoldable pub load : ℕ → Option (ℕ × State × ActionLibrary × Formula)
unfolding load_0
load environment_number = load_0
