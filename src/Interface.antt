-- ===== src/Interface.antt =====
-- Pepper_Planner/Pepper_Planner/DEL_Interface.{hpp,cpp} and Interface_DTO.{hpp,cpp}: the planner as the
-- robot uses it.
pub mod Plan
pub mod Solved
use r2dtu_attention.Common.{
  ℕ, Bool, true, false, String, Option, none, some, List, [], ◌∷◌, ◌==◌, if◌then◌else◌, ◌>>=◌,
}
use r2dtu_attention.Formula.{Formula}
use r2dtu_attention.Formula.Print
use r2dtu_attention.State.{State}
use r2dtu_attention.State
use r2dtu_attention.Action.{Action}
use r2dtu_attention.Action
use r2dtu_attention.Policy.{Policy}
use r2dtu_attention.Policy
use r2dtu_attention.Planner.{find_policy}
use r2dtu_attention.Library.{ActionLibrary}
use r2dtu_attention.Library.Environment.{load}
use r2dtu_attention.Domain.{Domain}
use r2dtu_attention.Domain

pub record InterfaceDto : Type 0 where
  pub has_an_action : Bool
  pub action : Action
  pub announce_string : String

-- Interface_DTO()
unfoldable pub no_action : InterfaceDto
unfolding Action.init
no_action = record { has_an_action = false; action = Action.init 0 0; announce_string = "" }

pub record DelInterface : Type 0 where
  pub domain : Domain
  pub has_policy : Bool
  pub policy : Policy
  pub action_library : ActionLibrary
  pub pepper_id : ℕ
  pub goal : Formula

-- DEL_Interface(initial_state, library), whose goal has no value yet.
unfoldable pub init : State → ActionLibrary → Formula → DelInterface
init initial_state library goal = record {
  domain = Domain.init initial_state.number_of_agents initial_state;
  has_policy = false;
  policy = Policy.init false;
  action_library = library;
  pepper_id = 0;
  goal = goal;
}

-- DEL_Interface(domain_to_load)
unfoldable pub loaded : ℕ → Option DelInterface
unfolding load
loaded domain_to_load = do
  (amount_of_agents, state, library, goal) ← load domain_to_load
  some (record {
    domain = Domain.init amount_of_agents state;
    has_policy = false;
    policy = Policy.init false;
    action_library = library;
    pepper_id = 0;
    goal = goal;
  })

-- The text of the first precondition, for an action of the robot itself.
unfoldable pub announcement : DelInterface → Action → Option String
unfolding Print.to_string
announcement i action =
    if action.owner == i.pepper_id
    then elim action.events [ [] ↦ some "" | event ∷ _ ↦ Print.to_string event.precondition ]
    else some ""

-- With a policy that has no entry for the current state the function ends without a value, which is
-- undefined behaviour.
unfoldable pub get_next_action :
    (List (List ℕ) → List (List ℕ)) → ℕ → DelInterface → Option InterfaceDto
unfolding no_action announcement Policy.get_action Domain.get_current_state
get_next_action arrange capacity i = elim i.has_policy [
  | false ↦ some no_action
  | true ↦ Domain.get_current_state i.domain >>= λ state.
      Policy.get_action arrange capacity i.policy state >>= λ found. elim found.1 [
        | true ↦ announcement i found.0 >>= λ announce_string.
            some
              (record { has_an_action = true; action = found.0; announce_string = announce_string })
        | false ↦ none
      ]
]

unfoldable pub perform_do : DelInterface → ℕ → List String → List String → Option DelInterface
unfolding Domain.perform_do
perform_do i agent add delete =
    Domain.perform_do i.domain agent add delete >>= λ d. some (record i { domain = d })

unfoldable pub perform_action : DelInterface → Action → Option DelInterface
unfolding Domain.perform_action
perform_action i action =
    Domain.perform_action i.domain action >>= λ d. some (record i { domain = d })

-- create_policy, with what the planner's search leaves open.
unfoldable pub create_policy :
    (List ℕ → List ℕ) → ℕ → ℕ → DelInterface → Formula → Option (DelInterface × Bool)
unfolding find_policy Domain.get_current_state
create_policy order garbage fuel i goal = do
  state ← Domain.get_current_state i.domain
  policy ← find_policy order goal garbage fuel i.action_library.actions state
  some (record i { goal = goal; policy = policy; has_policy = policy.solved }, policy.solved)

unfoldable pub is_solved : DelInterface → Option Bool
unfolding State.valuate Domain.get_current_state
is_solved i = Domain.get_current_state i.domain >>= λ s. State.valuate s i.goal
