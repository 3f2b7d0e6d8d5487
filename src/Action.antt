-- ===== src/Action.antt =====
-- Pepper_Planner/Pepper_Planner/Action_Event.{hpp,cpp} and Action.{hpp,cpp}: event models.
pub mod Print
use mathlib.Core.Option
use r2dtu_attention.Common.{
  ℕ, Bool, ◌&&◌, Option, some, String, List, [], ◌∷◌, ◌++◌, ◌==◌, get_elem?, set, replicate, any,
  has, ◌>>=◌,
}
use r2dtu_attention.Formula.{Formula}

pub record ActionEvent : Type 0 where
  pub id : ℕ
  pub precondition : Formula
  pub proposition_add : List String
  pub proposition_delete : List String

pub record EventRelation : Type 0 where
  pub event_from : ℕ
  pub event_to : ℕ

pub record Action : Type 0 where
  pub events : List ActionEvent
  pub designated_events : List ℕ
  pub indistinguishability_relation : List (List EventRelation)
  pub owner : ℕ

-- Action(owner, number_of_agents)
unfoldable pub init : ℕ → ℕ → Action
init owner number_of_agents = record {
  events = [];
  designated_events = [];
  indistinguishability_relation = replicate number_of_agents [];
  owner = owner;
}

unfoldable pub add_event : Action → ActionEvent → Action
add_event a event = record a { events = a.events ++ event ∷ [] }

abbrev pub relates : ℕ → ℕ → List EventRelation → Bool
relates from to = any (λ r. r.event_from == from && r.event_to == to)

unfoldable pub is_one_reachable : Action → ℕ → ℕ → ℕ → Option Bool
is_one_reachable a agent event1 event2 =
    Option.map (relates event1 event2) (get_elem? a.indistinguishability_relation agent)

unfoldable pub is_event_designated : Action → ℕ → Bool
is_event_designated a event = has event a.designated_events

unfoldable pub add_indistinguishability_relation : Action → ℕ → ℕ → ℕ → Option Action
add_indistinguishability_relation a agent from to = do
  rels ← get_elem? a.indistinguishability_relation agent
  some (record a {
    indistinguishability_relation =
        set a.indistinguishability_relation agent
          (rels ++ record { event_from = from; event_to = to } ∷ []);
  })

unfoldable pub add_designated_event : Action → ℕ → Action
add_designated_event a event = record a { designated_events = a.designated_events ++ event ∷ [] }
