-- ===== src/Operations.antt =====
-- Pepper_Planner/Pepper_Planner/DEL_Operations.{hpp,cpp}: the operations of dynamic epistemic logic.
pub mod Worlds
pub mod Relate
pub mod Points
pub mod Product
pub mod Split
pub mod Applicable
pub mod Shift
pub mod Moved
pub mod Perspective
use mathlib.Core.List.{reverse}
use r2dtu_attention.Common.{
  ℕ, ◌+◌, Bool, true, false, ◌&&◌, Option, some, List, [], ◌∷◌, ◌++◌, ◌==◌, if◌then◌else◌, length,
  has, range_from, fold, fold_steps, ◌>>=◌, and_then,
}
use r2dtu_attention.World.{World}
use r2dtu_attention.World
use r2dtu_attention.State.{State, WorldRelation}
use r2dtu_attention.State
use r2dtu_attention.Action.{Action, ActionEvent}
use r2dtu_attention.Action

pub record WorldEntry : Type 0 where
  pub old_world : ℕ
  pub old_event : ℕ
  pub new_world : ℕ

module _ (state : State) (action : Action) where
  -- The body of the inner loop, where the precondition holds.
  unfoldable pub apply_event :
      State × List WorldEntry → World → ActionEvent → State × List WorldEntry
  unfolding State.create_world World.add_true_propositions World.remove_true_propositions
      State.write_world State.is_world_designated Action.is_event_designated
      State.add_designated_world
  apply_event (result, entries) world event =
      let (created, w0) = State.create_world result in
      let w1 = World.add_true_propositions w0 world.true_propositions in
      let w2 = World.remove_true_propositions w1 event.proposition_delete in
      let updated = World.add_true_propositions w2 event.proposition_add in
      let written = State.write_world created updated in
      let designated =
        State.is_world_designated state world.id && Action.is_event_designated action event.id in
      (
        if designated then State.add_designated_world written updated.id else written,
        entries
            ++ record { old_world = world.id; old_event = event.id; new_world = updated.id } ∷ [],
      )

  -- The loops over the worlds and the events, which make the new worlds and note where they come from.
  unfoldable pub product_event :
      World → State × List WorldEntry → ActionEvent → Option (State × List WorldEntry)
  unfolding apply_event World.valuate
  product_event world acc event =
      World.valuate world event.precondition
      >>= elim [ true ↦ some (apply_event acc world event) | false ↦ some acc ]

  unfoldable pub product_world : State × List WorldEntry → World → Option (State × List WorldEntry)
  unfolding product_event
  product_world acc world = fold_steps (product_event world) acc action.events

  -- The body of the loop over the agents.
  unfoldable pub relate_agent : WorldEntry → WorldEntry → State → ℕ → Option State
  unfolding State.is_one_reachable Action.is_one_reachable State.add_indistinguishability_relation
  relate_agent entry1 entry2 result agent =
      and_then (State.is_one_reachable state agent entry1.old_world entry2.old_world)
        (Action.is_one_reachable action agent entry1.old_event entry2.old_event)
      >>= elim [
        | true ↦
            State.add_indistinguishability_relation result agent entry1.new_world entry2.new_world
        | false ↦ some result
      ]

  unfoldable pub relate_pair : WorldEntry → State → WorldEntry → Option State
  unfolding relate_agent
  relate_pair entry1 result entry2 =
      fold_steps (relate_agent entry1 entry2) result (range_from 0 state.number_of_agents)

  unfoldable pub relate_entry : List WorldEntry → State → WorldEntry → Option State
  unfolding relate_pair
  relate_entry entries result entry1 = fold_steps (relate_pair entry1) result entries

  unfoldable pub perform_product_update : Option State
  unfolding product_world relate_entry State.init
  perform_product_update = do
    (result, entries) ←
        fold_steps product_world (State.init state.number_of_agents, []) state.worlds
    fold_steps (relate_entry entries) result entries

-- The search of perform_perspective_shift is the one of State::get_designated_world_reachables, with
-- a set of visited ids, whose iteration order the standard library leaves open: `order` lists the
-- elements of the set as a range-for over it does.
unfoldable pub insert_id : List ℕ → ℕ → List ℕ
insert_id visited w = if has w visited then visited else w ∷ visited

-- old_to_new_mapping[w], which is 0 for a key that is not there.
unfoldable pub lookup_id : List (ℕ × ℕ) → ℕ → ℕ
lookup_id [] w = 0
lookup_id ((old, new) ∷ mapping) w = if old == w then new else lookup_id mapping w

module _ (state : State) where
  unfoldable pub shift_world : State × List (ℕ × ℕ) → ℕ → Option (State × List (ℕ × ℕ))
  unfolding State.get_world State.create_world_from State.add_designated_world
  shift_world (result, mapping) w = do
    world ← State.get_world state w
    let (created, new_world) = State.create_world_from result world
    some (State.add_designated_world created new_world.id, (w, new_world.id) ∷ mapping)

  unfoldable pub shift_relation : List ℕ → List (ℕ × ℕ) → ℕ → State → WorldRelation → Option State
  unfolding lookup_id State.add_indistinguishability_relation
  shift_relation visited mapping agent result relation =
      if has relation.world_from visited && has relation.world_to visited
      then State.add_indistinguishability_relation result agent
          (lookup_id mapping relation.world_from) (lookup_id mapping relation.world_to)
      else some result

  unfoldable pub shift_agent : List ℕ → List (ℕ × ℕ) → State → ℕ → Option State
  unfolding shift_relation State.get_indistinguishability_relations
  shift_agent visited mapping result agent =
      State.get_indistinguishability_relations state agent
      >>= fold_steps (shift_relation visited mapping agent) result

  unfoldable pub perspective_visited : ℕ → Option (List ℕ)
  unfolding State.search_loop insert_id State.get_indistinguishability_relations
  perspective_visited agent = do
    rels ← State.get_indistinguishability_relations state agent
    let start = reverse state.designated_worlds
    State.search_loop (length start + length rels) rels start
        (fold insert_id [] state.designated_worlds)

  unfoldable pub perform_perspective_shift : (List ℕ → List ℕ) → ℕ → Option State
  unfolding perspective_visited shift_world shift_agent State.init
  perform_perspective_shift order agent = do
    visited ← perspective_visited agent
    (result, mapping) ←
        fold_steps shift_world (State.init state.number_of_agents, []) (order visited)
    fold_steps (shift_agent visited mapping) result (range_from 0 state.number_of_agents)

  -- One state for each designated world, which the agent then tells apart from all others.
  unfoldable pub split_world : ℕ → List State → ℕ → Option (List State)
  unfolding State.set_global_for_agent
  split_world agent result w =
      State.set_global_for_agent state agent w >>= λ new_state. some (result ++ new_state ∷ [])

  unfoldable pub split_into_global_states : ℕ → Option (List State)
  unfolding split_world
  split_into_global_states agent = fold_steps (split_world agent) [] state.designated_worlds

-- Whether some event is applicable in the world: the loop goes over all events.
unfoldable pub found_applicable_event : World → Bool → ActionEvent → Option Bool
unfolding World.valuate
found_applicable_event world found event =
    World.valuate world event.precondition >>= λ holds. some (if holds then true else found)

unfoldable pub applicable_in_worlds : State → Action → List ℕ → Option Bool
unfolding found_applicable_event State.get_world
applicable_in_worlds state action [] = some true
applicable_in_worlds state action (w ∷ ws) =
    (State.get_world state w >>= λ world.
    fold_steps (found_applicable_event world) false action.events)
    >>= elim [ true ↦ applicable_in_worlds state action ws | false ↦ some false ]

unfoldable pub is_action_applicable : State → Action → Option Bool
unfolding applicable_in_worlds State.get_designated_world_reachables
is_action_applicable state action =
    State.get_designated_world_reachables state action.owner >>= applicable_in_worlds state action
