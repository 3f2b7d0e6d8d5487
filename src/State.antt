-- ===== src/State.antt =====
-- Pepper_Planner/Pepper_Planner/State.{hpp,cpp}: a multi-pointed epistemic model. Worlds are read by
-- their position, and each agent has a list of relations between worlds.
pub mod Edges
pub mod Visits
pub mod Search
pub mod Valid
pub mod Print
use mathlib.Core.Option
use mathlib.Core.List.{reverse}
use r2dtu_attention.Common.{
  ℕ, zero, suc, ◌+◌, ◌*◌, Bool, true, false, ◌&&◌, Option, none, some, String, List, [], ◌∷◌, ◌++◌,
  ◌==◌, if◌then◌else◌, length, get_elem?, set, replicate, any, has, ◌>>=◌,
}
use r2dtu_attention.Formula.{Formula}
use r2dtu_attention.World.{World}
use r2dtu_attention.World

pub record WorldRelation : Type 0 where
  pub world_from : ℕ
  pub world_to : ℕ

pub record State : Type 0 where
  pub number_of_agents : ℕ
  pub worlds : List World
  pub designated_worlds : List ℕ
  pub indistinguishability_relation : List (List WorldRelation)

-- State(number_of_agents)
unfoldable pub init : ℕ → State
init number_of_agents = record {
  number_of_agents = number_of_agents;
  worlds = [];
  designated_worlds = [];
  indistinguishability_relation = replicate number_of_agents [];
}

-- worlds[world.id]
unfoldable pub get_world : State → ℕ → Option World
get_world s w = get_elem? s.worlds w

unfoldable pub get_indistinguishability_relations : State → ℕ → Option (List WorldRelation)
get_indistinguishability_relations s agent = get_elem? s.indistinguishability_relation agent

-- The loop of State::valuate, which returns at the first designated world where the formula fails.
unfoldable pub valuate_worlds : State → Formula → List ℕ → Option Bool
unfolding World.valuate get_world
valuate_worlds s f [] = some true
valuate_worlds s f (w ∷ ws) =
    (get_world s w >>= λ world. World.valuate world f)
    >>= elim [ true ↦ valuate_worlds s f ws | false ↦ some false ]

unfoldable pub valuate : State → Formula → Option Bool
unfolding valuate_worlds
valuate s f = valuate_worlds s f s.designated_worlds

abbrev pub relates : ℕ → ℕ → List WorldRelation → Bool
relates from to = any (λ r. r.world_from == from && r.world_to == to)

unfoldable pub is_one_reachable : State → ℕ → ℕ → ℕ → Option Bool
unfolding get_indistinguishability_relations
is_one_reachable s agent world1 world2 =
    Option.map (relates world1 world2) (get_indistinguishability_relations s agent)

-- The loop over the relations of the agent, for one world of the frontier. The frontier is a stack
-- whose back is the head of the list; `visited` is newest first.
unfoldable pub visit : ℕ → List WorldRelation → List ℕ × List ℕ → List ℕ × List ℕ
visit current [] (frontier, visited) = (frontier, visited)
visit current (r ∷ rs) (frontier, visited) = visit current rs (
    if r.world_from == current && (if has r.world_to visited then false else true)
    then (r.world_to ∷ frontier, r.world_to ∷ visited)
    else (frontier, visited))

-- while (!frontier.empty()): `none` is a loop that needs more rounds than the fuel.
unfoldable pub search_loop : ℕ → List WorldRelation → List ℕ → List ℕ → Option (List ℕ)
unfolding visit
search_loop fuel rels [] visited = some visited
search_loop zero rels (w ∷ frontier) visited = none
search_loop (suc fuel) rels (w ∷ frontier) visited =
    let (frontier', visited') = visit w rels (frontier, visited) in
    search_loop fuel rels frontier' visited'

-- State::get_designated_world_reachables. Each relation is followed at most once, so the designated
-- worlds and the relations bound the rounds.
unfoldable pub get_designated_world_reachables : State → ℕ → Option (List ℕ)
unfolding search_loop get_indistinguishability_relations
get_designated_world_reachables s agent = do
  rels ← get_indistinguishability_relations s agent
  let start = reverse s.designated_worlds
  visited ← search_loop (length start + length rels) rels start start
  some (reverse visited)

unfoldable pub is_world_designated : State → ℕ → Bool
is_world_designated s w = has w s.designated_worlds

unfoldable pub get_worlds_count : State → ℕ
get_worlds_count s = length s.worlds

unfoldable pub get_designated_worlds_count : State → ℕ
get_designated_worlds_count s = length s.designated_worlds

-- indistinguishability_relation[agent.id].emplace_back(world_from, world_to)
unfoldable pub add_indistinguishability_relation : State → ℕ → ℕ → ℕ → Option State
add_indistinguishability_relation s agent from to = do
  rels ← get_elem? s.indistinguishability_relation agent
  some (record s {
    indistinguishability_relation =
        set s.indistinguishability_relation agent
          (rels ++ record { world_from = from; world_to = to } ∷ []);
  })

-- worlds[world.id].add_true_propositions(propositions)
unfoldable pub add_true_propositions : State → ℕ → List String → Option State
unfolding World.add_true_propositions
add_true_propositions s w propositions = do
  world ← get_elem? s.worlds w
  some (record s { worlds = set s.worlds w (World.add_true_propositions world propositions) })

unfoldable pub remove_true_propositions : State → ℕ → List String → Option State
unfolding World.remove_true_propositions
remove_true_propositions s w propositions = do
  world ← get_elem? s.worlds w
  some (record s { worlds = set s.worlds w (World.remove_true_propositions world propositions) })

-- create_world(): the new state, and the world that the returned reference denotes.
unfoldable pub create_world : State → State × World
create_world s =
    let world = World.fresh (length s.worlds) in
    (record s { worlds = s.worlds ++ world ∷ [] }, world)

-- create_world(world): a copy of the propositions under a new id.
unfoldable pub create_world_from : State → World → State × World
create_world_from s world =
    let copy : World = record {
      id = length s.worlds;
      true_propositions = world.true_propositions;
    } in
    (record s { worlds = s.worlds ++ copy ∷ [] }, copy)

unfoldable pub create_worlds : State → ℕ → State
unfolding create_world
create_worlds s zero = s
create_worlds s (suc n) = create_worlds (create_world s).0 n

-- A write through the reference that create_world returned.
unfoldable pub write_world : State → World → State
write_world s world = record s { worlds = set s.worlds world.id world }

unfoldable pub add_designated_world : State → ℕ → State
add_designated_world s w =
    if has w s.designated_worlds
    then s
    else record s { designated_worlds = s.designated_worlds ++ w ∷ [] }

-- The clear() and push_back() of the agent's relations come after those of the designated worlds.
unfoldable pub set_global_for_agent : State → ℕ → ℕ → Option State
set_global_for_agent s agent w = do
  _ ← get_elem? s.indistinguishability_relation agent
  some (record s {
    designated_worlds = w ∷ [];
    indistinguishability_relation =
        set s.indistinguishability_relation agent (record { world_from = w; world_to = w } ∷ []);
  })
