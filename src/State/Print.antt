-- ===== src/State/Print.antt =====
-- World::to_string, State::to_string and to_graph, and get_indentation of Misc.cpp. An indentation is at least 1, as all
-- callers pass it. Texts of sets are in the order of the set.
use mathlib.Core.Option
use r2dtu_attention.Common.{
  ℕ, zero, suc, ◌+◌, ◌-◌, Option, some, String, List, [], ◌∷◌, map, if◌then◌else◌, length,
  get_elem?, has, ◌>>=◌,
}
use r2dtu_attention.Common.Texts.{◌<>◌, to_string, join, texts, try_texts}
use r2dtu_attention.World.{World}
use r2dtu_attention.State.{State, WorldRelation}
use r2dtu_attention.Library.{Agent}

unfoldable pub get_indentation : ℕ → String
get_indentation zero = ""
get_indentation (suc n) = "-" <> get_indentation n

unfoldable pub world_to_string : World → String
unfolding to_string join
world_to_string w = "World " <> to_string w.id <> ": " <> join ";" w.true_propositions

unfoldable pub relations_size {ℓ} : {R : Type ℓ} → List (List R) → ℕ
relations_size [] = 0
relations_size (rels ∷ relation) = length rels + relations_size relation

-- The loops over the relations, from the agent `current_agent` on.
unfoldable pub relations_to_string : ℕ → List (List WorldRelation) → String
unfolding to_string texts
relations_to_string current_agent [] = ""
relations_to_string current_agent (rels ∷ relation) =
    texts
      (λ r.
        "\n("
        <> to_string current_agent
        <> ", "
        <> to_string r.world_from
        <> ", "
        <> to_string r.world_to
        <> ")")
      rels
    <> relations_to_string (suc current_agent) relation

unfoldable pub state_to_string : State → ℕ → String
unfolding get_indentation relations_size relations_to_string world_to_string to_string join texts
state_to_string s indentation =
    get_indentation indentation
    <> " State\n"
    <> get_indentation (indentation - 1)
    <> " Sizes: (agents, "
    <> to_string s.number_of_agents
    <> ") (worlds, "
    <> to_string (length s.worlds)
    <> ") (designated worlds, "
    <> to_string (length s.designated_worlds)
    <> ") (relations, "
    <> to_string (relations_size s.indistinguishability_relation)
    <> ")\n"
    <> get_indentation (indentation - 1)
    <> " Designated worlds: "
    <> join ", " (map to_string s.designated_worlds)
    <> "\n"
    <> get_indentation (indentation - 1)
    <> " ({Agent}, {World from}, {World to}) Relations"
    <> relations_to_string 0 s.indistinguishability_relation
    <> "\n"
    <> get_indentation (indentation - 1)
    <> " World {id}: {propositions}"
    <> texts (λ w. "\n" <> world_to_string w) s.worlds

-- The first loop of to_graph.
unfoldable pub world_to_graph : State → String → World → String
unfolding to_string join
world_to_graph s node_id w =
    node_id
    <> to_string w.id
    <> " [label=\""
    <> to_string w.id
    <> "\n"
    <> join ", " w.true_propositions
    <> "\""
    <> (if has w.id s.designated_worlds then ", shape=doublecircle];\n" else "];\n")

-- The second loop, from the agent `agent_id` on; a relation of an agent without a name is out of range.
unfoldable pub relations_to_graph :
    List Agent → String → ℕ → List (List WorldRelation) → Option String
unfolding to_string try_texts
relations_to_graph agents node_id agent_id [] = some ""
relations_to_graph agents node_id agent_id (rels ∷ relation) = do
  here ←
      try_texts
        (λ r.
          Option.map
            (λ agent.
              node_id
              <> to_string r.world_from
              <> " -> "
              <> node_id
              <> to_string r.world_to
              <> "[label=\""
              <> agent.name
              <> "\"];\n")
            (get_elem? agents agent_id))
        rels
  rest ← relations_to_graph agents node_id (suc agent_id) relation
  some (here <> rest)

unfoldable pub state_to_graph : State → List Agent → String → Option String
unfolding world_to_graph relations_to_graph texts
state_to_graph s agents node_id =
    Option.map (λ edges. texts (world_to_graph s node_id) s.worlds <> edges)
      (relations_to_graph agents node_id 0 s.indistinguishability_relation)
