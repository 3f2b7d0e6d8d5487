-- ===== src/Reasoning/Robot.antt =====
-- The state of EpistemicReasoning and the operations that change it. The iteration order of
-- agent_infos_ is that of the list. What is published or printed is left out.
use text.Mathlib.Text.{◌==◌}
use r2dtu_attention.Common.{
  Bool, true, false, Option, none, some, String, List, [], ◌∷◌, ◌++◌, map, if◌then◌else◌, ltb,
  fold_steps, ◌>>=◌, ◌||◌,
}
use r2dtu_attention.Common.Texts.{◌<>◌, lookup_name}
use r2dtu_attention.Reasoning.Evaluate.{Del}
use r2dtu_attention.Reasoning.Markers.{marker_number}

-- EpistemicReasoning::Agent::State
pub data Presence : Type 0 where
  present spying away : Presence

-- EpistemicObjectType
pub data ObjectType : Type 0 where
  storable container agent : ObjectType

-- Storable objects have a marker number of at most 1000, containers one of at least 200.
unfoldable pub can_be_inside : String → Bool
unfolding marker_number
can_be_inside fst = elim (marker_number fst) [
  | none ↦ false
  | some (negative, n) ↦ negative || (if ltb 1000 n then false else true)
]

unfoldable pub can_hold : String → Bool
unfolding marker_number
can_hold snd = elim (marker_number snd) [
  | none ↦ false
  | some (negative, n) ↦ if negative || ltb n 200 then false else true
]

-- The inner loop of setup_domain, for one object.
unfoldable pub propositions_of : String → List String → List String
unfolding can_hold
propositions_of fst [] = []
propositions_of fst (snd ∷ objects) =
    let rest = propositions_of fst objects in
    if (if fst == snd then false else can_hold snd)
    then ("in(" <> fst <> "," <> snd <> ")") ∷ rest
    else rest

-- The propositions that setup_domain makes for all objects.
unfoldable pub location_propositions : List String → List String → List String
unfolding propositions_of can_be_inside
location_propositions all [] = []
location_propositions all (fst ∷ objects) =
    (if can_be_inside fst then propositions_of fst all else []) ++ location_propositions all objects

module _ (del : Del) where
  pub record AgentInfo : Type 0 where
    pub id : del.AgentId
    pub state : Presence

  pub record EpistemicReasoning : Type 0 where
    pub d : del.Domain
    pub latest_state : del.StateId
    pub all_objects : List String
    pub agents : List String
    pub storables : List String
    pub containers : List String
    pub agent_infos : List (String × AgentInfo)
    pub blank_views_flag : Bool

  -- The attention of an agent to every proposition.
  unfoldable pub attend :
      del.Domain → del.AgentId → List del.PropositionId → String → Option (List del.PropositionId)
  attend d i initial name = do
    p ← del.get_proposition_id d name
    q ← del.get_attention_proposition_id d i p
    some (initial ++ q ∷ [])

  -- The loop over the agents: they get their ids, and those not away attend to all propositions.
  unfoldable pub setup_agents :
      del.Domain
      → List String
      → List (String × AgentInfo)
      → Option (List (String × AgentInfo) × List del.PropositionId)
  unfolding attend
  setup_agents d propositions [] = some ([], [])
  setup_agents d propositions ((name, info) ∷ infos) = do
    i ← del.get_agent_id d name
    mine ← elim info.state [ away ↦ some [] | _ ↦ fold_steps (attend d i) [] propositions ]
    (rest, initial) ← setup_agents d propositions infos
    some ((name, record info { id = i }) ∷ rest, mine ++ initial)

  unfoldable pub setup_domain : EpistemicReasoning → Option EpistemicReasoning
  unfolding location_propositions setup_agents
  setup_domain r = do
    let propositions = location_propositions r.all_objects r.all_objects
    let d = del.domain r.agents propositions (map (λ _. false) propositions)
    (infos, initial) ← setup_agents d propositions r.agent_infos
    let (d', s) = del.add_initial_state d initial
    some (record r { d = d'; latest_state = s; agent_infos = infos })

  -- map.insert of a pair: a key that is there keeps its value.
  unfoldable pub insert_info :
      List (String × AgentInfo) → String → AgentInfo → List (String × AgentInfo)
  unfolding lookup_name
  insert_info infos name info = elim (lookup_name infos name) [
    | some _ ↦ infos
    | none ↦ infos ++ (name, info) ∷ []
  ]

  -- A write to the state of an agent whose info is there.
  unfoldable pub set_presence :
      List (String × AgentInfo) → String → Presence → List (String × AgentInfo)
  set_presence [] name p = []
  set_presence ((key, info) ∷ infos) name p =
      if key == name
      then (key, record info { state = p }) ∷ infos
      else (key, info) ∷ set_presence infos name p

  -- Agent {0, Agent::State::Present}, where `zero_id` is the agent id 0.
  module _ (zero_id : del.AgentId) where
    unfoldable pub add_object : EpistemicReasoning → ObjectType → String → Option EpistemicReasoning
    unfolding setup_domain insert_info
    add_object r type name =
        let s : EpistemicReasoning = elim type [
          | storable ↦ record r { storables = r.storables ++ name ∷ [] }
          | container ↦ record r { containers = r.containers ++ name ∷ [] }
          | agent ↦ record r {
            agents = r.agents ++ name ∷ [];
            agent_infos = insert_info r.agent_infos name (record { id = zero_id; state = present });
          }
        ] in
        setup_domain (record s { all_objects = s.all_objects ++ name ∷ [] })

    unfoldable pub reset : EpistemicReasoning → Option EpistemicReasoning
    unfolding setup_domain
    reset r = setup_domain (record r {
      all_objects = [];
      agents = "R2DTU" ∷ [];
      storables = [];
      containers = [];
      agent_infos = ("R2DTU", record { id = zero_id; state = present }) ∷ [];
    })

  abbrev pub moved_to : EpistemicReasoning → del.Domain × del.StateId → EpistemicReasoning
  moved_to r (d, s) = record r { d = d; latest_state = s }

  unfoldable pub agent_appear : EpistemicReasoning → String → Option EpistemicReasoning
  unfolding set_presence lookup_name
  agent_appear r name = do
    info ← lookup_name r.agent_infos name
    let changes = del.get_domain_non_attention_propositions_id r.d
    some (
        moved_to (record r { agent_infos = set_presence r.agent_infos name present })
          (del.perform_minimal_bottom_up r.d (info.id ∷ []) changes []))

  unfoldable pub agent_disappear : EpistemicReasoning → String → Option EpistemicReasoning
  unfolding set_presence lookup_name
  agent_disappear r name = do
    info ← lookup_name r.agent_infos name
    let changes = del.get_domain_non_attention_propositions_id r.d
    some (
        moved_to (record r { agent_infos = set_presence r.agent_infos name away })
          (del.perform_minimal_bottom_up r.d (info.id ∷ []) [] changes))

  -- The ids of the agent and of `object` being in `container`.
  unfoldable pub agent_and_place :
      EpistemicReasoning → String → String → String → Option (del.AgentId × del.PropositionId)
  unfolding lookup_name
  agent_and_place r name object place = do
    info ← lookup_name r.agent_infos name
    p ← del.get_proposition_id r.d ("in(" <> object <> "," <> place <> ")")
    some (info.id, p)

  unfoldable pub direct_conscious_attention :
      EpistemicReasoning → String → String → String → Option EpistemicReasoning
  unfolding agent_and_place
  direct_conscious_attention r name object place = do
    (a, p) ← agent_and_place r name object place
    some (moved_to r (del.perform_conscious_top_down r.d a (p ∷ []) []))

  unfoldable pub put_in_container :
      EpistemicReasoning → String → String → String → Option EpistemicReasoning
  unfolding agent_and_place
  put_in_container r name object place = do
    (a, p) ← agent_and_place r name object place
    some (moved_to r (del.perform_do r.d a (p ∷ []) []))

  unfoldable pub take_out_of_container :
      EpistemicReasoning → String → String → String → Option EpistemicReasoning
  unfolding agent_and_place
  take_out_of_container r name object place = do
    (a, p) ← agent_and_place r name object place
    some (moved_to r (del.perform_do r.d a [] (p ∷ [])))

  unfoldable pub blank_views : EpistemicReasoning → EpistemicReasoning
  blank_views r = record r { blank_views_flag = if r.blank_views_flag then false else true }
