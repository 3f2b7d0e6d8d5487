-- ===== src/Reasoning/Evaluate.antt =====
-- EpistemicReasoning::build_formula, evaluate and query. The classes del::domain and del::formula are
-- another repository's, so their operations are parameters.
use r2dtu_attention.Common.{
  Bool, Option, none, some, String, List, [], ◌∷◌, ◌++◌, if◌then◌else◌, fold_steps, ◌>>=◌,
}
use r2dtu_attention.Reasoning.{
  Query, variable, constant, predicate, believes, not, and, or, free_variables, reify_predicate,
}

-- del::formula: a store of formulas, which the builders extend and whose node ids they return; and
-- del::domain: the ids of names, the evaluation of a formula in a state, and the updates, which give
-- a new state. `none` is an exception, which for propositions is std::out_of_range.
pub record Del : Type 1 where
  pub AgentId : Type 0
  pub PropositionId : Type 0
  pub NodeId : Type 0
  pub Formula : Type 0
  pub StateId : Type 0
  pub Domain : Type 0
  pub empty : Formula
  pub new_believes : Formula → AgentId → NodeId → Formula × NodeId
  pub new_not : Formula → NodeId → Formula × NodeId
  pub new_and : Formula → List NodeId → Formula × NodeId
  pub new_or : Formula → List NodeId → Formula × NodeId
  pub new_prop : Formula → PropositionId → Formula × NodeId
  pub new_null : Formula → Formula × NodeId
  pub is_null : Formula → NodeId → Bool
  pub domain : List String → List String → List Bool → Domain
  pub add_initial_state : Domain → List PropositionId → Domain × StateId
  pub get_agent_id : Domain → String → Option AgentId
  pub get_proposition_id : Domain → String → Option PropositionId
  pub get_attention_proposition_id : Domain → AgentId → PropositionId → Option PropositionId
  pub get_domain_non_attention_propositions_id : Domain → List PropositionId
  pub evaluate_formula : Domain → StateId → Formula → NodeId → Bool
  pub perform_do : Domain → AgentId → List PropositionId → List PropositionId → Domain × StateId
  pub perform_conscious_top_down :
      Domain → AgentId → List PropositionId → List PropositionId → Domain × StateId
  pub perform_minimal_bottom_up :
      Domain → List AgentId → List PropositionId → List PropositionId → Domain × StateId

module _ (del : Del) (d : del.Domain) where
  -- A predicate that the domain does not know is null.
  unfoldable pub proposition_or_null : del.Formula → String → del.Formula × del.NodeId
  proposition_or_null f pred = elim (del.get_proposition_id d pred) [
    | some p ↦ del.new_prop f p
    | none ↦ del.new_null f
  ]

  -- `none` is an exception, or the assertion that fails on a constant or a variable.
  unfoldable pub build_formula :
      Query → List (String × String) → del.Formula → Option (del.Formula × del.NodeId)
  unfolding proposition_or_null reify_predicate
  build_formula (believes agent inner) var_map f = do
    (g, i) ← build_formula inner var_map f
    a ← del.get_agent_id d agent
    some (del.new_believes g a i)
  build_formula (not inner) var_map f = do
    (g, i) ← build_formula inner var_map f
    some (del.new_not g i)
  build_formula (and left right) var_map f = do
    (g, i) ← build_formula left var_map f
    (h, j) ← build_formula right var_map g
    some (del.new_and h (i ∷ j ∷ []))
  build_formula (or left right) var_map f = do
    (g, i) ← build_formula left var_map f
    (h, j) ← build_formula right var_map g
    some (del.new_or h (i ∷ j ∷ []))
  build_formula (predicate name children) var_map f =
      reify_predicate name children var_map >>= λ pred. some (proposition_or_null f pred)
  build_formula (constant name) var_map f = none
  build_formula (variable name) var_map f = none

  unfoldable pub evaluate : del.StateId → Query → Option Bool
  unfolding build_formula
  evaluate latest_state q =
      build_formula q [] del.empty >>= λ r. some (del.evaluate_formula d latest_state r.0 r.1)

  -- The body of the loop over the objects.
  unfoldable pub query_object :
      del.StateId → Query → String → List String → String → Option (List String)
  unfolding build_formula
  query_object latest_state q free_var results obj =
      build_formula q ((free_var, obj) ∷ []) del.empty >>= λ r. some (
        if del.is_null r.0 r.1
        then results
        else if del.evaluate_formula d latest_state r.0 r.1
        then results ++ obj ∷ []
        else results)

  -- `none` also where the query does not have exactly one variable, which is asserted.
  unfoldable pub query : del.StateId → List String → Query → Option (List String)
  unfolding query_object free_variables
  query latest_state all_objects q = elim (free_variables q) [
    | [] ↦ none
    | v ∷ [] ↦ fold_steps (query_object latest_state q v) [] all_objects
    | _ ∷ _ ∷ _ ↦ none
  ]
