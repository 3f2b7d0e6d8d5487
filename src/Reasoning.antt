-- ===== src/Reasoning.antt =====
-- include/reasoning/EpistemicReasoning.h and src/reasoning/EpistemicReasoning.cpp: the queries that the
-- robot asks about what the people around it believe.
pub mod Names
pub mod Evaluate
pub mod Markers
pub mod Robot
pub mod Answers
pub mod Filter
use r2dtu_attention.Common.{ℕ, Bool, Option, none, some, String, List, [], ◌∷◌, fold, ◌>>=◌}
use r2dtu_attention.Common.Sets.{insert}
use r2dtu_attention.Common.Texts.{◌<>◌, lookup_name}

mutual
  -- Query, with the fields that each Query::Type uses of the union.
  pub data Query : Type 0 where
    variable constant : String → Query
    predicate : String → Queries → Query
    believes : String → Query → Query
    not : Query → Query
    and or : Query → Query → Query

  pub data Queries : Type 0 where
    nil : Queries
    cons : Query → Queries → Queries

abbrev pub make_constant : String → Query
make_constant name = constant name

abbrev pub make_variable : String → Query
make_variable name = variable name

abbrev pub make_predicate : String → Queries → Query
make_predicate name elements = predicate name elements

-- The make_predicate of no, one, two and three elements.
abbrev pub make_predicate_0 : String → Query
make_predicate_0 name = make_predicate name nil

abbrev pub make_predicate_1 : String → Query → Query
make_predicate_1 name fst = make_predicate name (cons fst nil)

abbrev pub make_predicate_2 : String → Query → Query → Query
make_predicate_2 name fst snd = make_predicate name (cons fst (cons snd nil))

abbrev pub make_predicate_3 : String → Query → Query → Query → Query
make_predicate_3 name fst snd thd = make_predicate name (cons fst (cons snd (cons thd nil)))

abbrev pub make_believes : String → Query → Query
make_believes agent inner = believes agent inner

abbrev pub make_not : Query → Query
make_not inner = not inner

abbrev pub make_and : Query → Query → Query
make_and left right = and left right

abbrev pub make_or : Query → Query → Query
make_or left right = or left right

-- a.merge(b) of two sets
abbrev pub merge : List String → List String → List String
merge a b = fold insert a b

unfoldable mutual
  unfolding insert

  pub free_variables : Query → List String
  free_variables (constant name) = []
  free_variables (variable name) = name ∷ []
  free_variables (believes agent inner) = free_variables inner
  free_variables (not inner) = free_variables inner
  free_variables (and left right) = merge (free_variables left) (free_variables right)
  free_variables (or left right) = merge (free_variables left) (free_variables right)
  free_variables (predicate name children) = children_variables [] children

  -- The loop over the children, from the result so far.
  pub children_variables : List String → Queries → List String
  children_variables result nil = result
  children_variables result (cons q qs) = children_variables (merge result (free_variables q)) qs

-- What a leaf adds to the predicate's text; an inner node adds nothing. `none` is the out_of_range of
-- var_map.at.
unfoldable pub leaf_name : List (String × String) → Query → Option String
unfolding lookup_name
leaf_name var_map (constant name) = some name
leaf_name var_map (variable name) = lookup_name var_map name
leaf_name var_map (predicate name children) = some ""
leaf_name var_map (believes agent inner) = some ""
leaf_name var_map (not inner) = some ""
leaf_name var_map (and left right) = some ""
leaf_name var_map (or left right) = some ""

-- The loop over the leafs, with a comma after each but the last.
unfoldable pub reify_leafs : List (String × String) → Queries → Option String
unfolding leaf_name
reify_leafs var_map nil = some ""
reify_leafs var_map (cons q nil) = leaf_name var_map q
reify_leafs var_map (cons q (cons r qs)) = do
  s ← leaf_name var_map q
  rest ← reify_leafs var_map (cons r qs)
  some (s <> "," <> rest)

unfoldable pub reify_predicate : String → Queries → List (String × String) → Option String
unfolding reify_leafs
reify_predicate name leafs var_map =
    reify_leafs var_map leafs >>= λ inside. some (name <> "(" <> inside <> ")")
