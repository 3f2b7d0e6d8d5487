-- ===== src/Checks/Beliefs.antt =====
-- The theorem on queries at a domain of facts without agents' perspectives, where a node of a formula is
-- the formula itself.
use mathlib.Core.Bool.{not as flip}
use r2dtu_attention.Common.{
  ℕ, ◌≡◌, refl, Bool, true, false, ◌&&◌, ◌||◌, none, some, String, List, [], ◌∷◌, keep, fold_steps,
}
use r2dtu_attention.Common.Sets.{contains, insert}
use r2dtu_attention.Common.Texts.{◌<>◌}
use r2dtu_attention.Reasoning.{
  Query, make_predicate_2, make_constant, make_variable, make_not, free_variables, reify_predicate,
}
use r2dtu_attention.Reasoning.Evaluate.{Del, query, build_formula}
use r2dtu_attention.Reasoning.Answers.{Sentence, sentence, Laws}
use r2dtu_attention.Reasoning.Filter.{is_answer, query-keep}

data Tree : Type 0 where
  null : Tree
  prop : String → Tree
  believes : String → Tree → Tree
  not : Tree → Tree
  and or : Tree → Tree → Tree
  other : Tree

abbrev facts : List String
facts = "in(cube,box1)" ∷ "in(cube,box3)" ∷ []

abbrev holds : Tree → Bool
holds null = false
holds (prop p) = contains facts p
holds (believes a t) = holds t
holds (not t) = flip (holds t)
holds (and t u) = holds t && holds u
holds (or t u) = holds t || holds u
holds other = false

abbrev is_null : Tree → Bool
is_null null = true
is_null _ = false

abbrev pair_of : (Tree → Tree → Tree) → List Tree → Tree
pair_of op (t ∷ u ∷ []) = op t u
pair_of op _ = other

-- The domain knows the cube being in the boxes 1, 2 and 3.
abbrev known : List String
known = "in(cube,box1)" ∷ "in(cube,box2)" ∷ "in(cube,box3)" ∷ []

abbrev facts_del : Del
facts_del = record {
  AgentId = String;
  PropositionId = String;
  NodeId = Tree;
  Formula = ℕ;
  StateId = ℕ;
  Domain = ℕ;
  empty = 0;
  new_believes = λ f a t. (f, Tree.believes a t);
  new_not = λ f t. (f, Tree.not t);
  new_and = λ f ts. (f, pair_of Tree.and ts);
  new_or = λ f ts. (f, pair_of Tree.or ts);
  new_prop = λ f p. (f, Tree.prop p);
  new_null = λ f. (f, Tree.null);
  is_null = λ f t. is_null t;
  domain = λ agents props defaults. 0;
  add_initial_state = λ d props. (d, 0);
  get_agent_id = λ d a. some a;
  get_proposition_id = λ d p. elim (contains known p) [ true ↦ some p | false ↦ none ];
  get_attention_proposition_id = λ d a p. some p;
  get_domain_non_attention_propositions_id = λ d. known;
  evaluate_formula = λ d s f t. holds t;
  perform_do = λ d a add delete. (d, 0);
  perform_conscious_top_down = λ d a add delete. (d, 0);
  perform_minimal_bottom_up = λ d as' add delete. (d, 0);
}

abbrev tree_of : Sentence facts_del 0 → Tree
tree_of Sentence.null = null
tree_of (Sentence.prop p) = prop p
tree_of (Sentence.believes a s) = believes a (tree_of s)
tree_of (Sentence.not s) = not (tree_of s)
tree_of (Sentence.and s t) = and (tree_of s) (tree_of t)
tree_of (Sentence.or s t) = or (tree_of s) (tree_of t)

abbrev facts_laws : Laws facts_del 0
facts_laws = record {
  Grows = λ f g. Unit;
  Means = λ f t s. t ≡ tree_of s;
  truth = λ state s. holds (tree_of s);
  is_null_sentence = λ s. is_null (tree_of s);
  grows_refl = λ f. tt;
  grows_trans = λ f g h x y. tt;
  means_grows = λ f g i s x m. m;
  null_law = λ f. (tt, refl);
  prop_law = λ f p. (tt, refl);
  believes_law = λ f a i s m. (tt, rw m);
  not_law = λ f i s m. (tt, rw m);
  and_law = λ f i j s t m n. (tt, rw (m, n));
  or_law = λ f i j s t m n. (tt, rw (m, n));
  null_test = λ f i s m. rw m;
  evaluation = λ state f i s m. rw m;
}

-- Where is the cube not?
abbrev where_not : Query
where_not = make_not (make_predicate_2 "in" (make_constant "cube") (make_variable "x"))

abbrev place : String → Sentence facts_del 0
place o =
    let p = "in(cube," <> o <> ")" in
    Sentence.not (elim (contains known p) [ true ↦ Sentence.prop p | false ↦ Sentence.null ])

abbrev boxes : List String
boxes = "box1" ∷ "box2" ∷ "box3" ∷ []

it_is_not_in_box2 : query facts_del 0 0 boxes where_not ≡ some ("box2" ∷ [])
unfolding query contains fold_steps free_variables build_formula reify_predicate insert
it_is_not_in_box2 = refl

query-keep_example :
    query facts_del 0 0 boxes where_not
    ≡ some (keep (λ o. is_answer facts_del 0 facts_laws 0 (place o)) boxes)
unfolding sentence contains reify_predicate free_variables insert
query-keep_example =
    query-keep facts_del 0 facts_laws 0 where_not "x" place boxes refl (refl, (refl, (refl, tt)))
