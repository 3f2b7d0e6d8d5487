-- ===== src/Reasoning/Filter.antt =====
-- The loop of EpistemicReasoning::query over the objects.
use mathlib.Core.Bool.{not as flip}
use mathlib.Core.Path.{subst}
use mathlib.Core.List.{append-nil, append_assoc}
use r2dtu_attention.Common.{
  ◌≡◌, refl, ◌∙◌, sym, ap, Bool, ◌&&◌, Option, some, String, List, [], ◌∷◌, ◌++◌, keep, All,
  fold_steps, if◌then◌else◌, Bool-cases, inl, inr,
}
use r2dtu_attention.Reasoning.{Query, free_variables}
use r2dtu_attention.Reasoning.Evaluate.{Del, build_formula, query_object, query}
use r2dtu_attention.Reasoning.Answers.{
  Sentence, sentence, Laws, Follows, built, build_formula-Follows,
}

module _ (del : Del) (d : del.Domain) (laws : Laws del d) where
  Follows-built :
      (f : del.Formula) (s : Sentence del d) (r : Option (del.Formula × del.NodeId))
      → Follows del d laws f (some s) r
      → (g : del.Formula) × (i : del.NodeId) × (r ≡ some (g, i)) × laws.Means g i s
  Follows-built f s r (built g i grows means) = (g, i, refl, means)

  -- Whether the query's sentence is one that the domain knows and that is true in the state.
  abbrev pub is_answer : del.StateId → Sentence del d → Bool
  is_answer state s = flip (laws.is_null_sentence s) && laws.truth state s

  query_object_lem :
      (state : del.StateId) (q : Query) (v obj : String) (results : List String)
      (s : Sentence del d)
      → sentence del d q ((v, obj) ∷ []) ≡ some s
      → query_object del d state q v results obj
        ≡ some (if is_answer state s then results ++ obj ∷ [] else results)
  unfolding query_object
  query_object_lem state q v obj results s e =
      let (g, i, b, means) = Follows-built del.empty s _ (
        subst
          (λ x. Follows del d laws del.empty x (build_formula del d q ((v, obj) ∷ []) del.empty)) e
          (build_formula-Follows del d laws q ((v, obj) ∷ []) del.empty)) in
      rw (b, laws.null_test g i s means, laws.evaluation state g i s means)
        (elim (Bool-cases (laws.is_null_sentence s)) [ inl y ↦ rw y | inr y ↦ rw y ])

  module _ (state : del.StateId) (q : Query) (v : String) (meaning : String → Sentence del d) where
    abbrev answers : List String → List String
    answers = keep (λ o. is_answer state (meaning o))

    query_objects :
        (results objs : List String)
        → All (λ o. sentence del d q ((v, o) ∷ []) ≡ some (meaning o)) objs
        → fold_steps (query_object del d state q v) results objs ≡ some (results ++ answers objs)
    unfolding fold_steps
    query_objects results [] h = ap some (sym (append-nil results))
    query_objects results (o ∷ objs) h = elim (Bool-cases (is_answer state (meaning o))) [
      | inl y ↦
          rw (query_object_lem state q v o results (meaning o) h.0, y, keep)
            (query_objects (results ++ o ∷ []) objs h.1
              ∙ ap some (append_assoc results (o ∷ []) (answers objs)))
      | inr y ↦
          rw (query_object_lem state q v o results (meaning o) h.0, y, keep)
            (query_objects results objs h.1)
    ]

-- For a query with one variable that stands for the sentence `meaning o` where the variable is the
-- object o, and a domain that keeps the laws, the query returns the objects whose sentence is not null
-- and is true in the latest state, in the order of all objects.
pub query-keep :
    (del : Del) (d : del.Domain) (laws : Laws del d) (state : del.StateId) (q : Query) (v : String)
    (meaning : String → Sentence del d) (objs : List String)
    → free_variables q ≡ v ∷ []
    → All (λ o. sentence del d q ((v, o) ∷ []) ≡ some (meaning o)) objs
    → query del d state objs q ≡ some (keep (λ o. is_answer del d laws state (meaning o)) objs)
unfolding query
query-keep del d laws state q v meaning objs one h =
    rw (one, query) (query_objects del d laws state q v meaning [] objs h)
