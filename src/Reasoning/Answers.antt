-- ===== src/Reasoning/Answers.antt =====
-- What EpistemicReasoning::query answers, in terms of the sentences that the query stands for, for any
-- domain whose builders make sentences and whose evaluation is their truth.
use r2dtu_attention.Common.{◌≡◌, Bool, Option, none, some, String, List, [], ◌∷◌, ◌>>=◌}
use r2dtu_attention.Reasoning.{Query, reify_predicate}
use r2dtu_attention.Reasoning.Evaluate.{Del, proposition_or_null, build_formula}

module _ (del : Del) (d : del.Domain) where
  pub data Sentence : Type 0 where
    null : Sentence
    prop : del.PropositionId → Sentence
    believes : del.AgentId → Sentence → Sentence
    not : Sentence → Sentence
    and or : Sentence → Sentence → Sentence

  -- The sentence of a query where its variables stand for objects.
  unfoldable pub sentence : Query → List (String × String) → Option Sentence
  unfolding reify_predicate
  sentence (Query.constant name) vars = none
  sentence (Query.variable name) vars = none
  sentence (Query.predicate name children) vars = reify_predicate name children vars >>= λ pred.
      some
        (elim (del.get_proposition_id d pred) [ some p ↦ Sentence.prop p | none ↦ Sentence.null ])
  sentence (Query.believes agent inner) vars = do
    s ← sentence inner vars
    a ← del.get_agent_id d agent
    some (Sentence.believes a s)
  sentence (Query.not inner) vars = sentence inner vars >>= λ s. some (Sentence.not s)
  sentence (Query.and left right) vars = do
    s ← sentence left vars
    t ← sentence right vars
    some (Sentence.and s t)
  sentence (Query.or left right) vars = do
    s ← sentence left vars
    t ← sentence right vars
    some (Sentence.or s t)

  -- What the code relies on: a formula store grows, its nodes keep their meaning, each builder makes a
  -- node for its connective, and a node is evaluated to the truth of its sentence.
  pub record Laws : Type 1 where
    pub Grows : del.Formula → del.Formula → Type 0
    pub Means : del.Formula → del.NodeId → Sentence → Type 0
    pub truth : del.StateId → Sentence → Bool
    pub is_null_sentence : Sentence → Bool
    pub grows_refl : (f : del.Formula) → Grows f f
    pub grows_trans : (f g h : del.Formula) → Grows f g → Grows g h → Grows f h
    pub means_grows :
        (f g : del.Formula) (i : del.NodeId) (s : Sentence) → Grows f g → Means f i s → Means g i s
    pub null_law :
        (f : del.Formula)
        → Grows f (del.new_null f).0 × Means (del.new_null f).0 (del.new_null f).1 Sentence.null
    pub prop_law :
        (f : del.Formula) (p : del.PropositionId)
        → Grows f (del.new_prop f p).0
          × Means (del.new_prop f p).0 (del.new_prop f p).1 (Sentence.prop p)
    pub believes_law :
        (f : del.Formula) (a : del.AgentId) (i : del.NodeId) (s : Sentence)
        → Means f i s
        → Grows f (del.new_believes f a i).0
          × Means (del.new_believes f a i).0 (del.new_believes f a i).1 (Sentence.believes a s)
    pub not_law :
        (f : del.Formula) (i : del.NodeId) (s : Sentence)
        → Means f i s
        → Grows f (del.new_not f i).0
          × Means (del.new_not f i).0 (del.new_not f i).1 (Sentence.not s)
    pub and_law :
        (f : del.Formula) (i j : del.NodeId) (s t : Sentence)
        → Means f i s
        → Means f j t
        → Grows f (del.new_and f (i ∷ j ∷ [])).0
          × Means (del.new_and f (i ∷ j ∷ [])).0 (del.new_and f (i ∷ j ∷ [])).1 (Sentence.and s t)
    pub or_law :
        (f : del.Formula) (i j : del.NodeId) (s t : Sentence)
        → Means f i s
        → Means f j t
        → Grows f (del.new_or f (i ∷ j ∷ [])).0
          × Means (del.new_or f (i ∷ j ∷ [])).0 (del.new_or f (i ∷ j ∷ [])).1 (Sentence.or s t)
    pub null_test :
        (f : del.Formula) (i : del.NodeId) (s : Sentence)
        → Means f i s
        → del.is_null f i ≡ is_null_sentence s
    pub evaluation :
        (state : del.StateId) (f : del.Formula) (i : del.NodeId) (s : Sentence)
        → Means f i s
        → del.evaluate_formula d state f i ≡ truth state s

  module _ (laws : Laws) where
    -- A build follows its sentence: both fail, or the node means the sentence.
    pub data Follows (f : del.Formula)
        : Option Sentence → Option (del.Formula × del.NodeId) → Type 0 where
      failed : Follows f none none
      built :
          {s : Sentence} (g : del.Formula) (i : del.NodeId)
          → laws.Grows f g
          → laws.Means g i s
          → Follows f (some s) (some (g, i))

    binary-Follows :
        (op : Sentence → Sentence → Sentence)
        (new : del.Formula → List del.NodeId → del.Formula × del.NodeId) (f : del.Formula)
        (s t : Option Sentence) (first : Option (del.Formula × del.NodeId))
        (second : del.Formula → Option (del.Formula × del.NodeId))
        → ((f : del.Formula) (i j : del.NodeId) (s t : Sentence)
            → laws.Means f i s
            → laws.Means f j t
            → laws.Grows f (new f (i ∷ j ∷ [])).0
              × laws.Means (new f (i ∷ j ∷ [])).0 (new f (i ∷ j ∷ [])).1 (op s t))
        → Follows f s first
        → ((g : del.Formula) → Follows g t (second g))
        → Follows f
            (s >>= λ x. t >>= λ y. some (op x y))
            (first >>= λ r. second r.0 >>= λ q. some (new q.0 (r.1 ∷ q.1 ∷ [])))
    binary-Follows op new f s t first second law failed right = failed
    binary-Follows op new f s t first second law (built {s = x} g i grows means) right =
        go t (second g) (right g)
      where
        go :
            (t : Option Sentence) (r : Option (del.Formula × del.NodeId))
            → Follows g t r
            → Follows f (t >>= λ y. some (op x y)) (r >>= λ q. some (new q.0 (i ∷ q.1 ∷ [])))
        go t r failed = failed
        go t r (built {s = y} h j more means') =
            let (grows', whole) = law h i j x y (laws.means_grows g h i x more means) means' in
            built _ _ (laws.grows_trans f h _ (laws.grows_trans f g h grows more) grows') whole

    not-Follows :
        (f : del.Formula) (s : Option Sentence) (r : Option (del.Formula × del.NodeId))
        → Follows f s r
        → Follows f (s >>= λ x. some (Sentence.not x)) (r >>= λ q. some (del.new_not q.0 q.1))
    not-Follows f s r failed = failed
    not-Follows f s r (built {s = x} g i grows means) =
        let (more, whole) = laws.not_law g i x means in
        built _ _ (laws.grows_trans f g _ grows more) whole

    believes-Follows :
        (f : del.Formula) (s : Option Sentence) (r : Option (del.Formula × del.NodeId))
        (agent : Option del.AgentId)
        → Follows f s r
        → Follows f
            (s >>= λ x. agent >>= λ a. some (Sentence.believes a x))
            (r >>= λ q. agent >>= λ a. some (del.new_believes q.0 a q.1))
    believes-Follows f s r agent failed = failed
    believes-Follows f s r none (built g i grows means) = failed
    believes-Follows f s r (some a) (built {s = x} g i grows means) =
        let (more, whole) = laws.believes_law g a i x means in
        built _ _ (laws.grows_trans f g _ grows more) whole

    predicate-Follows :
        (f : del.Formula) (name : Option String)
        → Follows f
            (name >>= λ pred. some (elim (del.get_proposition_id d pred) [
              | some p ↦ Sentence.prop p
              | none ↦ Sentence.null
            ]))
            (name >>= λ pred. some (proposition_or_null del d f pred))
    unfolding proposition_or_null
    predicate-Follows f none = failed
    predicate-Follows f (some pred) = known (del.get_proposition_id d pred)
      where
        known :
            (o : Option del.PropositionId)
            → Follows f
                (some (elim o [ some p ↦ Sentence.prop p | none ↦ Sentence.null ]))
                (some (elim o [ some p ↦ del.new_prop f p | none ↦ del.new_null f ]))
        known none = let (grows, means) = laws.null_law f in built _ _ grows means
        known (some p) = let (grows, means) = laws.prop_law f p in built _ _ grows means

    -- Building a query's formula makes a node that means the query's sentence, or fails where the
    -- query has no sentence.
    pub build_formula-Follows :
        (q : Query) (vars : List (String × String)) (f : del.Formula)
        → Follows f (sentence q vars) (build_formula del d q vars f)
    unfolding sentence build_formula
    build_formula-Follows (Query.constant name) vars f = failed
    build_formula-Follows (Query.variable name) vars f = failed
    build_formula-Follows (Query.predicate name children) vars f =
        predicate-Follows f (reify_predicate name children vars)
    build_formula-Follows (Query.believes agent inner) vars f =
        believes-Follows f _ _ (del.get_agent_id d agent) (build_formula-Follows inner vars f)
    build_formula-Follows (Query.not inner) vars f =
        not-Follows f _ _ (build_formula-Follows inner vars f)
    build_formula-Follows (Query.and left right) vars f =
        binary-Follows Sentence.and del.new_and f _ _ _ _ laws.and_law
          (build_formula-Follows left vars f) (λ g. build_formula-Follows right vars g)
    build_formula-Follows (Query.or left right) vars f =
        binary-Follows Sentence.or del.new_or f _ _ _ _ laws.or_law
          (build_formula-Follows left vars f) (λ g. build_formula-Follows right vars g)
