-- ===== src/Planner/Ready.antt =====
-- The states of the nodes of the graph, and what a round of Planner::find_policy does to a node.
use mathlib.Core.Path.{subst}
use mathlib.Core.Option.{some-injective}
use r2dtu_attention.Common.{
  ℕ, suc, ◌<◌, ◌≤◌, ◌≡◌, refl, ◌∙◌, Bool, true, false, Option, none, some, List, [], ◌∷◌, ◌++◌, inl,
  inr, arith, get_elem?, get_elem?_total, All, length, length-append, length-set, has, Distinct,
  fold_steps, Bool-cases, none-some, if◌then◌else◌,
}
use r2dtu_attention.Formula.{Formula}
use r2dtu_attention.World.{World}
use r2dtu_attention.State.{State}
use r2dtu_attention.State.Valid.{IsValid}
use r2dtu_attention.Action.{Action, ActionEvent}
use r2dtu_attention.Operations.{
  perform_perspective_shift, perform_product_update, is_action_applicable, split_into_global_states,
}
use r2dtu_attention.Operations.Worlds.{Evaluates}
use r2dtu_attention.Operations.Product.{perform_product_update-IsProduct}
use r2dtu_attention.Operations.Perspective.{perform_perspective_shift-IsPerspective}
use r2dtu_attention.Operations.Applicable.{is_action_applicable_lem}
use r2dtu_attention.Operations.Split.{AreGlobal, nil, cons, split_into_global_states-AreGlobal}
use r2dtu_attention.Graph.{Graph, Node, add_child, and_node_of, or_node_of, create_and_node}
use r2dtu_attention.Planner.{successor, is_valid_state, add_global_state, expand_with}
use r2dtu_attention.Planner.Attach.{
  attached, attached_cases, attach-attached, attached-last, attached-parent,
}
use r2dtu_attention.Planner.Expand.{add_global_state-eq}
use r2dtu_attention.Planner.Tree.{IsTree, attached-IsTree, frontier-IsTree}

-- A valid state of n agents.
abbrev pub IsStateOf : ℕ → State → Type 0
IsStateOf n s = IsValid s × (s.number_of_agents ≡ n)

abbrev pub Ready : ℕ → Graph → Type 0
Ready n g = (k : ℕ) (x : Node) → get_elem? g.nodes k ≡ some x → IsStateOf n x.state

-- The action is for n agents, and its preconditions can be evaluated in every world.
pub record IsUsable (n : ℕ) (a : Action) : Type 0 where
  pub owner : a.owner < n
  pub related : n ≤ length a.indistinguishability_relation
  pub holds : World → ActionEvent → Bool
  pub evaluates : (w : World) → Evaluates holds a.events w

-- The set of visited ids is iterated as a list of its elements.
pub record IsOrder (order : List ℕ → List ℕ) : Type 0 where
  pub same : (ws : List ℕ) (v : ℕ) → has v (order ws) ≡ has v ws
  pub distinct : (ws : List ℕ) → Distinct ws → Distinct (order ws)

everywhere {ℓ} : {A : Type 0} {P : A → Type ℓ} (xs : List A) → ((a : A) → P a) → All P xs
everywhere [] h = tt
everywhere (x ∷ xs) h = (h x, everywhere xs h)

-- The state that an action comes to, once its parts are known.
abbrev outcome_of : Bool → State → Option State
outcome_of b u = elim b [ true ↦ if is_valid_state u then some u else none | false ↦ none ]

outcome_of-some : (b : Bool) (u t : State) → outcome_of b u ≡ some t → u ≡ t
outcome_of-some false u t e = absurd (none-some e)
outcome_of-some true u t e = elim (Bool-cases (is_valid_state u)) [
  | inl y ↦ some-injective u t (rw y at e)
  | inr y ↦ absurd (none-some (rw y at e))
]

successor_step :
    (order : List ℕ → List ℕ) (s t u : State) (a : Action) (b : Bool)
    → perform_perspective_shift s order a.owner ≡ some t
    → is_action_applicable t a ≡ some b
    → perform_product_update t a ≡ some u
    → successor order s a ≡ some (outcome_of b u)
unfolding successor
successor_step order s t u a true e q p = rw (e, q, p)
successor_step order s t u a false e q p = rw (e, q)

pub successor_total :
    (n : ℕ) (order : List ℕ → List ℕ) (s : State) (a : Action)
    → IsOrder order
    → IsUsable n a
    → IsStateOf n s
    → (o : Option State) × (successor order s a ≡ some o)
      × ((t : State) → o ≡ some t → IsStateOf n t)
successor_total n order s a ord usable (valid, agents) =
    let (rels, e) =
      get_elem?_total s.indistinguishability_relation a.owner
        (omega (arith, valid.agents, usable.owner)) in
    let (t, ws, shift, p) =
      perform_perspective_shift-IsPerspective s order a.owner rels valid e ord.same ord.distinct in
    let (rels', e') =
      get_elem?_total t.indistinguishability_relation a.owner
        (omega (arith, p.valid.agents, p.agents, usable.owner)) in
    let ev = everywhere t.worlds usable.evaluates in
    let (b, applies, _) = is_action_applicable_lem usable.holds t a rels' p.valid e' ev in
    let (u, update, r) =
      perform_product_update-IsProduct usable.holds t a p.valid
        (omega (arith, p.agents, usable.related)) ev in
    (
      outcome_of b u,
      successor_step order s t u a b shift applies update,
      λ v h. subst (IsStateOf n) (outcome_of-some b u v h) (r.valid, r.agents ∙ p.agents ∙ agents),
    )

attached-Ready :
    (n : ℕ) (g : Graph) (parent : ℕ) (p node : Node)
    → get_elem? g.nodes parent ≡ some p
    → Ready n g
    → IsStateOf n node.state
    → Ready n (attached g parent p node)
unfolding add_child
attached-Ready n g parent p node at ready new k x e =
    elim (attached_cases g parent p node at k x e) [
      | inl (q, same) ↦ subst (λ (y : Node). IsStateOf n y.state) same (ready parent p at)
      | inr (inl (q, same)) ↦ subst (λ (y : Node). IsStateOf n y.state) same new
      | inr (inr (ne, old)) ↦ ready k x old
    ]

length-attached :
    (g : Graph) (parent : ℕ) (p node : Node)
    → length (attached g parent p node).nodes ≡ suc (length g.nodes)
length-attached g parent p node = omega (
  arith,
  length-set (g.nodes ++ node ∷ []) parent (add_child p node.id),
  length-append g.nodes (node ∷ []),
)

-- What an expansion leaves.
abbrev Grown : ℕ → Graph → Graph → Type 0
Grown n g h = IsTree h × Ready n h × (length g.nodes ≤ length h.nodes)

module _ (n : ℕ) (order : List ℕ → List ℕ) (goal : Formula) (actions : List Action) where
  add_global_states_total :
      (u : State) (agent : ℕ) (g : Graph) (c : ℕ) (m : Node) {ws : List ℕ} {ts : List State}
      → get_elem? g.nodes c ≡ some m
      → IsTree g
      → Ready n g
      → u.number_of_agents ≡ n
      → AreGlobal u agent ws ts
      → (h : Graph) × (fold_steps (add_global_state c) g ts ≡ some h) × Grown n g h
  unfolding fold_steps
  add_global_states_total u agent g c m at tree ready agents nil =
      (g, refl, (tree, ready, omega arith))
  add_global_states_total u agent g c m at tree ready agents (cons {t = s} {ts = ts} global rest) =
      let new = or_node_of s (length g.nodes) c false in
      let next : Graph = record (attached g c m new) {
        frontier = g.frontier ++ length g.nodes ∷ [];
      } in
      let (h, e, more) =
        add_global_states_total u agent next c (add_child m new.id) (attached-parent g c m new at)
          (frontier-IsTree (attached g c m new) _
            (attached-IsTree g c m new at tree refl refl refl refl))
          (attached-Ready n g c m new at ready (global.valid, global.agents ∙ agents)) agents
          rest in
      (
        h,
        rw (add_global_state-eq order goal actions g c m s at, fold_steps) e,
        (more.0, more.1, omega (arith, more.2, length-attached g c m new)),
      )

  expand_with_step :
      (g h : Graph) (k : ℕ) (x : Node) (u : State) (a : Action) (ts : List State)
      → get_elem? g.nodes k ≡ some x
      → split_into_global_states u a.owner ≡ some ts
      → fold_steps
          (add_global_state (length g.nodes))
          (attached g k x (and_node_of u (length g.nodes) k a false))
          ts
        ≡ some h
      → expand_with g k a u ≡ some h
  unfolding expand_with create_and_node
  expand_with_step g h k x u a ts at split e =
      rw (attach-attached g k x (and_node_of u (length g.nodes) k a false) at, split) e

  pub expand_with_total :
      (g : Graph) (k : ℕ) (x : Node) (u : State) (a : Action)
      → get_elem? g.nodes k ≡ some x
      → IsTree g
      → Ready n g
      → IsUsable n a
      → IsStateOf n u
      → (h : Graph) × (expand_with g k a u ≡ some h)
        × IsTree h
        × Ready n h
        × (length g.nodes ≤ length h.nodes)
  expand_with_total g k x u a at tree ready usable (valid, agents) =
      let new = and_node_of u (length g.nodes) k a false in
      let (ts, split, globals) =
        split_into_global_states-AreGlobal u a.owner valid (omega (arith, usable.owner)) in
      let (h, e, more) =
        add_global_states_total u a.owner (attached g k x new) (length g.nodes) new
          (attached-last g k x new at) (attached-IsTree g k x new at tree refl refl refl refl)
          (attached-Ready n g k x new at ready (valid, agents)) agents globals in
      (
        h,
        expand_with_step g h k x u a ts at split e,
        more.0,
        more.1,
        omega (arith, more.2, length-attached g k x new),
      )
