-- ===== src/Planner/Progress.antt =====
-- Planner::find_policy: the outcome of one round of the main loop.
use mathlib.Core.List.{Memᴰ}
use mathlib.Core.Path.{subst}
use r2dtu_attention.Common.{
  ℕ, ◌<◌, ◌≡◌, refl, ◌∙◌, sym, ap, Bool, true, false, Option, none, some, List, [], inl, inr, arith,
  get_elem?, get_elem?_total, All, length, fold_steps_inv, fold_steps_keeps, Bool-cases, List-cases,
  if◌then◌else◌, lt-length_of_get_elem?,
}
use r2dtu_attention.Formula.{Formula}
use r2dtu_attention.State.{State, valuate_worlds, get_world}
use r2dtu_attention.State
use r2dtu_attention.Action.{Action}
use r2dtu_attention.Graph.{Graph, Node, or_node, is_frontier_empty}
use r2dtu_attention.Policy.{Policy}
use r2dtu_attention.Policy
use r2dtu_attention.Planner.{
  successor, try_action, visit_goal, visit_inner, Round, continue, finished, round,
}
use r2dtu_attention.Planner.Winning.{Keeps-refl, LooksOr, reached, Claim, Inv, NodeOk-Keeps}
use r2dtu_attention.Planner.Mark.{Good, Good-refl, Good-trans}
use r2dtu_attention.Planner.Propagate.{propogate_solved_node-Good, propogate_dead_end_node-Good}
use r2dtu_attention.Planner.Outcomes.{All-Memᴰ, Reached, try_action-Reached}
use r2dtu_attention.Planner.Sound.{round-eq}
use r2dtu_attention.Planner.Tree.{IsTree, frontier-IsTree}
use r2dtu_attention.Planner.Upward.{propogate_solved_node_total, propogate_dead_end_node_total}
use r2dtu_attention.Planner.Extract.{extract_policy_total}
use r2dtu_attention.Planner.Ready.{
  IsStateOf, Ready, IsUsable, IsOrder, successor_total, expand_with_total,
}
use r2dtu_attention.Planner.Steps.{
  try_action_skip, try_action_expand, visit_inner_found, visit_inner_dead, visit_goal_step,
  Ready-Keeps, IsDefined, valuate_total,
}

-- The steps of a round, once their parts are known.
module _ (n : ℕ) (order : List ℕ → List ℕ) (goal : Formula) (actions : List Action)
    (ord : IsOrder order) (usable : All (IsUsable n) actions) (def : IsDefined goal) where
  -- A graph as it is between the rounds.
  pub record Sane (g : Graph) : Type 0 where
    pub inv : Inv order goal actions g
    pub tree : IsTree g
    pub ready : Ready n g
    pub root : (m : Node) × (get_elem? g.nodes g.root ≡ some m) × (m.root ≡ true)

  abbrev pub After : Round → Type 0
  After (continue h) = Sane h
  After (finished p) = Unit

  Sane-Good : (g h : Graph) → Sane g → Good order goal actions g h → IsTree h → Ready n h → Sane h
  Sane-Good g h sane good tree ready =
      let (m, at, r) = sane.root in
      let (m', at', same) = good.keeps g.root m at in
      record {
        inv = good.inv;
        tree = tree;
        ready = ready;
        root = (m', ap (get_elem? h.nodes) good.root ∙ at', same.root ∙ r);
      }

  abbrev Expanding : ℕ → Graph × Bool → Type 0
  Expanding k r = IsTree r.0 × Ready n r.0 × (k < length r.0.nodes)

  try_action_total :
      (k : ℕ) (r : Graph × Bool) (a : Action)
      → IsUsable n a
      → Expanding k r
      → (r' : Graph × Bool) × (try_action order k r a ≡ some r') × Expanding k r'
  try_action_total k (g, found) a fits (tree, ready, lt) =
      let (x, at) = get_elem?_total g.nodes k lt in
      let (o, e, good) = successor_total n order x.state a ord fits (ready k x at) in
      go x at o e good
    where
      go :
          (x : Node)
          → get_elem? g.nodes k ≡ some x
          → (o : Option State) → successor order x.state a ≡ some o
          → ((t : State) → o ≡ some t → IsStateOf n t)
          → (r' : Graph × Bool) × (try_action order k (g, found) a ≡ some r') × Expanding k r'
      go x at none e good =
          ((g, found), try_action_skip order k g found x a at e, (tree, ready, lt))
      go x at (some t) e good =
          let (h, q, tree', ready', grown) =
            expand_with_total n order goal actions g k x t a at tree ready fits (good t refl) in
          (
            (h, true),
            try_action_expand order k g h found x a t at e q,
            (tree', ready', omega (arith, lt, grown)),
          )

  visit_inner_total :
      (g : Graph) (k : ℕ) (x : Node)
      → Sane g
      → get_elem? g.nodes k ≡ some x
      → x.type ≡ or_node
      → (r : Round) × (visit_inner order actions g k ≡ some r) × After r
  visit_inner_total g k x sane at type =
      let ((h, b), e, (tree, ready, lt)) =
        fold_steps_inv (try_action order k) (IsUsable n) (Expanding k) (try_action_total k)
          (g, false) actions usable (sane.tree, sane.ready, lt-length_of_get_elem? g.nodes k at) in
      let (good, looks) =
        fold_steps_keeps (try_action order k) (λ a. Memᴰ a actions)
          (Reached order goal actions g k x.state)
          (λ r a r' m p q. try_action-Reached order goal actions g k x.state r a r' m p q)
          (g, false) actions (h, b) (All-Memᴰ actions)
          (Good-refl order goal actions g sane.inv, (x, at, type, refl)) e in
      let (d, dies, tree', size) = propogate_dead_end_node_total h k tree lt in
      let good' = propogate_dead_end_node-Good order goal actions h d k good.inv dies in
      let marked =
        Sane-Good g d sane (Good-trans order goal actions g h d good good') tree'
          (Ready-Keeps n h d good'.keeps size ready) in
      let (m, here, _) = marked.root in
      elim (Bool-cases b) [
        | inl y ↦ (
          continue h,
          visit_inner_found order actions g h k b e y,
          Sane-Good g h sane good tree ready,
        )
        | inr y ↦
            let step = visit_inner_dead order actions g h d k m b e y dies here in
            elim (Bool-cases m.dead) [
              | inl z ↦ (
                finished (Policy.init false),
                step ∙ ap (λ c. some (if c then finished (Policy.init false) else continue d)) z,
                tt,
              )
              | inr z ↦ (
                continue d,
                step ∙ ap (λ c. some (if c then finished (Policy.init false) else continue d)) z,
                marked,
              )
            ]
      ]

  visit_goal_total :
      (g : Graph) (k : ℕ) (x : Node)
      → Sane g
      → get_elem? g.nodes k ≡ some x
      → x.type ≡ or_node
      → State.valuate x.state goal ≡ some true
      → (r : Round) × (visit_goal g k ≡ some r) × After r
  visit_goal_total g k x sane at type y =
      let (h, e, tree, size) =
        propogate_solved_node_total g k sane.tree (lt-length_of_get_elem? g.nodes k at) in
      let good =
        propogate_solved_node-Good order goal actions g h k x sane.inv at
          (subst (λ t. Claim order goal actions t x.state x.action_from_parent) (sym type)
            (reached y))
          e in
      let next = Sane-Good g h sane good tree (Ready-Keeps n g h good.keeps size sane.ready) in
      let (m, here, isroot) = next.root in
      let (p, q) = extract_policy_total h m tree here (next.inv.nodes h.root m here).id isroot in
      let step = visit_goal_step g h k m p e here q in
      elim (Bool-cases m.solved) [
        | inl z ↦ (finished p, step ∙ ap (λ c. some (if c then finished p else continue h)) z, tt)
        | inr z ↦ (continue h, step ∙ ap (λ c. some (if c then finished p else continue h)) z, next)
      ]

  round_empty :
      (g : Graph)
      → g.frontier ≡ []
      → round order goal actions g ≡ some (finished (Policy.init false))
  unfolding round is_frontier_empty
  round_empty g e = rw e

  pub round_total :
      (g : Graph) → Sane g → (r : Round) × (round order goal actions g ≡ some r) × After r
  round_total g sane = elim (List-cases g.frontier) [
    | inl e ↦ (finished (Policy.init false), round_empty g e, tt)
    | inr (i, rest, q) ↦
        let ((s, (x, at, type, _)), others) =
          subst (All (λ c. (s : State) × LooksOr g c s)) q sane.inv.frontier in
        let h : Graph = record g { frontier = rest } in
        let inv : Inv order goal actions h = record {
          nodes = λ k m e.
              NodeOk-Keeps order goal actions g h k m (Keeps-refl g) (sane.inv.nodes k m e);
          frontier = others;
        } in
        let next : Sane h = record {
          inv = inv;
          tree = frontier-IsTree g rest sane.tree;
          ready = sane.ready;
          root = sane.root;
        } in
        let (b, y) = valuate_total x.state goal (sane.ready i x at).0 def in
        let step = round-eq order goal actions g i rest x b q at (sane.inv.nodes i x at).id y in
        elim (Bool-cases b) [
          | inl z ↦
              let (r, e, after) = visit_goal_total h i x next at type (y ∙ ap some z) in
              (
                r,
                step
                    ∙ ap
                        (λ c. elim c [
                          | true ↦ visit_goal h i
                          | false ↦ visit_inner order actions h i
                        ])
                        z
                    ∙ e,
                after,
              )
          | inr z ↦
              let (r, e, after) = visit_inner_total h i x next at type in
              (
                r,
                step
                    ∙ ap
                        (λ c. elim c [
                          | true ↦ visit_goal h i
                          | false ↦ visit_inner order actions h i
                        ])
                        z
                    ∙ e,
                after,
              )
        ]
  ]
