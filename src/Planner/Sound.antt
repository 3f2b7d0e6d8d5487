-- ===== src/Planner/Sound.antt =====
-- Planner::find_policy: what a returned policy says about the initial state.
use mathlib.Core.Path.{subst, subst₂}
use mathlib.Core.Option.{some-injective}
use r2dtu_attention.Common.{
  ℕ, zero, suc, ◌≡◌, refl, ◌∙◌, sym, ap, Bool, true, false, Option, none, some, List, [], ◌∷◌, inl,
  inr, get_elem?, All, List-cases, Option-cases, none-some,
}
use r2dtu_attention.Formula.{Formula}
use r2dtu_attention.State.{State}
use r2dtu_attention.State
use r2dtu_attention.Action.{Action}
use r2dtu_attention.Graph.{
  Graph, Node, or_node_of, get_node, get_next_from_frontier, is_frontier_empty,
}
use r2dtu_attention.Policy.{Policy}
use r2dtu_attention.Policy
use r2dtu_attention.Planner.{
  visit_goal, visit_inner, Round, continue, finished, round, search_policy, find_policy,
  is_goal_node,
}
use r2dtu_attention.Planner.Winning.{
  Keeps-refl, LooksOr, Winning, reached, Claim, NodeOk, NodeOk-Keeps, NodesOk, Inv,
}
use r2dtu_attention.Planner.Mark.{Good}
use r2dtu_attention.Planner.Outcomes.{
  false-true, Outcome, root-Looks, visit_goal-Outcome, visit_inner-Outcome, Outcome-Good,
}

module _ (order : List ℕ → List ℕ) (goal : Formula) (actions : List Action) where
  -- The result of the branch is a variable here, so that rewriting leaves it alone.
  round_of_branch :
      (g : Graph) (i : ℕ) (rest : List ℕ) (n : Node) (b : Bool) (r : Option Round)
      → g.frontier ≡ i ∷ rest
      → get_elem? g.nodes i ≡ some n
      → get_elem? g.nodes n.id ≡ some n
      → State.valuate n.state goal ≡ some b
      → elim b [
        | true ↦ visit_goal (record g { frontier = rest }) n.id
        | false ↦ visit_inner order actions (record g { frontier = rest }) n.id
      ]
        ≡ r
      → round order goal actions g ≡ r
  unfolding round get_next_from_frontier get_node is_frontier_empty is_goal_node
  round_of_branch g i rest n true r q at at_id y z = rw (q, at, at_id, y) z
  round_of_branch g i rest n false r q at at_id y z = rw (q, at, at_id, y) z

  pub round-eq :
      (g : Graph) (i : ℕ) (rest : List ℕ) (n : Node) (b : Bool)
      → g.frontier ≡ i ∷ rest
      → get_elem? g.nodes i ≡ some n
      → n.id ≡ i
      → State.valuate n.state goal ≡ some b
      → round order goal actions g ≡ elim b [
        | true ↦ visit_goal (record g { frontier = rest }) i
        | false ↦ visit_inner order actions (record g { frontier = rest }) i
      ]
  round-eq g i rest n b q at id y =
      round_of_branch g i rest n b _ q at (ap (get_elem? g.nodes) id ∙ at) y refl
      ∙ ap
          (λ j. elim b [
            | true ↦ visit_goal (record g { frontier = rest }) j
            | false ↦ visit_inner order actions (record g { frontier = rest }) j
          ])
          id

  round-none :
      (g : Graph) (i : ℕ) (rest : List ℕ) (n : Node)
      → g.frontier ≡ i ∷ rest
      → get_elem? g.nodes i ≡ some n
      → n.id ≡ i
      → State.valuate n.state goal ≡ none
      → round order goal actions g ≡ none
  unfolding round get_next_from_frontier get_node is_frontier_empty is_goal_node
  round-none g i rest n q at id y = rw (q, at, id, at, y)

  -- A round takes the next node from the frontier.
  round-Outcome :
      (g : Graph) (s : State) (r : Round)
      → Inv order goal actions g
      → LooksOr g g.root s
      → round order goal actions g ≡ some r
      → Outcome order goal actions g s r
  unfolding round is_frontier_empty
  round-Outcome g s r v looks e = elim (List-cases g.frontier) [
    | inl empty' ↦
        subst (Outcome order goal actions g s)
          (some-injective (finished (Policy.init false)) r (rw empty' at e))
          (λ f. absurd (false-true f))
    | inr (i, rest, q) ↦
        let frontier = subst (All (λ c. (x : State) × LooksOr g c x)) q v.frontier in
        let (t, (n, at, type, st)) = frontier.0 in
        let h : Graph = record g { frontier = rest } in
        let w : Inv order goal actions h = record {
          nodes = λ k m x. NodeOk-Keeps order goal actions g h k m (Keeps-refl g) (v.nodes k m x);
          frontier = frontier.1;
        } in
        let good : Good order goal actions g h = record {
          inv = w;
          keeps = Keeps-refl g;
          root = refl;
        } in
        elim (Option-cases (State.valuate n.state goal)) [
          | inl none' ↦
              absurd (none-some (sym (round-none g i rest n q at (v.nodes i n at).id none') ∙ e))
          | inr (true, y) ↦ Outcome-Good order goal actions g h s r good (
              visit_goal-Outcome order goal actions h i n s r w looks at
                (subst₂ (λ a b. Claim order goal actions a b n.action_from_parent) (sym type) refl
                  (reached y))
                (sym (round-eq g i rest n true q at (v.nodes i n at).id y) ∙ e))
          | inr (false, y) ↦ Outcome-Good order goal actions g h s r good (
              visit_inner-Outcome order goal actions h i n s r w (n, at, type, refl)
                (sym (round-eq g i rest n false q at (v.nodes i n at).id y) ∙ e))
        ]
  ]

  search_policy-Winning :
      (fuel : ℕ) (g : Graph) (s : State) (p : Policy)
      → Inv order goal actions g
      → LooksOr g g.root s
      → search_policy order goal fuel actions g ≡ some p
      → p.solved ≡ true
      → Winning order goal actions s
  unfolding search_policy
  search_policy-Winning zero g s p v looks e solved = absurd (none-some e)
  search_policy-Winning (suc fuel) g s p v looks e solved =
      elim (Option-cases (round order goal actions g)) [
        | inl none' ↦ absurd (none-some (rw none' at e))
        | inr (continue h, q) ↦
            let good = round-Outcome g s (continue h) v looks q in
            search_policy-Winning fuel h s p good.inv
              (root-Looks order goal actions g h s good looks) (rw q at e) solved
        | inr (finished p', q) ↦
            let same = some-injective p' p (rw q at e) in
            round-Outcome g s (finished p') v looks q (ap (λ (x : Policy). x.solved) same ∙ solved)
      ]

  pub start-Inv :
      (s : State) (root : ℕ)
      → Inv order goal actions
          (record { root = root; frontier = 0 ∷ []; nodes = or_node_of s 0 0 true ∷ [] })
  start-Inv s root = record {
    nodes = only;
    frontier = ((s, (or_node_of s 0 0 true, refl, refl, refl)), tt);
  }
    where
      g : Graph
      g = record { root = root; frontier = 0 ∷ []; nodes = or_node_of s 0 0 true ∷ [] }

      only : NodesOk order goal actions g
      only zero n e =
          subst (NodeOk order goal actions g 0) (some-injective _ n e)
            (record { id = refl; sound = λ x. absurd (false-true x); links = tt })
      only (suc k) n e = absurd (none-some e)

-- When find_policy, within any number of rounds, returns a policy that is marked as solved, the
-- initial state can be won: the goal holds there, or some action of the library applies after which
-- every state that its owner may be in can be won. It is assumed that the root of a new graph, which
-- the constructor leaves without a value, happens to be 0.
pub find_policy-Winning :
    (order : List ℕ → List ℕ) (goal : Formula) (garbage fuel : ℕ) (actions : List Action)
    (initial : State) (p : Policy)
    → garbage ≡ 0
    → find_policy order goal garbage fuel actions initial ≡ some p
    → p.solved ≡ true
    → Winning order goal actions initial
unfolding find_policy
find_policy-Winning order goal garbage fuel actions initial p zero_root e solved =
    search_policy-Winning order goal actions fuel _ initial p
      (start-Inv order goal actions initial garbage)
      (
        or_node_of initial 0 0 true,
        ap (get_elem? (or_node_of initial 0 0 true ∷ [])) zero_root,
        refl,
        refl,
      )
      e solved
