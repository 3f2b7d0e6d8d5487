-- ===== src/Planner/Outcomes.antt =====
-- Planner::find_policy: what visiting a node leaves behind.
use mathlib.Core.Path.{subst, subst₂}
use mathlib.Core.Option.{some-injective}
use mathlib.Core.List.{Memᴰ}
use r2dtu_attention.Common.{
  ℕ, ◌≡◌, ◌⊎◌, refl, ◌∙◌, sym, ap, Bool, true, false, none, some, List, [], ◌∷◌, inl, inr,
  get_elem?, All, All-map, Bool-cases, Option-cases, none-some, fold_steps, fold_steps_keeps,
}
use r2dtu_attention.Formula.{Formula}
use r2dtu_attention.State.{State}
use r2dtu_attention.Action.{Action}
use r2dtu_attention.Graph.{Graph, Node, get_node, get_root_node}
use r2dtu_attention.Policy.{Policy}
use r2dtu_attention.Policy
use r2dtu_attention.Planner.{
  successor, expand_with, try_action, visit_goal, visit_inner, Round, continue, finished,
  extract_policy, propogate_solved_node, propogate_dead_end_node,
}
use r2dtu_attention.Planner.Winning.{LooksOr, LooksOr-Keeps, Winning, Claim, Inv}
use r2dtu_attention.Planner.Mark.{Good, Good-refl, Good-trans}
use r2dtu_attention.Planner.Propagate.{propogate_solved_node-Good, propogate_dead_end_node-Good}
use r2dtu_attention.Planner.Expand.{expand_with-Good}

pub All-Memᴰ {ℓ} : {A : Type ℓ} (xs : List A) → All (λ a. Memᴰ a xs) xs
All-Memᴰ [] = tt
All-Memᴰ (x ∷ xs) = (Memᴰ.head refl, All-map xs (λ a m. Memᴰ.tail m) (All-Memᴰ xs))

-- What a step on the expansion of a node may have done.
pub try_action_cases :
    (order : List ℕ → List ℕ) (k : ℕ) (g : Graph) (n : Node) (found : Bool) (a : Action)
    (r : Graph × Bool)
    → get_elem? g.nodes k ≡ some n
    → try_action order k (g, found) a ≡ some r
    → (r.0 ≡ g)
      ⊎ ((t : State) × (successor order n.state a ≡ some (some t))
          × (expand_with g k a t ≡ some r.0))
unfolding try_action get_node
try_action_cases order k g n found a r at e = elim (Option-cases (successor order n.state a)) [
  | inl none' ↦ absurd (none-some (rw (at, none') at e))
  | inr (none, s) ↦
      inl (ap (λ (x : Graph × Bool). x.0) (sym (some-injective _ _ (rw (at, s) at e))))
  | inr (some t, s) ↦ elim (Option-cases (expand_with g k a t)) [
    | inl none' ↦ absurd (none-some (rw (at, s, none') at e))
    | inr (h, q) ↦ inr (
      t,
      s,
      q
          ∙ ap some
              (ap (λ (x : Graph × Bool). x.0) (some-injective (h, true) r (rw (at, s, q) at e))),
    )
  ]
]

pub false-true : false ≡ true → ⊥
false-true e = cc

module _ (order : List ℕ → List ℕ) (goal : Formula) (actions : List Action) where
  -- The graph came from `g` by good steps, and position k has an Or node with state s.
  abbrev pub Reached : Graph → ℕ → State → Graph × Bool → Type 0
  Reached g k s r = Good order goal actions g r.0 × LooksOr r.0 k s

  pub try_action-Reached :
      (g : Graph) (k : ℕ) (s : State) (r : Graph × Bool) (a : Action) (r' : Graph × Bool)
      → Memᴰ a actions
      → Reached g k s r
      → try_action order k r a ≡ some r'
      → Reached g k s r'
  try_action-Reached g k s (h, found) a r' m (good, (n, at, type, st)) e =
      elim (try_action_cases order k h n found a r' at e) [
        | inl same ↦
            subst (λ x. Good order goal actions g x × LooksOr x k s) (sym same)
              (good, (n, at, type, st))
        | inr (t, applies, expanded) ↦
            let more =
              expand_with-Good order goal actions h r'.0 k n t a good.inv at type m applies
                expanded in
            (
              Good-trans order goal actions g h r'.0 good more,
              LooksOr-Keeps h r'.0 k s more.keeps (n, at, type, st),
            )
      ]

  -- What a round of the main loop leaves behind, for the state of the root.
  abbrev pub Outcome : Graph → State → Round → Type 0
  Outcome g initial (continue h) = Good order goal actions g h
  Outcome g initial (finished p) = p.solved ≡ true → Winning order goal actions initial

  pub root-Winning :
      (g : Graph) (n : Node) (s : State)
      → Inv order goal actions g
      → LooksOr g g.root s
      → get_elem? g.nodes g.root ≡ some n
      → n.solved ≡ true
      → Winning order goal actions s
  root-Winning g n s v (m, at, type, st) e solved =
      let same = some-injective m n (sym at ∙ e) in
      let claim = (v.nodes g.root m at).sound (ap (λ (x : Node). x.solved) same ∙ solved) in
      subst₂ (λ x y. Claim order goal actions x y m.action_from_parent) type st claim

  pub root-Looks :
      (g h : Graph) (s : State)
      → Good order goal actions g h
      → LooksOr g g.root s
      → LooksOr h h.root s
  root-Looks g h s good l =
      subst (λ x. LooksOr h x s) (sym good.root) (LooksOr-Keeps g h g.root s good.keeps l)

  pub visit_goal-Outcome :
      (g : Graph) (k : ℕ) (n : Node) (s : State) (r : Round)
      → Inv order goal actions g
      → LooksOr g g.root s
      → get_elem? g.nodes k ≡ some n
      → Claim order goal actions n.type n.state n.action_from_parent
      → visit_goal g k ≡ some r
      → Outcome g s r
  unfolding visit_goal get_root_node
  visit_goal-Outcome g k n s r v looks at claim e =
      elim (Option-cases (propogate_solved_node g k)) [
        | inl none' ↦ absurd (none-some (rw none' at e))
        | inr (h, q) ↦
            let good = propogate_solved_node-Good order goal actions g h k n v at claim q in
            elim (Option-cases (get_elem? h.nodes h.root)) [
              | inl none' ↦ absurd (none-some (rw (q, none') at e))
              | inr (root, here) ↦ elim (Bool-cases root.solved) [
                | inl y ↦ elim (Option-cases (extract_policy h)) [
                  | inl none' ↦ absurd (none-some (rw (q, here, y, none') at e))
                  | inr (p, x) ↦
                      subst (Outcome g s) (some-injective (finished p) r (rw (q, here, y, x) at e))
                        (λ _. root-Winning h root s good.inv (root-Looks g h s good looks) here y)
                ]
                | inr y ↦
                    subst (Outcome g s) (some-injective (continue h) r (rw (q, here, y) at e)) good
              ]
            ]
      ]

  pub visit_inner-Outcome :
      (g : Graph) (k : ℕ) (n : Node) (s : State) (r : Round)
      → Inv order goal actions g
      → LooksOr g k n.state
      → visit_inner order actions g k ≡ some r
      → Outcome g s r
  unfolding visit_inner get_root_node
  visit_inner-Outcome g k n s r v looks e =
      elim (Option-cases (fold_steps (try_action order k) (g, false) actions)) [
        | inl none' ↦ absurd (none-some (rw none' at e))
        | inr ((h, found), q) ↦
            let (good, l) =
              fold_steps_keeps (try_action order k) (λ a. Memᴰ a actions) (Reached g k n.state)
                (λ x a y. try_action-Reached g k n.state x a y) (g, false) actions (h, found)
                (All-Memᴰ actions) (Good-refl order goal actions g v, looks) q in
            elim (Bool-cases found) [
              | inl y ↦ subst (Outcome g s) (some-injective (continue h) r (rw (q, y) at e)) good
              | inr y ↦ elim (Option-cases (propogate_dead_end_node h k)) [
                | inl none' ↦ absurd (none-some (rw (q, y, none') at e))
                | inr (d, x) ↦
                    let dead = propogate_dead_end_node-Good order goal actions h d k good.inv x in
                    elim (Option-cases (get_elem? d.nodes d.root)) [
                      | inl none' ↦ absurd (none-some (rw (q, y, x, none') at e))
                      | inr (root, here) ↦ elim (Bool-cases root.dead) [
                        | inl z ↦
                            subst (Outcome g s)
                              (some-injective (finished (Policy.init false)) r
                                (rw (q, y, x, here, z) at e))
                              (λ f. absurd (false-true f))
                        | inr z ↦
                            subst (Outcome g s)
                              (some-injective (continue d) r (rw (q, y, x, here, z) at e))
                              (Good-trans order goal actions g h d good dead)
                      ]
                    ]
              ]
            ]
      ]

  pub Outcome-Good :
      (g h : Graph) (s : State) (r : Round)
      → Good order goal actions g h
      → Outcome h s r
      → Outcome g s r
  Outcome-Good g h s (continue k) good o = Good-trans order goal actions g h k good o
  Outcome-Good g h s (finished p) good o = o
